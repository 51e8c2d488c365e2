-- ===== src/Streams/Lines.antt =====
-- How long a line can be (relay/src/main.rs, `read_line_paced`).
use nightdrop.Prelude.{
  List, Bool-cases, Option, arith, inl, inr, length, ltb, max, none, some, ℕ, ◌++◌, ◌+◌, ◌≡◌, ◌≤◌,
  All, [], length-append, suc, take, zero, ◌&&◌, ◌∷◌,
}
use nightdrop.Prelude.Bytes.{Bytes}
use nightdrop.Prelude.Utf8.{from_utf8_lossy}
use nightdrop.Streams.{
  line, idle, broken, chunk, LineResult, Turn, bytes_of, grow, take_chunk, Arrival, Pace, newline,
  on_arrival, read_line,
}

-- A line of at most this many bytes before what is not UTF-8 was replaced.
abbrev pub IsLineWithin : ℕ → Bytes → Type 0
IsLineWithin n l = (raw : Bytes) × (from_utf8_lossy raw ≡ l) × (length raw ≤ n)

-- A chunk of at most `k` bytes, the capacity of the stream's buffer.
abbrev pub IsChunkOf : ℕ → Turn → Type 0
IsChunkOf k t = length (bytes_of t.arrival) ≤ k

length-take-le_self : (i : ℕ) (c : Bytes) → length (take i c) ≤ length c
length-take-le_self zero c = omega arith
length-take-le_self (suc i) [] = omega arith
length-take-le_self (suc i) (b ∷ c) = omega (arith, length-take-le_self i c)

line-injective : {a b : Bytes} → line a ≡ line b → a ≡ b
line-injective e = cc

take_chunk_bound :
    (max others k : ℕ) (buf c : Bytes) (place : Option ℕ) (rest : LineResult) (l : Bytes)
    → length buf ≤ max
    → length c ≤ k
    → (length (buf ++ c) ≤ max → rest ≡ line l → IsLineWithin (max + k) l)
    → take_chunk max others buf c place rest ≡ line l
    → IsLineWithin (max + k) l
unfolding take_chunk
take_chunk_bound max others k buf c (some i) rest l small short later h =
    elim (Bool-cases (grow (others + length buf) i).0) [
      | inl e ↦ (
        buf ++ take i c,
        line-injective (rw e at h),
        omega (arith, length-append buf (take i c), length-take-le_self i c, small, short),
      )
      | inr e ↦ let impossible = rw e at h in cc
    ]
take_chunk_bound max others k buf c none rest l small short later h =
    elim (Bool-cases (grow (others + length buf) (length c)).0) [
      | inl e ↦ elim (Bool-cases (ltb max (length (buf ++ c)))) [
        | inl f ↦ let impossible = rw (e, f) at h in cc
        | inr f ↦ later (ground (arith, f)) (rw (e, f) at h)
      ]
      | inr e ↦ let impossible = rw e at h in cc
    ]

on_arrival_bound :
    (max others k : ℕ) (buf : Bytes) (a : Arrival) (rest : LineResult) (l : Bytes)
    → length buf ≤ max
    → length (bytes_of a) ≤ k
    → (length (buf ++ bytes_of a) ≤ max → rest ≡ line l → IsLineWithin (max + k) l)
    → on_arrival max others buf a rest ≡ line l
    → IsLineWithin (max + k) l
unfolding on_arrival
on_arrival_bound max others k buf idle rest l small short later h = cc
on_arrival_bound max others k buf (broken e) rest l small short later h = cc
on_arrival_bound max others k [] (chunk []) rest l small short later h = cc
on_arrival_bound max others k (b ∷ buf) (chunk []) rest l small short later h =
    (b ∷ buf, line-injective h, omega (arith, small))
on_arrival_bound max others k buf (chunk (b ∷ c)) rest l small short later h =
    take_chunk_bound max others k buf (b ∷ c) (newline (b ∷ c)) rest l small short later h

read_line_bound_from :
    (pace : Pace) (max k : ℕ) (buf : Bytes) (turns : List Turn) (l : Bytes)
    → length buf ≤ max
    → All (IsChunkOf k) turns
    → read_line pace max buf turns ≡ line l
    → IsLineWithin (max + k) l
unfolding read_line
read_line_bound_from pace max k buf [] l small short h = cc
read_line_bound_from pace max k buf (t ∷ turns) l small short h =
    elim (Bool-cases
      (ltb pace.grace t.elapsed && pace.below_rate (length buf) pace.min_rate t.elapsed)) [
        | inl slow ↦ let impossible = rw slow at h in cc
        | inr fast ↦
            on_arrival_bound max t.others k buf t.arrival _ l small short.0
              (λ still.
                read_line_bound_from pace max k (buf ++ bytes_of t.arrival) turns l still short.1)
              (rw fast at h)
      ]

-- A line that the reader returns had at most one chunk more bytes than the limit when it arrived,
-- however it arrived.
read_line_bound :
    (pace : Pace) (max k : ℕ) (turns : List Turn) (l : Bytes)
    → All (IsChunkOf k) turns
    → read_line pace max [] turns ≡ line l
    → IsLineWithin (max + k) l
read_line_bound pace max k turns l short h =
    read_line_bound_from pace max k [] turns l (omega arith) short h
