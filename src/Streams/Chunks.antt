-- ===== src/Streams/Chunks.antt =====
-- A line and the chunks that it arrives in (relay/src/main.rs, `read_line_paced`).
use mathlib.Core.List.{append_assoc}
use nightdrop.Prelude.{
  List, Bool-cases, Option-cases, [], false, inl, inr, length, max, none, refl, some, take, ℕ, ◌++◌,
  ◌+◌, ◌==◌, ◌∷◌, ◌≡◌, ◌≤◌, All, ap, arith, length-append, le→leb, ltb, true, ◌∙◌,
}
use nightdrop.Prelude.Bytes.{Bytes}
use nightdrop.Prelude.Utf8.{IsScalar, encode_text, from_utf8_lossy, from_utf8_lossy-encode_text}
use nightdrop.Streams.{
  one_later, line, chunk, Pace, Turn, bytes_of, max_line_bytes_in_flight, newline, LineResult, grow,
  on_arrival, read_line, take_chunk,
}

abbrev pub joined : List Turn → Bytes
joined [] = []
joined (t ∷ turns) = bytes_of t.arrival ++ joined turns

-- A chunk in time, while the other streams leave room for a whole line.
pub record IsSmooth (pace : Pace) (max : ℕ) (t : Turn) : Type 0 where
  pub byte : ℕ
  pub bytes : Bytes
  pub arrives : t.arrival ≡ chunk (byte ∷ bytes)
  pub in_time : t.elapsed ≤ pace.grace
  pub room : t.others + max ≤ max_line_bytes_in_flight

-- The newline is in the chunk, or the chunk is the beginning of the line.
data Split (c before after rest : Bytes) : Type 0 where
  ends :
      newline c ≡ some (length before) → take (length before) c ≡ before → Split c before after rest
  goes_on :
      (more : Bytes)
      → newline c ≡ none
      → before ≡ c ++ more
      → rest ≡ more ++ 10 ∷ after
      → newline more ≡ none
      → Split c before after rest

newline-cons :
    (b : ℕ) (bytes : Bytes)
    → newline (b ∷ bytes) ≡ none
    → ((b == 10) ≡ false) × (newline bytes ≡ none)
unfolding newline one_later
newline-cons b bytes h = elim (Bool-cases (b == 10)) [
  | inl e ↦ let impossible = rw e at h in cc
  | inr e ↦ elim (Option-cases (newline bytes)) [
    | inl f ↦ (e, f)
    | inr (i, f) ↦ let impossible = rw (e, f) at h in cc
  ]
]

newline-none :
    (b : ℕ) (bytes : Bytes) → (b == 10) ≡ false → newline bytes ≡ none → newline (b ∷ bytes) ≡ none
unfolding newline one_later
newline-none b bytes e f = rw (e, f) refl

newline-some :
    (b i : ℕ) (bytes : Bytes)
    → (b == 10) ≡ false
    → newline bytes ≡ some i
    → newline (b ∷ bytes) ≡ some (1 + i)
unfolding newline one_later
newline-some b i bytes e f = rw (e, f) refl

newline_head : (bytes : Bytes) → newline (10 ∷ bytes) ≡ some 0
unfolding newline
newline_head bytes = refl

split :
    (c before after rest : Bytes)
    → c ++ rest ≡ before ++ 10 ∷ after
    → newline before ≡ none
    → Split c before after rest
split [] before after rest h clean = goes_on before (unfold newline in refl) refl h clean
split (x ∷ c) [] after rest h clean =
    let head : x ≡ 10 = cc (h) in rw head (ends (newline_head c) refl)
split (x ∷ c) (y ∷ before) after rest h clean =
    let head : y ≡ x = cc (h) in
    let tail : c ++ rest ≡ before ++ 10 ∷ after = cc (h) in
    let (not_here, later) = newline-cons y before clean in
    elim (split c before after rest tail later) [
      | ends at_end same_bytes ↦ rw (← head) (
          ends (newline-some y (length before) c not_here at_end ∙ ap some (omega arith))
            (ap (◌∷◌ y) same_bytes))
      | goes_on more none_in whole left clean_more ↦
          rw (← head)
            (goes_on more (newline-none y c not_here none_in) (ap (◌∷◌ y) whole) left clean_more)
    ]

grow_room :
    (in_flight n : ℕ) → in_flight + n ≤ max_line_bytes_in_flight → (grow in_flight n).0 ≡ true
unfolding grow
grow_room in_flight n h = rw (le→leb _ _ h) refl

take_chunk_ends :
    (max others i : ℕ) (buf c : Bytes) (rest : LineResult)
    → others + length buf + i ≤ max_line_bytes_in_flight
    → take_chunk max others buf c (some i) rest ≡ line (from_utf8_lossy (buf ++ take i c))
unfolding take_chunk
take_chunk_ends max others i buf c rest room = rw (grow_room _ _ room) refl

take_chunk_goes_on :
    (max others : ℕ) (buf c : Bytes) (rest : LineResult)
    → others + length buf + length c ≤ max_line_bytes_in_flight
    → length (buf ++ c) ≤ max
    → take_chunk max others buf c none rest ≡ rest
unfolding take_chunk
take_chunk_goes_on max others buf c rest room short =
    let within : ltb max (length (buf ++ c)) ≡ false = ground (arith, short) in
    rw (grow_room _ _ room, within) refl

read_line_turn :
    (pace : Pace) (max : ℕ) (buf : Bytes) (t : Turn) (turns : List Turn)
    (smooth : IsSmooth pace max t)
    → read_line pace max buf (t ∷ turns)
      ≡ take_chunk max t.others buf
          (bytes_of t.arrival)
          (newline (bytes_of t.arrival))
          (read_line pace max (buf ++ bytes_of t.arrival) turns)
unfolding read_line on_arrival
read_line_turn pace max buf t turns smooth =
    let fast : ltb pace.grace t.elapsed ≡ false = ground (arith, smooth.in_time) in
    rw (smooth.arrives, fast) refl

-- In time, and while the other streams leave room for a line of the largest size, the reader returns
-- the bytes before the first newline, if these are within the limit, with what is not UTF-8 in them
-- replaced as `from_utf8_lossy` does, however the bytes are cut into chunks (within a character too)
-- and whatever follows the newline.
pub read_line_any_split :
    (pace : Pace) (max : ℕ) (buf before after : Bytes) (turns : List Turn)
    → All (IsSmooth pace max) turns
    → joined turns ≡ before ++ 10 ∷ after
    → newline before ≡ none
    → length (buf ++ before) ≤ max
    → read_line pace max buf turns ≡ line (from_utf8_lossy (buf ++ before))
read_line_any_split pace max buf [] after [] smooth text clean short = cc
read_line_any_split pace max buf (b ∷ before) after [] smooth text clean short = cc
read_line_any_split pace max buf before after (t ∷ turns) (smooth, rest) text clean short =
    let c : Bytes = bytes_of t.arrival in
    let lengths = length-append buf before in
    let room = smooth.room in
    read_line_turn pace max buf t turns smooth
    ∙ elim (split c before after (joined turns) text clean) [
      | ends place same_bytes ↦ rw place (
          take_chunk_ends max t.others (length before) buf c _ (omega (arith, short, lengths, room))
          ∙ rw same_bytes refl)
      | goes_on more none_in whole left clean_more ↦
          let lens : length before ≡ length c + length more =
            ap length whole ∙ length-append c more in
          let total : length (buf ++ c) + length more ≤ max =
            omega (arith, short, lengths, lens, length-append buf c) in
          rw none_in (
            take_chunk_goes_on max t.others buf c _ (omega (arith, short, lengths, lens, room))
              (omega (arith, total))
            ∙ read_line_any_split pace max (buf ++ c) more after turns rest left clean_more
                (omega (arith, total, length-append (buf ++ c) more))
            ∙ rw (whole, append_assoc) refl)
    ]

-- Under the same conditions, a request that is text in UTF-8 is returned as it is.
read_line_text :
    (pace : Pace) (max : ℕ) (text : List ℕ) (after : Bytes) (turns : List Turn)
    → All IsScalar text
    → All (IsSmooth pace max) turns
    → joined turns ≡ encode_text text ++ 10 ∷ after
    → newline (encode_text text) ≡ none
    → length (encode_text text) ≤ max
    → read_line pace max [] turns ≡ line (encode_text text)
read_line_text pace max text after turns scalars smooth received clean short =
    read_line_any_split pace max [] (encode_text text) after turns smooth received clean short
    ∙ ap line (from_utf8_lossy-encode_text text scalars)
