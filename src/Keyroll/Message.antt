-- ===== src/Keyroll/Message.antt =====
-- A rotation's message names its purpose, sequence number and key (core/src/keyroll.rs, `message`).
use native.Mathlib.Nat.{pow-suc}
use nightdrop.Keyroll.{update, directory, decimal, Purpose, label, message}
use nightdrop.Prelude.{
  Bool-cases, [], inl, inr, ltb, refl, suc, zero, ℕ, ◌%◌, ◌*◌, ◌++◌, ◌+◌, ◌-◌, ◌/◌, ◌<◌, ◌^◌, ◌∷◌,
  ◌≡◌, All, All-append, ap, arith, drop, sym, ◌∙◌, ◌≤◌, length,
}
use nightdrop.Prelude.Bytes.{Bytes}

-- The number that digits spell.
read : ℕ → Bytes → ℕ
read acc [] = acc
read acc (d ∷ ds) = read (acc * 10 + (d - 48)) ds

read-append : (acc : ℕ) (ds es : Bytes) → read acc (ds ++ es) ≡ read (read acc ds) es
unfolding read
read-append acc [] es = refl
read-append acc (d ∷ ds) es = read-append (acc * 10 + (d - 48)) ds es

tenth : (fuel n : ℕ) → n < 10 ^ suc (suc fuel) → n / 10 < 10 ^ suc fuel
tenth fuel n small =
    let power : 10 ^ suc (suc fuel) ≡ 10 ^ suc fuel * 10 = pow-suc 10 (suc fuel) in
    omega (arith, small, power)

read-decimal : (fuel n : ℕ) → n < 10 ^ suc fuel → read 0 (decimal fuel n) ≡ n
unfolding read decimal
read-decimal zero n small = ground arith
read-decimal (suc fuel) n small = elim (Bool-cases (ltb n 10)) [
  | inl e ↦ rw e (ground arith)
  | inr e ↦
      rw (e, read-append 0 (decimal fuel (n / 10)) ((48 + n % 10) ∷ []))
        (omega (arith, read-decimal fuel (n / 10) (tenth fuel n small)))
]

-- No digit is a line break.
decimal-digits : (fuel n : ℕ) → All (λ d. 48 ≤ d) (decimal fuel n)
unfolding decimal
decimal-digits zero n = (omega arith, tt)
decimal-digits (suc fuel) n = elim (Bool-cases (ltb n 10)) [
  | inl e ↦ rw e (omega arith, tt)
  | inr e ↦
      rw e (All-append _ (decimal fuel (n / 10)) _ (decimal-digits fuel (n / 10)) (omega arith, tt))
]

-- What stands before the first line break, and after it.
split_line :
    (xs ys rest other : Bytes)
    → All (λ d. 48 ≤ d) xs
    → All (λ d. 48 ≤ d) ys
    → xs ++ 10 ∷ rest ≡ ys ++ 10 ∷ other
    → (xs ≡ ys) × (rest ≡ other)
split_line [] [] rest other p q e = (refl, cc)
split_line [] (y ∷ ys) rest other p (q, qs) e =
    let impossible : 10 ≡ y = cc in absurd (omega (arith, impossible, q))
split_line (x ∷ xs) [] rest other (p, ps) q e =
    let impossible : x ≡ 10 = cc in absurd (omega (arith, impossible, p))
split_line (x ∷ xs) (y ∷ ys) rest other (p, ps) (q, qs) e =
    let heads : x ≡ y = cc in
    let tails : xs ++ 10 ∷ rest ≡ ys ++ 10 ∷ other = cc in
    let (same_line, same_rest) = split_line xs ys rest other ps qs tails in (cc, same_rest)

label-letters : (p : Purpose) → All (λ d. 48 ≤ d) (label p)
unfolding label
label-letters update = ground arith
label-letters directory = ground arith

label-injective : (p q : Purpose) → label p ≡ label q → p ≡ q
unfolding label
label-injective update update e = refl
label-injective directory directory e = refl
label-injective update directory e =
    let lengths : ◌≡◌ {A = ℕ} 6 9 = ap length e in absurd (omega (arith, lengths))
label-injective directory update e =
    let lengths : ◌≡◌ {A = ℕ} 9 6 = ap length e in absurd (omega (arith, lengths))

pub message-injective :
    (p q : Purpose) (n m : ℕ) (k j : Bytes)
    → n < 10 ^ 20
    → m < 10 ^ 20
    → message p n k ≡ message q m j
    → (p ≡ q) × (n ≡ m) × (k ≡ j)
unfolding message
message-injective p q n m k j n_small m_small e =
    let lines : label p ++ 10 ∷ (decimal 19 n ++ 10 ∷ k)
        ≡ label q ++ 10 ∷ (decimal 19 m ++ 10 ∷ j) =
      ap (drop 26) e in
    let (same_label, rest) =
      split_line (label p) (label q) (decimal 19 n ++ 10 ∷ k) (decimal 19 m ++ 10 ∷ j)
        (label-letters p) (label-letters q) lines in
    let (same_digits, same_key) =
      split_line (decimal 19 n) (decimal 19 m) k j (decimal-digits 19 n) (decimal-digits 19 m)
        rest in
    let same_seq =
      sym (read-decimal 19 n n_small) ∙ ap (read 0) same_digits ∙ read-decimal 19 m m_small in
    (label-injective p q same_label, same_seq, same_key)
