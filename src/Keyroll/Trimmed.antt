-- ===== src/Keyroll/Trimmed.antt =====
-- Trimming twice is trimming once (core/src/keyroll.rs, where a trimmed key is trimmed again when the
-- stored rotation is checked).
use nightdrop.Keyroll.{cons_unless_blank, is_whitespace, trim, trim_end, trim_start}
use nightdrop.Prelude.{Bool-cases, [], false, inl, inr, refl, ℕ, ◌∙◌, ◌∷◌, ◌≡◌}
use nightdrop.Prelude.Bytes.{Bytes}

blank-cases :
    (c : ℕ) (s : Bytes) → is_whitespace c ≡ false → (t : Bytes) × (cons_unless_blank c s ≡ c ∷ t)
unfolding cons_unless_blank
blank-cases c [] solid = ([], rw solid refl)
blank-cases c (d ∷ s) solid = (d ∷ s, refl)

cons-cases :
    (c : ℕ) (s : Bytes) → trim_end s ≡ s → trim_end (cons_unless_blank c s) ≡ cons_unless_blank c s
unfolding cons_unless_blank trim_end
cons-cases c [] e = elim (Bool-cases (is_whitespace c)) [
  | inl blank ↦ rw blank refl
  | inr solid ↦ rw (solid, solid) refl
]
cons-cases c (d ∷ s) e = rw e refl

trim_end-trim_end : (s : Bytes) → trim_end (trim_end s) ≡ trim_end s
unfolding trim_end
trim_end-trim_end [] = refl
trim_end-trim_end (c ∷ s) = cons-cases c (trim_end s) (trim_end-trim_end s)

trim_start-trim : (s : Bytes) → trim_start (trim s) ≡ trim s
unfolding trim trim_start
trim_start-trim [] = unfold trim_end in refl
trim_start-trim (c ∷ s) = elim (Bool-cases (is_whitespace c)) [
  | inl blank ↦ rw blank (trim_start-trim s)
  | inr solid ↦
      let (t, kept) = blank-cases c (trim_end s) solid in
      let ends : trim_end (c ∷ s) ≡ c ∷ t = unfold trim_end in kept in rw (solid, ends, solid) refl
]

pub trim-trim : (s : Bytes) → trim (trim s) ≡ trim s
trim-trim s =
    let start : trim (trim s) ≡ trim_end (trim s) = unfold trim in rw (trim_start-trim s) refl in
    start ∙ (unfold trim in trim_end-trim_end (trim_start s))
