-- ===== src/Limits/Text.antt =====
-- Cutting a text at a character boundary (core/src/node/limits.rs, `clamp_text`).
use nightdrop.Limits.{is_char_boundary, boundary_before, clamp_text, cut_mark, max_text_bytes}
use nightdrop.Prelude.{
  Bool-cases, [], arith, inl, inr, leb, leb→le, leb→lt, length, refl, suc, take, true, zero, ℕ,
  ◌++◌, ◌+◌, ◌<◌, ◌∷◌, ◌≡◌, ◌≤◌, ◌⊎◌,
}
use nightdrop.Prelude.Bytes.{Bytes}

boundary_before_lem :
    (text : Bytes) (end : ℕ)
    → (boundary_before text end ≤ end) × (is_char_boundary text (boundary_before text end) ≡ true)
unfolding boundary_before
boundary_before_lem [] zero = (omega arith, unfold is_char_boundary in refl)
boundary_before_lem (b ∷ text) zero = (omega arith, unfold is_char_boundary in refl)
boundary_before_lem [] (suc end) = elim (Bool-cases (is_char_boundary [] (suc end))) [
  | inl e ↦ rw e (omega arith, e)
  | inr e ↦ let (le, at) = boundary_before_lem [] end in rw e (omega arith, at)
]
boundary_before_lem (b ∷ text) (suc end) =
    elim (Bool-cases (is_char_boundary (b ∷ text) (suc end))) [
      | inl e ↦ rw e (omega arith, e)
      | inr e ↦ let (le, at) = boundary_before_lem (b ∷ text) end in rw e (omega arith, at)
    ]

boundary_before_last :
    (text : Bytes) (end j : ℕ)
    → j ≤ end
    → is_char_boundary text j ≡ true
    → j ≤ boundary_before text end
unfolding boundary_before
boundary_before_last text zero j le b = le
boundary_before_last text (suc end) j le b =
    ground (arith, boundary_before_last text end j, last_place (suc end) j le)
  where
    last_place : (m i : ℕ) → i ≤ m → (i ≡ m) ⊎ (i < m)
    last_place m i h = ground arith

-- In UTF-8 a character has at most four bytes, so every place is within three bytes of a boundary.
abbrev pub IsUtf8 : Bytes → Type 0
IsUtf8 text =
    (i : ℕ) → i ≤ length text → (j : ℕ) × (j ≤ i) × (i ≤ j + 3) × (is_char_boundary text j ≡ true)

-- A text in UTF-8 within the limit is kept as it is. A longer one is cut at a character boundary at
-- most three bytes before the limit, and marked.
pub clamp_text_lem :
    (text : Bytes)
    → IsUtf8 text
    → ((length text ≤ max_text_bytes) × (clamp_text text ≡ text))
      ⊎ ((cut : ℕ) × (max_text_bytes ≤ cut + 3)
          × (cut ≤ max_text_bytes)
          × (max_text_bytes < length text)
          × (is_char_boundary text cut ≡ true)
          × (clamp_text text ≡ take cut text ++ cut_mark))
unfolding clamp_text
clamp_text_lem text utf8 = elim (Bool-cases (leb (length text) max_text_bytes)) [
  | inl short ↦ inl (leb→le _ _ short, rw short refl)
  | inr long ↦
      let (j, below, near, at) = utf8 max_text_bytes (omega (arith, leb→lt _ _ long)) in
      let (fits, boundary) = boundary_before_lem text max_text_bytes in
      inr (
        boundary_before text max_text_bytes,
        omega (arith, boundary_before_last text max_text_bytes j below at),
        fits,
        leb→lt _ _ long,
        boundary,
        rw long refl,
      )
]
