-- ===== src/Tests/Limits.antt =====
-- Runs of a contact's allowance and of the cutting of a text.
use nightdrop.Limits.{
  admit, admitted, Allowance, max_media_bytes_per_day, max_messages_per_day, clamp_text, cut_mark,
  is_char_boundary, max_text_bytes,
}
use nightdrop.Limits.Days.{
  IsWithin, admissions, admit_iff, kept_media, notices, run, window_bounds, HasLeft,
}
use nightdrop.Limits.Text.{clamp_text_lem, IsUtf8}
use nightdrop.Prelude.{
  List, [], arith, false, ℕ, ◌+◌, ◌<◌, ◌↔◌, ◌∷◌, ◌≡◌, ◌≤◌, take, true, ◌++◌, ◌⊎◌, refl, suc, zero,
}
use nightdrop.Prelude.Bytes.{codes}

abbrev quiet : Allowance
quiet = record { window_start = 1000; messages = 4999; media_bytes = 0; noticed = false }

abbrev arrivals : List (ℕ × ℕ)
arrivals = (2000, 500) ∷ (3000, 0) ∷ (4000, 0) ∷ []

quiet-IsWithin : IsWithin quiet
quiet-IsWithin = record { few = omega arith; light = omega arith }

window_bounds_example :
    let ds = (run quiet arrivals).0 in
    (4999 + admissions ds ≤ max_messages_per_day)
    × (0 + kept_media arrivals ds ≤ max_media_bytes_per_day)
    × (notices ds ≤ 1)
window_bounds_example = window_bounds quiet arrivals quiet-IsWithin (
  (omega arith, omega arith, omega arith),
  ((omega arith, omega arith, omega arith), ((omega arith, omega arith, omega arith), tt)),
)

admit_iff_example :
    (HasLeft quiet 2000
      × ((admit quiet 2000 500).0.window_start ≡ 2000)
      × (((admit quiet 2000 500).1 ≡ admitted) ↔ (500 ≤ max_media_bytes_per_day)))
    ⊎ (¬ HasLeft quiet 2000
        × ((admit quiet 2000 500).0.window_start ≡ quiet.window_start)
        × (((admit quiet 2000 500).1 ≡ admitted) ↔ (
            (quiet.messages < max_messages_per_day)
            × (quiet.media_bytes + 500 ≤ max_media_bytes_per_day))))
admit_iff_example = admit_iff quiet 2000 500 quiet-IsWithin (omega arith)

hi-IsUtf8 : IsUtf8 (codes "hi")
unfolding is_char_boundary
hi-IsUtf8 zero le = (0, omega arith, omega arith, refl)
hi-IsUtf8 (suc zero) le = (1, omega arith, omega arith, refl)
hi-IsUtf8 (suc (suc zero)) le = (2, omega arith, omega arith, refl)
hi-IsUtf8 (suc (suc (suc i))) le = absurd (omega (arith, le))

clamp_text_lem_example :
    let text = codes "hi" in
    ((2 ≤ max_text_bytes) × (clamp_text text ≡ text))
    ⊎ ((cut : ℕ) × (max_text_bytes ≤ cut + 3)
        × (cut ≤ max_text_bytes)
        × (max_text_bytes < 2)
        × (is_char_boundary text cut ≡ true)
        × (clamp_text text ≡ take cut text ++ cut_mark))
clamp_text_lem_example = clamp_text_lem (codes "hi") hi-IsUtf8
