-- ===== src/Limits/Days.antt =====
-- One contact's allowance over a sequence of messages (core/src/node/limits.rs, `Allowance::admit`).
use nightdrop.Limits.{
  admitted, drop_and_notice, dropped, Admit, Allowance, admit, max_media_bytes_per_day,
  max_messages_per_day, day_secs, u64_max,
}
use nightdrop.Prelude.{
  List, [], arith, ℕ, ◌∷◌, ◌≤◌, All, Bool, false, suc, true, ◌+◌, ◌<◌, ◌^◌, ◌↔◌, ◌≡◌, Bool-cases,
  inl, inr, leb, ltb, min, ◌||◌, ◌⊎◌,
}

-- What was decided for each message, in order, and the state after them.
pub run : Allowance → List (ℕ × ℕ) → List Admit × Allowance
run a [] = ([], a)
run a ((now, media) ∷ rest) =
    let (a', d) = admit a now media in let (ds, end_state) = run a' rest in (d ∷ ds, end_state)

-- Within the limits, and a notice only once something was refused.
pub record IsWithin (a : Allowance) : Type 0 where
  pub few : a.messages ≤ max_messages_per_day
  pub light : a.media_bytes ≤ max_media_bytes_per_day

admit-IsWithin : (a : Allowance) (now media : ℕ) → IsWithin a → IsWithin (admit a now media).0
unfolding admit
admit-IsWithin a now media w = record {
  few = ground (arith, w.few);
  light = ground (arith, w.light);
}

-- `now` falls into the window that `a` counts for, and the window's end is representable.
abbrev pub InWindow : Allowance → ℕ → Type 0
InWindow a now =
    (a.window_start ≤ now)
    × (now < a.window_start + day_secs)
    × (a.window_start + day_secs ≤ u64_max)

abbrev pub admissions : List Admit → ℕ
admissions [] = 0
admissions (admitted ∷ ds) = suc (admissions ds)
admissions (drop_and_notice ∷ ds) = admissions ds
admissions (dropped ∷ ds) = admissions ds

abbrev pub notices : List Admit → ℕ
notices [] = 0
notices (admitted ∷ ds) = notices ds
notices (drop_and_notice ∷ ds) = suc (notices ds)
notices (dropped ∷ ds) = notices ds

-- The attachment bytes of the messages that were admitted.
abbrev pub kept_media : List (ℕ × ℕ) → List Admit → ℕ
kept_media ((_, media) ∷ rest) (admitted ∷ ds) = media + kept_media rest ds
kept_media (_ ∷ rest) (_ ∷ ds) = kept_media rest ds
kept_media _ _ = 0

abbrev bit : Bool → ℕ
bit true = 1
bit false = 0

-- One message: either it was admitted and counted, or only the notice flag may have changed.
record Counted (a : Allowance) (size : ℕ) (d : Admit) (a' : Allowance) : Type 0 where
  start : a'.window_start ≡ a.window_start
  messages : a'.messages ≡ a.messages + admissions (d ∷ [])
  media : a'.media_bytes ≡ a.media_bytes + kept_media ((0, size) ∷ []) (d ∷ [])
  notice : bit a'.noticed ≡ bit a.noticed + notices (d ∷ [])

admit-Counted :
    (a : Allowance) (now media : ℕ)
    → InWindow a now
    → Counted a media (admit a now media).1 (admit a now media).0
unfolding admit
admit-Counted a now media w = record {
  start = ground (arith, w);
  messages = ground (arith, w);
  media = ground (arith, w);
  notice = ground (arith, w);
}

admissions-cons :
    (d : Admit) (ds : List Admit) → admissions (d ∷ ds) ≡ admissions (d ∷ []) + admissions ds
admissions-cons d ds = ground arith

notices-cons : (d : Admit) (ds : List Admit) → notices (d ∷ ds) ≡ notices (d ∷ []) + notices ds
notices-cons d ds = ground arith

kept_media-cons :
    (now media : ℕ) (rest : List (ℕ × ℕ)) (d : Admit) (ds : List Admit)
    → kept_media ((now, media) ∷ rest) (d ∷ ds)
      ≡ kept_media ((0, media) ∷ []) (d ∷ []) + kept_media rest ds
kept_media-cons now media rest admitted ds = omega arith
kept_media-cons now media rest _ ds = omega arith

run_counts :
    (a : Allowance) (arrivals : List (ℕ × ℕ))
    → All (λ m. InWindow a m.0) arrivals
    → let (ds, b) = run a arrivals in
      (b.messages ≡ a.messages + admissions ds)
      × (b.media_bytes ≡ a.media_bytes + kept_media arrivals ds)
      × (bit b.noticed ≡ bit a.noticed + notices ds)
unfolding run
run_counts a [] w = (omega arith, omega arith, omega arith)
run_counts a ((now, media) ∷ rest) w =
    let step = admit-Counted a now media w.0 in
    let (d, ds) : Admit × List Admit =
      ((admit a now media).1, (run (admit a now media).0 rest).0) in
    let (m, b, n) = run_counts (admit a now media).0 rest (rw step.start w.1) in
    (
      omega (arith, m, step.messages, admissions-cons d ds),
      omega (arith, b, step.media, kept_media-cons now media rest d ds),
      omega (arith, n, step.notice, notices-cons d ds),
    )

run-IsWithin : (a : Allowance) (arrivals : List (ℕ × ℕ)) → IsWithin a → IsWithin (run a arrivals).1
unfolding run
run-IsWithin a [] i = i
run-IsWithin a ((now, media) ∷ rest) i =
    run-IsWithin (admit a now media).0 rest (admit-IsWithin a now media i)

-- Over any messages that arrive within the window that is being counted, from an allowance within
-- its limits, at most 5000 are admitted, their attachments come to at most 1 GiB, both counting what
-- the window had before, and at most one notice is shown.
pub window_bounds :
    (a : Allowance) (arrivals : List (ℕ × ℕ))
    → IsWithin a
    → All (λ m. InWindow a m.0) arrivals
    → let ds = (run a arrivals).0 in
      (a.messages + admissions ds ≤ max_messages_per_day)
      × (a.media_bytes + kept_media arrivals ds ≤ max_media_bytes_per_day)
      × (notices ds ≤ 1)
window_bounds a arrivals i w =
    let (messages, media, noticed) = run_counts a arrivals w in
    let after = run-IsWithin a arrivals i in
    (omega (arith, after.few), omega (arith, after.light), ground arith)

-- The clock has left the window that is counted, in either direction.
abbrev pub HasLeft : Allowance → ℕ → Type 0
HasLeft a now = (now < a.window_start) ⊎ (min (a.window_start + day_secs) u64_max ≤ now)

-- From an allowance within its limits, for a message with less than 2^63 bytes of attachment. Either
-- the clock has left the window: then a new window starts now, and the message is admitted exactly
-- when its attachment is at most 1 GiB, whatever was counted before. Or it has not: then the window
-- stays, and the message is admitted exactly when fewer than 5000 messages were counted and its
-- attachment fits the rest of the 1 GiB.
pub admit_iff :
    (a : Allowance) (now media : ℕ)
    → IsWithin a
    → media < 2 ^ 63
    → (HasLeft a now
        × ((admit a now media).0.window_start ≡ now)
        × (((admit a now media).1 ≡ admitted) ↔ (media ≤ max_media_bytes_per_day)))
      ⊎ (¬ HasLeft a now
          × ((admit a now media).0.window_start ≡ a.window_start)
          × (((admit a now media).1 ≡ admitted) ↔ (
              (a.messages < max_messages_per_day)
              × (a.media_bytes + media ≤ max_media_bytes_per_day))))
unfolding admit
admit_iff a now media i small =
    elim (Bool-cases
      (ltb now a.window_start || leb (min (a.window_start + day_secs) u64_max) now)) [
        | inl left ↦ inl (ground (arith, left), ground (arith, left), ground (arith, left))
        | inr stays ↦ inr (
          λ left. ground (arith, stays, left),
          ground (arith, stays),
          ground (arith, stays, i.few, i.light),
        )
      ]
