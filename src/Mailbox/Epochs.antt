-- ===== src/Mailbox/Epochs.antt =====
-- Which days' handles are polled (core/src/node/mailbox.rs, `polled_epochs`, `settling_epoch`).
use nightdrop.Prelude.{
  Bool, List, Option, [], arith, false, if◌then◌else◌, leb, none, refl, some, suc, zero, ℕ, ◌%◌,
  ◌&&◌, ◌*◌, ◌++◌, ◌+◌, ◌-◌, ◌/◌, ◌==◌, ◌||◌, ◌∷◌, ◌≡◌, ◌≤◌, All, true, ◌<◌, inl, inr, ◌⊎◌,
}

-- `EPOCH_SECS`
abbrev pub epoch_secs : ℕ
epoch_secs = 24 * 60 * 60

-- `SKEW_MARGIN_SECS`
abbrev pub skew_margin_secs : ℕ
skew_margin_secs = 3 * 60 * 60

-- `current_epoch`, of a clock's reading.
unfoldable pub epoch_of : ℕ → ℕ
epoch_of now = now / epoch_secs

-- `prev_epoch_drained` is this epoch.
unfoldable pub is_drained : Option ℕ → ℕ → Bool
is_drained none epoch = false
is_drained (some drained) epoch = drained == epoch

unfoldable pub yesterday : Option ℕ → ℕ → List ℕ
yesterday drained zero = []
yesterday drained (suc before) = if is_drained drained before then [] else before ∷ []

unfoldable pub tomorrow : ℕ → ℕ → List ℕ
tomorrow today into_day =
    if leb (epoch_secs - skew_margin_secs) into_day then (today + 1) ∷ [] else []

unfoldable pub polled_epochs : Option ℕ → ℕ → List ℕ
polled_epochs drained now =
    yesterday drained (now / epoch_secs)
    ++ (now / epoch_secs) ∷ tomorrow (now / epoch_secs) (now % epoch_secs)

-- `contains`
unfoldable pub contains : List ℕ → ℕ → Bool
contains [] n = false
contains (m ∷ list) n = m == n || contains list n

-- `(now / EPOCH_SECS).checked_sub(1)` first.
unfoldable pub settling : Option ℕ → ℕ → ℕ → Option ℕ
settling drained now zero = none
settling drained now (suc before) =
    if leb skew_margin_secs (now % epoch_secs) && contains (polled_epochs drained now) before
    then some before
    else none

unfoldable pub settling_epoch : Option ℕ → ℕ → Option ℕ
settling_epoch drained now = settling drained now (now / epoch_secs)

-- `prev_epoch_drained` after a drain that settled this epoch, if any (core/src/node/messaging.rs,
-- `apply_relay_harvest`).
unfoldable pub retire : Option ℕ → Option ℕ → Option ℕ
retire drained none = drained
retire drained (some epoch) = some epoch

-- `prev_epoch_drained` after successful drains at these times.
unfoldable pub drained_after : Option ℕ → List ℕ → Option ℕ
drained_after drained [] = drained
drained_after drained (now ∷ times) =
    drained_after (retire drained (settling_epoch drained now)) times

contains-append :
    (list other : List ℕ) (n : ℕ)
    → contains (list ++ other) n ≡ (contains list n || contains other n)
unfolding contains
contains-append [] other n = refl
contains-append (m ∷ list) other n = ground (arith, contains-append list other n)

-- What is retired by `now` was over the margin before.
abbrev pub PastMargin : ℕ → Option ℕ → Type 0
PastMargin now drained =
    (epoch : ℕ) → drained ≡ some epoch → (epoch + 1) * epoch_secs + skew_margin_secs ≤ now

settling-PastMargin :
    (drained : Option ℕ) (now today : ℕ)
    → now / epoch_secs ≡ today
    → PastMargin now (settling drained now today)
unfolding settling
settling-PastMargin drained now zero day epoch e = cc
settling-PastMargin drained now (suc before) day epoch e = ground (arith, day, e)

PastMargin-mono :
    (now later : ℕ) (drained : Option ℕ)
    → now ≤ later
    → PastMargin now drained
    → PastMargin later drained
PastMargin-mono now later drained after past epoch e = omega (arith, after, past epoch e)

retire-PastMargin :
    (now : ℕ) (drained settled : Option ℕ)
    → PastMargin now drained
    → PastMargin now settled
    → PastMargin now (retire drained settled)
unfolding retire
retire-PastMargin now drained none past settled_past = past
retire-PastMargin now drained (some epoch) past settled_past = settled_past

drained_after-PastMargin :
    (end : ℕ) (drains : List ℕ) (drained : Option ℕ)
    → All (λ t. t ≤ end) drains
    → PastMargin end drained
    → PastMargin end (drained_after drained drains)
unfolding drained_after settling_epoch
drained_after-PastMargin end [] drained before past = past
drained_after-PastMargin end (now ∷ drains) drained (first, before) past =
    let settled = settling-PastMargin drained now (now / epoch_secs) refl in
    drained_after-PastMargin end drains _ before
      (retire-PastMargin end drained _ past (PastMargin-mono now end _ first settled))

not_drained :
    (drained : Option ℕ) (now epoch : ℕ)
    → PastMargin now drained
    → now < (epoch + 1) * epoch_secs + skew_margin_secs
    → is_drained drained epoch ≡ false
unfolding is_drained
not_drained none now epoch past early = refl
not_drained (some e) now epoch past early = ground (arith, past e refl, early)

-- The reader's day is the sender's or the next, or the sender's is the next and near.
near_days :
    (now epoch : ℕ)
    → epoch * epoch_secs ≤ now + skew_margin_secs
    → now < (epoch + 2) * epoch_secs
    → ((now / epoch_secs ≡ epoch)
        ⊎ ((now / epoch_secs + 1 ≡ epoch) × (epoch_secs - skew_margin_secs ≤ now % epoch_secs)))
      ⊎ (now / epoch_secs ≡ suc epoch)
near_days now epoch fast slow = ground (arith, fast, slow)

contains_today : (list rest : List ℕ) (today : ℕ) → contains (list ++ today ∷ rest) today ≡ true
unfolding contains
contains_today [] rest today = ground arith
contains_today (n ∷ list) rest today = ground (arith, contains_today list rest today)

contains-tomorrow :
    (list : List ℕ) (today epoch into_day : ℕ)
    → today + 1 ≡ epoch
    → epoch_secs - skew_margin_secs ≤ into_day
    → contains (list ++ today ∷ tomorrow today into_day) epoch ≡ true
unfolding contains tomorrow
contains-tomorrow [] today epoch into_day next late = ground (arith, next, late)
contains-tomorrow (n ∷ list) today epoch into_day next late =
    ground (arith, contains-tomorrow list today epoch into_day next late)

contains-yesterday :
    (drained : Option ℕ) (epoch : ℕ) (rest : List ℕ)
    → is_drained drained epoch ≡ false
    → contains (yesterday drained (suc epoch) ++ rest) epoch ≡ true
unfolding contains yesterday
contains-yesterday drained epoch rest kept = rw kept (ground arith)

polled :
    (drained : Option ℕ) (now epoch : ℕ)
    → is_drained drained epoch ≡ false
    → epoch * epoch_secs ≤ now + skew_margin_secs
    → now < (epoch + 2) * epoch_secs
    → contains (polled_epochs drained now) epoch ≡ true
unfolding polled_epochs
polled drained now epoch kept fast slow = elim (near_days now epoch fast slow) [
  | inl (inl same_day) ↦ rw same_day (contains_today (yesterday drained epoch) _ epoch)
  | inl (inr (next, late)) ↦ contains-tomorrow _ _ epoch _ next late
  | inr after ↦ rw after (contains-yesterday drained epoch _ kept)
]

-- The day that a sender posts for, its clock at most the margin from the reader's, is among the days
-- that the reader polls, from the time of the post (`noticed` on the reader's clock) to the end of the
-- day after it: none of the drains before the post retired it.
pub posted_epoch_polled :
    (drains : List ℕ) (posted noticed now : ℕ)
    → All (λ t. t ≤ noticed) drains
    → posted ≤ noticed + skew_margin_secs
    → noticed ≤ posted + skew_margin_secs
    → noticed ≤ now
    → now < (epoch_of posted + 2) * epoch_secs
    → contains (polled_epochs (drained_after none drains) now) (epoch_of posted) ≡ true
unfolding epoch_of
posted_epoch_polled drains posted noticed now before fast slow later soon =
    let past = drained_after-PastMargin noticed drains none before (λ epoch e. cc) in
    let kept =
      not_drained (drained_after none drains) noticed (posted / epoch_secs) past
        (omega (arith, slow)) in
    polled (drained_after none drains) now (posted / epoch_secs) kept (omega (arith, fast, later))
      soon
