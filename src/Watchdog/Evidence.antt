-- ===== src/Watchdog/Evidence.antt =====
-- The evidence before a restart (relay/src/main.rs, the watchdog's loop).
use nightdrop.Prelude.{
  List, [], ◌∷◌, All, Bool-cases, Option, arith, inl, inr, none, refl, some, ℕ, ◌+◌, ◌<◌, ◌≡◌, ◌≤◌,
  String, is_some, lt→ltb, not, ◌&&◌,
}
use nightdrop.Watchdog.{
  Watch, Observation, DarkClocks, Cycle, Verdict, running, healthy, inconclusive, dark, act, step,
  run_from, cycle_of, dark_for, observe, excuse, observed, verdict, escalate, watchdog_max_dark,
  Outcome, write_unhealthy,
}

-- The clock is stopped, or started at or after `t`.
abbrev pub NoEarlier : ℕ → Option ℕ → Type 0
NoEarlier t none = Unit
NoEarlier t (some s) = t ≤ s

abbrev pub Since : ℕ → DarkClocks → Type 0
Since t c = NoEarlier t c.publisher × NoEarlier t c.dial

-- A cycle of the first 15 minutes after `t`.
abbrev pub IsEarly : ℕ → Observation → Type 0
IsEarly t o = (t ≤ o.now) × (o.now < t + watchdog_max_dark)

-- A verdict that lets the loop go on.
data GoesOn : Verdict → Type 0 where
  well : GoesOn healthy
  unsure : (why : String) → GoesOn (inconclusive why)
  waiting : (why : String) → GoesOn (dark why)

escalate-GoesOn :
    (c : Cycle) (why : String) → c.dark_for < watchdog_max_dark → GoesOn (escalate c why)
unfolding escalate
escalate-GoesOn c why short = rw (lt→ltb _ _ short) (waiting why)

verdict-GoesOn : (c : Cycle) → c.dark_for < watchdog_max_dark → GoesOn (verdict c)
unfolding verdict
verdict-GoesOn c short = elim (Bool-cases (not c.dial_failed && not c.publisher_dark)) [
  | inl e ↦ rw e well
  | inr e ↦ elim (Bool-cases (is_some c.client_unusable)) [
    | inl f ↦ rw (e, f) (unsure _)
    | inr f ↦ elim (Bool-cases c.publisher_dark) [
      | inl g ↦ rw (e, f, g) (escalate-GoesOn c _ short)
      | inr g ↦ elim (Bool-cases c.served_since_dark) [
        | inl h ↦ rw (e, f, g, h) (unsure _)
        | inr h ↦ rw (e, f, g, h) (escalate-GoesOn c _ short)
      ]
    ]
  ]
]

-- The loop goes on, the clocks still start at `t` or later, and the counter did not grow.
record Onward (t : ℕ) (w : Watch) (outcome : Outcome) : Type 0 where
  next : Watch
  goes_on : outcome ≡ running next
  clocks : Since t next.clocks
  counter : next.unhealthy ≤ w.unhealthy

act-Onward :
    (t : ℕ) (v : Verdict) (c : DarkClocks) (o : Observation) (w : Watch)
    → GoesOn v
    → Since t c
    → Onward t w (act v c o w)
unfolding act excuse write_unhealthy
act-Onward t _ c o w well since = record {
  next = _;
  goes_on = refl;
  clocks = (tt, tt);
  counter = ground arith;
}
act-Onward t _ c o w (unsure why) since = record {
  next = _;
  goes_on = refl;
  clocks = ground (arith, since);
  counter = omega arith;
}
act-Onward t _ c o w (waiting why) since = record {
  next = _;
  goes_on = refl;
  clocks = since;
  counter = omega arith;
}

observed-Since :
    (t : ℕ) (w : Watch) (o : Observation) → t ≤ o.now → Since t w.clocks → Since t (observed w o)
unfolding observe
observed-Since t w o h since = ground (arith, since)

dark_for_early :
    (t : ℕ) (c : DarkClocks) (o : Observation)
    → IsEarly t o
    → Since t c
    → dark_for c o.publisher_dark o.now < watchdog_max_dark
unfolding dark_for
dark_for_early t c o early since = ground (arith, since)

step-Onward :
    (t : ℕ) (w : Watch) (o : Observation) → IsEarly t o → Since t w.clocks → Onward t w (step w o)
unfolding step cycle_of
step-Onward t w o early since =
    let s = observed-Since t w o early.0 since in
    act-Onward t _ (observed w o) o w (verdict-GoesOn _ (dark_for_early t _ o early s)) s

-- If no clock was started before `t`, then whatever the cycles find that run from `t` until 15
-- minutes later, the loop goes on, and the persisted counter does not grow.
pub never_restarts_early :
    (t : ℕ) (w : Watch) (os : List Observation)
    → Since t w.clocks
    → All (IsEarly t) os
    → (v : Watch) × (run_from (running w) os ≡ running v) × (v.unhealthy ≤ w.unhealthy)
unfolding run_from
never_restarts_early t w [] since early = (w, refl, omega arith)
never_restarts_early t w (o ∷ os) since early =
    let s = step-Onward t w o early.0 since in
    let (v, e, n) = never_restarts_early t s.next os s.clocks early.1 in
    (v, rw (run_from, s.goes_on) e, omega (arith, n, s.counter))
