-- ===== src/Watchdog/Outage.antt =====
-- An outage that only the publisher sees (relay/src/main.rs, the watchdog's loop).
use mathlib.Core.Path.{subst}
use nightdrop.Prelude.{
  List, [], ◌∷◌, Bool-cases, All, arith, inl, inr, ltb, if◌then◌else◌, none, refl, some, true, ℕ,
  ◌+◌, ◌-◌, ◌<◌, ◌≡◌, ◌≤◌, ◌⊎◌, ◌++◌, ◌∙◌, Any, false, lt→ltb, ◌^◌,
}
use nightdrop.Watchdog.{
  Watch, Observation, exited, running, restart, dark, act, step, run_from, cycle_of, dark_for,
  observed, verdict, escalate, watchdog_max_dark, observe, Outcome, write_unhealthy,
}

-- The publisher reports the descriptor missing, while our own Tor client works.
abbrev pub IsOneSided : Observation → Type 0
IsOneSided o = (o.publisher_dark ≡ true) × (o.client_unusable ≡ none)

-- The exit in this cycle.
abbrev exit_at : ℕ → Observation → Outcome
exit_at unhealthy o =
    exited (unhealthy + 1) (write_unhealthy o.marker_writable (unhealthy + 1) unhealthy)

-- The process exits in one of these cycles, having counted one more unhealthy restart; its file has
-- that number, or else could not be written and has the old one.
pub record Exits (unhealthy : ℕ) (os : List Observation) (outcome : Outcome) : Type 0 where
  pub marker : ℕ
  pub exits : outcome ≡ exited (unhealthy + 1) marker
  pub written :
      (marker ≡ unhealthy + 1) ⊎ ((marker ≡ unhealthy) × Any (λ o. o.marker_writable ≡ false) os)

-- The loop goes on, with the publisher's clock as it stood.
pub record GoesOn (w : Watch) (o : Observation) (t : ℕ) : Type 0 where
  pub next : Watch
  pub goes_on : step w o ≡ running next
  pub clock : next.clocks.publisher ≡ some t
  pub counter : next.unhealthy ≡ w.unhealthy

verdict_one_sided :
    (w : Watch) (o : Observation) (t : ℕ)
    → IsOneSided o
    → (observed w o).publisher ≡ some t
    → verdict (cycle_of (observed w o) o) ≡ (
        if ltb (o.now - t) watchdog_max_dark
        then dark "the descriptor is missing from one of the two HsDir rings"
        else restart "the descriptor is missing from one of the two HsDir rings")
unfolding verdict escalate cycle_of dark_for
verdict_one_sided w o t (dark_now, usable) clock = elim (Bool-cases o.dial_failed) [
  | inl e ↦ rw (clock, dark_now, usable, e) refl
  | inr e ↦ rw (clock, dark_now, usable, e) refl
]

-- Such a cycle restarts once its clock has run long enough, and else leaves the clock running.
step_one_sided :
    (w : Watch) (o : Observation) (t : ℕ)
    → IsOneSided o
    → (observed w o).publisher ≡ some t
    → w.unhealthy + 1 < 2 ^ 32
    → ((t + watchdog_max_dark ≤ o.now) × (step w o ≡ exit_at w.unhealthy o))
      ⊎ ((o.now < t + watchdog_max_dark) × GoesOn w o t)
unfolding step act
step_one_sided w o t sided clock small = elim (Bool-cases (ltb (o.now - t) watchdog_max_dark)) [
  | inl e ↦ inr (
    ground arith,
    record {
      next = record w { clocks = observed w o };
      goes_on = rw (verdict_one_sided w o t sided clock, e) refl;
      clock = clock;
      counter = refl;
    },
  )
  | inr e ↦ inl (
    ground arith,
    rw (verdict_one_sided w o t sided clock, e, lt→ltb (w.unhealthy + 1) (2 ^ 32) small) refl,
  )
]

observed_clock :
    (w : Watch) (o : Observation) (t : ℕ)
    → IsOneSided o
    → w.clocks.publisher ≡ some t
    → (observed w o).publisher ≡ some t
unfolding observe
observed_clock w o t sided clock = rw (sided.0, clock) refl

run_from-cons :
    (w : Watch) (o : Observation) (os : List Observation)
    → run_from (running w) (o ∷ os) ≡ run_from (step w o) os
unfolding run_from
run_from-cons w o os = refl

exit_at-Exits :
    (w : Watch) (o : Observation) (os : List Observation)
    → step w o ≡ exit_at w.unhealthy o
    → Exits w.unhealthy (o ∷ os) (run_from (running w) (o ∷ os))
unfolding write_unhealthy run_from
exit_at-Exits w o os e = record {
  marker = write_unhealthy o.marker_writable (w.unhealthy + 1) w.unhealthy;
  exits = run_from-cons w o os ∙ rw e refl;
  written = elim (Bool-cases o.marker_writable) [
    | inl x ↦ inl (rw x refl)
    | inr x ↦ inr (rw x refl, inl x)
  ];
}

later-Exits :
    (w : Watch) (o : Observation) (t : ℕ) (os : List Observation) (g : GoesOn w o t)
    → Exits g.next.unhealthy os (run_from (running g.next) os)
    → Exits w.unhealthy (o ∷ os) (run_from (running w) (o ∷ os))
later-Exits w o t os g later =
    let moved = subst (λ n. Exits n os (run_from (running g.next) os)) g.counter later in
    record {
      marker = moved.marker;
      exits = run_from-cons w o os ∙ rw (g.goes_on) moved.exits;
      written = elim moved.written [
        | inl done ↦ inl done
        | inr (old, failed) ↦ inr (old, inr failed)
      ];
    }

-- While the clock runs, a late enough cycle ends the process, whatever came before it.
running_clock_restarts :
    (w : Watch) (t : ℕ) (before : List Observation) (late : Observation) (after : List Observation)
    → w.clocks.publisher ≡ some t
    → All IsOneSided (before ++ late ∷ after)
    → t + watchdog_max_dark ≤ late.now
    → w.unhealthy + 1 < 2 ^ 32
    → Exits w.unhealthy (before ++ late ∷ after) (run_from (running w) (before ++ late ∷ after))
running_clock_restarts w t [] late after clock sided long small =
    elim (step_one_sided w late t sided.0 (observed_clock w late t sided.0 clock) small) [
      | inl (_, e) ↦ exit_at-Exits w late after e
      | inr (short, _) ↦ absurd (omega (arith, short, long))
    ]
running_clock_restarts w t (o ∷ before) late after clock sided long small =
    elim (step_one_sided w o t sided.0 (observed_clock w o t sided.0 clock) small) [
      | inl (_, e) ↦ exit_at-Exits w o (before ++ late ∷ after) e
      | inr (_, g) ↦ later-Exits w o t (before ++ late ∷ after) g (
          running_clock_restarts g.next t before late after g.clock sided.1 long
            (rw g.counter small))
    ]

-- When the publisher, dark for the first time, and our own Tor client, usable, are found so in every
-- cycle from then on, the process exits at the latest in a cycle 15 minutes after the first,
-- whatever the self-dial found and whoever is still being served, and counts one more unhealthy
-- restart; that number is then in the counter's file, unless the file could not be
-- written in one of these cycles and has the old one. The counter, a u32, must not be at its end.
pub one_sided_outage_restarts :
    (w : Watch) (first : Observation) (before : List Observation) (late : Observation)
    → (after : List Observation) → w.clocks.publisher ≡ none
    → All IsOneSided (first ∷ (before ++ late ∷ after))
    → first.now + watchdog_max_dark ≤ late.now
    → w.unhealthy + 1 < 2 ^ 32
    → Exits w.unhealthy
        (first ∷ (before ++ late ∷ after))
        (run_from (running w) (first ∷ (before ++ late ∷ after)))
unfolding observe
one_sided_outage_restarts w first before late after clock sided long small =
    elim (step_one_sided w first first.now sided.0 (rw (sided.0.0, clock) refl) small) [
      | inl (_, e) ↦ exit_at-Exits w first (before ++ late ∷ after) e
      | inr (_, g) ↦ later-Exits w first first.now (before ++ late ∷ after) g (
          running_clock_restarts g.next first.now before late after g.clock sided.1 long
            (rw g.counter small))
    ]
