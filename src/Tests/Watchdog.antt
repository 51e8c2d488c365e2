-- ===== src/Tests/Watchdog.antt =====
-- An outage of the publisher only, over five cycles, and its first two cycles.
use nightdrop.Prelude.{[], arith, false, none, refl, true, ℕ, ◌*◌, ◌∷◌, ◌≡◌, ◌≤◌, List}
use nightdrop.Watchdog.{
  step, running, exited, Observation, Watch, nanos, no_clocks, run_from, act, cycle_of, dark_for,
  escalate, excuse, observe, verdict, write_unhealthy,
}
use nightdrop.Watchdog.Evidence.{never_restarts_early}
use nightdrop.Watchdog.Outage.{one_sided_outage_restarts, Exits}

abbrev dark_cycle : ℕ → Observation
dark_cycle minutes = record {
  now = minutes * 60 * nanos;
  dial_failed = false;
  publisher_dark = true;
  client_unusable = none;
  last_served = minutes * 60;
  marker_writable = true;
}

abbrev started : Watch
started = record { clocks = no_clocks; cleared = false; unhealthy = 1 }

abbrev dark_cycles : List Observation
dark_cycles = dark_cycle 5 ∷ dark_cycle 10 ∷ dark_cycle 15 ∷ dark_cycle 20 ∷ dark_cycle 25 ∷ []

one_sided_outage_restarts_example : Exits 1 dark_cycles (run_from (running started) dark_cycles)
one_sided_outage_restarts_example =
    one_sided_outage_restarts started (dark_cycle 5) (dark_cycle 10 ∷ dark_cycle 15 ∷ [])
      (dark_cycle 20) (dark_cycle 25 ∷ []) refl
      ((refl, refl), ((refl, refl), ((refl, refl), ((refl, refl), ((refl, refl), tt)))))
      (omega arith) (omega arith)

-- The count is in the file.
exited_test : run_from (running started) dark_cycles ≡ exited 2 2
unfolding run_from step act observe verdict escalate cycle_of dark_for excuse write_unhealthy
exited_test = refl

never_restarts_early_example :
    (v : Watch) × (run_from (running started) (dark_cycle 5 ∷ dark_cycle 10 ∷ []) ≡ running v)
    × (v.unhealthy ≤ 1)
never_restarts_early_example =
    never_restarts_early (5 * 60 * nanos) started (dark_cycle 5 ∷ dark_cycle 10 ∷ []) (tt, tt)
      ((omega arith, omega arith), ((omega arith, omega arith), tt))
