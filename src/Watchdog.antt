-- ===== src/Watchdog.antt =====
-- The relay's reachability watchdog (relay/src/main.rs: `DarkClocks`, `Cycle`, `Verdict`, the loop of
-- the watchdog task, and the escalation counter).
pub mod Outage
pub mod Evidence
use nightdrop.Prelude.{
  ℕ, Bool, List, Option, String, [], false, if◌then◌else◌, is_some, leb, ltb, none, not, some, true,
  ◌&&◌, ◌*◌, ◌+◌, ◌-◌, ◌/◌, ◌∷◌, ◌^◌,
}

-- Instants are nanoseconds since the process started.
abbrev pub nanos : ℕ
nanos = 1000000000

-- `WATCHDOG_MAX_DARK`
abbrev pub watchdog_max_dark : ℕ
watchdog_max_dark = 15 * 60 * nanos

-- `UNHEALTHY_RESET_THRESHOLD`
abbrev pub unhealthy_reset_threshold : ℕ
unhealthy_reset_threshold = 2

pub record DarkClocks : Type 0 where
  pub publisher : Option ℕ
  pub dial : Option ℕ

abbrev pub no_clocks : DarkClocks
no_clocks = record { publisher = none; dial = none }

-- `Option::get_or_insert`
abbrev pub get_or_insert : Option ℕ → ℕ → Option ℕ
get_or_insert none now = some now
get_or_insert (some t) now = some t

unfoldable pub observe : DarkClocks → Bool → Bool → ℕ → DarkClocks
observe c publisher_dark dial_failed now = record {
  publisher = if publisher_dark then get_or_insert c.publisher now else none;
  dial = if dial_failed then get_or_insert c.dial now else none;
}

abbrev pub elapsed : Option ℕ → ℕ → ℕ
elapsed none now = 0
elapsed (some t) now = now - t

unfoldable pub dark_for : DarkClocks → Bool → ℕ → ℕ
dark_for c publisher_dark now = elapsed (if publisher_dark then c.publisher else c.dial) now

unfoldable pub excuse : DarkClocks → Bool → DarkClocks
excuse c client_unusable = record {
  publisher = if client_unusable then none else c.publisher;
  dial = none;
}

pub record Cycle : Type 0 where
  pub dial_failed : Bool
  pub publisher_dark : Bool
  pub served_since_dark : Bool
  pub client_unusable : Option String
  pub dark_for : ℕ

pub data Verdict : Type 0 where
  healthy : Verdict
  inconclusive dark restart : String → Verdict

unfoldable pub escalate : Cycle → String → Verdict
escalate c why = if ltb c.dark_for watchdog_max_dark then dark why else restart why

unfoldable pub verdict : Cycle → Verdict
unfolding escalate
verdict c =
    if not c.dial_failed && not c.publisher_dark
    then healthy
    else if is_some c.client_unusable
    then inconclusive "our own Tor client is unusable"
    else if c.publisher_dark
    then escalate c "the descriptor is missing from one of the two HsDir rings"
    else if c.served_since_dark
    then inconclusive "clients are still being served"
    else escalate c "the self-dial could not reach this relay"

-- What one cycle of the loop reads: the probe, the publisher, the client, and the last second at
-- which a stream was served; and whether the counter's file could be written in this cycle.
pub record Observation : Type 0 where
  pub now : ℕ
  pub dial_failed : Bool
  pub publisher_dark : Bool
  pub client_unusable : Option String
  pub last_served : ℕ
  pub marker_writable : Bool

-- The loop's variables and the persisted counter.
pub record Watch : Type 0 where
  pub clocks : DarkClocks
  pub cleared : Bool
  pub unhealthy : ℕ

-- The loop goes on, or the process exits, with the number of unhealthy cycles that it counted and with
-- the counter as it stands in its file; or the addition of its u32 overflows, which is checked.
pub data Outcome : Type 0 where
  running : Watch → Outcome
  exited : ℕ → ℕ → Outcome
  panicked : Outcome

-- The file's number after `write_unhealthy`, whose failure is ignored.
unfoldable pub write_unhealthy : Bool → ℕ → ℕ → ℕ
write_unhealthy writable n marker = if writable then n else marker

-- Whether `n` is a u32.
abbrev pub fits_u32 : ℕ → Bool
fits_u32 n = ltb n (2 ^ 32)

-- `clocks.dial.unwrap_or(now)`
abbrev pub dark_since : Option ℕ → ℕ → ℕ
dark_since none now = now
dark_since (some t) now = t

unfoldable pub cycle_of : DarkClocks → Observation → Cycle
cycle_of c o = record {
  dial_failed = o.dial_failed;
  publisher_dark = o.publisher_dark;
  served_since_dark = ltb (dark_since c.dial o.now / nanos) o.last_served;
  client_unusable = o.client_unusable;
  dark_for = dark_for c o.publisher_dark o.now;
}

unfoldable pub act : Verdict → DarkClocks → Observation → Watch → Outcome
act healthy c o w = running (record {
  clocks = no_clocks;
  cleared = true;
  unhealthy = if w.cleared then w.unhealthy else write_unhealthy o.marker_writable 0 w.unhealthy;
})
act (inconclusive why) c o w = running (record w { clocks = excuse c (is_some o.client_unusable) })
act (dark why) c o w = running (record w { clocks = c })
act (restart why) c o w =
    if fits_u32 (w.unhealthy + 1)
    then exited (w.unhealthy + 1) (write_unhealthy o.marker_writable (w.unhealthy + 1) w.unhealthy)
    else panicked

-- The clocks after this cycle's observation.
abbrev pub observed : Watch → Observation → DarkClocks
observed w o = observe w.clocks o.publisher_dark o.dial_failed o.now

unfoldable pub step : Watch → Observation → Outcome
unfolding act
step w o = act (verdict (cycle_of (observed w o) o)) (observed w o) o w

-- The loop over the observations of its cycles, until it exits.
unfoldable pub run_from : Outcome → List Observation → Outcome
run_from (exited n marker) os = exited n marker
run_from panicked os = panicked
run_from (running w) [] = running w
run_from (running w) (o ∷ os) = run_from (step w o) os

-- At the next start: the loop's variables, and whether the guards are reset first.
unfoldable pub start : ℕ → Watch × Bool
start unhealthy = (
  record { clocks = no_clocks; cleared = false; unhealthy = unhealthy },
  leb unhealthy_reset_threshold unhealthy,
)
