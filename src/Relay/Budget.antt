-- ===== src/Relay/Budget.antt =====
-- One draining response's byte budget, and the loop that fills it from one mailbox
-- (core/src/relay_client/mod.rs, `TakeBudget` and the loop of `drain_handle_bounded`).
pub mod Drains
use nightdrop.Prelude.{
  ℕ, ◌+◌, ◌-◌, ◌*◌, Bool, true, false, not, ◌&&◌, List, [], ◌∷◌, length, sum_by, leb, ltb,
  if◌then◌else◌,
}
use nightdrop.Relay.Types.{Stored}

abbrev pub take_budget_bytes : ℕ
take_budget_bytes = 32 * 1024 * 1024

pub record TakeBudget : Type 0 where
  pub room : ℕ
  pub first : Bool

-- `TakeBudget::default`
abbrev pub full_budget : TakeBudget
full_budget = record { room = take_budget_bytes; first = true }

unfoldable pub admit : TakeBudget → ℕ → Bool × TakeBudget
admit b len =
    if not b.first && ltb b.room len
    then (false, b)
    else (true, record { room = b.room - len; first = false })

-- What the loop leaves queued, what it hands out, the cost that it frees and the budget after it.
pub record Drained : Type 0 where
  pub left : List Stored
  pub taken : List Stored
  pub freed : ℕ
  pub budget : TakeBudget

-- `while let Some(first) = queue.first()`
unfoldable pub drain_loop : List Stored → TakeBudget → ℕ → Drained
unfolding admit
drain_loop [] b now = record { left = []; taken = []; freed = 0; budget = b }
drain_loop (s ∷ queue) b now =
    let expired = (let d = drain_loop queue b now in record d { freed = s.cost + d.freed }) in
    let (fits, b') = admit b (length s.bytes) in
    let served =
      (let d = drain_loop queue b' now in
        record d { taken = s ∷ d.taken; freed = s.cost + d.freed }) in
    if leb s.expiry now
    then expired
    else if fits
    then served
    else record { left = s ∷ queue; taken = []; freed = 0; budget = b }

abbrev pub costs : List Stored → ℕ
costs = sum_by (λ s. s.cost)

abbrev pub sizes : List Stored → ℕ
sizes = sum_by (λ s. length s.bytes)

-- `s.expiry > now`
abbrev pub live : ℕ → Stored → Bool
live now s = ltb now s.expiry
