-- ===== src/Relay/Store/Draining.antt =====
-- Draining a mailbox and the invariants of the store (core/src/relay_client/mod.rs,
-- `drain_handle_bounded`).
use nightdrop.Prelude.{ℕ, ◌+◌, ◌-◌, ◌≤◌, ◌≡◌, refl, Option, none, some, List, All, length, arith}
use nightdrop.Prelude.Bytes.{Bytes}
use nightdrop.Prelude.Map.{get, Distinct, total}
use nightdrop.Relay.Budget.{TakeBudget, costs, drain_loop}
use nightdrop.Relay.Budget.Drains.{costs-drain_loop, All-left, length-left-le, sizes-left-le}
use nightdrop.Relay.Store.{drain_found, drain_handle_bounded, write_back}
use nightdrop.Relay.Store.Invariant.{IsMailbox, IsConsistent, FitsMailbox, IsBounded, IsValid}
use nightdrop.Relay.Store.Mailboxes.{write_back-Distinct, total-write_back, write_back-AtMailboxes}
use nightdrop.Relay.Types.{RelayLimits, Stored, StoreInner, entry_cost}

-- A queue written back with `freed` less on the counter keeps the store consistent, if the costs add
-- up.
pub write_back-IsConsistent :
    (overhead freed : ℕ) (s t : StoreInner) (h : Bytes) (q q' : List Stored)
    → IsConsistent overhead s
    → get h s.mailboxes ≡ some q
    → freed + costs q' ≡ costs q
    → All (λ e. e.cost ≡ entry_cost h (length e.bytes) overhead) q'
    → t.mailboxes ≡ write_back h q' s.mailboxes
    → t.total_bytes ≡ s.total_bytes - freed
    → IsConsistent overhead t
write_back-IsConsistent overhead freed s t h q q' c found add_up priced boxes counter = record {
  distinct = rw boxes (write_back-Distinct h q' s.mailboxes c.distinct);
  counted =
      let balance : total costs (write_back h q' s.mailboxes) + costs q
          ≡ total costs s.mailboxes + costs q' =
        rw found at (total-write_back h q' s.mailboxes) in
      rw (boxes, counter) (omega (arith, c.counted));
  kept = rw boxes (
      write_back-AtMailboxes (IsMailbox overhead) h q' s.mailboxes c.distinct c.kept
        (λ ne. (ne, priced)));
}

pub write_back-IsBounded :
    (limits : RelayLimits) (s t : StoreInner) (h : Bytes) (q' : List Stored)
    → Distinct s.mailboxes
    → IsBounded limits s
    → FitsMailbox limits h q'
    → t.mailboxes ≡ write_back h q' s.mailboxes
    → t.total_bytes ≤ s.total_bytes
    → IsBounded limits t
write_back-IsBounded limits s t h q' d b fits boxes counter = record {
  total_fits = omega (arith, b.total_fits);
  each_fits =
      rw boxes
        (write_back-AtMailboxes (FitsMailbox limits) h q' s.mailboxes d b.each_fits (λ _. fits));
}

module _ (h : Bytes) (b : TakeBudget) (now : ℕ) (s : StoreInner) where
  drain_found-IsConsistent :
      (overhead : ℕ) (o : Option (List Stored))
      → get h s.mailboxes ≡ o
      → IsConsistent overhead s
      → IsConsistent overhead (drain_found o s h b now).store
  unfolding drain_found
  drain_found-IsConsistent overhead none found c = c
  drain_found-IsConsistent overhead (some q) found c =
      let d = drain_loop q b now in
      write_back-IsConsistent overhead d.freed s _ h q d.left c found (costs-drain_loop q b now)
        (All-left _ q b now (c.kept h q found).1) refl refl

  drain_found-IsBounded :
      (limits : RelayLimits) (o : Option (List Stored))
      → get h s.mailboxes ≡ o
      → Distinct s.mailboxes
      → IsBounded limits s
      → IsBounded limits (drain_found o s h b now).store
  unfolding drain_found
  drain_found-IsBounded limits none found c bounded = bounded
  drain_found-IsBounded limits (some q) found c bounded =
      let d = drain_loop q b now in
      let (long, wide, each) = bounded.each_fits h q found in
      write_back-IsBounded limits s _ h d.left c bounded
        (
          omega (arith, length-left-le q b now),
          omega (arith, sizes-left-le q b now),
          All-left _ q b now each,
        )
        refl (omega arith)

  drain_handle_bounded-IsConsistent :
      (overhead : ℕ)
      → IsConsistent overhead s
      → IsConsistent overhead (drain_handle_bounded s h b now).store
  unfolding drain_handle_bounded
  drain_handle_bounded-IsConsistent overhead =
      drain_found-IsConsistent overhead (get h s.mailboxes) refl

  pub drain_handle_bounded-IsValid :
      (limits : RelayLimits)
      → IsValid limits s
      → IsValid limits (drain_handle_bounded s h b now).store
  drain_handle_bounded-IsValid limits v = record {
    consistent = drain_handle_bounded-IsConsistent limits.entry_overhead_bytes v.consistent;
    bounded =
        unfold drain_handle_bounded in
        drain_found-IsBounded limits (get h s.mailboxes) refl v.consistent.distinct v.bounded;
  }
