-- ===== src/Relay/Flush/CleanSweep.antt =====
-- The sweep and the `dirty` mark (core/src/relay_client/mod.rs, `spawn_reaper`).
use nightdrop.Prelude.{
  All, Bool-cases, List, [], arith, false, inl, inr, length, none, refl, retain, ℕ, ◌<◌, ◌∷◌, ◌≡◌,
}
use nightdrop.Prelude.Bytes.{Bytes, eq_of_same, same, same_refl}
use nightdrop.Prelude.Map.{Distinct, Map, get}
use nightdrop.Relay.Budget.{costs, live}
use nightdrop.Relay.Flush.Clean.{Untouched}
use nightdrop.Relay.Reaper.{expired, freed_by, reap, reap_queues}
use nightdrop.Relay.Store.Invariant.{IsMailbox, IsValid}
use nightdrop.Relay.Store.Mailboxes.{AtMailboxes}
use nightdrop.Relay.Types.{RelayLimits, Stored, StoreInner, entry_cost}

AtMailboxes-tail {ℓ} :
    (P : Bytes → List Stored → Type ℓ) (h : Bytes) (q : List Stored) (m : Map (List Stored))
    → get h m ≡ none
    → AtMailboxes P ((h, q) ∷ m)
    → AtMailboxes P m
unfolding get
AtMailboxes-tail P h q m absent at j r e = elim (Bool-cases (same h j)) [
  | inl x ↦ absurd (ground (arith, eq_of_same h j x))
  | inr x ↦ at j r (rw x e)
]

AtMailboxes-head {ℓ} :
    (P : Bytes → List Stored → Type ℓ) (h : Bytes) (q : List Stored) (m : Map (List Stored))
    → AtMailboxes P ((h, q) ∷ m)
    → P h q
unfolding get
AtMailboxes-head P h q m at = at h q (rw (same_refl h) refl)

retain_unless_freed :
    (overhead now : ℕ) (h : Bytes) (q : List Stored)
    → 0 < overhead
    → All (λ s. s.cost ≡ entry_cost h (length s.bytes) overhead) q
    → costs (retain (expired now) q) ≡ 0
    → retain (live now) q ≡ q
unfolding entry_cost
retain_unless_freed overhead now h [] o a e = refl
retain_unless_freed overhead now h (s ∷ q) o a e =
    ground (arith, a.0, retain_unless_freed overhead now h q o a.1)

reap_queues_same :
    (overhead now : ℕ) (m : Map (List Stored))
    → 0 < overhead
    → Distinct m
    → AtMailboxes (IsMailbox overhead) m
    → freed_by now m ≡ 0
    → reap_queues now m ≡ m
unfolding reap_queues freed_by
reap_queues_same overhead now [] o d at e = refl
reap_queues_same overhead now ((h, []) ∷ m) o d at e =
    absurd ((AtMailboxes-head (IsMailbox overhead) h [] m at).0 refl)
reap_queues_same overhead now ((h, s ∷ q) ∷ m) o d at e =
    let mine = (AtMailboxes-head (IsMailbox overhead) h (s ∷ q) m at).1 in
    let kept = retain_unless_freed overhead now h (s ∷ q) o mine (omega arith) in
    let rest =
      reap_queues_same overhead now m o d.1
        (AtMailboxes-tail (IsMailbox overhead) h (s ∷ q) m d.0 at) (omega arith) in
    rw (kept, rest) refl

pub reap_clean :
    (limits : RelayLimits)
    → 0 < limits.entry_overhead_bytes
    → (now : ℕ) (s : StoreInner) → IsValid limits s
    → (reap now s).dirty ≡ false
    → Untouched s (reap now s)
unfolding reap
reap_clean limits charged now s v e = record {
  mailboxes =
      reap_queues_same limits.entry_overhead_bytes now s.mailboxes charged v.consistent.distinct
        v.consistent.kept (ground arith);
  was_clean = ground arith;
}
