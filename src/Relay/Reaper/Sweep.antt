-- ===== src/Relay/Reaper/Sweep.antt =====
-- The store after a sweep (core/src/relay_client/mod.rs, `spawn_reaper`).
use mathlib.Core.Path.{subst}
use nightdrop.Prelude.{
  All-retain, Bool-cases, List, Option, [], arith, inl, inr, length, length-retain-le, none, refl,
  retain, some, sum_by-retain-le, sum_by-split, ℕ, ◌+◌, ◌∷◌, ◌≡◌, ◌≢◌,
}
use nightdrop.Prelude.Bytes.{Bytes, eq_of_same, same}
use nightdrop.Prelude.Map.{
  Distinct, Map, get, total, non_empty, non_empty-some, or_empty, or_empty-non_empty,
}
use nightdrop.Relay.Budget.{costs, live}
use nightdrop.Relay.Reaper.{freed_by, reap, reap_queues}
use nightdrop.Relay.Store.{queue_of}
use nightdrop.Relay.Store.Invariant.{FitsMailbox, IsValid}
use nightdrop.Relay.Store.Mailboxes.{AtMailboxes}
use nightdrop.Relay.Types.{RelayLimits, Stored, StoreInner}

module _ (now : ℕ) where
  get-reap_queues-none :
      (j : Bytes) (m : Map (List Stored)) → get j m ≡ none → get j (reap_queues now m) ≡ none
  unfolding reap_queues get
  get-reap_queues-none j [] h = refl
  get-reap_queues-none j ((h, q) ∷ m) e = ground (arith, get-reap_queues-none j m)

  get-reap_queues :
      (j : Bytes) (m : Map (List Stored))
      → Distinct m
      → get j (reap_queues now m) ≡ non_empty (retain (live now) (or_empty (get j m)))
  unfolding reap_queues get
  get-reap_queues j [] d = refl
  get-reap_queues j ((h, q) ∷ m) d = elim (Bool-cases (same h j)) [
    | inl x ↦ ground (arith, x, eq_of_same h j x, get-reap_queues-none h m d.0)
    | inr x ↦ ground (arith, x, get-reap_queues j m d.1)
  ]

  reap_queues-Distinct : (m : Map (List Stored)) → Distinct m → Distinct (reap_queues now m)
  unfolding reap_queues
  reap_queues-Distinct [] d = tt
  reap_queues-Distinct ((h, q) ∷ m) d =
      let rest = reap_queues-Distinct m d.1 in ground (arith, rest, get-reap_queues-none h m d.0)

  total-reap_queues :
      (m : Map (List Stored)) → freed_by now m + total costs (reap_queues now m) ≡ total costs m
  unfolding reap_queues freed_by total
  total-reap_queues [] = refl
  total-reap_queues ((h, q) ∷ m) =
      ground (arith, total-reap_queues m, sum_by-split (live now) (λ (e : Stored). e.cost) q)

  reap_queues-AtMailboxes {ℓ} :
      (P : Bytes → List Stored → Type ℓ) (m : Map (List Stored))
      → Distinct m
      → ((h : Bytes) (q : List Stored)
          → retain (live now) q ≢ []
          → P h q
          → P h (retain (live now) q))
      → AtMailboxes P m
      → AtMailboxes P (reap_queues now m)
  reap_queues-AtMailboxes P m d step at j r found = from (get j m) refl
    where
      from : (o : Option (List Stored)) → get j m ≡ o → P j r
      from none e = absurd (ground (arith, get-reap_queues-none j m e))
      from (some q) e =
          let (same_queue, ne) =
            non_empty-some (retain (live now) q) r (rw (get-reap_queues j m d, e) at found) in
          subst (P j) same_queue (step j q ne (at j q e))

module _ (limits : RelayLimits) (now : ℕ) (s : StoreInner) (v : IsValid limits s) where
  -- After a sweep of a valid store every mailbox holds exactly its live blobs, in order.
  pub reap_queue : (j : Bytes) → queue_of (reap now s) j ≡ retain (live now) (queue_of s j)
  unfolding reap
  reap_queue j =
      rw (get-reap_queues now j s.mailboxes v.consistent.distinct, or_empty-non_empty) refl

  pub reap-IsValid : IsValid limits (reap now s)
  unfolding reap
  reap-IsValid = record {
    consistent = record {
      distinct = reap_queues-Distinct now s.mailboxes v.consistent.distinct;
      counted = omega (arith, v.consistent.counted, total-reap_queues now s.mailboxes);
      kept =
          reap_queues-AtMailboxes now _ s.mailboxes v.consistent.distinct
            (λ h q ne k. (ne, All-retain _ (live now) q k.1)) v.consistent.kept;
    };
    bounded = record {
      total_fits = omega (arith, v.bounded.total_fits);
      each_fits =
          reap_queues-AtMailboxes now (FitsMailbox limits) s.mailboxes v.consistent.distinct
            (λ h q ne k. (
              omega (arith, k.0, length-retain-le {0} (live now) q),
              omega
                  (arith, k.1, sum_by-retain-le {0} (live now) (λ (e : Stored). length e.bytes) q),
              All-retain _ (live now) q k.2,
            ))
            v.bounded.each_fits;
    };
  }
