-- ===== src/Relay/Process/Draws.antt =====
-- What the draining requests draw from the store (core/src/relay_client/mod.rs, `Take`, `Fetch`,
-- `TakeMany`, `Peek`).
use native.Mathlib.Nat.{add-zero}
use nightdrop.Prelude.{
  ℕ, ◌+◌, ◌≤◌, ◌≡◌, refl, true, false, Option, none, some, List, [], ◌∷◌, ◌++◌, length, All, retain,
}
use nightdrop.Prelude.Bytes.{Bytes, same, same_refl}
use nightdrop.Prelude.Map.{get, Distinct}
use nightdrop.Relay.Budget.{TakeBudget, drain_loop, sizes, live}
use nightdrop.Relay.Budget.Drains.{
  live-drain_loop, drain_loop-Within, drain_loop-serves, drain_loop-all, Within, drain_loop-live,
}
use nightdrop.Relay.Store.{queue_of, Drain, drain_found, drain_handle_bounded}
use nightdrop.Relay.Store.Invariant.{IsValid, IsAdmissible}
use nightdrop.Relay.Store.Mailboxes.{queue_of-write_back}
use nightdrop.Relay.Types.{RelayLimits, Stored, StoreInner}

-- What one drain of `handle` does, seen from the outside.
pub record Drains (handle : Bytes) (b : TakeBudget) (now : ℕ) (s : StoreInner) (d : Drain)
    : Type 0 where
  -- the live blobs, oldest first, are those handed out and then those still queued
  pub order :
      d.taken ++ retain (live now) (queue_of d.store handle) ≡ retain (live now) (queue_of s handle)
  pub others : (j : Bytes) → same handle j ≡ false → queue_of d.store j ≡ queue_of s j
  pub only_live : All (λ e. live now e ≡ true) d.taken
  pub serves : b.first ≡ true → d.taken ≡ [] → retain (live now) (queue_of s handle) ≡ []
  pub whole : sizes (retain (live now) (queue_of s handle)) ≤ b.room → queue_of d.store handle ≡ []

module _ (handle : Bytes) (b : TakeBudget) (now : ℕ) (s : StoreInner) where
  drain_found-Drains :
      (o : Option (List Stored))
      → get handle s.mailboxes ≡ o
      → Distinct s.mailboxes
      → Drains handle b now s (drain_found o s handle b now)
  unfolding drain_found
  drain_found-Drains none found d = record {
    order = refl;
    others = λ j _. refl;
    only_live = tt;
    serves = λ _ _. rw found refl;
    whole = λ _. rw found refl;
  }
  drain_found-Drains (some q) found d =
      let after = (drain_found (some q) s handle b now).store in
      let moved =
        λ (j : Bytes). queue_of-write_back s after handle j (drain_loop q b now).left d refl in
      let mine : queue_of after handle ≡ (drain_loop q b now).left =
        rw (same_refl handle) at (moved handle) in
      let was : queue_of s handle ≡ q = rw found refl in
      record {
        order = rw (mine, was) (live-drain_loop q b now);
        others = λ j x. rw x at (moved j);
        only_live = drain_loop-live q b now;
        serves = λ f e. rw was (drain_loop-serves q b now f e);
        whole = λ fits. rw mine (drain_loop-all q b now (rw was at fits));
      }

  pub drain_handle_bounded-Drains :
      Distinct s.mailboxes → Drains handle b now s (drain_handle_bounded s handle b now)
  unfolding drain_handle_bounded
  drain_handle_bounded-Drains = drain_found-Drains (get handle s.mailboxes) refl

  drain_found-Within :
      (limits : RelayLimits) (room n : ℕ) (o : Option (List Stored))
      → get handle s.mailboxes ≡ o
      → IsValid limits s
      → Within room limits.max_blob_bytes n b
      → let d = drain_found o s handle b now in
        Within room limits.max_blob_bytes (n + sizes d.taken) d.budget
  unfolding drain_found
  drain_found-Within limits room n none found v w = rw add-zero w
  drain_found-Within limits room n (some q) found v w =
      drain_loop-Within room limits.max_blob_bytes n q b now
        (smaller q (v.bounded.each_fits handle q found).2) w
    where
      smaller :
          (l : List Stored)
          → All (IsAdmissible limits) l
          → All (λ e. length e.bytes ≤ limits.max_blob_bytes) l
      smaller [] h = tt
      smaller (e ∷ l) h = (h.0.0, smaller l h.1)

  pub drain_handle_bounded-Within :
      (limits : RelayLimits) (room n : ℕ)
      → IsValid limits s
      → Within room limits.max_blob_bytes n b
      → let d = drain_handle_bounded s handle b now in
        Within room limits.max_blob_bytes (n + sizes d.taken) d.budget
  unfolding drain_handle_bounded
  drain_handle_bounded-Within limits room n =
      drain_found-Within limits room n (get handle s.mailboxes) refl
