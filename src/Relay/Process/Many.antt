-- ===== src/Relay/Process/Many.antt =====
-- `TakeMany` over its handles (core/src/relay_client/mod.rs, `process` at `Request::TakeMany`).
use mathlib.Core.Path.{subst}
use native.Mathlib.Nat.{add-zero, add_assoc}
use nightdrop.Prelude.{
  All, All-append, All-map, Bool-cases, List, Option, [], append-nil-both, false, inl, inr, none,
  refl, retain, some, sum_by-append, sym, true, ℕ, ◌+◌, ◌∙◌, ◌∷◌, ◌≡◌,
}
use nightdrop.Prelude.Bytes.{Bytes, eq_of_same, same}
use nightdrop.Prelude.Map.{get}
use nightdrop.Relay.Budget.{live, TakeBudget, sizes}
use nightdrop.Relay.Budget.Drains.{Within, drain_loop-untouched}
use nightdrop.Relay.Process.{drain_many}
use nightdrop.Relay.Process.Draws.{drain_handle_bounded-Drains, drain_handle_bounded-Within}
use nightdrop.Relay.Store.{drain_found, drain_handle_bounded, queue_of}
use nightdrop.Relay.Store.Draining.{drain_handle_bounded-IsValid}
use nightdrop.Relay.Store.Invariant.{IsValid}
use nightdrop.Relay.Taken.{AreEmpty, AreTaken, IsTaken, IsUpdated}
use nightdrop.Relay.Types.{RelayLimits, StoreInner, Stored}

pub drain_many-IsValid :
    (limits : RelayLimits) (s : StoreInner) (handles : List Bytes) (b : TakeBudget) (now : ℕ)
    → IsValid limits s
    → IsValid limits (drain_many s handles b now).store
unfolding drain_many
drain_many-IsValid limits s [] b now v = v
drain_many-IsValid limits s (h ∷ hs) b now v =
    let d = drain_handle_bounded s h b now in
    drain_many-IsValid limits d.store hs d.budget now
      (drain_handle_bounded-IsValid h b now s limits v)

pub drain_many-Within :
    (limits : RelayLimits) (room n : ℕ) (s : StoreInner) (handles : List Bytes) (b : TakeBudget)
    (now : ℕ)
    → IsValid limits s
    → Within room limits.max_blob_bytes n b
    → let d = drain_many s handles b now in
      Within room limits.max_blob_bytes (n + sizes d.taken) d.budget
unfolding drain_many
drain_many-Within limits room n s [] b now v w = rw add-zero w
drain_many-Within limits room n s (h ∷ hs) b now v w =
    let d = drain_handle_bounded s h b now in
    rw (sum_by-append, ← add_assoc)
      (drain_many-Within limits room (n + sizes d.taken) d.store hs d.budget now
        (drain_handle_bounded-IsValid h b now s limits v)
        (drain_handle_bounded-Within h b now s limits room n v w))

pub drain_many-live :
    (limits : RelayLimits) (s : StoreInner) (handles : List Bytes) (b : TakeBudget) (now : ℕ)
    → IsValid limits s
    → All (λ e. live now e ≡ true) (drain_many s handles b now).taken
unfolding drain_many
drain_many-live limits s [] b now v = tt
drain_many-live limits s (h ∷ hs) b now v =
    let d = drain_handle_bounded s h b now in
    All-append _ d.taken _ (drain_handle_bounded-Drains h b now s v.consistent.distinct).only_live (
      drain_many-live limits d.store hs d.budget now
        (drain_handle_bounded-IsValid h b now s limits v))

pub drain_many-others :
    (limits : RelayLimits) (s : StoreInner) (handles : List Bytes) (b : TakeBudget) (now : ℕ)
    (j : Bytes)
    → IsValid limits s
    → All (λ h. same h j ≡ false) handles
    → queue_of (drain_many s handles b now).store j ≡ queue_of s j
unfolding drain_many
drain_many-others limits s [] b now j v a = refl
drain_many-others limits s (h ∷ hs) b now j v a =
    let d = drain_handle_bounded s h b now in
    drain_many-others limits d.store hs d.budget now j
      (drain_handle_bounded-IsValid h b now s limits v) a.1
    ∙ (drain_handle_bounded-Drains h b now s v.consistent.distinct).others j a.0

module _ (limits : RelayLimits) where
  pub set_of :
      (s t : StoreInner) (handle : Bytes) (queue : List Stored)
      → queue_of t handle ≡ queue
      → ((j : Bytes) → same handle j ≡ false → queue_of t j ≡ queue_of s j)
      → IsUpdated (queue_of s) handle queue (queue_of t)
  set_of s t handle queue mine others j = elim (Bool-cases (same handle j)) [
    | inl x ↦ rw (x, ← eq_of_same handle j x) mine
    | inr x ↦ rw x (others j x)
  ]

  pub drained :
      (s : StoreInner) (handle : Bytes) (b : TakeBudget) (now : ℕ)
      → IsValid limits s
      → (let d = drain_handle_bounded s handle b now in
          IsTaken now (queue_of s) handle d.taken (queue_of d.store))
  drained s handle b now v =
      let d = drain_handle_bounded s handle b now in
      let spec = drain_handle_bounded-Drains handle b now s v.consistent.distinct in
      (
        queue_of d.store handle,
        spec.order,
        set_of s d.store handle (queue_of d.store handle) refl spec.others,
      )

  pub all_drained :
      (s : StoreInner) (handles : List Bytes) (b : TakeBudget) (now : ℕ)
      → IsValid limits s
      → (let d = drain_many s handles b now in
          AreTaken now (queue_of s) handles d.taken (queue_of d.store))
  unfolding drain_many
  all_drained s [] b now v = (refl, λ j. refl)
  all_drained s (handle ∷ handles) b now v =
      let d = drain_handle_bounded s handle b now in
      let rest = drain_many d.store handles d.budget now in
      (
        d.taken,
        rest.taken,
        queue_of d.store,
        refl,
        drained s handle b now v,
        all_drained d.store handles d.budget now
            (drain_handle_bounded-IsValid handle b now s limits v),
      )

  -- An empty portion leaves the budget as it was.
  nothing_taken :
      (s : StoreInner) (handle : Bytes) (b : TakeBudget) (now : ℕ)
      → b.first ≡ true
      → (drain_handle_bounded s handle b now).taken ≡ []
      → (drain_handle_bounded s handle b now).budget ≡ b
  unfolding drain_handle_bounded drain_found
  nothing_taken s handle b now first nothing = by_queue (get handle s.mailboxes) nothing
    where
      by_queue :
          (o : Option (List Stored))
          → (drain_found o s handle b now).taken ≡ []
          → (drain_found o s handle b now).budget ≡ b
      by_queue none e = refl
      by_queue (some q) e = drain_loop-untouched q b now first e

  pub drain_many-AreEmpty :
      (s : StoreInner) (handles : List Bytes) (b : TakeBudget) (now : ℕ)
      → IsValid limits s
      → b.first ≡ true
      → (drain_many s handles b now).taken ≡ []
      → AreEmpty now (queue_of s) handles
  unfolding drain_many
  drain_many-AreEmpty s [] b now v first nothing = tt
  drain_many-AreEmpty s (handle ∷ handles) b now v first nothing =
      let d = drain_handle_bounded s handle b now in
      let spec = drain_handle_bounded-Drains handle b now s v.consistent.distinct in
      let (none_here, none_later) =
        append-nil-both d.taken (drain_many d.store handles d.budget now).taken nothing in
      let kept : d.budget ≡ b = nothing_taken s handle b now first none_here in
      let later =
        drain_many-AreEmpty d.store handles d.budget now
          (drain_handle_bounded-IsValid handle b now s limits v) (rw kept first) none_later in
      (
        spec.serves first none_here,
        All-map _ _ handles (λ j. still s handle b now v none_here j) later,
      )
    where
      still :
          (s : StoreInner) (handle : Bytes) (b : TakeBudget) (now : ℕ)
          → IsValid limits s
          → (drain_handle_bounded s handle b now).taken ≡ []
          → (j : Bytes)
          → retain (live now) (queue_of (drain_handle_bounded s handle b now).store j) ≡ []
          → retain (live now) (queue_of s j) ≡ []
      still s handle b now v none_here j empty =
          let spec = drain_handle_bounded-Drains handle b now s v.consistent.distinct in
          elim (Bool-cases (same handle j)) [
            | inl x ↦
                let here = eq_of_same handle j x in
                let left =
                  subst
                    (λ h.
                      retain (live now) (queue_of (drain_handle_bounded s handle b now).store h)
                      ≡ [])
                    (sym here) empty in
                subst (λ h. retain (live now) (queue_of s h) ≡ []) here
                  (sym spec.order ∙ rw none_here left)
            | inr x ↦ rw (← spec.others j x) empty
          ]
