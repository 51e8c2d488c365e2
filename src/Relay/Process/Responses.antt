-- ===== src/Relay/Process/Responses.antt =====
-- The responses of the draining requests (core/src/relay_client/mod.rs, `Take`, `Fetch`, `TakeMany`,
-- `Peek`).
use mathlib.Core.List.{append-nil}
use nightdrop.Prelude.{
  All, Bool-cases, List, Option, [], arith, false, inl, inr, length, length-map, ltb, map, max,
  refl, retain, tests, true, ℕ, ◌++◌, ◌+◌, ◌<◌, ◌≡◌, ◌≤◌, ◌⊎◌,
}
use nightdrop.Prelude.Bytes.{Bytes, same}
use nightdrop.Relay.Budget.{TakeBudget, full_budget, live, sizes, take_budget_bytes}
use nightdrop.Relay.Budget.Drains.{Within}
use nightdrop.Relay.Post.{Reading}
use nightdrop.Relay.Post.Queueing.{process_post-IsValid}
use nightdrop.Relay.Process.{
  drain_many, process, process_directory, process_fetch, process_peek, process_take,
  process_take_many,
}
use nightdrop.Relay.Process.Draws.{drain_handle_bounded-Drains, drain_handle_bounded-Within}
use nightdrop.Relay.Process.Many.{
  all_drained, drain_many-AreEmpty, drain_many-IsValid, drain_many-Within, drain_many-live,
  drain_many-others,
}
use nightdrop.Relay.Process.Recall.{process_recall-IsValid}
use nightdrop.Relay.Store.{drain_handle_bounded, queue_of}
use nightdrop.Relay.Store.Draining.{drain_handle_bounded-IsValid}
use nightdrop.Relay.Store.Invariant.{IsValid}
use nightdrop.Relay.Taken.{AreEmpty, AreTaken}
use nightdrop.Relay.Types.{Platform, RelayLimits, Request, StoreInner, Stored, err, max_take_many}

-- A reading whose budget has been spent by `n` bytes says how much that can be.
Within-le : (room largest n : ℕ) (b : TakeBudget) → Within room largest n b → n ≤ max room largest
Within-le room largest n b w = elim (Bool-cases b.first) [
  | inl f ↦ omega (arith, (w.fresh f).0)
  | inr f ↦ omega (arith, w.spent f)
]

full_budget-Within : (largest : ℕ) → Within take_budget_bytes largest 0 full_budget
full_budget-Within largest = record { fresh = λ _. (refl, refl); spent = λ e. cc }

-- What a draining response is made of: live blobs, all together no larger than the budget or one
-- blob of the largest size.
pub record IsPortion (limits : RelayLimits) (now : ℕ) (taken : List Stored) : Type 0 where
  live_only : All (λ e. live now e ≡ true) taken
  pub size : sizes taken ≤ max take_budget_bytes limits.max_blob_bytes

module _ (p : Platform) (limits : RelayLimits) (r : Reading) (s : StoreInner)
    (v : IsValid limits s) where
  -- Take, in a valid store: the blobs that it hands out and those still queued are together, in
  -- order, the live blobs of the mailbox; other mailboxes are untouched; an empty response means
  -- that nothing live waited; and the response is a portion of one budget.
  pub process_take-IsPortion :
      (handle : Bytes)
      → let reply = process_take p r s handle in
        (taken : List Stored) × (reply.response.blobs ≡ map (λ e. p.encode e.bytes) taken)
        × (taken ++ retain (live r.now) (queue_of reply.store handle)
            ≡ retain (live r.now) (queue_of s handle))
        × ((j : Bytes) → same handle j ≡ false → queue_of reply.store j ≡ queue_of s j)
        × (taken ≡ [] → retain (live r.now) (queue_of s handle) ≡ [])
        × IsPortion limits r.now taken
  unfolding process_take
  process_take-IsPortion handle =
      let d = drain_handle_bounded s handle full_budget r.now in
      let spec = drain_handle_bounded-Drains handle full_budget r.now s v.consistent.distinct in
      let within =
        drain_handle_bounded-Within handle full_budget r.now s limits take_budget_bytes 0 v
          (full_budget-Within limits.max_blob_bytes) in
      (
        d.taken,
        refl,
        spec.order,
        spec.others,
        spec.serves refl,
        record {
          live_only = spec.only_live;
          size = omega (
            arith,
            Within-le take_budget_bytes limits.max_blob_bytes (0 + sizes d.taken) d.budget within,
          );
        },
      )

  -- Fetch, in a valid store: it hands out the same blobs as Take would, in the same order, each beside
  -- the id of its own entry, and leaves the same store; these entries and those still queued are
  -- together, in order, the live entries of the mailbox.
  pub process_fetch-process_take :
      (handle : Bytes)
      → (taken : List Stored) × ((process_fetch p r s handle).response.items
          ≡ map (λ e. (e.msg_id, p.encode e.bytes)) taken)
        × ((process_take p r s handle).response.blobs ≡ map (λ e. p.encode e.bytes) taken)
        × ((process_fetch p r s handle).store ≡ (process_take p r s handle).store)
        × (taken ++ retain (live r.now) (queue_of (process_fetch p r s handle).store handle)
            ≡ retain (live r.now) (queue_of s handle))
  unfolding process_fetch process_take
  process_fetch-process_take handle =
      let d = drain_handle_bounded s handle full_budget r.now in
      let spec = drain_handle_bounded-Drains handle full_budget r.now s v.consistent.distinct in
      (d.taken, refl, refl, refl, spec.order)

  -- Peek, in a valid store, counts what Take would return, when all of it fits one response.
  process_peek-process_take :
      (handle : Bytes)
      → sizes (retain (live r.now) (queue_of s handle)) ≤ take_budget_bytes
      → (process_peek p r s handle).response.count
        ≡ length (process_take p r s handle).response.blobs
  unfolding process_take process_peek
  process_peek-process_take handle fits =
      let d = drain_handle_bounded s handle full_budget r.now in
      let spec = drain_handle_bounded-Drains handle full_budget r.now s v.consistent.distinct in
      rw (length-map, ← spec.order, spec.whole fits, append-nil) refl

module _ (p : Platform) (limits : RelayLimits) (r : Reading) (s : StoreInner)
    (v : IsValid limits s) where
  -- TakeMany, in a valid store: more than 64 handles are refused and change nothing. Otherwise it
  -- takes from one named mailbox after the other, from each its oldest live entries, the other live
  -- ones staying in order, and answers the blobs of exactly the entries taken; mailboxes that are not
  -- named are untouched; an empty response means that nothing live waited in any of the named ones;
  -- and the response is one portion for all the handles together.
  pub process_take_many-IsPortion :
      (handles : List Bytes)
      → let reply = process_take_many p r s handles in
        ((max_take_many < length handles) × (reply.response.ok ≡ false) × (reply.store ≡ s))
        ⊎ ((length handles ≤ max_take_many)
            × (reply.response.ok ≡ true)
            × ((taken : List Stored) × (reply.response.blobs ≡ map (λ e. p.encode e.bytes) taken)
                × AreTaken r.now (queue_of s) handles taken (queue_of reply.store)
                × ((j : Bytes)
                    → All (λ h. same h j ≡ false) handles
                    → queue_of reply.store j ≡ queue_of s j)
                × (taken ≡ [] → AreEmpty r.now (queue_of s) handles)
                × IsPortion limits r.now taken))
  unfolding process_take_many err
  process_take_many-IsPortion handles = elim (Bool-cases (ltb max_take_many (length handles))) [
    | inl big ↦ inl (omega tests, rw big refl, rw big refl)
    | inr fits ↦
        let d = drain_many s handles full_budget r.now in
        let within =
          drain_many-Within limits take_budget_bytes 0 s handles full_budget r.now v
            (full_budget-Within limits.max_blob_bytes) in
        inr (
          ground arith,
          rw fits refl,
          rw fits (
            d.taken,
            refl,
            all_drained limits s handles full_budget r.now v,
            λ j a. drain_many-others limits s handles full_budget r.now j v a,
            drain_many-AreEmpty limits s handles full_budget r.now v refl,
            record {
              live_only = drain_many-live limits s handles full_budget r.now v;
              size = omega (
                arith,
                Within-le take_budget_bytes limits.max_blob_bytes (0 + sizes d.taken) d.budget
                    within,
              );
            },
          ),
        )
  ]

-- Every request leaves a valid store valid: its byte total is the sum of the costs of what is
-- queued, no mailbox is kept empty, and every limit holds.
pub process-IsValid :
    (p : Platform) (limits : RelayLimits) (directory : Option Bytes) (r : Reading) (s : StoreInner)
    (request : Request)
    → IsValid limits s
    → IsValid limits (process p limits directory r s request).store
unfolding process process_peek process_fetch process_take process_take_many process_directory
process-IsValid p limits directory r s (Request.post handle blob ttl) v =
    process_post-IsValid p limits r s handle blob ttl v
process-IsValid p limits directory r s (Request.peek handle) v = v
process-IsValid p limits directory r s (Request.fetch handle) v =
    drain_handle_bounded-IsValid handle full_budget r.now s limits v
process-IsValid p limits directory r s (Request.take handle) v =
    drain_handle_bounded-IsValid handle full_budget r.now s limits v
process-IsValid p limits directory r s (Request.take_many handles) v =
    elim (Bool-cases (ltb max_take_many (length handles))) [
      | inl big ↦ rw big v
      | inr fits ↦ rw fits (drain_many-IsValid limits s handles full_budget r.now v)
    ]
process-IsValid p limits directory r s (Request.recall handle msg_id token) v =
    process_recall-IsValid s handle msg_id token limits v
process-IsValid p limits directory r s Request.get_directory v = v
