-- ===== src/Relay/Refined/Refines.antt =====
-- The relay refines the abstract service (core/src/relay_client/mod.rs, `process`, `spawn_reaper`).
use nightdrop.Prelude.{
  Bool-cases, List, Option, [], false, if◌then◌else◌, inl, inr, length, ltb, refl, true, ◌++◌, ◌∙◌,
  ◌∷◌, ◌≡◌, ◌⊎◌, arith, tests,
}
use nightdrop.Prelude.Bytes.{Bytes, eq_of_same, same}
use nightdrop.Prelude.Map.{get, total}
use nightdrop.Relay.Budget.{full_budget}
use nightdrop.Relay.Post.{entry, Reading}
use nightdrop.Relay.Post.Queueing.{process_post_evicts_nothing}
use nightdrop.Relay.Process.{
  process_recall, drain_many, process, process_directory, process_fetch, process_peek, process_take,
  process_take_many,
}
use nightdrop.Relay.Process.Draws.{drain_handle_bounded-Drains}
use nightdrop.Relay.Process.Many.{set_of, all_drained, drain_many-AreEmpty, drained}
use nightdrop.Relay.Process.Recall.{process_recall_lem}
use nightdrop.Relay.Process.Responses.{process-IsValid}
use nightdrop.Relay.Reaper.{reap}
use nightdrop.Relay.Reaper.Sweep.{reap-IsValid, reap_queue}
use nightdrop.Relay.Refined.{serves, sweeps, Allows, Action, IsRun, answers_of}
use nightdrop.Relay.Store.{drain_handle_bounded, queue_of}
use nightdrop.Relay.Store.Invariant.{IsValid}
use nightdrop.Relay.Types.{
  post, peek, fetch, take, take_many, recall, get_directory, Platform, RelayLimits, Request,
  StoreInner, Stored, err, max_take_many, empty_store,
}

module _ (p : Platform) (limits : RelayLimits) where
  process-Allows :
      (directory : Option Bytes) (r : Reading) (s : StoreInner) (request : Request)
      → IsValid limits s
      → (let reply = process p limits directory r s request in
          Allows p limits directory r (queue_of s) request reply.response (queue_of reply.store))
  unfolding process process_peek process_fetch process_take process_take_many process_directory
  process-Allows directory r s (post handle blob ttl) v =
      elim (process_post_evicts_nothing p limits r s handle blob ttl) [
        | inl (refused, same_store) ↦ inl (refused, λ j. rw same_store refl)
        | inr took ↦ inr (
          took.bytes,
          took.decoded,
          took.accepted,
          λ j.
              took.queues j
              ∙ at_handle j (Bool-cases (same handle j)) (entry p limits r handle took.bytes ttl),
        )
      ]
    where
      at_handle :
          (j : Bytes)
          → (same handle j ≡ true) ⊎ (same handle j ≡ false)
          → (e : Stored)
          → (if same handle j then queue_of s j ++ e ∷ [] else queue_of s j)
            ≡ (if same handle j then queue_of s handle ++ e ∷ [] else queue_of s j)
      at_handle j (inl x) e = rw (x, eq_of_same handle j x) refl
      at_handle j (inr x) e = rw x refl
  process-Allows directory r s (peek handle) v = (refl, λ j. refl)
  process-Allows directory r s (fetch handle) v =
      let d = drain_handle_bounded s handle full_budget r.now in
      let spec = drain_handle_bounded-Drains handle full_budget r.now s v.consistent.distinct in
      (d.taken, refl, drained limits s handle full_budget r.now v, spec.serves refl)
  process-Allows directory r s (take handle) v =
      let d = drain_handle_bounded s handle full_budget r.now in
      let spec = drain_handle_bounded-Drains handle full_budget r.now s v.consistent.distinct in
      (d.taken, refl, drained limits s handle full_budget r.now v, spec.serves refl)
  process-Allows directory r s (take_many handles) v =
      elim (Bool-cases (ltb max_take_many (length handles))) [
        | inl big ↦ inl (omega tests, rw big (unfold err in refl), λ j. rw big refl)
        | inr fits ↦ inr (
          ground arith,
          rw fits refl,
          rw fits (
            (drain_many s handles full_budget r.now).taken,
            refl,
            all_drained limits s handles full_budget r.now v,
            drain_many-AreEmpty limits s handles full_budget r.now v refl,
          ),
        )
      ]
  process-Allows directory r s (recall handle msg_id token) v =
      let reply = process_recall s handle msg_id token in
      let (answers, left, others) =
        process_recall_lem s handle msg_id token v.consistent.distinct in
      (
        answers,
        (
          queue_of reply.store handle,
          left,
          set_of limits s reply.store handle (queue_of reply.store handle) refl others,
        ),
      )
  process-Allows directory r s get_directory v = (refl, λ j. refl)

  answers-IsRun :
      (s : StoreInner) (actions : List Action)
      → IsValid limits s
      → IsRun p limits (queue_of s) actions (answers_of p limits s actions)
  unfolding answers_of
  answers-IsRun s [] v = tt
  answers-IsRun s (serves directory r request ∷ actions) v =
      let reply = process p limits directory r s request in
      (
        queue_of reply.store,
        process-Allows directory r s request v,
        answers-IsRun reply.store actions (process-IsValid p limits directory r s request v),
      )
  answers-IsRun s (sweeps now ∷ actions) v = (
    queue_of (reap now s),
    reap_queue limits now s v,
    answers-IsRun (reap now s) actions (reap-IsValid limits now s v),
  )

  empty-IsValid : IsValid limits empty_store
  empty-IsValid = record {
    consistent = record {
      distinct = tt;
      counted = unfold total in refl;
      kept = λ h q e. unfold get in cc;
    };
    bounded = record { total_fits = omega arith; each_fits = λ h q e. unfold get in cc };
  }

  -- From the empty store, whatever requests and sweeps happen, at whatever times, the relay's answers
  -- are those of the abstract service, a function from handles to queues: a post appends to its own
  -- mailbox, or is refused and changes nothing; a peek counts the live blobs; a take or fetch hands out
  -- live blobs, oldest first, at least one if there is one, and the other live blobs stay in order; a
  -- take of several mailboxes does so in one after the other, and refuses more than 64; a recall removes
  -- just the entries with its id and its token and says whether there was any; a sweep removes the
  -- expired blobs.
  pub relay_refines :
      (actions : List Action)
      → IsRun p limits (λ j. []) actions (answers_of p limits empty_store actions)
  relay_refines actions = unfold get in answers-IsRun empty_store actions empty-IsValid
