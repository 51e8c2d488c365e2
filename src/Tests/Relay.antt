-- ===== src/Tests/Relay.antt =====
-- Runs of posts, takes, recalls, sweeps and restarts.
use nightdrop.Prelude.{
  All, List, [], arith, false, length, map, none, refl, retain, some, true, ◌++◌, ◌<◌, ◌↔◌, ◌∷◌,
  ◌≡◌, ◌≤◌, ◌⊎◌, Any,
}
use nightdrop.Prelude.Bytes.{Bytes, codes, same}
use nightdrop.Prelude.Map.{get}
use nightdrop.Relay.Budget.{live}
use nightdrop.Relay.Post.{process_post, reject}
use nightdrop.Relay.Post.Admission.{Admits, post_accepted_iff}
use nightdrop.Relay.Post.Queueing.{Queued, process_post_evicts_nothing}
use nightdrop.Relay.Process.{
  process, process_fetch, process_recall, process_take, process_take_many,
}
use nightdrop.Relay.Process.Delivery.{post_then_take}
use nightdrop.Relay.Process.Recall.{process_recall_lem, recall_undoes_post, HasReceipt, IsLeft}
use nightdrop.Relay.Process.Responses.{
  IsPortion, process-IsValid, process_fetch-process_take, process_take_many-IsPortion,
  process_take-IsPortion,
}
use nightdrop.Relay.Store.{queue_of}
use nightdrop.Relay.Store.Invariant.{IsValid}
use nightdrop.Relay.Taken.{AreEmpty, AreTaken}
use nightdrop.Relay.Types.{Request, Stored, default_limits, empty_store, entry_cost, valid_handle}
use nightdrop.Tests.Samples.{at, empty-IsValid, inbox, one_queued, one_queued-IsValid, plain}

hello_accepted :
    (process_post plain default_limits (at 10) empty_store inbox (codes "hello") 60).response.ok
    ≡ true
unfolding process_post valid_handle reject get entry_cost
hello_accepted = refl

process-IsValid_example :
    IsValid default_limits
      (process plain default_limits none (at 20) one_queued (Request.take inbox)).store
process-IsValid_example =
    process-IsValid plain default_limits none (at 20) one_queued (Request.take inbox)
      one_queued-IsValid

post_accepted_iff_example :
    ((process_post plain default_limits (at 10) empty_store inbox (codes "hello") 60).response.ok
      ≡ true)
    ↔ ((bytes : Bytes) × (some (codes "hello") ≡ some bytes)
        × (valid_handle inbox ≡ true)
        × Admits default_limits empty_store inbox (length bytes))
post_accepted_iff_example =
    post_accepted_iff plain default_limits (at 10) empty_store inbox (codes "hello") 60

process_post_evicts_nothing_example :
    let reply = process_post plain default_limits (at 11) one_queued inbox (codes "again") 60 in
    ((reply.response.ok ≡ false) × (reply.store ≡ one_queued))
    ⊎ Queued plain default_limits (at 11) one_queued inbox (codes "again") 60 reply
process_post_evicts_nothing_example =
    process_post_evicts_nothing plain default_limits (at 11) one_queued inbox (codes "again") 60

post_then_take_example :
    (process_take plain (at 30) one_queued inbox).response.blobs ≡ codes "hello" ∷ []
post_then_take_example =
    (post_then_take plain default_limits (at 10) (at 30) empty_store inbox (codes "hello")
      (codes "hello") 60 empty-IsValid (unfold get in refl) refl hello_accepted (omega arith)).0

recall_undoes_post_example :
    let reply = process_post plain default_limits (at 10) empty_store inbox (codes "hello") 60 in
    (id : Bytes) × (token : Bytes) × (reply.response.msg_id ≡ some id)
    × (reply.response.delete_token ≡ some token)
    × ((process_recall reply.store inbox id token).response.ok ≡ true)
    × ((j : Bytes)
        → queue_of (process_recall reply.store inbox id token).store j ≡ queue_of empty_store j)
recall_undoes_post_example =
    recall_undoes_post plain default_limits (at 10) empty_store inbox (codes "hello") 60
      empty-IsValid hello_accepted (unfold get in tt)

process_recall_lem_example :
    let reply = process_recall one_queued inbox (codes "id") (codes "wrong") in
    ((reply.response.ok ≡ true)
      ↔ Any (HasReceipt (codes "id") (codes "wrong")) (queue_of one_queued inbox))
    × IsLeft
        (HasReceipt (codes "id") (codes "wrong"))
        (queue_of one_queued inbox)
        (queue_of reply.store inbox)
    × ((j : Bytes) → same inbox j ≡ false → queue_of reply.store j ≡ queue_of one_queued j)
process_recall_lem_example =
    process_recall_lem one_queued inbox (codes "id") (codes "wrong")
      one_queued-IsValid.consistent.distinct

process_take-IsPortion_example :
    let reply = process_take plain (at 20) one_queued inbox in
    (taken : List Stored) × (reply.response.blobs ≡ map (λ e. e.bytes) taken)
    × (taken ++ retain (live (at 20).now) (queue_of reply.store inbox)
        ≡ retain (live (at 20).now) (queue_of one_queued inbox))
    × ((j : Bytes) → same inbox j ≡ false → queue_of reply.store j ≡ queue_of one_queued j)
    × (taken ≡ [] → retain (live (at 20).now) (queue_of one_queued inbox) ≡ [])
    × IsPortion default_limits (at 20).now taken
process_take-IsPortion_example =
    process_take-IsPortion plain default_limits (at 20) one_queued one_queued-IsValid inbox

process_take_many-IsPortion_example :
    let reply = process_take_many plain (at 20) one_queued (inbox ∷ codes "other" ∷ []) in
    ((64 < 2) × (reply.response.ok ≡ false) × (reply.store ≡ one_queued))
    ⊎ ((2 ≤ 64)
        × (reply.response.ok ≡ true)
        × ((taken : List Stored) × (reply.response.blobs ≡ map (λ e. e.bytes) taken)
            × AreTaken
                (at 20).now
                (queue_of one_queued)
                (inbox ∷ codes "other" ∷ [])
                taken
                (queue_of reply.store)
            × ((j : Bytes)
                → All (λ h. same h j ≡ false) (inbox ∷ codes "other" ∷ [])
                → queue_of reply.store j ≡ queue_of one_queued j)
            × (taken ≡ [] → AreEmpty (at 20).now (queue_of one_queued) (inbox ∷ codes "other" ∷ []))
            × IsPortion default_limits (at 20).now taken))
process_take_many-IsPortion_example =
    process_take_many-IsPortion plain default_limits (at 20) one_queued one_queued-IsValid
      (inbox ∷ codes "other" ∷ [])

process_fetch-process_take_example :
    (taken : List Stored) × ((process_fetch plain (at 20) one_queued inbox).response.items
      ≡ map (λ e. (e.msg_id, e.bytes)) taken)
    × ((process_take plain (at 20) one_queued inbox).response.blobs ≡ map (λ e. e.bytes) taken)
    × ((process_fetch plain (at 20) one_queued inbox).store
        ≡ (process_take plain (at 20) one_queued inbox).store)
    × (taken
          ++ retain
              (live (at 20).now)
              (queue_of (process_fetch plain (at 20) one_queued inbox).store inbox)
        ≡ retain (live (at 20).now) (queue_of one_queued inbox))
process_fetch-process_take_example =
    process_fetch-process_take plain default_limits (at 20) one_queued one_queued-IsValid inbox
