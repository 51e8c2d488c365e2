-- ===== src/Relay/Process/Delivery.antt =====
-- Posting and taking together (core/src/relay_client/mod.rs, `process` at `Request::Post` and
-- `Request::Take`).
use nightdrop.Prelude.{
  [], inl, inr, min, some, true, ℕ, ◌+◌, ◌<◌, ◌∷◌, ◌≡◌, arith, false, leb, lt→ltb, refl,
}
use nightdrop.Prelude.Bytes.{Bytes, same_refl}
use nightdrop.Prelude.Map.{Distinct, get, get-remove_self}
use nightdrop.Relay.Budget.{admit, drain_loop, live}
use nightdrop.Relay.Post.{Reading, entry, process_post}
use nightdrop.Relay.Post.Queueing.{process_post_evicts_nothing, process_post-IsValid}
use nightdrop.Relay.Process.{process_take}
use nightdrop.Relay.Store.{queue_of, drain_handle_bounded, write_back}
use nightdrop.Relay.Store.Invariant.{IsValid}
use nightdrop.Relay.Types.{Platform, RelayLimits, StoreInner, from_secs, Stored}

get_of_queue_of :
    (t : StoreInner) (handle : Bytes) (e : Stored)
    → queue_of t handle ≡ e ∷ []
    → get handle t.mailboxes ≡ some (e ∷ [])
get_of_queue_of t handle e q = ground arith

-- A mailbox of one live blob is handed out whole, whatever the blob's size.
process_take_single :
    (p : Platform) (r : Reading) (t : StoreInner) (handle : Bytes) (e : Stored)
    → Distinct t.mailboxes
    → queue_of t handle ≡ e ∷ []
    → live r.now e ≡ true
    → ((process_take p r t handle).response.blobs ≡ p.encode e.bytes ∷ [])
      × (queue_of (process_take p r t handle).store handle ≡ [])
unfolding process_take drain_handle_bounded drain_loop admit write_back
process_take_single p r t handle e d q alive =
    let fresh : leb e.expiry r.now ≡ false = ground arith in
    rw (get_of_queue_of t handle e q, fresh) (refl, rw (get-remove_self handle t.mailboxes d) refl)

module _ (p : Platform) (limits : RelayLimits) (posted taking : Reading) (s : StoreInner) where
  -- A blob accepted into an empty mailbox of a valid store and taken before its clamped TTL runs out
  -- comes back exactly, alone, and is not handed out again.
  pub post_then_take :
      (handle blob bytes : Bytes) (ttl_secs : ℕ)
      → IsValid limits s
      → queue_of s handle ≡ []
      → p.decode blob ≡ some bytes
      → (process_post p limits posted s handle blob ttl_secs).response.ok ≡ true
      → taking.now < posted.now + min (from_secs ttl_secs) limits.max_ttl
      → let after_post = process_post p limits posted s handle blob ttl_secs in
        let after_take = process_take p taking after_post.store handle in
        (after_take.response.blobs ≡ p.encode bytes ∷ []) × (queue_of after_take.store handle ≡ [])
  unfolding entry
  post_then_take handle blob bytes ttl_secs v empty decoded ok early =
      elim (process_post_evicts_nothing p limits posted s handle blob ttl_secs) [
        | inl out ↦ absurd (cc (out.0))
        | inr queued ↦
            one_entry queued.bytes (bytes_eq queued.bytes queued.decoded)
              (rw (same_refl handle, empty) at (queued.queues handle))
      ]
    where
      t : StoreInner
      t = (process_post p limits posted s handle blob ttl_secs).store

      bytes_eq : (b : Bytes) → p.decode blob ≡ some b → b ≡ bytes
      bytes_eq b d = cc

      entry_live : (h b : Bytes) → live taking.now (entry p limits posted h b ttl_secs) ≡ true
      entry_live h b = lt→ltb _ _ early

      one_entry :
          (b : Bytes)
          → b ≡ bytes
          → queue_of t handle ≡ entry p limits posted handle b ttl_secs ∷ []
          → ((process_take p taking t handle).response.blobs ≡ p.encode bytes ∷ [])
            × (queue_of (process_take p taking t handle).store handle ≡ [])
      one_entry b e q = rw (← e) (
          process_take_single p taking t handle (entry p limits posted handle b ttl_secs)
            (process_post-IsValid p limits posted s handle blob ttl_secs v).consistent.distinct q
            (entry_live handle b))
