-- ===== src/Relay/Post/Queueing.antt =====
-- A post and the queues of the store (core/src/relay_client/mod.rs, `process` at `Request::Post`).
use nightdrop.Prelude.{
  append-ne-nil, ℕ, ◌+◌, ◌≤◌, ◌≡◌, refl, ◌⊎◌, true, false, Option, none, some, List, [], ◌∷◌, ◌++◌,
  length, arith, Bool-cases, inl, inr, if◌then◌else◌, All, All-append, length-append, sum_by-append,
}
use nightdrop.Prelude.Bytes.{Bytes, same, eq_of_same}
use nightdrop.Prelude.Map.{get, get-insert, insert-Distinct, measure, total-insert, or_empty}
use nightdrop.Relay.Budget.{costs}
use nightdrop.Relay.Post.{random_token, Reading, Reply, entry, push, accept_post, process_post}
use nightdrop.Relay.Post.Admission.{Admits, reject-Admits}
use nightdrop.Relay.Post.Cases.{process_post-cases}
use nightdrop.Relay.Store.{queue_of}
use nightdrop.Relay.Store.Invariant.{
  IsMailbox, IsConsistent, IsAdmissible, FitsMailbox, IsBounded, IsValid,
}
use nightdrop.Relay.Store.Mailboxes.{insert-AtMailboxes}
use nightdrop.Relay.Types.{Platform, RelayLimits, Stored, StoreInner, entry_cost}

-- Every mailbox after a push: the one posted to has one more entry, at its end.
queue_of-push :
    (s : StoreInner) (handle j : Bytes) (e : Stored)
    → queue_of (push s handle e) j
      ≡ (if same handle j then queue_of s j ++ e ∷ [] else queue_of s j)
unfolding push
queue_of-push s handle j e =
    rw (get-insert handle j (queue_of s handle ++ e ∷ []) s.mailboxes)
      (elim (Bool-cases (same handle j)) [
        | inl x ↦ rw (x, eq_of_same handle j x) refl
        | inr x ↦ rw x refl
      ])

measure-costs : (o : Option (List Stored)) → measure costs o ≡ costs (or_empty o)
measure-costs none = refl
measure-costs (some q) = refl

module _ (handle : Bytes) (e : Stored) (s : StoreInner) where
  push-IsConsistent :
      (overhead : ℕ)
      → e.cost ≡ entry_cost handle (length e.bytes) overhead
      → IsConsistent overhead s
      → IsConsistent overhead (push s handle e)
  unfolding push
  push-IsConsistent overhead priced c = record {
    distinct = insert-Distinct handle (queue_of s handle ++ e ∷ []) s.mailboxes c.distinct;
    counted = omega (
      arith,
      c.counted,
      total-insert costs handle (queue_of s handle ++ e ∷ []) s.mailboxes,
      measure-costs (get handle s.mailboxes),
      sum_by-append (λ (x : Stored). x.cost) (queue_of s handle) (e ∷ []),
    );
    kept =
        insert-AtMailboxes (IsMailbox overhead) handle (queue_of s handle ++ e ∷ []) s.mailboxes
          c.kept
          (
            append-ne-nil (queue_of s handle) e,
            All-append _ (queue_of s handle) (e ∷ []) (old (get handle s.mailboxes) refl)
                (priced, tt),
          );
  }
    where
      old :
          (o : Option (List Stored))
          → get handle s.mailboxes ≡ o
          → All (λ x. x.cost ≡ entry_cost handle (length x.bytes) overhead) (or_empty o)
      old none f = tt
      old (some q) f = (c.kept handle q f).1

  push-IsBounded :
      (limits : RelayLimits)
      → Admits limits s handle (length e.bytes)
      → e.cost ≡ entry_cost handle (length e.bytes) limits.entry_overhead_bytes
      → e.expiry ≤ e.posted + limits.max_ttl
      → IsBounded limits s
      → IsBounded limits (push s handle e)
  unfolding push
  push-IsBounded limits a priced stays b = record {
    total_fits = omega (arith, a.total_fits, priced);
    each_fits =
        insert-AtMailboxes (FitsMailbox limits) handle (queue_of s handle ++ e ∷ []) s.mailboxes
          b.each_fits
          (
            omega (arith, a.room_for_one, length-append {0} (queue_of s handle) (e ∷ [])),
            omega (
              arith,
              a.mailbox_fits,
              sum_by-append (λ (x : Stored). length x.bytes) (queue_of s handle) (e ∷ []),
            ),
            All-append _ (queue_of s handle) (e ∷ []) (old (get handle s.mailboxes) refl)
                ((a.not_too_large, stays), tt),
          );
  }
    where
      old :
          (o : Option (List Stored))
          → get handle s.mailboxes ≡ o
          → All (IsAdmissible limits) (or_empty o)
      old none f = tt
      old (some q) f = (b.each_fits handle q f).2

module _ (p : Platform) (limits : RelayLimits) (r : Reading) (s : StoreInner) where
  -- An accepted post, seen from the outside.
  pub record Queued (handle blob : Bytes) (ttl_secs : ℕ) (reply : Reply) : Type 0 where
    pub bytes : Bytes
    pub decoded : p.decode blob ≡ some bytes
    pub accepted : reply.response.ok ≡ true
    pub answers_id : reply.response.msg_id ≡ some (random_token p r.raw_id)
    pub answers_token : reply.response.delete_token ≡ some (random_token p r.raw_token)
    pub queues :
        (j : Bytes)
        → queue_of reply.store j ≡ (
            if same handle j
            then queue_of s j ++ entry p limits r handle bytes ttl_secs ∷ []
            else queue_of s j)

  -- Reject-new: a post is refused and leaves the store as it was, or it is accepted and appends its
  -- entry to its own mailbox and answers the id and the token drawn for it; what was queued before, in any mailbox, is still queued, in order.
  pub process_post_evicts_nothing :
      (handle blob : Bytes) (ttl_secs : ℕ)
      → let reply = process_post p limits r s handle blob ttl_secs in
        ((reply.response.ok ≡ false) × (reply.store ≡ s)) ⊎ Queued handle blob ttl_secs reply
  process_post_evicts_nothing handle blob ttl_secs =
      elim (process_post-cases p limits r s handle blob ttl_secs) [
        | inl out ↦ inl (out.refused, out.untouched)
        | inr took ↦ inr (
            rw took.reply_eq (record {
              bytes = took.bytes;
              decoded = took.decoded;
              accepted = unfold accept_post in refl;
              answers_id = unfold accept_post entry in refl;
              answers_token = unfold accept_post entry in refl;
              queues =
                  unfold accept_post in
                  λ j. queue_of-push s handle j (entry p limits r handle took.bytes ttl_secs);
            }))
      ]

  pub process_post-IsValid :
      (handle blob : Bytes) (ttl_secs : ℕ)
      → IsValid limits s
      → IsValid limits (process_post p limits r s handle blob ttl_secs).store
  process_post-IsValid handle blob ttl_secs v =
      elim (process_post-cases p limits r s handle blob ttl_secs) [
        | inl out ↦ rw out.untouched v
        | inr took ↦
            let e = entry p limits r handle took.bytes ttl_secs in
            let a = reject-Admits limits s handle (length took.bytes) took.admitted in
            rw took.reply_eq (
              unfold accept_post entry in
              record {
                consistent =
                    push-IsConsistent handle e s limits.entry_overhead_bytes refl v.consistent;
                bounded = push-IsBounded handle e s limits a refl (omega arith) v.bounded;
              })
      ]
