-- ===== src/Relay/Process/Recall.antt =====
-- Recalling a queued blob (core/src/relay_client/mod.rs, `process` at `Request::Recall`).
use mathlib.Core.List.{append-nil}
use nightdrop.Prelude.{
  ◌≡◌, refl, ◌∙◌, ◌≢◌, ◌↔◌, Bool, true, not, Option, none, some, List, [], ◌∷◌, length, arith, ap,
  Bool-cases, inl, inr, if◌then◌else◌, All-retain, retain, sum_by-split, length-split,
  length-retain-le, sum_by-retain-le, ◌==◌, retain-append, retain_all, ◌++◌, ℕ, append-ne-nil, All,
  &&_iff, Any, false, ◌⊎◌,
}
use nightdrop.Prelude.Bytes.{Bytes, same, eq_of_same, same_refl}
use nightdrop.Prelude.Map.{get, Distinct, or_empty}
use nightdrop.Relay.Budget.{costs}
use nightdrop.Relay.Post.{Reading, entry, random_token, process_post}
use nightdrop.Relay.Post.Queueing.{process_post_evicts_nothing, process_post-IsValid}
use nightdrop.Relay.Process.{hit, recall_found, recall_blob, process_recall}
use nightdrop.Relay.Store.{queue_of}
use nightdrop.Relay.Store.Draining.{write_back-IsConsistent, write_back-IsBounded}
use nightdrop.Relay.Store.Invariant.{IsValid}
use nightdrop.Relay.Store.Mailboxes.{queue_of-write_back}
use nightdrop.Relay.Types.{RelayLimits, Stored, StoreInner, err, just_ok, Platform}

-- An entry with this id and this token.
abbrev pub HasReceipt : Bytes → Bytes → Stored → Type 0
HasReceipt id token e = (e.msg_id ≡ id) × (e.delete_token ≡ token)

-- What is left of a list without its entries of a kind: the others, in order.
abbrev pub IsLeft : (Stored → Type 0) → List Stored → List Stored → Type 0
IsLeft P [] left = left ≡ []
IsLeft P (e ∷ queue) left =
    (P e × IsLeft P queue left)
    ⊎ (¬ P e × ((rest : List Stored) × (left ≡ e ∷ rest) × IsLeft P queue rest))

hit-HasReceipt : (id token : Bytes) (e : Stored) → (hit id token e ≡ true) ↔ HasReceipt id token e
unfolding hit
hit-HasReceipt id token e = (
  λ h.
      let (same_id, same_token) = (&&_iff (same e.msg_id id) (same e.delete_token token)).0 h in
      (eq_of_same e.msg_id id same_id, eq_of_same e.delete_token token same_token),
  λ named. rw (named.0, named.1, same_refl id, same_refl token) refl,
)

missed-HasReceipt :
    (id token : Bytes) (e : Stored) → hit id token e ≡ false → ¬ HasReceipt id token e
missed-HasReceipt id token e missed named =
    let impossible : true ≡ false = rw ((hit-HasReceipt id token e).1 named) at missed in cc

-- What `retain` leaves are the entries that are not named.
retain-IsLeft :
    (id token : Bytes) (queue : List Stored)
    → IsLeft (HasReceipt id token) queue (retain (λ e. not (hit id token e)) queue)
retain-IsLeft id token [] = refl
retain-IsLeft id token (e ∷ queue) = elim (Bool-cases (hit id token e)) [
  | inl x ↦ rw x (inl ((hit-HasReceipt id token e).0 x, retain-IsLeft id token queue))
  | inr x ↦ rw x (inr (missed-HasReceipt id token e x, (_, refl, retain-IsLeft id token queue)))
]

retain-Any :
    (id token : Bytes) (queue : List Stored)
    → (retain (hit id token) queue ≢ []) ↔ Any (HasReceipt id token) queue
retain-Any id token [] = (λ ne. absurd (ne refl), λ named. absurd named)
retain-Any id token (e ∷ queue) = elim (Bool-cases (hit id token e)) [
  | inl x ↦ rw x (λ _. inl ((hit-HasReceipt id token e).0 x), λ _ nil. cc)
  | inr x ↦
      let (some_named, some_hit) = retain-Any id token queue in
      rw x (
        λ ne. inr (some_named ne),
        λ named. elim named [
          | inl here ↦ absurd (missed-HasReceipt id token e x here)
          | inr later ↦ some_hit later
        ],
      )
]

module _ (s : StoreInner) (handle msg_id token : Bytes) where
  abbrev keeps : Stored → Bool
  keeps e = not (hit msg_id token e)

  recall_found-queue :
      (o : Option (List Stored)) (j : Bytes)
      → get handle s.mailboxes ≡ o
      → Distinct s.mailboxes
      → queue_of (recall_found o s handle msg_id token).1 j
        ≡ (if same handle j then retain keeps (queue_of s j) else queue_of s j)
  unfolding recall_found
  recall_found-queue none j found d = elim (Bool-cases (same handle j)) [
    | inl x ↦ rw (x, ← eq_of_same handle j x, found) refl
    | inr x ↦ rw x refl
  ]
  recall_found-queue (some q) j found d =
      queue_of-write_back s (recall_found (some q) s handle msg_id token).1 handle j
        (retain keeps q) d refl
      ∙ (elim (Bool-cases (same handle j)) [
        | inl x ↦ rw (x, ← eq_of_same handle j x, found) refl
        | inr x ↦ rw x refl
      ])

  -- In a store of distinct mailboxes, Recall removes from its own mailbox exactly the entries with
  -- that id and that token, and touches no other mailbox.
  process_recall-queue :
      (j : Bytes)
      → Distinct s.mailboxes
      → queue_of (process_recall s handle msg_id token).store j
        ≡ (if same handle j then retain keeps (queue_of s j) else queue_of s j)
  unfolding process_recall recall_blob
  process_recall-queue j d = recall_found-queue (get handle s.mailboxes) j refl d

  recall_found-ok :
      (o : Option (List Stored))
      → ((recall_found o s handle msg_id token).0 ≡ true)
        ↔ (retain (hit msg_id token) (or_empty o) ≢ [])
  unfolding recall_found
  recall_found-ok none = (λ e. cc, λ ne. absurd (ne refl))
  recall_found-ok (some q) = (
    λ e none_hit. ground (arith, length-split (hit msg_id token) q, ap length none_hit),
    λ ne. some_hit (retain (hit msg_id token) q) refl ne,
  )
    where
      some_hit :
          (l : List Stored)
          → retain (hit msg_id token) q ≡ l
          → l ≢ []
          → not (length (retain keeps q) == length q) ≡ true
      some_hit [] e ne = absurd (ne refl)
      some_hit (x ∷ l) e ne = ground (arith, length-split (hit msg_id token) q, ap length e)

  process_recall_ok_iff :
      ((process_recall s handle msg_id token).response.ok ≡ true)
      ↔ (retain (hit msg_id token) (queue_of s handle) ≢ [])
  unfolding process_recall recall_blob err just_ok
  process_recall_ok_iff =
      let both = recall_found-ok (get handle s.mailboxes) in
      elim (Bool-cases (recall_found (get handle s.mailboxes) s handle msg_id token).0) [
        | inl x ↦ (λ _. both.0 x, λ _. rw x refl)
        | inr x ↦ (λ e. absurd (ground (arith, x)), λ ne. absurd (ground (arith, x, both.1 ne)))
      ]

  -- Recall, in a store of distinct mailboxes: it answers ok exactly when some entry of the mailbox has
  -- both that id and that token; what is left of the mailbox are, in order, exactly the entries that
  -- do not have both; and no other mailbox changes.
  pub process_recall_lem :
      Distinct s.mailboxes
      → (let reply = process_recall s handle msg_id token in
          ((reply.response.ok ≡ true) ↔ Any (HasReceipt msg_id token) (queue_of s handle))
          × IsLeft (HasReceipt msg_id token) (queue_of s handle) (queue_of reply.store handle)
          × ((j : Bytes) → same handle j ≡ false → queue_of reply.store j ≡ queue_of s j))
  process_recall_lem d =
      let (hits, answers) = process_recall_ok_iff in
      let (named, found) = retain-Any msg_id token (queue_of s handle) in
      let mine = rw (same_refl handle) at (process_recall-queue handle d) in
      (
        (λ ok. named (hits ok), λ some_named. answers (found some_named)),
        rw mine (retain-IsLeft msg_id token (queue_of s handle)),
        λ j other. rw other at (process_recall-queue j d),
      )

  recall_found-IsValid :
      (limits : RelayLimits) (o : Option (List Stored))
      → get handle s.mailboxes ≡ o
      → IsValid limits s
      → IsValid limits (recall_found o s handle msg_id token).1
  unfolding recall_found
  recall_found-IsValid limits none found v = v
  recall_found-IsValid limits (some q) found v =
      let kept = retain keeps q in
      let (long, wide, each) = v.bounded.each_fits handle q found in
      record {
        consistent =
            write_back-IsConsistent limits.entry_overhead_bytes
              (costs (retain (hit msg_id token) q)) s _ handle q kept v.consistent found
              (sum_by-split (hit msg_id token) (λ e. e.cost) q)
              (All-retain _ keeps q (v.consistent.kept handle q found).1) refl refl;
        bounded =
            write_back-IsBounded limits s _ handle kept v.consistent.distinct v.bounded
              (
                omega (arith, length-retain-le {0} keeps q),
                omega (arith, sum_by-retain-le {0} keeps (λ (e : Stored). length e.bytes) q),
                All-retain _ keeps q each,
              )
              refl (omega arith);
      }

  pub process_recall-IsValid :
      (limits : RelayLimits)
      → IsValid limits s
      → IsValid limits (process_recall s handle msg_id token).store
  unfolding process_recall recall_blob
  process_recall-IsValid limits = recall_found-IsValid limits (get handle s.mailboxes) refl

-- The receipt of an accepted post.
module _ (p : Platform) (limits : RelayLimits) (r : Reading) (s : StoreInner) where
  abbrev pub receipt_id : Bytes
  receipt_id = random_token p r.raw_id

  abbrev pub receipt_token : Bytes
  receipt_token = random_token p r.raw_token

  entry-hit :
      (handle bytes : Bytes) (ttl_secs : ℕ)
      → hit receipt_id receipt_token (entry p limits r handle bytes ttl_secs) ≡ true
  unfolding hit entry
  entry-hit handle bytes ttl_secs =
      rw (same_refl (random_token p r.raw_id), same_refl (random_token p r.raw_token)) refl

  entry-missed :
      (queue : List Stored)
      → All (λ e. ¬ HasReceipt receipt_id receipt_token e) queue
      → All (λ e. not (hit receipt_id receipt_token e) ≡ true) queue
  entry-missed [] fresh = tt
  entry-missed (e ∷ queue) fresh = elim (Bool-cases (hit receipt_id receipt_token e)) [
    | inl x ↦ absurd (fresh.0 ((hit-HasReceipt receipt_id receipt_token e).0 x))
    | inr x ↦ (rw x refl, entry-missed queue fresh.1)
  ]

  -- In a valid store, an accepted post answers an id and a delete token, and recalling with these two
  -- is accepted and leaves every mailbox as it was before the post, provided no entry of the mailbox
  -- had the id and the token that were drawn.
  pub recall_undoes_post :
      (handle blob : Bytes) (ttl_secs : ℕ)
      → IsValid limits s
      → (process_post p limits r s handle blob ttl_secs).response.ok ≡ true
      → All (λ e. ¬ HasReceipt receipt_id receipt_token e) (queue_of s handle)
      → let reply = process_post p limits r s handle blob ttl_secs in
        (id : Bytes) × (token : Bytes) × (reply.response.msg_id ≡ some id)
        × (reply.response.delete_token ≡ some token)
        × ((process_recall reply.store handle id token).response.ok ≡ true)
        × ((j : Bytes)
            → queue_of (process_recall reply.store handle id token).store j ≡ queue_of s j)
  recall_undoes_post handle blob ttl_secs v ok fresh =
      elim (process_post_evicts_nothing p limits r s handle blob ttl_secs) [
        | inl out ↦ absurd (cc (out.0))
        | inr queued ↦
            let t = (process_post p limits r s handle blob ttl_secs).store in
            let e = entry p limits r handle queued.bytes ttl_secs in
            let valid = process_post-IsValid p limits r s handle blob ttl_secs v in
            let mine : queue_of t handle ≡ queue_of s handle ++ e ∷ [] =
              rw (same_refl handle) at (queued.queues handle) in
            let hits = entry-hit handle queued.bytes ttl_secs in
            let missed = entry-missed (queue_of s handle) fresh in
            (
              receipt_id,
              receipt_token,
              queued.answers_id,
              queued.answers_token,
              (process_recall_ok_iff t handle receipt_id receipt_token).1
                  (rw (mine, retain-append, hits) (append-ne-nil _ e)),
              λ j.
                  process_recall-queue t handle receipt_id receipt_token j valid.consistent.distinct
                  ∙ (elim (Bool-cases (same handle j)) [
                    | inl x ↦
                        rw (x, ← eq_of_same handle j x, mine, retain-append, hits, append-nil)
                          (retain_all _ (queue_of s handle) missed)
                    | inr x ↦ rw x (rw x at (queued.queues j))
                  ]),
            )
      ]
