-- ===== src/Relay/Flush/Clean.antt =====
-- Requests and the `dirty` mark (core/src/relay_client/mod.rs, `process`).
use nightdrop.Prelude.{
  All, Bool-cases, List, Option, [], ap, arith, false, inl, inr, length, ltb, none, not, refl,
  retain, retain_of_length, some, ℕ, ◌<◌, ◌∙◌, ◌∷◌, ◌≡◌, ◌≢◌,
}
use nightdrop.Prelude.Bytes.{Bytes}
use nightdrop.Prelude.Map.{Map, get, insert_same}
use nightdrop.Relay.Budget.{TakeBudget, drain_loop, full_budget}
use nightdrop.Relay.Post.{Reading, accept_post, push}
use nightdrop.Relay.Post.Cases.{process_post-cases}
use nightdrop.Relay.Process.{
  drain_many, hit, process, process_directory, process_fetch, process_peek, process_recall,
  process_take, process_take_many, recall_blob, recall_found,
}
use nightdrop.Relay.Store.{drain_found, drain_handle_bounded, write_back}
use nightdrop.Relay.Store.Draining.{drain_handle_bounded-IsValid}
use nightdrop.Relay.Store.Invariant.{IsValid}
use nightdrop.Relay.Types.{
  Platform, RelayLimits, Stored, StoreInner, Request, entry_cost, max_take_many,
}

-- Every entry costs something, since the per-entry overhead does.
drain_loop_free :
    (overhead : ℕ) (h : Bytes) (queue : List Stored) (b : TakeBudget) (now : ℕ)
    → 0 < overhead
    → All (λ s. s.cost ≡ entry_cost h (length s.bytes) overhead) queue
    → (drain_loop queue b now).freed ≡ 0
    → (drain_loop queue b now).left ≡ queue
unfolding drain_loop entry_cost
drain_loop_free overhead h [] b now o a f = refl
drain_loop_free overhead h (s ∷ queue) b now o a f = ground (arith, a.0)

write_back_same :
    (h : Bytes) (q : List Stored) (m : Map (List Stored))
    → q ≢ []
    → get h m ≡ some q
    → write_back h q m ≡ m
unfolding write_back
write_back_same h [] m ne e = absurd (ne refl)
write_back_same h (s ∷ q) m ne e = insert_same h (s ∷ q) m e

-- Unmarked after, hence unmarked before, with the same mailboxes.
pub record Untouched (s t : StoreInner) : Type 0 where
  pub mailboxes : t.mailboxes ≡ s.mailboxes
  pub was_clean : s.dirty ≡ false

Untouched-trans : (s t u : StoreInner) → Untouched s t → Untouched t u → Untouched s u
Untouched-trans s t u a b = record {
  mailboxes = b.mailboxes ∙ a.mailboxes;
  was_clean = a.was_clean;
}

module _ (limits : RelayLimits) (charged : 0 < limits.entry_overhead_bytes) where
  drain_found_clean :
      (s : StoreInner) (h : Bytes) (b : TakeBudget) (now : ℕ) (o : Option (List Stored))
      → get h s.mailboxes ≡ o
      → IsValid limits s
      → (drain_found o s h b now).store.dirty ≡ false
      → Untouched s (drain_found o s h b now).store
  unfolding drain_found
  drain_found_clean s h b now none found v e = record { mailboxes = refl; was_clean = e }
  drain_found_clean s h b now (some q) found v e =
      let (ne, priced) = v.consistent.kept h q found in
      let kept : (drain_loop q b now).left ≡ q =
        drain_loop_free limits.entry_overhead_bytes h q b now charged priced (ground arith) in
      record {
        mailboxes = rw kept (write_back_same h q s.mailboxes ne found);
        was_clean = ground arith;
      }

  drain_clean :
      (s : StoreInner) (h : Bytes) (b : TakeBudget) (now : ℕ)
      → IsValid limits s
      → (drain_handle_bounded s h b now).store.dirty ≡ false
      → Untouched s (drain_handle_bounded s h b now).store
  unfolding drain_handle_bounded
  drain_clean s h b now = drain_found_clean s h b now (get h s.mailboxes) refl

  drain_many_clean :
      (s : StoreInner) (handles : List Bytes) (b : TakeBudget) (now : ℕ)
      → IsValid limits s
      → (drain_many s handles b now).store.dirty ≡ false
      → Untouched s (drain_many s handles b now).store
  unfolding drain_many
  drain_many_clean s [] b now v e = record { mailboxes = refl; was_clean = e }
  drain_many_clean s (h ∷ hs) b now v e =
      let d = drain_handle_bounded s h b now in
      let rest =
        drain_many_clean d.store hs d.budget now (drain_handle_bounded-IsValid h b now s limits v)
          e in
      Untouched-trans s d.store _ (drain_clean s h b now v rest.was_clean) rest

  recall_found_clean :
      (s : StoreInner) (h msg_id token : Bytes) (o : Option (List Stored))
      → get h s.mailboxes ≡ o
      → IsValid limits s
      → (recall_found o s h msg_id token).1.dirty ≡ false
      → Untouched s (recall_found o s h msg_id token).1
  unfolding recall_found
  recall_found_clean s h msg_id token none found v e = record { mailboxes = refl; was_clean = e }
  recall_found_clean s h msg_id token (some q) found v e =
      let keeps = λ (x : Stored). not (hit msg_id token x) in
      let kept : retain keeps q ≡ q = retain_of_length keeps q (ground arith) in
      record {
        mailboxes = rw kept (write_back_same h q s.mailboxes (v.consistent.kept h q found).0 found);
        was_clean = ground arith;
      }

  -- A request that leaves a valid store unmarked found it unmarked and changed no mailbox, if the
  -- overhead charged for an entry is positive.
  pub process_clean :
      (p : Platform) (directory : Option Bytes) (r : Reading) (s : StoreInner) (request : Request)
      → IsValid limits s
      → (process p limits directory r s request).store.dirty ≡ false
      → Untouched s (process p limits directory r s request).store
  unfolding process process_peek process_fetch process_take process_take_many process_directory
      process_recall recall_blob
  process_clean p directory r s (Request.post handle blob ttl) v e =
      elim (process_post-cases p limits r s handle blob ttl) [
        | inl out ↦ record {
          mailboxes = ap (λ (t : StoreInner). t.mailboxes) out.untouched;
          was_clean = rw out.untouched at e;
        }
        | inr took ↦ absurd (post_marks took.bytes (rw took.reply_eq at e))
      ]
    where
      post_marks :
          (bytes : Bytes) → (accept_post p limits r s handle bytes ttl).store.dirty ≡ false → ⊥
      post_marks bytes = unfold accept_post push in λ f. cc
  process_clean p directory r s (Request.peek handle) v e = record {
    mailboxes = refl;
    was_clean = e;
  }
  process_clean p directory r s (Request.fetch handle) v e =
      drain_clean s handle full_budget r.now v e
  process_clean p directory r s (Request.take handle) v e =
      drain_clean s handle full_budget r.now v e
  process_clean p directory r s (Request.take_many handles) v e =
      elim (Bool-cases (ltb max_take_many (length handles))) [
        | inl big ↦ rw big (record { mailboxes = refl; was_clean = rw big at e })
        | inr fits ↦ rw fits (drain_many_clean s handles full_budget r.now v (rw fits at e))
      ]
  process_clean p directory r s (Request.recall handle msg_id token) v e =
      recall_found_clean s handle msg_id token (get handle s.mailboxes) refl v e
  process_clean p directory r s Request.get_directory v e = record {
    mailboxes = refl;
    was_clean = e;
  }
