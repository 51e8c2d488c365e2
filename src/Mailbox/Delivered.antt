-- ===== src/Mailbox/Delivered.antt =====
-- What one side of an agreed pair posts, the other polls (core/src/node/mailbox.rs, `post_handle`,
-- `poll_fragments_at`, `polled_epochs`).
use nightdrop.Mailbox.{Digests, MailboxPair, pair_secret, v2_handle}
use nightdrop.Mailbox.Agree.{handle_for, post_handle_of}
use nightdrop.Mailbox.Epochs.{
  drained_after, epoch_of, epoch_secs, posted_epoch_polled, skew_margin_secs,
}
use nightdrop.Mailbox.Pair.{pair_secret_comm}
use nightdrop.Mailbox.Polling.{inbound, inbound_of, poll_fragments_at, post_handle}
use nightdrop.Mailbox.Polling.Covered.{IsPolled, poll_fragments_at-IsPolled}
use nightdrop.Mailbox.State.{Chat, Node, Olm}
use nightdrop.Prelude.{
  All, List, Option, ap, false, none, refl, some, true, ℕ, ◌*◌, ◌+◌, ◌<◌, ◌∙◌, ◌≡◌, ◌≤◌,
}
use nightdrop.Prelude.Bytes.{Bytes}
use nightdrop.Prelude.Map.{get}

module _ (h : Digests) (o : Olm) where
  post_handle_of-agreed :
      (me contact : Bytes) (mailbox : Option MailboxPair) (p : MailboxPair) (peer : Bytes) (now : ℕ)
      → mailbox ≡ some p
      → p.peer ≡ some peer
      → p.peer_confirmed ≡ true
      → post_handle_of h o me contact mailbox now
        ≡ some (v2_handle h (pair_secret h me contact p.own peer) contact (epoch_of now))
  unfolding post_handle_of handle_for
  post_handle_of-agreed me contact mailbox p peer now is known confirmed =
      rw (is, known, confirmed) refl

  inbound-agreed :
      (me contact : Bytes) (chat : Chat o) (p : MailboxPair) (peer : Bytes) (epoch : ℕ)
      → chat.closed ≡ false
      → chat.mailbox ≡ some p
      → p.peer ≡ some peer
      → inbound h me contact epoch chat
        ≡ some (v2_handle h (pair_secret h me contact p.own peer) me epoch)
  unfolding inbound inbound_of
  inbound-agreed me contact chat p peer epoch is_open is known = rw (is_open, is, known) refl

  -- Where the sender's pair is confirmed on the contributions that the reader's pair holds, the sender
  -- has a handle to post under, and it is in a fragment that the reader polls, from the time of the post
  -- (`noticed` on the reader's clock, at most the margin from the sender's) to the end of the day after
  -- the one the sender posted for, whichever drains the reader did before the post. The reader's chat
  -- must not be closed.
  pub posted-IsPolled :
      (sender reader : Node o) (out back : Chat o) (p q : MailboxPair) (drains : List ℕ)
      (posted noticed now : ℕ)
      → get reader.identity_key sender.chats ≡ some out
      → get sender.identity_key reader.chats ≡ some back
      → out.mailbox ≡ some p
      → back.mailbox ≡ some q
      → (p.peer ≡ some q.own) × (q.peer ≡ some p.own) × (p.peer_confirmed ≡ true)
      → back.closed ≡ false
      → reader.prev_epoch_drained ≡ drained_after none drains
      → All (λ t. t ≤ noticed) drains
      → (posted ≤ noticed + skew_margin_secs) × (noticed ≤ posted + skew_margin_secs)
      → (noticed ≤ now) × (now < (epoch_of posted + 2) * epoch_secs)
      → (handle : Bytes) × (post_handle h sender reader.identity_key posted ≡ some handle)
        × IsPolled handle (epoch_of posted) (poll_fragments_at h reader now)
  unfolding post_handle
  posted-IsPolled sender reader out back p q drains posted noticed now outs backs is_p is_q
        (p_peer, q_peer, confirmed) is_open retired before (fast, slow) (later, soon) =
      let epoch = epoch_of posted in
      let me = reader.identity_key in
      let you = sender.identity_key in
      let secret = pair_secret h you me p.own q.own in
      let posts : post_handle_of h o you me out.mailbox posted
          ≡ some (v2_handle h secret me epoch) =
        post_handle_of-agreed you me out.mailbox p q.own posted is_p p_peer confirmed in
      let polls : inbound h me you epoch back ≡ some (v2_handle h secret me epoch) =
        inbound-agreed me you back q p.own epoch is_open is_q q_peer
        ∙ ap (λ s. some (v2_handle h s me epoch)) (pair_secret_comm h me you q.own p.own) in
      let due = posted_epoch_polled drains posted noticed now before fast slow later soon in
      (
        v2_handle h secret me epoch,
        rw outs posts,
        poll_fragments_at-IsPolled h reader now epoch you _ back backs polls (rw retired due),
      )
