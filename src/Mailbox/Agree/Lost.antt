-- ===== src/Mailbox/Agree/Lost.antt =====
-- A lost confirmation (core/src/node/mailbox.rs, `announce_mailbox`, `on_mailbox_key`).
use nightdrop.Mailbox.{Digests, MailboxPair}
use nightdrop.Mailbox.Agree.{Sent, handle_for, post_handle_of}
use nightdrop.Mailbox.Agree.Announce.{announce_key, Round, round_of, unless_lost, rounds}
use nightdrop.Mailbox.Agree.Exchange.{Hop, IsSealing}
use nightdrop.Mailbox.Agree.Settled.{
  announce_key-Spoke, announce_key-confirmed, announce_key-pair, hear-settled,
}
use nightdrop.Mailbox.Agree.Talk.{hear}
use nightdrop.Mailbox.State.{Chat, Olm}
use nightdrop.Prelude.{
  Bool, Option, arith, false, inl, inr, length, none, refl, some, true, ◌≡◌, ℕ, ◌∙◌, Option-cases,
  ap, sym, List, [], ◌∷◌,
}
use nightdrop.Prelude.Bytes.{Bytes}

-- One side is confirmed and has sent its confirmation; the other has not got it.
pub record IsHalfway (a b : Option MailboxPair) : Type 0 where
  pub left : MailboxPair
  pub right : MailboxPair
  pub is_left : a ≡ some left
  pub is_right : b ≡ some right
  pub left_peer : left.peer ≡ some right.own
  pub right_peer : right.peer ≡ some left.own
  pub left_confirmed : left.peer_confirmed ≡ true
  pub left_sent : left.confirm_sent ≡ true
  pub right_waits : right.peer_confirmed ≡ false
  pub right_whole : length right.own ≡ 32

module _ (h : Digests) (o : Olm) (ok : IsSealing h o) where
  unless_lost-some :
      {A : Type 0} (loses : Bool) (message : Option A) (m : A)
      → unless_lost loses message ≡ some m
      → message ≡ some m
  unfolding unless_lost
  unless_lost-some true message m e = cc
  unless_lost-some false message m e = e

  unless_lost-none :
      {A : Type 0} (loses : Bool) (message : Option A)
      → message ≡ none
      → unless_lost loses message ≡ none
  unfolding unless_lost
  unless_lost-none loses message e = ground arith

  -- The confirmed side, after an announcement of the other that may be lost.
  record Settled (me contact : Bytes) (s : Sent o) (p : MailboxPair) : Type 0 where
    silent : s.message ≡ none
    pair : MailboxPair
    is : s.chat.mailbox ≡ some pair
    same_own : pair.own ≡ p.own
    same_peer : pair.peer ≡ p.peer
    confirmed : pair.peer_confirmed ≡ true
    sent : pair.confirm_sent ≡ true

  hear-Settled :
      (a_ik b_ik : Bytes) (loses announced : Bool) (hop b_hop : Hop) (a b : Chat o)
      (half : IsHalfway a.mailbox b.mailbox)
      → Settled a_ik b_ik
          (hear h o a_ik b_ik hop a
            (unless_lost loses (announce_key h o b_ik a_ik announced b_hop b).message))
          half.left
  hear-Settled a_ik b_ik loses announced hop b_hop a b half =
      let from_b = announce_key h o b_ik a_ik announced b_hop b in
      elim (Option-cases (unless_lost loses from_b.message)) [
        | inl lost ↦ rw lost (record {
          silent = unfold hear in refl;
          pair = half.left;
          is = unfold hear in half.is_left;
          same_own = refl;
          same_peer = refl;
          confirmed = half.left_confirmed;
          sent = half.left_sent;
        })
        | inr (m, arrives) ↦
            let goes = unless_lost-some loses from_b.message m arrives in
            let spoke =
              announce_key-Spoke h o ok b_ik a_ik announced b_hop b half.right m half.is_right
                goes in
            let q = spoke.pair in
            let known : half.left.peer ≡ some q.own = rw spoke.same_own half.left_peer in
            let (silent, (r, is, own, peer, confirmed, sent)) =
              hear-settled h o ok a_ik b_ik hop a half.left q spoke.session m half.is_left known
                half.left_sent half.left_confirmed (spoke.same_peer ∙ half.right_peer)
                (rw spoke.same_own half.right_whole) spoke.sealed in
            rw arrives (record {
              silent = silent;
              pair = r;
              is = is;
              same_own = own;
              same_peer = peer;
              confirmed = confirmed;
              sent = sent;
            })
      ]

  round_of-IsHalfway :
      (a_ik b_ik : Bytes) (r : Round) (a b : Chat o)
      → IsHalfway a.mailbox b.mailbox
      → (let w = round_of h o a_ik b_ik r (a, b) in IsHalfway w.0.mailbox w.1.mailbox)
  unfolding round_of
  round_of-IsHalfway a_ik b_ik r a b half =
      let from_b = announce_key h o b_ik a_ik r.b_announced r.b_hop b in
      let at_a = hear h o a_ik b_ik r.a_hop a (unless_lost r.loses from_b.message) in
      let settled = hear-Settled a_ik b_ik r.loses r.b_announced r.a_hop r.b_hop a b half in
      let (q, is, own, peer, waits) =
        announce_key-pair h o ok b_ik a_ik r.b_announced r.b_hop b half.right half.is_right in
      let quiet_a =
        announce_key-confirmed h o ok a_ik b_ik r.a_announced r.a_hop at_a.chat settled.pair
          settled.is settled.confirmed in
      let no_reply = unless_lost-none r.loses at_a.message settled.silent in
      let none_a : unless_lost {A = o.Message} r.loses none ≡ none =
        unless_lost-none r.loses none refl in
      unfold hear in
      rw (no_reply, quiet_a, none_a, none_a)
        (record {
          left = settled.pair;
          right = q;
          is_left = settled.is;
          is_right = is;
          left_peer = settled.same_peer ∙ half.left_peer ∙ ap some (sym own);
          right_peer = peer ∙ half.right_peer ∙ ap some (sym settled.same_own);
          left_confirmed = settled.confirmed;
          left_sent = settled.sent;
          right_waits = waits ∙ half.right_waits;
          right_whole = rw own half.right_whole;
        })

  rounds-IsHalfway :
      (a_ik b_ik : Bytes) (rs : List Round) (a b : Chat o)
      → IsHalfway a.mailbox b.mailbox
      → (let w = rounds h o a_ik b_ik rs (a, b) in IsHalfway w.0.mailbox w.1.mailbox)
  unfolding rounds
  rounds-IsHalfway a_ik b_ik [] a b half = half
  rounds-IsHalfway a_ik b_ik (r ∷ rs) a b half =
      let w = round_of h o a_ik b_ik r (a, b) in
      rounds-IsHalfway a_ik b_ik rs w.0 w.1 (round_of-IsHalfway a_ik b_ik r a b half)

  -- Once one side is confirmed and has sent its confirmation, and the other has not got it, no round of
  -- announcements and replies brings it: after any number of them, at any time, the other side has no
  -- handle to post under. A frame must open to what was sealed or not at all, and contributions and
  -- hashes must be 32 bytes.
  pub lost_confirmation :
      (a_ik b_ik : Bytes) (rs : List Round) (a b : Chat o) (now : ℕ)
      → IsHalfway a.mailbox b.mailbox
      → post_handle_of h o b_ik a_ik (rounds h o a_ik b_ik rs (a, b)).1.mailbox now ≡ none
  unfolding post_handle_of handle_for
  lost_confirmation a_ik b_ik rs a b now half =
      let last = rounds-IsHalfway a_ik b_ik rs a b half in rw (last.is_right, last.right_waits) refl
