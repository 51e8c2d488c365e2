-- ===== src/Mailbox/Agree/Stops.antt =====
-- The replies to an announcement end (core/src/node/mailbox.rs, `on_mailbox_key`).
use nightdrop.Mailbox.{Digests, MailboxPair, confirm_hash, pair_secret, fresh_pair}
use nightdrop.Mailbox.Agree.{
  on_key, our_confirmation, Sent, learn, pair_or_fresh, payload_of, send_key,
}
use nightdrop.Mailbox.Agree.Exchange.{
  Hop, IsSealing, Spoke, exchange, exchange-none, on_key-heard, on_payload-reply, quiet, IsWhole,
  send_key-Spoke,
}
use nightdrop.Mailbox.Agree.Learning.{learn-peer}
use nightdrop.Mailbox.Agree.Steps.{after}
use nightdrop.Mailbox.State.{Chat, Olm}
use nightdrop.Prelude.{
  List, Option, [], arith, inl, inr, length, none, refl, some, true, ◌∷◌, ◌≡◌, ◌≤◌, Option-cases,
  ◌∙◌, All, Bool,
}
use nightdrop.Prelude.Bytes.{Bytes}

module _ (h : Digests) (o : Olm) (ok : IsSealing h o) where
  pub our_confirmation-known :
      (me contact : Bytes) (p : MailboxPair) (x : Bytes)
      → p.peer ≡ some x
      → (c : Bytes) × (our_confirmation h o me contact p ≡ some c)
  unfolding our_confirmation
  our_confirmation-known me contact p x e =
      (confirm_hash h (pair_secret h me contact p.own x), rw e refl)

  -- The hearer has sent its confirmation of what the frame carries.
  last_hop :
      (hops : List Hop) (a b : Bytes) (speaker hearer : Chat o) (mailbox : Option MailboxPair)
      (m : o.Message) (base : MailboxPair) (spoke : Spoke h o a b base mailbox m) (p : MailboxPair)
      (x : Bytes)
      → spoke.pair.peer ≡ some x
      → length spoke.pair.own ≡ 32
      → hearer.mailbox ≡ some p
      → p.peer ≡ some spoke.pair.own
      → p.confirm_sent ≡ true
      → exchange h o hops a b speaker hearer (some m) ≤ 1
  unfolding exchange
  last_hop [] a b speaker hearer mailbox m base spoke p x asks whole is known sent = omega arith
  last_hop (hop ∷ hops) a b speaker hearer mailbox m base spoke p x asks whole is known sent =
      let s = on_key h o b a hop.relays_meet hop.random hop.now hearer m in
      let silent : s.message ≡ none =
        elim (on_key-heard h o b a ok hop hearer spoke.session spoke.pair m whole spoke.sealed) [
          | inl (none_sent, _) ↦ none_sent
          | inr (after, reads) ↦
              let (c, conf) = our_confirmation-known a b spoke.pair x asks in
              rw (reads, conf)
                (quiet h o b a hop.relays_meet hop.random hop.now
                  (record hearer { session = after }) p spoke.pair.own c is known sent)
        ] in
      rw (silent, exchange-none h o b a hops b a s.chat speaker) (omega arith)

  -- The next frame, if there is one, has the hearer's contributions and confirmation.
  record Answer (a b : Bytes) (hearer : Chat o) (random theirs : Bytes) (s : Sent o) (m : o.Message)
      : Type 0 where
    base : MailboxPair
    spoke : Spoke h o b a base s.chat.mailbox m
    same_own : spoke.pair.own ≡ (pair_or_fresh random hearer.mailbox).own
    same_peer : spoke.pair.peer ≡ some theirs

  on_key-Answer :
      (hop : Hop) (a b : Bytes) (hearer : Chat o) (session : o.Session) (q : MailboxPair)
      (m n : o.Message)
      → length q.own ≡ 32
      → (o.encrypt session (payload_of h o a b q)).0 ≡ some m
      → (on_key h o b a hop.relays_meet hop.random hop.now hearer m).message ≡ some n
      → Answer a b hearer hop.random q.own
          (on_key h o b a hop.relays_meet hop.random hop.now hearer m)
          n
  on_key-Answer hop a b hearer session q m n whole sealed answers =
      elim (on_key-heard h o b a ok hop hearer session q m whole sealed) [
        | inl (silent, _) ↦ let impossible = rw silent at answers in cc
        | inr (after, reads) ↦
            let conf = our_confirmation h o a b q in
            let opened = record hearer { session = after } in
            let (spoke, _) =
              on_payload-reply h o b a hop.relays_meet hop.random hop.now opened q.own conf n
                (rw reads at answers) in
            let (peer, own) = learn-peer h o b a hop.random hearer.mailbox q.own conf in
            rw reads (record {
              base = learn h o b a hop.random hearer.mailbox q.own conf;
              spoke = spoke;
              same_own = spoke.same_own ∙ own;
              same_peer = spoke.same_peer ∙ peer;
            })
      ]

  middle_hop :
      (hops : List Hop) (a b : Bytes) (speaker hearer : Chat o) (m : o.Message) (base : MailboxPair)
      (spoke : Spoke h o a b base speaker.mailbox m) (p : MailboxPair)
      → length spoke.pair.own ≡ 32
      → hearer.mailbox ≡ some p
      → length p.own ≡ 32
      → spoke.pair.peer ≡ some p.own
      → exchange h o hops a b speaker hearer (some m) ≤ 2
  unfolding exchange
  middle_hop [] a b speaker hearer m base spoke p whole is p_whole known = omega arith
  middle_hop (hop ∷ hops) a b speaker hearer m base spoke p whole is p_whole known =
      let s = on_key h o b a hop.relays_meet hop.random hop.now hearer m in
      elim (Option-cases s.message) [
        | inl silent ↦ rw (silent, exchange-none h o b a hops b a s.chat speaker) (omega arith)
        | inr (n, answers) ↦
            let answer =
              on_key-Answer hop a b hearer spoke.session spoke.pair m n whole spoke.sealed
                answers in
            let own : answer.spoke.pair.own ≡ p.own =
              answer.same_own ∙ rw is (unfold pair_or_fresh in refl) in
            rw answers (
              omega (
                arith,
                last_hop hops b a s.chat speaker s.chat.mailbox n answer.base answer.spoke
                    spoke.pair spoke.pair.own answer.same_peer (rw own p_whole) spoke.is
                    (rw own known) (spoke.marks p.own known),
              ))
      ]

  pub whole_of :
      (random : Bytes) (mailbox : Option MailboxPair)
      → length random ≡ 32
      → IsWhole mailbox
      → length (pair_or_fresh random mailbox).own ≡ 32
  unfolding pair_or_fresh fresh_pair
  whole_of random none drawn whole = drawn
  whole_of random (some p) drawn whole = whole p refl

  first_hop :
      (hops : List Hop) (a b : Bytes) (speaker hearer : Chat o) (m : o.Message) (base : MailboxPair)
      (spoke : Spoke h o a b base speaker.mailbox m)
      → length spoke.pair.own ≡ 32
      → All (λ hop. length hop.random ≡ 32) hops
      → IsWhole hearer.mailbox
      → exchange h o hops a b speaker hearer (some m) ≤ 3
  unfolding exchange
  first_hop [] a b speaker hearer m base spoke whole drawn hearer_whole = omega arith
  first_hop (hop ∷ hops) a b speaker hearer m base spoke whole (d, drawn) hearer_whole =
      let s = on_key h o b a hop.relays_meet hop.random hop.now hearer m in
      elim (Option-cases s.message) [
        | inl silent ↦ rw (silent, exchange-none h o b a hops b a s.chat speaker) (omega arith)
        | inr (n, answers) ↦
            let answer =
              on_key-Answer hop a b hearer spoke.session spoke.pair m n whole spoke.sealed
                answers in
            let own =
              rw (← answer.same_own) at (whole_of hop.random hearer.mailbox d hearer_whole) in
            rw answers (
              omega (
                arith,
                middle_hop hops b a s.chat speaker n answer.base answer.spoke spoke.pair own
                    spoke.is whole answer.same_peer,
              ))
      ]

  -- However an announcement and the replies to it are delivered, at most three frames cross, whatever
  -- both sides held before: the announcement, a reply, and a reply to that. A frame must open to what
  -- was sealed or not at all, and contributions and hashes must be 32 bytes.
  pub announcement_ends :
      (hops : List Hop) (a_ik b_ik : Bytes) (a b : Chat o) (meet : Bool) (random : Bytes)
      → length random ≡ 32
      → All (λ hop. length hop.random ≡ 32) hops
      → IsWhole a.mailbox
      → IsWhole b.mailbox
      → (let first = send_key h o a_ik b_ik meet random a in
          exchange h o hops a_ik b_ik first.chat b first.message ≤ 3)
  announcement_ends hops a_ik b_ik a b meet random d drawn a_whole b_whole =
      let first = send_key h o a_ik b_ik meet random a in
      elim (Option-cases first.message) [
        | inl silent ↦
            rw (silent, exchange-none h o a_ik b_ik hops a_ik b_ik first.chat b) (omega arith)
        | inr (m, goes) ↦
            let spoke = send_key-Spoke h o a_ik b_ik meet random a m goes in
            let own = rw (← spoke.same_own) at (whole_of random a.mailbox d a_whole) in
            rw goes (
              first_hop hops a_ik b_ik first.chat b m (pair_or_fresh random a.mailbox) spoke own
                drawn b_whole)
      ]
