-- ===== src/Mailbox/Agree/Settled.antt =====
-- What a side that is confirmed, and has said so, makes of further frames (core/src/node/mailbox.rs,
-- `announce_mailbox`, `on_mailbox_key`).
use mathlib.Core.Path.{subst}
use nightdrop.Mailbox.{Digests, MailboxPair, pair_secret}
use nightdrop.Mailbox.Agree.{
  marked, our_confirmation, pair_or_fresh, sealed_with, send_key, checked, confirms, learn,
  on_payload, payload_of, wants_reply,
}
use nightdrop.Mailbox.Agree.Announce.{announce_key, is_confirmed, wants_announcement}
use nightdrop.Mailbox.Agree.Exchange.{Hop, IsSealing, Spoke, on_key-heard, quiet, send_key-Spoke}
use nightdrop.Mailbox.Agree.Learning.{checked-fields, heard_known}
use nightdrop.Mailbox.Agree.Stops.{our_confirmation-known}
use nightdrop.Mailbox.Agree.Talk.{hear}
use nightdrop.Mailbox.State.{Chat, Olm}
use nightdrop.Prelude.{
  Bool, Bool-cases, Option, arith, false, inl, inr, length, none, not, refl, some, true, ◌&&◌, ◌||◌,
  ◌≡◌, ℕ, ◌∙◌,
}
use nightdrop.Prelude.Bytes.{Bytes}

module _ (h : Digests) (o : Olm) (ok : IsSealing h o) where
  -- The confirmed side does not announce.
  pub announce_key-confirmed :
      (me contact : Bytes) (announced : Bool) (hop : Hop) (chat : Chat o) (p : MailboxPair)
      → chat.mailbox ≡ some p
      → p.peer_confirmed ≡ true
      → announce_key h o me contact announced hop chat
        ≡ record { chat = chat; dirty = false; message = none }
  unfolding announce_key wants_announcement is_confirmed
  announce_key-confirmed me contact announced hop chat p is confirmed =
      let silent : (chat.authorized
            && not chat.closed
            && not (is_confirmed chat.mailbox)
            && not announced
            && hop.relays_meet)
          ≡ false =
        rw (is, confirmed) (ground arith) in
      rw silent refl

  -- An announcement keeps the pair but for what is marked sent.
  sealed_with-pair :
      (me contact : Bytes) (chat : Chat o) (p : MailboxPair) (was : Bool)
      (out : Option o.Message × o.Session)
      → (q : MailboxPair) × ((sealed_with h o me contact chat p was out).chat.mailbox ≡ some q)
        × (q.own ≡ p.own)
        × (q.peer ≡ p.peer)
        × (q.peer_confirmed ≡ p.peer_confirmed)
  unfolding sealed_with
  sealed_with-pair me contact chat p was (none, session) = (p, refl, refl, refl, refl)
  sealed_with-pair me contact chat p was (some m, session) =
      (marked h o me contact (our_confirmation h o me contact p) p, refl, refl, refl, refl)

  send_key-pair :
      (me contact : Bytes) (meet : Bool) (random : Bytes) (chat : Chat o) (p : MailboxPair)
      → chat.mailbox ≡ some p
      → (q : MailboxPair) × ((send_key h o me contact meet random chat).chat.mailbox ≡ some q)
        × (q.own ≡ p.own)
        × (q.peer ≡ p.peer)
        × (q.peer_confirmed ≡ p.peer_confirmed)
  unfolding send_key pair_or_fresh
  send_key-pair me contact meet random chat p is =
      elim (Bool-cases (not meet || not chat.authorized || chat.closed)) [
        | inl e ↦ rw e (p, is, refl, refl, refl)
        | inr e ↦ rw e (rw is (sealed_with-pair me contact _ p _ _))
      ]

  pub announce_key-pair :
      (me contact : Bytes) (announced : Bool) (hop : Hop) (chat : Chat o) (p : MailboxPair)
      → chat.mailbox ≡ some p
      → (q : MailboxPair) × ((announce_key h o me contact announced hop chat).chat.mailbox ≡ some q)
        × (q.own ≡ p.own)
        × (q.peer ≡ p.peer)
        × (q.peer_confirmed ≡ p.peer_confirmed)
  unfolding announce_key
  announce_key-pair me contact announced hop chat p is =
      elim (Bool-cases (wants_announcement announced hop.relays_meet chat)) [
        | inl e ↦ rw e (send_key-pair me contact hop.relays_meet hop.random chat p is)
        | inr e ↦ rw e (p, is, refl, refl, refl)
      ]

  pub announce_key-Spoke :
      (me contact : Bytes) (announced : Bool) (hop : Hop) (chat : Chat o) (p : MailboxPair)
      (m : o.Message)
      → chat.mailbox ≡ some p
      → (announce_key h o me contact announced hop chat).message ≡ some m
      → Spoke h o me contact p (announce_key h o me contact announced hop chat).chat.mailbox m
  unfolding announce_key pair_or_fresh
  announce_key-Spoke me contact announced hop chat p m is goes =
      elim (Bool-cases (wants_announcement announced hop.relays_meet chat)) [
        | inl e ↦
            let spoke =
              send_key-Spoke h o me contact hop.relays_meet hop.random chat m (rw e at goes) in
            let base : pair_or_fresh hop.random chat.mailbox ≡ p = rw is refl in
            let mailbox = (send_key h o me contact hop.relays_meet hop.random chat).chat.mailbox in
            rw e (subst (λ b. Spoke h o me contact b mailbox m) base spoke)
        | inr e ↦ let impossible = rw e at goes in cc
      ]

  checked_kept :
      (me contact : Bytes) (p : MailboxPair) (theirs : Bytes) (conf : Option Bytes)
      → p.peer_confirmed ≡ true
      → (checked h o me contact p theirs conf).peer_confirmed ≡ true
  unfolding checked
  checked_kept me contact p theirs conf confirmed =
      elim (Bool-cases (confirms h o me contact conf (pair_secret h me contact p.own theirs))) [
        | inl e ↦ rw e refl
        | inr e ↦ rw e confirmed
      ]

  -- What the confirmed side makes of a frame that repeats what it knows: nothing.
  on_payload-settled :
      (me contact : Bytes) (meet : Bool) (random : Bytes) (now : ℕ) (chat : Chat o)
      (p : MailboxPair) (theirs c : Bytes)
      → chat.mailbox ≡ some p
      → p.peer ≡ some theirs
      → p.confirm_sent ≡ true
      → (on_payload h o me contact meet random now chat (some (theirs, some c))).chat.mailbox
        ≡ some (checked h o me contact p theirs (some c))
  unfolding on_payload wants_reply learn pair_or_fresh
  on_payload-settled me contact meet random now chat p theirs c is known sent =
      let (_, _, same_sent) = checked-fields h o me contact p theirs (some c) in
      rw (is, heard_known h o me contact p theirs known, same_sent, sent) refl

  -- The confirmed side after a frame of the other: silent, and as it was.
  pub hear-settled :
      (me contact : Bytes) (hop : Hop) (chat : Chat o) (p q : MailboxPair) (session : o.Session)
      (m : o.Message)
      → chat.mailbox ≡ some p
      → p.peer ≡ some q.own
      → p.confirm_sent ≡ true
      → p.peer_confirmed ≡ true
      → q.peer ≡ some p.own
      → length q.own ≡ 32
      → (o.encrypt session (payload_of h o contact me q)).0 ≡ some m
      → ((hear h o me contact hop chat (some m)).message ≡ none)
        × ((r : MailboxPair) × ((hear h o me contact hop chat (some m)).chat.mailbox ≡ some r)
            × (r.own ≡ p.own)
            × (r.peer ≡ p.peer)
            × (r.peer_confirmed ≡ true)
            × (r.confirm_sent ≡ true))
  unfolding hear
  hear-settled me contact hop chat p q session m is known sent confirmed asks whole sealed =
      elim (on_key-heard h o me contact ok hop chat session q m whole sealed) [
        | inl (silent, same_mailbox) ↦ (silent, (p, same_mailbox ∙ is, refl, refl, confirmed, sent))
        | inr (opened, reads) ↦
            let (c, conf) = our_confirmation-known h o ok contact me q p.own asks in
            let (same_peer, same_own, same_sent) = checked-fields h o me contact p q.own (some c) in
            let after_chat = record chat { session = opened } in
            rw (reads, conf)
              (
                quiet h o me contact hop.relays_meet hop.random hop.now after_chat p q.own c is
                    known sent,
                (
                  checked h o me contact p q.own (some c),
                  on_payload-settled me contact hop.relays_meet hop.random hop.now after_chat p
                      q.own c is known sent,
                  same_own,
                  same_peer,
                  checked_kept me contact p q.own (some c) confirmed,
                  same_sent ∙ sent,
                ),
              )
      ]
