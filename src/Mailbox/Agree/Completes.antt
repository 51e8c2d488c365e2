-- ===== src/Mailbox/Agree/Completes.antt =====
-- An exchange whose frames all arrive completes the agreement (core/src/node/mailbox.rs,
-- `send_mailbox_key`, `on_mailbox_key`, `post_handle`).
use nightdrop.Mailbox.{Digests, MailboxPair, confirm_hash, pair_secret}
use nightdrop.Mailbox.Agree.{
  Sent, learn, on_decrypted, on_key, on_payload, our_confirmation, pair_or_fresh, payload_of,
  sealed_with, send_key, wants_reply, checked, confirms, heard, is_known,
}
use nightdrop.Mailbox.Agree.Exchange.{Hop, IsSealing, Spoke, on_payload-reply}
use nightdrop.Mailbox.Agree.Learning.{payload_of-decode, checked-fields, heard_known}
use nightdrop.Mailbox.Agree.Stops.{our_confirmation-known}
use nightdrop.Mailbox.Agree.Talk.{IsOpen, hear}
use nightdrop.Mailbox.Pair.{pair_secret_comm}
use nightdrop.Mailbox.State.{Chat, Olm, forget_upgrade_notice, mark_alive}
use nightdrop.Prelude.{
  Bool, Bool-cases, Option, false, inl, inr, is_some, length, none, not, refl, some, true, ℕ, ◌∙◌,
  ◌≡◌, arith, ◌||◌,
}
use nightdrop.Prelude.Bytes.{Bytes, same_refl}

mark_alive-fields :
    {o : Olm} (now : ℕ) (chat : Chat o)
    → ((mark_alive now chat).authorized ≡ chat.authorized)
      × ((mark_alive now chat).closed ≡ chat.closed)
unfolding mark_alive forget_upgrade_notice
mark_alive-fields now chat = elim (Bool-cases chat.told_upgrade) [
  | inl e ↦ rw e (refl, refl)
  | inr e ↦ rw e (refl, refl)
]

module _ (h : Digests) (o : Olm) (ok : IsSealing h o)
    (seals : (s : o.Session) (plain : Bytes) → is_some (o.encrypt s plain).0 ≡ true) where
  is_some-some : {A : Type 0} (a : Option A) → is_some a ≡ true → (x : A) × (a ≡ some x)
  is_some-some none e = cc
  is_some-some (some x) e = (x, refl)

  sealed_with-message :
      (me contact : Bytes) (chat : Chat o) (pair : MailboxPair) (was : Bool)
      (out : Option o.Message × o.Session)
      → (sealed_with h o me contact chat pair was out).message ≡ out.0
        × ((sealed_with h o me contact chat pair was out).chat.authorized ≡ chat.authorized)
        × ((sealed_with h o me contact chat pair was out).chat.closed ≡ chat.closed)
  unfolding sealed_with
  sealed_with-message me contact chat pair was (none, session) = (refl, refl, refl)
  sealed_with-message me contact chat pair was (some m, session) = (refl, refl, refl)

  -- A frame of an open chat goes out.
  pub send_key-goes :
      (me contact random : Bytes) (chat : Chat o)
      → IsOpen chat
      → ((m : o.Message) × ((send_key h o me contact true random chat).message ≡ some m))
        × IsOpen (send_key h o me contact true random chat).chat
  unfolding send_key
  send_key-goes me contact random chat (authorized, not_closed) =
      let pair = pair_or_fresh random chat.mailbox in
      let out = o.encrypt chat.session (payload_of h o me contact pair) in
      let (m, is) = is_some-some out.0 (seals chat.session (payload_of h o me contact pair)) in
      let (message, a, c) =
        sealed_with-message me contact chat pair (not (is_some chat.mailbox)) out in
      let goes : (not true || not chat.authorized || chat.closed) ≡ false =
        ground (arith, authorized, not_closed) in
      rw goes ((m, message ∙ is), (a ∙ authorized, c ∙ not_closed))

  hear-opens :
      (me contact : Bytes) (hop : Hop) (chat : Chat o) (session : o.Session) (q : MailboxPair)
      (m : o.Message)
      → chat.authorized ≡ true
      → length q.own ≡ 32
      → (o.encrypt session (payload_of h o contact me q)).0 ≡ some m
      → is_some (o.decrypt chat.session m).0 ≡ true
      → hear h o me contact hop chat (some m)
        ≡ on_payload h o me contact hop.relays_meet hop.random hop.now
            (record chat { session = (o.decrypt chat.session m).1 })
            (some (q.own, our_confirmation h o contact me q))
  unfolding hear on_key on_decrypted
  hear-opens me contact hop chat session q m authorized whole sealed opens =
      elim (ok.authentic session chat.session (payload_of h o contact me q) m sealed) [
        | inl lost ↦ let impossible = rw lost at opens in cc
        | inr opened ↦
            rw (authorized, opened, payload_of-decode h o contact me ok.hash_32 q whole) refl
      ]

  on_payload-goes :
      (me contact : Bytes) (random : Bytes) (now : ℕ) (chat : Chat o) (theirs : Bytes)
      (conf : Option Bytes)
      → IsOpen chat
      → wants_reply h o me contact (learn h o me contact random chat.mailbox theirs conf) conf
        ≡ true
      → ((m : o.Message) × ((on_payload h o me contact true random now chat
              (some (theirs, conf))).message
            ≡ some m))
        × IsOpen (on_payload h o me contact true random now chat (some (theirs, conf))).chat
  unfolding on_payload
  on_payload-goes me contact random now chat theirs conf (a, c) wants =
      let pair = learn h o me contact random chat.mailbox theirs conf in
      let learned = record (mark_alive now chat) { mailbox = some pair } in
      let (same_a, same_c) = mark_alive-fields now chat in
      rw wants (send_key-goes me contact random learned (same_a ∙ a, same_c ∙ c))

  -- A side that hears a frame and has to answer it.
  pub record Answers (me contact : Bytes) (base : MailboxPair) (s : Sent o) : Type 0 where
    pub message : o.Message
    pub goes : s.message ≡ some message
    pub spoke : Spoke h o me contact base s.chat.mailbox message
    pub is_open : IsOpen s.chat

  pub turn :
      (me contact : Bytes) (hop : Hop) (chat : Chat o) (session : o.Session) (q : MailboxPair)
      (m : o.Message)
      → IsOpen chat
      → hop.relays_meet ≡ true
      → length q.own ≡ 32
      → (o.encrypt session (payload_of h o contact me q)).0 ≡ some m
      → is_some (o.decrypt chat.session m).0 ≡ true
      → wants_reply h o me contact
          (learn h o me contact hop.random chat.mailbox q.own (our_confirmation h o contact me q))
          (our_confirmation h o contact me q)
        ≡ true
      → Answers me contact
          (learn h o me contact hop.random chat.mailbox q.own (our_confirmation h o contact me q))
          (hear h o me contact hop chat (some m))
  turn me contact hop chat session q m (a, c) meets whole sealed opens wants =
      let conf = our_confirmation h o contact me q in
      let opened = record chat { session = (o.decrypt chat.session m).1 } in
      let ((n, answers), is_open) =
        on_payload-goes me contact hop.random hop.now opened q.own conf (a, c) wants in
      let (spoke, _) =
        on_payload-reply h o me contact true hop.random hop.now opened q.own conf n answers in
      rw (hear-opens me contact hop chat session q m a whole sealed opens, meets)
        (record { message = n; goes = answers; spoke = spoke; is_open = is_open })

  -- What a matching confirmation does.
  pub checked-confirms :
      (me contact : Bytes) (p q : MailboxPair)
      → q.peer ≡ some p.own
      → (checked h o me contact p q.own (our_confirmation h o contact me q)).peer_confirmed ≡ true
  unfolding checked confirms our_confirmation
  checked-confirms me contact p q known =
      rw
        (
          known,
          pair_secret_comm h contact me q.own p.own,
          same_refl (confirm_hash h (pair_secret h me contact p.own q.own)),
        )
        refl

  pub heard_unknown :
      (me contact : Bytes) (p : MailboxPair) (theirs : Bytes)
      → p.peer ≡ none
      → (heard h o me contact p theirs).confirm_sent ≡ false
  unfolding heard is_known
  heard_unknown me contact p theirs unknown = rw unknown refl

  -- The last frame: the hearer has nothing left to ask, and confirms.
  pub last_heard :
      (me contact : Bytes) (hop : Hop) (chat : Chat o) (session : o.Session) (p q : MailboxPair)
      (m : o.Message)
      → chat.authorized ≡ true
      → length q.own ≡ 32
      → (o.encrypt session (payload_of h o contact me q)).0 ≡ some m
      → is_some (o.decrypt chat.session m).0 ≡ true
      → chat.mailbox ≡ some p
      → p.peer ≡ some q.own
      → p.confirm_sent ≡ true
      → q.peer ≡ some p.own
      → (hear h o me contact hop chat (some m)).chat.mailbox
        ≡ some (checked h o me contact p q.own (our_confirmation h o contact me q))
  unfolding on_payload wants_reply learn pair_or_fresh
  last_heard me contact hop chat session p q m authorized whole sealed opens is known sent asks =
      let (c, conf) = our_confirmation-known h o ok contact me q p.own asks in
      let (_, _, same_sent) = checked-fields h o me contact p q.own (some c) in
      rw
        (
          hear-opens me contact hop chat session q m authorized whole sealed opens,
          conf,
          is,
          heard_known h o me contact p q.own known,
          same_sent,
          sent,
        )
        refl
