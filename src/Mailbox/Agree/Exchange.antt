-- ===== src/Mailbox/Agree/Exchange.antt =====
-- One announcement and the replies to it (core/src/node/mailbox.rs, `announce_mailbox`,
-- `send_mailbox_key`, `on_mailbox_key`).
use nightdrop.Mailbox.{Digests, MailboxPair, confirm_hash}
use nightdrop.Mailbox.Agree.{
  on_key, payload_of, sealed_with, learn, marked, on_payload, our_confirmation, pair_or_fresh,
  send_key, wants_reply, on_decrypted,
}
use nightdrop.Mailbox.Agree.Learning.{checked-fields, heard_known, payload_of-decode}
use nightdrop.Mailbox.Agree.Steps.{after}
use nightdrop.Mailbox.State.{Chat, Olm}
use nightdrop.Prelude.{
  Bool, List, Option, [], length, none, some, true, ℕ, ◌+◌, ◌∷◌, ◌≡◌, ◌⊎◌, Bool-cases, inl, inr,
  not, refl, ◌||◌,
}
use nightdrop.Prelude.Bytes.{Bytes}

-- What one delivery reads besides the chat and the frame.
pub record Hop : Type 0 where
  pub relays_meet : Bool
  pub random : Bytes
  pub now : ℕ

-- A ciphertext opens to what was sealed, with whatever session, or not at all; and hashes are 32 bytes.
pub record IsSealing (h : Digests) (o : Olm) : Type 0 where
  pub authentic :
      (s t : o.Session) (plain : Bytes) (m : o.Message)
      → (o.encrypt s plain).0 ≡ some m
      → ((o.decrypt t m).0 ≡ none) ⊎ ((o.decrypt t m).0 ≡ some plain)
  pub hash_32 : (s : Bytes) → length (confirm_hash h s) ≡ 32

-- The contribution of a chat, once it has one, is 32 bytes.
abbrev pub IsWhole : Option MailboxPair → Type 0
IsWhole mailbox = (p : MailboxPair) → mailbox ≡ some p → length p.own ≡ 32

-- A frame went out, with the contributions of `base`.
pub record Spoke (h : Digests) (o : Olm) (me contact : Bytes) (base : MailboxPair)
    (mailbox : Option MailboxPair) (m : o.Message) : Type 0 where
  pub pair : MailboxPair
  pub session : o.Session
  pub is : mailbox ≡ some pair
  pub sealed : (o.encrypt session (payload_of h o me contact pair)).0 ≡ some m
  pub same_own : pair.own ≡ base.own
  pub same_peer : pair.peer ≡ base.peer
  pub same_confirmed : pair.peer_confirmed ≡ base.peer_confirmed
  pub marks : (x : Bytes) → pair.peer ≡ some x → pair.confirm_sent ≡ true

module _ (h : Digests) (o : Olm) where
  -- How many frames are delivered, the replies to each taking the next hop: `hearer` gets `message`,
  -- which `speaker` sent.
  unfoldable pub exchange :
      (hops : List Hop) (speaker_ik hearer_ik : Bytes) (speaker hearer : Chat o)
      → Option o.Message
      → ℕ
  exchange [] speaker_ik hearer_ik speaker hearer message = 0
  exchange (hop ∷ hops) speaker_ik hearer_ik speaker hearer none = 0
  exchange (hop ∷ hops) speaker_ik hearer_ik speaker hearer (some m) =
      let s = on_key h o hearer_ik speaker_ik hop.relays_meet hop.random hop.now hearer m in
      1 + exchange hops hearer_ik speaker_ik s.chat speaker s.message

  module _ (me contact : Bytes) where
    sealed_with-Spoke :
        (chat : Chat o) (pair : MailboxPair) (was : Bool) (session : o.Session) (m : o.Message)
        (out : Option o.Message × o.Session)
        → o.encrypt session (payload_of h o me contact pair) ≡ out
        → (sealed_with h o me contact chat pair was out).message ≡ some m
        → Spoke h o me contact pair (sealed_with h o me contact chat pair was out).chat.mailbox m
    unfolding sealed_with payload_of our_confirmation
    sealed_with-Spoke chat pair was session m (none, after) is e = cc
    sealed_with-Spoke chat pair was session m (some n, after) is e = record {
      pair = marked h o me contact (our_confirmation h o me contact pair) pair;
      session = session;
      is = refl;
      sealed = rw is e;
      same_own = refl;
      same_peer = refl;
      same_confirmed = refl;
      marks = λ x known. rw known refl;
    }

    pub send_key-Spoke :
        (meet : Bool) (random : Bytes) (chat : Chat o) (m : o.Message)
        → (send_key h o me contact meet random chat).message ≡ some m
        → Spoke h o me contact
            (pair_or_fresh random chat.mailbox)
            (send_key h o me contact meet random chat).chat.mailbox
            m
    unfolding send_key
    send_key-Spoke meet random chat m e =
        elim (Bool-cases (not meet || not chat.authorized || chat.closed)) [
          | inl stops ↦ let impossible = rw stops at e in cc
          | inr goes ↦ rw goes (
              sealed_with-Spoke chat (pair_or_fresh random chat.mailbox) _ chat.session m _ refl
                (rw goes at e))
        ]

    -- What a side knows after a plaintext, and whether it replies.
    pub on_payload-reply :
        (meet : Bool) (random : Bytes) (now : ℕ) (chat : Chat o) (theirs : Bytes)
        (conf : Option Bytes) (m : o.Message)
        → (on_payload h o me contact meet random now chat (some (theirs, conf))).message ≡ some m
        → Spoke h o me contact
            (learn h o me contact random chat.mailbox theirs conf)
            (on_payload h o me contact meet random now chat (some (theirs, conf))).chat.mailbox
            m
          × (wants_reply h o me contact (learn h o me contact random chat.mailbox theirs conf) conf
              ≡ true)
    unfolding on_payload pair_or_fresh
    on_payload-reply meet random now chat theirs conf m e =
        let pair = learn h o me contact random chat.mailbox theirs conf in
        elim (Bool-cases (wants_reply h o me contact pair conf)) [
          | inl wants ↦
              let spoke = send_key-Spoke meet random _ m (rw wants at e) in rw wants (spoke, refl)
          | inr quiet ↦ let impossible = rw quiet at e in cc
        ]

    -- A side that has sent its confirmation answers nothing but a question.
    pub quiet :
        (meet : Bool) (random : Bytes) (now : ℕ) (chat : Chat o) (p : MailboxPair)
        (theirs c : Bytes)
        → chat.mailbox ≡ some p
        → p.peer ≡ some theirs
        → p.confirm_sent ≡ true
        → (on_payload h o me contact meet random now chat (some (theirs, some c))).message ≡ none
    unfolding on_payload wants_reply learn pair_or_fresh
    quiet meet random now chat p theirs c is known sent =
        let (_, _, same_sent) = checked-fields h o me contact p theirs (some c) in
        rw (is, heard_known h o me contact p theirs known, same_sent, sent) refl

    -- A frame of the contact is read as what it was sealed from, or nothing comes of it.
    pub on_key-heard :
        (ok : IsSealing h o) (hop : Hop) (chat : Chat o) (session : o.Session) (q : MailboxPair)
        (m : o.Message)
        → length q.own ≡ 32
        → (o.encrypt session (payload_of h o contact me q)).0 ≡ some m
        → (((on_key h o me contact hop.relays_meet hop.random hop.now chat m).message ≡ none)
            × ((on_key h o me contact hop.relays_meet hop.random hop.now chat m).chat.mailbox
                ≡ chat.mailbox))
          ⊎ ((after : o.Session) × (on_key h o me contact hop.relays_meet hop.random hop.now chat m
                ≡ on_payload h o me contact hop.relays_meet hop.random hop.now
                    (record chat { session = after })
                    (some (q.own, our_confirmation h o contact me q))))
    unfolding on_key on_decrypted
    on_key-heard ok hop chat session q m whole sealed = elim (Bool-cases (not chat.authorized)) [
      | inl e ↦ inl (rw e (refl, refl))
      | inr e ↦ elim (ok.authentic session chat.session (payload_of h o contact me q) m sealed) [
        | inl lost ↦ inl (rw (e, lost) (unfold on_payload in (refl, refl)))
        | inr opened ↦ inr (
          (o.decrypt chat.session m).1,
          rw (e, opened, payload_of-decode h o contact me (ok.hash_32) q whole) refl,
        )
      ]
    ]

    pub exchange-none :
        (hops : List Hop) (a b : Bytes) (speaker hearer : Chat o)
        → exchange hops a b speaker hearer none ≡ 0
    unfolding exchange
    exchange-none [] a b speaker hearer = refl
    exchange-none (hop ∷ hops) a b speaker hearer = refl
