-- ===== src/Mailbox/Agree/Learning.antt =====
-- What receiving a contribution leaves of a pair (core/src/node/mailbox.rs, `on_mailbox_key`).
use nightdrop.Mailbox.{Digests, MailboxPair, pair_secret, confirm_hash, map_some}
use nightdrop.Mailbox.Agree.{
  checked, confirms, heard, is_known, learn, pair_or_fresh, our_confirmation, payload_of,
}
use nightdrop.Mailbox.Payload.{decode_payload, decode_payload-encode_payload}
use nightdrop.Mailbox.State.{Olm}
use nightdrop.Prelude.{Bool-cases, Option, ap, inl, inr, none, refl, some, true, ◌∙◌, ◌≡◌, length}
use nightdrop.Prelude.Bytes.{Bytes, eq_of_same, same_refl}

module _ (h : Digests) (o : Olm) (me contact : Bytes) where
  pub is_known-peer :
      (peer : Option Bytes) (theirs : Bytes)
      → is_known h o me contact peer theirs ≡ true
      → peer ≡ some theirs
  unfolding is_known
  is_known-peer none theirs e = cc
  is_known-peer (some x) theirs e = ap some (eq_of_same x theirs e)

  pub heard-peer :
      (p : MailboxPair) (theirs : Bytes)
      → ((heard h o me contact p theirs).peer ≡ some theirs)
        × ((heard h o me contact p theirs).own ≡ p.own)
  unfolding heard
  heard-peer p theirs = elim (Bool-cases (is_known h o me contact p.peer theirs)) [
    | inl e ↦ rw e (is_known-peer p.peer theirs e, refl)
    | inr e ↦ rw e (refl, refl)
  ]

  pub heard_known :
      (p : MailboxPair) (theirs : Bytes) → p.peer ≡ some theirs → heard h o me contact p theirs ≡ p
  unfolding heard is_known
  heard_known p theirs e = rw (e, same_refl theirs) (rw (← e) refl)

  pub checked-fields :
      (p : MailboxPair) (theirs : Bytes) (conf : Option Bytes)
      → ((checked h o me contact p theirs conf).peer ≡ p.peer)
        × ((checked h o me contact p theirs conf).own ≡ p.own)
        × ((checked h o me contact p theirs conf).confirm_sent ≡ p.confirm_sent)
  unfolding checked
  checked-fields p theirs conf =
      elim (Bool-cases (confirms h o me contact conf (pair_secret h me contact p.own theirs))) [
        | inl e ↦ rw e (refl, refl, refl)
        | inr e ↦ rw e (refl, refl, refl)
      ]

  pub learn-peer :
      (random : Bytes) (mailbox : Option MailboxPair) (theirs : Bytes) (conf : Option Bytes)
      → ((learn h o me contact random mailbox theirs conf).peer ≡ some theirs)
        × ((learn h o me contact random mailbox theirs conf).own
            ≡ (pair_or_fresh random mailbox).own)
  unfolding learn
  learn-peer random mailbox theirs conf =
      let p = pair_or_fresh random mailbox in
      let (peer, own) = heard-peer p theirs in
      let (same_peer, same_own, _) = checked-fields (heard h o me contact p theirs) theirs conf in
      (same_peer ∙ peer, same_own ∙ own)

  -- What a side sends is read as its contribution and its confirmation.
  pub payload_of-decode :
      ((s : Bytes) → length (confirm_hash h s) ≡ 32)
      → (q : MailboxPair) → length q.own ≡ 32
      → decode_payload (payload_of h o me contact q)
        ≡ some (q.own, our_confirmation h o me contact q)
  unfolding payload_of our_confirmation
  payload_of-decode hash_32 q whole = decode_payload-encode_payload q.own _ whole (hash q.peer)
    where
      hash :
          (peer : Option Bytes) (c : Bytes)
          → map_some (λ x. confirm_hash h (pair_secret h me contact q.own x)) peer ≡ some c
          → length c ≡ 32
      hash none c e = cc
      hash (some x) c e =
          let is : confirm_hash h (pair_secret h me contact q.own x) ≡ c = cc in
          rw (← is) (hash_32 _)
