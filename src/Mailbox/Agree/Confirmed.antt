-- ===== src/Mailbox/Agree/Confirmed.antt =====
-- Receiving keeps what is trusted (core/src/node/mailbox.rs, `on_mailbox_key`).
use nightdrop.Mailbox.{Digests, MailboxPair, confirm_hash, pair_secret, map_some}
use nightdrop.Mailbox.Agree.{
  heard, our_confirmation, pair_or_fresh, confirms, is_known, checked, learn, on_decrypted, on_key,
  on_payload, wants_reply,
}
use nightdrop.Mailbox.Agree.Learning.{is_known-peer, payload_of-decode}
use nightdrop.Mailbox.Agree.Steps.{saying, IsAuthentic}
use nightdrop.Mailbox.Agree.Trust.{
  IsCollisionFree, IsDrawn, IsFine, MaybeTrusted, Trusted, pair_or_fresh-Trusted, send_key-IsFine,
  some-MaybeTrusted,
}
use nightdrop.Mailbox.Pair.{pair_secret_comm, pair_secret_swap}
use nightdrop.Mailbox.State.{Chat, Olm, mark_alive}
use nightdrop.Prelude.{
  All, Any, Bool, Bool-cases, List, Option, inl, inr, none, not, refl, some, true, ◌≡◌, ap, ◌∙◌,
  All-Any, ℕ,
}
use nightdrop.Prelude.Bytes.{Bytes, eq_of_same}

module _ (h : Digests) (o : Olm) (Drawn : Bytes → Type 0) (me contact : Bytes)
    (heard_from : List MailboxPair) where
  heard-Trusted :
      (p : MailboxPair) (theirs : Bytes)
      → Trusted h o Drawn me contact heard_from p
      → Drawn theirs
      → Trusted h o Drawn me contact heard_from (heard h o me contact p theirs)
        × ((heard h o me contact p theirs).peer ≡ some theirs)
  unfolding heard
  heard-Trusted p theirs t drawn = elim (Bool-cases (is_known h o me contact p.peer theirs)) [
    | inl e ↦ rw e (t, is_known-peer h o me contact p.peer theirs e)
    | inr e ↦ rw e (
      record {
        own_drawn = t.own_drawn;
        peer_drawn = λ x is. let same_x : theirs ≡ x = cc in rw (← same_x) drawn;
        agreed = λ is. cc;
      },
      refl,
    )
  ]

  -- A confirmation that matches was made of our own contribution.
  confirms-own :
      (free : IsCollisionFree h Drawn me contact) (own theirs : Bytes) (peer : Option Bytes)
      → Drawn own
      → Drawn theirs
      → ((x : Bytes) → peer ≡ some x → Drawn x)
      → confirms h o me contact
          (map_some (λ x. confirm_hash h (pair_secret h contact me theirs x)) peer)
          (pair_secret h me contact own theirs)
        ≡ true
      → peer ≡ some own
  unfolding confirms
  confirms-own free own theirs none drawn t d e = cc
  confirms-own free own theirs (some x) drawn t d e =
      let ours = pair_secret_swap h me contact own theirs in
      let turned =
        pair_secret_comm h contact me theirs x ∙ pair_secret_swap h me contact x theirs in
      let hash = rw (ours, turned) at (eq_of_same _ _ e) in
      ap some (free.apart theirs x own t (d x refl) drawn hash)

  checked-Trusted :
      (free : IsCollisionFree h Drawn me contact) (p q : MailboxPair)
      → Trusted h o Drawn me contact heard_from p
      → Drawn q.own
      → ((x : Bytes) → q.peer ≡ some x → Drawn x)
      → p.peer ≡ some q.own
      → ((R : MailboxPair → Type 0) → R q → Any R heard_from)
      → Trusted h o Drawn me contact heard_from
          (checked h o me contact p q.own (our_confirmation h o contact me q))
  unfolding checked our_confirmation
  checked-Trusted free p q t own_q peer_q is from =
      let test =
        confirms h o me contact
          (map_some (λ x. confirm_hash h (pair_secret h contact me q.own x)) q.peer)
          (pair_secret h me contact p.own q.own) in
      elim (Bool-cases test) [
        | inl e ↦
            let mine = confirms-own free p.own q.own q.peer t.own_drawn own_q peer_q e in
            rw e (record {
              own_drawn = t.own_drawn;
              peer_drawn = t.peer_drawn;
              agreed = λ _. from _ (is, mine);
            })
        | inr e ↦ rw e t
      ]

  learn-Trusted :
      (free : IsCollisionFree h Drawn me contact) (random : Bytes) (mailbox : Option MailboxPair)
      (q : MailboxPair)
      → Drawn random
      → MaybeTrusted Drawn heard_from mailbox
      → Drawn q.own
      → ((x : Bytes) → q.peer ≡ some x → Drawn x)
      → ((R : MailboxPair → Type 0) → R q → Any R heard_from)
      → Trusted h o Drawn me contact heard_from
          (learn h o me contact random mailbox q.own (our_confirmation h o contact me q))
  unfolding learn
  learn-Trusted free random mailbox q drawn m own_q peer_q from =
      let base = pair_or_fresh-Trusted h o Drawn me contact heard_from random mailbox drawn m in
      let (t, is) = heard-Trusted (pair_or_fresh random mailbox) q.own base own_q in
      checked-Trusted free (heard h o me contact (pair_or_fresh random mailbox) q.own) q t own_q
        peer_q is from

  on_payload-IsFine :
      (free : IsCollisionFree h Drawn me contact) (meet : Bool) (random : Bytes) (now : ℕ)
      (chat : Chat o) (q : MailboxPair)
      → Drawn random
      → MaybeTrusted Drawn heard_from chat.mailbox
      → Drawn q.own
      → ((x : Bytes) → q.peer ≡ some x → Drawn x)
      → ((R : MailboxPair → Type 0) → R q → Any R heard_from)
      → IsFine h o Drawn me contact heard_from (
          on_payload h o me contact meet random now chat
            (some (q.own, our_confirmation h o contact me q)))
  unfolding on_payload saying
  on_payload-IsFine free meet random now chat q drawn m own_q peer_q from =
      let pair =
        learn h o me contact random chat.mailbox q.own (our_confirmation h o contact me q) in
      let t = learn-Trusted free random chat.mailbox q drawn m own_q peer_q from in
      let learned = record (mark_alive now chat) { mailbox = some pair } in
      let sends =
        send_key-IsFine h o Drawn me contact heard_from meet random learned drawn
          (some-MaybeTrusted h o Drawn me contact heard_from pair t) in
      elim (Bool-cases (wants_reply h o me contact pair (our_confirmation h o contact me q))) [
        | inl e ↦ rw e (record { mailbox = sends.mailbox; said = sends.said })
        | inr e ↦ rw e (record {
          mailbox = some-MaybeTrusted h o Drawn me contact heard_from pair t;
          said = tt;
        })
      ]

  on_decrypted-IsFine :
      (free : IsCollisionFree h Drawn me contact) (meet : Bool) (random : Bytes) (now : ℕ)
      (chat : Chat o) (out : Option Bytes × o.Session)
      → Drawn random
      → MaybeTrusted Drawn heard_from chat.mailbox
      → All (IsDrawn Drawn) heard_from
      → IsAuthentic h o Drawn me contact heard_from out.0
      → IsFine h o Drawn me contact heard_from
          (on_decrypted h o me contact meet random now chat out)
  unfolding on_decrypted on_payload saying
  on_decrypted-IsFine free meet random now chat (none, session) drawn m all_drawn is = record {
    mailbox = m;
    said = tt;
  }
  on_decrypted-IsFine free meet random now chat (some plain, session) drawn m all_drawn is =
      let (q, (own_q, peer_q), sealed, from) = All-Any _ _ heard_from all_drawn is in
      rw (sealed, payload_of-decode h o contact me free.hash_32 q (free.whole q.own own_q))
        (on_payload-IsFine free meet random now (record chat { session = session }) q drawn m own_q
          peer_q from)

  pub on_key-IsFine :
      (free : IsCollisionFree h Drawn me contact) (meet : Bool) (random : Bytes) (now : ℕ)
      (chat : Chat o) (message : o.Message)
      → Drawn random
      → MaybeTrusted Drawn heard_from chat.mailbox
      → All (IsDrawn Drawn) heard_from
      → IsAuthentic h o Drawn me contact heard_from (o.decrypt chat.session message).0
      → IsFine h o Drawn me contact heard_from (on_key h o me contact meet random now chat message)
  unfolding on_key
  on_key-IsFine free meet random now chat message drawn m all_drawn is =
      elim (Bool-cases (not chat.authorized)) [
        | inl e ↦ rw e (record { mailbox = m; said = unfold saying in tt })
        | inr e ↦ rw e (on_decrypted-IsFine free meet random now chat _ drawn m all_drawn is)
      ]
