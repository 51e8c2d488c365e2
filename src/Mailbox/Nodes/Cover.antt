-- ===== src/Mailbox/Nodes/Cover.antt =====
-- Cover posts land in mailboxes that are polled (core/src/node/mailbox.rs, `cover_handle`).
use nightdrop.Mailbox.{Digests, v2_handle, pair_secret}
use nightdrop.Mailbox.Epochs.{contains, polled_epochs}
use nightdrop.Mailbox.Nodes.{cover_candidates, cover_handle, is_contact, or_own, secret_of}
use nightdrop.Mailbox.Polling.{
  cover_secret, inbound, inbound_of, poll_fragments_at, real_handles, with_inbound,
}
use nightdrop.Mailbox.Polling.Covered.{IsPolled, real-IsPolled, with_inbound-kept}
use nightdrop.Mailbox.State.{Chat, Node, Olm}
use nightdrop.Prelude.{
  Any, List, Option, Option-cases, [], ap, inl, inr, none, refl, some, true, ℕ, ◌∷◌, ◌≡◌,
  Bool-cases, arith, false,
}
use nightdrop.Prelude.Bytes.{Bytes}
use nightdrop.Prelude.Map.{Map}

module _ (h : Digests) {o : Olm} where
  cover_secret-real :
      (me seed : Bytes) (epoch : ℕ) (chats : Map (Chat o))
      → Any
          (λ g. g.1 ≡ v2_handle h (cover_secret h seed) me epoch)
          (real_handles h me seed epoch chats)
  unfolding real_handles
  cover_secret-real me seed epoch [] = inl refl
  cover_secret-real me seed epoch ((id, chat) ∷ chats) =
      with_inbound-kept h seed id epoch (inbound h me id epoch chat) _ _
        (cover_secret-real me seed epoch chats)

  -- A chat with a secret is polled.
  secret_of-inbound :
      (me id secret : Bytes) (epoch : ℕ) (chat : Chat o)
      → secret_of h o me id chat ≡ some secret
      → inbound h me id epoch chat ≡ some (v2_handle h secret me epoch)
  unfolding secret_of is_contact inbound inbound_of
  secret_of-inbound me id secret epoch chat e = elim (Bool-cases (is_contact chat)) [
    | inr refused ↦ let impossible = rw refused at e in cc
    | inl allowed ↦
        let is_open : chat.closed ≡ false = ground (arith, allowed) in
        let candidate = rw allowed at e in
        elim (Option-cases chat.mailbox) [
          | inl none_yet ↦ let impossible = rw none_yet at candidate in cc
          | inr (pair, is) ↦ elim (Option-cases pair.peer) [
            | inl unknown ↦ let impossible = rw (is, unknown) at candidate in cc
            | inr (peer, known) ↦
                let same_secret : pair_secret h me id pair.own peer ≡ secret =
                  let found = rw (is, known) at candidate in cc in
                rw (is_open, is, known, same_secret) refl
          ]
        ]
  ]

  candidate-real :
      (me seed secret : Bytes) (epoch : ℕ) (chats : Map (Chat o))
      → Any (λ s. s ≡ secret) (cover_candidates h o me chats)
      → Any (λ g. g.1 ≡ v2_handle h secret me epoch) (real_handles h me seed epoch chats)
  unfolding real_handles cover_candidates
  candidate-real me seed secret epoch [] x = absurd x
  candidate-real me seed secret epoch ((id, chat) ∷ chats) x =
      elim (Option-cases (secret_of h o me id chat)) [
        | inl e ↦
            with_inbound-kept h seed id epoch (inbound h me id epoch chat) _ _
              (candidate-real me seed secret epoch chats (rw e at x))
        | inr (s, e) ↦ elim (rw e at x) [
          | inl here ↦
              rw (secret_of-inbound me id s epoch chat e)
                (unfold with_inbound in inl (ap (λ k. v2_handle h k me epoch) here))
          | inr there ↦
              with_inbound-kept h seed id epoch (inbound h me id epoch chat) _ _
                (candidate-real me seed secret epoch chats there)
        ]
      ]

  cover-real :
      (me seed : Bytes) (epoch : ℕ) (chats : Map (Chat o)) (picked : Option Bytes)
      → ((s : Bytes) → picked ≡ some s → Any (λ t. t ≡ s) (cover_candidates h o me chats))
      → Any
          (λ g. g.1 ≡ v2_handle h (or_own h o (cover_secret h seed) picked) me epoch)
          (real_handles h me seed epoch chats)
  cover-real me seed epoch chats none picks = cover_secret-real me seed epoch chats
  cover-real me seed epoch chats (some s) picks =
      candidate-real me seed s epoch chats (picks s refl)

  -- A cover post for a day that is polled goes to a handle that one of the day's fragments asks for,
  -- whichever contact is picked, and also when there is none. What is picked must be one of the
  -- candidates.
  pub cover_handle-IsPolled :
      (choose : List Bytes → Option Bytes) (node : Node o) (now epoch : ℕ)
      → ((list : List Bytes) (s : Bytes) → choose list ≡ some s → Any (λ t. t ≡ s) list)
      → contains (polled_epochs node.prev_epoch_drained now) epoch ≡ true
      → IsPolled (cover_handle h o choose node epoch) epoch (poll_fragments_at h node now)
  unfolding cover_handle
  cover_handle-IsPolled choose node now epoch picks due =
      real-IsPolled h node now epoch _
        (cover-real node.identity_key node.poll_seed epoch node.chats _ (picks _)) due
