-- ===== src/Mailbox/Polling.antt =====
-- Which handles a node polls, posts to and pads with (core/src/node/mailbox.rs, `group_id`,
-- `poll_fragments_at`, `cover_handle`, `post_handle`).
pub mod Covered
pub mod Padded
use nightdrop.Mailbox.{
  Digests, MailboxPair, and_then, be_bytes, map_some, of_be_bytes, pair_secret, v2_handle,
}
use nightdrop.Mailbox.Agree.{post_handle_of}
use nightdrop.Mailbox.Epochs.{polled_epochs}
use nightdrop.Mailbox.Payload.{parts}
use nightdrop.Mailbox.State.{Chat, Node, Olm}
use nightdrop.Prelude.{
  List, Option, [], if◌then◌else◌, length, max, none, replicate, some, suc, take, zero, ℕ, ◌%◌, ◌*◌,
  ◌++◌, ◌+◌, ◌-◌, ◌/◌, ◌∷◌,
}
use nightdrop.Prelude.Bytes.{Bytes, codes}
use nightdrop.Prelude.Map.{Map, get}

-- `POLL_FRAGMENTS`
abbrev pub poll_fragments : ℕ
poll_fragments = 7

-- `POLL_PAD`
abbrev pub poll_pad : ℕ
poll_pad = 8

pub record PollFragment : Type 0 where
  pub group : ℕ
  pub epoch : Option ℕ
  pub handles : List Bytes

unfoldable pub labelled : List Bytes → Bytes
labelled [] = []
labelled (part ∷ parts) = be_bytes 8 (length part) ++ part ++ labelled parts

-- `Vec::push` on the bucket of this number.
unfoldable pub push_at : ℕ → Bytes → List (List Bytes) → List (List Bytes)
push_at n handle [] = []
push_at zero handle (bucket ∷ buckets) = (bucket ++ handle ∷ []) ∷ buckets
push_at (suc n) handle (bucket ∷ buckets) = bucket ∷ push_at n handle buckets

unfoldable pub push_all : List (ℕ × Bytes) → List (List Bytes) → List (List Bytes)
push_all [] buckets = buckets
push_all ((n, handle) ∷ handles) buckets = push_all handles (push_at n handle buckets)

unfoldable pub padded_count : ℕ → ℕ
padded_count count = (max count 1 + (poll_pad - 1)) / poll_pad * poll_pad

module _ (h : Digests) where
  unfoldable pub group_id : List Bytes → ℕ
  group_id parts = of_be_bytes 0 (take 8 (h.sha256 (labelled parts)))

  unfoldable pub post_group : Bytes → ℕ
  post_group recipient_ik = group_id (codes "nightdrop/isolation/post" ∷ recipient_ik ∷ [])

  unfoldable pub dummy_bytes : ℕ → Bytes → Bytes
  dummy_bytes id seed =
      take 15 (h.sha256 (codes "nightdrop/poll/dummy-handle" ++ seed ++ be_bytes 8 id))

  unfoldable pub cover_secret : Bytes → Bytes
  cover_secret poll_seed = h.hkdf (codes "nightdrop/mailbox/v2/cover") poll_seed (codes "self") 32

  -- The bucket of a label on a day: the same all day.
  unfoldable pub bucket_of : (poll_seed : Bytes) (epoch : ℕ) (label : Bytes) → ℕ
  bucket_of poll_seed epoch label =
      group_id (codes "nightdrop/poll/bucket" ∷ poll_seed ∷ be_bytes 8 epoch ∷ label ∷ [])
      % poll_fragments

  -- The handle of a chat that is polled: of an open chat, once the peer's contribution is known.
  unfoldable pub inbound_of : (me contact : Bytes) (epoch : ℕ) → MailboxPair → Option Bytes
  inbound_of me contact epoch pair =
      map_some (λ peer. v2_handle h (pair_secret h me contact pair.own peer) me epoch) pair.peer

  unfoldable pub with_inbound :
      (poll_seed contact : Bytes) (epoch : ℕ) → Option Bytes → List (ℕ × Bytes) → List (ℕ × Bytes)
  with_inbound poll_seed contact epoch none rest = rest
  with_inbound poll_seed contact epoch (some handle) rest =
      (bucket_of poll_seed epoch contact, handle) ∷ rest

  unfoldable pub dummy : (poll_seed : Bytes) (epoch i : ℕ) → ℕ × Bytes
  dummy poll_seed epoch i =
      let label = codes "dummy" ++ be_bytes 8 i in
      let id =
        group_id (codes "nightdrop/poll/dummy" ∷ poll_seed ∷ be_bytes 8 epoch ∷ label ∷ []) in
      (bucket_of poll_seed epoch label, codes "mbx:" ++ h.base64 (dummy_bytes id poll_seed))

  -- The dummies numbered from `i`.
  unfoldable pub dummies : (poll_seed : Bytes) (epoch count i : ℕ) → List (ℕ × Bytes)
  dummies poll_seed epoch zero i = []
  dummies poll_seed epoch (suc count) i =
      dummy poll_seed epoch i ∷ dummies poll_seed epoch count (i + 1)

  -- The buckets that are not empty, the first of them numbered `b`.
  unfoldable pub fragments_of :
      (poll_seed : Bytes) (epoch b : ℕ) → List (List Bytes) → List PollFragment
  fragments_of poll_seed epoch b [] = []
  fragments_of poll_seed epoch b ([] ∷ buckets) = fragments_of poll_seed epoch (b + 1) buckets
  fragments_of poll_seed epoch b ((handle ∷ handles) ∷ buckets) =
      record {
        group =
            group_id
              (codes "nightdrop/isolation/poll" ∷ poll_seed ∷ be_bytes 8 epoch ∷ be_bytes 8 b ∷ []);
        epoch = some epoch;
        handles = handle ∷ handles;
      }
      ∷ fragments_of poll_seed epoch (b + 1) buckets

  module _ {o : Olm} where
    unfoldable pub inbound : (me contact : Bytes) (epoch : ℕ) → Chat o → Option Bytes
    inbound me contact epoch chat =
        if chat.closed then none else and_then chat.mailbox (inbound_of me contact epoch)

    unfoldable pub real_handles :
        (me poll_seed : Bytes) (epoch : ℕ) → Map (Chat o) → List (ℕ × Bytes)
    real_handles me poll_seed epoch [] =
        (bucket_of poll_seed epoch (codes "cover"), v2_handle h (cover_secret poll_seed) me epoch)
        ∷ []
    real_handles me poll_seed epoch ((contact, chat) ∷ chats) =
        with_inbound poll_seed contact epoch (inbound me contact epoch chat)
          (real_handles me poll_seed epoch chats)

    unfoldable pub all_handles :
        (me poll_seed : Bytes) (epoch : ℕ) → Map (Chat o) → List (ℕ × Bytes)
    all_handles me poll_seed epoch chats =
        let real = real_handles me poll_seed epoch chats in
        let count = padded_count (length real) - length real in
        real ++ dummies poll_seed epoch count 0

    unfoldable pub epoch_fragments :
        (me poll_seed : Bytes) (epoch : ℕ) → Map (Chat o) → List PollFragment
    epoch_fragments me poll_seed epoch chats =
        fragments_of poll_seed epoch 0
          (push_all (all_handles me poll_seed epoch chats) (replicate poll_fragments []))

    unfoldable pub over_epochs : (me poll_seed : Bytes) → Map (Chat o) → List ℕ → List PollFragment
    over_epochs me poll_seed chats [] = []
    over_epochs me poll_seed chats (epoch ∷ epochs) =
        epoch_fragments me poll_seed epoch chats ++ over_epochs me poll_seed chats epochs

    unfoldable pub poll_fragments_at : Node o → ℕ → List PollFragment
    poll_fragments_at node now =
        over_epochs node.identity_key node.poll_seed node.chats
          (polled_epochs node.prev_epoch_drained now)

    unfoldable pub post_handle : Node o → Bytes → ℕ → Option Bytes
    post_handle node contact now =
        and_then (get contact node.chats)
          (λ chat. post_handle_of h o node.identity_key contact chat.mailbox now)
