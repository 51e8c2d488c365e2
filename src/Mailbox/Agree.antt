-- ===== src/Mailbox/Agree.antt =====
-- The agreement of a pair over its chat (core/src/node/mailbox.rs, `send_mailbox_key`,
-- `on_mailbox_key`, `post_handle`), on one chat. Whether both sides have relays, `relays_meet`, is an
-- argument, and so are the random bytes of a new pair and the clock.
pub mod Steps
pub mod Learning
pub mod Trust
pub mod Confirmed
pub mod Mutual
pub mod Exchange
pub mod Stops
pub mod Talk
pub mod Completes
pub mod Agreed
pub mod Announce
pub mod Settled
pub mod Lost
use nightdrop.Mailbox.{
  Digests, MailboxPair, and_then, confirm_hash, fresh_pair, map_some, pair_secret, v2_handle,
}
use nightdrop.Mailbox.Epochs.{epoch_of}
use nightdrop.Mailbox.Payload.{decode_payload, encode_payload}
use nightdrop.Mailbox.State.{Chat, Olm, mark_alive}
use nightdrop.Prelude.{Bool, Option, false, if◌then◌else◌, is_some, none, not, some, true, ℕ, ◌||◌}
use nightdrop.Prelude.Bytes.{Bytes, same}

-- `get_or_insert_with(MailboxPair::fresh)`
unfoldable pub pair_or_fresh : Bytes → Option MailboxPair → MailboxPair
pair_or_fresh random none = fresh_pair random
pair_or_fresh random (some pair) = pair

-- A chat, whether something changed, and the frame that goes out, if one does.
pub record Sent (o : Olm) : Type 0 where
  pub chat : Chat o
  pub dirty : Bool
  pub message : Option o.Message

module _ (h : Digests) (o : Olm) (me contact : Bytes) where
  unfoldable pub our_confirmation : MailboxPair → Option Bytes
  our_confirmation pair =
      map_some (λ peer. confirm_hash h (pair_secret h me contact pair.own peer)) pair.peer

  abbrev pub marked : Option Bytes → MailboxPair → MailboxPair
  marked confirm pair = record pair {
    confirm_sent = if is_some confirm then true else pair.confirm_sent;
  }

  unfoldable pub sealed_with : Chat o → MailboxPair → Bool → Option o.Message × o.Session → Sent o
  sealed_with chat pair was_dirty (none, session) = record {
    chat = record chat { mailbox = some pair; session = session };
    dirty = was_dirty;
    message = none;
  }
  sealed_with chat pair was_dirty (some message, session) = record {
    chat = record chat { mailbox = some (marked (our_confirmation pair) pair); session = session };
    dirty = true;
    message = some message;
  }

  unfoldable pub payload_of : MailboxPair → Bytes
  payload_of pair = encode_payload pair.own (our_confirmation pair)

  -- `send_mailbox_key`, for a chat that is there.
  unfoldable pub send_key : (relays_meet : Bool) (random : Bytes) → Chat o → Sent o
  send_key relays_meet random chat =
      if not relays_meet || not chat.authorized || chat.closed
      then record { chat = chat; dirty = false; message = none }
      else (let pair = pair_or_fresh random chat.mailbox in
          sealed_with chat pair (not (is_some chat.mailbox))
            (o.encrypt chat.session (payload_of pair)))

  -- A contribution that is new or changed resets the agreement.
  unfoldable pub is_known : Option Bytes → Bytes → Bool
  is_known none theirs = false
  is_known (some peer) theirs = same peer theirs

  unfoldable pub heard : MailboxPair → Bytes → MailboxPair
  heard pair theirs =
      if is_known pair.peer theirs
      then pair
      else record pair { peer = some theirs; peer_confirmed = false; confirm_sent = false }

  unfoldable pub confirms : Option Bytes → Bytes → Bool
  confirms none secret = false
  confirms (some c) secret = same c (confirm_hash h secret)

  unfoldable pub checked : MailboxPair → Bytes → Option Bytes → MailboxPair
  checked pair theirs their_confirm =
      if confirms their_confirm (pair_secret h me contact pair.own theirs)
      then record pair { peer_confirmed = true }
      else pair

  unfoldable pub learn : Bytes → Option MailboxPair → Bytes → Option Bytes → MailboxPair
  learn random mailbox theirs their_confirm =
      checked (heard (pair_or_fresh random mailbox) theirs) theirs their_confirm

  unfoldable pub wants_reply : MailboxPair → Option Bytes → Bool
  wants_reply pair their_confirm = not (is_some their_confirm) || not pair.confirm_sent

  -- The plaintext is read, the session having advanced.
  unfoldable pub on_payload :
      (relays_meet : Bool) (random : Bytes) (now : ℕ)
      → Chat o
      → Option (Bytes × Option Bytes)
      → Sent o
  on_payload relays_meet random now chat none = record {
    chat = chat;
    dirty = false;
    message = none;
  }
  on_payload relays_meet random now chat (some (theirs, their_confirm)) =
      let pair = learn random chat.mailbox theirs their_confirm in
      let learned = record (mark_alive now chat) { mailbox = some pair } in
      if wants_reply pair their_confirm
      then record (send_key relays_meet random learned) { dirty = true }
      else record { chat = learned; dirty = true; message = none }

  unfoldable pub on_decrypted :
      (relays_meet : Bool) (random : Bytes) (now : ℕ) → Chat o → Option Bytes × o.Session → Sent o
  on_decrypted relays_meet random now chat (plain, session) =
      on_payload relays_meet random now (record chat { session = session })
        (and_then plain decode_payload)

  -- `on_mailbox_key`, for a chat that is there and a message that `to_olm` read.
  unfoldable pub on_key :
      (relays_meet : Bool) (random : Bytes) (now : ℕ) → Chat o → o.Message → Sent o
  on_key relays_meet random now chat message =
      if not chat.authorized
      then record { chat = chat; dirty = false; message = none }
      else on_decrypted relays_meet random now chat (o.decrypt chat.session message)

  -- `post_handle` of a chat's agreement, at the clock's reading.
  unfoldable pub handle_for : Bool → Option Bytes → Bytes → ℕ → Option Bytes
  handle_for true (some peer) own now =
      some (v2_handle h (pair_secret h me contact own peer) contact (epoch_of now))
  handle_for _ _ own now = none

  unfoldable pub post_handle_of : Option MailboxPair → ℕ → Option Bytes
  post_handle_of none now = none
  post_handle_of (some pair) now = handle_for pair.peer_confirmed pair.peer pair.own now
