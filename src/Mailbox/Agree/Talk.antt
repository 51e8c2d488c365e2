-- ===== src/Mailbox/Agree/Talk.antt =====
-- An announcement and the replies to it, one delivery after the other (core/src/node/mailbox.rs,
-- `announce_mailbox`, `send_mailbox_key`, `on_mailbox_key`).
use nightdrop.Mailbox.{Digests, MailboxPair}
use nightdrop.Mailbox.Agree.{Sent, on_key, send_key}
use nightdrop.Mailbox.Agree.Exchange.{Hop}
use nightdrop.Mailbox.State.{Chat, Olm}
use nightdrop.Prelude.{Option, false, is_some, none, some, true, ◌≡◌}
use nightdrop.Prelude.Bytes.{Bytes}

-- A chat that may take part.
abbrev pub IsOpen : {o : Olm} → Chat o → Type 0
IsOpen chat = (chat.authorized ≡ true) × (chat.closed ≡ false)

-- The frame of this handler arrives at the chat, and opens there.
abbrev pub Arrives : {o : Olm} → Sent o → Chat o → Type 0
Arrives {o} s chat =
    (m : o.Message) → s.message ≡ some m → is_some (o.decrypt chat.session m).0 ≡ true

-- `on_mailbox_key` of a frame, if there is one.
unfoldable pub hear :
    (h : Digests) (o : Olm) (me contact : Bytes) (hop : Hop) → Chat o → Option o.Message → Sent o
hear h o me contact hop chat none = record { chat = chat; dirty = false; message = none }
hear h o me contact hop chat (some m) =
    on_key h o me contact hop.relays_meet hop.random hop.now chat m

-- An announcement, the reply, the reply to that, and what comes of it.
pub record Talk (o : Olm) : Type 0 where
  pub first : Sent o
  pub second : Sent o
  pub third : Sent o
  pub fourth : Sent o

-- The hops of the four handlers.
pub record Hops : Type 0 where
  pub first : Hop
  pub second : Hop
  pub third : Hop
  pub fourth : Hop

unfoldable pub talk :
    (h : Digests) (o : Olm) (a_ik b_ik : Bytes) (hops : Hops) (a b : Chat o) → Talk o
talk h o a_ik b_ik hops a b =
    let first = send_key h o a_ik b_ik hops.first.relays_meet hops.first.random a in
    let second = hear h o b_ik a_ik hops.second b first.message in
    let third = hear h o a_ik b_ik hops.third first.chat second.message in
    let fourth = hear h o b_ik a_ik hops.fourth second.chat third.message in
    record { first = first; second = second; third = third; fourth = fourth }

-- Both sides know each other's contribution, and that the other does.
pub record AreAgreed (a b : Option MailboxPair) : Type 0 where
  pub left : MailboxPair
  pub right : MailboxPair
  pub is_left : a ≡ some left
  pub is_right : b ≡ some right
  pub left_peer : left.peer ≡ some right.own
  pub right_peer : right.peer ≡ some left.own
  pub left_confirmed : left.peer_confirmed ≡ true
  pub right_confirmed : right.peer_confirmed ≡ true
