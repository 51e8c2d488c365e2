-- ===== src/Mailbox/Agree/Announce.antt =====
-- When a side announces, on one chat (core/src/node/mailbox.rs, `announce_mailbox`), and rounds of
-- announcements of both sides.
use nightdrop.Mailbox.{Digests, MailboxPair}
use nightdrop.Mailbox.Agree.{Sent, send_key}
use nightdrop.Mailbox.Agree.Exchange.{Hop}
use nightdrop.Mailbox.Agree.Talk.{hear}
use nightdrop.Mailbox.State.{Chat, Olm}
use nightdrop.Prelude.{Bool, List, Option, [], false, if◌then◌else◌, none, not, some, ◌&&◌, ◌∷◌}
use nightdrop.Prelude.Bytes.{Bytes}

unfoldable pub is_confirmed : Option MailboxPair → Bool
is_confirmed none = false
is_confirmed (some pair) = pair.peer_confirmed

-- The chats that `announce_mailbox` picks. `announced`: already in this run.
unfoldable pub wants_announcement : {o : Olm} (announced relays_meet : Bool) → Chat o → Bool
wants_announcement announced relays_meet chat =
    chat.authorized
    && not chat.closed
    && not (is_confirmed chat.mailbox)
    && not announced
    && relays_meet

-- `send_mailbox_key` on such a chat.
unfoldable pub announce_key :
    (h : Digests) (o : Olm) (me contact : Bytes) (announced : Bool) (hop : Hop) → Chat o → Sent o
announce_key h o me contact announced hop chat =
    if wants_announcement announced hop.relays_meet chat
    then send_key h o me contact hop.relays_meet hop.random chat
    else record { chat = chat; dirty = false; message = none }

-- The environment of one round: whether each side has announced in this run of the program, whether a
-- frame is lost, and what each handler reads.
pub record Round : Type 0 where
  pub a_announced : Bool
  pub b_announced : Bool
  pub a_hop : Hop
  pub b_hop : Hop
  pub loses : Bool

unfoldable pub unless_lost : {A : Type 0} → Bool → Option A → Option A
unless_lost loses message = if loses then none else message

-- `b` announces and `a` replies, then `a` announces and `b` replies.
unfoldable pub round_of :
    (h : Digests) (o : Olm) (a_ik b_ik : Bytes) → Round → Chat o × Chat o → Chat o × Chat o
round_of h o a_ik b_ik r (a, b) =
    let from_b = announce_key h o b_ik a_ik r.b_announced r.b_hop b in
    let at_a = hear h o a_ik b_ik r.a_hop a (unless_lost r.loses from_b.message) in
    let back_b = hear h o b_ik a_ik r.b_hop from_b.chat (unless_lost r.loses at_a.message) in
    let from_a = announce_key h o a_ik b_ik r.a_announced r.a_hop at_a.chat in
    let at_b = hear h o b_ik a_ik r.b_hop back_b.chat (unless_lost r.loses from_a.message) in
    let back_a = hear h o a_ik b_ik r.a_hop from_a.chat (unless_lost r.loses at_b.message) in
    (back_a.chat, at_b.chat)

unfoldable pub rounds :
    (h : Digests) (o : Olm) (a_ik b_ik : Bytes) → List Round → Chat o × Chat o → Chat o × Chat o
rounds h o a_ik b_ik [] w = w
rounds h o a_ik b_ik (r ∷ rs) w = rounds h o a_ik b_ik rs (round_of h o a_ik b_ik r w)
