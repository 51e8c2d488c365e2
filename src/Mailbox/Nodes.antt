-- ===== src/Mailbox/Nodes.antt =====
-- The mailboxes of a whole node (core/src/node/mailbox.rs, the methods of `Node`; core/src/node.rs,
-- `deliver_with` and `apply_announced` for an announcement of a mailbox).
pub mod Cover
pub mod Cap
use nightdrop.Limits.{saturating_add}
use nightdrop.Mailbox.{MailboxPair, and_then, Digests, map_some, pair_secret, v2_handle}
use nightdrop.Mailbox.Agree.{Sent, on_key, send_key}
use nightdrop.Mailbox.Agree.Announce.{wants_announcement}
use nightdrop.Mailbox.Polling.{cover_secret, post_handle}
use nightdrop.Mailbox.State.{Chat, Node, Olm, version_outdated, from_olm, to_olm}
use nightdrop.Prelude.{
  Bool, List, Option, false, if◌then◌else◌, is_some, leb, ltb, none, not, retain, some, true, ℕ,
  ◌&&◌, ◌*◌, ◌||◌, [], ◌++◌, ◌∷◌, String,
}
use nightdrop.Prelude.Bytes.{Bytes, same}
use nightdrop.Prelude.Map.{Map, get, insert, total}
use nightdrop.Prelude.Result.{fail, ok, Result}
use nightdrop.Watchdog.{get_or_insert}
use nightdrop.Wire.Frame.{WireOlm}

-- `MAX_CONTACTS`
abbrev pub max_contacts : ℕ
max_contacts = 50

-- `OLD_VERSION_GRACE_SECS`
abbrev pub old_version_grace_secs : ℕ
old_version_grace_secs = 10 * 60

-- `Option::is_some_and`
abbrev pub is_some_and : {A : Type 0} → (A → Bool) → Option A → Bool
is_some_and f none = false
is_some_and f (some a) = f a

abbrev pub one_if : Bool → ℕ
one_if true = 1
one_if false = 0

unfoldable pub was_silent : Option ℕ → Option ℕ → Bool
was_silent (some announced) (some seen) = ltb (saturating_add announced old_version_grace_secs) seen
was_silent _ _ = false

unfoldable pub silent_since : Option MailboxPair → Option ℕ → Bool
silent_since none seen = false
silent_since (some pair) seen = not (is_some pair.peer) && was_silent pair.announced_at seen

-- `HashSet::remove`
abbrev pub without : Bytes → List Bytes → List Bytes
without contact list = retain (λ id. not (same id contact)) list

-- `apply_announced` of a `MailboxKey`: `now` is the clock's reading.
unfoldable pub told : ℕ → Option MailboxPair → Option MailboxPair
told now none = none
told now (some pair) = some (record pair { announced_at = get_or_insert pair.announced_at now })

-- `AT_CONTACT_CAP`
abbrev pub at_contact_cap : String
at_contact_cap =
    "You have 50 contacts, the most Night Drop allows. Delete a chat to add a new one. The limit keeps a relay from rebuilding your contact list from the mailboxes your device checks."

-- `bail!` under a condition.
unfoldable pub refuse_if : String → Bool → Result {0} Unit
refuse_if e b = if b then fail e else ok tt

module _ {o : Olm} where
  unfoldable pub is_contact : Chat o → Bool
  is_contact chat = chat.authorized && not chat.closed

  unfoldable pub open_contacts : Node o → ℕ
  open_contacts node = total (λ chat. one_if (is_contact chat)) node.chats

  unfoldable pub check_contact_cap : Node o → Bytes → Result {0} Unit
  check_contact_cap node contact = refuse_if at_contact_cap (
      not (is_some_and is_contact (get contact node.chats))
      && leb max_contacts (open_contacts node))

  unfoldable pub peer_on_old_version : Chat o → Bool
  peer_on_old_version chat =
      chat.authorized && not chat.closed && silent_since chat.mailbox chat.last_seen

  -- `Chat::outdated`
  unfoldable pub outdated : Chat o → Bool
  outdated chat = chat.peer_wire_old || is_some_and version_outdated chat.peer_app_version

  unfoldable pub tell : ℕ → Chat o → Chat o
  tell now chat = record chat { mailbox = told now chat.mailbox }

  unfoldable pub tell_at : ℕ → Bytes → Option (Chat o) → Map (Chat o) → Map (Chat o)
  tell_at now contact none chats = chats
  tell_at now contact (some chat) chats = insert contact (tell now chat) chats

  unfoldable pub apply_announced : ℕ → Node o → Bytes → Bool → Node o
  apply_announced now node contact delivered =
      if delivered
      then (record node {
        chats = tell_at now contact (get contact node.chats) node.chats;
        dirty = node.dirty || is_some (and_then (get contact node.chats) (λ chat. chat.mailbox));
      })
      else record node { mailbox_announced = without contact node.mailbox_announced }

  -- `deliver_with` of a `MailboxKey`: to an outdated contact it counts as not sent.
  unfoldable pub deliver_announcement :
      Digests → (now : ℕ) → Node o → Bytes → Chat o → o.Message → Node o
  deliver_announcement h now node contact chat message =
      if is_some_and outdated (get contact node.chats)
      then apply_announced now node contact false
      else (record node {
        outbox =
            node.outbox
            ++ record {
              address = chat.peer_address;
              recipient = contact;
              message = from_olm h o message;
            }
              ∷ [];
      })

module _ (h : Digests) (o : Olm) where
  unfoldable pub deliver_if : (now : ℕ) → Node o → Bytes → Chat o → Option o.Message → Node o
  deliver_if now node contact chat none = node
  deliver_if now node contact chat (some message) =
      deliver_announcement h now node contact chat message

  -- The chat's new state and its frame, taken over by the node.
  unfoldable pub take_over : (now : ℕ) → Node o → Bytes → Sent o → Node o
  take_over now node contact s =
      let stored = record node {
        chats = insert contact s.chat node.chats;
        dirty = node.dirty || s.dirty;
      } in
      deliver_if now stored contact s.chat s.message

  unfoldable pub send_to :
      (now : ℕ) (relays_meet : Bool) (random : Bytes)
      → Node o
      → Bytes
      → Option (Chat o)
      → Node o × Bool
  send_to now relays_meet random node contact none = (node, false)
  send_to now relays_meet random node contact (some chat) =
      let s = send_key h o node.identity_key contact relays_meet random chat in
      (take_over now node contact s, is_some s.message)

  unfoldable pub send_mailbox_key :
      (now : ℕ) (relays_meet : Bool) (random : Bytes) → Node o → Bytes → Node o × Bool
  send_mailbox_key now relays_meet random node contact =
      send_to now relays_meet random node contact (get contact node.chats)

  unfoldable pub hear_from :
      (now : ℕ) (relays_meet : Bool) (random : Bytes)
      → Node o
      → Bytes
      → Option (Chat o)
      → Option o.Message
      → Node o
  hear_from now relays_meet random node contact (some chat) (some message) =
      take_over now node contact
        (on_key h o node.identity_key contact relays_meet random now chat message)
  hear_from now relays_meet random node contact _ _ = node

  unfoldable pub on_mailbox_key :
      (now : ℕ) (relays_meet : Bool) (random : Bytes) → Node o → Bytes → WireOlm → Node o
  on_mailbox_key now relays_meet random node contact message =
      hear_from now relays_meet random node contact (get contact node.chats) (to_olm h o message)

  unfoldable pub has : List Bytes → Bytes → Bool
  has [] contact = false
  has (id ∷ list) contact = same id contact || has list contact

  -- The chats that `announce_mailbox` picks, with the relays between us and each.
  unfoldable pub to_announce : (relays_meet : Bytes → Bool) → Map (Chat o) → List Bytes → List Bytes
  to_announce relays_meet [] announced = []
  to_announce relays_meet ((id, chat) ∷ chats) announced =
      let rest = to_announce relays_meet chats announced in
      if wants_announcement (has announced id) (relays_meet id) chat then id ∷ rest else rest

  -- The flag goes up first, and down again if nothing went out.
  unfoldable pub announce_one :
      (now : ℕ) (relays_meet : Bytes → Bool) (random : Bytes) → Node o → Bytes → Node o
  announce_one now relays_meet random node id =
      let flagged = record node { mailbox_announced = id ∷ node.mailbox_announced } in
      let (sent, went_out) = send_mailbox_key now (relays_meet id) random flagged id in
      if went_out
      then sent
      else record sent { mailbox_announced = without id sent.mailbox_announced }

  unfoldable pub announce_each :
      (now : ℕ) (relays_meet : Bytes → Bool) (random : Bytes → Bytes) → Node o → List Bytes → Node o
  announce_each now relays_meet random node [] = node
  announce_each now relays_meet random node (id ∷ ids) =
      announce_each now relays_meet random (announce_one now relays_meet (random id) node id) ids

  -- `announce_ready` is an argument: whether our address is published, or long enough has passed.
  unfoldable pub announce_mailbox :
      (announce_ready : Bool) (now : ℕ) (relays_meet : Bytes → Bool) (random : Bytes → Bytes)
      → Node o
      → Node o
  announce_mailbox announce_ready now relays_meet random node =
      if announce_ready
      then announce_each now relays_meet random node
          (to_announce relays_meet node.chats node.mailbox_announced)
      else node

  unfoldable pub mailbox_agreed : Node o → Bytes → ℕ → Bool
  mailbox_agreed node contact now = is_some (post_handle h node contact now)

  -- The secret behind a chat's handles, if a cover post may go through it.
  unfoldable pub secret_of : Bytes → Bytes → Chat o → Option Bytes
  secret_of me id chat =
      if is_contact chat
      then and_then chat.mailbox
          (λ pair. map_some (λ peer. pair_secret h me id pair.own peer) pair.peer)
      else none

  abbrev pub with_some : Option Bytes → List Bytes → List Bytes
  with_some none list = list
  with_some (some secret) list = secret ∷ list

  unfoldable pub cover_candidates : Bytes → Map (Chat o) → List Bytes
  cover_candidates me [] = []
  cover_candidates me ((id, chat) ∷ chats) =
      with_some (secret_of me id chat) (cover_candidates me chats)

  -- `unwrap_or_else`
  abbrev pub or_own : Bytes → Option Bytes → Bytes
  or_own own none = own
  or_own own (some secret) = secret

  -- `choose` is rand's choice of one element.
  unfoldable pub cover_handle : (choose : List Bytes → Option Bytes) → Node o → ℕ → Bytes
  cover_handle choose node epoch =
      let picked = choose (cover_candidates node.identity_key node.chats) in
      v2_handle h (or_own (cover_secret h node.poll_seed) picked) node.identity_key epoch
