-- ===== src/Mailbox/State.antt =====
-- A chat and a node, as far as the mailboxes of the pairs read and change them (core/src/node.rs,
-- `Chat`, `Chat::mark_alive`, `Node`; core/src/wire/mod.rs, `WireOlm`). vodozemac's sessions are
-- third-party code, the fields of `Olm`.
use nightdrop.Mailbox.{Digests, MailboxPair, and_then}
use nightdrop.Prelude.{
  Bool, List, Option, [], false, if◌then◌else◌, leb, ltb, none, not, retain, some, ℕ, ◌&&◌, ◌*◌,
  ◌+◌, ◌-◌, ◌==◌, ◌^◌, ◌||◌, ◌∷◌,
}
use nightdrop.Prelude.Bytes.{Bytes, codes, same}
use nightdrop.Prelude.Map.{Map}
use nightdrop.Wire.Frame.{WireOlm}

pub record Olm : Type 1 where
  pub Session : Type 0
  pub Message : Type 0
  -- Both advance the session.
  pub encrypt : Session → Bytes → Option Message × Session
  pub decrypt : Session → Message → Option Bytes × Session
  pub to_parts : Message → ℕ × Bytes
  pub from_parts : ℕ → Bytes → Option Message

-- `WireOlm::from_olm`
unfoldable pub from_olm : (h : Digests) (o : Olm) → o.Message → WireOlm
from_olm h o message = record {
  message_type = (o.to_parts message).0;
  body = h.base64 (o.to_parts message).1;
}

-- `WireOlm::to_olm`
unfoldable pub to_olm : (h : Digests) (o : Olm) → WireOlm → Option o.Message
to_olm h o w = and_then (h.unbase64 w.body) (o.from_parts w.message_type)

-- The fields of a message that are read here.
pub record ChatMessage : Type 0 where
  pub system : Bool
  pub text : Bytes

pub record Chat (o : Olm) : Type 0 where
  pub session : o.Session
  pub peer_address : Bytes
  pub authorized : Bool
  pub closed : Bool
  pub mailbox : Option MailboxPair
  pub last_seen : Option ℕ
  pub alive_count : ℕ
  pub peer_wire_old : Bool
  pub peer_app_version : Option Bytes
  pub told_upgrade : Bool
  pub history : List ChatMessage

-- `str::parse::<u32>`: a plus sign, if any, then digits.
unfoldable pub parse_digits : ℕ → Bytes → Option ℕ
parse_digits acc [] = some acc
parse_digits acc (b ∷ s) =
    let rest = parse_digits (acc * 10 + (b - b'0')) s in
    if leb b'0' b && leb b b'9' && ltb (acc * 10 + (b - b'0')) (2 ^ 32) then rest else none

unfoldable pub parse_u32 : Bytes → Option ℕ
parse_u32 [] = none
parse_u32 (b ∷ []) = if b == b'+' then none else parse_digits 0 (b ∷ [])
parse_u32 (b ∷ c ∷ s) = if b == b'+' then parse_digits 0 (c ∷ s) else parse_digits 0 (b ∷ c ∷ s)

-- `unwrap_or(0)`
abbrev pub or_zero : Option ℕ → ℕ
or_zero none = 0
or_zero (some n) = n

-- `split('.')`: the part before the first dot, and what follows it, if there is a dot.
unfoldable pub split_dot : Bytes → Bytes × Option Bytes
split_dot [] = ([], none)
split_dot (b ∷ s) =
    let rest = split_dot s in if b == b'.' then ([], some s) else (b ∷ rest.0, rest.1)

unfoldable pub minor_of : Option Bytes → ℕ
minor_of none = 0
minor_of (some rest) = or_zero (parse_u32 (split_dot rest).0)

-- `version_outdated`: before 0.2.
unfoldable pub version_outdated : Bytes → Bool
version_outdated version =
    let major = or_zero (parse_u32 (split_dot version).0) in
    let minor = minor_of (split_dot version).1 in ltb major 0 || major == 0 && ltb minor 2

-- The text of `UPGRADE_NOTE_TEXT`, which is only compared.
abbrev pub upgrade_note_text : Bytes
upgrade_note_text =
    codes
      "🔄 Their app is too old to read your messages, so Night Drop sent them a message saying you've updated and asking them to update too."

unfoldable pub forget_outdated : Option Bytes → Option Bytes
forget_outdated none = none
forget_outdated (some version) = if version_outdated version then none else some version

-- `Chat::forget_upgrade_notice`
unfoldable pub forget_upgrade_notice : {o : Olm} → Chat o → Chat o
forget_upgrade_notice chat =
    if chat.told_upgrade
    then record chat {
      told_upgrade = false;
      history = retain (λ m. not (m.system && same m.text upgrade_note_text)) chat.history;
    }
    else chat

-- `Chat::mark_alive`
unfoldable pub mark_alive : {o : Olm} → ℕ → Chat o → Chat o
mark_alive now chat = forget_upgrade_notice (record chat {
  last_seen = some now;
  alive_count = chat.alive_count + 1;
  peer_wire_old = false;
  peer_app_version = forget_outdated chat.peer_app_version;
})

-- A frame handed to the transport for one contact, `deliver_with`.
pub record Outgoing : Type 0 where
  pub address : Bytes
  pub recipient : Bytes
  pub message : WireOlm

pub record Node (o : Olm) : Type 0 where
  pub identity_key : Bytes
  pub poll_seed : Bytes
  pub prev_epoch_drained : Option ℕ
  pub chats : Map (Chat o)
  pub mailbox_announced : List Bytes
  pub outbox : List Outgoing
  pub dirty : Bool
