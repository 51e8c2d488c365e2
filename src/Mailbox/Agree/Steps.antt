-- ===== src/Mailbox/Agree/Steps.antt =====
-- The two sides of one chat, in any interleaving (core/src/node/mailbox.rs): frames may be delivered
-- late, twice, out of order or never, and each side may come back from an older backup.
use nightdrop.Mailbox.{Digests, MailboxPair}
use nightdrop.Mailbox.Agree.{Sent, heard, on_key, payload_of, send_key}
use nightdrop.Mailbox.State.{Chat, Olm}
use nightdrop.Prelude.{Any, Bool, List, Option, [], none, some, ℕ, ◌++◌, ◌∷◌, ◌≡◌}
use nightdrop.Prelude.Bytes.{Bytes}

-- One side: its chat, the states with which a frame of it went out, and its backups.
pub record Side (o : Olm) : Type 0 where
  pub chat : Chat o
  pub said : List MailboxPair
  pub backups : List (Option MailboxPair)

unfoldable pub saying : (o : Olm) → Option o.Message → Option MailboxPair → List MailboxPair
saying o none mailbox = []
saying o (some message) none = []
saying o (some message) (some pair) = pair ∷ []

-- What a handler did, taken over by the side.
unfoldable pub after : (o : Olm) → Side o → Sent o → Side o
after o side s = record side {
  chat = s.chat;
  said = saying o s.message s.chat.mailbox ++ side.said;
}

module _ (h : Digests) (o : Olm) (Drawn : Bytes → Type 0) where
  -- A ciphertext opens to what the peer sealed with one of its states, or not at all.
  abbrev pub IsAuthentic : (me contact : Bytes) → List MailboxPair → Option Bytes → Type 0
  IsAuthentic me contact heard none = Unit
  IsAuthentic me contact heard (some plain) = Any (λ q. plain ≡ payload_of h o contact me q) heard

  -- A step of the side `me`, whose contact has sent with the states `heard`.
  pub data SideStep (me contact : Bytes) (heard : List MailboxPair) (side : Side o)
      : Side o → Type 0 where
    announce :
        (relays_meet : Bool) (random : Bytes)
        → Drawn random
        → SideStep me contact heard side
            (after o side (send_key h o me contact relays_meet random side.chat))
    deliver :
        (relays_meet : Bool) (random : Bytes) (now : ℕ) (message : o.Message)
        → Drawn random
        → IsAuthentic me contact heard (o.decrypt side.chat.session message).0
        → SideStep me contact heard side
            (after o side (on_key h o me contact relays_meet random now side.chat message))
    back_up :
        SideStep me contact heard side (record side { backups = side.chat.mailbox ∷ side.backups })
    come_back :
        (chat : Chat o)
        → Any (λ b. chat.mailbox ≡ b) side.backups
        → SideStep me contact heard side (record side { chat = chat })
    -- Whatever else the program does with the chat.
    other :
        (chat : Chat o)
        → chat.mailbox ≡ side.chat.mailbox
        → SideStep me contact heard side (record side { chat = chat })

  pub data WorldStep (a_ik b_ik : Bytes) : Side o × Side o → Side o × Side o → Type 0 where
    left : (a b a' : Side o) → SideStep a_ik b_ik b.said a a' → WorldStep a_ik b_ik (a, b) (a', b)
    right : (a b b' : Side o) → SideStep b_ik a_ik a.said b b' → WorldStep a_ik b_ik (a, b) (a, b')

  pub data Runs (a_ik b_ik : Bytes) (start : Side o × Side o) : Side o × Side o → Type 0 where
    begins : Runs a_ik b_ik start start
    goes_on :
        {w v : Side o × Side o}
        → Runs a_ik b_ik start w
        → WorldStep a_ik b_ik w v
        → Runs a_ik b_ik start v

  -- A side that has never announced.
  abbrev pub IsNew : Side o → Type 0
  IsNew side = (side.chat.mailbox ≡ none) × (side.said ≡ []) × (side.backups ≡ [])
