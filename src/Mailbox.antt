-- ===== src/Mailbox.antt =====
-- Mailbox handles of a pair of contacts (core/src/node/mailbox.rs): the pair's state, its secret and
-- the handles derived from it. HKDF, SHA-256 and base64 are third-party code, the fields of `Digests`.
pub mod Pair
pub mod Payload
pub mod Epochs
pub mod State
pub mod Polling
pub mod Agree
pub mod Delivered
pub mod Nodes
use nightdrop.Prelude.{
  Bool, Option, [], false, if◌then◌else◌, is_some, length, ltb, none, some, suc, true, zero, ℕ, ◌%◌,
  ◌&&◌, ◌*◌, ◌++◌, ◌+◌, ◌/◌, ◌==◌, ◌^◌, ◌||◌, ◌∷◌,
}
use nightdrop.Prelude.Bytes.{Bytes, codes}

-- `[u8; N]::try_from`
unfoldable pub exactly : ℕ → Bytes → Option Bytes
exactly n b = if length b == n then some b else none

-- `<=` on byte arrays and strings.
unfoldable pub at_most : Bytes → Bytes → Bool
at_most [] t = true
at_most (a ∷ s) [] = false
at_most (a ∷ s) (b ∷ t) = ltb a b || a == b && at_most s t

-- `u64::to_be_bytes`, and `u32`'s of four bytes.
unfoldable pub be_bytes : ℕ → ℕ → Bytes
be_bytes zero n = []
be_bytes (suc width) n = n / 256 ^ width % 256 ∷ be_bytes width n

-- `u64::from_be_bytes`
unfoldable pub of_be_bytes : ℕ → Bytes → ℕ
of_be_bytes acc [] = acc
of_be_bytes acc (b ∷ bytes) = of_be_bytes (acc * 256 + b) bytes

pub record Digests : Type 0 where
  -- `Hkdf::new(Some(salt), ikm)`, then `expand(info)`, to a number of bytes.
  pub hkdf : Bytes → Bytes → Bytes → ℕ → Bytes
  -- `Hkdf::from_prk(prk)`, then `expand(info)`.
  pub hkdf_from_prk : Bytes → Bytes → ℕ → Bytes
  pub sha256 : Bytes → Bytes
  -- The URL-safe alphabet, without padding.
  pub base64 : Bytes → Bytes
  pub unbase64 : Bytes → Option Bytes

-- One side of the agreement of a chat.
pub record MailboxPair : Type 0 where
  pub own : Bytes
  pub peer : Option Bytes
  pub peer_confirmed : Bool
  pub confirm_sent : Bool
  pub announced_at : Option ℕ

-- `MailboxPair::fresh`, of 32 random bytes.
unfoldable pub fresh_pair : Bytes → MailboxPair
fresh_pair random = record {
  own = random;
  peer = none;
  peer_confirmed = false;
  confirm_sent = false;
  announced_at = none;
}

-- `MailboxPair::seeded`
unfoldable pub seeded : Bytes → MailboxPair
seeded seed = record {
  own = seed;
  peer = some seed;
  peer_confirmed = true;
  confirm_sent = true;
  announced_at = none;
}

-- The fields of a `PersistedChat` that hold the agreement.
pub record PersistedPair : Type 0 where
  pub own : Option Bytes
  pub peer : Option Bytes
  pub peer_confirmed : Bool
  pub confirm_sent : Bool
  pub announced_at : Option ℕ

-- `Option::and_then`
abbrev pub and_then : {A B : Type 0} → Option A → (A → Option B) → Option B
and_then none f = none
and_then (some a) f = f a

-- `Option::map`
abbrev pub map_some : {A B : Type 0} → (A → B) → Option A → Option B
map_some f none = none
map_some f (some a) = some (f a)

-- The smaller of two byte strings first.
unfoldable pub ordered : Bytes → Bytes → Bytes × Bytes
ordered a b = if at_most a b then (a, b) else (b, a)

module _ (h : Digests) where
  unfoldable pub unb64_32 : Bytes → Option Bytes
  unb64_32 s = and_then (h.unbase64 s) (exactly 32)

  abbrev pub pair_of : PersistedPair → Bytes → Option Bytes → MailboxPair
  pair_of chat own peer = record {
    own = own;
    peer = peer;
    peer_confirmed = is_some peer && chat.peer_confirmed;
    confirm_sent = is_some peer && chat.confirm_sent;
    announced_at = chat.announced_at;
  }

  unfoldable pub from_persisted : PersistedPair → Option MailboxPair
  from_persisted chat =
      map_some (λ own. pair_of chat own (and_then chat.peer unb64_32)) (and_then chat.own unb64_32)

  unfoldable pub to_persisted : Option MailboxPair → PersistedPair
  to_persisted none = record {
    own = none;
    peer = none;
    peer_confirmed = false;
    confirm_sent = false;
    announced_at = none;
  }
  to_persisted (some p) = record {
    own = some (h.base64 p.own);
    peer = map_some h.base64 p.peer;
    peer_confirmed = p.peer_confirmed;
    confirm_sent = p.confirm_sent;
    announced_at = p.announced_at;
  }

  unfoldable pub pair_secret : Bytes → Bytes → Bytes → Bytes → Bytes
  pair_secret a_ik b_ik own peer =
      let ikm = (ordered own peer).0 ++ (ordered own peer).1 in
      let info = (ordered a_ik b_ik).0 ++ 0 ∷ (ordered a_ik b_ik).1 in
      h.hkdf (codes "nightdrop/mailbox/v2/pair") ikm info 32

  unfoldable pub confirm_hash : Bytes → Bytes
  confirm_hash secret = h.sha256 (codes "nightdrop/mailbox/v2/confirm" ++ secret)

  unfoldable pub v2_handle : Bytes → Bytes → ℕ → Bytes
  v2_handle secret recipient_ik epoch =
      let info = codes "nightdrop/mailbox/v2" ++ recipient_ik ++ be_bytes 8 epoch in
      codes "mbx:" ++ h.base64 (h.hkdf_from_prk secret info 15)
