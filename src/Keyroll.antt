-- ===== src/Keyroll.antt =====
-- Rotating a signing key (core/src/keyroll.rs). Texts are lists of code points. ed25519 and base64 are
-- third-party code, the fields of `Signatures`.
pub mod Message
pub mod Trimmed
pub mod Rotations
pub mod Signed
pub mod Moved
use nightdrop.Prelude.{
  Bool, Option, [], false, if◌then◌else◌, leb, length, ltb, none, some, suc, zero, ℕ, ◌%◌, ◌&&◌,
  ◌++◌, ◌+◌, ◌/◌, ◌==◌, ◌||◌, ◌∷◌,
}
use nightdrop.Prelude.Bytes.{Bytes, codes, same}

pub record Signatures : Type 0 where
  -- The standard alphabet, with padding.
  pub encode : Bytes → Bytes
  pub decode : Bytes → Option Bytes
  -- `VerifyingKey::from_bytes` accepts these bytes.
  pub is_key : Bytes → Bool
  -- `verify_strict` with a key, of a message and its signature.
  pub verify_strict : Bytes → Bytes → Bytes → Bool
  pub sign : Bytes → Bytes → Bytes
  pub public_of : Bytes → Bytes

pub data Purpose : Type 0 where
  update directory : Purpose

unfoldable pub label : Purpose → Bytes
label update = codes "update"
label directory = codes "directory"

-- `Purpose::parse`
unfoldable pub parse_purpose : Bytes → Option Purpose
parse_purpose s =
    if same s (codes "update")
    then some update
    else if same s (codes "directory")
    then some directory
    else none

pub record Roots : Type 0 where
  pub purpose : Purpose
  pub signing : Bytes
  pub recovery : Bytes

pub record Rotation : Type 0 where
  pub seq : ℕ
  pub key : Bytes
  pub sig : Bytes

pub record Trust : Type 0 where
  pub seq : ℕ
  pub key : Bytes
  pub sig : Bytes

-- `char::is_whitespace`
unfoldable pub is_whitespace : ℕ → Bool
is_whitespace c =
    leb 9 c && leb c 13
    || c == 32
    || c == 133
    || c == 160
    || c == 5760
    || leb 8192 c && leb c 8202
    || c == 8232
    || c == 8233
    || c == 8239
    || c == 8287
    || c == 12288

unfoldable pub trim_start : Bytes → Bytes
trim_start [] = []
trim_start (c ∷ s) = let rest = trim_start s in if is_whitespace c then rest else c ∷ s

unfoldable pub cons_unless_blank : ℕ → Bytes → Bytes
cons_unless_blank c [] = if is_whitespace c then [] else c ∷ []
cons_unless_blank c (d ∷ s) = c ∷ d ∷ s

unfoldable pub trim_end : Bytes → Bytes
trim_end [] = []
trim_end (c ∷ s) = cons_unless_blank c (trim_end s)

-- `str::trim`
unfoldable pub trim : Bytes → Bytes
trim s = trim_end (trim_start s)

-- The decimal digits of a number of at most `fuel + 1` digits.
unfoldable pub decimal : ℕ → ℕ → Bytes
decimal zero n = (48 + n % 10) ∷ []
decimal (suc fuel) n =
    let rest = decimal fuel (n / 10) in
    if ltb n 10 then (48 + n) ∷ [] else rest ++ (48 + n % 10) ∷ []

-- The largest u64 has twenty digits.
unfoldable pub message : Purpose → ℕ → Bytes → Bytes
message purpose seq key_b64 =
    codes "nightdrop/key-rotation/v1"
    ++ (10 ∷ (label purpose ++ (10 ∷ (decimal 19 seq ++ (10 ∷ key_b64)))))

-- `try_into` an array of this length.
unfoldable pub array_of : ℕ → Bytes → Option Bytes
array_of n bytes = if length bytes == n then some bytes else none

abbrev pub bind : {A B : Type 0} → Option A → (A → Option B) → Option B
bind none f = none
bind (some a) f = f a

module _ (e : Signatures) where
  unfoldable pub encode_key : Bytes → Bytes
  encode_key key = e.encode key

  unfoldable pub decode_key : Bytes → Option Bytes
  decode_key b64 = bind (e.decode (trim b64)) (array_of 32)

  unfoldable pub verify_sig : Roots → Rotation → Option Bytes → Bool
  verify_sig roots r none = false
  verify_sig roots r (some sig) =
      e.verify_strict roots.recovery (message roots.purpose r.seq (trim r.key)) sig

  unfoldable pub verify_rotation : Roots → Rotation → Bool
  verify_rotation roots r =
      if e.is_key roots.recovery
      then verify_sig roots r (bind (e.decode (trim r.sig)) (array_of 64))
      else false

  abbrev pub as_rotation : Trust → Rotation
  as_rotation t = record { seq = t.seq; key = t.key; sig = t.sig }

  -- A key with its sequence number, unless it is the first.
  unfoldable pub from_trust : Roots → ℕ → Option Bytes → ℕ × Bytes
  from_trust roots seq none = (0, roots.signing)
  from_trust roots seq (some key) = if ltb 0 seq then (seq, key) else (0, roots.signing)

  -- What is trusted before the rotation: the learned key, if its rotation verifies.
  unfoldable pub trusted : Roots → Option Trust → ℕ × Bytes
  trusted roots none = (0, roots.signing)
  trusted roots (some t) =
      if verify_rotation roots (as_rotation t)
      then from_trust roots t.seq (decode_key t.key)
      else (0, roots.signing)

  unfoldable pub move_to : Rotation → Bytes → Option Bytes → Bytes × Option Trust
  move_to r key none = (key, none)
  move_to r key (some new) =
      (new, some (record { seq = r.seq; key = trim r.key; sig = trim r.sig }))

  unfoldable pub advance : Roots → ℕ × Bytes → Option Rotation → Bytes × Option Trust
  advance roots (seq, key) none = (key, none)
  advance roots (seq, key) (some r) =
      if ltb seq r.seq && verify_rotation roots r
      then move_to r key (decode_key r.key)
      else (key, none)

  unfoldable pub current_key : Roots → Option Trust → Option Rotation → Bytes × Option Trust
  current_key roots learned rotation = advance roots (trusted roots learned) rotation

  unfoldable pub signed_by : Purpose → ℕ → Bytes → Bytes → Rotation
  signed_by purpose seq new_key_b64 secret = record {
    seq = seq;
    key = trim new_key_b64;
    sig = e.encode (e.sign secret (message purpose seq (trim new_key_b64)));
  }

  unfoldable pub sign_rotation : Bytes → Purpose → ℕ → Bytes → Option Rotation
  sign_rotation recovery_secret_b64 purpose seq new_key_b64 =
      bind (bind (e.decode (trim recovery_secret_b64)) (array_of 32)) (λ secret.
        bind (decode_key new_key_b64) (λ _. some (signed_by purpose seq new_key_b64 secret)))
