-- ===== src/Wire/Codec.antt =====
-- Encoding and decoding frames (core/src/wire/mod.rs, `encode_at`, `decode`, `legacy_sender`).
pub mod RoundTrip
use Prim.Native.String.{◌++◌ as append}
use nightdrop.Prelude.{
  Bool, Option, String, if◌then◌else◌, leb, length, none, replicate, some, take, ℕ, ◌%◌, ◌++◌, ◌+◌,
  ◌-◌, ◌==◌, ◌∷◌,
}
use nightdrop.Prelude.Bytes.{Bytes, codes, same}
use nightdrop.Prelude.Result.{Result, ok, fail, ◌>>=◌}
use nightdrop.Wire.Frame.{Frame}
use nightdrop.Wire.Padding.{from_be_bytes, padded_len, to_be_bytes}

-- `Envelope`: the version and the frame.
pub record Envelope : Type 0 where
  pub v : ℕ
  pub f : Frame

-- `serde_json::Value`
mutual
  pub data Value : Type 0 where
    null : Value
    bool : Bool → Value
    num : ℕ → Value
    str : Bytes → Value
    arr : Values → Value
    obj : Fields → Value

  pub data Values : Type 0 where
    nil : Values
    cons : Value → Values → Values

  pub data Fields : Type 0 where
    end : Fields
    field : Bytes → Value → Fields → Fields

-- What the module calls of serde_json: writing an envelope, reading one, and reading any value.
pub record Json : Type 0 where
  pub to_vec : Envelope → Bytes
  pub from_slice : Bytes → Result Envelope
  pub value_from_slice : Bytes → Option Value
  pub show : ℕ → String

field_of : Bytes → Fields → Option Value
field_of k end = none
field_of k (field j v fs) = if same j k then some v else field_of k fs

-- `Value::get`, `as_u64`, `as_str`
unfoldable pub get_field : Bytes → Value → Option Value
unfolding field_of
get_field k (obj fs) = field_of k fs
get_field k _ = none

abbrev pub as_u64 : Value → Option ℕ
as_u64 (num n) = some n
as_u64 _ = none

abbrev pub as_str : Value → Option Bytes
as_str (str s) = some s
as_str _ = none

infixl 5 ◌>>?◌
abbrev pub ◌>>?◌ {ℓ κ} : {A : Type ℓ} {B : Type κ} → Option A → (A → Option B) → Option B
none >>? f = none
some a >>? f = f a

abbrev pub or_else {ℓ} : {A : Type ℓ} → Option A → Option A → Option A
or_else none o = o
or_else (some a) o = some a

abbrev pub wire_version : ℕ
wire_version = 3

abbrev pub legacy_wire_version : ℕ
legacy_wire_version = 2

-- `Vec::resize(n, 0)`
abbrev pub resize : ℕ → Bytes → Bytes
resize n xs = take n xs ++ replicate (n - length xs) 0

-- The prefix is read from four bytes; the rest is the body and its padding.
pub record Prefixed : Type 0 where
  pub len : ℕ
  pub rest : Bytes

unfoldable pub read_prefix : Bytes → Option Prefixed
read_prefix (a ∷ b ∷ c ∷ d ∷ rest) = some (record { len = from_be_bytes a b c d; rest = rest })
read_prefix _ = none

module _ (json : Json) where
  unfoldable pub encode_at : Frame → ℕ → Bytes
  encode_at frame v =
      let body = json.to_vec (record { v = v; f = frame }) in
      resize (padded_len (4 + length body)) (to_be_bytes (length body % 4294967296) ++ body)

  unfoldable pub encode : Frame → Bytes
  unfolding encode_at
  encode frame = encode_at frame wire_version

  unfoldable pub encode_legacy : Frame → Bytes
  unfolding encode_at
  encode_legacy frame = encode_at frame legacy_wire_version

  pub wrong_version : ℕ → String
  wrong_version v = append (append "unsupported wire version " (json.show v)) (
      append (append " (this build speaks v" (json.show wire_version))
        "); the peer is likely on a different app version")

  accept_version : Envelope → Result Frame
  accept_version env = if env.v == wire_version then ok env.f else fail (wrong_version env.v)

  -- `map_err(|e| anyhow!("bad frame: {e}"))`
  bad_frame : Result Envelope → Result Envelope
  bad_frame (ok env) = ok env
  bad_frame (fail e) = fail (append "bad frame: " e)

  decode_prefixed : Option Prefixed → Result Frame
  decode_prefixed none = fail "bad frame: shorter than its length prefix"
  decode_prefixed (some p) =
      if leb p.len (length p.rest)
      then (bad_frame (json.from_slice (take p.len p.rest)) >>= accept_version)
      else fail (append (append "bad frame: length prefix " (json.show p.len)) " exceeds buffer")

  unfoldable pub decode : Bytes → Result Frame
  unfolding decode_prefixed read_prefix accept_version bad_frame
  decode bytes = decode_prefixed (read_prefix bytes)

  -- The `from` of a value's frame, or its `identity_key`, if the version is an older one.
  older_sender : Value → Option Bytes
  older_sender env = (get_field (codes "v") env >>? as_u64) >>? λ v.
      if leb wire_version v
      then none
      else (get_field (codes "f") env >>? λ f.
          or_else (get_field (codes "from") f) (get_field (codes "identity_key") f) >>? as_str)

  unfoldable pub legacy_sender : Bytes → Option Bytes
  unfolding older_sender read_prefix
  legacy_sender bytes = read_prefix bytes >>? λ p.
      if leb p.len (length p.rest)
      then (json.value_from_slice (take p.len p.rest) >>? older_sender)
      else none
