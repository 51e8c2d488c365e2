-- ===== src/Lock/Slots.antt =====
-- Keys, seals and slots (core/src/storage/lock.rs, core/src/storage/mod.rs); `open_sealed` is `open`.
use nightdrop.Prelude.{
  Bool, Option, if◌then◌else◌, leb, length, ltb, none, some, take, drop, ℕ, ◌&&◌, ◌*◌, ◌++◌, ◌==◌,
  [], ◌∷◌,
}
use nightdrop.Prelude.Bytes.{Bytes}
use nightdrop.Prelude.Result.{or_fail, Result, ok, fail, ◌>>=◌}

-- What the module calls of argon2, chacha20poly1305 and base64.
pub record Crypto : Type 0 where
  pub argon2id : Bytes → Bytes → ℕ → ℕ → ℕ → Result Bytes
  pub encrypt : Bytes → Bytes → Bytes → Option Bytes
  pub decrypt : Bytes → Bytes → Bytes → Option Bytes
  pub b64_encode : Bytes → Bytes
  pub b64_decode : Bytes → Option Bytes

-- `M_COST_KIB`, `T_COST`, `P_COST`, and the largest costs that a lock file may ask for.
abbrev pub m_cost_kib : ℕ
m_cost_kib = 64 * 1024

abbrev pub t_cost : ℕ
t_cost = 3

abbrev pub p_cost : ℕ
p_cost = 1

abbrev pub max_m_cost_kib : ℕ
max_m_cost_kib = 1024 * 1024

abbrev pub max_t_cost : ℕ
max_t_cost = 16

abbrev pub max_p_cost : ℕ
max_p_cost = 8

abbrev pub nonce_len : ℕ
nonce_len = 12

-- A wrapped key with its salt, both in base64.
pub record Slot : Type 0 where
  pub salt : Bytes
  pub wrapped : Bytes

-- What the random generator gives to a fresh slot. Only a decoy uses its own key and filler.
pub record Draw : Type 0 where
  pub salt : Bytes
  pub kek : Bytes
  pub filler : Bytes
  pub nonce : Bytes

unfoldable pub seal : Crypto → Bytes → Bytes → Bytes → Result Bytes
seal c nonce key plaintext =
    or_fail "seal failed" (c.encrypt key nonce plaintext) >>= λ ciphertext. ok (nonce ++ ciphertext)

unfoldable pub open_sealed : Crypto → Bytes → Bytes → Result Bytes
open_sealed c key blob =
    if ltb (length blob) nonce_len
    then fail "blob too short"
    else or_fail "decrypt failed: wrong key or corrupt store"
        (c.decrypt key (take nonce_len blob) (drop nonce_len blob))

unfoldable pub derive : Crypto → Bytes → Bytes → ℕ → ℕ → ℕ → Result Bytes
derive c secret salt m t p =
    if leb m max_m_cost_kib && leb t max_t_cost && leb p max_p_cost
    then c.argon2id secret salt m t p
    else fail "lock file is unreadable"

unfoldable pub decoy_slot : Crypto → Draw → Result Slot
decoy_slot c r = seal c r.nonce r.kek r.filler >>= λ blob.
    ok (record { salt = c.b64_encode r.salt; wrapped = c.b64_encode blob })

unfoldable pub seal_armed : Crypto → Bytes → Bytes → Bool → Result Bytes
seal_armed c nonce key armed =
    seal c nonce key ((if armed then 1 else 0) ∷ []) >>= λ blob. ok (c.b64_encode blob)

unfoldable pub wrap_slot : Crypto → Draw → Bytes → Bytes → Result Slot
wrap_slot c r key secret = derive c secret r.salt m_cost_kib t_cost p_cost >>= λ kek.
    seal c r.nonce kek key >>= λ blob.
    ok (record { salt = c.b64_encode r.salt; wrapped = c.b64_encode blob })

-- `try_into` of a plaintext that is to be a `StoreKey`.
abbrev pub store_key : Bytes → Option Bytes
store_key plain = if length plain == 32 then some plain else none

abbrev pub to_option {ℓ} : {A : Type ℓ} → Result A → Option A
to_option (ok a) = some a
to_option (fail e) = none

infixl 5 ◌>>?◌
abbrev pub ◌>>?◌ {ℓ κ} : {A : Type ℓ} {B : Type κ} → Option A → (A → Option B) → Option B
none >>? f = none
some a >>? f = f a

unfoldable pub try_slot : Crypto → Slot → Bytes → ℕ → ℕ → ℕ → Option Bytes
try_slot c slot secret m t p = c.b64_decode slot.salt >>? λ salt.
    to_option (derive c secret salt m t p) >>? λ kek.
    c.b64_decode slot.wrapped >>? λ wrapped. to_option (open_sealed c kek wrapped) >>? store_key
