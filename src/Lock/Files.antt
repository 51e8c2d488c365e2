-- ===== src/Lock/Files.antt =====
-- The lock file (core/src/storage/lock.rs, `read`, `write`, `write_bytes`).
use nightdrop.Lock.Attempts.{AttemptsJson}
use nightdrop.Lock.Slots.{Crypto, Draw, Slot, decoy_slot, ◌>>?◌}
use nightdrop.Prelude.{Bool, Option, String, if◌then◌else◌, is_some, none, some, ℕ, [], ◌==◌}
use nightdrop.Prelude.Bytes.{Bytes, codes}
use nightdrop.Prelude.Result.{or_fail, Result, ok, fail, ◌>>=◌}
use nightdrop.Wire.Codec.{Value, as_u64, get_field}

-- Format 2: a normal slot and a duress slot, and the sealed flag that says which the second is.
pub record LockV2 : Type 0 where
  pub v : ℕ
  pub m_cost_kib : ℕ
  pub t_cost : ℕ
  pub p_cost : ℕ
  pub normal : Slot
  pub duress : Slot
  pub armed : Bytes

-- Format 1: one slot, its fields inline.
pub record LockV1 : Type 0 where
  pub salt : Bytes
  pub m_cost_kib : ℕ
  pub t_cost : ℕ
  pub p_cost : ℕ
  pub wrapped : Bytes

abbrev pub format_v : ℕ
format_v = 2

-- What the module calls of other crates: the ciphers, serde_json, and the printing of numbers.
pub record Platform : Type 0 where
  pub crypto : Crypto
  pub attempts : AttemptsJson
  pub to_vec : LockV2 → Result Bytes
  pub value_from_slice : Bytes → Option Value
  pub v1_from_value : Value → Option LockV1
  pub v2_from_value : Value → Option LockV2
  pub show : ℕ → String

-- The two files of the directory.
pub record Dir : Type 0 where
  pub lock : Option Bytes
  pub attempts : Option Bytes

abbrev pub upgrade : LockV1 → Slot → LockV2
upgrade old decoy = record {
  v = 1;
  m_cost_kib = old.m_cost_kib;
  t_cost = old.t_cost;
  p_cost = old.p_cost;
  normal = record { salt = old.salt; wrapped = old.wrapped };
  duress = decoy;
  armed = [];
}

abbrev pub read_v1 : Platform → Draw → Value → Result LockV2
read_v1 p r value = or_fail "lock file is unreadable" (p.v1_from_value value) >>= λ old.
    decoy_slot p.crypto r >>= λ decoy. ok (upgrade old decoy)

-- The `match` on the version.
abbrev pub by_version : Platform → Draw → Value → Option ℕ → Result LockV2
by_version p r value none = fail "lock file was written by a newer version of the app"
by_version p r value (some n) =
    if n == 1
    then read_v1 p r value
    else if n == 2
    then or_fail "lock file is unreadable" (p.v2_from_value value)
    else fail "lock file was written by a newer version of the app"

unfoldable pub read_value : Platform → Draw → Value → Result LockV2
read_value p r value = by_version p r value (get_field (codes "v") value >>? as_u64)

unfoldable pub read : Platform → Draw → Dir → Result LockV2
read p r d = or_fail "this store is not locked" d.lock >>= λ raw.
    or_fail "lock file is unreadable" (p.value_from_slice raw) >>= λ value. read_value p r value

-- `Result<()>`
abbrev pub Done : Type 0
Done = Result Unit

-- `write_bytes`: an atomic replacement, which succeeds or leaves the file as it was.
unfoldable pub write_bytes : Bool → Bytes → Dir → Done × Dir
write_bytes succeeds bytes d =
    if succeeds then (ok tt, record d { lock = some bytes }) else (fail "write failed", d)

abbrev pub written : Bool → Result Bytes → Dir → Done × Dir
written succeeds (fail e) d = (fail e, d)
written succeeds (ok bytes) d = write_bytes succeeds bytes d

unfoldable pub write : Platform → Bool → LockV2 → Dir → Done × Dir
write p succeeds lock d = written succeeds (p.to_vec lock) d

abbrev pub is_locked : Dir → Bool
is_locked d = is_some d.lock
