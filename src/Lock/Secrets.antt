-- ===== src/Lock/Secrets.antt =====
-- Setting and clearing the secrets (core/src/storage/lock.rs, `set_passphrase` to `clear_duress`,
-- `clear`, `destroy`).
use nightdrop.Lock.Files.{Dir, LockV2, Platform, format_v, read, write, write_bytes, Done}
use nightdrop.Lock.Slots.{
  Crypto, Draw, decoy_slot, m_cost_kib, open_sealed, p_cost, seal_armed, t_cost, to_option,
  try_slot, wrap_slot, Slot,
}
use nightdrop.Lock.Unlock.{Opened, World, duress, unlock, unlock_normal}
use nightdrop.Prelude.{Bool, Option, if◌then◌else◌, false, is_some, none, some, true, [], ◌∷◌}
use nightdrop.Prelude.Bytes.{Bytes, same}
use nightdrop.Prelude.Result.{or_fail, Result, ok, fail, ◌>>=◌}

-- What a change of the secrets reads of the world: the draws of its new slots and of the armed flag,
-- whether the lock file can be written, put back and removed, and what its own `unlock` reads.
pub record Change : Type 0 where
  pub wrap : Draw
  pub decoy : Draw
  pub armed_nonce : Bytes
  pub can_write : Bool
  pub can_restore : Bool
  pub can_remove : Bool
  pub world : World

abbrev pub is_empty : Bytes → Bool
is_empty [] = true
is_empty (_ ∷ _) = false

abbrev pub write_lock : Platform → Bool → Result LockV2 → Dir → Done × Dir
write_lock p succeeds (fail e) d = (fail e, d)
write_lock p succeeds (ok lock) d = write p succeeds lock d

abbrev pub new_lock : Platform → Change → Bytes → Bytes → Result LockV2
new_lock p c key passphrase = wrap_slot p.crypto c.wrap key passphrase >>= λ normal.
    decoy_slot p.crypto c.decoy >>= λ decoy.
    seal_armed p.crypto c.armed_nonce key false >>= λ armed. ok (record {
      v = format_v;
      m_cost_kib = m_cost_kib;
      t_cost = t_cost;
      p_cost = p_cost;
      normal = normal;
      duress = decoy;
      armed = armed;
    })

unfoldable pub set_passphrase : Platform → Change → Dir → Bytes → Bytes → Done × Dir
set_passphrase p c d key passphrase =
    if is_empty passphrase
    then (fail "passphrase must not be empty", d)
    else write_lock p c.can_write (new_lock p c key passphrase) d

-- Whether the flag, decoded, opens to the one byte 1.
abbrev pub reads_armed : Crypto → Bytes → Option Bytes → Bool
reads_armed c key none = false
reads_armed c key (some blob) = elim (to_option (open_sealed c key blob)) [
  | none ↦ false
  | some plain ↦ same plain (1 ∷ [])
]

abbrev pub armed_of : Platform → Bytes → Result LockV2 → Bool
armed_of p key (fail e) = false
armed_of p key (ok lock) = reads_armed p.crypto key (p.crypto.b64_decode lock.armed)

unfoldable pub duress_armed : Platform → Draw → Dir → Bytes → Bool
duress_armed p r d key = armed_of p key (read p r d)

-- `try_slot` of the normal slot, with the lock's own costs.
abbrev pub normal_key : Platform → LockV2 → Bytes → Option Bytes
normal_key p lock secret =
    try_slot p.crypto lock.normal secret lock.m_cost_kib lock.t_cost lock.p_cost

-- The lock with its duress slot replaced.
abbrev pub with_duress : Platform → Change → Bool → Bytes → Result Slot → LockV2 → Result LockV2
with_duress p c armed key slot lock = slot >>= λ new_slot.
    seal_armed p.crypto c.armed_nonce key armed >>= λ flag.
    ok (record lock { duress = new_slot; armed = flag; v = format_v })

abbrev pub arm : Platform → Change → Bytes → Bytes → LockV2 → Result LockV2
arm p c passphrase secret lock =
    or_fail "wrong passphrase" (normal_key p lock passphrase) >>= λ key.
    if is_some (normal_key p lock secret)
    then fail "the duress secret must be different from the normal one"
    else with_duress p c true key (wrap_slot p.crypto c.wrap c.wrap.filler secret) lock

abbrev pub is_duress : Result Opened → Bool
is_duress (ok duress) = true
is_duress _ = false

abbrev pub restore : Change → Option Bytes → Dir → Done × Dir
restore c none d = (ok tt, d)
restore c (some bytes) d = write_bytes c.can_restore bytes d

-- After the write: the self-check, and the previous file put back when it fails.
unfoldable pub check_armed : Platform → Change → Option Bytes → Bytes → Done × Dir → Done × Dir
check_armed p c previous secret (fail e, d) = (fail e, d)
check_armed p c previous secret (ok _, d) =
    let (opened, after) = unlock p c.world d secret in
    let (restored, back) = restore c previous after in
    if is_duress opened
    then (ok tt, after)
    else (restored >>= λ _. fail "could not arm the duress secret", back)

unfoldable pub set_duress : Platform → Change → Dir → Bytes → Bytes → Done × Dir
set_duress p c d passphrase secret =
    if is_empty secret
    then (fail "duress secret must not be empty", d)
    else check_armed p c d.lock secret
        (write_lock p c.can_write (read p c.decoy d >>= arm p c passphrase secret) d)

abbrev pub disarm : Platform → Change → Bytes → LockV2 → Result LockV2
disarm p c passphrase lock = or_fail "wrong passphrase" (normal_key p lock passphrase) >>= λ key.
    with_duress p c false key (decoy_slot p.crypto c.wrap) lock

unfoldable pub clear_duress : Platform → Change → Dir → Bytes → Done × Dir
clear_duress p c d passphrase =
    write_lock p c.can_write (read p c.decoy d >>= disarm p c passphrase) d

abbrev pub remove : Bool → Dir → Done × Dir
remove succeeds d =
    if succeeds then (ok tt, record d { lock = none }) else (fail "remove failed", d)

abbrev pub removed : Bool → Result Bytes × Dir → Result Bytes × Dir
removed succeeds (fail e, d) = (fail e, d)
removed succeeds (ok key, d) =
    let (done, after) = remove succeeds d in (done >>= λ _. ok key, after)

unfoldable pub clear : Platform → Change → Dir → Bytes → Result Bytes × Dir
clear p c d passphrase = removed c.can_remove (unlock_normal p c.world d passphrase)

-- A lock file that is not there counts as removed.
unfoldable pub destroy : Change → Dir → Done × Dir
destroy c d = if is_some d.lock then remove c.can_remove d else (ok tt, d)
