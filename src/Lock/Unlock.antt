-- ===== src/Lock/Unlock.antt =====
-- Trying a secret (core/src/storage/lock.rs, `unlock`, `unlock_normal`, `is_normal_secret`).
use Prim.Native.String.{◌++◌ as append}
use nightdrop.Lock.Attempts.{note_failure, read_attempts, wait_secs}
use nightdrop.Lock.Files.{Platform, Dir, LockV2, read}
use nightdrop.Lock.Slots.{Draw, try_slot}
use nightdrop.Prelude.{Bool, Option, if◌then◌else◌, none, some, ltb, ℕ}
use nightdrop.Prelude.Bytes.{Bytes}
use nightdrop.Prelude.Result.{Result, ok, fail, ◌>>=◌}

pub data Opened : Type 0 where
  normal : Bytes → Opened
  duress : Opened

-- What one call reads of the world: the clock, twice when it is called and
-- once when it fails, the draws of a
-- decoy, and whether the attempts file can be changed.
pub record World : Type 0 where
  pub now : ℕ
  pub again : ℕ
  pub noted : ℕ
  pub draw : Draw
  pub attempts_change : Bool

abbrev pub forget_attempts : World → Dir → Dir
forget_attempts w d = if w.attempts_change then record d { attempts = none } else d

abbrev pub fail_attempt : Platform → World → Dir → Dir
fail_attempt p w d =
    if w.attempts_change
    then record d { attempts = note_failure p.attempts w.noted d.attempts }
    else d

-- The `match` on the two slots.
unfoldable pub settle : Platform → World → Dir → Option Bytes → Option Bytes → Result Opened × Dir
settle p w d (some key) _ = (ok (normal key), forget_attempts w d)
settle p w d none (some _) = (ok duress, forget_attempts w d)
settle p w d none none = (fail "wrong passphrase", fail_attempt p w d)

abbrev pub try_slots : Platform → World → Dir → Bytes → LockV2 → Result Opened × Dir
try_slots p w d secret lock =
    settle p w d (try_slot p.crypto lock.normal secret lock.m_cost_kib lock.t_cost lock.p_cost)
      (try_slot p.crypto lock.duress secret lock.m_cost_kib lock.t_cost lock.p_cost)

abbrev pub with_lock : Platform → World → Dir → Bytes → Result LockV2 → Result Opened × Dir
with_lock p w d secret (fail e) = (fail e, d)
with_lock p w d secret (ok lock) = try_slots p w d secret lock

unfoldable pub unlock : Platform → World → Dir → Bytes → Result Opened × Dir
unlock p w d secret =
    let wait = wait_secs (read_attempts p.attempts d.attempts) w.now w.again in
    if ltb 0 wait
    then (fail (append "too many wrong attempts: try again in " (append (p.show wait) " s")), d)
    else with_lock p w d secret (read p w.draw d)

abbrev pub only_key : Opened → Result Bytes
only_key (normal key) = ok key
only_key duress = fail "wrong passphrase"

unfoldable pub unlock_normal : Platform → World → Dir → Bytes → Result Bytes × Dir
unlock_normal p w d secret = ((unlock p w d secret).0 >>= only_key, (unlock p w d secret).1)

abbrev pub is_ok {ℓ} : {A : Type ℓ} → Result A → Bool
is_ok (ok _) = Bool.true
is_ok (fail _) = Bool.false

unfoldable pub is_normal_secret : Platform → World → Dir → Bytes → Bool × Dir
is_normal_secret p w d secret =
    (is_ok (unlock_normal p w d secret).0, (unlock_normal p w d secret).1)
