-- ===== src/Lock/Throttle.antt =====
-- The brake on guessing at the lock screen (core/src/storage/lock.rs, `wait_secs`, `note_failure`,
-- `unlock`).
use nightdrop.Lock.Attempts.{Attempts, AttemptsJson, read_attempts, wait_secs}
use nightdrop.Lock.Files.{Dir, LockV2, Platform, read}
use nightdrop.Lock.Slots.{try_slot}
use nightdrop.Lock.Unlock.{World, unlock}
use nightdrop.Prelude.{
  List, [], ◌∷◌, Option, true, if◌then◌else◌, none, some, ℕ, ◌+◌, ◌-◌, ◌≡◌, ◌≤◌, ◌==◌, min, ◌^◌,
}
use nightdrop.Prelude.Bytes.{Bytes}
use nightdrop.Prelude.Result.{ok}

-- What the attempts file was written as is what it is read as.
pub record KeepsAttempts (j : AttemptsJson) : Type 0 where
  pub bytes : Attempts → Bytes
  pub writes : (a : Attempts) → j.to_vec a ≡ some (bytes a)
  pub reads : (a : Attempts) → j.from_slice (bytes a) ≡ some a

-- Neither slot of the lock opens for the secret.
pub record IsWrong (p : Platform) (lock : LockV2) (secret : Bytes) : Type 0 where
  pub normal : try_slot p.crypto lock.normal secret lock.m_cost_kib lock.t_cost lock.p_cost ≡ none
  pub duress : try_slot p.crypto lock.duress secret lock.m_cost_kib lock.t_cost lock.p_cost ≡ none

abbrev pub attempts_of : Platform → Dir → Attempts
attempts_of p d = read_attempts p.attempts d.attempts

pub wait_of : Platform → Dir → World → ℕ
wait_of p d w = wait_secs (attempts_of p d) w.now w.again

abbrev pub one_more : Attempts → ℕ → Attempts
one_more a now = record { failures = min (a.failures + 1) (2 ^ 32 - 1); last_unix = now }

-- A call of `unlock` with a wrong secret, on this lock file: the attempts file can be written, and the
-- clock does not go back during the call.
pub record IsGuess (p : Platform) (file : Option Bytes) (w : World) (secret : Bytes) : Type 0 where
  pub lock : LockV2
  pub is_lock : read p w.draw (record { lock = file; attempts = none }) ≡ ok lock
  pub wrong : IsWrong p lock secret
  pub changes : w.attempts_change ≡ true
  pub forward : w.now ≤ w.noted

-- How many of the calls try their secret.
abbrev pub tries : Platform → Dir → List (World × Bytes) → ℕ
tries p d [] = 0
tries p d ((w, secret) ∷ calls) =
    (if wait_of p d w == 0 then 1 else 0) + tries p (unlock p w d secret).1 calls
