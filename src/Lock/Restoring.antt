-- ===== src/Lock/Restoring.antt =====
-- A failed change of the duress secret (core/src/storage/lock.rs, `set_duress`).
use nightdrop.Lock.Files.{Dir, Done, LockV2, Platform, read, write, written, write_bytes}
use nightdrop.Lock.Secrets.{Change, arm, check_armed, is_duress, set_duress, write_lock}
use nightdrop.Lock.Slots.{Draw}
use nightdrop.Lock.Unlock.{unlock}
use nightdrop.Prelude.{
  String, Bool, Bool-cases, Option, Option-cases, none, some, refl, inl, inr, true, false, ◌≡◌, [],
  ◌∷◌, ap, sym, ◌∙◌,
}
use nightdrop.Prelude.Bytes.{Bytes}
use nightdrop.Prelude.Result.{Result, ok, fail, ◌>>=◌}

written_failed :
    (succeeds : Bool) (r : Result Bytes) (d : Dir) (e : String)
    → (written succeeds r d).0 ≡ fail e
    → (written succeeds r d).1 ≡ d
unfolding write_bytes
written_failed true (ok bytes) d e h = cc
written_failed false (ok bytes) d e h = refl
written_failed succeeds (fail _) d e h = refl

write_lock_failed :
    (p : Platform) (succeeds : Bool) (r : Result LockV2) (d : Dir) (e : String)
    → (write_lock p succeeds r d).0 ≡ fail e
    → (write_lock p succeeds r d).1 ≡ d
unfolding write
write_lock_failed p succeeds (ok lock) d e h = written_failed succeeds (p.to_vec lock) d e h
write_lock_failed p succeeds (fail _) d e h = refl

-- With a file to put back, the check that fails puts it back.
check_armed_failed :
    (p : Platform) (c : Change) (previous : Option Bytes) (bytes secret : Bytes) (r : Done)
    (d : Dir)
    → (e : String) → c.can_restore ≡ true
    → previous ≡ some bytes
    → ((f : String) → r ≡ fail f → d.lock ≡ some bytes)
    → (check_armed p c previous secret (r, d)).0 ≡ fail e
    → (check_armed p c previous secret (r, d)).1.lock ≡ some bytes
unfolding check_armed write_bytes
check_armed_failed p c previous bytes secret (fail f) d e can was kept h = kept f refl
check_armed_failed p c previous bytes secret (ok t) d e can was kept h =
    elim (Bool-cases (is_duress (unlock p c.world d secret).0)) [
      | inl armed ↦ let impossible = rw armed at h in cc
      | inr unarmed ↦ rw (unarmed, was, can) refl
    ]

read-absent :
    (p : Platform) (r : Draw) (d : Dir)
    → d.lock ≡ none
    → read p r d ≡ fail "this store is not locked"
unfolding read
read-absent p r d absent = rw absent refl

-- When `set_duress` fails for any reason, wrong passphrase and failed self-check included, and the old
-- file can be written back, the lock file is what it was.
pub set_duress_failed :
    (p : Platform) (c : Change) (d : Dir) (passphrase secret : Bytes) (e : String)
    → c.can_restore ≡ true
    → (set_duress p c d passphrase secret).0 ≡ fail e
    → (set_duress p c d passphrase secret).1.lock ≡ d.lock
unfolding set_duress check_armed
set_duress_failed p c d passphrase [] e can h = refl
set_duress_failed p c d passphrase (b ∷ bs) e can h = elim (Option-cases d.lock) [
  | inl absent ↦ rw (read-absent p c.decoy d absent) refl
  | inr (bytes, present) ↦
      let attempt = read p c.decoy d >>= arm p c passphrase (b ∷ bs) in
      let w = write_lock p c.can_write attempt d in
      check_armed_failed p c d.lock bytes (b ∷ bs) w.0 w.1 e can present
        (λ f failed. ap Dir.lock (write_lock_failed p c.can_write attempt d f failed) ∙ present) h
      ∙ sym present
]
