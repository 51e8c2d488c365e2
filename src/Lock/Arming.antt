-- ===== src/Lock/Arming.antt =====
-- An armed duress secret (core/src/storage/lock.rs, `set_duress`, then `unlock`).
use nightdrop.Lock.Attempts.{read_attempts, wait_after, wait_secs}
use nightdrop.Lock.Files.{Platform, Dir, Done, LockV2, read}
use nightdrop.Lock.Opening.{ok-injective, RoundTrips, write-read, write_lock-ok}
use nightdrop.Lock.Secrets.{
  Change, arm, check_armed, is_duress, normal_key, restore, set_duress, write_lock,
}
use nightdrop.Lock.Slots.{Draw, seal_armed, try_slot, wrap_slot}
use nightdrop.Lock.Unlock.{duress, World, forget_attempts, settle, unlock}
use nightdrop.Prelude.{
  ◌∙◌, Bool-cases, Option, none, some, refl, inl, inr, true, ◌≡◌, [], ◌∷◌, is_some, ltb,
}
use nightdrop.Prelude.Bytes.{Bytes}
use nightdrop.Prelude.Result.{ok, fail, ◌>>=◌, >>=-ok, or_fail}

-- What `unlock` found when it reported the duress secret.
record FoundDuress (p : Platform) (w : World) (d : Dir) (secret : Bytes) (lock : LockV2)
    : Type 0 where
  key : Bytes
  normal_refuses :
      try_slot p.crypto lock.normal secret lock.m_cost_kib lock.t_cost lock.p_cost ≡ none
  duress_opens :
      try_slot p.crypto lock.duress secret lock.m_cost_kib lock.t_cost lock.p_cost ≡ some key
  forgets : (unlock p w d secret).1 ≡ forget_attempts w d

settle-duress :
    (p : Platform) (w : World) (d : Dir) (a b : Option Bytes)
    → is_duress (settle p w d a b).0 ≡ true
    → (a ≡ none) × ((k : Bytes) × (b ≡ some k)) × ((settle p w d a b).1 ≡ forget_attempts w d)
unfolding settle
settle-duress p w d (some a) b h = cc
settle-duress p w d none (some k) h = (refl, (k, refl), refl)
settle-duress p w d none none h = cc

unlock-FoundDuress :
    (p : Platform) (w : World) (d : Dir) (secret : Bytes) (lock : LockV2)
    → read p w.draw d ≡ ok lock
    → is_duress (unlock p w d secret).0 ≡ true
    → FoundDuress p w d secret lock
unfolding unlock
unlock-FoundDuress p w d secret lock is h =
    elim (Bool-cases (ltb 0 (wait_secs (read_attempts p.attempts d.attempts) w.now w.again))) [
      | inl waits ↦ let impossible = rw waits at h in cc
      | inr free ↦
          let (n, (k, y), f) = settle-duress p w d _ _ (rw (free, is) at h) in
          record { key = k; normal_refuses = n; duress_opens = y; forgets = rw (free, is) f }
    ]

unlock-duress :
    (p : Platform) (w : World) (d : Dir) (secret key : Bytes) (lock : LockV2)
    → read p w.draw d ≡ ok lock
    → d.attempts ≡ none
    → try_slot p.crypto lock.normal secret lock.m_cost_kib lock.t_cost lock.p_cost ≡ none
    → try_slot p.crypto lock.duress secret lock.m_cost_kib lock.t_cost lock.p_cost ≡ some key
    → (unlock p w d secret).0 ≡ ok duress
unfolding unlock settle wait_secs read_attempts wait_after
unlock-duress p w d secret key lock is clean n y = rw (is, clean, n, y) refl

arm-ok :
    (p : Platform) (c : Change) (passphrase secret : Bytes) (old lock : LockV2)
    → arm p c passphrase secret old ≡ ok lock
    → lock.v ≡ 2
arm-ok p c passphrase secret old lock h =
    let (key, _, rest) =
      >>=-ok (or_fail "wrong passphrase" (normal_key p old passphrase)) _ lock h in
    elim (Bool-cases (is_some (normal_key p old secret))) [
      | inl opens ↦ let impossible = rw opens at rest in cc
      | inr not_same ↦
          let armed = rw not_same at rest in
          let (slot, _, rest2) =
            >>=-ok (wrap_slot p.crypto c.wrap c.wrap.filler secret) _ lock armed in
          let (flag, _, whole) = >>=-ok (seal_armed p.crypto c.armed_nonce key true) _ lock rest2 in
          rw (← ok-injective whole) refl
    ]

check_armed-ok :
    (p : Platform) (c : Change) (previous : Option Bytes) (secret : Bytes) (r : Done) (d : Dir)
    → (check_armed p c previous secret (r, d)).0 ≡ ok tt
    → (r ≡ ok tt)
      × (is_duress (unlock p c.world d secret).0 ≡ true)
      × ((check_armed p c previous secret (r, d)).1 ≡ (unlock p c.world d secret).1)
unfolding check_armed
check_armed-ok p c previous secret (fail e) d h = cc
check_armed-ok p c previous secret (ok t) d h =
    elim (Bool-cases (is_duress (unlock p c.world d secret).0)) [
      | inl armed ↦ (refl, armed, rw armed refl)
      | inr unarmed ↦
          let (_, _, impossible) =
            >>=-ok (restore c previous (unlock p c.world d secret).1).0 _ tt (rw unarmed at h) in
          cc
    ]

read-forget :
    (p : Platform) (r : Draw) (d : Dir) → read p r (record d { attempts = none }) ≡ read p r d
unfolding read
read-forget p r d = refl

-- After `set_duress` succeeded, while the attempts file could be changed, an `unlock` of the files
-- that it left reports the duress secret as such, at any time. The lock file has to be read back as
-- written.
pub set_duress-unlock :
    (p : Platform) (trips : RoundTrips p) (c : Change) (d : Dir) (passphrase secret : Bytes)
    (w : World)
    → c.world.attempts_change ≡ true
    → (set_duress p c d passphrase secret).0 ≡ ok tt
    → (unlock p w (set_duress p c d passphrase secret).1 secret).0 ≡ ok duress
unfolding set_duress
set_duress-unlock p trips c d passphrase [] w changes done = cc
set_duress-unlock p trips c d passphrase (b ∷ bs) w changes done =
    let attempt = read p c.decoy d >>= arm p c passphrase (b ∷ bs) in
    let wrote = write_lock p c.can_write attempt d in
    let (was_written, armed, after) = check_armed-ok p c d.lock (b ∷ bs) wrote.0 wrote.1 done in
    let (lock, made) = write_lock-ok p c.can_write attempt d was_written in
    let (old, _, arming) = >>=-ok (read p c.decoy d) _ lock made in
    let two = arm-ok p c passphrase (b ∷ bs) old lock arming in
    let back = (write-read p trips c.can_write lock d two (rw made at was_written)).0 in
    let found =
      unlock-FoundDuress p c.world wrote.1 (b ∷ bs) lock (rw made (back c.world.draw)) armed in
    let emptied = record wrote.1 { attempts = none } in
    let left : (set_duress p c d passphrase (b ∷ bs)).1 ≡ emptied =
      after ∙ found.forgets ∙ rw changes refl in
    let is : read p w.draw emptied ≡ ok lock =
      read-forget p w.draw wrote.1 ∙ rw made (back w.draw) in
    rw left (
      unlock-duress p w emptied (b ∷ bs) found.key lock is refl found.normal_refuses
        found.duress_opens)
