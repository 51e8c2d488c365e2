-- ===== src/Lock/Opening.antt =====
-- What was sealed, written and wrapped, opened again (core/src/storage/lock.rs, `set_passphrase`,
-- then `unlock`).
use nightdrop.Lock.Attempts.{read_attempts, wait_secs}
use nightdrop.Lock.Files.{Dir, LockV2, Platform, read, read_value, write, write_bytes, written}
use nightdrop.Lock.Secrets.{Change, set_passphrase, write_lock, new_lock}
use nightdrop.Lock.Slots.{
  Crypto, Draw, Slot, derive, nonce_len, open_sealed, seal, seal_armed, try_slot, wrap_slot,
  m_cost_kib, t_cost, p_cost, decoy_slot,
}
use nightdrop.Lock.Unlock.{World, unlock, settle, normal}
use nightdrop.Prelude.{
  Bool, arith, length, some, refl, true, false, ◌≡◌, [], ltb, take_append, ◌++◌, ◌∷◌, length-append,
  drop_append,
}
use nightdrop.Prelude.Bytes.{Bytes, codes}
use nightdrop.Prelude.Result.{Result, ok, fail, >>=-ok, or_fail, or_fail-ok}
use nightdrop.Wire.Codec.{Value, get_field}
use nightdrop.Wire.Codec as Codec

-- What the ciphers, base64 and serde_json document: each decodes what it encoded, and a plaintext is
-- decrypted with its own key and nonce.
pub record RoundTrips (p : Platform) : Type 0 where
  pub b64 : (bytes : Bytes) → p.crypto.b64_decode (p.crypto.b64_encode bytes) ≡ some bytes
  pub cipher :
      (key nonce plain sealed : Bytes)
      → p.crypto.encrypt key nonce plain ≡ some sealed
      → p.crypto.decrypt key nonce sealed ≡ some plain
  pub value : LockV2 → Value
  pub json :
      (lock : LockV2) (bytes : Bytes)
      → p.to_vec lock ≡ ok bytes
      → p.value_from_slice bytes ≡ some (value lock)
  pub version : (lock : LockV2) → get_field (codes "v") (value lock) ≡ some (Codec.num lock.v)
  pub shape : (lock : LockV2) → p.v2_from_value (value lock) ≡ some lock

open-nonce :
    (c : Crypto) (key nonce plain sealed : Bytes)
    → length nonce ≡ nonce_len
    → c.decrypt key nonce sealed ≡ some plain
    → open_sealed c key (nonce ++ sealed) ≡ ok plain
unfolding open_sealed
open-nonce c key nonce plain sealed twelve opens =
    let long : ltb (length (nonce ++ sealed)) (length nonce) ≡ false =
      ground (arith, length-append nonce sealed) in
    rw (← twelve, long, take_append, drop_append, opens) refl

pub ok-injective : {A : Type 0} {a b : A} → ok a ≡ ok b → a ≡ b
ok-injective h = cc

seal-open_sealed :
    (p : Platform) (trips : RoundTrips p) (key nonce plain blob : Bytes)
    → length nonce ≡ nonce_len
    → seal p.crypto nonce key plain ≡ ok blob
    → open_sealed p.crypto key blob ≡ ok plain
unfolding seal
seal-open_sealed p trips key nonce plain blob twelve sealed =
    let (ct, encrypted, whole) =
      >>=-ok (or_fail "seal failed" (p.crypto.encrypt key nonce plain)) _ blob sealed in
    let opens = trips.cipher key nonce plain ct (or_fail-ok _ _ ct encrypted) in
    rw (← ok-injective whole) (open-nonce p.crypto key nonce plain ct twelve opens)

written-ok :
    (succeeds : Bool) (r : Result Bytes) (d : Dir)
    → (written succeeds r d).0 ≡ ok tt
    → (bytes : Bytes) × (r ≡ ok bytes) × ((written succeeds r d).1 ≡ record d { lock = some bytes })
unfolding write_bytes
written-ok true (ok bytes) d h = (bytes, refl, refl)
written-ok false (ok bytes) d h = cc
written-ok succeeds (fail e) d h = cc

read_value-value :
    (p : Platform) (trips : RoundTrips p) (r : Draw) (lock : LockV2)
    → lock.v ≡ 2
    → read_value p r (trips.value lock) ≡ ok lock
unfolding read_value
read_value-value p trips r lock two = rw (trips.version lock, trips.shape lock, two) refl

-- A lock that was written is read back, and the attempts file is left alone.
pub write-read :
    (p : Platform) (trips : RoundTrips p) (succeeds : Bool) (lock : LockV2) (d : Dir)
    → lock.v ≡ 2
    → (write p succeeds lock d).0 ≡ ok tt
    → ((r : Draw) → read p r (write p succeeds lock d).1 ≡ ok lock)
      × ((write p succeeds lock d).1.attempts ≡ d.attempts)
unfolding write read
write-read p trips succeeds lock d two done =
    let (bytes, encoded, after) = written-ok succeeds (p.to_vec lock) d done in
    let back = trips.json lock bytes encoded in
    (λ r. rw (after, back) (read_value-value p trips r lock two), rw after refl)

wrap_slot-try_slot :
    (p : Platform) (trips : RoundTrips p) (r : Draw) (key secret : Bytes) (slot : Slot)
    → length r.nonce ≡ nonce_len
    → length key ≡ 32
    → wrap_slot p.crypto r key secret ≡ ok slot
    → try_slot p.crypto slot secret m_cost_kib t_cost p_cost ≡ some key
unfolding wrap_slot try_slot
wrap_slot-try_slot p trips r key secret slot twelve thirty_two wrapped =
    let (kek, derived, rest) =
      >>=-ok (derive p.crypto secret r.salt m_cost_kib t_cost p_cost) _ slot wrapped in
    let (blob, sealed, whole) = >>=-ok (seal p.crypto r.nonce kek key) _ slot rest in
    let opens = seal-open_sealed p trips kek r.nonce key blob twelve sealed in
    rw (← ok-injective whole, trips.b64 r.salt, derived, trips.b64 blob, opens, thirty_two) refl

new_lock-ok :
    (p : Platform) (c : Change) (key passphrase : Bytes) (lock : LockV2)
    → new_lock p c key passphrase ≡ ok lock
    → (wrap_slot p.crypto c.wrap key passphrase ≡ ok lock.normal)
      × (lock.v ≡ 2)
      × (lock.m_cost_kib ≡ m_cost_kib)
      × (lock.t_cost ≡ t_cost)
      × (lock.p_cost ≡ p_cost)
      × (seal_armed p.crypto c.armed_nonce key false ≡ ok lock.armed)
new_lock-ok p c key passphrase lock h =
    let (slot, wrapped, rest) = >>=-ok (wrap_slot p.crypto c.wrap key passphrase) _ lock h in
    let (decoy, _, rest2) = >>=-ok (decoy_slot p.crypto c.decoy) _ lock rest in
    let (flag, armed, whole) = >>=-ok (seal_armed p.crypto c.armed_nonce key false) _ lock rest2 in
    let e = ok-injective whole in rw (← e) (wrapped, refl, refl, refl, refl, armed)

pub write_lock-ok :
    (p : Platform) (succeeds : Bool) (r : Result LockV2) (d : Dir)
    → (write_lock p succeeds r d).0 ≡ ok tt
    → (lock : LockV2) × (r ≡ ok lock)
write_lock-ok p succeeds (ok lock) d h = (lock, refl)
write_lock-ok p succeeds (fail e) d h = cc

-- After `set_passphrase` succeeded for a 32-byte key, with a 12-byte nonce, the passphrase opens the
-- lock to that key, unless earlier wrong attempts make it wait. The ciphers, base64 and serde_json
-- have to decode what they encoded.
pub set_passphrase-unlock :
    (p : Platform) (trips : RoundTrips p) (c : Change) (d : Dir) (key passphrase : Bytes)
    (w : World)
    → length c.wrap.nonce ≡ nonce_len
    → length key ≡ 32
    → (set_passphrase p c d key passphrase).0 ≡ ok tt
    → wait_secs (read_attempts p.attempts d.attempts) w.now w.again ≡ 0
    → (unlock p w (set_passphrase p c d key passphrase).1 passphrase).0 ≡ ok (normal key)
unfolding set_passphrase unlock settle
set_passphrase-unlock p trips c d key [] w twelve thirty_two done free = cc
set_passphrase-unlock p trips c d key (b ∷ bs) w twelve thirty_two done free =
    let (lock, made) = write_lock-ok p c.can_write (new_lock p c key (b ∷ bs)) d done in
    let (wrapped, two, m, t, q, _) = new_lock-ok p c key (b ∷ bs) lock made in
    let (back, kept) = write-read p trips c.can_write lock d two (rw made at done) in
    let opens =
      wrap_slot-try_slot p trips c.wrap key (b ∷ bs) lock.normal twelve thirty_two wrapped in
    rw (made, kept, free, back w.draw, m, t, q, opens) refl
