-- ===== src/Tests/Lock.antt =====
-- Runs of the app lock, with stand-ins for the ciphers that only check the key.
use nightdrop.Lock.Arming.{set_duress-unlock}
use nightdrop.Lock.Attempts.{Attempts, AttemptsJson, read_attempts, wait_after, wait_secs}
use nightdrop.Lock.Files.{Dir, LockV2, Platform, read, read_value, write, write_bytes}
use nightdrop.Lock.Opening.{RoundTrips, ok-injective, set_passphrase-unlock}
use nightdrop.Lock.Restoring.{set_duress_failed}
use nightdrop.Lock.Secrets.{Change, set_duress, set_passphrase, check_armed}
use nightdrop.Lock.Slots.{
  Crypto, Draw, decoy_slot, derive, open_sealed, seal, seal_armed, try_slot, wrap_slot,
}
use nightdrop.Lock.Unlock.{Opened, World, unlock, settle}
use nightdrop.Prelude.{
  List, [], Option, drop, if◌then◌else◌, length, none, refl, some, take, ◌++◌, ◌∷◌, replicate,
  take_append, true, ℕ, ◌≡◌, drop_append,
}
use nightdrop.Prelude.Bytes.{Bytes, same, codes, same_refl}
use nightdrop.Prelude.Result.{ok, fail}
use nightdrop.Wire.Codec.{Fields, Value, get_field}

-- The derived key is the secret; a sealed text is its key's length, its key, and the text.
abbrev toy_decrypt : Bytes → Bytes → Bytes → Option Bytes
toy_decrypt key nonce sealed =
    if same (take (length key) sealed) key then some (drop (length key) sealed) else none

abbrev toy_crypto : Crypto
toy_crypto = record {
  argon2id = λ secret salt m t p. ok secret;
  encrypt = λ key nonce plain. some (key ++ plain);
  decrypt = toy_decrypt;
  b64_encode = λ b. b;
  b64_decode = λ b. some b;
}

-- The attempts file has two numbers.
abbrev toy_read : Bytes → Option Attempts
toy_read (n ∷ t ∷ []) = some (record { failures = n; last_unix = t })
toy_read _ = none

abbrev toy_attempts : AttemptsJson
toy_attempts = record { to_vec = λ a. some (a.failures ∷ a.last_unix ∷ []); from_slice = toy_read }

some-injective : {a b : Bytes} → some a ≡ some b → a ≡ b
some-injective e = cc

-- A lock file is its four numbers and its five texts, each after its length.
abbrev pack : Bytes → Bytes → Bytes
pack s rest = length s ∷ (s ++ rest)

abbrev packed : LockV2 → Bytes
packed l =
    l.v
    ∷ l.m_cost_kib
    ∷ l.t_cost
    ∷ l.p_cost
    ∷ pack l.normal.salt
        (pack l.normal.wrapped (pack l.duress.salt (pack l.duress.wrapped (pack l.armed []))))

abbrev unpack : Bytes → Bytes × Bytes
unpack [] = ([], [])
unpack (n ∷ rest) = (take n rest, drop n rest)

abbrev unpacked_texts : ℕ → ℕ → ℕ → ℕ → Bytes → LockV2
unpacked_texts v m t p b1 =
    let (s1, b2) = unpack b1 in
    let (s2, b3) = unpack b2 in
    let (s3, b4) = unpack b3 in
    let (s4, b5) = unpack b4 in
    record {
      v = v;
      m_cost_kib = m;
      t_cost = t;
      p_cost = p;
      normal = record { salt = s1; wrapped = s2 };
      duress = record { salt = s3; wrapped = s4 };
      armed = (unpack b5).0;
    }

abbrev unpacked : Bytes → Option LockV2
unpacked (v ∷ m ∷ t ∷ p ∷ rest) = some (unpacked_texts v m t p rest)
unpacked _ = none

abbrev toy_value : ℕ → Bytes → Value
toy_value v bytes = Value.obj (
    Fields.field (codes "v") (Value.num v)
      (Fields.field (codes "lock") (Value.str bytes) Fields.end))

abbrev toy_from_slice : Bytes → Option Value
toy_from_slice (v ∷ rest) = some (toy_value v (v ∷ rest))
toy_from_slice [] = none

abbrev toy_v2 : Value → Option LockV2
toy_v2 (Value.obj (Fields.field _ _ (Fields.field _ (Value.str bytes) _))) = unpacked bytes
toy_v2 _ = none

abbrev toy : Platform
toy = record {
  crypto = toy_crypto;
  attempts = toy_attempts;
  to_vec = λ l. ok (packed l);
  value_from_slice = toy_from_slice;
  v1_from_value = λ _. none;
  v2_from_value = toy_v2;
  show = λ _. "n";
}

toy-RoundTrips : RoundTrips toy
toy-RoundTrips = record {
  b64 = λ bytes. refl;
  cipher = λ key nonce plain sealed e.
      rw (← some-injective e, take_append key plain, same_refl key, drop_append key plain) refl;
  value = λ l. toy_value l.v (packed l);
  json = λ l bytes e. rw (← ok-injective e) refl;
  version = λ l. unfold get_field same in refl;
  shape = λ l. simp (take_append, drop_append) refl;
}

abbrev draw : Draw
draw = record {
  salt = codes "salt";
  kek = codes "kek";
  filler = replicate 32 5;
  nonce = codes "nonce-12byte";
}

abbrev world : ℕ → World
world now = record { now = now; again = now; noted = now; draw = draw; attempts_change = true }

abbrev change : Change
change = record {
  wrap = draw;
  decoy = draw;
  armed_nonce = codes "nonce-12byte";
  can_write = true;
  can_restore = true;
  can_remove = true;
  world = world 5000;
}

abbrev key : Bytes
key = replicate 32 9

abbrev unlocked : Dir
unlocked = record { lock = none; attempts = none }

abbrev locked : Dir
locked = (set_passphrase toy change unlocked key (codes "correct horse")).1

passphrase_set : (set_passphrase toy change unlocked key (codes "correct horse")).0 ≡ ok tt
unfolding set_passphrase write write_bytes wrap_slot derive seal decoy_slot seal_armed
passphrase_set = refl

wrong_refused :
    (set_duress toy change locked (codes "wrong") (codes "duress")).0 ≡ fail "wrong passphrase"
unfolding set_duress set_passphrase write write_bytes wrap_slot derive seal decoy_slot seal_armed
    read read_value get_field same try_slot open_sealed check_armed
wrong_refused = refl

set_passphrase-unlock_example :
    (unlock toy (world 5000) locked (codes "correct horse")).0 ≡ ok (Opened.normal key)
set_passphrase-unlock_example =
    set_passphrase-unlock toy toy-RoundTrips change unlocked key (codes "correct horse")
      (world 5000) refl refl passphrase_set (unfold wait_secs read_attempts wait_after in refl)

set_duress_failed_example :
    (set_duress toy change locked (codes "wrong") (codes "duress")).1.lock ≡ locked.lock
set_duress_failed_example =
    set_duress_failed toy change locked (codes "wrong") (codes "duress") "wrong passphrase" refl
      wrong_refused

-- Twenty failures, the last one at 1000, and two guesses an hour apart.
abbrev guessed : Dir
guessed = record locked { attempts = some (20 ∷ 1000 ∷ []) }

abbrev guesses : List (World × Bytes)
guesses = (world 5000, codes "1234") ∷ (world 6000, codes "4321") ∷ []

duress_set : (set_duress toy change locked (codes "correct horse") (codes "duress")).0 ≡ ok tt
unfolding set_duress set_passphrase write write_bytes wrap_slot derive seal decoy_slot seal_armed
    read read_value get_field same try_slot open_sealed check_armed unlock settle wait_secs
    read_attempts wait_after
duress_set = refl

set_duress-unlock_example :
    (unlock toy
      (world 6000)
      (set_duress toy change locked (codes "correct horse") (codes "duress")).1
      (codes "duress")).0
    ≡ ok Opened.duress
set_duress-unlock_example =
    set_duress-unlock toy toy-RoundTrips change locked (codes "correct horse") (codes "duress")
      (world 6000) refl duress_set
