-- ===== src/Tests/Keyroll.antt =====
-- A release, one rotation that its recovery key has signed, and a crafted backup.
use nightdrop.Keyroll.{
  update, Roots, Rotation, Signatures, Trust, advance, array_of, cons_unless_blank, current_key,
  decimal, decode_key, is_whitespace, label, message, move_to, trim, trim_end, trim_start, trusted,
  verify_rotation, verify_sig, bind, sign_rotation,
}
use nightdrop.Keyroll.Moved.{IsFaithful, sign_rotation-current_key}
use nightdrop.Keyroll.Rotations.{learned_after, never_rolls_back}
use nightdrop.Keyroll.Signed.{IsNamed, IsUnforgeable, current_key-IsNamed}
use nightdrop.Prelude.{
  Option, [], arith, inl, none, refl, replicate, some, true, ◌∷◌, ◌≡◌, ◌≤◌, ap, false, length, ℕ,
  ◌+◌, ◌-◌,
}
use nightdrop.Prelude.Bytes.{Bytes, eq_of_same, same, same_refl}

abbrev new_key : Bytes
new_key = replicate 32 67

abbrev stamp : Bytes
stamp = replicate 64 65

-- One message verifies: the rotation of the update key to `new_key`, with the sequence number 1.
abbrev one_signed : Signatures
one_signed = record {
  encode = λ b. b;
  decode = some;
  is_key = λ key. true;
  verify_strict = λ key m sig. same m (message update 1 new_key);
  sign = λ secret m. stamp;
  public_of = λ secret. secret;
}

abbrev release : Roots
release = record { purpose = update; signing = replicate 32 1; recovery = replicate 32 2 }

abbrev rotation : Rotation
rotation = record { seq = 1; key = new_key; sig = stamp }

-- Stored from someone else's backup.
abbrev crafted : Trust
crafted = record { seq = 5; key = replicate 32 3; sig = stamp }

one_signed-IsUnforgeable : IsUnforgeable one_signed release ((update, 1, new_key) ∷ [])
one_signed-IsUnforgeable = record {
  genuine = λ m sig h. inl (eq_of_same m (message update 1 new_key) h);
  small = (omega arith, tt);
}

abbrev found : Bytes × Option Trust
found = current_key one_signed release (some crafted) (some rotation)

current_key-IsNamed_example :
    IsNamed one_signed release ((update, 1, new_key) ∷ []) one_signed-IsUnforgeable found.0
current_key-IsNamed_example =
    current_key-IsNamed one_signed release ((update, 1, new_key) ∷ []) one_signed-IsUnforgeable
      (some crafted) (some rotation) (omega arith) (omega arith)

never_rolls_back_example :
    (let before = trusted one_signed release (some crafted) in
      let after =
        trusted one_signed release
          (learned_after one_signed release (some crafted) (none ∷ some rotation ∷ none ∷ [])) in
      (before.0 ≤ after.0) × (before.0 ≡ after.0 → before ≡ after))
never_rolls_back_example =
    never_rolls_back one_signed release (some crafted) (none ∷ some rotation ∷ none ∷ [])

-- The crafted key is refused, and the rotation moves the key.
moves_test : found.0 ≡ new_key
unfolding current_key advance trusted verify_rotation verify_sig message same label decimal move_to
    decode_key array_of trim trim_start trim_end is_whitespace cons_unless_blank
moves_test = refl

-- A toy signature that keeps the promises of base64 and ed25519: letters far from the blanks, and a
-- secret that is its own public key.
abbrev far : ℕ
far = 20000

abbrev shifted : Bytes → Bytes
shifted [] = []
shifted (c ∷ s) = (far + c) ∷ shifted s

abbrev unshifted : Bytes → Bytes
unshifted [] = []
unshifted (c ∷ s) = (c - far) ∷ unshifted s

far-solid : (c : ℕ) → is_whitespace (far + c) ≡ false
unfolding is_whitespace
far-solid c = ground arith

unshifted-shifted : (s : Bytes) → unshifted (shifted s) ≡ s
unshifted-shifted [] = refl
unshifted-shifted (c ∷ s) =
    let here : far + c - far ≡ c = omega arith in rw (here, unshifted-shifted s) refl

trim_end-shifted : (s : Bytes) → trim_end (shifted s) ≡ shifted s
unfolding trim_end cons_unless_blank
trim_end-shifted [] = refl
trim_end-shifted (c ∷ []) = rw (far-solid c) refl
trim_end-shifted (c ∷ d ∷ s) = rw (trim_end-shifted (d ∷ s)) refl

trim-shifted : (s : Bytes) → trim (shifted s) ≡ shifted s
unfolding trim trim_start
trim-shifted [] = unfold trim_end in refl
trim-shifted (c ∷ s) = rw (far-solid c) (trim_end-shifted (c ∷ s))

abbrev toy : Signatures
toy = record {
  encode = shifted;
  decode = λ b. some (unshifted b);
  is_key = λ key. true;
  verify_strict = λ key m sig. same sig (replicate 64 (length key + length m));
  sign = λ secret m. replicate 64 (length secret + length m);
  public_of = λ secret. secret;
}

toy-IsFaithful : IsFaithful toy
toy-IsFaithful = record {
  decodes = λ b. ap some (unshifted-shifted b);
  no_blanks = trim-shifted;
  length_64 = λ secret m. refl;
  verifies = λ secret m. same_refl (replicate 64 (length secret + length m));
  public_ok = λ secret. refl;
}

-- The operator names the next key, 32 bytes.
abbrev next_b64 : Bytes
next_b64 = shifted new_key

sign_rotation-current_key_example :
    (r : Rotation) × (sign_rotation toy (shifted (replicate 32 2)) update 7 next_b64 ≡ some r)
    × ((current_key toy release none (some r)).0 ≡ new_key)
    × ((current_key toy release (current_key toy release none (some r)).1 none).0 ≡ new_key)
unfolding decode_key array_of trusted
sign_rotation-current_key_example =
    sign_rotation-current_key toy toy-IsFaithful release (replicate 32 2) (shifted (replicate 32 2))
      next_b64 new_key 7 none reads_secret refl reads_key (omega arith)
  where
    reads_secret :
        bind (toy.decode (trim (shifted (replicate 32 2)))) (array_of 32) ≡ some (replicate 32 2)
    reads_secret = rw (trim-shifted (replicate 32 2)) refl

    reads_key : decode_key toy next_b64 ≡ some new_key
    reads_key = rw (trim-shifted new_key) refl
