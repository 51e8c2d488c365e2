-- ===== src/Keyroll/Moved.antt =====
-- A rotation that the operator signs moves the key (core/src/keyroll.rs, `sign_rotation`, then
-- `current_key`).
use nightdrop.Keyroll.{
  Roots, Rotation, Signatures, Trust, array_of, bind, current_key, decode_key, message,
  sign_rotation, signed_by, trim, trusted, verify_rotation, verify_sig, advance, move_to,
}
use nightdrop.Keyroll.Rotations.{Moves, advance-Moves, decode_key-trim}
use nightdrop.Keyroll.Trimmed.{trim-trim}
use nightdrop.Prelude.{
  Option, length, none, some, true, ℕ, ◌<◌, ◌≡◌, ap, arith, ltb, ◌&&◌, lt→ltb, refl, ◌∙◌,
}
use nightdrop.Prelude.Bytes.{Bytes}

-- What base64 and ed25519 document: what was encoded decodes, and has no blanks; a signature is 64
-- bytes, and verifies under the public key of the secret that made it.
pub record IsFaithful (e : Signatures) : Type 0 where
  pub decodes : (b : Bytes) → e.decode (e.encode b) ≡ some b
  pub no_blanks : (b : Bytes) → trim (e.encode b) ≡ e.encode b
  pub length_64 : (secret m : Bytes) → length (e.sign secret m) ≡ 64
  pub verifies :
      (secret m : Bytes) → e.verify_strict (e.public_of secret) m (e.sign secret m) ≡ true
  pub public_ok : (secret : Bytes) → e.is_key (e.public_of secret) ≡ true

module _ (e : Signatures) (ok : IsFaithful e) where
  verify-signed_by :
      (roots : Roots) (secret key : Bytes) (seq : ℕ)
      → roots.recovery ≡ e.public_of secret
      → verify_rotation e roots (signed_by e roots.purpose seq key secret) ≡ true
  unfolding verify_rotation verify_sig signed_by array_of
  verify-signed_by roots secret key seq mine =
      let m = message roots.purpose seq (trim key) in
      rw
        (
          mine,
          ok.public_ok secret,
          ok.no_blanks (e.sign secret m),
          ok.decodes (e.sign secret m),
          ok.length_64 secret m,
          trim-trim key,
        )
        (ok.verifies secret m)

  advance-signed :
      (roots : Roots) (secret new_b64 key : Bytes) (seq : ℕ) (before : ℕ × Bytes)
      → roots.recovery ≡ e.public_of secret
      → decode_key e new_b64 ≡ some key
      → before.0 < seq
      → (let r = signed_by e roots.purpose seq new_b64 secret in
          advance e roots before (some r)
          ≡ (key, some (record { seq = seq; key = trim r.key; sig = trim r.sig })))
  unfolding advance move_to signed_by trim
  advance-signed roots secret new_b64 key seq before mine decoded later =
      let r = signed_by e roots.purpose seq new_b64 secret in
      let valid = verify-signed_by roots secret new_b64 seq mine in
      let goes : ltb before.0 seq ≡ true = lt→ltb before.0 seq later in
      let decodes : decode_key e r.key ≡ some key =
        unfold signed_by in decode_key-trim e roots new_b64 ∙ decoded in
      let both : (ltb before.0 seq && verify_rotation e roots r) ≡ true =
        ground (arith, goes, valid) in
      rw (both, decodes) refl

  -- A rotation that the operator signs with the secret of the release's recovery key, for its purpose
  -- and with a later sequence number than the trusted one, makes the key that it names the current one,
  -- and is stored; and the key stays the current one at a later fetch without a rotation. Signing and
  -- base64 must do what they document.
  pub sign_rotation-current_key :
      (roots : Roots) (secret secret_b64 new_b64 key : Bytes) (seq : ℕ) (learned : Option Trust)
      → bind (e.decode (trim secret_b64)) (array_of 32) ≡ some secret
      → roots.recovery ≡ e.public_of secret
      → decode_key e new_b64 ≡ some key
      → (trusted e roots learned).0 < seq
      → (r : Rotation) × (sign_rotation e secret_b64 roots.purpose seq new_b64 ≡ some r)
        × ((current_key e roots learned (some r)).0 ≡ key)
        × ((current_key e roots (current_key e roots learned (some r)).1 none).0 ≡ key)
  sign_rotation-current_key roots secret secret_b64 new_b64 key seq learned is mine decoded later =
      let r = signed_by e roots.purpose seq new_b64 secret in
      let before = trusted e roots learned in
      let stored : Trust = record { seq = seq; key = trim r.key; sig = trim r.sig } in
      let made : sign_rotation e secret_b64 roots.purpose seq new_b64 ≡ some r =
        unfold sign_rotation in rw (is, decoded) refl in
      let moved : advance e roots before (some r) ≡ (key, some stored) =
        advance-signed roots secret new_b64 key seq before mine decoded later in
      let next = rw moved at (advance-Moves e roots before (some r)) in
      let first : current_key e roots learned (some r) ≡ (key, some stored) =
        unfold current_key in moved in
      let second : (current_key e roots (some stored) none).0 ≡ key =
        unfold current_key advance Moves in ap (λ x. x.1) next.1 in
      (r, made, rw first refl, rw first second)
