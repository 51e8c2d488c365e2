-- ===== src/Keyroll/Signed.antt =====
-- Only the recovery key names a signing key (core/src/keyroll.rs, `current_key`, `sign_rotation`).
use nightdrop.Keyroll.{
  Purpose, Roots, Rotation, Signatures, Trust, advance, array_of, as_rotation, bind, current_key,
  decode_key, from_trust, message, move_to, trim, trusted, verify_rotation, verify_sig,
}
use nightdrop.Keyroll.Message.{message-injective}
use nightdrop.Prelude.{
  &&_iff, All, All-Any, Any, Bool-cases, List, Option, arith, inl, inr, ltb, none, refl, some, sym,
  true, ℕ, ◌&&◌, ◌<◌, ◌^◌, ◌≡◌, ◌⊎◌,
}
use nightdrop.Prelude.Bytes.{Bytes}

-- What the recovery key has signed: purpose, sequence number and key.
abbrev pub Signed : Type 0
Signed = List (Purpose × ℕ × Bytes)

-- Signatures under the recovery key are of what it has signed; sequence numbers are of 64 bits.
pub record IsUnforgeable (e : Signatures) (roots : Roots) (signed : Signed) : Type 0 where
  pub genuine :
      (m sig : Bytes)
      → e.verify_strict roots.recovery m sig ≡ true
      → Any (λ s. m ≡ message s.0 s.1 s.2) signed
  pub small : All (λ s. s.1 < 2 ^ 64) signed

abbrev pub FitsRotation : Option Rotation → Type 0
FitsRotation none = Unit
FitsRotation (some r) = r.seq < 2 ^ 64

abbrev pub FitsTrust : Option Trust → Type 0
FitsTrust none = Unit
FitsTrust (some t) = t.seq < 2 ^ 64

module _ (e : Signatures) (roots : Roots) (signed : Signed)
    (ok : IsUnforgeable e roots signed) where
  -- The key of the release, or one that the recovery key has signed for this purpose.
  abbrev pub IsNamed : Bytes → Type 0
  IsNamed key =
      (key ≡ roots.signing)
      ⊎ Any (λ s. (s.0 ≡ roots.purpose) × (bind (e.decode s.2) (array_of 32) ≡ some key)) signed

  verify_sig-signed :
      (r : Rotation) (sig : Option Bytes)
      → verify_sig e roots r sig ≡ true
      → Any (λ s. message roots.purpose r.seq (trim r.key) ≡ message s.0 s.1 s.2) signed
  unfolding verify_sig
  verify_sig-signed r none h = cc
  verify_sig-signed r (some sig) h = ok.genuine _ sig h

  verify_rotation-signed :
      (r : Rotation)
      → verify_rotation e roots r ≡ true
      → Any (λ s. message roots.purpose r.seq (trim r.key) ≡ message s.0 s.1 s.2) signed
  unfolding verify_rotation
  verify_rotation-signed r h = elim (Bool-cases (e.is_key roots.recovery)) [
    | inl valid ↦ verify_sig-signed r _ (rw valid at h)
    | inr invalid ↦ let impossible = rw invalid at h in cc
  ]

  verify_rotation-IsNamed :
      (r : Rotation) (key : Bytes)
      → r.seq < 2 ^ 64
      → verify_rotation e roots r ≡ true
      → decode_key e r.key ≡ some key
      → IsNamed key
  unfolding decode_key
  verify_rotation-IsNamed r key fits valid decodes =
      let (s, s_small, same_message, found) =
        All-Any _ _ signed ok.small (verify_rotation-signed r valid) in
      let (purpose, _, text) =
        message-injective roots.purpose s.0 r.seq s.1 (trim r.key) s.2 (omega (arith, fits))
          (omega (arith, s_small)) same_message in
      inr (found _ (sym purpose, rw (← text) decodes))

  from_trust-IsNamed :
      (t : Trust) (decoded : Option Bytes)
      → t.seq < 2 ^ 64
      → verify_rotation e roots (as_rotation e t) ≡ true
      → decode_key e t.key ≡ decoded
      → IsNamed (from_trust e roots t.seq decoded).1
  unfolding from_trust
  from_trust-IsNamed t none fits valid is = inl refl
  from_trust-IsNamed t (some key) fits valid is = elim (Bool-cases (ltb 0 t.seq)) [
    | inl later ↦ rw later (verify_rotation-IsNamed (as_rotation e t) key fits valid is)
    | inr first ↦ rw first (inl refl)
  ]

  trusted-IsNamed :
      (learned : Option Trust) → FitsTrust learned → IsNamed (trusted e roots learned).1
  unfolding trusted
  trusted-IsNamed none fits = inl refl
  trusted-IsNamed (some t) fits = elim (Bool-cases (verify_rotation e roots (as_rotation e t))) [
    | inl valid ↦ rw valid (from_trust-IsNamed t (decode_key e t.key) fits valid refl)
    | inr invalid ↦ rw invalid (inl refl)
  ]

  move_to-IsNamed :
      (r : Rotation) (key : Bytes) (decoded : Option Bytes)
      → r.seq < 2 ^ 64
      → verify_rotation e roots r ≡ true
      → decode_key e r.key ≡ decoded
      → IsNamed key
      → IsNamed (move_to e r key decoded).0
  unfolding move_to
  move_to-IsNamed r key none fits valid is named = named
  move_to-IsNamed r key (some new) fits valid is named = verify_rotation-IsNamed r new fits valid is

  advance-IsNamed :
      (before : ℕ × Bytes) (r : Option Rotation)
      → FitsRotation r
      → IsNamed before.1
      → IsNamed (advance e roots before r).0
  unfolding advance
  advance-IsNamed (seq, key) none fits named = named
  advance-IsNamed (seq, key) (some r) fits named =
      elim (Bool-cases (ltb seq r.seq && verify_rotation e roots r)) [
        | inl goes ↦
            let (_, valid) = (&&_iff (ltb seq r.seq) (verify_rotation e roots r)).0 goes in
            rw goes (move_to-IsNamed r key (decode_key e r.key) fits valid refl named)
        | inr stays ↦ rw stays named
      ]

  -- Whatever is stored, a crafted backup included, and whatever rotation comes with a list or manifest:
  -- the key that it is verified with is the release's, or one that the recovery key has signed for this
  -- very purpose. Signatures under the recovery key must be of what it has signed, and sequence numbers
  -- of 64 bits.
  pub current_key-IsNamed :
      (learned : Option Trust) (rotation : Option Rotation)
      → FitsTrust learned
      → FitsRotation rotation
      → IsNamed (current_key e roots learned rotation).0
  unfolding current_key
  current_key-IsNamed learned rotation trust_fits fits =
      advance-IsNamed (trusted e roots learned) rotation fits (trusted-IsNamed learned trust_fits)
