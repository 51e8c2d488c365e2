-- ===== src/Keyroll/Rotations.antt =====
-- Which key is trusted (core/src/keyroll.rs, `current_key`), over one fetch and over many.
use nightdrop.Keyroll.{
  Roots, Rotation, Signatures, Trust, advance, current_key, decode_key, move_to, trim, trusted,
  verify_rotation, verify_sig, array_of, as_rotation, bind, from_trust, message,
}
use nightdrop.Keyroll.Trimmed.{trim-trim}
use nightdrop.Prelude.{
  Bool-cases, List, Option, [], inl, inr, ltb, none, refl, some, true, ℕ, ◌&&◌, ◌<◌, ◌∷◌, ◌≡◌,
  &&_iff, arith, ltb→lt, lt→ltb, ◌∙◌, ◌≤◌, ap,
}
use nightdrop.Prelude.Bytes.{Bytes}

module _ (e : Signatures) (roots : Roots) where
  -- What is stored after a fetch.
  unfoldable pub keep : Option Trust → Option Trust → Option Trust
  keep learned none = learned
  keep learned (some moved) = some moved

  unfoldable pub learned_after : Option Trust → List (Option Rotation) → Option Trust
  learned_after learned [] = learned
  learned_after learned (r ∷ rs) = learned_after (keep learned (current_key e roots learned r).1) rs

  trimmed_rotation : Rotation → Rotation
  trimmed_rotation r = record r { key = trim r.key; sig = trim r.sig }

  verify_sig-trimmed :
      (r : Rotation) (sig : Option Bytes)
      → verify_sig e roots (trimmed_rotation r) sig ≡ verify_sig e roots r sig
  unfolding verify_sig trimmed_rotation
  verify_sig-trimmed r none = refl
  verify_sig-trimmed r (some sig) =
      ap (λ k. e.verify_strict roots.recovery (message roots.purpose r.seq k) sig) (trim-trim r.key)

  -- A rotation is as good trimmed.
  verify-trimmed :
      (r : Rotation) → verify_rotation e roots (trimmed_rotation r) ≡ verify_rotation e roots r
  unfolding verify_rotation trimmed_rotation
  verify-trimmed r =
      let same_sig = verify_sig-trimmed r (bind (e.decode (trim r.sig)) (array_of 64)) in
      rw (trim-trim r.sig, same_sig) refl

  pub decode_key-trim : (key : Bytes) → decode_key e (trim key) ≡ decode_key e key
  unfolding decode_key
  decode_key-trim key = rw (trim-trim key) refl

  -- A fetch that moves the key moves it to a later sequence number, and what is stored says so.
  unfoldable pub Moves : ℕ × Bytes → Bytes × Option Trust → Type 0
  Moves (seq, key) (now, none) = now ≡ key
  Moves (seq, key) (now, some t) = (seq < t.seq) × (trusted e roots (some t) ≡ (t.seq, now))

  unfold_trimmed :
      (r : Rotation)
      → verify_rotation e roots r ≡ true
      → verify_rotation e roots
          (as_rotation e (record { seq = r.seq; key = trim r.key; sig = trim r.sig }))
        ≡ true
  unfolding trimmed_rotation
  unfold_trimmed r valid = verify-trimmed r ∙ valid

  move_to-Moves :
      (before : ℕ × Bytes) (r : Rotation) (decoded : Option Bytes)
      → before.0 < r.seq
      → verify_rotation e roots r ≡ true
      → decode_key e r.key ≡ decoded
      → Moves before (move_to e r before.1 decoded)
  unfolding Moves move_to trusted from_trust
  move_to-Moves before r none later valid is = refl
  move_to-Moves before r (some new) later valid is =
      let checks = unfold_trimmed r valid in
      let past : ltb 0 r.seq ≡ true = lt→ltb 0 r.seq (omega (arith, later)) in
      (later, rw (checks, decode_key-trim r.key, is, past) refl)

  pub advance-Moves :
      (before : ℕ × Bytes) (r : Option Rotation) → Moves before (advance e roots before r)
  unfolding advance
  advance-Moves (seq, key) none = unfold Moves in refl
  advance-Moves (seq, key) (some r) =
      elim (Bool-cases (ltb seq r.seq && verify_rotation e roots r)) [
        | inl goes ↦
            let (later, valid) = (&&_iff (ltb seq r.seq) (verify_rotation e roots r)).0 goes in
            rw goes
              (move_to-Moves (seq, key) r (decode_key e r.key) (ltb→lt seq r.seq later) valid refl)
        | inr stays ↦ rw stays (unfold Moves in refl)
      ]

  -- One fetch: the sequence number does not fall, and the key returned is the one that is trusted
  -- afterwards.
  pub fetch :
      (learned : Option Trust) (r : Option Rotation)
      → (let found = current_key e roots learned r in
          let before = trusted e roots learned in
          let after = trusted e roots (keep learned found.1) in
          (before.0 ≤ after.0) × (before.0 ≡ after.0 → before ≡ after) × (found.0 ≡ after.1))
  unfolding current_key
  fetch learned r =
      kept (trusted e roots learned) (advance e roots (trusted e roots learned) r) refl
        (advance-Moves (trusted e roots learned) r)
    where
      kept :
          (before : ℕ × Bytes) (found : Bytes × Option Trust)
          → trusted e roots learned ≡ before
          → Moves before found
          → (let after = trusted e roots (keep learned found.1) in
              (before.0 ≤ after.0) × (before.0 ≡ after.0 → before ≡ after) × (found.0 ≡ after.1))
      kept (seq, key) (now, none) is moves =
          unfold keep Moves in rw is (omega arith, λ _. refl, moves)
      kept (seq, key) (now, some t) is moves =
          unfold keep Moves in
          rw moves.1
            (omega (arith, moves.0), λ same_seq. absurd (omega (arith, moves.0, same_seq)), refl)

  -- Over any fetches, with any rotations and whatever is stored at first: the trusted sequence number
  -- never falls, and while it stays the same, so does the trusted key.
  pub never_rolls_back :
      (learned : Option Trust) (rotations : List (Option Rotation))
      → (let before = trusted e roots learned in
          let after = trusted e roots (learned_after learned rotations) in
          (before.0 ≤ after.0) × (before.0 ≡ after.0 → before ≡ after))
  unfolding learned_after
  never_rolls_back learned [] = (omega arith, λ _. refl)
  never_rolls_back learned (r ∷ rs) =
      let (rises, same_key, _) = fetch learned r in
      let next = keep learned (current_key e roots learned r).1 in
      let (later, later_same) = never_rolls_back next rs in
      (
        omega (arith, rises, later),
        λ same_seq.
            same_key (omega (arith, rises, later, same_seq))
            ∙ later_same (omega (arith, rises, later, same_seq)),
      )
