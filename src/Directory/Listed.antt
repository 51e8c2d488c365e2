-- ===== src/Directory/Listed.antt =====
-- Who can put a relay into the discovered list (core/src/node/messaging.rs, `adopt_directory` and
-- `finish_directory_fetch`, with `current_key` of core/src/keyroll.rs).
use mathlib.Core.Path.{subst}
use nightdrop.Directory.{
  learn_key, DirectoryOutcome, invalid, current, applied, DirectoryFetchResult, Formats, Listing,
  RelayDirectory, SignedDirectory, adopt_directory, adopt_genuine, adopt_signed, adopt_verified,
  clean, finish_directory_fetch, finish_with, from_relays, from_site, from_wire, unless_applied,
  verify,
}
use nightdrop.Keyroll.{
  Roots, Rotation, Signatures, Trust, advance, current_key, decode_key, move_to, trusted,
  verify_rotation,
}
use nightdrop.Keyroll.Signed.{
  Signed, FitsRotation, FitsTrust, IsNamed, IsUnforgeable, current_key-IsNamed,
}
use nightdrop.Prelude.{
  Bool-cases, List, Option, [], inl, inr, leb, ltb, none, refl, some, true, ℕ, ◌&&◌, ◌<◌, ◌^◌, ◌∙◌,
  ◌∷◌, ◌≡◌, ◌⊎◌,
}
use nightdrop.Prelude.Bytes.{Bytes}
use nightdrop.Prelude.Result.{Result, ok, fail}

-- A sequence number that serde reads is a u64.
abbrev pub IsRead : Formats → Type 0
IsRead f =
    (s : Bytes) (parsed : SignedDirectory)
    → f.from_str s ≡ some parsed
    → FitsRotation parsed.rotation

move_to-fits :
    (e : Signatures) (r : Rotation) (key : Bytes) (decoded : Option Bytes)
    → r.seq < 2 ^ 64
    → FitsTrust (move_to e r key decoded).1
unfolding move_to
move_to-fits e r key none fits = tt
move_to-fits e r key (some new) fits = fits

current_key-fits :
    (e : Signatures) (roots : Roots) (learned : Option Trust) (r : Option Rotation)
    → FitsRotation r
    → FitsTrust (current_key e roots learned r).1
unfolding current_key advance
current_key-fits e roots learned none fits = tt
current_key-fits e roots learned (some r) fits =
    let before = trusted e roots learned in
    elim (Bool-cases (ltb before.0 r.seq && verify_rotation e roots r)) [
      | inl goes ↦ rw goes (move_to-fits e r before.1 (decode_key e r.key) fits)
      | inr stays ↦ rw stays tt
    ]

module _ (e : Signatures) (f : Formats) (roots : Roots) (signed : Signed)
    (safe : IsUnforgeable e roots signed) (reads : IsRead f) where
  -- The relays of a list that verifies under the key of the release, or under one that its recovery
  -- key has signed.
  unfoldable pub IsListed : List Bytes → Type 0
  IsListed relays =
      (s : SignedDirectory) × (key : Bytes) × (dir : RelayDirectory) × IsNamed e roots signed safe
        key
      × (verify e f s key ≡ some dir)
      × (clean dir.relays ≡ relays)

  -- What one list may do.
  unfoldable pub Allowed : Listing → Listing → Type 0
  Allowed d d' =
      FitsTrust d'.directory_key
      × ((d.discovered_relays ≡ d'.discovered_relays) ⊎ IsListed d'.discovered_relays)

  same-Allowed : (d : Listing) → FitsTrust d.directory_key → Allowed d d
  unfolding Allowed
  same-Allowed d fits = (fits, inl refl)

  Allowed-fits : (d d' : Listing) → Allowed d d' → FitsTrust d'.directory_key
  unfolding Allowed
  Allowed-fits d d' h = h.0

  Allowed-trans : (d d' d'' : Listing) → Allowed d d' → Allowed d' d'' → Allowed d d''
  unfolding Allowed
  Allowed-trans d d' d'' (_, inl same_list) (fits, inl still) = (fits, inl (same_list ∙ still))
  Allowed-trans d d' d'' (_, inr listed) (fits, inl still) =
      (fits, inr (subst IsListed still listed))
  Allowed-trans d d' d'' _ (fits, inr listed) = (fits, inr listed)

  genuine-Allowed :
      (clock : ℕ) (s : SignedDirectory) (key : Bytes) (dir : RelayDirectory) (d : Listing)
      → FitsTrust d.directory_key
      → IsNamed e roots signed safe key
      → verify e f s key ≡ some dir
      → Allowed d (adopt_genuine clock dir d).0
  unfolding Allowed adopt_genuine IsListed
  genuine-Allowed clock s key dir d fits named valid =
      elim (Bool-cases (leb dir.version d.directory_version)) [
        | inl older ↦ rw older (fits, inl refl)
        | inr newer ↦ rw newer (fits, inr (s, key, dir, named, valid, refl))
      ]

  learn_key-Allowed :
      (d : Listing) (r : Option Rotation)
      → FitsTrust d.directory_key
      → FitsRotation r
      → Allowed d (learn_key (current_key e roots d.directory_key r).1 d)
  unfolding Allowed learn_key
  learn_key-Allowed d r fits fits_r =
      cases (current_key e roots d.directory_key r).1
        (current_key-fits e roots d.directory_key r fits_r)
    where
      cases : (moved : Option Trust) → FitsTrust moved → Allowed d (learn_key moved d)
      cases none _ = (fits, inl refl)
      cases (some trust) fits_moved = (fits_moved, inl refl)

  adopt-Allowed :
      (clock : ℕ) (wire : Bytes) (d : Listing)
      → FitsTrust d.directory_key
      → Allowed d (adopt_directory e f roots clock wire d).0
  unfolding adopt_directory adopt_signed adopt_verified from_wire
  adopt-Allowed clock wire d fits = signed_cases (f.from_str wire) refl
    where
      verified_cases :
          (s : SignedDirectory)
          → FitsRotation s.rotation
          → (dir : Option RelayDirectory)
          → verify e f s (current_key e roots d.directory_key s.rotation).0 ≡ dir
          → Allowed d
              (adopt_verified clock (current_key e roots d.directory_key s.rotation).1 dir d).0
      verified_cases s fits_s none is = same-Allowed d fits
      verified_cases s fits_s (some dir) is =
          let found = current_key e roots d.directory_key s.rotation in
          let moved = learn_key found.1 d in
          let learned = learn_key-Allowed d s.rotation fits fits_s in
          let named =
            current_key-IsNamed e roots signed safe d.directory_key s.rotation fits fits_s in
          Allowed-trans d moved _ learned
            (genuine-Allowed clock s found.0 dir moved (Allowed-fits d moved learned) named is)

      signed_cases :
          (parsed : Option SignedDirectory)
          → f.from_str wire ≡ parsed
          → Allowed d (adopt_signed e f roots clock parsed d).0
      signed_cases none is = same-Allowed d fits
      signed_cases (some s) is =
          verified_cases s (reads wire s is)
            (verify e f s (current_key e roots d.directory_key s.rotation).0) refl

  from_relays-Allowed :
      (clock : ℕ) (wires : List Bytes) (d : Listing)
      → FitsTrust d.directory_key
      → Allowed d (from_relays e f roots clock wires d)
  unfolding from_relays
  from_relays-Allowed clock [] d fits = same-Allowed d fits
  from_relays-Allowed clock (wire ∷ wires) d fits =
      let first = adopt-Allowed clock wire d fits in
      cases (adopt_directory e f roots clock wire d) first (
        from_relays-Allowed clock wires (adopt_directory e f roots clock wire d).0
          (Allowed-fits d (adopt_directory e f roots clock wire d).0 first))
    where
      cases :
          (adopted : Listing × DirectoryOutcome)
          → Allowed d adopted.0
          → Allowed adopted.0 (from_relays e f roots clock wires adopted.0)
          → Allowed d (unless_applied e f adopted (from_relays e f roots clock wires adopted.0))
      cases (d', invalid) h rest = Allowed-trans d d' _ h rest
      cases (d', current) h rest = Allowed-trans d d' _ h rest
      cases (d', applied changed) h rest = h

  from_site-Allowed :
      (clock : ℕ) (site : Option (Result Bytes)) (d : Listing)
      → FitsTrust d.directory_key
      → Allowed d (from_site e f roots clock site d).0
  unfolding from_site
  from_site-Allowed clock none d fits = same-Allowed d fits
  from_site-Allowed clock (some (ok wire)) d fits = adopt-Allowed clock wire d fits
  from_site-Allowed clock (some (fail why)) d fits = same-Allowed d fits

  scheduled-Allowed :
      (d d' : Listing) (due_at : ℕ)
      → Allowed d d'
      → Allowed d (record d' { directory_next_check = due_at; dirty = true })
  unfolding Allowed
  scheduled-Allowed d d' due_at h = h

  -- Whatever a hostile site or relay answers: after a fetch the discovered relays are those from
  -- before, or the trimmed, non-blank ones of a list that verifies under the release's key or under
  -- a key that its recovery key has signed for this purpose; and a stored rotation has a sequence
  -- number of 64 bits again. Signatures under the recovery key must be of what it has signed, and
  -- sequence numbers that are read or stored be of 64 bits.
  pub finish-Allowed :
      (clock now : ℕ) (result : DirectoryFetchResult) (d : Listing)
      → FitsTrust d.directory_key
      → Allowed d (finish_directory_fetch e f roots clock result now d)
  unfolding finish_directory_fetch finish_with
  finish-Allowed clock now result d fits =
      cases (from_site e f roots clock result.site d) (from_site-Allowed clock result.site d fits)
    where
      cases :
          (adopted : Listing × DirectoryOutcome)
          → Allowed d adopted.0
          → Allowed d (finish_with e f roots clock result.relay_lists now adopted)
      cases (d', invalid) h =
          let taken = from_relays e f roots clock result.relay_lists d' in
          let rest = from_relays-Allowed clock result.relay_lists d' (Allowed-fits d d' h) in
          scheduled-Allowed d taken _ (Allowed-trans d d' taken h rest)
      cases (d', current) h = scheduled-Allowed d d' _ h
      cases (d', applied changed) h = scheduled-Allowed d d' _ h
