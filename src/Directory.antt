-- ===== src/Directory.antt =====
-- The signed relay list (core/src/directory.rs): its signature, its fetch (core/src/node.rs,
-- `fetch_directory`), and how a device adopts it (core/src/node/messaging.rs, `adopt_directory`,
-- `begin_directory_fetch`, `finish_directory_fetch`). Strings are lists of code points.
pub mod Relays
pub mod Adopted
pub mod Listed
use Prim.Native.String.{◌++◌ as append}
use nightdrop.Directory.Relays.{RelayEntry, polled_relay_set, has_relay}
use nightdrop.Keyroll.{Roots, Rotation, Signatures, Trust, array_of, bind, current_key, trim}
use nightdrop.Keyroll.Rotations.{keep}
use nightdrop.Prelude.{
  Bool, List, Option, [], false, if◌then◌else◌, leb, length, ltb, map, none, not, replicate, retain,
  some, true, ℕ, ◌&&◌, ◌*◌, ◌++◌, ◌+◌, ◌∷◌, String,
}
use nightdrop.Prelude.Bytes.{Bytes, same}
use nightdrop.Prelude.Result.{Result, ok, fail, ◌>>=◌}

abbrev pub max_site_bytes : ℕ
max_site_bytes = 16 * 1024

abbrev pub check_interval_secs : ℕ
check_interval_secs = 24 * 3600

abbrev pub retry_interval_secs : ℕ
retry_interval_secs = 3 * 3600

pub record RelayDirectory : Type 0 where
  pub version : ℕ
  pub issued_at : ℕ
  pub relays : List Bytes

pub record SignedDirectory : Type 0 where
  pub payload : Bytes
  pub sig : Bytes
  pub rotation : Option Rotation

-- serde_json on the two structs, `String::from_utf8`, the printing of numbers, and ed25519's `verify` with a key, of a message
-- and its signature.
pub record Formats : Type 0 where
  pub to_string : SignedDirectory → Bytes
  pub from_str : Bytes → Option SignedDirectory
  pub to_vec : RelayDirectory → Bytes
  pub from_slice : Bytes → Option RelayDirectory
  pub from_utf8 : Bytes → Result Bytes
  pub show : ℕ → String
  pub verify : Bytes → Bytes → Bytes → Bool

-- What a fetch asks: the site, through the transport, and each relay.
pub record DirectoryFetchPlan : Type 0 where
  pub onion_get_capped : Option (Result Bytes)
  pub get_directory : List (Result (Option Bytes))

pub record DirectoryFetchResult : Type 0 where
  pub site : Option (Result Bytes)
  pub relay_lists : List Bytes

pub data DirectoryOutcome : Type 0 where
  invalid current : DirectoryOutcome
  applied : Bool → DirectoryOutcome

-- The fields of the node that the relay list touches.
pub record Listing : Type 0 where
  pub directory_version : ℕ
  pub discovered_relays : List Bytes
  pub directory_key : Option Trust
  pub directory_next_check : ℕ
  pub relays : List RelayEntry
  pub relays_draining : List (RelayEntry × ℕ)
  pub relay_reachable : List (Bytes × Bool)
  pub dirty : Bool

unfoldable pub clean : List Bytes → List Bytes
clean relays = retain (λ s. not (same s [])) (map trim relays)

abbrev pub same_relays : List Bytes → List Bytes → Bool
same_relays [] [] = true
same_relays (a ∷ r) (b ∷ s) = same a b && same_relays r s
same_relays _ _ = false

-- A rotated key is stored.
unfoldable pub learn_key : Option Trust → Listing → Listing
learn_key none d = d
learn_key (some trust) d = record d { directory_key = some trust; dirty = true }

-- A genuine list, at this time of the clock.
unfoldable pub adopt_genuine : ℕ → RelayDirectory → Listing → Listing × DirectoryOutcome
adopt_genuine clock dir d =
    let cleaned = clean dir.relays in
    let keep = cleaned ++ (polled_relay_set d.relays d.relays_draining clock).relays in
    if leb dir.version d.directory_version then (d, current) else (
      record d {
        discovered_relays = cleaned;
        directory_version = dir.version;
        relay_reachable = retain (λ h. has_relay keep h.0) d.relay_reachable;
        dirty = true;
      },
      applied (not (same_relays cleaned d.discovered_relays)),
    )

unfoldable pub adopt_verified :
    ℕ → Option Trust → Option RelayDirectory → Listing → Listing × DirectoryOutcome
adopt_verified clock moved none d = (d, invalid)
adopt_verified clock moved (some dir) d = adopt_genuine clock dir (learn_key moved d)

-- The relays' answers that are a list.
unfoldable pub answered : List (Result (Option Bytes)) → List Bytes
answered [] = []
answered (ok (some wire) ∷ rest) = wire ∷ answered rest
answered (ok none ∷ rest) = answered rest
answered (fail why ∷ rest) = answered rest

unfoldable pub begin_directory_fetch : ℕ → Listing → Listing
begin_directory_fetch now d = record d {
  directory_next_check = now + retry_interval_secs;
  dirty = true;
}

module _ (e : Signatures) (f : Formats) where
  unfoldable pub from_wire : Bytes → Option SignedDirectory
  from_wire s = f.from_str s

  unfoldable pub verify_with : Bytes → Bytes → Option Bytes → Option RelayDirectory
  verify_with pubkey payload none = none
  verify_with pubkey payload (some sig) =
      if e.is_key pubkey && f.verify pubkey payload sig then f.from_slice payload else none

  -- `SignedDirectory::verify`
  unfoldable pub verify : SignedDirectory → Bytes → Option RelayDirectory
  verify signed pubkey =
      if same pubkey (replicate 32 0)
      then none
      else bind (e.decode signed.payload)
          (λ payload. verify_with pubkey payload (bind (e.decode signed.sig) (array_of 64)))

  -- `sign`, with the secret of the key
  unfoldable pub sign : RelayDirectory → Bytes → SignedDirectory
  sign dir secret =
      let payload = f.to_vec dir in
      record { payload = e.encode payload; sig = e.encode (e.sign secret payload); rotation = none }

  unfoldable pub with_rotation : Bytes → Rotation → Option Bytes
  with_rotation wire r =
      bind (from_wire wire) (λ signed. some (f.to_string (record signed { rotation = some r })))

  unfoldable pub sign_list : Bytes → ℕ → ℕ → List Bytes → Option Bytes
  sign_list privkey_b64 version issued_at relays =
      bind (bind (e.decode (trim privkey_b64)) (array_of 32)) (λ secret. some (
        f.to_string
          (sign (record { version = version; issued_at = issued_at; relays = relays }) secret)))

  abbrev too_long : ℕ → String
  too_long size =
      append "relay list is " (
        append (f.show size) (append " bytes, over the " (append (f.show max_site_bytes) " limit")))

  unfoldable pub within_limit : Result Bytes → Result Bytes
  within_limit fetched = fetched >>= (λ body.
      if ltb max_site_bytes (length body) then fail (too_long (length body)) else f.from_utf8 body)

  unfoldable pub fetch_from_site : Option (Result Bytes) → Option (Result Bytes)
  fetch_from_site none = none
  fetch_from_site (some fetched) = some (within_limit fetched)

  -- The relays are asked only when the site gave nothing.
  unfoldable pub lists_after : Option (Result Bytes) → List (Result (Option Bytes)) → List Bytes
  lists_after (some (ok wire)) answers = []
  lists_after (some (fail why)) answers = answered answers
  lists_after none answers = answered answers

  unfoldable pub fetch_directory : DirectoryFetchPlan → DirectoryFetchResult
  fetch_directory plan =
      let site = fetch_from_site plan.onion_get_capped in
      record { site = site; relay_lists = lists_after site plan.get_directory }

  unfoldable pub adopt_signed :
      Roots → ℕ → Option SignedDirectory → Listing → Listing × DirectoryOutcome
  adopt_signed roots clock none d = (d, invalid)
  adopt_signed roots clock (some signed) d =
      let found = current_key e roots d.directory_key signed.rotation in
      adopt_verified clock found.1 (verify signed found.0) d

  unfoldable pub adopt_directory : Roots → ℕ → Bytes → Listing → Listing × DirectoryOutcome
  adopt_directory roots clock wire d = adopt_signed roots clock (from_wire wire) d

  unfoldable pub from_site :
      Roots → ℕ → Option (Result Bytes) → Listing → Listing × DirectoryOutcome
  from_site roots clock (some (ok wire)) d = adopt_directory roots clock wire d
  from_site roots clock (some (fail why)) d = (d, invalid)
  from_site roots clock none d = (d, invalid)

  -- The first list that is genuine and newer wins.
  abbrev pub unless_applied : Listing × DirectoryOutcome → Listing → Listing
  unless_applied (d, invalid) rest = rest
  unless_applied (d, current) rest = rest
  unless_applied (d, applied changed) rest = d

  unfoldable pub from_relays : Roots → ℕ → List Bytes → Listing → Listing
  from_relays roots clock [] d = d
  from_relays roots clock (wire ∷ wires) d =
      let adopted = adopt_directory roots clock wire d in
      unless_applied adopted (from_relays roots clock wires adopted.0)

  unfoldable pub finish_with : Roots → ℕ → List Bytes → ℕ → Listing × DirectoryOutcome → Listing
  finish_with roots clock relay_lists now (d, invalid) =
      record (from_relays roots clock relay_lists d) {
        directory_next_check = now + retry_interval_secs;
        dirty = true;
      }
  finish_with roots clock relay_lists now (d, current) = record d {
    directory_next_check = now + check_interval_secs;
    dirty = true;
  }
  finish_with roots clock relay_lists now (d, applied changed) = record d {
    directory_next_check = now + check_interval_secs;
    dirty = true;
  }

  unfoldable pub finish_directory_fetch : Roots → ℕ → DirectoryFetchResult → ℕ → Listing → Listing
  finish_directory_fetch roots clock result now d =
      finish_with roots clock result.relay_lists now (from_site roots clock result.site d)
