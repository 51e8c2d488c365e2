-- ===== src/Tests/Directory.antt =====
-- A device that learns a rotated list-signing key and two relays in one fetch, and one whose site is
-- hijacked.
use mathlib.Core.Path.{subst}
use nightdrop.Directory.{
  DirectoryFetchResult, Formats, Listing, DirectoryFetchPlan, RelayDirectory, SignedDirectory,
  fetch_from_site, fetch_directory, adopt_directory, finish_directory_fetch, retry_interval_secs,
  from_site, adopt_genuine, adopt_signed, adopt_verified, clean, finish_with, from_relays,
  from_wire, learn_key, verify, verify_with, within_limit,
}
use nightdrop.Directory.Adopted.{unverified_site}
use nightdrop.Directory.Listed.{Allowed, IsRead, finish-Allowed}
use nightdrop.Directory.Relays.{onion}
use nightdrop.Keyroll.{
  directory, Roots, Signatures, advance, array_of, cons_unless_blank, current_key, decimal,
  decode_key, is_whitespace, label, message, move_to, trim, trim_end, trim_start, trusted,
  verify_rotation, verify_sig,
}
use nightdrop.Keyroll.Signed.{FitsRotation, IsUnforgeable}
use nightdrop.Prelude.{
  Option, [], arith, false, inl, none, refl, replicate, some, true, ◌&&◌, ◌+◌, ◌∷◌, ◌≡◌, inr,
}
use nightdrop.Prelude.Bytes.{Bytes, codes, eq_of_same, same}
use nightdrop.Prelude.Result.{ok, fail}

abbrev signer_key : Bytes
signer_key = replicate 32 67

abbrev stamped : Bytes
stamped = replicate 64 65

-- One rotation verifies, to `signer_key` with the sequence number 1.
abbrev rotated_once : Signatures
rotated_once = record {
  encode = λ b. b;
  decode = some;
  is_key = λ key. true;
  verify_strict = λ key m sig. same m (message directory 1 signer_key);
  sign = λ secret m. stamped;
  public_of = λ secret. secret;
}

abbrev list_roots : Roots
list_roots = record { purpose = directory; signing = replicate 32 1; recovery = replicate 32 2 }

rotated_once-IsUnforgeable : IsUnforgeable rotated_once list_roots ((directory, 1, signer_key) ∷ [])
rotated_once-IsUnforgeable = record {
  genuine = λ m sig h. inl (eq_of_same m (message directory 1 signer_key) h);
  small = (omega arith, tt);
}

abbrev published : SignedDirectory
published = record {
  payload = codes "two relays";
  sig = stamped;
  rotation = some (record { seq = 1; key = signer_key; sig = stamped });
}

abbrev two_relays : RelayDirectory
two_relays = record {
  version = 4;
  issued_at = 9;
  relays = codes " a.onion" ∷ codes " " ∷ codes "b.onion" ∷ [];
}

abbrev formats : Formats
formats = record {
  to_string = λ s. codes "list";
  from_str = λ s. some published;
  to_vec = λ d. codes "two relays";
  from_slice = λ b. some two_relays;
  from_utf8 = ok;
  show = λ n. "";
  verify = λ key m sig. same key signer_key && same m (codes "two relays");
}

-- The site serves a list that no key has signed.
abbrev hijacked : Formats
hijacked = record formats { verify = λ key m sig. false }

abbrev device : Listing
device = record {
  directory_version = 3;
  discovered_relays = codes "old.onion" ∷ [];
  directory_key = none;
  directory_next_check = 0;
  relays = onion (codes "own.onion") ∷ [];
  relays_draining = [];
  relay_reachable = (codes "own.onion", true) ∷ (codes "old.onion", false) ∷ [];
  dirty = false;
}

abbrev FitsRead : Option SignedDirectory → Type 0
FitsRead none = Unit
FitsRead (some parsed) = FitsRotation parsed.rotation

formats-IsRead : IsRead formats
formats-IsRead s parsed h = subst FitsRead h (omega arith)

abbrev brought : DirectoryFetchResult
brought = record { site = some (fail "offline"); relay_lists = codes "list" ∷ [] }

finish-Allowed_example :
    Allowed rotated_once formats list_roots
      ((directory, 1, signer_key) ∷ [])
      rotated_once-IsUnforgeable
      formats-IsRead
      device
      (finish_directory_fetch rotated_once formats list_roots 100 brought 100 device)
finish-Allowed_example =
    finish-Allowed rotated_once formats list_roots ((directory, 1, signer_key) ∷ [])
      rotated_once-IsUnforgeable formats-IsRead 100 100 brought device tt

abbrev answered_all : DirectoryFetchPlan
answered_all = record {
  onion_get_capped = some (ok (codes "login page"));
  get_directory = ok (some (codes "list")) ∷ [];
}

unverified_site_example :
    finish_directory_fetch rotated_once hijacked list_roots 100
      (fetch_directory rotated_once hijacked answered_all)
      100
      device
    ≡ record device { directory_next_check = 100 + retry_interval_secs; dirty = true }
unfolding fetch_from_site within_limit
unverified_site_example =
    unverified_site rotated_once hijacked list_roots 100 100 answered_all (codes "login page")
      device refl (inr (published, unfold from_wire in refl, forged))
  where
    forged :
        verify rotated_once hijacked published
          (current_key rotated_once list_roots none published.rotation).0
        ≡ none
    forged =
        unfold verify verify_with current_key advance trusted verify_rotation verify_sig message
          same label decimal move_to decode_key array_of trim trim_start trim_end is_whitespace
          cons_unless_blank in
        refl

-- A relay's list is adopted when the site is offline: its relays, trimmed.
adopted_test :
    (finish_directory_fetch rotated_once formats list_roots 100 brought 100
      device).discovered_relays
    ≡ codes "a.onion" ∷ codes "b.onion" ∷ []
unfolding finish_directory_fetch from_site from_relays adopt_directory adopt_signed from_wire
    adopt_verified adopt_genuine learn_key clean verify verify_with current_key advance trusted
    verify_rotation verify_sig message same label decimal move_to decode_key array_of trim
    trim_start trim_end is_whitespace cons_unless_blank finish_with
adopted_test = refl
