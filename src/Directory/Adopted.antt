-- ===== src/Directory/Adopted.antt =====
-- What a fetch of the relay list can change (core/src/node/messaging.rs, `adopt_directory` and
-- `finish_directory_fetch`).
use nightdrop.Directory.{
  Formats, Listing, DirectoryFetchPlan, SignedDirectory, adopt_directory, adopt_signed,
  adopt_verified, check_interval_secs, fetch_directory, fetch_from_site, finish_directory_fetch,
  finish_with, from_relays, from_site, from_wire, lists_after, retry_interval_secs, verify,
  DirectoryOutcome, invalid, current, applied,
}
use nightdrop.Keyroll.{Roots, Signatures, current_key, trusted}
use nightdrop.Prelude.{inl, inr, none, refl, some, true, ℕ, ◌+◌, ◌≡◌, ◌≤◌, ◌⊎◌}
use nightdrop.Prelude.Bytes.{Bytes}
use nightdrop.Prelude.Result.{Result, ok}

module _ (e : Signatures) (f : Formats) (roots : Roots) where
  -- Neither the list nor the key has gone back.
  unfoldable pub Follows : Listing → Listing → Type 0
  Follows d d' =
      (d.directory_version ≤ d'.directory_version)
      × (d.directory_version ≡ d'.directory_version → d.discovered_relays ≡ d'.discovered_relays)
      × ((trusted e roots d.directory_key).0 ≤ (trusted e roots d'.directory_key).0)

  -- When the next fetch is due, by what the site's list came to.
  abbrev pub due : ℕ → DirectoryOutcome → ℕ
  due now invalid = now + retry_interval_secs
  due now current = now + check_interval_secs
  due now (applied changed) = now + check_interval_secs

  -- When the site answers with a body that is no list, or a list that does not verify under the key
  -- that is current with its own rotation, no relay is asked: applying the fetch leaves the list, its
  -- version and the learned key as they were, whatever lists the relays would have served, and the next
  -- fetch is due after the retry interval.
  pub unverified_site :
      (clock now : ℕ) (plan : DirectoryFetchPlan) (wire : Bytes) (d : Listing)
      → fetch_from_site e f plan.onion_get_capped ≡ some (ok wire)
      → (from_wire e f wire ≡ none)
        ⊎ ((signed : SignedDirectory) × (from_wire e f wire ≡ some signed)
            × (verify e f signed (current_key e roots d.directory_key signed.rotation).0 ≡ none))
      → finish_directory_fetch e f roots clock (fetch_directory e f plan) now d
        ≡ record d { directory_next_check = now + retry_interval_secs; dirty = true }
  unfolding finish_directory_fetch fetch_directory lists_after from_site finish_with from_relays
      adopt_directory adopt_signed adopt_verified
  unverified_site clock now plan wire d answers (inl no_list) = rw (answers, no_list) refl
  unverified_site clock now plan wire d answers (inr (signed, parsed, forged)) =
      rw (answers, parsed, forged) refl
