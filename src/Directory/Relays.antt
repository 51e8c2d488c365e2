-- ===== src/Directory/Relays.antt =====
-- The relays that this device polls (core/src/storage/mod.rs, `RelayEntry` and `RelaySet`; core/src/node.rs,
-- `polled_relay_set`).
use nightdrop.Prelude.{
  Bool, List, [], false, if◌then◌else◌, ltb, map, retain, true, ℕ, ◌++◌, ◌||◌, ◌∷◌,
}
use nightdrop.Prelude.Bytes.{Bytes, same}

pub data RelayEntry : Type 0 where
  night_drop : RelayEntry
  onion : Bytes → RelayEntry

pub record RelaySet : Type 0 where
  pub nightdrop : Bool
  pub relays : List Bytes

-- `Vec::contains`
abbrev pub has_relay : List Bytes → Bytes → Bool
has_relay [] addr = false
has_relay (a ∷ rest) addr = same a addr || has_relay rest addr

-- One turn of the loop of `RelaySet::of`.
unfoldable pub with_entry : RelaySet → RelayEntry → RelaySet
with_entry set night_drop = record set { nightdrop = true }
with_entry set (onion addr) =
    if has_relay set.relays addr then set else record set { relays = set.relays ++ addr ∷ [] }

unfoldable pub with_entries : RelaySet → List RelayEntry → RelaySet
with_entries set [] = set
with_entries set (entry ∷ entries) = with_entries (with_entry set entry) entries

-- `RelaySet::of`
unfoldable pub relay_set_of : List RelayEntry → RelaySet
relay_set_of entries = with_entries (record { nightdrop = false; relays = [] }) entries

unfoldable pub polled_relay_set : List RelayEntry → List (RelayEntry × ℕ) → ℕ → RelaySet
polled_relay_set relays relays_draining now =
    relay_set_of (relays ++ map (λ d. d.0) (retain (λ d. ltb now d.1) relays_draining))
