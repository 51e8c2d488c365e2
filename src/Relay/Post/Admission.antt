-- ===== src/Relay/Post/Admission.antt =====
-- Which posts are accepted (the limits checked by `process` at `Request::Post`).
use nightdrop.Prelude.{
  ℕ, ◌+◌, ◌-◌, ◌^◌, ◌≤◌, ◌<◌, ◌≡◌, refl, ◌↔◌, true, none, some, length, arith, inl, inr,
}
use nightdrop.Prelude.Bytes.{Bytes}
use nightdrop.Relay.Types.{
  Platform, RelayLimits, StoreInner, default_limits, max_handle_bytes, valid_handle, entry_cost,
}
use nightdrop.Relay.Budget.{sizes}
use nightdrop.Relay.Store.{queue_of}
use nightdrop.Relay.Post.{Reading, reject, process_post}
use nightdrop.Relay.Post.Cases.{process_post-cases}

-- The relay-wide total after a blob of `len` bytes.
abbrev pub total_after : RelayLimits → StoreInner → Bytes → ℕ → ℕ
total_after limits s handle len = s.total_bytes + entry_cost handle len limits.entry_overhead_bytes

-- What the limits ask of a blob of `len` bytes, as the documentation of `RelayLimits` has it.
pub record Admits (limits : RelayLimits) (s : StoreInner) (handle : Bytes) (len : ℕ) : Type 0 where
  pub not_too_large : len ≤ limits.max_blob_bytes
  pub total_fits : total_after limits s handle len ≤ limits.max_total_bytes
  leaves_reserve :
      limits.small_blob_bytes < len
      → total_after limits s handle len ≤ limits.max_total_bytes - limits.small_reserve_bytes
  pub room_for_one : length (queue_of s handle) < limits.max_mailbox_blobs
  pub mailbox_fits : sizes (queue_of s handle) + len ≤ limits.max_mailbox_bytes

pub reject-Admits :
    (limits : RelayLimits) (s : StoreInner) (handle : Bytes) (len : ℕ)
    → reject limits s handle len ≡ none
    → Admits limits s handle len
unfolding reject
reject-Admits limits s handle len h = record {
  not_too_large = ground arith;
  total_fits = ground arith;
  leaves_reserve = λ large. ground arith;
  room_for_one = ground arith;
  mailbox_fits = ground arith;
}

Admits-reject :
    (limits : RelayLimits) (s : StoreInner) (handle : Bytes) (len : ℕ)
    → Admits limits s handle len
    → reject limits s handle len ≡ none
unfolding reject
Admits-reject limits s handle len a =
    ground (arith, a.not_too_large, a.total_fits, a.leaves_reserve, a.room_for_one, a.mailbox_fits)

module _ (p : Platform) (limits : RelayLimits) (r : Reading) (s : StoreInner) where
  -- A post is accepted exactly when its blob is base64, its handle is valid and the limits admit it.
  pub post_accepted_iff :
      (handle blob : Bytes) (ttl_secs : ℕ)
      → ((process_post p limits r s handle blob ttl_secs).response.ok ≡ true) ↔ (
          (bytes : Bytes) × (p.decode blob ≡ some bytes)
          × (valid_handle handle ≡ true)
          × Admits limits s handle (length bytes))
  post_accepted_iff handle blob ttl_secs = (
    λ ok. elim (process_post-cases p limits r s handle blob ttl_secs) [
      | inl out ↦ cc (out.refused)
      | inr took ↦ (
        took.bytes,
        took.decoded,
        took.valid,
        reject-Admits limits s handle (length took.bytes) took.admitted,
      )
    ],
    λ (bytes, decoded, valid, admits).
        unfold process_post in
        rw (decoded, valid, Admits-reject limits s handle (length bytes) admits) refl,
  )

valid_handle-le : (handle : Bytes) → valid_handle handle ≡ true → length handle ≤ max_handle_bytes
unfolding valid_handle
valid_handle-le handle h = ground arith

-- With the default limits, for a valid handle, a blob within its limit and a store within the total,
-- the sum that `process` compares with the total stays below 2^32, so it cannot overflow a 32-bit
-- `usize`.
total_after_no_overflow :
    (s : StoreInner) (handle : Bytes) (len : ℕ)
    → s.total_bytes ≤ default_limits.max_total_bytes
    → valid_handle handle ≡ true
    → len ≤ default_limits.max_blob_bytes
    → total_after default_limits s handle len < 2 ^ 32
unfolding entry_cost
total_after_no_overflow s handle len total valid small = omega (arith, valid_handle-le handle valid)
