-- ===== src/Wire/Padding.antt =====
-- Padded frame sizes (core/src/wire/mod.rs, `padded_len`, `frame_len`).
use Prim.Native.String.{◌++◌ as append}
use nightdrop.Prelude.{
  Bool-cases, List, String, [], arith, if◌then◌else◌, inl, inr, leb, tests, ℕ, ◌%◌, ◌*◌, ◌+◌, ◌-◌,
  ◌/◌, ◌<◌, ◌∷◌, ◌≡◌, ◌≤◌,
}
use nightdrop.Prelude.Bytes.{Bytes}
use nightdrop.Prelude.Result.{Result, ok, fail}

abbrev pub pad_block : ℕ
pad_block = 16 * 1024

abbrev pub pad_buckets : List ℕ
pad_buckets = 1024 ∷ 4096 ∷ 16384 ∷ []

-- `usize::div_ceil`
unfoldable pub div_ceil : ℕ → ℕ → ℕ
div_ceil n d = (n + d - 1) / d

-- The loop over the buckets, and the multiple of a block after it.
first_fit : ℕ → List ℕ → ℕ
unfolding div_ceil
first_fit raw [] = div_ceil raw pad_block * pad_block
first_fit raw (bucket ∷ buckets) = if leb raw bucket then bucket else first_fit raw buckets

unfoldable pub padded_len : ℕ → ℕ
unfolding first_fit
padded_len raw = first_fit raw pad_buckets

-- `node::MAX_MEDIA_BYTES`
abbrev pub max_media_bytes : ℕ
max_media_bytes = 100 * 1024 * 1024

unfoldable pub max_frame_bytes : ℕ
unfolding div_ceil
max_frame_bytes = div_ceil max_media_bytes 3 * 4 + 1024 * 1024

-- `u32::to_be_bytes` and `u32::from_be_bytes`
unfoldable pub to_be_bytes : ℕ → Bytes
to_be_bytes n = n / 16777216 % 256 ∷ n / 65536 % 256 ∷ n / 256 % 256 ∷ n % 256 ∷ []

unfoldable pub from_be_bytes : ℕ → ℕ → ℕ → ℕ → ℕ
from_be_bytes a b c d = a * 16777216 + b * 65536 + c * 256 + d

-- `frame_len`: a peer's announced length, refused above the limit.
unfoldable pub frame_len : (ℕ → String) → ℕ → ℕ → ℕ → ℕ → Result ℕ
frame_len show a b c d =
    let len = from_be_bytes a b c d in
    if leb len max_frame_bytes
    then ok len
    else fail (
        append (append "peer announced a " (show len))
          (append (append "-byte frame, over the " (show max_frame_bytes)) "-byte limit"))

-- A padded length is one of the buckets or a multiple of the block.
pub data IsPadded : ℕ → Type 0 where
  small : IsPadded 1024
  medium : IsPadded 4096
  blocks : (n : ℕ) → IsPadded (n * pad_block)

-- A frame fits its padded length, which is a bucket or a multiple of the block, and exceeds the
-- frame by less than one block.
pub padded_len_lem :
    (raw : ℕ)
    → (raw ≤ padded_len raw) × (padded_len raw < raw + pad_block) × IsPadded (padded_len raw)
unfolding padded_len
padded_len_lem raw = elim (Bool-cases (leb raw 1024)) [
  | inl a ↦ rw a (omega tests, omega tests, small)
  | inr a ↦ elim (Bool-cases (leb raw 4096)) [
    | inl b ↦ rw (a, b) (omega tests, omega tests, medium)
    | inr b ↦ elim (Bool-cases (leb raw 16384)) [
      | inl c ↦ rw (a, b, c) (omega tests, omega tests, blocks 1)
      | inr c ↦ rw (a, b, c) (omega tests, omega tests, blocks (div_ceil raw pad_block))
    ]
  ]
]

-- A longer frame never has a shorter padded length.
padded_len_mono : (a b : ℕ) → a ≤ b → padded_len a ≤ padded_len b
unfolding padded_len
padded_len_mono a b h = ground arith

-- The length prefix is read back as it was written.
pub from_be_bytes-to_be_bytes :
    (n : ℕ)
    → n < 4294967296
    → from_be_bytes (n / 16777216 % 256) (n / 65536 % 256) (n / 256 % 256) (n % 256) ≡ n
unfolding from_be_bytes
from_be_bytes-to_be_bytes n h = omega arith

-- The largest attachment fits: up to 4 KiB of packing over `max_media_bytes`, in base64, with up to
-- 4 KiB of envelope and prefix, padded, is a frame that a peer accepts.
largest_attachment_fits :
    (payload envelope : ℕ)
    → payload ≤ max_media_bytes + 4096
    → envelope ≤ 4096
    → padded_len (4 + div_ceil payload 3 * 4 + envelope) ≤ max_frame_bytes
unfolding max_frame_bytes
largest_attachment_fits payload envelope small_payload small_envelope =
    omega (arith, (padded_len_lem (4 + div_ceil payload 3 * 4 + envelope)).1)
