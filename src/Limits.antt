-- ===== src/Limits.antt =====
-- Bounds on what a contact's frames may carry (core/src/node/limits.rs).
pub mod Days
pub mod Text
use nightdrop.Prelude.{
  ℕ, Bool, [], all, false, if◌then◌else◌, leb, length, ltb, min, not, suc, take, true, zero, ◌&&◌,
  ◌*◌, ◌++◌, ◌+◌, ◌-◌, ◌==◌, ◌^◌, ◌||◌, ◌∷◌,
}
use nightdrop.Prelude.Bytes.{Bytes, is_ascii_alphanumeric, is_ascii_graphic}

abbrev pub max_text_bytes : ℕ
max_text_bytes = 64 * 1024

abbrev pub max_id_bytes : ℕ
max_id_bytes = 128

abbrev pub max_address_bytes : ℕ
max_address_bytes = 128

abbrev pub max_messages_per_day : ℕ
max_messages_per_day = 5000

abbrev pub max_media_bytes_per_day : ℕ
max_media_bytes_per_day = 1024 * 1024 * 1024

abbrev pub day_secs : ℕ
day_secs = 24 * 60 * 60

-- `u64::saturating_add`
abbrev pub u64_max : ℕ
u64_max = 2 ^ 64 - 1

unfoldable pub saturating_add : ℕ → ℕ → ℕ
saturating_add a b = min (a + b) u64_max

pub record Allowance : Type 0 where
  pub window_start : ℕ
  pub messages : ℕ
  pub media_bytes : ℕ
  pub noticed : Bool

abbrev pub new_allowance : Allowance
new_allowance = record { window_start = 0; messages = 0; media_bytes = 0; noticed = false }

pub data Admit : Type 0 where
  admitted drop_and_notice dropped : Admit

-- A new window starts when the clock leaves the old one, in either direction.
unfoldable pub roll : ℕ → Allowance → Allowance
unfolding saturating_add
roll now a =
    if ltb now a.window_start || leb (saturating_add a.window_start day_secs) now
    then record new_allowance { window_start = now }
    else a

unfoldable pub over : Allowance → ℕ → Bool
unfolding saturating_add
over a media_bytes =
    leb max_messages_per_day a.messages
    || ltb max_media_bytes_per_day (saturating_add a.media_bytes media_bytes)

unfoldable pub admit : Allowance → ℕ → ℕ → Allowance × Admit
unfolding roll over
admit a now media_bytes =
    let w = roll now a in
    if over w media_bytes
    then (if w.noticed then (w, dropped) else (record w { noticed = true }, drop_and_notice))
    else (
      record w { messages = w.messages + 1; media_bytes = w.media_bytes + media_bytes },
      admitted,
    )

-- `str::is_char_boundary` on UTF-8 bytes: no continuation byte begins there.
unfoldable pub is_char_boundary : Bytes → ℕ → Bool
is_char_boundary text zero = true
is_char_boundary [] (suc i) = false
is_char_boundary (b ∷ []) (suc zero) = true
is_char_boundary (b ∷ c ∷ text) (suc zero) = not (leb 128 c && ltb c 192)
is_char_boundary (b ∷ text) (suc i) = is_char_boundary text i

-- The loop that walks back to a boundary; 0 is one.
unfoldable pub boundary_before : Bytes → ℕ → ℕ
boundary_before text zero = 0
boundary_before text (suc end) =
    let before = boundary_before text end in
    if is_char_boundary text (suc end) then suc end else before

-- " […]" in UTF-8
abbrev pub cut_mark : Bytes
cut_mark = 32 ∷ 91 ∷ 226 ∷ 128 ∷ 166 ∷ 93 ∷ []

unfoldable pub clamp_text : Bytes → Bytes
clamp_text text =
    if leb (length text) max_text_bytes
    then text
    else take (boundary_before text max_text_bytes) text ++ cut_mark

unfoldable pub sane_id : Bytes → Bool
sane_id id = leb 1 (length id) && leb (length id) max_id_bytes && all is_ascii_graphic id

abbrev address_byte : ℕ → Bool
address_byte b = is_ascii_alphanumeric b || b == b'.' || b == b':' || b == b'-' || b == b'_'

unfoldable pub sane_address : Bytes → Bool
sane_address addr =
    leb 1 (length addr) && leb (length addr) max_address_bytes && all address_byte addr
