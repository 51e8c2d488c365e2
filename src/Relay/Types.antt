-- ===== src/Relay/Types.antt =====
-- The data of the relay protocol and of its store (core/src/relay_client/mod.rs).
use nightdrop.Prelude.{
  ℕ, ◌+◌, ◌*◌, ◌/◌, ◌≡◌, Bool, true, false, ◌&&◌, ◌||◌, Option, none, some, List, [], String,
  length, all, All, ◌<◌, leb, ◌==◌,
}
use nightdrop.Prelude.Bytes.{Bytes, is_ascii_alphanumeric}
use nightdrop.Prelude.Map.{Map}

-- What the module calls of other crates: the base64 engine, the hasher of the standard library and
-- the printing of numbers.
pub record Platform : Type 0 where
  pub encode : Bytes → Bytes
  pub decode : Bytes → Option Bytes
  pub finish : Bytes → ℕ
  pub show : ℕ → String

-- What base64 documents: a byte string is read back from its encoding.
abbrev pub DecodesEncoded : Platform → Type 0
DecodesEncoded p = (b : Bytes) → All (λ x. x < 256) b → p.decode (p.encode b) ≡ some b

-- Durations and monotonic instants are counted in nanoseconds.
abbrev pub nanos_per_sec : ℕ
nanos_per_sec = 1000000000

abbrev pub from_secs : ℕ → ℕ
from_secs s = s * nanos_per_sec

abbrev pub as_secs : ℕ → ℕ
as_secs d = d / nanos_per_sec

-- `RelayLimits`
pub record RelayLimits : Type 0 where
  pub max_blob_bytes : ℕ
  pub max_mailbox_blobs : ℕ
  pub max_mailbox_bytes : ℕ
  pub max_total_bytes : ℕ
  pub small_blob_bytes : ℕ
  pub small_reserve_bytes : ℕ
  pub entry_overhead_bytes : ℕ
  pub max_ttl : ℕ
  pub max_line_bytes : ℕ

abbrev pub default_max_blob_bytes : ℕ
default_max_blob_bytes = 150 * 1024 * 1024

-- `impl Default for RelayLimits`
abbrev pub default_limits : RelayLimits
default_limits = record {
  max_blob_bytes = default_max_blob_bytes;
  max_mailbox_blobs = 256;
  max_mailbox_bytes = 256 * 1024 * 1024;
  max_total_bytes = 1024 * 1024 * 1024;
  small_blob_bytes = 64 * 1024;
  small_reserve_bytes = 128 * 1024 * 1024;
  entry_overhead_bytes = 512;
  max_ttl = from_secs (24 * 60 * 60);
  max_line_bytes = default_max_blob_bytes / 3 * 4 + 4096;
}

abbrev pub relay_version : ℕ
relay_version = 1

abbrev pub max_take_many : ℕ
max_take_many = 64

pub data Request : Type 0 where
  post : Bytes → Bytes → ℕ → Request
  peek : Bytes → Request
  fetch : Bytes → Request
  take : Bytes → Request
  take_many : List Bytes → Request
  recall : Bytes → Bytes → Bytes → Request
  get_directory : Request

pub record Response : Type 0 where
  pub ok : Bool
  pub error : Option String
  pub blobs : List Bytes
  pub items : List (Bytes × Bytes)
  pub count : ℕ
  pub msg_id : Option Bytes
  pub delete_token : Option Bytes
  pub directory : Option Bytes

-- `Response::default()`
abbrev pub empty_response : Response
empty_response = record {
  ok = false;
  error = none;
  blobs = [];
  items = [];
  count = 0;
  msg_id = none;
  delete_token = none;
  directory = none;
}

-- `Response::err`
unfoldable pub err : String → Response
err msg = record empty_response { ok = false; error = some msg }

-- `Response::just_ok`
unfoldable pub just_ok : Response
just_ok = record empty_response { ok = true }

-- `RelayEvent`. `blob_hash` is the number that the source prints as four hexadecimal digits.
pub record RelayEvent : Type 0 where
  pub op : String
  pub handle : Bytes
  pub msg_id : Option Bytes
  pub blob_len : ℕ
  pub blob_hash : Option ℕ
  pub ttl_secs : ℕ
  pub queue_depth : ℕ
  pub result : String

unfoldable pub simple_ev : String → Bytes → ℕ → String → RelayEvent
simple_ev op handle depth result = record {
  op = op;
  handle = handle;
  msg_id = none;
  blob_len = 0;
  blob_hash = none;
  ttl_secs = 0;
  queue_depth = depth;
  result = result;
}

-- One queued blob.
pub record Stored : Type 0 where
  pub msg_id : Bytes
  pub delete_token : Bytes
  pub posted : ℕ
  pub expiry : ℕ
  pub expiry_unix : ℕ
  pub bytes : Bytes
  pub cost : ℕ

abbrev pub max_handle_bytes : ℕ
max_handle_bytes = 128

abbrev handle_byte : ℕ → Bool
handle_byte b = is_ascii_alphanumeric b || b == b':' || b == b'_' || b == b'-' || b == b'.'

unfoldable pub valid_handle : Bytes → Bool
valid_handle handle =
    leb 1 (length handle) && leb (length handle) max_handle_bytes && all handle_byte handle

unfoldable pub entry_cost : Bytes → ℕ → ℕ → ℕ
entry_cost handle blob_len overhead = blob_len + length handle + overhead

-- `StoreInner`: the mailboxes, their byte total, and what the flusher reads.
pub record StoreInner : Type 0 where
  pub mailboxes : Map (List Stored)
  pub total_bytes : ℕ
  pub dirty : Bool
  pub last_flush : Option ℕ

abbrev pub empty_store : StoreInner
empty_store = record { mailboxes = []; total_bytes = 0; dirty = false; last_flush = none }
