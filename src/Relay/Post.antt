-- ===== src/Relay/Post.antt =====
-- Posting a blob (core/src/relay_client/mod.rs, `process` at `Request::Post`).
pub mod Cases
pub mod Admission
pub mod Queueing
use Prim.Native.String.{◌++◌ as append}
use nightdrop.Prelude.{
  ℕ, ◌+◌, ◌-◌, ◌%◌, true, ◌&&◌, ◌||◌, Option, none, some, [], ◌∷◌, ◌++◌, String, min, length, leb,
  ltb, if◌then◌else◌,
}
use nightdrop.Prelude.Bytes.{Bytes}
use nightdrop.Prelude.Map.{insert}
use nightdrop.Relay.Budget.{sizes}
use nightdrop.Relay.Store.{queue_of}
use nightdrop.Relay.Types.{
  Platform, RelayLimits, Response, empty_response, err, RelayEvent, Stored, StoreInner,
  valid_handle, entry_cost, from_secs, as_secs,
}

-- What a request reads of its surroundings: both clocks and the random bytes of two tokens.
pub record Reading : Type 0 where
  pub now : ℕ
  pub now_unix : ℕ
  pub raw_id : Bytes
  pub raw_token : Bytes

-- A response, its flow-log event and the store after the request.
pub record Reply : Type 0 where
  pub response : Response
  pub event : RelayEvent
  pub store : StoreInner

unfoldable pub depth_of : StoreInner → Bytes → ℕ
depth_of inner handle = length (queue_of inner handle)

-- `short_hash`, as the number that the source prints in hexadecimal.
unfoldable pub short_hash : Platform → Bytes → ℕ
short_hash p bytes = p.finish bytes % 65536

-- `random_token`: twelve random bytes in base64.
unfoldable pub random_token : Platform → Bytes → Bytes
random_token p raw = p.encode raw

-- `reject`: why a post of `len` bytes is refused, if it is.
unfoldable pub reject : RelayLimits → StoreInner → Bytes → ℕ → Option String
reject limits inner handle len =
    let after = inner.total_bytes + entry_cost handle len limits.entry_overhead_bytes in
    let queue = queue_of inner handle in
    if ltb limits.max_blob_bytes len
    then some "blob too large"
    else if ltb limits.max_total_bytes after
    then some "relay full"
    else if ltb limits.small_blob_bytes len
        && ltb (limits.max_total_bytes - limits.small_reserve_bytes) after
    then some "relay full"
    else if leb limits.max_mailbox_blobs (length queue)
        || ltb limits.max_mailbox_bytes (sizes queue + len)
    then some "mailbox full"
    else none

-- `map.entry(handle).or_default().push(stored)`
unfoldable pub push : StoreInner → Bytes → Stored → StoreInner
push inner handle stored = record inner {
  mailboxes = insert handle (queue_of inner handle ++ stored ∷ []) inner.mailboxes;
  total_bytes = inner.total_bytes + stored.cost;
  dirty = true;
}

module _ (p : Platform) (limits : RelayLimits) where
  -- The entry that an accepted post queues, its TTL clamped.
  unfoldable pub entry : Reading → Bytes → Bytes → ℕ → Stored
  entry r handle bytes ttl_secs =
      let ttl = min (from_secs ttl_secs) limits.max_ttl in
      record {
        msg_id = random_token p r.raw_id;
        delete_token = random_token p r.raw_token;
        posted = r.now;
        expiry = r.now + ttl;
        expiry_unix = r.now_unix + as_secs ttl;
        bytes = bytes;
        cost = entry_cost handle (length bytes) limits.entry_overhead_bytes;
      }

  unfoldable pub post_event : Bytes → ℕ → Bytes → ℕ → String → RelayEvent
  post_event handle ttl_secs bytes depth result = record {
    op = "POST";
    handle = handle;
    msg_id = none;
    blob_len = length bytes;
    blob_hash = some (short_hash p bytes);
    ttl_secs = ttl_secs;
    queue_depth = depth;
    result = result;
  }

  unfoldable pub accept_post : Reading → StoreInner → Bytes → Bytes → ℕ → Reply
  accept_post r inner handle bytes ttl_secs =
      let stored = entry r handle bytes ttl_secs in
      let after = push inner handle stored in
      let event = post_event handle ttl_secs bytes (depth_of after handle) "ok" in
      record {
        response = record empty_response {
          ok = true;
          msg_id = some stored.msg_id;
          delete_token = some stored.delete_token;
        };
        event = record event { msg_id = some stored.msg_id };
        store = after;
      }

  refuse_post : Option String → Reading → StoreInner → Bytes → Bytes → ℕ → Reply
  refuse_post (some reason) r inner handle bytes ttl_secs = record {
    response = err reason;
    event = post_event handle ttl_secs bytes (depth_of inner handle) (append "rejected: " reason);
    store = inner;
  }
  refuse_post none r inner handle bytes ttl_secs = accept_post r inner handle bytes ttl_secs

  post_decoded : Option Bytes → Reading → StoreInner → Bytes → ℕ → Reply
  post_decoded none r inner handle ttl_secs = record {
    response = err "bad blob";
    event = record (post_event handle ttl_secs [] 0 "bad blob") { blob_hash = none };
    store = inner;
  }
  post_decoded (some bytes) r inner handle ttl_secs =
      if valid_handle handle
      then refuse_post (reject limits inner handle (length bytes)) r inner handle bytes ttl_secs
      else record {
        response = err "bad handle";
        event = post_event handle ttl_secs bytes 0 "rejected: bad handle";
        store = inner;
      }

  unfoldable pub process_post : Reading → StoreInner → Bytes → Bytes → ℕ → Reply
  unfolding post_decoded refuse_post accept_post post_event
  process_post r inner handle blob ttl_secs = post_decoded (p.decode blob) r inner handle ttl_secs
