-- ===== src/Relay/Process.antt =====
-- Request dispatch (core/src/relay_client/mod.rs, `process`): the requests other than a post, and the
-- choice between all of them.
pub mod Recall
pub mod Draws
pub mod Many
pub mod Responses
pub mod Delivery
use Prim.Native.String.{◌++◌ as append}
use nightdrop.Prelude.{
  ℕ, ◌-◌, Bool, true, false, not, ◌&&◌, ◌||◌, Option, none, some, List, [], ◌∷◌, ◌++◌, map, length,
  retain, ltb, is_some, if◌then◌else◌, ◌==◌,
}
use nightdrop.Prelude.Bytes.{Bytes, codes, same}
use nightdrop.Prelude.Map.{get}
use nightdrop.Relay.Budget.{TakeBudget, full_budget, costs, live}
use nightdrop.Relay.Post.{Reading, Reply, depth_of, process_post}
use nightdrop.Relay.Store.{queue_of, write_back, Drain, drain_handle_bounded}
use nightdrop.Relay.Types.{
  Platform, RelayLimits, Request, post, peek, fetch, take, take_many, recall, get_directory,
  empty_response, err, just_ok, simple_ev, Stored, StoreInner, max_take_many,
}

-- `TakeMany`: the handles in order, one budget for all of them.
unfoldable pub drain_many : StoreInner → List Bytes → TakeBudget → ℕ → Drain
drain_many inner [] budget now = record { taken = []; budget = budget; store = inner }
drain_many inner (handle ∷ handles) budget now =
    let d = drain_handle_bounded inner handle budget now in
    let rest = drain_many d.store handles d.budget now in
    record rest { taken = d.taken ++ rest.taken }

first_or_dash : List Bytes → Bytes
first_or_dash [] = codes "-"
first_or_dash (handle ∷ _) = handle

module _ (p : Platform) where
  unfoldable pub process_peek : Reading → StoreInner → Bytes → Reply
  process_peek r inner handle =
      let count = length (retain (live r.now) (queue_of inner handle)) in
      record {
        response = record empty_response { ok = true; count = count };
        event = simple_ev "PEEK" handle (depth_of inner handle) (append "count=" (p.show count));
        store = inner;
      }

  unfoldable pub process_fetch : Reading → StoreInner → Bytes → Reply
  process_fetch r inner handle =
      let d = drain_handle_bounded inner handle full_budget r.now in
      let items = map (λ s. (s.msg_id, p.encode s.bytes)) d.taken in
      record {
        response = record empty_response { ok = true; items = items };
        event = simple_ev "FETCH" handle 0 (append (p.show (length items)) " items");
        store = d.store;
      }

  unfoldable pub process_take : Reading → StoreInner → Bytes → Reply
  process_take r inner handle =
      let d = drain_handle_bounded inner handle full_budget r.now in
      let blobs = map (λ s. p.encode s.bytes) d.taken in
      record {
        response = record empty_response { ok = true; blobs = blobs };
        event = simple_ev "TAKE" handle 0 (append (p.show (length blobs)) " blobs");
        store = d.store;
      }

  unfoldable pub process_take_many : Reading → StoreInner → List Bytes → Reply
  unfolding first_or_dash
  process_take_many r inner handles =
      let d = drain_many inner handles full_budget r.now in
      let blobs = map (λ s. p.encode s.bytes) d.taken in
      let counted =
        append (append (p.show (length handles)) " handles, ")
          (append (p.show (length blobs)) " blobs") in
      if ltb max_take_many (length handles)
      then record {
        response = err (append (append "at most " (p.show max_take_many)) " handles");
        event = simple_ev "TAKE_MANY" (codes "-") 0 "refused: too many handles";
        store = inner;
      }
      else record {
        response = record empty_response { ok = true; blobs = blobs };
        event = simple_ev "TAKE_MANY" (first_or_dash handles) 0 counted;
        store = d.store;
      }

-- `s.msg_id == msg_id && s.delete_token == delete_token`
unfoldable pub hit : Bytes → Bytes → Stored → Bool
hit msg_id delete_token s = same s.msg_id msg_id && same s.delete_token delete_token

-- What `retain` leaves, and whether it removed anything.
unfoldable pub recall_found :
    Option (List Stored) → StoreInner → Bytes → Bytes → Bytes → Bool × StoreInner
recall_found none inner handle msg_id delete_token = (false, inner)
recall_found (some queue) inner handle msg_id delete_token =
    let kept = retain (λ s. not (hit msg_id delete_token s)) queue in
    let freed = costs (retain (hit msg_id delete_token) queue) in
    let removed = not (length kept == length queue) in
    (
      removed,
      record inner {
        mailboxes = write_back handle kept inner.mailboxes;
        total_bytes = inner.total_bytes - freed;
        dirty = inner.dirty || removed;
      },
    )

unfoldable pub recall_blob : StoreInner → Bytes → Bytes → Bytes → Bool × StoreInner
unfolding recall_found
recall_blob inner handle msg_id delete_token =
    recall_found (get handle inner.mailboxes) inner handle msg_id delete_token

unfoldable pub process_recall : StoreInner → Bytes → Bytes → Bytes → Reply
process_recall inner handle msg_id delete_token =
    let (removed, after) = recall_blob inner handle msg_id delete_token in
    let event =
      simple_ev "RECALL" handle (depth_of after handle)
        (if removed then "removed" else "not found") in
    record {
      response = if removed then just_ok else err "not found";
      event = record event { msg_id = some msg_id };
      store = after;
    }

unfoldable pub process_directory : Option Bytes → StoreInner → Reply
process_directory directory inner = record {
  response = record empty_response { ok = true; directory = directory };
  event = simple_ev "DIRECTORY" (codes "-") 0 (if is_some directory then "served" else "none");
  store = inner;
}

module _ (p : Platform) (limits : RelayLimits) where
  unfoldable pub process : Option Bytes → Reading → StoreInner → Request → Reply
  process directory r inner (post handle blob ttl_secs) =
      process_post p limits r inner handle blob ttl_secs
  process directory r inner (peek handle) = process_peek p r inner handle
  process directory r inner (fetch handle) = process_fetch p r inner handle
  process directory r inner (take handle) = process_take p r inner handle
  process directory r inner (take_many handles) = process_take_many p r inner handles
  process directory r inner (recall handle msg_id delete_token) =
      process_recall inner handle msg_id delete_token
  process directory r inner get_directory = process_directory directory inner
