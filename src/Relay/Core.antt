-- ===== src/Relay/Core.antt =====
-- `RelayCore` (core/src/relay_client/mod.rs): one request line, and the interleavings of requests, the
-- reaper and the flusher over one store and its file.
pub mod Steps
use Prim.Native.String.{◌++◌ as append}
use nightdrop.Prelude.{
  Bool, Option, String, false, if◌then◌else◌, none, not, some, true, ℕ, ◌==◌, ◌≡◌,
}
use nightdrop.Prelude.Bytes.{Bytes}
use nightdrop.Relay.Flush.{begin_flush, finish_flush}
use nightdrop.Relay.Persist.{PersistedStore}
use nightdrop.Relay.Post.{Reading}
use nightdrop.Relay.Process.{process}
use nightdrop.Relay.Reaper.{reap}
use nightdrop.Relay.Types.{
  Platform, RelayLimits, Request, Response, RelayEvent, StoreInner, err, relay_version, empty_store,
}

-- What serde makes of a request line: the version and the request, or its message.
pub data ParsedLine : Type 0 where
  parsed : ℕ → Request → ParsedLine
  malformed : String → ParsedLine

-- A response, the event for the logger if one was made, and the store.
pub record Handled : Type 0 where
  pub response : Response
  pub event : Option RelayEvent
  pub store : StoreInner

module _ (p : Platform) (limits : RelayLimits) where
  unsupported : ℕ → String
  unsupported v =
      append (append "unsupported relay version " (p.show v))
        (append (append " (server speaks v" (p.show relay_version)) ")")

  -- `RelayCore::handle_line`, up to the flush that may follow and the printing of the response.
  unfoldable pub handle_line : Option Bytes → Reading → StoreInner → ParsedLine → Handled
  unfolding unsupported
  handle_line directory r inner (malformed e) = record {
    response = err (append "bad request: " e);
    event = none;
    store = inner;
  }
  handle_line directory r inner (parsed v request) =
      if not (v == relay_version)
      then record { response = err (unsupported v); event = none; store = inner }
      else (let reply = process p limits directory r inner request in
          record { response = reply.response; event = some reply.event; store = reply.store })

-- The store, the file, and the snapshot that the one writer is writing, if any.
pub record Disk : Type 0 where
  pub store : StoreInner
  pub file : Option PersistedStore
  pub writing : Option PersistedStore

-- A relay that starts with no file.
abbrev pub fresh : Disk
fresh = record { store = empty_store; file = none; writing = none }

-- One step of the threads that share the store. The writer's mutex lets one write run at a time.
pub data Step (p : Platform) (limits : RelayLimits) : Disk → Disk → Type 0 where
  serve :
      (d : Disk) (directory : Option Bytes) (r : Reading) (line : ParsedLine)
      → Step p limits d (record d { store = (handle_line p limits directory r d.store line).store })
  sweep : (d : Disk) (now : ℕ) → Step p limits d (record d { store = reap now d.store })
  begin :
      (d : Disk) (now : ℕ) (respect_interval serializes : Bool) (json : PersistedStore)
      (after : StoreInner)
      → d.writing ≡ none
      → begin_flush p now respect_interval serializes d.store ≡ (some json, after)
      → Step p limits d (record d { store = after; writing = some json })
  finish :
      (d : Disk) (json : PersistedStore)
      → d.writing ≡ some json
      → Step p limits d
          (record { store = finish_flush true d.store; file = some json; writing = none })
  fail :
      (d : Disk) (json : PersistedStore)
      → d.writing ≡ some json
      → Step p limits d (record d { store = finish_flush false d.store; writing = none })

pub data Reach (p : Platform) (limits : RelayLimits) (d : Disk) : Disk → Type 0 where
  here : Reach p limits d d
  next : {e f : Disk} → Reach p limits d e → Step p limits e f → Reach p limits d f
