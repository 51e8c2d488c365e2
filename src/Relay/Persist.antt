-- ===== src/Relay/Persist.antt =====
-- The queue on disk (core/src/relay_client/mod.rs, `serialize_store` and `load_store`), between the
-- store and the data that serde writes and reads.
pub mod RoundTrip
use nightdrop.Prelude.{
  List, Option, [], if◌then◌else◌, leb, length, map, none, some, ℕ, ◌+◌, ◌-◌, ◌∷◌,
}
use nightdrop.Prelude.Bytes.{Bytes}
use nightdrop.Prelude.Map.{Map, insert, rebuild, total_by}
use nightdrop.Relay.Budget.{costs}
use nightdrop.Relay.Types.{Platform, Stored, StoreInner, empty_store, entry_cost, from_secs}

pub record PersistedBlob : Type 0 where
  pub msg_id : Bytes
  pub delete_token : Bytes
  pub expiry_unix : ℕ
  pub blob : Bytes

-- `PersistedStore`: the mailboxes by handle.
abbrev pub PersistedStore : Type 0
PersistedStore = Map (List PersistedBlob)

module _ (p : Platform) where
  unfoldable pub persist_blob : Stored → PersistedBlob
  persist_blob s = record {
    msg_id = s.msg_id;
    delete_token = s.delete_token;
    expiry_unix = s.expiry_unix;
    blob = p.encode s.bytes;
  }

  -- The mailboxes that hold something, each blob in its form on disk.
  unfoldable pub serialize_store : StoreInner → PersistedStore
  serialize_store inner = rebuild (λ _ queue. map persist_blob queue) inner.mailboxes

  -- The clocks at load time, and the configured overhead.
  module _ (now_unix now overhead : ℕ) where
    -- The entry rebuilt from a blob that decodes.
    unfoldable pub load_decoded : Bytes → PersistedBlob → Bytes → Stored
    load_decoded handle b bytes = record {
      msg_id = b.msg_id;
      delete_token = b.delete_token;
      posted = now;
      expiry = now + from_secs (b.expiry_unix - now_unix);
      expiry_unix = b.expiry_unix;
      bytes = bytes;
      cost = entry_cost handle (length bytes) overhead;
    }

    load_blob : Bytes → PersistedBlob → Option Bytes → List Stored → List Stored
    load_blob handle b none rest = rest
    load_blob handle b (some bytes) rest = load_decoded handle b bytes ∷ rest

    -- The loop over one mailbox: what has expired or does not decode is skipped.
    unfoldable pub load_queue : Bytes → List PersistedBlob → List Stored
    unfolding load_blob
    load_queue handle [] = []
    load_queue handle (b ∷ blobs) =
        let rest = load_queue handle blobs in
        if leb b.expiry_unix now_unix then rest else load_blob handle b (p.decode b.blob) rest

    -- A missing file and one that serde cannot read are `none`: an empty store.
    unfoldable pub load_store : Option PersistedStore → StoreInner
    load_store none = empty_store
    load_store (some persisted) = record empty_store {
      mailboxes = rebuild load_queue persisted;
      total_bytes = total_by (λ handle blobs. costs (load_queue handle blobs)) persisted;
    }
