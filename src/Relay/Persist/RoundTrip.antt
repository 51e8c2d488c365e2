-- ===== src/Relay/Persist/RoundTrip.antt =====
-- Loading what was saved (core/src/relay_client/mod.rs, `load_store` after `serialize_store`).
use nightdrop.Prelude.{
  All, Bool, List, Option, [], arith, length, ltb, map, none, refl, retain, some, sym, ℕ, ◌+◌, ◌-◌,
  ◌<◌, ◌∷◌, ◌≡◌, All-zip, ◌∙◌,
}
use nightdrop.Prelude.Bytes.{Bytes}
use nightdrop.Prelude.Map.{
  Distinct, get, get-rebuild, or_empty, rebuild-Distinct, total, total-rebuild, non_empty,
  non_empty-some, or_empty-non_empty, rebuild,
}
use nightdrop.Relay.Budget.{costs}
use nightdrop.Relay.Persist.{
  PersistedBlob, PersistedStore, load_decoded, load_queue, load_store, persist_blob,
  serialize_store,
}
use nightdrop.Relay.Store.{queue_of}
use nightdrop.Relay.Store.Invariant.{IsConsistent}
use nightdrop.Relay.Store.Mailboxes.{AtMailboxes}
use nightdrop.Relay.Types.{Platform, Stored, StoreInner, DecodesEncoded, entry_cost, from_secs}

-- A file that serde has read into a map names each mailbox once.
abbrev pub DistinctFile : Option PersistedStore → Type 0
DistinctFile none = Unit
DistinctFile (some file) = Distinct file

module _ (p : Platform) (now_unix now overhead : ℕ) where
  load_queue-priced :
      (h : Bytes) (blobs : List PersistedBlob)
      → All
          (λ s. s.cost ≡ entry_cost h (length s.bytes) overhead)
          (load_queue p now_unix now overhead h blobs)
  unfolding load_queue load_decoded
  load_queue-priced h [] = tt
  load_queue-priced h (b ∷ blobs) = let rest = load_queue-priced h blobs in ground (arith, rest)

  -- Whatever blobs the file holds, under distinct handles, the loaded store is consistent: its total
  -- is the sum of what is queued.
  pub load_store-IsConsistent :
      (file : Option PersistedStore)
      → DistinctFile file
      → IsConsistent overhead (load_store p now_unix now overhead file)
  unfolding load_store
  load_store-IsConsistent none d = record {
    distinct = tt;
    counted = unfold total in refl;
    kept = λ h q e. unfold get in cc;
  }
  load_store-IsConsistent (some file) d = record {
    distinct = rebuild-Distinct (load_queue p now_unix now overhead) file;
    counted = sym (total-rebuild (load_queue p now_unix now overhead) costs file refl d);
    kept = λ h q e.
        let (same_queue, ne) =
          non_empty-some (load_queue p now_unix now overhead h (or_empty (get h file))) q (
            sym (
              get-rebuild (load_queue p now_unix now overhead) h file d (unfold load_queue in refl))
            ∙ e) in
        (rw (← same_queue) ne, rw (← same_queue) (load_queue-priced h (or_empty (get h file))));
  }

  -- An entry as it comes back from disk: its expiry is what was left on the wall clock.
  abbrev pub reloaded : Stored → Stored
  reloaded s = record s { posted = now; expiry = now + from_secs (s.expiry_unix - now_unix) }

  abbrev pub outlives : Stored → Bool
  outlives s = ltb now_unix s.expiry_unix

  -- An entry of a mailbox that was priced for it and holds bytes.
  abbrev pub IsSaved : Bytes → Stored → Type 0
  IsSaved h s = (s.cost ≡ entry_cost h (length s.bytes) overhead) × All (λ x. x < 256) s.bytes

  load-persist_queue :
      (h : Bytes) (queue : List Stored)
      → DecodesEncoded p
      → All (IsSaved h) queue
      → load_queue p now_unix now overhead h (map (persist_blob p) queue)
        ≡ map reloaded (retain outlives queue)
  unfolding load_queue load_decoded persist_blob
  load-persist_queue h [] law a = refl
  load-persist_queue h (s ∷ queue) law a =
      ground (arith, load-persist_queue h queue law a.1, law s.bytes a.0.1, a.0.0)

  saved :
      (s : StoreInner) (j : Bytes) (o : Option (List Stored))
      → get j s.mailboxes ≡ o
      → IsConsistent overhead s
      → AtMailboxes (λ _ q. All (λ e. All (λ x. x < 256) e.bytes) q) s.mailboxes
      → All (IsSaved j) (or_empty o)
  saved s j none e c b = tt
  saved s j (some q) e c b = All-zip _ _ q (c.kept j q e).1 (b j q e)

  -- A restart: after saving and loading a consistent store, each mailbox holds, in order and with
  -- the same ids, tokens, bytes and costs, exactly the entries whose wall-clock expiry has not
  -- passed; what is left of their time starts from the new monotonic clock. The base64 engine has to
  -- decode what it encoded.
  pub load-serialize :
      (s : StoreInner) (j : Bytes)
      → DecodesEncoded p
      → IsConsistent overhead s
      → AtMailboxes (λ _ q. All (λ e. All (λ x. x < 256) e.bytes) q) s.mailboxes
      → queue_of (load_store p now_unix now overhead (some (serialize_store p s))) j
        ≡ map reloaded (retain outlives (queue_of s j))
  unfolding load_store serialize_store
  load-serialize s j law c b =
      let file = rebuild (λ (_ : Bytes) (q : List Stored). map (persist_blob p) q) s.mailboxes in
      let on_disk : get j file ≡ non_empty (map (persist_blob p) (queue_of s j)) =
        get-rebuild (λ _ q. map (persist_blob p) q) j s.mailboxes c.distinct refl in
      let loaded =
        get-rebuild (load_queue p now_unix now overhead) j file (rebuild-Distinct _ s.mailboxes)
          (unfold load_queue in refl) in
      rw (loaded, on_disk, or_empty-non_empty, or_empty-non_empty)
        (load-persist_queue j (queue_of s j) law (saved s j (get j s.mailboxes) refl c b))
