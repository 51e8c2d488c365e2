-- ===== src/Relay/Core/Steps.antt =====
-- Invariants of the interleavings of requests, sweeps and flushes (core/src/relay_client/mod.rs,
-- `RelayCore`).
use nightdrop.Prelude.{
  Bool, Bool-cases, Option, arith, false, inl, inr, none, not, refl, some, ℕ, ◌<◌, ◌==◌, ◌≡◌,
}
use nightdrop.Prelude.Bytes.{Bytes}
use nightdrop.Prelude.Map.{get, rebuild, total, total_by}
use nightdrop.Relay.Core.{
  malformed, parsed, serve, sweep, begin, finish, fail, here, next, Disk, ParsedLine, Step,
  handle_line, Reach, fresh,
}
use nightdrop.Relay.Flush.{begin_flush, finish_flush}
use nightdrop.Relay.Flush.Clean.{Untouched, process_clean}
use nightdrop.Relay.Flush.CleanSweep.{reap_clean}
use nightdrop.Relay.Persist.{PersistedStore, load_store, serialize_store}
use nightdrop.Relay.Post.{Reading}
use nightdrop.Relay.Process.Responses.{process-IsValid}
use nightdrop.Relay.Reaper.Sweep.{reap-IsValid}
use nightdrop.Relay.Store.Invariant.{IsValid}
use nightdrop.Relay.Types.{Platform, RelayLimits, StoreInner, relay_version}

-- Loading `file`, at any time, gives every mailbox what loading a snapshot of `s` would.
abbrev pub OnDisk : Platform → Option PersistedStore → StoreInner → Type 0
OnDisk p file s =
    (now_unix now overhead : ℕ)
    → load_store p now_unix now overhead file
      ≡ load_store p now_unix now overhead (some (serialize_store p s))

abbrev newest : Disk → Option PersistedStore
newest d = elim d.writing [ none ↦ d.file | some json ↦ some json ]

pub record IsSound (p : Platform) (limits : RelayLimits) (d : Disk) : Type 0 where
  pub valid : IsValid limits d.store
  durable : d.store.dirty ≡ false → OnDisk p (newest d) d.store

module _ (p : Platform) (limits : RelayLimits) (charged : 0 < limits.entry_overhead_bytes) where
  Untouched-OnDisk :
      (file : Option PersistedStore) (s t : StoreInner)
      → t.mailboxes ≡ s.mailboxes
      → OnDisk p file s
      → OnDisk p file t
  unfolding serialize_store
  Untouched-OnDisk file s t e d u n o = rw e (d u n o)

  handle_line-IsValid :
      (directory : Option Bytes) (r : Reading) (s : StoreInner) (line : ParsedLine)
      → IsValid limits s
      → IsValid limits (handle_line p limits directory r s line).store
  unfolding handle_line
  handle_line-IsValid directory r s (malformed e) v = v
  handle_line-IsValid directory r s (parsed n request) v =
      let w = process-IsValid p limits directory r s request v in
      elim (Bool-cases (not (n == relay_version))) [ inl e ↦ rw e v | inr e ↦ rw e w ]

  handle_line_clean :
      (directory : Option Bytes) (r : Reading) (s : StoreInner) (line : ParsedLine)
      → IsValid limits s
      → (handle_line p limits directory r s line).store.dirty ≡ false
      → Untouched s (handle_line p limits directory r s line).store
  unfolding handle_line
  handle_line_clean directory r s (malformed e) v clean = record {
    mailboxes = refl;
    was_clean = clean;
  }
  handle_line_clean directory r s (parsed n request) v clean =
      elim (Bool-cases (not (n == relay_version))) [
        | inl e ↦ rw e (record { mailboxes = refl; was_clean = rw e at clean })
        | inr e ↦ rw e (process_clean limits charged p directory r s request v (rw e at clean))
      ]

  begin_flush_snapshot :
      (now : ℕ) (ri printed : Bool) (s t : StoreInner) (json : PersistedStore)
      → begin_flush p now ri printed s ≡ (some json, t)
      → (json ≡ serialize_store p s) × (t ≡ record s { dirty = false; last_flush = some now })
  unfolding begin_flush
  begin_flush_snapshot now ri printed s t json e = ground arith

  Step-IsSound : {d e : Disk} → Step p limits d e → IsSound p limits d → IsSound p limits e
  Step-IsSound (serve d directory r line) i = record {
    valid = handle_line-IsValid directory r d.store line i.valid;
    durable = λ clean.
        let same_as = handle_line_clean directory r d.store line i.valid clean in
        Untouched-OnDisk (newest d) d.store _ same_as.mailboxes (i.durable same_as.was_clean);
  }
  Step-IsSound (sweep d now) i = record {
    valid = reap-IsValid limits now d.store i.valid;
    durable = λ clean.
        let same_as = reap_clean limits charged now d.store i.valid clean in
        Untouched-OnDisk (newest d) d.store _ same_as.mailboxes (i.durable same_as.was_clean);
  }
  Step-IsSound (begin d now ri printed json after idle flushed) i =
      let (snapshot, cleared) = begin_flush_snapshot now ri printed d.store after json flushed in
      rw (snapshot, cleared)
        (record {
          valid = record {
            consistent = record {
              distinct = i.valid.consistent.distinct;
              counted = i.valid.consistent.counted;
              kept = i.valid.consistent.kept;
            };
            bounded = record {
              total_fits = i.valid.bounded.total_fits;
              each_fits = i.valid.bounded.each_fits;
            };
          };
          durable = λ _ u n o. unfold serialize_store in refl;
        })
  Step-IsSound (finish d json busy) i = record {
    valid = unfold finish_flush in i.valid;
    durable = unfold finish_flush in λ clean. rw busy at (i.durable clean);
  }
  Step-IsSound (fail d json busy) i = record {
    valid =
        unfold finish_flush in
        record {
          consistent = record {
            distinct = i.valid.consistent.distinct;
            counted = i.valid.consistent.counted;
            kept = i.valid.consistent.kept;
          };
          bounded = record {
            total_fits = i.valid.bounded.total_fits;
            each_fits = i.valid.bounded.each_fits;
          };
        };
    durable = unfold finish_flush in λ clean. cc;
  }

  fresh-IsSound : IsSound p limits fresh
  fresh-IsSound = record {
    valid = record {
      consistent = record {
        distinct = tt;
        counted = unfold total in refl;
        kept = λ h q e. unfold get in cc;
      };
      bounded = record { total_fits = omega arith; each_fits = λ h q e. unfold get in cc };
    };
    durable = λ _ u n o. unfold load_store serialize_store rebuild total_by in refl;
  }

  -- In every state that requests, sweeps and flushes can reach from a start with no file, in any
  -- interleaving, the store is valid; and while it is not marked dirty, loading the snapshot being
  -- written, or else the file, gives at any time what a snapshot of the present store would give.
  -- The overhead charged for an entry has to be positive.
  pub reachable-IsSound : {d : Disk} → Reach p limits fresh d → IsSound p limits d
  reachable-IsSound here = fresh-IsSound
  reachable-IsSound (next reach step) = Step-IsSound step (reachable-IsSound reach)
