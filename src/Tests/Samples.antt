-- ===== src/Tests/Samples.antt =====
-- Sample inputs for the relay: a platform whose encoding is the identity, and a store with one blob.
use nightdrop.Prelude.{length, refl, some, ℕ, ◌*◌, arith}
use nightdrop.Prelude.Bytes.{Bytes, codes}
use nightdrop.Relay.Core.Steps.{reachable-IsSound}
use nightdrop.Relay.Core.{Reach}
use nightdrop.Relay.Post.{Reading, process_post}
use nightdrop.Relay.Post.Queueing.{process_post-IsValid}
use nightdrop.Relay.Store.Invariant.{IsValid}
use nightdrop.Relay.Types.{
  DecodesEncoded, Platform, StoreInner, default_limits, empty_store, nanos_per_sec,
}

abbrev pub plain : Platform
plain = record { encode = λ b. b; decode = some; finish = length; show = λ _. "n" }

pub plain-DecodesEncoded : DecodesEncoded plain
plain-DecodesEncoded b small = refl

abbrev pub inbox : Bytes
inbox = codes "inbox-1"

abbrev pub at : ℕ → Reading
at secs = record {
  now = secs * nanos_per_sec;
  now_unix = 1700000000;
  raw_id = codes "id";
  raw_token = codes "token";
}

pub empty-IsValid : IsValid default_limits empty_store
empty-IsValid = (reachable-IsSound plain default_limits (omega arith) Reach.here).valid

abbrev pub one_queued : StoreInner
one_queued = (process_post plain default_limits (at 10) empty_store inbox (codes "hello") 60).store

pub one_queued-IsValid : IsValid default_limits one_queued
one_queued-IsValid =
    process_post-IsValid plain default_limits (at 10) empty_store inbox (codes "hello") 60
      empty-IsValid
