-- ===== src/Tests/Core.antt =====
-- Runs of the threads, of a restart and of a sweep.
use nightdrop.Prelude.{arith, map, none, retain, some, ◌*◌, ◌≡◌, refl, List, [], ◌∷◌}
use nightdrop.Prelude.Bytes.{codes, same}
use nightdrop.Prelude.Map.{get, insert, insert_non_empty, rebuild}
use nightdrop.Relay.Budget.{live}
use nightdrop.Relay.Core.{Disk, ParsedLine, Reach, Step, fresh, handle_line}
use nightdrop.Relay.Core.Steps.{IsSound, reachable-IsSound}
use nightdrop.Relay.Persist.{load_store, serialize_store}
use nightdrop.Relay.Persist.RoundTrip.{load-serialize, load_store-IsConsistent, outlives, reloaded}
use nightdrop.Relay.Post.{entry, process_post, push, reject}
use nightdrop.Relay.Reaper.{reap}
use nightdrop.Relay.Reaper.Sweep.{reap_queue}
use nightdrop.Relay.Refined.{serves, sweeps, Action, IsRun, answers_of}
use nightdrop.Relay.Refined.Refines.{relay_refines}
use nightdrop.Relay.Store.{queue_of}
use nightdrop.Relay.Store.Invariant.{IsConsistent}
use nightdrop.Relay.Types.{
  Request, default_limits, empty_store, nanos_per_sec, valid_handle, entry_cost,
}
use nightdrop.Tests.Samples.{at, inbox, one_queued, one_queued-IsValid, plain, plain-DecodesEncoded}

-- A post, then a sweep.
abbrev posted_line : ParsedLine
posted_line = ParsedLine.parsed 1 (Request.post inbox (codes "hello") 60)

abbrev after_post : Disk
after_post = record fresh {
  store = (handle_line plain default_limits none (at 10) empty_store posted_line).store;
}

abbrev after_sweep : Disk
after_sweep = record after_post { store = reap (30 * nanos_per_sec) after_post.store }

abbrev two_steps : Reach plain default_limits fresh after_sweep
two_steps =
    Reach.next (Reach.next Reach.here (Step.serve fresh none (at 10) posted_line))
      (Step.sweep after_post (30 * nanos_per_sec))

reachable-IsSound_example : IsSound plain default_limits after_sweep
reachable-IsSound_example = reachable-IsSound plain default_limits (omega arith) two_steps

load-serialize_example :
    queue_of (load_store plain 1700000020 0 512 (some (serialize_store plain one_queued))) inbox
    ≡ map
        (reloaded plain 1700000020 0 512)
        (retain (outlives plain 1700000020 0 512) (queue_of one_queued inbox))
load-serialize_example =
    load-serialize plain 1700000020 0 512 one_queued inbox plain-DecodesEncoded
      one_queued-IsValid.consistent
      (unfold process_post reject valid_handle get insert push entry same in
        λ h q e. ground (arith, e))

load_store-IsConsistent_example :
    IsConsistent 512 (load_store plain 1700000020 0 512 (some (serialize_store plain one_queued)))
load_store-IsConsistent_example =
    load_store-IsConsistent plain 1700000020 0 512 (some (serialize_store plain one_queued)) (
      unfold serialize_store process_post reject valid_handle get insert push entry same rebuild
        insert_non_empty entry_cost in
      (refl, tt))

reap_queue_example :
    queue_of (reap (at 100).now one_queued) inbox
    ≡ retain (live (at 100).now) (queue_of one_queued inbox)
reap_queue_example = reap_queue default_limits (at 100).now one_queued one_queued-IsValid inbox

abbrev actions : List Action
actions =
    serves none (at 10) (Request.post inbox (codes "hello") 60)
    ∷ serves none (at 11) (Request.post inbox (codes "again") 5)
    ∷ sweeps (at 20).now
    ∷ serves none (at 21) (Request.take inbox)
    ∷ []

relay_refines_example :
    IsRun plain default_limits
      (λ j. [])
      actions
      (answers_of plain default_limits empty_store actions)
relay_refines_example = relay_refines plain default_limits actions
