-- ===== src/Relay/Refined.antt =====
-- What the relay promises (core/src/relay_client/mod.rs, `RelayCore`): mailboxes as a function from
-- handles to queues, without limits, counters or the order of a map; and runs of requests and sweeps.
pub mod Refines
use nightdrop.Prelude.{
  List, Option, [], false, if◌then◌else◌, length, map, not, retain, some, true, ℕ, ◌++◌, ◌↔◌, ◌∷◌,
  ◌≡◌, ◌≢◌, ◌⊎◌, Any, ◌<◌, ◌≤◌,
}
use nightdrop.Prelude.Bytes.{Bytes, same}
use nightdrop.Relay.Budget.{live}
use nightdrop.Relay.Post.{entry, Reading}
use nightdrop.Relay.Process.{hit, process}
use nightdrop.Relay.Process.Recall.{IsLeft, HasReceipt}
use nightdrop.Relay.Reaper.{reap}
use nightdrop.Relay.Taken.{AreEmpty, AreTaken, IsSame, IsTaken, IsUpdated, Queues}
use nightdrop.Relay.Types.{
  post, peek, fetch, take, take_many, recall, get_directory, Request, Response, Platform,
  RelayLimits, StoreInner, Stored, max_take_many,
}

-- What happens to the store.
pub data Action : Type 0 where
  serves : Option Bytes → Reading → Request → Action
  sweeps : ℕ → Action

module _ (p : Platform) (limits : RelayLimits) where
  -- What a request may answer, and what becomes of the mailboxes.
  abbrev pub Allows : Option Bytes → Reading → Queues → Request → Response → Queues → Type 0
  Allows directory r a (post handle blob ttl_secs) answer a' =
      ((answer.ok ≡ false) × IsSame a a')
      ⊎ ((bytes : Bytes) × (p.decode blob ≡ some bytes)
          × (answer.ok ≡ true)
          × IsUpdated a handle (a handle ++ entry p limits r handle bytes ttl_secs ∷ []) a')
  Allows directory r a (peek handle) answer a' =
      (answer.count ≡ length (retain (live r.now) (a handle))) × IsSame a a'
  Allows directory r a (fetch handle) answer a' =
      (taken : List Stored) × (answer.items ≡ map (λ e. (e.msg_id, p.encode e.bytes)) taken)
      × IsTaken r.now a handle taken a'
      × (taken ≡ [] → retain (live r.now) (a handle) ≡ [])
  Allows directory r a (take handle) answer a' =
      (taken : List Stored) × (answer.blobs ≡ map (λ e. p.encode e.bytes) taken)
      × IsTaken r.now a handle taken a'
      × (taken ≡ [] → retain (live r.now) (a handle) ≡ [])
  Allows directory r a (take_many handles) answer a' =
      ((max_take_many < length handles) × (answer.ok ≡ false) × IsSame a a')
      ⊎ ((length handles ≤ max_take_many)
          × (answer.ok ≡ true)
          × ((taken : List Stored) × (answer.blobs ≡ map (λ e. p.encode e.bytes) taken)
              × AreTaken r.now a handles taken a'
              × (taken ≡ [] → AreEmpty r.now a handles)))
  Allows directory r a (recall handle msg_id token) answer a' =
      ((answer.ok ≡ true) ↔ Any (HasReceipt msg_id token) (a handle))
      × ((left : List Stored) × IsLeft (HasReceipt msg_id token) (a handle) left
          × IsUpdated a handle left a')
  Allows directory r a get_directory answer a' = (answer.directory ≡ directory) × IsSame a a'

  -- The answers of a run are those of some run of the abstract service.
  abbrev pub IsRun : Queues → List Action → List Response → Type 0
  IsRun a [] [] = Unit
  IsRun a [] (answer ∷ answers) = ⊥
  IsRun a (serves directory r request ∷ actions) [] = ⊥
  IsRun a (serves directory r request ∷ actions) (answer ∷ answers) =
      (a' : Queues) × Allows directory r a request answer a' × IsRun a' actions answers
  IsRun a (sweeps now ∷ actions) answers =
      (a' : Queues) × ((j : Bytes) → a' j ≡ retain (live now) (a j)) × IsRun a' actions answers

  -- The relay's answers.
  unfoldable pub answers_of : StoreInner → List Action → List Response
  answers_of s [] = []
  answers_of s (serves directory r request ∷ actions) =
      let reply = process p limits directory r s request in
      reply.response ∷ answers_of reply.store actions
  answers_of s (sweeps now ∷ actions) = answers_of (reap now s) actions
