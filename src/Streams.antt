-- ===== src/Streams.antt =====
-- Request lines on the relay's streams (relay/src/main.rs, `LineBudget`, `read_line_paced`).
use nightdrop.Prelude.{
  Bool, Option, String, if◌then◌else◌, leb, length, ltb, none, some, take, ℕ, ◌&&◌, ◌*◌, ◌++◌, ◌+◌,
  ◌-◌, ◌==◌, List, [], ◌∷◌, max,
}
use nightdrop.Prelude.Bytes.{Bytes}
use nightdrop.Prelude.Utf8.{from_utf8_lossy}
pub mod Lines
pub mod Budget
pub mod Chunks

-- `MAX_LINE_BYTES_IN_FLIGHT`
abbrev pub max_line_bytes_in_flight : ℕ
max_line_bytes_in_flight = 512 * 1024 * 1024

-- `LINE_IDLE` bounds the wait for a chunk: a chunk that comes too late is `idle`.
pub data Arrival : Type 0 where
  idle : Arrival
  broken : String → Arrival
  chunk : Bytes → Arrival

-- One turn of the loop: the time since the line began, what the other streams hold when the budget is
-- asked, and what arrives.
pub record Turn : Type 0 where
  pub elapsed : ℕ
  pub others : ℕ
  pub arrival : Arrival

-- The pacing limits, and the comparison in `f64` of the bytes so far with the rate times the time.
pub record Pace : Type 0 where
  pub grace : ℕ
  pub min_rate : ℕ
  pub below_rate : ℕ → ℕ → ℕ → Bool

-- What the reader returns, a line with its bytes that are not UTF-8 replaced; or it still waits for
-- the next turn.
pub data LineResult : Type 0 where
  waiting eof timed_out busy too_long : LineResult
  failed : String → LineResult
  line : Bytes → LineResult

-- `LineBudget::grow`: whether `n` more bytes are taken, and the total in flight after it.
unfoldable pub grow : ℕ → ℕ → Bool × ℕ
grow in_flight n =
    if leb (in_flight + n) max_line_bytes_in_flight
    then (Bool.true, in_flight + n)
    else (Bool.false, in_flight)

one_later : Option ℕ → Option ℕ
one_later none = none
one_later (some i) = some (1 + i)

-- `chunk.iter().position(|&b| b == b'\n')`
unfoldable pub newline : Bytes → Option ℕ
unfolding one_later
newline [] = none
newline (b ∷ bytes) = let later = one_later (newline bytes) in if b == 10 then some 0 else later

abbrev pub bytes_of : Arrival → Bytes
bytes_of (chunk c) = c
bytes_of _ = []

-- A chunk that is not empty, with the place of its newline. `rest` is what the next turns return.
unfoldable pub take_chunk : ℕ → ℕ → Bytes → Bytes → Option ℕ → LineResult → LineResult
take_chunk max others buf c (some i) rest =
    if (grow (others + length buf) i).0 then line (from_utf8_lossy (buf ++ take i c)) else busy
take_chunk max others buf c none rest =
    if (grow (others + length buf) (length c)).0
    then if ltb max (length (buf ++ c)) then too_long else rest
    else busy

unfoldable pub on_arrival : ℕ → ℕ → Bytes → Arrival → LineResult → LineResult
unfolding take_chunk
on_arrival max others buf idle rest = timed_out
on_arrival max others buf (broken e) rest = failed e
on_arrival max others [] (chunk []) rest = eof
on_arrival max others (b ∷ buf) (chunk []) rest = line (from_utf8_lossy (b ∷ buf))
on_arrival max others buf (chunk (b ∷ c)) rest =
    take_chunk max others buf (b ∷ c) (newline (b ∷ c)) rest

-- `read_line_paced`, from the bytes read so far. Its budget holds as many bytes as these.
unfoldable pub read_line : Pace → ℕ → Bytes → List Turn → LineResult
unfolding on_arrival
read_line pace max buf [] = waiting
read_line pace max buf (t ∷ turns) =
    let rest = read_line pace max (buf ++ bytes_of t.arrival) turns in
    if ltb pace.grace t.elapsed && pace.below_rate (length buf) pace.min_rate t.elapsed
    then timed_out
    else on_arrival max t.others buf t.arrival rest

-- The streams that share the budget, by what each holds, and the total in flight.
pub record InFlight : Type 0 where
  pub total : ℕ
  pub held : List ℕ

-- The bytes held by the stream at a place, and the list with that stream at another value.
abbrev pub held_by : ℕ → List ℕ → ℕ
held_by i [] = 0
held_by ℕ.zero (h ∷ held) = h
held_by (ℕ.suc i) (h ∷ held) = held_by i held

abbrev pub set_held : ℕ → ℕ → List ℕ → List ℕ
set_held i n [] = []
set_held ℕ.zero n (h ∷ held) = n ∷ held
set_held (ℕ.suc i) n (h ∷ held) = h ∷ set_held i n held

-- `LineBudget(0)`, `LineBudget::grow` and `drop`, by the stream at a place.
pub data BudgetStep : Type 0 where
  begin : BudgetStep
  more : ℕ → ℕ → BudgetStep
  done : ℕ → BudgetStep

unfoldable pub budget_step : InFlight → BudgetStep → InFlight
budget_step s begin = record s { held = 0 ∷ s.held }
budget_step s (more i n) =
    if (grow s.total n).0 && ltb i (length s.held)
    then record { total = (grow s.total n).1; held = set_held i (held_by i s.held + n) s.held }
    else s
budget_step s (done i) = record { total = s.total - held_by i s.held; held = set_held i 0 s.held }

unfoldable pub budget_run : InFlight → List BudgetStep → InFlight
budget_run s [] = s
budget_run s (b ∷ steps) = budget_run (budget_step s b) steps
