-- ===== src/Tests/Streams.antt =====
-- A line in two chunks, and three streams.
use nightdrop.Prelude.{List, [], ◌∷◌, refl, ◌*◌, ◌≡◌, arith, ltb}
use nightdrop.Prelude.Utf8.{
  begin, decode_byte, end_of, extend, following, from_utf8_lossy, lossy_from,
}
use nightdrop.Streams.{
  Arrival, BudgetStep, InFlight, LineResult, Pace, Turn, budget_run, newline, read_line,
}
use nightdrop.Streams.Budget.{IsAccounted, budget_run-IsAccounted}
use nightdrop.Streams.Chunks.{IsSmooth, read_line_any_split}

abbrev pace : Pace
pace = record { grace = 120; min_rate = 256; below_rate = λ len rate secs. ltb len (rate * secs) }

-- "é", whose two bytes are in two chunks, and a byte that is no UTF-8.
abbrev turns : List Turn
turns =
    record { elapsed = 0; others = 100; arrival = Arrival.chunk (195 ∷ []) }
    ∷ record { elapsed = 1; others = 0; arrival = Arrival.chunk (169 ∷ 255 ∷ 10 ∷ 33 ∷ []) }
    ∷ []

first-IsSmooth :
    IsSmooth pace 1000 (record { elapsed = 0; others = 100; arrival = Arrival.chunk (195 ∷ []) })
first-IsSmooth = record {
  byte = _;
  bytes = _;
  arrives = refl;
  in_time = omega arith;
  room = omega arith;
}

second-IsSmooth :
    IsSmooth pace 1000
      (record { elapsed = 1; others = 0; arrival = Arrival.chunk (169 ∷ 255 ∷ 10 ∷ 33 ∷ []) })
second-IsSmooth = record {
  byte = _;
  bytes = _;
  arrives = refl;
  in_time = omega arith;
  room = omega arith;
}

read_line_any_split_example :
    read_line pace 1000 [] turns ≡ LineResult.line (195 ∷ 169 ∷ 239 ∷ 191 ∷ 189 ∷ [])
unfolding from_utf8_lossy lossy_from decode_byte begin extend following end_of
read_line_any_split_example =
    read_line_any_split pace 1000 [] (195 ∷ 169 ∷ 255 ∷ []) (33 ∷ []) turns
      (first-IsSmooth, (second-IsSmooth, tt)) refl (unfold newline in refl) (omega arith)

abbrev nothing_held : InFlight
nothing_held = record { total = 0; held = [] }

abbrev steps : List BudgetStep
steps =
    BudgetStep.begin
    ∷ BudgetStep.begin
    ∷ BudgetStep.more 0 300000000
    ∷ BudgetStep.more 1 300000000
    ∷ BudgetStep.done 0
    ∷ []

budget_run-IsAccounted_example : IsAccounted (budget_run nothing_held steps)
budget_run-IsAccounted_example =
    budget_run-IsAccounted nothing_held steps (record { sums = refl; fits = omega arith })
