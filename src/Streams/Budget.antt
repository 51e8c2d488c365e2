-- ===== src/Streams/Budget.antt =====
-- The budget that all streams share (relay/src/main.rs, `LineBudget`).
use nightdrop.Prelude.{
  List, [], arith, inr, length, refl, suc, zero, ℕ, ◌+◌, ◌<◌, ◌∷◌, ◌≡◌, ◌≤◌, ◌⊎◌, &&_iff,
  Bool-cases, inl, ltb, ltb→lt, true, ◌&&◌,
}
use nightdrop.Prelude.Map.{total}
use nightdrop.Streams.{
  BudgetStep, InFlight, budget_run, budget_step, grow, held_by, max_line_bytes_in_flight, set_held,
}

abbrev pub sum_held : List ℕ → ℕ
sum_held [] = 0
sum_held (h ∷ held) = h + sum_held held

-- The total is what the streams hold, and within the cap.
pub record IsAccounted (s : InFlight) : Type 0 where
  pub sums : s.total ≡ sum_held s.held
  pub fits : s.total ≤ max_line_bytes_in_flight

sum_held-set_held :
    (i n : ℕ) (held : List ℕ)
    → (i < length held) ⊎ (n ≡ 0)
    → sum_held (set_held i n held) + held_by i held ≡ sum_held held + n
sum_held-set_held i n [] h = ground arith
sum_held-set_held zero n (x ∷ held) h = omega arith
sum_held-set_held (suc i) n (x ∷ held) h =
    omega (arith, sum_held-set_held i n held (ground (arith, h)))

grow_lem :
    (total n : ℕ)
    → (grow total n).0 ≡ true
    → ((grow total n).1 ≡ total + n) × (total + n ≤ max_line_bytes_in_flight)
unfolding grow
grow_lem total n h = (ground (arith, h), ground (arith, h))

budget_step-IsAccounted :
    (s : InFlight) (b : BudgetStep) → IsAccounted s → IsAccounted (budget_step s b)
unfolding budget_step
budget_step-IsAccounted s BudgetStep.begin ok = record {
  sums = omega (arith, ok.sums);
  fits = ok.fits;
}
budget_step-IsAccounted s (BudgetStep.more i n) ok =
    elim (Bool-cases ((grow s.total n).0 && ltb i (length s.held))) [
      | inl e ↦
          let (room, there) = (&&_iff (grow s.total n).0 (ltb i (length s.held))).0 e in
          let (grown, fits) = grow_lem s.total n room in
          let moved = sum_held-set_held i (held_by i s.held + n) s.held (inl (ltb→lt i _ there)) in
          rw e (record {
            sums = omega (arith, grown, ok.sums, moved);
            fits = omega (arith, grown, fits);
          })
      | inr e ↦ rw e ok
    ]
budget_step-IsAccounted s (BudgetStep.done i) ok =
    let moved = sum_held-set_held i 0 s.held (inr refl) in
    record { sums = omega (arith, ok.sums, moved); fits = omega (arith, ok.fits) }

-- If the total in flight is what the streams hold and within 512 MiB, it stays so over any steps of
-- any streams.
pub budget_run-IsAccounted :
    (s : InFlight) (steps : List BudgetStep) → IsAccounted s → IsAccounted (budget_run s steps)
unfolding budget_run
budget_run-IsAccounted s [] ok = ok
budget_run-IsAccounted s (b ∷ steps) ok =
    budget_run-IsAccounted (budget_step s b) steps (budget_step-IsAccounted s b ok)
