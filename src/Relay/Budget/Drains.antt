-- ===== src/Relay/Budget/Drains.antt =====
-- The draining loop: its order, its costs, what it serves and its budget
-- (core/src/relay_client/mod.rs, the loop of `drain_handle_bounded`).
use native.Mathlib.Nat.{add_assoc, add-zero}
use nightdrop.Prelude.{
  ℕ, ◌+◌, ◌-◌, ◌≤◌, ◌≡◌, refl, true, false, List, [], ◌∷◌, ◌++◌, arith, max, length, retain, All,
  leb, Bool-cases, inl, inr,
}
use nightdrop.Relay.Budget.{TakeBudget, admit, drain_loop, costs, sizes, live}
use nightdrop.Relay.Types.{Stored}

pub costs-drain_loop :
    (queue : List Stored) (b : TakeBudget) (now : ℕ)
    → let d = drain_loop queue b now in d.freed + costs d.left ≡ costs queue
unfolding drain_loop
costs-drain_loop [] b now = refl
costs-drain_loop (s ∷ queue) b now =
    ground
      (arith, costs-drain_loop queue b now, costs-drain_loop queue (admit b (length s.bytes)).1 now)

-- The live blobs of a mailbox, in order, are those handed out and then those left.
pub live-drain_loop :
    (queue : List Stored) (b : TakeBudget) (now : ℕ)
    → let d = drain_loop queue b now in
      d.taken ++ retain (live now) d.left ≡ retain (live now) queue
unfolding drain_loop
live-drain_loop [] b now = refl
live-drain_loop (s ∷ queue) b now =
    ground
      (arith, live-drain_loop queue b now, live-drain_loop queue (admit b (length s.bytes)).1 now)

All-taken {ℓ} :
    (P : Stored → Type ℓ) (queue : List Stored) (b : TakeBudget) (now : ℕ)
    → All P queue
    → All P (drain_loop queue b now).taken
unfolding drain_loop
All-taken P [] b now h = tt
All-taken P (s ∷ queue) b now h =
    let late = All-taken P queue b now h.1 in
    let rest = All-taken P queue (admit b (length s.bytes)).1 now h.1 in
    ground (arith, late, rest, h.0)

-- Nothing that has expired is handed out.
pub drain_loop-live :
    (queue : List Stored) (b : TakeBudget) (now : ℕ)
    → All (λ s. live now s ≡ true) (drain_loop queue b now).taken
unfolding drain_loop
drain_loop-live [] b now = tt
drain_loop-live (s ∷ queue) b now =
    let late = drain_loop-live queue b now in
    let rest = drain_loop-live queue (admit b (length s.bytes)).1 now in ground (arith, late, rest)

pub All-left {ℓ} :
    (P : Stored → Type ℓ) (queue : List Stored) (b : TakeBudget) (now : ℕ)
    → All P queue
    → All P (drain_loop queue b now).left
unfolding drain_loop
All-left P [] b now h = tt
All-left P (s ∷ queue) b now h =
    let late = All-left P queue b now h.1 in
    let rest = All-left P queue (admit b (length s.bytes)).1 now h.1 in
    ground (arith, late, rest, h.0, h.1)

pub length-left-le :
    (queue : List Stored) (b : TakeBudget) (now : ℕ)
    → length (drain_loop queue b now).left ≤ length queue
unfolding drain_loop
length-left-le [] b now = omega arith
length-left-le (s ∷ queue) b now =
    ground
      (arith, length-left-le queue b now, length-left-le queue (admit b (length s.bytes)).1 now)

pub sizes-left-le :
    (queue : List Stored) (b : TakeBudget) (now : ℕ)
    → sizes (drain_loop queue b now).left ≤ sizes queue
unfolding drain_loop
sizes-left-le [] b now = omega arith
sizes-left-le (s ∷ queue) b now =
    ground (arith, sizes-left-le queue b now, sizes-left-le queue (admit b (length s.bytes)).1 now)

-- With `n` bytes handed out of a budget of `room`, where no blob is larger than `largest`.
pub record Within (room largest n : ℕ) (b : TakeBudget) : Type 0 where
  pub fresh : b.first ≡ true → (n ≡ 0) × (b.room ≡ room)
  pub spent : b.first ≡ false → n + b.room ≤ max room largest

admit-Within :
    (room largest n len : ℕ) (b : TakeBudget)
    → len ≤ largest
    → Within room largest n b
    → (admit b len).0 ≡ true
    → Within room largest (n + len) (admit b len).1
unfolding admit
admit-Within room largest n len b h w e = elim (Bool-cases b.first) [
  | inl p ↦ record { fresh = ground arith; spent = λ _. ground (arith, w.fresh p, p) }
  | inr p ↦ record { fresh = ground arith; spent = λ _. ground (arith, w.spent p, p) }
]

pub drain_loop-Within :
    (room largest n : ℕ) (queue : List Stored) (b : TakeBudget) (now : ℕ)
    → All (λ s. length s.bytes ≤ largest) queue
    → Within room largest n b
    → let d = drain_loop queue b now in Within room largest (n + sizes d.taken) d.budget
unfolding drain_loop
drain_loop-Within room largest n [] b now h w = record {
  fresh = λ e. ground (arith, w.fresh e);
  spent = λ e. ground (arith, w.spent e);
}
drain_loop-Within room largest n (s ∷ queue) b now h w = elim (Bool-cases (leb s.expiry now)) [
  | inl old ↦ rw old (drain_loop-Within room largest n queue b now h.1 w)
  | inr fresh ↦ elim (Bool-cases (admit b (length s.bytes)).0) [
    | inl fits ↦
        rw (fresh, fits, ← add_assoc)
          (drain_loop-Within room largest (n + length s.bytes) queue (admit b (length s.bytes)).1
            now h.1 (admit-Within room largest n (length s.bytes) b h.0 w fits))
    | inr full ↦ rw (fresh, full, add-zero) w
  ]
]

-- A fresh budget that hands out nothing has met nothing live.
pub drain_loop-serves :
    (queue : List Stored) (b : TakeBudget) (now : ℕ)
    → b.first ≡ true
    → (drain_loop queue b now).taken ≡ []
    → retain (live now) queue ≡ []
unfolding drain_loop admit
drain_loop-serves [] b now f e = refl
drain_loop-serves (s ∷ queue) b now f e = ground (arith, drain_loop-serves queue b now f)

-- A budget that handed out nothing is still whole.
pub drain_loop-untouched :
    (queue : List Stored) (b : TakeBudget) (now : ℕ)
    → b.first ≡ true
    → (drain_loop queue b now).taken ≡ []
    → (drain_loop queue b now).budget ≡ b
unfolding drain_loop admit
drain_loop-untouched [] b now f e = refl
drain_loop-untouched (s ∷ queue) b now f e = ground (arith, drain_loop-untouched queue b now f)

-- What fits is handed out whole.
pub drain_loop-all :
    (queue : List Stored) (b : TakeBudget) (now : ℕ)
    → sizes (retain (live now) queue) ≤ b.room
    → (drain_loop queue b now).left ≡ []
unfolding drain_loop admit
drain_loop-all [] b now h = refl
drain_loop-all (s ∷ queue) b now h = ground (
  arith,
  drain_loop-all queue b now,
  drain_loop-all queue (record { room = b.room - length s.bytes; first = false }) now,
)
