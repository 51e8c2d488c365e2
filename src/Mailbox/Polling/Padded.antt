-- ===== src/Mailbox/Polling/Padded.antt =====
-- How many handles a day's fragments ask for (core/src/node/mailbox.rs, `poll_fragments_at`).
use nightdrop.Mailbox.{Digests}
use nightdrop.Mailbox.Polling.{
  PollFragment, all_handles, dummies, epoch_fragments, fragments_of, padded_count, poll_pad,
  push_all, push_at, real_handles, poll_fragments,
}
use nightdrop.Mailbox.Polling.Covered.{length-push_at, dummies-fit, real_handles-fit}
use nightdrop.Mailbox.State.{Chat, Olm}
use nightdrop.Prelude.{
  All, List, [], ap, arith, length, length-append, max, refl, suc, sum_by, zero, ℕ, ◌%◌, ◌+◌, ◌<◌,
  ◌∷◌, ◌≡◌, ◌≤◌, All-append, replicate, ◌++◌, ◌-◌, ◌∙◌,
}
use nightdrop.Prelude.Bytes.{Bytes}
use nightdrop.Prelude.Map.{Map}

abbrev handles_in : List (List Bytes) → ℕ
handles_in buckets = sum_by length buckets

sum_by-push_at :
    (handle : Bytes) (n : ℕ) (buckets : List (List Bytes))
    → n < length buckets
    → handles_in (push_at n handle buckets) ≡ handles_in buckets + 1
unfolding push_at
sum_by-push_at handle n [] fits = absurd (omega (arith, fits))
sum_by-push_at handle zero (b ∷ buckets) fits = omega (arith, length-append b (handle ∷ []))
sum_by-push_at handle (suc n) (b ∷ buckets) fits =
    omega (arith, sum_by-push_at handle n buckets (omega (arith, fits)))

sum_by-push_all :
    (handles : List (ℕ × Bytes)) (buckets : List (List Bytes))
    → All (λ g. g.0 < length buckets) handles
    → handles_in (push_all handles buckets) ≡ handles_in buckets + length handles
unfolding push_all
sum_by-push_all [] buckets fit = omega arith
sum_by-push_all ((n, g) ∷ handles) buckets (fits, fit) = omega (
  arith,
  sum_by-push_at g n buckets fits,
  sum_by-push_all handles (push_at n g buckets) (rw (length-push_at g n buckets) fit),
)

-- How many handles the fragments ask for.
abbrev pub asked : List PollFragment → ℕ
asked fragments = sum_by (λ f. length f.handles) fragments

module _ (h : Digests) where
  asked-fragments_of :
      (seed : Bytes) (epoch b : ℕ) (buckets : List (List Bytes))
      → asked (fragments_of h seed epoch b buckets) ≡ handles_in buckets
  unfolding fragments_of
  asked-fragments_of seed epoch b [] = refl
  asked-fragments_of seed epoch b ([] ∷ buckets) =
      omega (arith, asked-fragments_of seed epoch (b + 1) buckets)
  asked-fragments_of seed epoch b ((g ∷ handles) ∷ buckets) =
      omega (arith, asked-fragments_of seed epoch (b + 1) buckets)

  length-dummies :
      (seed : Bytes) (epoch count i : ℕ) → length (dummies h seed epoch count i) ≡ count
  unfolding dummies
  length-dummies seed epoch zero i = refl
  length-dummies seed epoch (suc count) i = ap suc (length-dummies seed epoch count (i + 1))

  padded_count-bounds :
      (n : ℕ)
      → (padded_count n % poll_pad ≡ 0)
        × (n ≤ padded_count n)
        × (padded_count n < max n 1 + poll_pad)
  unfolding padded_count
  padded_count-bounds n = ground arith

  -- A day's fragments ask together for a multiple of eight handles, the next that is not below the
  -- number of real ones, however they fall into the buckets.
  asked-epoch_fragments :
      {o : Olm} (me seed : Bytes) (epoch : ℕ) (chats : Map (Chat o))
      → (let count = length (real_handles h me seed epoch chats) in
          let total = asked (epoch_fragments h me seed epoch chats) in
          (total % poll_pad ≡ 0) × (count ≤ total) × (total < max count 1 + poll_pad))
  unfolding epoch_fragments all_handles
  asked-epoch_fragments me seed epoch chats =
      let real = real_handles h me seed epoch chats in
      let count = padded_count (length real) - length real in
      let extra = dummies h seed epoch count 0 in
      let (even, enough, near) = padded_count-bounds (length real) in
      let total : asked (epoch_fragments h me seed epoch chats) ≡ padded_count (length real) =
        asked-fragments_of seed epoch 0 _
        ∙ sum_by-push_all (real ++ extra) (replicate poll_fragments []) (
            All-append _ real extra (real_handles-fit h me seed epoch chats)
              (dummies-fit h seed epoch count 0))
        ∙ omega (arith, length-append real extra, length-dummies seed epoch count 0, enough) in
      rw total (even, enough, near)
