-- ===== src/Mailbox/Polling/Covered.antt =====
-- Every handle is polled in some fragment (core/src/node/mailbox.rs, `poll_fragments_at`).
use nightdrop.Mailbox.{Digests}
use nightdrop.Mailbox.Epochs.{contains, polled_epochs}
use nightdrop.Mailbox.Polling.{
  push_all, push_at, PollFragment, all_handles, bucket_of, dummies, dummy, epoch_fragments,
  fragments_of, inbound, over_epochs, padded_count, poll_fragments, poll_fragments_at, real_handles,
  with_inbound,
}
use nightdrop.Mailbox.State.{Chat, Node, Olm}
use nightdrop.Prelude.{
  All, Any, Any-append_left, Any-append_right, List, [], ap, arith, inl, inr, length, refl, suc,
  zero, ℕ, ◌<◌, ◌∷◌, ◌≡◌, ==_iff, All-append, Bool-cases, Option, none, replicate, some, true, ◌++◌,
  ◌+◌, ◌-◌, ◌==◌,
}
use nightdrop.Prelude.Bytes.{Bytes, eq_of_same, same}
use nightdrop.Prelude.Map.{Map, get}

-- In some bucket.
abbrev InBucket : Bytes → List (List Bytes) → Type 0
InBucket handle buckets = Any (λ bucket. Any (λ g. g ≡ handle) bucket) buckets

push_at-kept :
    (handle new : Bytes) (n : ℕ) (buckets : List (List Bytes))
    → InBucket handle buckets
    → InBucket handle (push_at n new buckets)
unfolding push_at
push_at-kept handle new zero (b ∷ buckets) (inl x) = inl (Any-append_left _ b (new ∷ []) x)
push_at-kept handle new zero (b ∷ buckets) (inr x) = inr x
push_at-kept handle new (suc n) (b ∷ buckets) (inl x) = inl x
push_at-kept handle new (suc n) (b ∷ buckets) (inr x) = inr (push_at-kept handle new n buckets x)
push_at-kept handle new n [] x = absurd x

push_at-new :
    (handle : Bytes) (n : ℕ) (buckets : List (List Bytes))
    → n < length buckets
    → InBucket handle (push_at n handle buckets)
unfolding push_at
push_at-new handle zero (b ∷ buckets) fits = inl (Any-append_right _ b (handle ∷ []) (inl refl))
push_at-new handle (suc n) (b ∷ buckets) fits =
    inr (push_at-new handle n buckets (omega (arith, fits)))
push_at-new handle n [] fits = absurd (omega (arith, fits))

pub length-push_at :
    (handle : Bytes) (n : ℕ) (buckets : List (List Bytes))
    → length (push_at n handle buckets) ≡ length buckets
unfolding push_at
length-push_at handle n [] = refl
length-push_at handle zero (b ∷ buckets) = refl
length-push_at handle (suc n) (b ∷ buckets) = ap suc (length-push_at handle n buckets)

push_all-kept :
    (handle : Bytes) (handles : List (ℕ × Bytes)) (buckets : List (List Bytes))
    → InBucket handle buckets
    → InBucket handle (push_all handles buckets)
unfolding push_all
push_all-kept handle [] buckets x = x
push_all-kept handle ((n, g) ∷ handles) buckets x =
    push_all-kept handle handles (push_at n g buckets) (push_at-kept handle g n buckets x)

push_all-InBucket :
    (handle : Bytes) (handles : List (ℕ × Bytes)) (buckets : List (List Bytes))
    → All (λ g. g.0 < length buckets) handles
    → Any (λ g. g.1 ≡ handle) handles
    → InBucket handle (push_all handles buckets)
unfolding push_all
push_all-InBucket handle [] buckets fit x = absurd x
push_all-InBucket handle ((n, g) ∷ handles) buckets (fits, fit) (inl same_handle) =
    push_all-kept handle handles (push_at n g buckets)
      (rw (← same_handle) (push_at-new g n buckets fits))
push_all-InBucket handle ((n, g) ∷ handles) buckets (fits, fit) (inr x) =
    push_all-InBucket handle handles (push_at n g buckets) (rw (length-push_at g n buckets) fit) x

-- Some fragment of the day asks for the handle.
abbrev pub IsPolled : Bytes → ℕ → List PollFragment → Type 0
IsPolled handle epoch fragments =
    Any (λ f. (f.epoch ≡ some epoch) × Any (λ g. g ≡ handle) f.handles) fragments

module _ (h : Digests) where
  fragments_of-IsPolled :
      (handle seed : Bytes) (epoch b : ℕ) (buckets : List (List Bytes))
      → InBucket handle buckets
      → IsPolled handle epoch (fragments_of h seed epoch b buckets)
  unfolding fragments_of
  fragments_of-IsPolled handle seed epoch b [] x = absurd x
  fragments_of-IsPolled handle seed epoch b ([] ∷ buckets) (inl x) = absurd x
  fragments_of-IsPolled handle seed epoch b ([] ∷ buckets) (inr x) =
      fragments_of-IsPolled handle seed epoch (b + 1) buckets x
  fragments_of-IsPolled handle seed epoch b ((g ∷ handles) ∷ buckets) (inl x) = inl (refl, x)
  fragments_of-IsPolled handle seed epoch b ((g ∷ handles) ∷ buckets) (inr x) =
      inr (fragments_of-IsPolled handle seed epoch (b + 1) buckets x)

  bucket_of-lt : (seed : Bytes) (epoch : ℕ) (label : Bytes) → bucket_of h seed epoch label < 7
  unfolding bucket_of
  bucket_of-lt seed epoch label = omega arith

  pub dummies-fit :
      (seed : Bytes) (epoch count i : ℕ) → All (λ g. g.0 < 7) (dummies h seed epoch count i)
  unfolding dummies dummy
  dummies-fit seed epoch zero i = tt
  dummies-fit seed epoch (suc count) i =
      (bucket_of-lt seed epoch _, dummies-fit seed epoch count (i + 1))

  with_inbound-fit :
      (seed contact : Bytes) (epoch : ℕ) (handle : Option Bytes) (rest : List (ℕ × Bytes))
      → All (λ g. g.0 < 7) rest
      → All (λ g. g.0 < 7) (with_inbound h seed contact epoch handle rest)
  unfolding with_inbound
  with_inbound-fit seed contact epoch none rest fit = fit
  with_inbound-fit seed contact epoch (some handle) rest fit =
      (bucket_of-lt seed epoch contact, fit)

  pub with_inbound-kept :
      (seed contact : Bytes) (epoch : ℕ) (handle : Option Bytes) (rest : List (ℕ × Bytes))
      (P : ℕ × Bytes → Type 0)
      → Any P rest
      → Any P (with_inbound h seed contact epoch handle rest)
  unfolding with_inbound
  with_inbound-kept seed contact epoch none rest P x = x
  with_inbound-kept seed contact epoch (some handle) rest P x = inr x

  module _ {o : Olm} where
    pub real_handles-fit :
        (me seed : Bytes) (epoch : ℕ) (chats : Map (Chat o))
        → All (λ g. g.0 < 7) (real_handles h me seed epoch chats)
    unfolding real_handles
    real_handles-fit me seed epoch [] = (bucket_of-lt seed epoch _, tt)
    real_handles-fit me seed epoch ((contact, chat) ∷ chats) =
        with_inbound-fit seed contact epoch (inbound h me contact epoch chat) _
          (real_handles-fit me seed epoch chats)

    real_handles-found :
        (me seed contact handle : Bytes) (epoch : ℕ) (chats : Map (Chat o)) (chat : Chat o)
        → get contact chats ≡ some chat
        → inbound h me contact epoch chat ≡ some handle
        → Any (λ g. g.1 ≡ handle) (real_handles h me seed epoch chats)
    unfolding real_handles get
    real_handles-found me seed contact handle epoch [] chat is polls = cc
    real_handles-found me seed contact handle epoch ((other, c) ∷ chats) chat is polls =
        elim (Bool-cases (same other contact)) [
          | inl e ↦
              let here : c ≡ chat = let found = rw e at is in cc in
              let key = eq_of_same other contact e in
              rw (here, key, polls) (unfold with_inbound in inl refl)
          | inr e ↦
              with_inbound-kept seed other epoch (inbound h me other epoch c) _ (λ g. g.1 ≡ handle)
                (real_handles-found me seed contact handle epoch chats chat (rw e at is) polls)
        ]

    epoch_fragments-IsPolled :
        (me seed handle : Bytes) (epoch : ℕ) (chats : Map (Chat o))
        → Any (λ g. g.1 ≡ handle) (real_handles h me seed epoch chats)
        → IsPolled handle epoch (epoch_fragments h me seed epoch chats)
    unfolding epoch_fragments all_handles
    epoch_fragments-IsPolled me seed handle epoch chats found =
        let real = real_handles h me seed epoch chats in
        let extra = dummies h seed epoch (padded_count (length real) - length real) 0 in
        fragments_of-IsPolled handle seed epoch 0 _ (
          push_all-InBucket handle (real ++ extra) (replicate poll_fragments [])
            (All-append _ real extra (real_handles-fit me seed epoch chats)
              (dummies-fit seed epoch _ 0))
            (Any-append_left _ real extra found))

    over_epochs-IsPolled :
        (me seed handle : Bytes) (epoch : ℕ) (chats : Map (Chat o)) (epochs : List ℕ)
        → Any (λ g. g.1 ≡ handle) (real_handles h me seed epoch chats)
        → contains epochs epoch ≡ true
        → IsPolled handle epoch (over_epochs h me seed chats epochs)
    unfolding over_epochs contains
    over_epochs-IsPolled me seed handle epoch chats [] found due = cc
    over_epochs-IsPolled me seed handle epoch chats (e ∷ epochs) found due =
        elim (Bool-cases (e == epoch)) [
          | inl same_day ↦
              let day = (==_iff e epoch).0 same_day in
              Any-append_left _ (epoch_fragments h me seed e chats) _
                (rw day (epoch_fragments-IsPolled me seed handle epoch chats found))
          | inr later ↦
              Any-append_right _ (epoch_fragments h me seed e chats) _
                (over_epochs-IsPolled me seed handle epoch chats epochs found (rw later at due))
        ]

    -- Every real handle of a polled day is asked for.
    pub real-IsPolled :
        (node : Node o) (now epoch : ℕ) (handle : Bytes)
        → Any (λ g. g.1 ≡ handle) (real_handles h node.identity_key node.poll_seed epoch node.chats)
        → contains (polled_epochs node.prev_epoch_drained now) epoch ≡ true
        → IsPolled handle epoch (poll_fragments_at h node now)
    unfolding poll_fragments_at
    real-IsPolled node now epoch handle found due =
        over_epochs-IsPolled node.identity_key node.poll_seed handle epoch node.chats _ found due

    -- The handle of every open chat whose peer's contribution is known is in a fragment of each day
    -- that is polled.
    pub poll_fragments_at-IsPolled :
        (node : Node o) (now epoch : ℕ) (contact handle : Bytes) (chat : Chat o)
        → get contact node.chats ≡ some chat
        → inbound h node.identity_key contact epoch chat ≡ some handle
        → contains (polled_epochs node.prev_epoch_drained now) epoch ≡ true
        → IsPolled handle epoch (poll_fragments_at h node now)
    poll_fragments_at-IsPolled node now epoch contact handle chat is polls due =
        real-IsPolled node now epoch handle
          (real_handles-found node.identity_key node.poll_seed contact handle epoch node.chats chat
            is polls)
          due
