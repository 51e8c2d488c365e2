-- ===== src/Mailbox/Pair.antt =====
-- The secret of a pair and its persisted state (core/src/node/mailbox.rs, `pair_secret`,
-- `from_persisted`, `to_persisted`).
use nightdrop.Mailbox.{
  Digests, at_most, ordered, pair_secret, MailboxPair, exactly, from_persisted, to_persisted,
  unb64_32,
}
use nightdrop.Prelude.{
  [], arith, inl, inr, refl, true, ◌∷◌, ◌≡◌, ◌⊎◌, Option, false, length, none, some,
}
use nightdrop.Prelude.Bytes.{Bytes}

at_most_total : (s t : Bytes) → (at_most s t ≡ true) ⊎ (at_most t s ≡ true)
unfolding at_most
at_most_total [] t = inl refl
at_most_total (a ∷ s) [] = inr refl
at_most_total (a ∷ s) (b ∷ t) = ground (arith, at_most_total s t)

at_most_antisym : (s t : Bytes) → at_most s t ≡ true → at_most t s ≡ true → s ≡ t
unfolding at_most
at_most_antisym [] [] h k = refl
at_most_antisym [] (b ∷ t) h k = cc
at_most_antisym (a ∷ s) [] h k = cc
at_most_antisym (a ∷ s) (b ∷ t) h k = ground (arith, at_most_antisym s t)

ordered_comm : (a b : Bytes) → ordered a b ≡ ordered b a
unfolding ordered
ordered_comm a b = ground (arith, at_most_total a b, at_most_antisym a b)

module _ (h : Digests) where
  -- The two sides of a chat derive the same secret, each from its own contribution and the other's.
  pub pair_secret_comm :
      (a_ik b_ik own peer : Bytes)
      → pair_secret h a_ik b_ik own peer ≡ pair_secret h b_ik a_ik peer own
  unfolding pair_secret
  pair_secret_comm a_ik b_ik own peer =
      let same_ikm = ordered_comm own peer in let same_keys = ordered_comm a_ik b_ik in cc

  -- Nor does it matter which contribution is whose.
  pub pair_secret_swap :
      (a_ik b_ik own peer : Bytes)
      → pair_secret h a_ik b_ik own peer ≡ pair_secret h a_ik b_ik peer own
  unfolding pair_secret
  pair_secret_swap a_ik b_ik own peer = let same_ikm = ordered_comm own peer in cc

  -- What the source's types and operations make sure of: contributions are 32 bytes, and no flag is
  -- set while the peer's contribution is not known.
  pub record IsCoherent (p : MailboxPair) : Type 0 where
    pub own_32 : length p.own ≡ 32
    pub peer_32 : (b : Bytes) → p.peer ≡ some b → length b ≡ 32
    pub unknown_peer : p.peer ≡ none → (p.peer_confirmed ≡ false) × (p.confirm_sent ≡ false)

  unb64-base64 :
      (b : Bytes)
      → h.unbase64 (h.base64 b) ≡ some b
      → length b ≡ 32
      → unb64_32 h (h.base64 b) ≡ some b
  unfolding unb64_32 exactly
  unb64-base64 b decodes whole = rw (decodes, whole) refl

  reread :
      (p : MailboxPair) (peer : Option Bytes)
      → IsCoherent p
      → p.peer ≡ peer
      → ((b : Bytes) → h.unbase64 (h.base64 b) ≡ some b)
      → from_persisted h (to_persisted h (some p)) ≡ some p
  unfolding from_persisted to_persisted
  reread p none ok is decodes =
      rw
        (
          is,
          unb64-base64 p.own (decodes p.own) ok.own_32,
          (ok.unknown_peer is).0,
          (ok.unknown_peer is).1,
        )
        refl
  reread p (some b) ok is decodes =
      rw
        (
          is,
          unb64-base64 p.own (decodes p.own) ok.own_32,
          unb64-base64 b (decodes b) (ok.peer_32 b is),
        )
        refl

  -- A chat's agreement survives being stored and read back, if base64 decodes what it encodes, the
  -- contributions are 32 bytes, and no flag is set while the peer's contribution is not known.
  pub from_persisted-to_persisted :
      (pair : Option MailboxPair)
      → ((b : Bytes) → h.unbase64 (h.base64 b) ≡ some b)
      → ((p : MailboxPair) → pair ≡ some p → IsCoherent p)
      → from_persisted h (to_persisted h pair) ≡ pair
  from_persisted-to_persisted none decodes ok = unfold from_persisted to_persisted in refl
  from_persisted-to_persisted (some p) decodes ok = reread p p.peer (ok p refl) refl decodes
