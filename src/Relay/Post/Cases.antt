-- ===== src/Relay/Post/Cases.antt =====
-- The ways a post ends (core/src/relay_client/mod.rs, `process` at `Request::Post`).
use nightdrop.Prelude.{
  ℕ, ◌≡◌, ◌⊎◌, true, false, none, some, length, Option-cases, Bool-cases, inl, inr,
}
use nightdrop.Prelude.Bytes.{Bytes}
use nightdrop.Relay.Types.{Platform, RelayLimits, StoreInner, valid_handle, err}
use nightdrop.Relay.Post.{Reading, Reply, reject, refuse_post, accept_post, process_post}

module _ (p : Platform) (limits : RelayLimits) (r : Reading) (s : StoreInner) where
  -- A refusal, and the store as it was.
  pub record Refused (reply : Reply) : Type 0 where
    pub refused : reply.response.ok ≡ false
    pub untouched : reply.store ≡ s

  -- What an accepted post has passed, and its reply.
  pub record Accepted (handle blob : Bytes) (ttl_secs : ℕ) (reply : Reply) : Type 0 where
    pub bytes : Bytes
    pub decoded : p.decode blob ≡ some bytes
    pub valid : valid_handle handle ≡ true
    pub admitted : reject limits s handle (length bytes) ≡ none
    pub reply_eq : reply ≡ accept_post p limits r s handle bytes ttl_secs

  module _ (handle blob : Bytes) (ttl_secs : ℕ) where
    refuse_post-cases :
        (bytes : Bytes)
        → p.decode blob ≡ some bytes
        → valid_handle handle ≡ true
        → let reply =
            refuse_post p limits
              (reject limits s handle (length bytes))
              r
              s
              handle
              bytes
              ttl_secs in
          Refused reply ⊎ Accepted handle blob ttl_secs reply
    unfolding refuse_post err
    refuse_post-cases bytes d v = elim (Option-cases (reject limits s handle (length bytes))) [
      | inl e ↦
          inr (record { bytes = bytes; decoded = d; valid = v; admitted = e; reply_eq = rw e })
      | inr (reason, e) ↦ inl (record { refused = rw e; untouched = rw e })
    ]

    pub process_post-cases :
        let reply = process_post p limits r s handle blob ttl_secs in
        Refused reply ⊎ Accepted handle blob ttl_secs reply
    unfolding process_post err
    process_post-cases = elim (Option-cases (p.decode blob)) [
      | inl e ↦ inl (record { refused = rw e; untouched = rw e })
      | inr (bytes, e) ↦ elim (Bool-cases (valid_handle handle)) [
        | inl v ↦ rw (e, v) (refuse_post-cases bytes e v)
        | inr v ↦ inl (record { refused = rw (e, v); untouched = rw (e, v) })
      ]
    ]
