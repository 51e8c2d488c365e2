-- ===== src/Mailbox/Agree/Trust.antt =====
-- What a side may trust of a pair's state, and sending (core/src/node/mailbox.rs,
-- `send_mailbox_key`).
use nightdrop.Mailbox.{Digests, MailboxPair, confirm_hash, fresh_pair, pair_secret}
use nightdrop.Mailbox.Agree.{
  Sent, heard, marked, our_confirmation, pair_or_fresh, sealed_with, send_key,
}
use nightdrop.Mailbox.Agree.Steps.{Side, saying}
use nightdrop.Mailbox.State.{Chat, Olm}
use nightdrop.Prelude.{
  All, Any, Bool, Bool-cases, List, Option, inl, inr, length, none, not, refl, some, true, ◌||◌,
  ◌≡◌,
}
use nightdrop.Prelude.Bytes.{Bytes}

-- The contributions that are drawn are 32 bytes each, as is every hash, and the confirmations of two
-- secrets that share one of them differ if the others do.
pub record IsCollisionFree (h : Digests) (Drawn : Bytes → Type 0) (a_ik b_ik : Bytes) : Type 0 where
  pub whole : (x : Bytes) → Drawn x → length x ≡ 32
  pub hash_32 : (s : Bytes) → length (confirm_hash h s) ≡ 32
  pub apart :
      (x y z : Bytes)
      → Drawn x
      → Drawn y
      → Drawn z
      → confirm_hash h (pair_secret h a_ik b_ik x y) ≡ confirm_hash h (pair_secret h a_ik b_ik x z)
      → y ≡ z

-- A state whose contributions are drawn.
abbrev pub IsDrawn : (Bytes → Type 0) → MailboxPair → Type 0
IsDrawn Drawn q = Drawn q.own × ((x : Bytes) → q.peer ≡ some x → Drawn x)

-- The peer has sent, at some time, with its own contribution the one that `p` has of it, and of `p`'s
-- side the one that `p` has.
abbrev pub IsMutual : List MailboxPair → MailboxPair → Type 0
IsMutual heard p = Any (λ q. (p.peer ≡ some q.own) × (q.peer ≡ some p.own)) heard

pub record IsTrusted (Drawn : Bytes → Type 0) (heard : List MailboxPair) (p : MailboxPair)
    : Type 0 where
  pub own_drawn : Drawn p.own
  pub peer_drawn : (x : Bytes) → p.peer ≡ some x → Drawn x
  pub agreed : p.peer_confirmed ≡ true → IsMutual heard p

abbrev pub MaybeTrusted : (Bytes → Type 0) → List MailboxPair → Option MailboxPair → Type 0
MaybeTrusted Drawn heard mailbox = (p : MailboxPair) → mailbox ≡ some p → IsTrusted Drawn heard p

pub record IsSafe {o : Olm} (Drawn : Bytes → Type 0) (heard : List MailboxPair) (side : Side o)
    : Type 0 where
  pub mailbox : MaybeTrusted Drawn heard side.chat.mailbox
  pub said : All (IsTrusted Drawn heard) side.said
  pub backups : All (MaybeTrusted Drawn heard) side.backups

module _ (h : Digests) (o : Olm) (Drawn : Bytes → Type 0) (me contact : Bytes)
    (heard_from : List MailboxPair) where
  abbrev pub Trusted : MailboxPair → Type 0
  Trusted = IsTrusted Drawn heard_from

  fresh-Trusted : (random : Bytes) → Drawn random → Trusted (fresh_pair random)
  unfolding fresh_pair
  fresh-Trusted random drawn = record {
    own_drawn = drawn;
    peer_drawn = λ x e. cc;
    agreed = λ e. cc;
  }

  pub pair_or_fresh-Trusted :
      (random : Bytes) (mailbox : Option MailboxPair)
      → Drawn random
      → MaybeTrusted Drawn heard_from mailbox
      → Trusted (pair_or_fresh random mailbox)
  unfolding pair_or_fresh
  pair_or_fresh-Trusted random none drawn m = fresh-Trusted random drawn
  pair_or_fresh-Trusted random (some pair) drawn m = m pair refl

  marked-Trusted :
      (confirm : Option Bytes) (p : MailboxPair)
      → Trusted p
      → Trusted (marked h o me contact confirm p)
  marked-Trusted confirm p t = record {
    own_drawn = t.own_drawn;
    peer_drawn = t.peer_drawn;
    agreed = t.agreed;
  }

  -- What a handler leaves is trusted, and so is what it said.
  pub record IsFine (s : Sent o) : Type 0 where
    pub mailbox : MaybeTrusted Drawn heard_from s.chat.mailbox
    pub said : All Trusted (saying o s.message s.chat.mailbox)

  pub some-MaybeTrusted : (p : MailboxPair) → Trusted p → MaybeTrusted Drawn heard_from (some p)
  some-MaybeTrusted p t q e = let same_pair : p ≡ q = cc in rw (← same_pair) t

  sealed_with-IsFine :
      (chat : Chat o) (p : MailboxPair) (was_dirty : Bool) (out : Option o.Message × o.Session)
      → Trusted p
      → IsFine (sealed_with h o me contact chat p was_dirty out)
  unfolding sealed_with saying
  sealed_with-IsFine chat p was_dirty (none, session) t = record {
    mailbox = some-MaybeTrusted p t;
    said = tt;
  }
  sealed_with-IsFine chat p was_dirty (some message, session) t =
      let m = marked-Trusted (our_confirmation h o me contact p) p t in
      record { mailbox = some-MaybeTrusted _ m; said = (m, tt) }

  pub send_key-IsFine :
      (meet : Bool) (random : Bytes) (chat : Chat o)
      → Drawn random
      → MaybeTrusted Drawn heard_from chat.mailbox
      → IsFine (send_key h o me contact meet random chat)
  unfolding send_key saying
  send_key-IsFine meet random chat drawn m =
      elim (Bool-cases (not meet || not chat.authorized || chat.closed)) [
        | inl e ↦ rw e (record { mailbox = m; said = tt })
        | inr e ↦
            rw e (sealed_with-IsFine chat _ _ _ (pair_or_fresh-Trusted random chat.mailbox drawn m))
      ]
