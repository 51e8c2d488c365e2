-- ===== src/Mailbox/Agree/Mutual.antt =====
-- Confirmation is mutual knowledge (core/src/node/mailbox.rs, `send_mailbox_key`, `on_mailbox_key`).
use nightdrop.Mailbox.{Digests, MailboxPair, confirm_hash}
use nightdrop.Mailbox.Agree.{Sent}
use nightdrop.Mailbox.Agree.Steps.{
  Side, SideStep, after, saying, announce, deliver, back_up, come_back, other, left, right, begins,
  goes_on, IsNew, Runs, WorldStep,
}
use nightdrop.Mailbox.Agree.Confirmed.{on_key-IsFine}
use nightdrop.Mailbox.Agree.Trust.{
  IsCollisionFree, IsDrawn, IsFine, IsSafe, MaybeTrusted, send_key-IsFine, IsMutual, IsTrusted,
}
use nightdrop.Mailbox.Pair.{pair_secret_comm, pair_secret_swap}
use nightdrop.Mailbox.State.{Olm}
use nightdrop.Prelude.{
  All, All-Any, All-append, Any, List, Option, ◌≡◌, All-map, Any-append_right, ap, some, true, ◌∙◌,
}
use nightdrop.Prelude.Bytes.{Bytes}

module _ (h : Digests) (o : Olm) (Drawn : Bytes → Type 0) (me contact : Bytes)
    (heard_from : List MailboxPair) where
  MaybeTrusted-backup :
      (mailbox : Option MailboxPair) (backups : List (Option MailboxPair))
      → All (MaybeTrusted Drawn heard_from) backups
      → Any (λ b. mailbox ≡ b) backups
      → MaybeTrusted Drawn heard_from mailbox
  MaybeTrusted-backup mailbox backups trusted from =
      let (b, t, is, _) = All-Any _ _ backups trusted from in rw is t

  after-IsSafe :
      (side : Side o) (s : Sent o)
      → IsSafe Drawn heard_from side
      → IsFine h o Drawn me contact heard_from s
      → IsSafe Drawn heard_from (after o side s)
  unfolding after
  after-IsSafe side s safe fine = record {
    mailbox = fine.mailbox;
    said = All-append _ (saying o s.message s.chat.mailbox) side.said fine.said safe.said;
    backups = safe.backups;
  }

  SideStep-IsSafe :
      {side next : Side o}
      → IsCollisionFree h Drawn me contact
      → All (IsDrawn Drawn) heard_from
      → IsSafe Drawn heard_from side
      → SideStep h o Drawn me contact heard_from side next
      → IsSafe Drawn heard_from next
  SideStep-IsSafe {side} free drawn safe (announce meet random d) =
      after-IsSafe side _ safe
        (send_key-IsFine h o Drawn me contact heard_from meet random side.chat d safe.mailbox)
  SideStep-IsSafe {side} free drawn safe (deliver meet random now message d is) =
      after-IsSafe side _ safe (
        on_key-IsFine h o Drawn me contact heard_from free meet random now side.chat message d
          safe.mailbox drawn is)
  SideStep-IsSafe {side} free drawn safe back_up = record {
    mailbox = safe.mailbox;
    said = safe.said;
    backups = (safe.mailbox, safe.backups);
  }
  SideStep-IsSafe {side} free drawn safe (come_back chat from) = record {
    mailbox = MaybeTrusted-backup chat.mailbox side.backups safe.backups from;
    said = safe.said;
    backups = safe.backups;
  }
  SideStep-IsSafe {side} free drawn safe (other chat same_mailbox) = record {
    mailbox = rw same_mailbox safe.mailbox;
    said = safe.said;
    backups = safe.backups;
  }

  -- What was said stays said.
  SideStep-said :
      {side next : Side o} (P : MailboxPair → Type 0)
      → SideStep h o Drawn me contact heard_from side next
      → Any P side.said
      → Any P next.said
  unfolding after
  SideStep-said {side} P (announce meet random d) a = Any-append_right P _ side.said a
  SideStep-said {side} P (deliver meet random now message d is) a = Any-append_right P _ side.said a
  SideStep-said P back_up a = a
  SideStep-said P (come_back chat from) a = a
  SideStep-said P (other chat same_mailbox) a = a

module _ (Drawn : Bytes → Type 0) (old new : List MailboxPair)
    (more : (P : MailboxPair → Type 0) → Any P old → Any P new) where
  IsTrusted-mono : (p : MailboxPair) → IsTrusted Drawn old p → IsTrusted Drawn new p
  IsTrusted-mono p t = record {
    own_drawn = t.own_drawn;
    peer_drawn = t.peer_drawn;
    agreed = λ e. more _ (t.agreed e);
  }

  IsSafe-mono : {o : Olm} (side : Side o) → IsSafe Drawn old side → IsSafe Drawn new side
  IsSafe-mono side safe = record {
    mailbox = λ p e. IsTrusted-mono p (safe.mailbox p e);
    said = All-map _ _ side.said IsTrusted-mono safe.said;
    backups = All-map _ _ side.backups (λ b t p e. IsTrusted-mono p (t p e)) safe.backups;
  }

said-IsDrawn :
    {o : Olm} (Drawn : Bytes → Type 0) (heard : List MailboxPair) (side : Side o)
    → IsSafe Drawn heard side
    → All (IsDrawn Drawn) side.said
said-IsDrawn Drawn heard side safe =
    All-map _ _ side.said (λ p t. (t.own_drawn, t.peer_drawn)) safe.said

abbrev AreSafe : {o : Olm} → (Bytes → Type 0) → Side o × Side o → Type 0
AreSafe Drawn (a, b) = IsSafe Drawn b.said a × IsSafe Drawn a.said b

module _ (h : Digests) (o : Olm) (Drawn : Bytes → Type 0) (a_ik b_ik : Bytes) where
  IsCollisionFree-flip : IsCollisionFree h Drawn a_ik b_ik → IsCollisionFree h Drawn b_ik a_ik
  IsCollisionFree-flip free = record {
    whole = free.whole;
    hash_32 = free.hash_32;
    apart = λ x y z dx dy dz e. free.apart x y z dx dy dz (
        ap (confirm_hash h) (pair_secret_swap h a_ik b_ik x y ∙ pair_secret_comm h a_ik b_ik y x)
        ∙ e
        ∙ ap (confirm_hash h)
            (pair_secret_comm h b_ik a_ik x z ∙ pair_secret_swap h a_ik b_ik z x));
  }

  WorldStep-AreSafe :
      {w v : Side o × Side o}
      → IsCollisionFree h Drawn a_ik b_ik
      → AreSafe Drawn w
      → WorldStep h o Drawn a_ik b_ik w v
      → AreSafe Drawn v
  WorldStep-AreSafe free (a_safe, b_safe) (left a b a' step) = (
    SideStep-IsSafe h o Drawn a_ik b_ik b.said free (said-IsDrawn Drawn a.said b b_safe) a_safe
        step,
    IsSafe-mono Drawn a.said a'.said (λ P. SideStep-said h o Drawn a_ik b_ik b.said P step) b
        b_safe,
  )
  WorldStep-AreSafe free (a_safe, b_safe) (right a b b' step) = (
    IsSafe-mono Drawn b.said b'.said (λ P. SideStep-said h o Drawn b_ik a_ik a.said P step) a
        a_safe,
    SideStep-IsSafe h o Drawn b_ik a_ik a.said (IsCollisionFree-flip free)
        (said-IsDrawn Drawn b.said a a_safe) b_safe step,
  )

  new-IsSafe :
      (heard : List MailboxPair) (side : Side o) → IsNew h o Drawn side → IsSafe Drawn heard side
  new-IsSafe heard side (m, s, b) = record {
    mailbox = λ p e. let impossible = rw m at e in cc;
    said = rw s tt;
    backups = rw b tt;
  }

  Runs-AreSafe :
      {a b : Side o} {w : Side o × Side o}
      → IsCollisionFree h Drawn a_ik b_ik
      → IsNew h o Drawn a
      → IsNew h o Drawn b
      → Runs h o Drawn a_ik b_ik (a, b) w
      → AreSafe Drawn w
  Runs-AreSafe {a} {b} free a_new b_new begins =
      (new-IsSafe b.said a a_new, new-IsSafe a.said b b_new)
  Runs-AreSafe free a_new b_new (goes_on run step) =
      WorldStep-AreSafe free (Runs-AreSafe free a_new b_new run) step

  -- From two sides that never announced, whatever frames are delivered, late, twice, out of order or
  -- never, and whatever backups come back: a side whose pair is confirmed knows a contribution that
  -- the peer sent as its own at some time, holding this side's contribution at that time. The
  -- confirmations of the contributions drawn must not collide, and a ciphertext must open to what the
  -- peer sealed.
  pub confirmed-IsMutual :
      {a b a' b' : Side o} (p : MailboxPair)
      → IsCollisionFree h Drawn a_ik b_ik
      → IsNew h o Drawn a
      → IsNew h o Drawn b
      → Runs h o Drawn a_ik b_ik (a, b) (a', b')
      → a'.chat.mailbox ≡ some p
      → p.peer_confirmed ≡ true
      → IsMutual b'.said p
  confirmed-IsMutual p free a_new b_new run is confirmed =
      ((Runs-AreSafe free a_new b_new run).0.mailbox p is).agreed confirmed
