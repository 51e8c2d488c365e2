-- ===== src/Relay/Store/Mailboxes.antt =====
-- `write_back` and predicates on every mailbox of the store (core/src/relay_client/mod.rs,
-- `StoreInner`).
use nightdrop.Prelude.{
  ◌+◌, ◌≡◌, ◌≢◌, none, some, List, [], ◌∷◌, arith, if◌then◌else◌, Bool-cases, inl, inr, refl,
}
use nightdrop.Prelude.Bytes.{Bytes, same, eq_of_same}
use nightdrop.Prelude.Map.{
  Map, get, insert, remove, Distinct, get-insert, get-remove_ne, get-remove_self, insert-Distinct,
  remove-Distinct, measure, total, total-insert, total-remove, non_empty, or_empty-non_empty,
}
use nightdrop.Relay.Budget.{costs}
use nightdrop.Relay.Store.{queue_of, write_back}
use nightdrop.Relay.Types.{Stored, StoreInner}

get-write_back :
    (h j : Bytes) (q : List Stored) (m : Map (List Stored))
    → Distinct m
    → get j (write_back h q m) ≡ (if same h j then non_empty q else get j m)
unfolding write_back
get-write_back h j (s ∷ q) m d = get-insert h j (s ∷ q) m
get-write_back h j [] m d = elim (Bool-cases (same h j)) [
  | inl e ↦ rw e (rw (← eq_of_same h j e) (get-remove_self h m d))
  | inr e ↦ rw e (get-remove_ne h j m e)
]

pub write_back-Distinct :
    (h : Bytes) (q : List Stored) (m : Map (List Stored)) → Distinct m → Distinct (write_back h q m)
unfolding write_back
write_back-Distinct h [] m d = remove-Distinct h m d
write_back-Distinct h (s ∷ q) m d = insert-Distinct h (s ∷ q) m d

pub total-write_back :
    (h : Bytes) (q : List Stored) (m : Map (List Stored))
    → total costs (write_back h q m) + measure costs (get h m) ≡ total costs m + costs q
unfolding write_back
total-write_back h [] m = omega (arith, total-remove costs h m)
total-write_back h (s ∷ q) m = total-insert costs h (s ∷ q) m

-- What holds of each mailbox, under its handle.
abbrev pub AtMailboxes {ℓ} : (Bytes → List Stored → Type ℓ) → Map (List Stored) → Type ℓ
AtMailboxes P m = (h : Bytes) (q : List Stored) → get h m ≡ some q → P h q

pub insert-AtMailboxes {ℓ} :
    (P : Bytes → List Stored → Type ℓ) (h : Bytes) (q : List Stored) (m : Map (List Stored))
    → AtMailboxes P m
    → P h q
    → AtMailboxes P (insert h q m)
insert-AtMailboxes P h q m at new j r e = elim (Bool-cases (same h j)) [
  | inl s ↦
      let found : some q ≡ some r = rw (get-insert h j q m, s) at e in
      let same_queue : q ≡ r = cc in rw (← eq_of_same h j s, ← same_queue) new
  | inr s ↦ at j r (rw (get-insert h j q m, s) at e)
]

pub write_back-AtMailboxes {ℓ} :
    (P : Bytes → List Stored → Type ℓ) (h : Bytes) (q : List Stored) (m : Map (List Stored))
    → Distinct m
    → AtMailboxes P m
    → (q ≢ [] → P h q)
    → AtMailboxes P (write_back h q m)
unfolding write_back
write_back-AtMailboxes P h (s ∷ q) m d at new j r e =
    insert-AtMailboxes P h (s ∷ q) m at (new (λ e. cc)) j r e
write_back-AtMailboxes P h [] m d at new j r e = elim (Bool-cases (same h j)) [
  | inl s ↦
      let gone : get j (remove h m) ≡ none = rw (← eq_of_same h j s) (get-remove_self h m d) in
      absurd (cc)
  | inr s ↦ at j r (rw (get-remove_ne h j m s) at e)
]

pub queue_of-write_back :
    (s t : StoreInner) (h j : Bytes) (q : List Stored)
    → Distinct s.mailboxes
    → t.mailboxes ≡ write_back h q s.mailboxes
    → queue_of t j ≡ (if same h j then q else queue_of s j)
queue_of-write_back s t h j q d e = rw e (
    rw (get-write_back h j q s.mailboxes d)
      (elim (Bool-cases (same h j)) [ inl x ↦ rw x (or_empty-non_empty q) | inr x ↦ rw x refl ]))
