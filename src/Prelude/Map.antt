-- ===== src/Prelude/Map.antt =====
-- Rust's `HashMap<String, V>` as an association list. The program never depends on the order in
-- which a map is iterated; that no key stands twice is the predicate `Distinct`.
use Prim.Native.Nat.{ℕ, ◌+◌}
use mathlib.Core.Bool.{false}
use mathlib.Core.List.{List, [], ◌∷◌}
use mathlib.Core.Option.{Option, none, some}
use mathlib.Core.Path.{◌≡◌, refl}
use native.Mathlib.Omega.{arith}
use mathlib.Core.Logic.{◌≢◌, inl, inr}
use nightdrop.Prelude.Tests.{Bool-cases}
use nightdrop.Prelude.Bytes.{Bytes, same, same_iff, eq_of_same}
use nightdrop.Prelude.Tests.{if◌then◌else◌}

abbrev pub Map {ℓ} : Type ℓ → Type ℓ
Map V = List (Bytes × V)

module _ {ℓ} {V : Type ℓ} where
  unfoldable pub get : Bytes → Map V → Option V
  get k [] = none
  get k ((j, v) ∷ m) = if same j k then some v else get k m

  unfoldable pub insert : Bytes → V → Map V → Map V
  insert k v [] = (k, v) ∷ []
  insert k v ((j, w) ∷ m) = if same j k then (j, v) ∷ m else (j, w) ∷ insert k v m

  unfoldable pub remove : Bytes → Map V → Map V
  remove k [] = []
  remove k ((j, w) ∷ m) = if same j k then m else (j, w) ∷ remove k m

  abbrev pub Distinct : Map V → Type ℓ
  Distinct [] = Unit
  Distinct ((k, _) ∷ m) = (get k m ≡ none) × Distinct m

  pub get-insert :
      (k j : Bytes) (v : V) (m : Map V)
      → get j (insert k v m) ≡ (if same k j then some v else get j m)
  unfolding get insert
  get-insert k j v [] = refl
  get-insert k j v ((i, w) ∷ m) =
      ground (arith, same_iff i k, same_iff i j, same_iff k j, get-insert k j v m)

  pub get-remove_ne : (k j : Bytes) (m : Map V) → same k j ≡ false → get j (remove k m) ≡ get j m
  unfolding get remove
  get-remove_ne k j [] h = refl
  get-remove_ne k j ((i, w) ∷ m) h =
      ground (arith, same_iff i k, same_iff i j, same_iff k j, get-remove_ne k j m)

  pub get-remove_self : (k : Bytes) (m : Map V) → Distinct m → get k (remove k m) ≡ none
  unfolding get remove
  get-remove_self k [] d = refl
  get-remove_self k ((i, w) ∷ m) d = ground (arith, same_iff i k, d.0, get-remove_self k m d.1)

  get-remove-none : (k j : Bytes) (m : Map V) → get j m ≡ none → get j (remove k m) ≡ none
  unfolding get remove
  get-remove-none k j [] h = refl
  get-remove-none k j ((i, w) ∷ m) h = ground (arith, get-remove-none k j m)

  pub insert_same : (k : Bytes) (v : V) (m : Map V) → get k m ≡ some v → insert k v m ≡ m
  unfolding get insert
  insert_same k v [] e = cc
  insert_same k v ((i, w) ∷ m) e = ground (arith, insert_same k v m)

  pub insert-Distinct : (k : Bytes) (v : V) (m : Map V) → Distinct m → Distinct (insert k v m)
  unfolding get insert
  insert-Distinct k v [] d = (refl, tt)
  insert-Distinct k v ((i, w) ∷ m) d =
      ground
        (arith, d.0, d.1, same_iff k i, same_iff i k, get-insert k i v m, insert-Distinct k v m)

  pub remove-Distinct : (k : Bytes) (m : Map V) → Distinct m → Distinct (remove k m)
  unfolding remove
  remove-Distinct k [] d = tt
  remove-Distinct k ((i, w) ∷ m) d =
      ground (arith, d.0, d.1, get-remove-none k i m, remove-Distinct k m)

-- A measure of the values, added up over the map, follows each operation.
abbrev pub measure {ℓ} : {V : Type ℓ} → (V → ℕ) → Option V → ℕ
measure f none = 0
measure f (some v) = f v

module _ {ℓ} {V : Type ℓ} (f : V → ℕ) where
  unfoldable pub total : Map V → ℕ
  total [] = 0
  total ((_, v) ∷ m) = f v + total m

  pub total-insert :
      (k : Bytes) (v : V) (m : Map V) → total (insert k v m) + measure f (get k m) ≡ total m + f v
  unfolding total get insert
  total-insert k v [] = omega arith
  total-insert k v ((i, w) ∷ m) = ground (arith, total-insert k v m)

  pub total-remove : (k : Bytes) (m : Map V) → total (remove k m) + measure f (get k m) ≡ total m
  unfolding total get remove
  total-remove k [] = omega arith
  total-remove k ((i, w) ∷ m) = ground (arith, total-remove k m)

-- The same with a measure of the entries.
module _ {ℓ} {V : Type ℓ} (f : Bytes → V → ℕ) where
  unfoldable pub total_by : Map V → ℕ
  total_by [] = 0
  total_by ((k, v) ∷ m) = f k v + total_by m

-- Maps whose values are lists, where a missing key stands for the empty list.
module _ {ℓ} {A : Type ℓ} where
  abbrev pub or_empty : Option (List A) → List A
  or_empty none = []
  or_empty (some l) = l

  abbrev pub non_empty : List A → Option (List A)
  non_empty [] = none
  non_empty (x ∷ l) = some (x ∷ l)

  pub or_empty-non_empty : (l : List A) → or_empty (non_empty l) ≡ l
  or_empty-non_empty [] = refl
  or_empty-non_empty (x ∷ l) = refl

  pub non_empty-some : (l r : List A) → non_empty l ≡ some r → (l ≡ r) × (l ≢ [])
  non_empty-some [] r e = cc
  non_empty-some (x ∷ l) r e = (cc, λ n. cc)

  unfoldable pub insert_non_empty : Bytes → List A → Map (List A) → Map (List A)
  insert_non_empty k [] m = m
  insert_non_empty k (x ∷ l) m = insert k (x ∷ l) m

  get-insert_non_empty :
      (k j : Bytes) (l : List A) (m : Map (List A))
      → get k m ≡ none
      → get j (insert_non_empty k l m) ≡ (if same k j then non_empty l else get j m)
  unfolding insert_non_empty
  get-insert_non_empty k j [] m h = ground (arith, same_iff k j)
  get-insert_non_empty k j (x ∷ l) m h = get-insert k j (x ∷ l) m

  insert_non_empty-Distinct :
      (k : Bytes) (l : List A) (m : Map (List A)) → Distinct m → Distinct (insert_non_empty k l m)
  unfolding insert_non_empty
  insert_non_empty-Distinct k [] m d = d
  insert_non_empty-Distinct k (x ∷ l) m d = insert-Distinct k (x ∷ l) m d

-- A new map, filled from the lists of another; lists that come out empty are left out.
module _ {ℓ κ} {A : Type ℓ} {B : Type κ} (f : Bytes → List A → List B) where
  unfoldable pub rebuild : Map (List A) → Map (List B)
  rebuild [] = []
  rebuild ((k, l) ∷ m) = insert_non_empty k (f k l) (rebuild m)

  rebuild-none : (j : Bytes) (m : Map (List A)) → get j m ≡ none → get j (rebuild m) ≡ none
  unfolding rebuild insert_non_empty get
  rebuild-none j [] e = refl
  rebuild-none j ((k, l) ∷ m) e = absent (f k l) (ground arith) (rebuild-none j m (ground arith))
    where
      absent :
          (q : List B)
          → same k j ≡ false
          → get j (rebuild m) ≡ none
          → get j (insert_non_empty k q (rebuild m)) ≡ none
      absent [] x n = n
      absent (b ∷ q) x n = rw (get-insert k j (b ∷ q) (rebuild m), x) n

  pub rebuild-Distinct : (m : Map (List A)) → Distinct (rebuild m)
  unfolding rebuild
  rebuild-Distinct [] = tt
  rebuild-Distinct ((k, l) ∷ m) =
      insert_non_empty-Distinct k (f k l) (rebuild m) (rebuild-Distinct m)

  pub get-rebuild :
      (j : Bytes) (m : Map (List A))
      → Distinct m
      → f j [] ≡ []
      → get j (rebuild m) ≡ non_empty (f j (or_empty (get j m)))
  unfolding rebuild get
  get-rebuild j [] d e = rw e refl
  get-rebuild j ((k, l) ∷ m) d e =
      rw (get-insert_non_empty k j (f k l) (rebuild m) (rebuild-none k m d.0))
        (elim (Bool-cases (same k j)) [
          | inl x ↦ rw (x, eq_of_same k j x) refl
          | inr x ↦ rw x (get-rebuild j m d.1 e)
        ])

  pub total-rebuild :
      (measure_of : List B → ℕ) (m : Map (List A))
      → measure_of [] ≡ 0
      → Distinct m
      → total measure_of (rebuild m) ≡ total_by (λ k l. measure_of (f k l)) m
  unfolding rebuild total total_by insert_non_empty
  total-rebuild measure_of [] z d = refl
  total-rebuild measure_of ((k, l) ∷ m) z d =
      counted (total-rebuild measure_of m z d.1) (f k l) (rebuild-none k m d.0)
    where
      counted :
          total measure_of (rebuild m) ≡ total_by (λ k l. measure_of (f k l)) m
          → (q : List B) → get k (rebuild m) ≡ none
          → total measure_of (insert_non_empty k q (rebuild m))
            ≡ measure_of q + total_by (λ k l. measure_of (f k l)) m
      counted ih [] n = omega arith
      counted ih (b ∷ q) n =
          let grown : total measure_of (insert k (b ∷ q) (rebuild m)) + 0
              ≡ total measure_of (rebuild m) + measure_of (b ∷ q) =
            rw n at (total-insert measure_of k (b ∷ q) (rebuild m)) in
          omega arith
