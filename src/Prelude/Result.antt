-- ===== src/Prelude/Result.antt =====
-- `anyhow::Result`: a value, or an error with its message.
use Prim.Native.String.{String}
use mathlib.Core.Path.{◌≡◌, refl}
use mathlib.Core.Option.{Option, none, some}

pub data Result {ℓ} (A : Type ℓ) : Type ℓ where
  ok : A → Result A
  fail : String → Result A

infixl 5 ◌>>=◌
abbrev pub ◌>>=◌ {ℓ κ} : {A : Type ℓ} {B : Type κ} → Result A → (A → Result B) → Result B
ok a >>= f = f a
fail e >>= f = fail e

-- `context`, and `ok_or_else` on an option.
abbrev pub or_fail {ℓ} : {A : Type ℓ} → String → Option A → Result A
or_fail e none = fail e
or_fail e (some a) = ok a

-- A chain that succeeds had a first step that did.
pub >>=-ok {ℓ κ} :
    {A : Type ℓ} {B : Type κ} (a : Result A) (f : A → Result B) (b : B)
    → (a >>= f) ≡ ok b
    → (x : A) × (a ≡ ok x) × (f x ≡ ok b)
>>=-ok (ok x) f b h = (x, refl, h)
>>=-ok (fail e) f b h = cc

pub or_fail-ok {ℓ} :
    {A : Type ℓ} (e : String) (o : Option A) (a : A) → or_fail e o ≡ ok a → o ≡ some a
or_fail-ok e none a h = cc
or_fail-ok e (some x) a h = cc
