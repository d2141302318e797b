-- ===== src/Prelude/Run.antt =====
-- How a run of C code ends: by `exit`, in undefined behaviour, never (its fuel is used up), or
-- with a value.
use mathlib.Core.Path.{◌≡◌, refl}
use mathlib.Core.Bool.{Bool, true, false}
use mathlib.Core.Option.{Option, none, some}
use memory_leak.Prelude.Tests.{if◌then◌else◌}

pub data Run {ℓ} (V : Type ℓ) : Type ℓ where
  exited : Run V
  fault : Run V
  diverged : Run V
  ok : V → Run V

-- An access out of bounds is undefined behaviour.
abbrev pub or_fault {ℓ} : {V : Type ℓ} → Option V → Run V
or_fault (some v) = ok v
or_fault none = fault

-- The run ends with a value, of which `Post` holds.
abbrev pub Returns {ℓ κ} : {V : Type ℓ} → Run V → (V → Type κ) → Type (ℓ ⊔ κ)
Returns {V} m Post = (v : V) × (m ≡ ok v) × Post v

infixl 5 ◌>>=◌
abbrev pub ◌>>=◌ {ℓ κ} : {V : Type ℓ} {W : Type κ} → Run V → (V → Run W) → Run W
exited >>= next = exited
fault >>= next = fault
diverged >>= next = diverged
ok v >>= next = next v

-- A run that takes place only if a test holds.
pub guarded-Returns {ℓ κ} :
    {V : Type ℓ} {m : Run V} {v : V} {Post : V → Type κ} (c : Bool)
    → (c ≡ true → Returns m Post)
    → (c ≡ false → Post v)
    → Returns (if c then m else ok v) Post
guarded-Returns true yes_case no_case = yes_case refl
guarded-Returns {v = v} false yes_case no_case = (v, refl, no_case refl)
