-- ===== src/Base/Options.antt =====
-- The `?` operator on `Option`, as a monad.
use mathlib.Core.Path.{◌≡◌, refl}
use mathlib.Core.Option.{Option, none, some}
use mathlib.Core.Bool.{Bool, true, false}

-- `if refused { return None; }`
abbrev pub refuse : Bool → Option (Unit {0})
refuse false = some tt
refuse true = none

infixl 5 ◌>>=◌
abbrev pub ◌>>=◌ {ℓ μ} : {T : Type ℓ} {U : Type μ} → Option T → (T → Option U) → Option U
some t >>= next = next t
none >>= next = none

infixl 5 ◌>>◌
abbrev pub ◌>>◌ {μ} : {U : Type μ} → Option (Unit {0}) → Option U → Option U
check >> next = check >>= λ _. next

-- What a step that gave a value gave, and what the rest made of it.
pub >>=-eq-some {ℓ μ} :
    {T : Type ℓ} {U : Type μ} (o : Option T) (next : T → Option U) {u : U}
    → (o >>= next) ≡ some u
    → (t : T) × (o ≡ some t) × (next t ≡ some u)
>>=-eq-some (some t) next h = (t, refl, h)
>>=-eq-some none next h = cc
