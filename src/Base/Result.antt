-- ===== src/Base/Result.antt =====
-- fat_p::Expected<A, E> as the sources use it: has_value(), value(), error().
use mathlib.Core.Bool.{Bool, true, false}
use mathlib.Core.Option.{Option, none, some}

pub data Expected {ℓ κ} (A : Type ℓ) (E : Type κ) : Type (ℓ ⊔ κ) where
  ok : A → Expected A E
  err : E → Expected A E

abbrev pub has_value {ℓ κ} : {A : Type ℓ} {E : Type κ} → Expected A E → Bool
has_value (ok a) = true
has_value (err e) = false

abbrev pub is_some {ℓ} : {A : Type ℓ} → Option A → Bool
is_some none = false
is_some (some a) = true
