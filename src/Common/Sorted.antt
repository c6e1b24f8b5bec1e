-- ===== src/Common/Sorted.antt =====
-- Python's `sorted` with a numeric key, which is stable, and the first item that passes a test.
pub mod First
pub mod Mapped
use mathlib.Core.List.{Memᴰ}
use jev_router.Common.Tests.{leb, if◌then◌else◌, Bool-cases}
use Prim.Native.Nat.{ℕ, ◌≤◌}
use mathlib.Core.Path.{◌≡◌, refl, sym, ap, ◌∙◌, subst}
use mathlib.Core.Logic.{◌⊎◌, inl, inr}
use mathlib.Core.Bool.{Bool, true, false}
use mathlib.Core.Option.{Option, none, some}
use mathlib.Core.List.{List, [], ◌∷◌}
use native.Mathlib.Omega.{arith}

module _ {ℓ} {A : Type ℓ} where
  -- `x` goes before the first item that does not come before it, so equal keys keep their order.
  insert_by : (A → A → Bool) → A → List A → List A
  insert_by goes x [] = x ∷ []
  insert_by goes x (y ∷ ys) =
      let rest = insert_by goes x ys in if goes x y then x ∷ y ∷ ys else y ∷ rest

  unfoldable pub sort_by : (A → A → Bool) → List A → List A
  unfolding insert_by
  sort_by goes [] = []
  sort_by goes (x ∷ xs) = insert_by goes x (sort_by goes xs)

  -- `sorted(xs, key=key)` and `sorted(xs, key=key, reverse=True)`
  abbrev pub ascending : (A → ℕ) → A → A → Bool
  ascending key x y = leb (key x) (key y)

  abbrev pub descending : (A → ℕ) → A → A → Bool
  descending key x y = leb (key y) (key x)

  unfoldable pub find : (A → Bool) → List A → Option A
  find p [] = none
  find p (x ∷ xs) = if p x then some x else find p xs
