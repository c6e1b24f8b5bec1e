-- ===== src/Common/Sorted/Mapped.antt =====
-- Sorting items that a change leaves in order.
use mathlib.Core.Path.{◌≡◌, refl, ap, ◌∙◌}
use mathlib.Core.Logic.{inl, inr}
use mathlib.Core.Bool.{Bool}
use mathlib.Core.List.{List, [], ◌∷◌, map}
use jev_router.Common.Tests.{Bool-cases}
use jev_router.Common.Sorted.{insert_by, sort_by}

module _ {ℓ} {A : Type ℓ} (goes : A → A → Bool) (u : A → A)
    (same : (x y : A) → goes (u x) (u y) ≡ goes x y) where
  insert_by-map :
      (x : A) (ys : List A) → insert_by goes (u x) (map u ys) ≡ map u (insert_by goes x ys)
  unfolding insert_by
  insert_by-map x [] = refl
  insert_by-map x (y ∷ ys) = elim (Bool-cases (goes x y)) [
    | inl e ↦ rw (same x y, e) refl
    | inr n ↦ rw (same x y, n) (ap (λ l. u y ∷ l) (insert_by-map x ys))
  ]

  pub sort_by-map : (xs : List A) → sort_by goes (map u xs) ≡ map u (sort_by goes xs)
  unfolding sort_by
  sort_by-map [] = refl
  sort_by-map (x ∷ xs) =
      ap (insert_by goes (u x)) (sort_by-map xs) ∙ insert_by-map x (sort_by goes xs)
