-- ===== src/Common/Dict.antt =====
-- Python's `d[k] = v` and `d.pop(k, None)` on a dictionary in insertion order.
use mathlib.Core.Path.{◌≡◌, refl, sym, ap, ◌∙◌}
use mathlib.Core.Logic.{inl, inr}
use mathlib.Core.Bool.{true, false, true≢false}
use mathlib.Core.List.{List, [], ◌∷◌}
use mathlib.Core.Option.{none, some}
use Prim.Native.String.{String}
use text.Mathlib.Text.{◌==◌}
use text.Mathlib.TextEquality.{eq_iff}
use jev_router.Common.Tests.{if◌then◌else◌, Bool-cases}
use jev_router.Common.Lists.{lookup}

-- Equal keys pass the same tests, and a key met past another is not that other one.
same_test : (i k j : String) → i == k ≡ true → (i == j) ≡ (k == j)
same_test i k j e = ap (λ x. x == j) ((eq_iff i k).0 e)

other_key : (i k j : String) → i == k ≡ false → i == j ≡ true → k == j ≡ false
other_key i k j past e = elim (Bool-cases (k == j)) [
  | inl hit ↦
      absurd
        (true≢false (sym ((eq_iff i k).1 ((eq_iff i j).0 e ∙ sym ((eq_iff k j).0 hit))) ∙ past))
  | inr n ↦ n
]

module _ {ℓ} {V : Type ℓ} (key : String) where
  unfoldable pub set_item : List (String × V) → V → List (String × V)
  set_item [] value = (key, value) ∷ []
  set_item ((at, held) ∷ rest) value =
      let later = set_item rest value in
      if at == key then (at, value) ∷ rest else (at, held) ∷ later

  unfoldable pub pop_item : List (String × V) → List (String × V)
  pop_item [] = []
  pop_item ((at, held) ∷ rest) =
      let later = pop_item rest in if at == key then later else (at, held) ∷ later

  module _ (wanted : String) where
    pub lookup-set_item :
        (d : List (String × V)) (value : V)
        → lookup wanted (set_item d value) ≡ (if key == wanted then some value else lookup wanted d)
    unfolding lookup set_item
    lookup-set_item [] value = refl
    lookup-set_item ((at, held) ∷ rest) value = elim (Bool-cases (at == key)) [
      | inl here ↦
          rw (here, same_test at key wanted here)
            (elim (Bool-cases (key == wanted)) [ inl e ↦ rw e refl | inr n ↦ rw n refl ])
      | inr past ↦ rw past (elim (Bool-cases (at == wanted)) [
        | inl e ↦ rw (e, other_key at key wanted past e) refl
        | inr n ↦ rw n (lookup-set_item rest value)
      ])
    ]

    pub lookup-pop_item :
        (d : List (String × V))
        → lookup wanted (pop_item d) ≡ (if key == wanted then none else lookup wanted d)
    unfolding lookup pop_item
    lookup-pop_item [] = elim (Bool-cases (key == wanted)) [ inl e ↦ rw e refl | inr n ↦ rw n refl ]
    lookup-pop_item ((at, held) ∷ rest) = elim (Bool-cases (at == key)) [
      | inl here ↦
          rw (here, lookup-pop_item rest)
            (elim (Bool-cases (key == wanted)) [
              | inl e ↦ rw e refl
              | inr n ↦ rw (n, same_test at key wanted here, n) refl
            ])
      | inr past ↦ rw past (elim (Bool-cases (at == wanted)) [
        | inl e ↦ rw (e, other_key at key wanted past e) refl
        | inr n ↦ rw n (lookup-pop_item rest)
      ])
    ]
