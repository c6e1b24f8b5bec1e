-- ===== src/Common/Sorted/First.antt =====
-- The first match in a sorted list is a least one among all matches.
use mathlib.Core.List.{Memᴰ}
use Prim.Native.Nat.{ℕ}
use jev_router.Common.Tests.{Bool-cases, of_some}
use jev_router.Common.Lists.{All, All-map, All-Memᴰ}
use jev_router.Common.Sorted.{insert_by, sort_by, find, ascending, descending}
use mathlib.Core.Path.{◌≡◌, sym, ◌∙◌, subst}
use mathlib.Core.Logic.{inl, inr, ◌↔◌}
use mathlib.Core.Bool.{false≢true, Bool, true, false}
use mathlib.Core.Option.{none, some}
use mathlib.Core.List.{List, [], ◌∷◌}
use native.Mathlib.Omega.{arith}

-- What makes `goes` an order that is total: Python asks no more of a key.
pub record IsOrder {ℓ} {A : Type ℓ} (goes : A → A → Bool) : Type ℓ where
  pub reflexive : (x : A) → goes x x ≡ true
  pub total : (x y : A) → goes x y ≡ false → goes y x ≡ true
  pub transitive : (x y z : A) → goes x y ≡ true → goes y z ≡ true → goes x z ≡ true

pub ascending-IsOrder {ℓ} : {A : Type ℓ} (key : A → ℕ) → IsOrder (ascending key)
ascending-IsOrder key = record {
  reflexive = λ x. ground arith;
  total = λ x y h. ground arith;
  transitive = λ x y z h k. ground arith;
}

pub descending-IsOrder {ℓ} : {A : Type ℓ} (key : A → ℕ) → IsOrder (descending key)
descending-IsOrder key = record {
  reflexive = λ x. ground arith;
  total = λ x y h. ground arith;
  transitive = λ x y z h k. ground arith;
}

module _ {ℓ κ} {A : Type ℓ} (goes : A → A → Bool) (P : A → Type κ) where
  All-insert_by : (x : A) (ys : List A) → P x → All P ys → All P (insert_by goes x ys)
  unfolding insert_by
  All-insert_by x [] h k = (h, tt)
  All-insert_by x (y ∷ ys) h k = elim (Bool-cases (goes x y)) [
    | inl first ↦ rw first (h, k)
    | inr later ↦ rw later (k.0, All-insert_by x ys h k.1)
  ]

  All-insert_by_back : (x : A) (ys : List A) → All P (insert_by goes x ys) → P x × All P ys
  unfolding insert_by
  All-insert_by_back x [] h = h
  All-insert_by_back x (y ∷ ys) h = elim (Bool-cases (goes x y)) [
    | inl first ↦ rw first at h
    | inr later ↦
        let k : P y × All P (insert_by goes x ys) = rw later at h in
        let (hx, hys) = All-insert_by_back x ys k.1 in (hx, (k.0, hys))
  ]

  pub All-sort_by : (xs : List A) → All P xs ↔ All P (sort_by goes xs)
  unfolding sort_by
  All-sort_by [] = (λ h. h, λ h. h)
  All-sort_by (x ∷ xs) = (
    λ h. All-insert_by x (sort_by goes xs) h.0 ((All-sort_by xs).0 h.1),
    λ h. let (hx, hs) = All-insert_by_back x (sort_by goes xs) h in (hx, (All-sort_by xs).1 hs),
  )

module _ {ℓ} {A : Type ℓ} {goes : A → A → Bool} (order : IsOrder goes) where
  Ordered : List A → Type ℓ
  Ordered [] = Unit
  Ordered (x ∷ xs) = All (λ z. goes x z ≡ true) xs × Ordered xs

  insert_by-Ordered : (x : A) (ys : List A) → Ordered ys → Ordered (insert_by goes x ys)
  unfolding Ordered insert_by
  insert_by-Ordered x [] h = (tt, tt)
  insert_by-Ordered x (y ∷ ys) h = elim (Bool-cases (goes x y)) [
    | inl first ↦ rw first ((first, All-map ys (λ z k. order.transitive x y z first k) h.0), h)
    | inr later ↦ rw later (
      All-insert_by goes (λ z. goes y z ≡ true) x ys (order.total x y later) h.0,
      insert_by-Ordered x ys h.1,
    )
  ]

  sort_by-Ordered : (xs : List A) → Ordered (sort_by goes xs)
  unfolding sort_by Ordered
  sort_by-Ordered [] = tt
  sort_by-Ordered (x ∷ xs) = insert_by-Ordered x (sort_by goes xs) (sort_by-Ordered xs)

  module _ (p : A → Bool) where
    find_first :
        (xs : List A) (r : A)
        → Ordered xs
        → find p xs ≡ some r
        → (p r ≡ true) × All (λ z. p z ≡ true → goes r z ≡ true) xs
    unfolding find Ordered
    find_first [] r h e = cc
    find_first (x ∷ xs) r h e = elim (Bool-cases (p x)) [
      | inl hit ↦
          let same : x ≡ r = of_some (rw hit at e) in
          subst (λ y. (p y ≡ true) × All (λ z. p z ≡ true → goes y z ≡ true) (x ∷ xs)) same
            (hit, ((λ _. order.reflexive x), All-map xs (λ z k _. k) h.0))
      | inr miss ↦
          let (hit, rest) = find_first xs r h.1 (rw miss at e) in
          (hit, ((λ k. absurd (false≢true (sym miss ∙ k))), rest))
    ]

  find-All :
      (P : A → Type ℓ) (p : A → Bool) (xs : List A) (r : A) → All P xs → find p xs ≡ some r → P r
  unfolding find
  find-All P p [] r h e = cc
  find-All P p (x ∷ xs) r h e = elim (Bool-cases (p x)) [
    | inl hit ↦ subst P (of_some (rw hit at e)) h.0
    | inr miss ↦ find-All P p xs r h.1 (rw miss at e)
  ]

  find-none : (p : A → Bool) (xs : List A) → find p xs ≡ none → All (λ z. p z ≡ false) xs
  unfolding find
  find-none p [] e = tt
  find-none p (x ∷ xs) e = elim (Bool-cases (p x)) [
    | inl hit ↦ cc (rw hit at e)
    | inr miss ↦ (miss, find-none p xs (rw miss at e))
  ]

  -- The match that is found is one of the list, passes the test and goes before every other.
  pub find-sort_by :
      (p : A → Bool) (xs : List A) (r : A)
      → find p (sort_by goes xs) ≡ some r
      → (p r ≡ true) × Memᴰ r xs × All (λ z. p z ≡ true → goes r z ≡ true) xs
  find-sort_by p xs r e =
      let (hit, best) = find_first p (sort_by goes xs) r (sort_by-Ordered xs) e in
      (
        hit,
        find-All (λ z. Memᴰ z xs) p (sort_by goes xs) r
            ((All-sort_by goes (λ z. Memᴰ z xs) xs).0 (All-Memᴰ xs)) e,
        (All-sort_by goes (λ z. p z ≡ true → goes r z ≡ true) xs).1 best,
      )

  pub find-sort_by-none :
      (p : A → Bool) (xs : List A) → find p (sort_by goes xs) ≡ none → All (λ z. p z ≡ false) xs
  find-sort_by-none p xs e =
      (All-sort_by goes (λ z. p z ≡ false) xs).1 (find-none p (sort_by goes xs) e)
