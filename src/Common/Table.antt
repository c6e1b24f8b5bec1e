-- ===== src/Common/Table.antt =====
-- What SQL does to a table, held as the list of its rows in the order they were written.
use mathlib.Core.Path.{◌≡◌, refl, sym, ap, subst}
use mathlib.Core.Logic.{◌≢◌, inl, inr}
use mathlib.Core.Bool.{Bool, true, false, ◌||◌}
use mathlib.Core.List.{Memᴰ, List, map, [], ◌∷◌, ◌++◌}
use mathlib.Core.Option
use mathlib.Core.Option.{Option, none, some, none-ne-some}
use Prim.Native.Nat.{ℕ, suc, ◌+◌, ◌≤◌}
use native.Mathlib.Omega.{arith}
use jev_router.Common.Tests.{if◌then◌else◌, Bool-cases, of_some, or_true}
use jev_router.Common.Lists.{keep, any}
use jev_router.Common.Sorted.{find}

module _ {ℓ} {A : Type ℓ} where
  -- `UPDATE … SET f WHERE p`
  unfoldable pub update_where : (A → Bool) → (A → A) → List A → List A
  update_where p f [] = []
  update_where p f (r ∷ rs) = (if p r then f r else r) ∷ update_where p f rs

  -- `SELECT COUNT(*) … WHERE p`, which is also an update's `rowcount`
  unfoldable pub count_where : (A → Bool) → List A → ℕ
  count_where p [] = 0
  count_where p (r ∷ rs) = let rest = count_where p rs in if p r then suc rest else rest

  pub find-update_where :
      (q p : A → Bool) (f : A → A) (rs : List A)
      → ((r : A) → q (f r) ≡ q r)
      → find q (update_where p f rs) ≡ Option.map (λ r. if p r then f r else r) (find q rs)
  unfolding find update_where
  find-update_where q p f [] same = refl
  find-update_where q p f (r ∷ rs) same = elim (Bool-cases (p r)) [
    | inl hit ↦ elim (Bool-cases (q r)) [
      | inl here ↦ rw (hit, same r, here, hit) refl
      | inr past ↦ rw (hit, same r, past) (find-update_where q p f rs same)
    ]
    | inr miss ↦ elim (Bool-cases (q r)) [
      | inl here ↦ rw (miss, here, miss) refl
      | inr past ↦ rw (miss, past) (find-update_where q p f rs same)
    ]
  ]

  pub find-append :
      (q : A → Bool) (rs : List A) (new : A)
      → find q (rs ++ new ∷ [])
        ≡ elim (find q rs) [ none ↦ if q new then some new else none | some r ↦ some r ]
  unfolding find
  find-append q [] new = refl
  find-append q (r ∷ rs) new = elim (Bool-cases (q r)) [
    | inl here ↦ rw here refl
    | inr past ↦ rw past (find-append q rs new)
  ]

  keep_first :
      (q p : A → Bool) (s : A) (rs : List A) (r : A)
      → q s ≡ true
      → some s ≡ some r
      → p r ≡ true
      → find q (keep p (s ∷ rs)) ≡ some r
  unfolding find keep
  keep_first q p s rs r here e kept = rw (subst (λ x. p x ≡ true) (sym (of_some e)) kept, here) e

  -- A row that a deletion keeps is found as before.
  pub find-keep :
      (q p : A → Bool) (rs : List A) (r : A)
      → find q rs ≡ some r
      → p r ≡ true
      → find q (keep p rs) ≡ some r
  unfolding find keep
  find-keep q p [] r found kept = found
  find-keep q p (s ∷ rs) r found kept = elim (Bool-cases (q s)) [
    | inl here ↦ keep_first q p s rs r here (subst (λ o. o ≡ some r) (rw here refl) found) kept
    | inr past ↦
        let later = find-keep q p rs r (subst (λ o. o ≡ some r) (rw past refl) found) kept in
        elim (Bool-cases (p s)) [ inl stays ↦ rw (stays, past) later | inr goes ↦ rw goes later ]
  ]

  pub find-holds : (q : A → Bool) (rs : List A) (r : A) → find q rs ≡ some r → q r ≡ true
  unfolding find
  find-holds q [] r found = cc
  find-holds q (s ∷ rs) r found = elim (Bool-cases (q s)) [
    | inl here ↦
        subst (λ x. q x ≡ true) (of_some (subst (λ o. o ≡ some r) (rw here refl) found)) here
    | inr past ↦ find-holds q rs r (subst (λ o. o ≡ some r) (rw past refl) found)
  ]

  suc_count : (p : A → Bool) (r : A) (rs : List A) → p r ≡ true → count_where p (r ∷ rs) ≢ 0
  unfolding count_where
  suc_count p r rs hit none_hit = ground arith

  pub update_where_nothing :
      (p : A → Bool) (f : A → A) (rs : List A) → count_where p rs ≡ 0 → update_where p f rs ≡ rs
  unfolding update_where count_where
  update_where_nothing p f [] none_hit = refl
  update_where_nothing p f (r ∷ rs) none_hit = elim (Bool-cases (p r)) [
    | inl hit ↦ absurd (suc_count p r rs hit none_hit)
    | inr miss ↦
        rw miss (
          ap (λ l. r ∷ l)
            (update_where_nothing p f rs (subst (λ n. n ≡ 0) (rw miss refl) none_hit)))
  ]

  -- No row that an update has moved out of its own condition is hit by it again.
  pub count_where-update_where :
      (p : A → Bool) (f : A → A) (rs : List A)
      → ((r : A) → p r ≡ true → p (f r) ≡ false)
      → count_where p (update_where p f rs) ≡ 0
  unfolding update_where count_where
  count_where-update_where p f [] leaves = refl
  count_where-update_where p f (r ∷ rs) leaves = elim (Bool-cases (p r)) [
    | inl hit ↦ rw (hit, leaves r hit) (count_where-update_where p f rs leaves)
    | inr miss ↦ rw (miss, miss) (count_where-update_where p f rs leaves)
  ]

  pub count_where-zero : (p : A → Bool) (rs : List A) → find p rs ≡ none → count_where p rs ≡ 0
  unfolding find count_where
  count_where-zero p [] missing = refl
  count_where-zero p (r ∷ rs) missing = elim (Bool-cases (p r)) [
    | inl hit ↦ absurd (none-ne-some r (sym (subst (λ o. o ≡ none) (rw hit refl) missing)))
    | inr miss ↦ rw miss (count_where-zero p rs (subst (λ o. o ≡ none) (rw miss refl) missing))
  ]

  -- A deletion that spares what is counted leaves the count.
  pub count_where-keep :
      (p q : A → Bool) (rs : List A)
      → ((r : A) → p r ≡ true → q r ≡ true)
      → count_where p (keep q rs) ≡ count_where p rs
  unfolding keep count_where
  count_where-keep p q [] spares = refl
  count_where-keep p q (r ∷ rs) spares = elim (Bool-cases (p r)) [
    | inl hit ↦ rw (hit, spares r hit, hit) (ap suc (count_where-keep p q rs spares))
    | inr miss ↦ elim (Bool-cases (q r)) [
      | inl stays ↦ rw (miss, stays, miss) (count_where-keep p q rs spares)
      | inr goes ↦ rw (miss, goes) (count_where-keep p q rs spares)
    ]
  ]

  pub count_where-keep_below :
      (p q m : A → Bool) (rs : List A)
      → ((r : A) → p r ≡ true → q r ≡ true → m r ≡ true)
      → count_where p (keep q rs) ≤ count_where m rs
  unfolding keep count_where
  count_where-keep_below p q m [] among = omega arith
  count_where-keep_below p q m (r ∷ rs) among =
      let below = count_where-keep_below p q m rs among in
      let here = among r in ground (arith, below, here)

  pub count_where-either :
      (a b : A → Bool) (rs : List A)
      → count_where (λ r. a r || b r) rs ≤ count_where a rs + count_where b rs
  unfolding count_where
  count_where-either a b [] = omega arith
  count_where-either a b (r ∷ rs) = ground (arith, count_where-either a b rs)

  pub any-Memᴰ : (c : A → Bool) (rs : List A) (r : A) → Memᴰ r rs → c r ≡ true → any c rs ≡ true
  unfolding any
  any-Memᴰ c [] r member hit = elim member [ ]
  any-Memᴰ c (s ∷ rs) r (Memᴰ.head e) hit = rw (sym e, hit) refl
  any-Memᴰ c (s ∷ rs) r (Memᴰ.tail m) hit = rw (any-Memᴰ c rs r m hit) (or_true (c s))

  pub update_where-map :
      (p : A → Bool) (g : A → A) (rs : List A)
      → update_where p g rs ≡ map (λ r. if p r then g r else r) rs
  unfolding update_where
  update_where-map p g [] = refl
  update_where-map p g (r ∷ rs) = ap (λ l. (if p r then g r else r) ∷ l) (update_where-map p g rs)
