-- ===== src/Policy/Efforts/Stable/Choice.antt =====
-- The level that is chosen in a ladder is the one chosen in it again (`constrained_effort` of
-- src/jev_router/policy.py).
use mathlib.Core.List.{Memᴰ}
use jev_router.Common.{
  ◌≤◌, ◌≡◌, refl, sym, ap, subst, ◌∙◌, Bool, true, false, String, List, [], ◌∷◌, arith, keep,
  keep-congr, keep-All, keep-Memᴰ, Memᴰ-keep, All, All-map, All-Memᴰ, All-of_Memᴰ, Bool-cases, inl,
  inr, leb, leb→le, le→leb,
}
use jev_router.Policy.Efforts.{rank, best_by, higher, lower, highest_or, choose_level}
use jev_router.Policy.Efforts.Bounds.{best_by-Memᴰ}

module _ (better : String → String → Bool) (b x : String) (xs : List String) where
  best_by-take : better x b ≡ true → best_by better b (x ∷ xs) ≡ best_by better x xs
  unfolding best_by
  best_by-take h = rw h

  best_by-skip : better x b ≡ false → best_by better b (x ∷ xs) ≡ best_by better b xs
  unfolding best_by
  best_by-skip h = rw h

keep-hit :
    (p : String → Bool) (x : String) (xs : List String)
    → p x ≡ true
    → keep p (x ∷ xs) ≡ x ∷ keep p xs
unfolding keep
keep-hit p x xs h = rw h

keep-miss :
    (p : String → Bool) (x : String) (xs : List String) → p x ≡ false → keep p (x ∷ xs) ≡ keep p xs
unfolding keep
keep-miss p x xs h = rw h

cons-head : {a b : String} {xs ys : List String} → a ∷ xs ≡ b ∷ ys → a ≡ b
cons-head h = cc

module _ (order : List String) where
  -- The test `rank(e) <= rank(want)`.
  abbrev below : String → String → Bool
  below want z = leb (rank order z) (rank order want)

  best_by-grows :
      (b : String) (xs : List String) → rank order b ≤ rank order (best_by (higher order) b xs)
  unfolding best_by higher
  best_by-grows b [] = omega arith
  best_by-grows b (x ∷ xs) = ground (arith, best_by-grows b xs, best_by-grows x xs)

  best_by-max :
      (b : String) (xs : List String)
      → All (λ z. rank order z ≤ rank order (best_by (higher order) b xs)) xs
  best_by-max b [] = tt
  best_by-max b (x ∷ xs) = elim (Bool-cases (higher order x b)) [
    | inl more ↦
        subst (λ r. All (λ z. rank order z ≤ rank order r) (x ∷ xs))
          (sym (best_by-take (higher order) b x xs more)) (best_by-grows x xs, best_by-max x xs)
    | inr less ↦
        subst (λ r. All (λ z. rank order z ≤ rank order r) (x ∷ xs))
          (sym (best_by-skip (higher order) b x xs less))
          (unfold higher in ground (arith, best_by-grows b xs), best_by-max b xs)
  ]

  best_by-falls :
      (b : String) (xs : List String) → rank order (best_by (lower order) b xs) ≤ rank order b
  unfolding best_by lower
  best_by-falls b [] = omega arith
  best_by-falls b (x ∷ xs) = ground (arith, best_by-falls b xs, best_by-falls x xs)

  -- No item is above the first of them: it is the best.
  best_by-first :
      (b : String) (xs : List String)
      → All (λ z. rank order z ≤ rank order b) xs
      → best_by (higher order) b xs ≡ b
  unfolding best_by higher
  best_by-first b [] h = refl
  best_by-first b (x ∷ xs) h = ground (arith, best_by-first b xs h.1)

  same_test :
      (want z r : String)
      → below want r ≡ true
      → (below want z ≡ true → rank order z ≤ rank order r)
      → below r z ≡ below want z
  same_test want z r r_low best = elim (Bool-cases (below want z)) [
    | inl hit ↦ rw hit (le→leb (rank order z) (rank order r) (best hit))
    | inr miss ↦ rw miss (ground arith)
  ]

  All-of_cons :
      (r : String) (ys : List String)
      → All (λ z. rank order z ≤ rank order r) (r ∷ ys)
      → All (λ z. rank order z ≤ rank order r) ys
  All-of_cons r ys h = h.1

  module _ (b x : String) (xs : List String) where
    -- `b` stays the least: an item that is no lower than `b` does not lead.
    keep-least_skip :
        (r : String) (ys : List String)
        → lower order x b ≡ false
        → keep (below r) (b ∷ xs) ≡ r ∷ ys
        → (zs : List String) × (keep (below r) (b ∷ x ∷ xs) ≡ r ∷ zs)
    keep-least_skip r ys no_lower h = elim (Bool-cases (below r b)) [
      | inl hit ↦
          let led = keep-hit (below r) b xs hit in
          (
            keep (below r) (x ∷ xs),
            keep-hit (below r) b (x ∷ xs) hit
                ∙ ap (λ z. z ∷ keep (below r) (x ∷ xs)) (cons-head (sym led ∙ h)),
          )
      | inr miss ↦
          let drop : below r x ≡ false = unfold lower in ground arith in
          (
            ys,
            keep-miss (below r) b (x ∷ xs) miss
                ∙ keep-miss (below r) x xs drop
                ∙ sym (keep-miss (below r) b xs miss)
                ∙ h,
          )
    ]

  -- The first least item leads the items that are no higher than it.
  keep-least :
      (b : String) (xs : List String)
      → (ys : List String) × (keep (below (best_by (lower order) b xs)) (b ∷ xs)
          ≡ best_by (lower order) b xs ∷ ys)
  keep-least b [] =
      unfold best_by keep in ([], rw (le→leb (rank order b) (rank order b) (omega arith)))
  keep-least b (x ∷ xs) = elim (Bool-cases (lower order x b)) [
    | inl less ↦
        let r = best_by (lower order) x xs in
        let (ys, e) = keep-least x xs in
        let drop : below r b ≡ false = unfold lower in ground (arith, best_by-falls x xs) in
        rw (best_by-take _ b x xs less) (ys, keep-miss (below r) b (x ∷ xs) drop ∙ e)
    | inr more ↦
        let r = best_by (lower order) b xs in
        let (ys, e) = keep-least b xs in
        rw (best_by-skip _ b x xs more) (keep-least_skip b x xs r ys more e)
  ]

  module _ (l : String) (ls : List String) where
    -- Where some level is at or below `want`, the same levels are at or below the best of them.
    keep-best :
        (want x : String) (xs : List String)
        → keep (below want) (l ∷ ls) ≡ x ∷ xs
        → keep (below (best_by (higher order) x xs)) (l ∷ ls) ≡ x ∷ xs
    keep-best want x xs h =
        let r = best_by (higher order) x xs in
        let r_low : below want r ≡ true =
          (Memᴰ-keep (below want) (l ∷ ls) r
            (subst (λ low. Memᴰ r low) (sym h) (best_by-Memᴰ (higher order) x xs))).1 in
        keep-congr (below r) (below want) (l ∷ ls) (
          All-map (l ∷ ls)
            (λ z there. same_test want z r r_low (λ z_low.
              All-of_Memᴰ (λ y. rank order y ≤ rank order r) (x ∷ xs) z
                (best_by-grows x xs, best_by-max x xs)
                (subst (λ low. Memᴰ z low) h (keep-Memᴰ (below want) (l ∷ ls) z there z_low))))
            (All-Memᴰ (l ∷ ls)))
        ∙ h

    stable_high :
        (want x : String) (xs : List String)
        → keep (below want) (l ∷ ls) ≡ x ∷ xs
        → highest_or order l ls (keep (below (best_by (higher order) x xs)) (l ∷ ls))
          ≡ best_by (higher order) x xs
    unfolding highest_or
    stable_high want x xs h = ap (highest_or order l ls) (keep-best want x xs h)

    stable_low :
        highest_or order l ls (keep (below (best_by (lower order) l ls)) (l ∷ ls))
        ≡ best_by (lower order) l ls
    unfolding highest_or
    stable_low =
        let r = best_by (lower order) l ls in
        let (ys, e) = keep-least l ls in
        ap (highest_or order l ls) e
        ∙ best_by-first r ys (
            All-of_cons r ys (
              subst (λ low. All (λ z. rank order z ≤ rank order r) low) e
                (All-map (keep (below r) (l ∷ ls)) (λ z k. leb→le _ _ k.1)
                  (keep-All (λ z. Memᴰ z (l ∷ ls)) (below r) (l ∷ ls) (All-Memᴰ (l ∷ ls))))))

    stable_by :
        (want : String) (low : List String)
        → keep (below want) (l ∷ ls) ≡ low
        → choose_level order l ls (highest_or order l ls low) ≡ highest_or order l ls low
    unfolding choose_level
    stable_by want [] h = unfold highest_or in stable_low
    stable_by want (x ∷ xs) h = unfold highest_or in stable_high want x xs h

    pub choose_level-stable :
        (want : String)
        → choose_level order l ls (choose_level order l ls want) ≡ choose_level order l ls want
    unfolding choose_level
    choose_level-stable want = stable_by want (keep (below want) (l ∷ ls)) refl
