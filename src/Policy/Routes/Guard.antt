-- ===== src/Policy/Routes/Guard.antt =====
-- Which entries quota pressure lets pass the primary (`order_entries` of src/jev_router/policy.py):
-- a weaker fallback is never promoted to save quota.
use jev_router.Common.{
  opt_eq_refl, same_bool, Bool, true, false, not, Bool-cases, List, [], ◌∷◌, ◌++◌, ◌≡◌, refl, ap,
  All, All-map, keep, keep-All, inl, inr, str_eq_iff,
}
use jev_router.Common.Float.{Float}
use jev_router.Config.Routes.{RouteEntry}
use jev_router.Config.Router.{RouterConfig}
use jev_router.Policy.Match.{Pressures}
use jev_router.Policy.Routes.{
  same_entry, before_entry, after_entry, hot, behind, split_order, ordered, order_entries,
}

same_bool_refl : (b : Bool) → same_bool b b ≡ true
unfolding same_bool
same_bool_refl true = refl
same_bool_refl false = refl

same_entry_refl : (e : RouteEntry) → same_entry e e ≡ true
unfolding same_entry
same_entry_refl e =
    rw ((str_eq_iff e.model e.model).1 refl, opt_eq_refl e.effort, same_bool_refl e.equivalent)

-- What stands before an entry of the list is among what the list has before it.
before_entry-All :
    (P : RouteEntry → Type 0) (p : RouteEntry) (xs ys : List RouteEntry)
    → All P xs
    → All P (before_entry p (xs ++ p ∷ ys))
unfolding before_entry
before_entry-All P p [] ys h = rw (same_entry_refl p) tt
before_entry-All P p (x ∷ xs) ys h = elim (Bool-cases (same_entry x p)) [
  | inl same ↦ rw same tt
  | inr new ↦ rw new (h.0, before_entry-All P p xs ys h.1)
]

All-trivial : (xs : List RouteEntry) → All (λ (e : RouteEntry). Unit {0}) xs
All-trivial [] = tt
All-trivial (x ∷ xs) = (tt, All-trivial xs)

module _ ⦃f : Float⦄ where
  module _ (config : RouterConfig) (pressures : Pressures) where
    cool : RouteEntry → Bool
    cool e = not (hot config pressures e)

    not-true : (b : Bool) → not b ≡ true → b ≡ false
    not-true true h = cc
    not-true false h = refl

    -- An entry that may pass: it is marked as equivalent and its provider is healthy.
    abbrev pub MayPass : RouteEntry → Type 0
    MayPass e = (e.equivalent ≡ true) × (hot config pressures e ≡ false)

    abbrev pub Passed : RouteEntry → List RouteEntry → Type 0
    Passed primary order =
        (pre : List RouteEntry) × (post : List RouteEntry) × (order ≡ pre ++ primary ∷ post)
        × All MayPass pre

    healthy : (es : List RouteEntry) → All (λ e. hot config pressures e ≡ false) (keep cool es)
    unfolding cool
    healthy es =
        All-map (keep cool es) (λ e h. not-true (hot config pressures e) h.1)
          (keep-All (λ e. Unit {0}) cool es (All-trivial es))

    keep-hot_head :
        (primary : RouteEntry) (es : List RouteEntry)
        → hot config pressures primary ≡ true
        → keep (hot config pressures) (primary ∷ es) ≡ primary ∷ keep (hot config pressures) es
    unfolding keep
    keep-hot_head primary es h = rw h

    keep-cool_head :
        (primary : RouteEntry) (es : List RouteEntry)
        → hot config pressures primary ≡ false
        → keep cool (primary ∷ es) ≡ primary ∷ keep cool es
    unfolding keep cool
    keep-cool_head primary es h = rw h

    behind-Passed :
        (primary : RouteEntry) (es : List RouteEntry)
        → hot config pressures primary ≡ true
        → Passed primary (behind primary (split_order config pressures (primary ∷ es)))
    unfolding behind split_order cool
    behind-Passed primary es h =
        let rest = keep (hot config pressures) es in
        let order = keep cool (primary ∷ es) ++ primary ∷ rest in
        let split : split_order config pressures (primary ∷ es) ≡ order =
          ap (λ l. keep cool (primary ∷ es) ++ l) (keep-hot_head primary es h) in
        (
          keep (λ (e : RouteEntry). e.equivalent) (before_entry primary order),
          keep (λ (e : RouteEntry). not e.equivalent) (before_entry primary order)
              ++ after_entry primary order,
          ap (behind primary) split,
          All-map (keep (λ (e : RouteEntry). e.equivalent) (before_entry primary order))
              (λ e k. (k.1, k.0))
              (keep-All (λ e. hot config pressures e ≡ false) (λ (e : RouteEntry). e.equivalent)
                (before_entry primary order)
                (before_entry-All (λ e. hot config pressures e ≡ false) primary
                  (keep cool (primary ∷ es)) rest (healthy (primary ∷ es)))),
        )

    pub order_entries-Passed :
        (primary : RouteEntry) (es : List RouteEntry)
        → Passed primary (order_entries config (primary ∷ es) pressures).0
    unfolding order_entries ordered split_order cool
    order_entries-Passed primary [] = ([], [], refl, tt)
    order_entries-Passed primary (e ∷ es) = elim (Bool-cases (hot config pressures primary)) [
      | inl busy ↦ rw busy (behind-Passed primary (e ∷ es) busy)
      | inr free ↦ rw free (
        [],
        keep cool (e ∷ es) ++ keep (hot config pressures) (primary ∷ e ∷ es),
        ap (λ l. l ++ keep (hot config pressures) (primary ∷ e ∷ es))
            (keep-cool_head primary (e ∷ es) free),
        tt,
      )
    ]
