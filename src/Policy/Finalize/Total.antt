-- ===== src/Policy/Finalize/Total.antt =====
-- A request with an eligible model gets a plan (`finalize` of src/jev_router/policy.py).
use mathlib.Core.List.{Memᴰ}
use jev_router.Common.{
  ◌≡◌, refl, sym, ap, subst, ◌∙◌, Bool, true, not, ◌||◌, Bool-cases, inl, inr, String, List, [],
  ◌∷◌, ◌++◌, Option, none, some, ok, of_ok, ◌>>=◌, contains, contains-Memᴰ, Memᴰ-contains,
}
use jev_router.Common.Float.{Float}
use jev_router.Common.Sorted.{find}
use jev_router.Features.{Features}
use jev_router.Config.Routes.{Effort, Pair, RouteEntry}
use jev_router.Config.Router.{AliasCfg, RouterConfig}
use jev_router.Policy.Failures.{Routed}
use jev_router.Policy.Efforts.{constrained_effort}
use jev_router.Policy.Efforts.Total.{constrained_effort-total}
use jev_router.Policy.Eligible.{eligible_models, fits}
use jev_router.Policy.Eligible.Levels.{eligible_models-head, eligible_models-level}
use jev_router.Policy.Match.{Pressures}
use jev_router.Policy.Rules.{Pick}
use jev_router.Policy.Routes.{resolve_use, live_pressures}
use jev_router.Policy.Routes.Guard.{order_entries-Passed}
use jev_router.Policy.Routes.Entries.{NonEmpty, resolve_use-NonEmpty}
use jev_router.Policy.Finalize.Plan.{replaced-eligible}
use jev_router.Policy.Finalize.{
  PlanEntry, seen_in, replaced, or_replacement, apply_guards, plan_entry, plan_rest, plan_entries,
  is_named, reorder, result_of, planned, finalize,
}

abbrev pub Returns : {A : Type 0} → Routed A → Type 0
Returns {A = A} r = (a : A) × (r ≡ ok a)

>>=-Returns :
    {A B : Type 0} (call : Routed A) (next : A → Routed B)
    → Returns call
    → ((a : A) → call ≡ ok a → Returns (next a))
    → Returns (call >>= next)
>>=-Returns call next (a, h) k = rw h (k a h)

find-first :
    (p : String → Bool) (x : String) (xs : List String) → p x ≡ true → find p (x ∷ xs) ≡ some x
unfolding find
find-first p x xs h = rw h

replaced-Returns :
    (x : String) (xs : List String) (model : String) → Returns (replaced (x ∷ xs) (x ∷ xs) model)
unfolding replaced or_replacement
replaced-Returns x xs model = elim (Bool-cases (contains (x ∷ xs) model)) [
  | inl there ↦ (model, rw there)
  | inr out ↦
      (x, rw (out, find-first (contains (x ∷ xs)) x xs (contains-Memᴰ (x ∷ xs) x (Memᴰ.head refl))))
]

append-NonEmpty :
    (pre : List RouteEntry) (x : RouteEntry) (post : List RouteEntry) → NonEmpty (pre ++ x ∷ post)
append-NonEmpty [] x post = (x, post, refl)
append-NonEmpty (y ∷ pre) x post = (y, pre ++ x ∷ post, refl)

module _ ⦃f : Float⦄ (config : RouterConfig) (alias_cfg : AliasCfg) (features : Features) where
  module _ (x : String) (xs : List String)
      (eligible : eligible_models config alias_cfg features ≡ ok (x ∷ xs)) where
    level-Returns :
        (model : String) (effort : Effort)
        → contains (x ∷ xs) model ≡ true
        → Returns (constrained_effort config alias_cfg features.client model effort)
    level-Returns model effort there =
        let (r, found) =
          eligible_models-level config alias_cfg features (x ∷ xs) model eligible
            (Memᴰ-contains (x ∷ xs) model there) in
        constrained_effort-total config alias_cfg features.client model none effort r found

    apply_guards-Returns :
        (model : String) (effort : Effort)
        → Returns (apply_guards config alias_cfg model effort features (x ∷ xs))
    unfolding apply_guards
    apply_guards-Returns model effort =
        >>=-Returns (eligible_models config alias_cfg features) _ (x ∷ xs, eligible)
          λ ms same.
            >>=-Returns (replaced ms (x ∷ xs) model) _
              (subst (λ l. Returns (replaced l (x ∷ xs) model)) (of_ok (sym eligible ∙ same))
                (replaced-Returns x xs model))
              λ chosen found.
                >>=-Returns (constrained_effort config alias_cfg features.client chosen effort) _
                  (level-Returns chosen effort (
                    subst (λ l. contains l chosen ≡ true) (of_ok (sym same ∙ eligible))
                      (replaced-eligible ms (x ∷ xs) model chosen found)))
                  λ adjusted _. ((chosen, adjusted), refl)

    plan_rest-Returns :
        (seen : List Pair) (es : List RouteEntry)
        → Returns (plan_rest config alias_cfg features (x ∷ xs) seen es)
    unfolding plan_rest
    plan_rest-Returns seen [] = ([], refl)
    plan_rest-Returns seen (e ∷ es) =
        elim (Bool-cases (not (contains (x ∷ xs) e.model) || not (fits config e.model features))) [
          | inl left_out ↦ rw left_out (plan_rest-Returns seen es)
          | inr tried ↦ rw tried (
              >>=-Returns (apply_guards config alias_cfg e.model e.effort features (x ∷ xs)) _
                (apply_guards-Returns e.model e.effort)
                λ p _. elim (Bool-cases (seen_in seen p)) [
                  | inl again ↦ rw again (plan_rest-Returns seen es)
                  | inr new ↦ rw new (
                      >>=-Returns (plan_rest config alias_cfg features (x ∷ xs) (p ∷ seen) es) _
                        (plan_rest-Returns (p ∷ seen) es)
                        λ rest _. (plan_entry config p e.equivalent ∷ rest, refl))
                ])
        ]

    plan_entries-Returns :
        (es : List RouteEntry)
        → NonEmpty es
        → (first : PlanEntry) × (rest : List PlanEntry) × (plan_entries config alias_cfg features
              (x ∷ xs)
              es
            ≡ ok (first ∷ rest))
    unfolding plan_entries
    plan_entries-Returns es (e, later, same) =
        let (p, guarded) = apply_guards-Returns e.model e.effort in
        let (rest, found) = plan_rest-Returns (p ∷ []) later in
        (plan_entry config p e.equivalent, rest, rw (same, guarded, found))

  reorder-NonEmpty :
      (es : List RouteEntry) (route_name : Option String) (live : Pressures)
      → NonEmpty es
      → NonEmpty (reorder config es route_name live).0
  unfolding reorder
  reorder-NonEmpty es route_name live (e, rest, same) =
      elim (Bool-cases (is_named route_name live)) [
        | inl named ↦
            let (pre, post, moved, _) = order_entries-Passed config live e rest in
            rw (named, same, moved) (append-NonEmpty pre e post)
        | inr none' ↦ rw none' (e, rest, same)
      ]

  result_of-Returns :
      (pick : Pick) (route : Option String) (reordered : Bool) (first : PlanEntry)
      (rest : List PlanEntry)
      → Returns (result_of pick route reordered (first ∷ rest))
  unfolding result_of
  result_of-Returns pick route reordered first rest = (_, refl)

  -- A request that some model of its alias can serve gets a plan, whatever the rule chose and
  -- whatever the pressures: where there are eligible models, `finalize` does not fail.
  pub finalize-Returns :
      (pick : Pick) (pressures : Pressures) (ms : List String)
      → eligible_models config alias_cfg features ≡ ok ms
      → Returns (finalize config alias_cfg pick features pressures)
  unfolding finalize planned
  finalize-Returns pick pressures ms eligible =
      let (x, xs, head) = eligible_models-head config alias_cfg features ms eligible in
      let some_eligible = eligible ∙ ap ok head in
      let live = live_pressures config pressures in
      let route = resolve_use config pick.use_route in
      let (first, rest, found) =
        plan_entries-Returns x xs some_eligible (reorder config route.0 route.1 live).0
          (reorder-NonEmpty route.0 route.1 live (resolve_use-NonEmpty config pick.use_route)) in
      let (r, made) =
        result_of-Returns pick route.1 (reorder config route.0 route.1 live).1 first rest in
      (r, rw (some_eligible, found) made)
