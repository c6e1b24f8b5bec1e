-- ===== src/Policy/Finalize/Plan.antt =====
-- Every entry of a plan passes the check before it is sent, and no two are alike (`finalize` and
-- `validate_entry` of src/jev_router/policy.py).
use mathlib.Core.List.{Memᴰ}
use jev_router.Common.{
  opt_eq_refl, Bool, true, false, not, ◌||◌, Bool-cases, Option-cases, String, str_eq, List, [],
  ◌∷◌, Option, some, ok, of_ok, >>=-eq-ok, ◌≡◌, refl, sym, ap, subst, All, All-map, inl, inr,
  contains, lookup, of_some,
}
use jev_router.Common.Float.{Float}
use jev_router.Common.Sorted.{find}
use jev_router.Features.{Features}
use jev_router.Config.Routes.{Effort, Pair, RouteEntry}
use jev_router.Config.Router.{ModelCfg, AliasCfg, RouterConfig}
use jev_router.Policy.Efforts.{constrained_effort}
use jev_router.Policy.Efforts.Stable.{constrained_effort-stable}
use jev_router.Policy.Eligible.{eligible_models, fits}
use jev_router.Policy.Match.{Pressures}
use jev_router.Policy.Rules.{Pick}
use jev_router.Policy.Routes.{resolve_use, live_pressures}
use jev_router.Policy.Finalize.{
  guard_candidate, PlanEntry, PolicyResult, as_pair, same_pair, seen_in, replaced, or_replacement,
  apply_guards, plan_entry, plan_rest, plan_entries, checked_effort, validate_entry, reorder,
  result_of, planned, finalize,
}

find-hit : (p : String → Bool) (xs : List String) (x : String) → find p xs ≡ some x → p x ≡ true
unfolding find
find-hit p [] x h = cc
find-hit p (y ∷ ys) x h = elim (Bool-cases (p y)) [
  | inl hit ↦ subst (λ z. p z ≡ true) (of_some (rw hit at h)) hit
  | inr miss ↦ find-hit p ys x (rw miss at h)
]

or_replacement-find :
    (eligible allowed : List String) (m : String)
    → or_replacement (find (contains eligible) allowed) ≡ ok m
    → contains eligible m ≡ true
unfolding or_replacement
or_replacement-find eligible allowed m h = elim (Option-cases (find (contains eligible) allowed)) [
  | inl missing ↦ absurd (cc)
  | inr (x, found) ↦
      subst (λ z. contains eligible z ≡ true) (of_ok (rw found at h))
        (find-hit (contains eligible) allowed x found)
]

pub replaced-eligible :
    (eligible allowed : List String) (model m : String)
    → replaced eligible allowed model ≡ ok m
    → contains eligible m ≡ true
unfolding replaced
replaced-eligible eligible allowed model m h = elim (Bool-cases (contains eligible model)) [
  | inl there ↦ subst (λ z. contains eligible z ≡ true) (of_ok (rw there at h)) there
  | inr out ↦ or_replacement-find eligible allowed m (rw out at h)
]

or-false : (a b : Bool) → (a || b) ≡ false → (a ≡ false) × (b ≡ false)
or-false true b h = cc
or-false false b h = (refl, h)

-- No two entries of the plan have the same model and effort.
abbrev pub Distinct : List PlanEntry → Type 0
Distinct [] = Unit {0}
Distinct (e ∷ es) = All (λ x. same_pair (as_pair e) (as_pair x) ≡ false) es × Distinct es

module _ ⦃f : Float⦄ where
  -- No level of a model's ladder is the empty text.
  abbrev pub NamedLevels : RouterConfig → Type 0
  NamedLevels config =
      (model : String) (m : ModelCfg)
      → lookup model config.models ≡ some m
      → (e : String) → Memᴰ e m.efforts
      → str_eq e "" ≡ false

  module _ (config : RouterConfig) (alias_cfg : AliasCfg) (features : Features) where
    abbrev pub Valid : PlanEntry → Type 0
    Valid e = validate_entry config alias_cfg features e ≡ ok tt

    module _ (named : NamedLevels config) (ms : List String)
        (eligible : eligible_models config alias_cfg features ≡ ok ms) where
      -- The pair passes the check, whatever the rest of the entry.
      abbrev Sendable : Pair → Type 0
      Sendable p =
          (contains ms p.0 ≡ true)
          × (constrained_effort config alias_cfg features.client p.0 p.1 ≡ ok p.1)

      apply_guards-Sendable :
          (model : String) (effort : Effort) (p : Pair)
          → apply_guards config alias_cfg model effort features ms ≡ ok p
          → Sendable p
      unfolding apply_guards
      apply_guards-Sendable model effort p h =
          let (chosen, found, after) = >>=-eq-ok (replaced ms ms model) _ (rw eligible at h) in
          let (adjusted, bound, last) =
            >>=-eq-ok (constrained_effort config alias_cfg features.client chosen effort) _ after in
          subst Sendable (of_ok last) (
            replaced-eligible ms ms model chosen found,
            constrained_effort-stable config alias_cfg features.client chosen effort adjusted
                (named chosen) bound,
          )

      Sendable-Valid :
          (p : Pair) (equivalent : Bool) → Sendable p → Valid (plan_entry config p equivalent)
      unfolding validate_entry plan_entry checked_effort
      Sendable-Valid p equivalent h = rw (eligible, h.0, h.1, opt_eq_refl p.1)

      -- What the loop over the later entries keeps, with the pairs seen before it.
      abbrev Fresh : List Pair → List PlanEntry → Type 0
      Fresh seen es = All Valid es × All (λ e. seen_in seen (as_pair e) ≡ false) es × Distinct es

      Fresh-cons :
          (p : Pair) (equivalent : Bool) (seen : List Pair) (es : List PlanEntry)
          → Sendable p
          → seen_in seen p ≡ false
          → Fresh (p ∷ seen) es
          → Fresh seen (plan_entry config p equivalent ∷ es)
      unfolding plan_entry seen_in as_pair
      Fresh-cons p equivalent seen es sendable new h = (
        (Sendable-Valid p equivalent sendable, h.0),
        (new, All-map es (λ e k. (or-false (same_pair p (e.model, e.effort)) _ k).1) h.1),
        (All-map es (λ e k. (or-false (same_pair p (e.model, e.effort)) _ k).0) h.1, h.2),
      )

      plan_rest-Fresh :
          (seen : List Pair) (es : List RouteEntry) (plan : List PlanEntry)
          → plan_rest config alias_cfg features ms seen es ≡ ok plan
          → Fresh seen plan
      unfolding plan_rest
      plan_rest-Fresh seen [] plan h = subst (Fresh seen) (of_ok h) (tt, tt, tt)
      plan_rest-Fresh seen (e ∷ es) plan h =
          elim (Bool-cases (not (contains ms e.model) || not (fits config e.model features))) [
            | inl left_out ↦ plan_rest-Fresh seen es plan (rw left_out at h)
            | inr tried ↦
                let (p, guarded, after) =
                  >>=-eq-ok (apply_guards config alias_cfg e.model e.effort features ms) _
                    (rw tried at h) in
                elim (Bool-cases (seen_in seen p)) [
                  | inl again ↦ plan_rest-Fresh seen es plan (rw again at after)
                  | inr new ↦
                      let (rest, found, last) =
                        >>=-eq-ok (plan_rest config alias_cfg features ms (p ∷ seen) es) _
                          (rw new at after) in
                      subst (Fresh seen) (of_ok last) (
                        Fresh-cons p e.equivalent seen rest
                          (apply_guards-Sendable e.model e.effort p guarded) new
                          (plan_rest-Fresh (p ∷ seen) es rest found))
                ]
          ]

      plan_entries-Fresh :
          (es : List RouteEntry) (plan : List PlanEntry)
          → plan_entries config alias_cfg features ms es ≡ ok plan
          → Fresh [] plan
      unfolding plan_entries seen_in
      plan_entries-Fresh [] plan h = cc
      plan_entries-Fresh (e ∷ es) plan h =
          let (p, guarded, after) =
            >>=-eq-ok (apply_guards config alias_cfg e.model e.effort features ms) _ h in
          let (rest, found, last) =
            >>=-eq-ok (plan_rest config alias_cfg features ms (p ∷ []) es) _ after in
          subst (Fresh []) (of_ok last) (
            Fresh-cons p e.equivalent [] rest (apply_guards-Sendable e.model e.effort p guarded)
              refl (plan_rest-Fresh (p ∷ []) es rest found))

    -- The plan's first entry is the choice.
    abbrev pub Leads : PolicyResult → Type 0
    Leads r =
        (first : PlanEntry) × (rest : List PlanEntry) × (r.plan ≡ first ∷ rest)
        × (r.model ≡ first.model)
        × (r.effort ≡ first.effort)

    result_of-plan :
        (pick : Pick) (route : Option String) (reordered : Bool) (plan : List PlanEntry)
        (r : PolicyResult)
        → result_of pick route reordered plan ≡ ok r
        → (plan ≡ r.plan) × Leads r
    unfolding result_of
    result_of-plan pick route reordered [] r h = cc
    result_of-plan pick route reordered (first ∷ rest) r h =
        let e = of_ok h in
        (
          ap (λ (s : PolicyResult). s.plan) e,
          (
            first,
            rest,
            sym (ap (λ (s : PolicyResult). s.plan) e),
            sym (ap (λ (s : PolicyResult). s.model) e),
            sym (ap (λ (s : PolicyResult). s.effort) e),
          ),
        )

    -- Where `finalize` gives a result, its choice is the first entry of its plan, each entry passes
    -- the check before it is sent, and no two have the same model and effort. No level of a model's
    -- ladder is the empty text.
    pub finalize-Valid :
        (pick : Pick) (pressures : Pressures) (r : PolicyResult)
        → NamedLevels config
        → finalize config alias_cfg pick features pressures ≡ ok r
        → Leads r × All Valid r.plan × Distinct r.plan
    unfolding finalize planned
    finalize-Valid pick pressures r named h =
        let (ms, eligible, after) = >>=-eq-ok (eligible_models config alias_cfg features) _ h in
        let route = resolve_use config pick.use_route in
        let es = (reorder config route.0 route.1 (live_pressures config pressures)).0 in
        let (plan, found, last) =
          >>=-eq-ok (plan_entries config alias_cfg features ms es) _ after in
        let (same, leads) = result_of-plan pick route.1 _ plan r last in
        let fresh =
          subst (Fresh named ms eligible []) same
            (plan_entries-Fresh named ms eligible es plan found) in
        (leads, fresh.0, fresh.2)

    -- A pair that the guards gave makes an entry that passes the check.
    pub guard_candidate-Valid :
        (model : String) (effort : Effort) (p : Pair) (equivalent : Bool)
        → NamedLevels config
        → guard_candidate config alias_cfg features model effort ≡ ok p
        → Valid (plan_entry config p equivalent)
    unfolding guard_candidate
    guard_candidate-Valid model effort p equivalent named h =
        let (ms, eligible, guarded) = >>=-eq-ok (eligible_models config alias_cfg features) _ h in
        Sendable-Valid named ms eligible p equivalent
          (apply_guards-Sendable named ms eligible model effort p guarded)
