-- ===== src/Policy/Select/Sendable.antt =====
-- The plan of a selection passes the check before it is sent (`select` of
-- src/jev_router/policy.py).
use jev_router.Common.{
  ◌≡◌, refl, subst, false, not, ◌&&◌, Bool-cases, inl, inr, String, [], ◌∷◌, Option, none, some, ok,
  of_ok, >>=-eq-ok, All,
}
use jev_router.Common.Float.{Float}
use jev_router.Features.{Features}
use jev_router.Config.Routes.{Pair}
use jev_router.Config.Lanes.{QualityLaneCfg, allows}
use jev_router.Config.Router.{AliasCfg, RouterConfig}
use jev_router.Policy.Answers.{Answers}
use jev_router.Policy.Match.{Pressures}
use jev_router.Policy.Routes.{live_pressures}
use jev_router.Policy.Finalize.{plan_entry, same_pair}
use jev_router.Policy.Finalize.Plan.{
  NamedLevels, Valid, Leads, finalize-Valid, guard_candidate-Valid,
}
use jev_router.Policy.Evaluate.{Evaluation, evaluate, the_ruleset}
use jev_router.Policy.Evaluate.Finalized.{Finalized, evaluate-Finalized}
use jev_router.Policy.Select.{
  Selection, rule_lane, repair_order, first_in_lane, Draft, pair_of, set_choice, repair_into_lane,
  deferred, defer, has_any, repair, selection, select_in, run_live, is_strict, draft, lane_rule,
  select_from, select,
}
use jev_router.Policy.Select.Qualified.{first_in_lane-Repaired}

module _ ⦃f : Float⦄ (config : RouterConfig) (alias_cfg : AliasCfg) (features : Features) where
  -- The choice is the first entry of the plan, and every entry passes the check.
  abbrev pub Sendable : Evaluation → Type 0
  Sendable e =
      Leads config alias_cfg features e.result × All (Valid config alias_cfg features) e.result.plan

  module _ (named : NamedLevels config) where
    Finalized-Sendable :
        (e : Evaluation) → Finalized config alias_cfg features e.result → Sendable e
    Finalized-Sendable e (pick, live, found) =
        let v = finalize-Valid config alias_cfg features pick live e.result named found in
        (v.0, v.1)

    deferred-Sendable :
        (calm : Evaluation) (name : String) (d : Draft)
        → Sendable calm
        → Sendable (deferred calm name d).evaluation
    unfolding deferred
    deferred-Sendable calm name d h = h

    defer-Sendable :
        (live : Pressures) (calm : Evaluation) (lane : QualityLaneCfg) (name : String) (d : Draft)
        → Sendable calm
        → Sendable d.evaluation
        → Sendable (defer live calm lane name d).evaluation
    unfolding defer
    defer-Sendable live calm lane name d hc hd =
        elim (Bool-cases (
          has_any live
          && not (same_pair (pair_of d.evaluation) (pair_of calm))
          && not (allows lane (pair_of d.evaluation)))) [
            | inl back ↦ rw back (deferred-Sendable calm name d hc)
            | inr on ↦ rw on hd
          ]

    set_choice-Sendable :
        (e : Evaluation) (p : Pair)
        → Valid config alias_cfg features (plan_entry config p false)
        → Sendable (set_choice config e p)
    unfolding set_choice plan_entry
    set_choice-Sendable e p h = ((plan_entry config p false, [], refl, refl, refl), (h, tt))

    repair-Sendable :
        (lane : QualityLaneCfg) (name : String) (d r : Draft)
        → Sendable d.evaluation
        → repair config alias_cfg features lane name d ≡ ok r
        → Sendable r.evaluation
    unfolding repair repair_into_lane
    repair-Sendable lane name d r hd h = elim (Bool-cases (allows lane (pair_of d.evaluation))) [
      | inl there ↦ subst (λ (x : Draft). Sendable x.evaluation) (of_ok (rw there at h)) hd
      | inr out ↦
          let (p, found, last) =
            >>=-eq-ok (first_in_lane config alias_cfg features lane name (repair_order config lane))
              _ (rw out at h) in
          let (_, (model, effort, guarded)) =
            first_in_lane-Repaired config alias_cfg features lane name (repair_order config lane) p
              found in
          subst (λ (x : Draft). Sendable x.evaluation) (of_ok last)
            (set_choice-Sendable d.evaluation p
              (guard_candidate-Valid config alias_cfg features model effort p false named guarded))
    ]

    select_in-Sendable :
        (live : Pressures) (calm : Evaluation) (d : Draft) (l : String × Option QualityLaneCfg)
        (s : Selection)
        → Sendable calm
        → Sendable d.evaluation
        → select_in config alias_cfg features live calm d l ≡ ok s
        → Sendable s.evaluation
    unfolding select_in selection
    select_in-Sendable live calm d (name, none) s hc hd h =
        subst (λ (x : Selection). Sendable x.evaluation) (of_ok h) hd
    select_in-Sendable live calm d (name, some lane) s hc hd h =
        let (r, found, last) =
          >>=-eq-ok (repair config alias_cfg features lane name (defer live calm lane name d)) _
            h in
        subst (λ (x : Selection). Sendable x.evaluation) (of_ok last)
          (repair-Sendable lane name (defer live calm lane name d) r
            (defer-Sendable live calm lane name d hc hd) found)

    run_live-Sendable :
        (answers : Answers) (calm result : Evaluation) (live : Pressures)
        → Sendable calm
        → run_live config alias_cfg answers features calm live ≡ ok result
        → Sendable result
    unfolding run_live
    run_live-Sendable answers calm result [] hc h = subst Sendable (of_ok h) hc
    run_live-Sendable answers calm result (p ∷ ps) hc h = Finalized-Sendable result (
        evaluate-Finalized config alias_cfg features answers (p ∷ ps)
          (is_strict alias_cfg.session_mode) result h)

  -- Where `select` gives a selection, its choice is the first entry of its plan, and every entry
  -- passes the check before it is sent, also after a deferral or a repair into a lane. No level of
  -- a model's ladder is the empty text.
  pub select-Sendable :
      (answers : Answers) (pressures : Pressures) (s : Selection)
      → NamedLevels config
      → select config alias_cfg answers features pressures ≡ ok s
      → Sendable s.evaluation
  unfolding select select_from draft
  select-Sendable answers pressures s named h =
      let live = live_pressures config pressures in
      let (rs, _, a) = >>=-eq-ok (the_ruleset config alias_cfg) _ h in
      let (calm, first, b) = >>=-eq-ok (evaluate config alias_cfg answers features [] false) _ a in
      let (result, second, c) =
        >>=-eq-ok (run_live config alias_cfg answers features calm live) _ b in
      let calm_ok =
        Finalized-Sendable named calm
          (evaluate-Finalized config alias_cfg features answers [] false calm first) in
      select_in-Sendable named live calm (draft config alias_cfg features live result)
        (rule_lane config rs (lane_rule alias_cfg calm result)) s calm_ok
        (run_live-Sendable named answers calm result live calm_ok second) c
