-- ===== src/Policy/Select/Qualified.antt =====
-- A selection lies in its quality lane, and its plan can be sent (`select` of
-- src/jev_router/policy.py).
use mathlib.Core.Bool.{false≢true}
use mathlib.Core.Option.{none-ne-some}
use jev_router.Common.{
  ◌≡◌, refl, sym, ap, subst, ◌∙◌, true, false, not, ◌&&◌, Bool-cases, inl, inr, String, str_eq,
  str_eq_iff, List, [], ◌∷◌, Option, none, some, ok, err, of_ok, of_some, >>=-eq-ok, lookup,
}
use jev_router.Common.Float.{Float}
use jev_router.Features.{Features}
use jev_router.Config.Routes.{Effort, Pair}
use jev_router.Config.Lanes.{QualityLaneCfg, allows}
use jev_router.Config.Router.{AliasCfg, Rule, RouterConfig}
use jev_router.Policy.Failures.{Routed}
use jev_router.Policy.Answers.{Answers}
use jev_router.Policy.Match.{Pressures}
use jev_router.Policy.Routes.{live_pressures}
use jev_router.Policy.Finalize.{guard_candidate}
use jev_router.Policy.Evaluate.{Evaluation, evaluate, the_ruleset}
use jev_router.Policy.Select.{
  Selection, lane_in, rule_lane, repair_order, accept, first_in_lane, Draft, pair_of, set_choice,
  repair_into_lane, defer, repair, selection, select_in, run_live, draft, lane_rule, select_from,
  select,
}

module _ ⦃f : Float⦄ (config : RouterConfig) (alias_cfg : AliasCfg) (features : Features) where
  -- What a repair takes: a pair that the guards gave and that the lane has evidence for.
  abbrev pub Repaired : QualityLaneCfg → Pair → Type 0
  Repaired lane p =
      (allows lane p ≡ true)
      × ((model : String) × (effort : Effort) × (guard_candidate config alias_cfg features model
              effort
            ≡ ok p))

  accept-cases :
      (lane : QualityLaneCfg) (model : String) (effort : Effort) (c : Routed Pair)
      (rest : Routed Pair) (p : Pair)
      → guard_candidate config alias_cfg features model effort ≡ c
      → (rest ≡ ok p → Repaired lane p)
      → accept lane c rest ≡ ok p
      → Repaired lane p
  unfolding accept
  accept-cases lane model effort (err why) rest p same later h = later h
  accept-cases lane model effort (ok g) rest p same later h = elim (Bool-cases (allows lane g)) [
    | inl there ↦ subst (Repaired lane) (of_ok (rw there at h)) (there, (model, effort, same))
    | inr out ↦ later (rw out at h)
  ]

  pub first_in_lane-Repaired :
      (lane : QualityLaneCfg) (name : String) (ps : List Pair) (p : Pair)
      → first_in_lane config alias_cfg features lane name ps ≡ ok p
      → Repaired lane p
  unfolding first_in_lane
  first_in_lane-Repaired lane name [] p h = cc
  first_in_lane-Repaired lane name ((model, effort) ∷ ps) p h =
      accept-cases lane model effort (guard_candidate config alias_cfg features model effort)
        (first_in_lane config alias_cfg features lane name ps) p refl
        (first_in_lane-Repaired lane name ps p) h

  repair-allows :
      (lane : QualityLaneCfg) (name : String) (d r : Draft)
      → repair config alias_cfg features lane name d ≡ ok r
      → allows lane (pair_of r.evaluation) ≡ true
  unfolding repair repair_into_lane set_choice
  repair-allows lane name d r h = elim (Bool-cases (allows lane (pair_of d.evaluation))) [
    | inl there ↦
        subst (λ (x : Draft). allows lane (pair_of x.evaluation) ≡ true) (of_ok (rw there at h))
          there
    | inr out ↦
        let (p, found, last) =
          >>=-eq-ok (first_in_lane config alias_cfg features lane name (repair_order config lane)) _
            (rw out at h) in
        subst (λ (x : Draft). allows lane (pair_of x.evaluation) ≡ true) (of_ok last)
          (first_in_lane-Repaired lane name (repair_order config lane) p found).0
  ]

  select_in-allows :
      (live : Pressures) (calm : Evaluation) (d : Draft) (name : String) (lane : QualityLaneCfg)
      (s : Selection)
      → select_in config alias_cfg features live calm d (name, some lane) ≡ ok s
      → (s.lane ≡ name) × (allows lane (pair_of s.evaluation) ≡ true)
  unfolding select_in selection
  select_in-allows live calm d name lane s h =
      let (r, found, last) =
        >>=-eq-ok (repair config alias_cfg features lane name (defer live calm lane name d)) _ h in
      (
        ap (λ (x : Selection). x.lane) (sym (of_ok last)),
        subst (λ (x : Selection). allows lane (pair_of x.evaluation) ≡ true) (of_ok last)
            (repair-allows lane name (defer live calm lane name d) r found),
      )

  -- What a rule's lane may be: no name at all, or a name with what the configuration has for it.
  abbrev NamedLane : String × Option QualityLaneCfg → Type 0
  NamedLane l = (str_eq l.0 "" ≡ false) → l.1 ≡ lookup l.0 config.quality_lanes

  lane_in-NamedLane : (name : String) (rules : List Rule) → NamedLane (lane_in config name rules)
  unfolding lane_in
  lane_in-NamedLane name [] = λ h. absurd (false≢true ((sym h) ∙ (str_eq_iff "" "").1 refl))
  lane_in-NamedLane name (rule ∷ rules) =
      elim (Bool-cases (str_eq rule.name name && not (str_eq rule.lane ""))) [
        | inl it ↦ rw it (λ _. refl)
        | inr other ↦ rw other (lane_in-NamedLane name rules)
      ]

  select_in-qualified :
      (live : Pressures) (calm : Evaluation) (d : Draft) (l : String × Option QualityLaneCfg)
      (s : Selection) (lane : QualityLaneCfg)
      → NamedLane l
      → select_in config alias_cfg features live calm d l ≡ ok s
      → str_eq s.lane "" ≡ false
      → lookup s.lane config.quality_lanes ≡ some lane
      → allows lane (pair_of s.evaluation) ≡ true
  unfolding select_in
  select_in-qualified live calm d (name, none) s lane named h known found =
      let same : s.lane ≡ name = ap (λ (x : Selection). x.lane) (sym (of_ok h)) in
      absurd (none-ne-some lane (named (rw same at known) ∙ (rw same at found)))
  select_in-qualified live calm d (name, some own) s lane named h known found =
      let (same, there) = select_in-allows live calm d name own s h in
      subst (λ z. allows z (pair_of s.evaluation) ≡ true)
        (of_some (named (rw same at known) ∙ (rw same at found))) there

  -- A selection under a quality lane of the configuration is a pair that the lane has evidence for,
  -- whatever the answers and the pressures.
  pub select-qualified :
      (answers : Answers) (pressures : Pressures) (s : Selection) (lane : QualityLaneCfg)
      → select config alias_cfg answers features pressures ≡ ok s
      → str_eq s.lane "" ≡ false
      → lookup s.lane config.quality_lanes ≡ some lane
      → allows lane (pair_of s.evaluation) ≡ true
  unfolding select select_from rule_lane
  select-qualified answers pressures s lane h known found =
      let live = live_pressures config pressures in
      let (rs, _, a) = >>=-eq-ok (the_ruleset config alias_cfg) _ h in
      let (calm, _, b) = >>=-eq-ok (evaluate config alias_cfg answers features [] false) _ a in
      let (result, _, c) = >>=-eq-ok (run_live config alias_cfg answers features calm live) _ b in
      let name = lane_rule alias_cfg calm result in
      select_in-qualified live calm (draft config alias_cfg features live result)
        (rule_lane config rs name) s lane (lane_in-NamedLane name rs.rules) c known found
