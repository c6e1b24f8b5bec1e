-- ===== src/Policy/Evaluate/Finalized.antt =====
-- The result of a pass is one that `finalize` gave (`evaluate` of src/jev_router/policy.py).
use jev_router.Common.{◌≡◌, ap, ◌∙◌, Bool, ok, of_ok, >>=-eq-ok, if◌then◌else◌, []}
use jev_router.Common.Float.{Float}
use jev_router.Features.{Features}
use jev_router.Config.Router.{AliasCfg, Ruleset, RouterConfig}
use jev_router.Policy.Answers.{Answers, experiment_rules}
use jev_router.Policy.Match.{Pressures}
use jev_router.Policy.Rules.{Pick}
use jev_router.Policy.Gate.{pick_route}
use jev_router.Policy.Routes.{live_pressures}
use jev_router.Policy.Finalize.{PolicyResult, finalize}
use jev_router.Policy.Evaluate.{
  Evaluation, running_of, changed_by, evaluate_with, the_ruleset, evaluate,
}

module _ ⦃f : Float⦄ (config : RouterConfig) (alias_cfg : AliasCfg) (features : Features) where
  abbrev pub Finalized : PolicyResult → Type 0
  Finalized r =
      (pick : Pick) × (live : Pressures) × (finalize config alias_cfg pick features live ≡ ok r)

  evaluate_with-Finalized :
      (rs : Ruleset) (answers : Answers) (live : Pressures) (freeze : Bool) (e : Evaluation)
      → evaluate_with config alias_cfg rs answers features live freeze ≡ ok e
      → Finalized e.result
  unfolding evaluate_with
  evaluate_with-Finalized rs answers live freeze e h =
      let running = running_of config.semantic_policy.distribution_policy (experiment_rules rs) in
      let pick = (pick_route config rs answers features (if freeze then [] else live) running).0 in
      let (r, found, after) = >>=-eq-ok (finalize config alias_cfg pick features live) _ h in
      let (changed, _, last) =
        >>=-eq-ok (changed_by config alias_cfg rs answers features r running live) _ after in
      (pick, live, found ∙ ap (λ (x : Evaluation). ok x.result) (of_ok last))

  pub evaluate-Finalized :
      (answers : Answers) (pressures : Pressures) (freeze : Bool) (e : Evaluation)
      → evaluate config alias_cfg answers features pressures freeze ≡ ok e
      → Finalized e.result
  unfolding evaluate
  evaluate-Finalized answers pressures freeze e h =
      let (rs, _, after) = >>=-eq-ok (the_ruleset config alias_cfg) _ h in
      evaluate_with-Finalized rs answers (live_pressures config pressures) freeze e after
