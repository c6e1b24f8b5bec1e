-- ===== src/Policy/Efforts/Total.antt =====
-- Whether a level is found does not depend on the effort asked for (`constrained_effort` of
-- src/jev_router/policy.py).
use jev_router.Common.{
  ◌≡◌, refl, ◌||◌, String, List, [], ◌∷◌, Option, none, some, ok, err, keep, lookup, Bool-cases,
  inl, inr, Result,
}
use jev_router.Common.Float.{Float}
use jev_router.Config.Routes.{Effort, or_else}
use jev_router.Config.Router.{ModelCfg, AliasCfg, RouterConfig}
use jev_router.Policy.Efforts.{
  level_for, level_in, in_bounds, over, is_empty, is_none_style, constrain, constrain_model,
  constrained_effort,
}

level_in-total :
    (order : List String) (want other cap : Effort) (ls : List String) (r : Effort)
    → level_in order want cap ls ≡ ok r
    → (s : Effort) × (level_in order other cap ls ≡ ok s)
unfolding level_in
level_in-total order want other cap [] r h = cc
level_in-total order want other cap (l ∷ ls) r h = (level_for order other cap l ls, refl)

ok-ne-err : {E A : Type 0} {e : E} {a : A} → ◌≡◌ {A = Result E A} (err e) (ok a) → ⊥
ok-ne-err h = cc

module _ ⦃f : Float⦄ where
  -- Whether a model has a level within the bounds does not depend on the effort asked for.
  constrain-total :
      (order : List String) (floor cap : Effort) (m : ModelCfg) (effort other r : Effort)
      → constrain order floor cap m effort ≡ ok r
      → (s : Effort) × (constrain order floor cap m other ≡ ok s)
  unfolding constrain
  constrain-total order floor cap m effort other r h = elim (Bool-cases (over order floor cap)) [
    | inl refused ↦ absurd (ok-ne-err (rw refused at h))
    | inr bounded ↦ elim (Bool-cases (is_empty m.efforts || is_none_style m.effort_style)) [
      | inl bare ↦ (r, rw (bounded, bare) (rw (bounded, bare) at h))
      | inr ladder ↦
          let (s, found) =
            level_in-total order (or_else (or_else effort m.default_effort) floor)
              (or_else (or_else other m.default_effort) floor) cap
              (keep (in_bounds order floor cap) m.efforts) r (rw (bounded, ladder) at h) in
          (s, rw (bounded, ladder) found)
    ]
  ]

  constrain_model-total :
      (config : RouterConfig) (alias_cfg : AliasCfg) (client model : String)
      (effort other r : Effort) (o : Option ModelCfg)
      → constrain_model config alias_cfg client model effort o ≡ ok r
      → (s : Effort) × (constrain_model config alias_cfg client model other o ≡ ok s)
  unfolding constrain_model
  constrain_model-total config alias_cfg client model effort other r none h = cc
  constrain_model-total config alias_cfg client model effort other r (some m) h =
      constrain-total _ _ alias_cfg.max_effort m effort other r h

  pub constrained_effort-total :
      (config : RouterConfig) (alias_cfg : AliasCfg) (client model : String)
      (effort other r : Effort)
      → constrained_effort config alias_cfg client model effort ≡ ok r
      → (s : Effort) × (constrained_effort config alias_cfg client model other ≡ ok s)
  unfolding constrained_effort
  constrained_effort-total config alias_cfg client model effort other r h =
      constrain_model-total config alias_cfg client model effort other r
        (lookup model config.models) h
