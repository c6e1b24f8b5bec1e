-- ===== src/Policy/Eligible.antt =====
-- Which models a request may use, and why the others may not be used (src/jev_router/policy.py).
pub mod Partition
pub mod Levels
mod Tests
use jev_router.Common.{
  ℕ, Bool, true, false, not, ◌&&◌, String, str_eq, List, [], ◌∷◌, Option, none, some, Result, ok,
  err, ◌>>=◌, leb, ltb, keep, contains, lookup, keys, if◌then◌else◌,
}
use jev_router.Common.Float.{Float}
use jev_router.Features.{Features, budget_tokens}
use jev_router.Config.Router.{ModelCfg, ClientCfg, AliasCfg, RouterConfig}
use jev_router.Policy.Failures.{Failure, Routed, no_common_model, no_eligible_model}
use jev_router.Policy.Efforts.{constrained_effort, efforts_run}

-- Why a permitted model cannot be used.
pub data Exclusion : Type 0 where
  unknown_model not_permitted carries_tools carries_image over_window : Exclusion
  no_effort : Failure → Exclusion

nonempty : Failure → List String → Routed (List String)
nonempty why [] = err why
nonempty why (m ∷ ms) = ok (m ∷ ms)

is_ok : {A : Type 0} → Routed A → Bool
is_ok (ok a) = true
is_ok (err e) = false

note_exclusion : String → Option Exclusion → List (String × Exclusion) → List (String × Exclusion)
note_exclusion m none rest = rest
note_exclusion m (some why) rest = (m, why) ∷ rest

module _ ⦃f : Float⦄ where
  -- `config.clients.get(features.client) if features.client else None`
  pub client_cfg : RouterConfig → String → Option ClientCfg
  client_cfg config client = if str_eq client "" then none else lookup client config.clients

  pub permits : Option ClientCfg → String → Bool
  permits none model = true
  permits (some c) model = elim c.allowed_models [ none ↦ true | some ms ↦ contains ms model ]

  -- The models an alias may use.
  pub pool : RouterConfig → AliasCfg → List String
  pool config alias_cfg = elim alias_cfg.allowed_models [ none ↦ keys config.models | some ms ↦ ms ]

  pub allowed_models : RouterConfig → AliasCfg → Features → Routed (List String)
  unfolding nonempty
  allowed_models config alias_cfg features =
      nonempty no_common_model
        (keep (permits (client_cfg config features.client)) (pool config alias_cfg))

  has_room : Features → ModelCfg → Bool
  has_room features m =
      if features.has_tools && not m.supports_tools
      then false
      else if features.has_images && not m.supports_vision
      then false
      else leb (budget_tokens features) m.context_window

  fits_model : Features → Option ModelCfg → Bool
  unfolding has_room
  fits_model features none = false
  fits_model features (some m) = has_room features m

  pub fits : RouterConfig → String → Features → Bool
  fits config model_id features = fits_model features (lookup model_id config.models)

  -- `except RoutingError: continue`. A model that fits is configured, so the effort's KeyError
  -- does not arise here.
  pub usable : RouterConfig → AliasCfg → Features → String → Bool
  usable config alias_cfg features model =
      fits config model features
      && is_ok (constrained_effort config alias_cfg features.client model none)

  -- Mandatory eligibility, independent of quota and health.
  pub eligible_models : RouterConfig → AliasCfg → Features → Routed (List String)
  eligible_models config alias_cfg features = do
    allowed ← allowed_models config alias_cfg features
    nonempty no_eligible_model (keep (usable config alias_cfg features) allowed)

  effort_exclusion : Routed (Option String) → Option Exclusion
  effort_exclusion (ok e) = none
  effort_exclusion (err why) = some (no_effort why)

  exclusion_of : Features → Bool → Routed (Option String) → Option ModelCfg → Option Exclusion
  unfolding effort_exclusion
  exclusion_of features permitted effort none = some unknown_model
  exclusion_of features permitted effort (some m) =
      if not permitted
      then some not_permitted
      else if features.has_tools && not m.supports_tools
      then some carries_tools
      else if features.has_images && not m.supports_vision
      then some carries_image
      else if ltb m.context_window (budget_tokens features)
      then some over_window
      else effort_exclusion effort

  exclusion : RouterConfig → AliasCfg → Features → String → Option Exclusion
  exclusion config alias_cfg features model =
      exclusion_of features (permits (client_cfg config features.client) model)
        (constrained_effort config alias_cfg features.client model none)
        (lookup model config.models)

  excluded_in : RouterConfig → AliasCfg → Features → List String → List (String × Exclusion)
  excluded_in config alias_cfg features [] = []
  excluded_in config alias_cfg features (m ∷ ms) =
      note_exclusion m (exclusion config alias_cfg features m)
        (excluded_in config alias_cfg features ms)

  -- Every permitted model this request cannot use, and why.
  pub excluded_models : RouterConfig → AliasCfg → Features → List (String × Exclusion)
  excluded_models config alias_cfg features =
      excluded_in config alias_cfg features (pool config alias_cfg)

  pub capable_models : RouterConfig → List String → Features → List String
  capable_models config allowed features = keep (λ m. fits config m features) allowed

  window_of : RouterConfig → String → ℕ
  window_of config model = elim (lookup model config.models) [
    | none ↦ 0
    | some m ↦ m.context_window
  ]

  -- `min(candidates, key=context_window)`: the first of the smallest
  smallest : RouterConfig → String → List String → String
  smallest config best [] = best
  smallest config best (m ∷ ms) =
      smallest config (if ltb (window_of config m) (window_of config best) then m else best) ms

  smallest_of : RouterConfig → List String → Option String
  unfolding smallest
  smallest_of config [] = none
  smallest_of config (m ∷ ms) = some (smallest config m ms)

  default_pool : RouterConfig → Option (List String) → List String
  default_pool config none = keys config.models
  default_pool config (some ms) = ms

  -- The smallest eligible replacement for an incompatible current model.
  pub next_model_that_fits : RouterConfig → String → Features → Option (List String) → Option String
  unfolding smallest_of default_pool
  next_model_that_fits config current features allowed =
      let ms = default_pool config allowed in
      if contains ms current && fits config current features
      then none
      else smallest_of config (keep (λ m. not (str_eq m current) && fits config m features) ms)

-- What a test opens to run the functions of this file.
unfoldable pub eligible_run : Unit {0}
unfolding efforts_run nonempty is_ok client_cfg permits pool allowed_models has_room fits_model fits
    usable eligible_models effort_exclusion exclusion_of exclusion note_exclusion excluded_in
    excluded_models capable_models window_of smallest smallest_of default_pool next_model_that_fits
    budget_tokens
eligible_run = tt
