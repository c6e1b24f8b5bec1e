-- ===== src/Policy/Efforts.antt =====
-- Efforts on a model's ladder (src/jev_router/policy.py).
pub mod Bounds
pub mod Stable
pub mod Total
use jev_router.Common.{
  ℕ, Bool, true, false, not, ◌&&◌, ◌||◌, String, str_eq, List, [], ◌∷◌, Option, none, some, Result,
  ok, err, length, leb, ltb, keep, contains, lookup, index_of, if◌then◌else◌,
}
use jev_router.Common.Float.{Float, Number}
use jev_router.Config.Routes.{Effort, or_else}
use jev_router.Config.Router.{
  ModelCfg, ClientCfg, AliasCfg, RouterConfig, EffortStyle, suffix, param, none',
}
use jev_router.Policy.Failures.{
  Failure, Routed, floor_over_cap, unmet_floor, no_bounded_level, key_error,
}

rank_or : ℕ → Option ℕ → ℕ
rank_or n none = n
rank_or n (some i) = i

-- `order.index(effort)`, or `len(order)` for an effort that is not there
unfoldable pub rank : List String → String → ℕ
unfolding rank_or
rank order effort = rank_or (length order) (index_of order effort)

-- `max(xs, key=…)` and `min(xs, key=…)` of a list with a first item keep the first best one.
pub best_by : (String → String → Bool) → String → List String → String
best_by better b [] = b
best_by better b (x ∷ xs) = best_by better (if better x b then x else b) xs

higher : List String → String → String → Bool
higher order x b = ltb (rank order b) (rank order x)

lower : List String → String → String → Bool
lower order x b = ltb (rank order x) (rank order b)

-- `not floor or rank(e) >= rank(floor)`, where the empty text counts as absent
pub at_least : List String → Effort → String → Bool
at_least order none e = true
at_least order (some b) e = str_eq b "" || leb (rank order b) (rank order e)

pub at_most : List String → Effort → String → Bool
at_most order none e = true
at_most order (some b) e = str_eq b "" || leb (rank order e) (rank order b)

-- The highest level at or below `want`, or the lowest one.
highest_or : List String → String → List String → List String → String
highest_or order l ls [] = best_by (lower order) l ls
highest_or order l ls (x ∷ xs) = best_by (higher order) x xs

pub choose_level : List String → String → List String → String → String
unfolding highest_or keep
choose_level order l ls want =
    highest_or order l ls (keep (λ e. leb (rank order e) (rank order want)) (l ∷ ls))

-- `want = effort or default or floor`, and what follows once the levels are known.
level_for : List String → Effort → Effort → String → List String → Effort
unfolding choose_level
level_for order none none l ls = none
level_for order none (some cap) l ls =
    some (choose_level order l ls (if str_eq cap "" then l else cap))
level_for order (some w) none l ls = some (choose_level order l ls (if str_eq w "" then l else w))
level_for order (some w) (some cap) l ls =
    some (choose_level order l ls (if str_eq w "" then (if str_eq cap "" then l else cap) else w))

over : List String → Effort → Effort → Bool
over order (some floor) (some cap) =
    not (str_eq floor "") && not (str_eq cap "") && ltb (rank order cap) (rank order floor)
over order _ _ = false

above_none : List String → Effort → Bool
above_none order none = false
above_none order (some floor) = not (str_eq floor "") && ltb (rank order "none") (rank order floor)

is_none_style : EffortStyle → Bool
is_none_style none' = true
is_none_style _ = false

is_empty : List String → Bool
is_empty [] = true
is_empty (_ ∷ _) = false

level_in : List String → Effort → Effort → List String → Routed Effort
level_in order want cap [] = err no_bounded_level
level_in order want cap (l ∷ ls) = ok (level_for order want cap l ls)

pub in_bounds : List String → Effort → Effort → String → Bool
in_bounds order floor cap e = at_least order floor e && at_most order cap e

module _ ⦃f : Float⦄ where
  -- The ladder within its floor and its cap, for one model.
  constrain : List String → Effort → Effort → ModelCfg → Effort → Routed Effort
  constrain order floor cap m effort =
      if over order floor cap
      then err floor_over_cap
      else if is_empty m.efforts || is_none_style m.effort_style
      then (if above_none order floor then err unmet_floor else ok none)
      else level_in order (or_else (or_else effort m.default_effort) floor) cap
          (keep (in_bounds order floor cap) m.efforts)

  min_effort_of : Option ClientCfg → Effort
  min_effort_of none = none
  min_effort_of (some c) = c.min_effort

  pub client_floor : RouterConfig → String → Effort
  unfolding min_effort_of lookup
  client_floor config client = min_effort_of (lookup client config.clients)

  constrain_model :
      RouterConfig → AliasCfg → String → String → Effort → Option ModelCfg → Routed Effort
  constrain_model config alias_cfg client model effort none = err (key_error model)
  constrain_model config alias_cfg client model effort (some m) =
      constrain config.settings.effort_order (client_floor config client) alias_cfg.max_effort m
        effort

  -- Intersect the ladder with hard caps and floors before choosing a level; `client` is
  -- `features.client`.
  pub constrained_effort : RouterConfig → AliasCfg → String → String → Effort → Routed Effort
  constrained_effort config alias_cfg client model effort =
      constrain_model config alias_cfg client model effort (lookup model config.models)

  -- Move an effort onto the ladder the model supports; no bounds are applied here.
  clamped : List String → ModelCfg → String → List String → Effort → Effort
  clamped order m e es none = m.default_effort
  clamped order m e es (some want) =
      if contains (e ∷ es) want then some want else some (choose_level order e es want)

  clamp_on : List String → ModelCfg → List String → Effort → Effort
  clamp_on order m [] effort = none
  clamp_on order m (e ∷ es) effort =
      if is_none_style m.effort_style then none else clamped order m e es effort

  clamp_model : List String → Effort → Option ModelCfg → Effort
  clamp_model order effort none = none
  clamp_model order effort (some m) = clamp_on order m m.efforts effort

  pub clamp_effort : RouterConfig → String → Effort → Effort
  clamp_effort config model_id effort =
      clamp_model config.settings.effort_order effort (lookup model_id config.models)

  -- The upstream model name, with the effort that stands in parentheses behind it, and the
  -- `reasoning_effort` field of the body.
  pub record Upstream : Type 0 where
    pub id : String
    pub suffixed : Effort
    pub reasoning_effort : Effort

  applied : ModelCfg → EffortStyle → Effort → Upstream
  applied m none' effort = record { id = m.upstream_id; suffixed = none; reasoning_effort = none }
  applied m suffix effort = record {
    id = m.upstream_id;
    suffixed = effort;
    reasoning_effort = none;
  }
  applied m param effort = record { id = m.upstream_id; suffixed = none; reasoning_effort = effort }

  or_default : Effort → Effort → Effort
  or_default none d = d
  or_default (some e) d = some e

  apply_model : String → Effort → Option ModelCfg → Routed Upstream
  apply_model model_id effort none = err (key_error model_id)
  apply_model model_id effort (some m) =
      ok (applied m m.effort_style (or_default effort m.default_effort))

  pub apply_effort : RouterConfig → String → Effort → Routed Upstream
  apply_effort config model_id effort = apply_model model_id effort (lookup model_id config.models)

-- What a test opens to run the functions of this file.
unfoldable pub efforts_run : Unit {0}
unfolding rank best_by higher lower at_least at_most highest_or choose_level level_for over
    above_none is_none_style is_empty level_in in_bounds constrain min_effort_of client_floor
    constrain_model constrained_effort clamped clamp_on clamp_model clamp_effort applied or_default
    apply_model apply_effort or_else lookup keep contains index_of rank_or
efforts_run = tt
