-- ===== src/Policy/Routes.antt =====
-- What a `use:` stands for, and the order of its entries under quota pressure (`resolve_use`,
-- `model_pressure`, `order_entries` and `_live_pressures` of src/jev_router/policy.py).
pub mod Guard
pub mod Entries
use jev_router.Common.{
  same_bool, Bool, true, false, not, ◌&&◌, String, str_eq, List, [], ◌∷◌, ◌++◌, Option, none, some,
  keep, lookup, opt_eq, if◌then◌else◌,
}
use jev_router.Common.Float.{Float, Number, ◌<=◌, ◌<<◌}
use jev_router.Config.Routes.{Route, RouteEntry, Lane, entries}
use jev_router.Config.Router.{ModelCfg, RouterConfig, provider_of}
use jev_router.Policy.Match.{Pressures, nought}

or_empty : Option String → String
or_empty none = ""
or_empty (some s) = s

plain_entry : Option String → Option String → RouteEntry
unfolding or_empty
plain_entry model effort = record { model = or_empty model; effort = effort; equivalent = false }

-- `==` of two entries
pub same_entry : RouteEntry → RouteEntry → Bool
same_entry a b =
    str_eq a.model b.model && opt_eq a.effort b.effort && same_bool a.equivalent b.equivalent

same_entries : List RouteEntry → List RouteEntry → Bool
same_entries [] [] = true
same_entries (x ∷ xs) (y ∷ ys) = same_entry x y && same_entries xs ys
same_entries _ _ = false

-- `order[:order.index(p)]` and `order[order.index(p) + 1:]`
pub before_entry : RouteEntry → List RouteEntry → List RouteEntry
before_entry p [] = []
before_entry p (e ∷ es) = if same_entry e p then [] else e ∷ before_entry p es

pub after_entry : RouteEntry → List RouteEntry → List RouteEntry
after_entry p [] = []
after_entry p (e ∷ es) = if same_entry e p then es else after_entry p es

module _ ⦃f : Float⦄ where
  lane_of : RouterConfig → String → Option Lane → List RouteEntry × Option String
  lane_of config name (some lane) = (entries lane, some name)
  lane_of config name none = (plain_entry config.settings.default_route.model none ∷ [], none)

  -- The entries of a `use:`, and the name of the route they come from.
  pub resolve_use : RouterConfig → Route → List RouteEntry × Option String
  resolve_use config route = elim route.route [
    | some name ↦ lane_of config name (lookup name config.routes)
    | none ↦ (plain_entry route.model route.effort ∷ [], none)
  ]

  cost_of : Option ModelCfg → Number
  cost_of none = f.decimal 1 0
  cost_of (some m) = m.quota_cost

  pressure_of : Option Number → Number
  pressure_of none = nought
  pressure_of (some p) = p

  -- The provider's pressure times the model's share of its allowance.
  pub model_pressure : RouterConfig → String → Pressures → Number
  model_pressure config model pressures =
      f.mul (pressure_of (lookup (provider_of config model) pressures))
        (cost_of (lookup model config.models))

  pub hot : RouterConfig → Pressures → RouteEntry → Bool
  hot config pressures e =
      config.quota_policy.demote_above << model_pressure config e.model pressures

  -- `may_pass + [primary] + pushed_back + order[at + 1:]`
  pub behind : RouteEntry → List RouteEntry → List RouteEntry
  behind primary order =
      keep (λ (e : RouteEntry). e.equivalent) (before_entry primary order)
      ++ primary
        ∷ (keep (λ (e : RouteEntry). not e.equivalent) (before_entry primary order)
            ++ after_entry primary order)

  pub split_order : RouterConfig → Pressures → List RouteEntry → List RouteEntry
  split_order config pressures es =
      keep (λ e. not (hot config pressures e)) es ++ keep (hot config pressures) es

  pub ordered : RouterConfig → List RouteEntry → Pressures → List RouteEntry
  ordered config [] pressures = []
  ordered config (e ∷ []) pressures = e ∷ []
  ordered config (primary ∷ e ∷ es) pressures =
      let order = split_order config pressures (primary ∷ e ∷ es) in
      if hot config pressures primary then behind primary order else order

  -- Entries under quota pressure behind the healthy ones, and whether that changed the order.
  pub order_entries : RouterConfig → List RouteEntry → Pressures → List RouteEntry × Bool
  order_entries config es pressures =
      (ordered config es pressures, not (same_entries (ordered config es pressures) es))

  is_live : String × Number → Bool
  is_live entry = (nought << entry.1) && (entry.1 <= f.decimal 1 0)

  -- Without the zeros, and without everything when quota routing is switched off.
  pub live_pressures : RouterConfig → Pressures → Pressures
  live_pressures config pressures =
      if config.quota_policy.enabled then keep is_live pressures else []

-- What a test opens to run the functions of this file.
unfoldable pub routes_run : Unit {0}
unfolding or_empty plain_entry same_bool same_entry same_entries before_entry after_entry lane_of
    resolve_use cost_of pressure_of model_pressure hot behind split_order ordered order_entries
    is_live live_pressures entries keep lookup opt_eq provider_of
routes_run = tt
