-- ===== src/Policy/Routes/Entries.antt =====
-- A `use:` stands for at least one entry (`resolve_use` of src/jev_router/policy.py).
use jev_router.Common.{
  ◌≡◌, refl, String, List, [], ◌∷◌, Option, none, some, Option-cases, inl, inr, lookup,
}
use jev_router.Common.Float.{Float}
use jev_router.Config.Routes.{Route, RouteEntry, Lane, entries}
use jev_router.Config.Router.{RouterConfig}
use jev_router.Policy.Routes.{plain_entry, lane_of, resolve_use}

abbrev pub NonEmpty : List RouteEntry → Type 0
NonEmpty es = (x : RouteEntry) × (xs : List RouteEntry) × (es ≡ x ∷ xs)

module _ ⦃f : Float⦄ (config : RouterConfig) where
  lane_of-NonEmpty : (name : String) (o : Option Lane) → NonEmpty (lane_of config name o).0
  unfolding lane_of entries
  lane_of-NonEmpty name none = (plain_entry config.settings.default_route.model none, [], refl)
  lane_of-NonEmpty name (some lane) = (lane.primary, lane.fallbacks, refl)

  pub resolve_use-NonEmpty : (route : Route) → NonEmpty (resolve_use config route).0
  unfolding resolve_use
  resolve_use-NonEmpty route = elim (Option-cases route.route) [
    | inl direct ↦ rw direct (plain_entry route.model route.effort, [], refl)
    | inr (name, named) ↦ rw named (lane_of-NonEmpty name (lookup name config.routes))
  ]
