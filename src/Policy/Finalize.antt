-- ===== src/Policy/Finalize.antt =====
-- The parts that a rule may not override: caps, floors and capabilities (`finalize`,
-- `_apply_guards`, `guard_candidate` and `validate_entry` of src/jev_router/policy.py). The notes,
-- which are texts for a reader, are left out.
pub mod Plan
pub mod Total
mod Tests
use jev_router.Common.{
  Bool, true, false, not, ◌&&◌, ◌||◌, String, str_eq, List, [], ◌∷◌, map, Option, none, some, ok,
  err, ◌>>=◌, contains, opt_eq, if◌then◌else◌,
}
use jev_router.Common.Float.{Float}
use jev_router.Common.Sorted.{find}
use jev_router.Features.{Features}
use jev_router.Config.Routes.{Effort, Pair, Route, RouteEntry}
use jev_router.Config.Router.{AliasCfg, RouterConfig, provider_of}
use jev_router.Policy.Failures.{
  Failure, Routed, no_permitted_model, entry_not_eligible, effort_violates, key_error,
}
use jev_router.Policy.Efforts.{constrained_effort, efforts_run}
use jev_router.Policy.Eligible.{eligible_models, fits, eligible_run}
use jev_router.Policy.Match.{Pressures}
use jev_router.Policy.Routes.{resolve_use, order_entries, live_pressures, routes_run}
use jev_router.Policy.Rules.{Pick}

-- One rung the forwarder may try.
pub record PlanEntry : Type 0 where
  pub model : String
  pub effort : Effort
  pub provider : String
  pub equivalent : Bool

pub as_pair : PlanEntry → Pair
as_pair e = (e.model, e.effort)

pub same_pair : Pair → Pair → Bool
same_pair a b = str_eq a.0 b.0 && opt_eq a.1 b.1

-- `pair in seen`
pub seen_in : List Pair → Pair → Bool
seen_in [] p = false
seen_in (q ∷ qs) p = same_pair q p || seen_in qs p

or_replacement : Option String → Routed String
or_replacement none = err no_permitted_model
or_replacement (some m) = ok m

-- `model`, or the first allowed model that is eligible where it is not.
pub replaced : List String → List String → String → Routed String
replaced eligible allowed model =
    if contains eligible model then ok model else or_replacement (find (contains eligible) allowed)

pub record PolicyResult : Type 0 where
  pub model : String
  pub effort : Effort
  pub rule : String
  pub route : Option String
  pub plan : List PlanEntry
  pub reordered : Bool
  pub protected : Bool

module _ ⦃f : Float⦄ where
  pub apply_guards :
      RouterConfig → AliasCfg → String → Effort → Features → List String → Routed Pair
  apply_guards config alias_cfg model effort features allowed = do
    eligible ← eligible_models config alias_cfg features
    chosen ← replaced eligible allowed model
    adjusted ← constrained_effort config alias_cfg features.client chosen effort
    ok (chosen, adjusted)

  pub guard_candidate : RouterConfig → AliasCfg → Features → String → Effort → Routed Pair
  guard_candidate config alias_cfg features model effort = do
    allowed ← eligible_models config alias_cfg features
    apply_guards config alias_cfg model effort features allowed

  unfoldable pub plan_entry : RouterConfig → Pair → Bool → PlanEntry
  plan_entry config p equivalent = record {
    model = p.0;
    effort = p.1;
    provider = provider_of config p.0;
    equivalent = equivalent;
  }

  -- The entries after the first, those left out that are not allowed, do not fit or are in the
  -- plan already.
  pub plan_rest :
      RouterConfig
      → AliasCfg
      → Features
      → List String
      → List Pair
      → List RouteEntry
      → Routed (List PlanEntry)
  plan_rest config alias_cfg features allowed seen [] = ok []
  plan_rest config alias_cfg features allowed seen (e ∷ es) =
      if not (contains allowed e.model) || not (fits config e.model features)
      then plan_rest config alias_cfg features allowed seen es
      else (apply_guards config alias_cfg e.model e.effort features allowed >>= λ p.
          if seen_in seen p
          then plan_rest config alias_cfg features allowed seen es
          else (plan_rest config alias_cfg features allowed (p ∷ seen) es >>= λ rest.
              ok (plan_entry config p e.equivalent ∷ rest)))

  pub plan_entries :
      RouterConfig → AliasCfg → Features → List String → List RouteEntry → Routed (List PlanEntry)
  plan_entries config alias_cfg features allowed [] = err (key_error "entries")
  plan_entries config alias_cfg features allowed (e ∷ es) = do
    p ← apply_guards config alias_cfg e.model e.effort features allowed
    rest ← plan_rest config alias_cfg features allowed (p ∷ []) es
    ok (plan_entry config p e.equivalent ∷ rest)

  is_named : Option String → Pressures → Bool
  is_named (some name) (p ∷ ps) = not (str_eq name "")
  is_named _ _ = false

  -- `if route_name and live`
  reorder : RouterConfig → List RouteEntry → Option String → Pressures → List RouteEntry × Bool
  reorder config es route_name live =
      if is_named route_name live then order_entries config es live else (es, false)

  result_of : Pick → Option String → Bool → List PlanEntry → Routed PolicyResult
  result_of pick route_name reordered [] = err (key_error "entries")
  result_of pick route_name reordered (first ∷ rest) = ok (record {
    model = first.model;
    effort = first.effort;
    rule = pick.name;
    route = route_name;
    plan = first ∷ rest;
    reordered = reordered;
    protected = pick.protected;
  })

  checked_effort : RouterConfig → AliasCfg → Features → PlanEntry → Bool → Routed (Unit {0})
  checked_effort config alias_cfg features e false = err entry_not_eligible
  checked_effort config alias_cfg features e true =
      constrained_effort config alias_cfg features.client e.model e.effort >>= λ adjusted.
      if opt_eq e.effort adjusted then ok tt else err effort_violates

  -- The last check before the request is sent.
  pub validate_entry : RouterConfig → AliasCfg → Features → PlanEntry → Routed (Unit {0})
  validate_entry config alias_cfg features e = do
    eligible ← eligible_models config alias_cfg features
    checked_effort config alias_cfg features e (contains eligible e.model)

  pub planned :
      RouterConfig
      → AliasCfg
      → Pick
      → Features
      → Pressures
      → List RouteEntry × Option String
      → Routed PolicyResult
  planned config alias_cfg pick features live (es, route_name) = do
    let moved = reorder config es route_name live
    allowed ← eligible_models config alias_cfg features
    plan ← plan_entries config alias_cfg features allowed moved.0
    result_of pick route_name moved.1 plan

  -- A result from a route's entries: each is guarded, and the first is the choice.
  pub finalize : RouterConfig → AliasCfg → Pick → Features → Pressures → Routed PolicyResult
  finalize config alias_cfg pick features pressures =
      planned config alias_cfg pick features (live_pressures config pressures)
        (resolve_use config pick.use_route)

-- What a test opens to run the functions of this file.
unfoldable pub finalize_run : Unit {0}
unfolding as_pair same_pair seen_in or_replacement replaced apply_guards guard_candidate plan_entry
    plan_rest plan_entries checked_effort validate_entry is_named reorder result_of planned finalize
    eligible_run efforts_run routes_run find
finalize_run = tt
