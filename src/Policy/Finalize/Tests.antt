-- ===== src/Policy/Finalize/Tests.antt =====
-- Plans of the small router, and their theorems at them.
use jev_router.Common.{◌≡◌, refl, Bool, true, false, String, [], ◌∷◌, some, ok, All}
use jev_router.Config.Routes.{RouteEntry}
use jev_router.Fixtures.{fixed}
use jev_router.Fixtures.Levels.{named}
use jev_router.Fixtures.Pool.{config, strict_alias, request, hard_rule}
use jev_router.Policy.Match.{Pressures}
use jev_router.Policy.Rules.{Pick}
use jev_router.Policy.Routes.{order_entries, routes_run}
use jev_router.Policy.Finalize.{PolicyResult, finalize, finalize_run}
use jev_router.Policy.Finalize.Total.{Returns, finalize-Returns}
use jev_router.Policy.Finalize.Plan.{Valid, Distinct, Leads, finalize-Valid}

abbrev entry : String → Bool → RouteEntry
entry model equivalent = record { model = model; effort = some "high"; equivalent = equivalent }

-- Both of `p`'s models are hot; `wide` is equivalent to the primary, on a healthy provider.
abbrev busy : Pressures
busy = ("p", 9000) ∷ []

order_example :
    (order_entries config (entry "big" false ∷ entry "wide" true ∷ entry "fast" false ∷ []) busy).0
    ≡ entry "wide" true ∷ entry "big" false ∷ entry "fast" false ∷ []
unfolding routes_run
order_example = refl

abbrev pick : Pick
pick = record { use_route = hard_rule.use_route; name = "hard"; protected = false }

-- The primary's provider is busy, and its equivalent takes over. `fast` is over its window.
abbrev result : PolicyResult
result = record {
  model = "wide";
  effort = some "high";
  rule = "hard";
  route = some "strong";
  plan =
      record { model = "wide"; effort = some "high"; provider = "q"; equivalent = true }
      ∷ record { model = "big"; effort = some "high"; provider = "p"; equivalent = false }
      ∷ [];
  reordered = true;
  protected = false;
}

finalize_example : finalize config strict_alias pick request busy ≡ ok result
unfolding finalize_run
finalize_example = refl

finalize-Valid_example :
    Leads config strict_alias request result
    × All (Valid config strict_alias request) result.plan
    × Distinct result.plan
unfolding finalize_run
finalize-Valid_example = finalize-Valid config strict_alias request pick busy result named refl

finalize-Returns_example : Returns (finalize config strict_alias pick request busy)
unfolding finalize_run
finalize-Returns_example =
    finalize-Returns config strict_alias request pick busy ("big" ∷ "wide" ∷ []) refl
