-- ===== src/Policy/Eligible/Tests.antt =====
-- Requests whose models are chosen, and the theorems of efforts and eligibility at them.
use mathlib.Core.List.{Memᴰ}
use jev_router.Common.{◌≡◌, ◌⊎◌, refl, ap, of_some, true, false, String, str_eq, [], ◌∷◌, some, ok}
use jev_router.Config.Router.{ModelCfg}
use jev_router.Fixtures.{fixed}
use jev_router.Fixtures.Pool.{config, strict_alias, request, fast}
use jev_router.Policy.Efforts.{
  efforts_run, constrained_effort, clamp_effort, at_least, at_most, client_floor,
}
use jev_router.Policy.Efforts.Bounds.{constrained_effort-in_bounds}
use jev_router.Policy.Efforts.Stable.{constrained_effort-stable}
use jev_router.Policy.Eligible.{
  Exclusion, eligible_run, over_window, eligible_models, excluded_models,
}
use jev_router.Policy.Eligible.Partition.{eligible_models-partition}

-- The fast model is over its window.
eligible_example : eligible_models config strict_alias request ≡ ok ("big" ∷ "wide" ∷ [])
unfolding eligible_run
eligible_example = refl

excluded_example : excluded_models config strict_alias request ≡ ("fast", over_window) ∷ []
unfolding eligible_run
excluded_example = refl

-- The client's floor is `medium`, which `wide` does not offer.
effort_example : constrained_effort config strict_alias "ide" "wide" (some "low") ≡ ok (some "high")
unfolding efforts_run
effort_example = refl

clamp_example : clamp_effort config "wide" (some "medium") ≡ some "low"
unfolding efforts_run
clamp_example = refl

constrained_effort-in_bounds_example :
    Memᴰ "high" fast.efforts
    × (at_least config.settings.effort_order (client_floor config "ide") "high" ≡ true)
    × (at_most config.settings.effort_order strict_alias.max_effort "high" ≡ true)
unfolding efforts_run
constrained_effort-in_bounds_example =
    constrained_effort-in_bounds config strict_alias "ide" "fast" (some "low") fast "high" refl refl

fast_levels : (e : String) → Memᴰ e ("low" ∷ "high" ∷ []) → str_eq e "" ≡ false
fast_levels e (Memᴰ.head h) = rw h
fast_levels e (Memᴰ.tail (Memᴰ.head h)) = rw h
fast_levels e (Memᴰ.tail (Memᴰ.tail m)) = elim m [ ]

constrained_effort-stable_example :
    constrained_effort config strict_alias "ide" "fast" (some "high") ≡ ok (some "high")
unfolding efforts_run
constrained_effort-stable_example =
    constrained_effort-stable config strict_alias "ide" "fast" (some "low") (some "high")
      (λ m found e there.
        fast_levels e (rw (← ap (λ (x : ModelCfg). x.efforts) (of_some found)) at there))
      refl

eligible_models-partition_example :
    (Memᴰ {A = String} "fast" ("big" ∷ "wide" ∷ [])
      × ((why : Exclusion) → ¬ Memᴰ ("fast", why) (excluded_models config strict_alias request)))
    ⊎ ((why : Exclusion) × Memᴰ ("fast", why) (excluded_models config strict_alias request)
        × ¬ Memᴰ {A = String} "fast" ("big" ∷ "wide" ∷ []))
unfolding eligible_run
eligible_models-partition_example =
    eligible_models-partition config strict_alias request ("big" ∷ "wide" ∷ []) "fast" refl
      (Memᴰ.head refl)
