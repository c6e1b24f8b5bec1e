-- ===== src/Policy/Eligible/Levels.antt =====
-- The eligible models are at least one, and each has a level within its bounds (`eligible_models`
-- of src/jev_router/policy.py).
use mathlib.Core.List.{Memᴰ}
use jev_router.Common.{
  ◌≡◌, refl, sym, subst, Bool, true, false, ◌&&◌, String, List, [], ◌∷◌, none, ok, err, keep,
  Memᴰ-keep, >>=-eq-ok, of_ok,
}
use jev_router.Common.Float.{Float}
use jev_router.Features.{Features}
use jev_router.Config.Routes.{Effort}
use jev_router.Config.Router.{AliasCfg, RouterConfig}
use jev_router.Policy.Failures.{Failure, Routed}
use jev_router.Policy.Efforts.{constrained_effort}
use jev_router.Policy.Eligible.{
  nonempty, is_ok, client_cfg, permits, pool, allowed_models, fits, usable, eligible_models,
}
use jev_router.Policy.Eligible.Partition.{eligible_models-keep}

nonempty-head :
    (why : Failure) (ms ns : List String)
    → nonempty why ms ≡ ok ns
    → (x : String) × (xs : List String) × (ns ≡ x ∷ xs)
unfolding nonempty
nonempty-head why [] ns h = cc
nonempty-head why (x ∷ xs) ns h = (x, xs, sym (of_ok h))

is_ok-ok : {A : Type 0} (r : Routed A) → is_ok r ≡ true → (a : A) × (r ≡ ok a)
unfolding is_ok
is_ok-ok (ok a) h = (a, refl)
is_ok-ok (err e) h = cc

second : (a b : Bool) → (a && b) ≡ true → b ≡ true
second true b h = h
second false b h = cc

module _ ⦃f : Float⦄ (config : RouterConfig) (alias_cfg : AliasCfg) (features : Features) where
  pub eligible_models-head :
      (ms : List String)
      → eligible_models config alias_cfg features ≡ ok ms
      → (x : String) × (xs : List String) × (ms ≡ x ∷ xs)
  unfolding eligible_models
  eligible_models-head ms h =
      let (allowed, found, rest) = >>=-eq-ok (allowed_models config alias_cfg features) _ h in
      nonempty-head _ (keep (usable config alias_cfg features) allowed) ms rest

  pub eligible_models-level :
      (ms : List String) (model : String)
      → eligible_models config alias_cfg features ≡ ok ms
      → Memᴰ model ms
      → (r : Effort) × (constrained_effort config alias_cfg features.client model none ≡ ok r)
  unfolding usable
  eligible_models-level ms model h m =
      let (there, fit) =
        Memᴰ-keep (usable config alias_cfg features)
          (keep (permits (client_cfg config features.client)) (pool config alias_cfg)) model
          (subst (λ l. Memᴰ model l) (eligible_models-keep config alias_cfg features ms h) m) in
      is_ok-ok (constrained_effort config alias_cfg features.client model none)
        (second (fits config model features) _ fit)
