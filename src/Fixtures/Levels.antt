-- ===== src/Fixtures/Levels.antt =====
-- No level of the small configuration is the empty text.
use mathlib.Core.List.{Memᴰ}
use jev_router.Common.{
  ◌≡◌, refl, false, String, str_eq, List, [], ◌∷◌, All, All-of_Memᴰ, lookup-All,
}
use jev_router.Fixtures.{fixed}
use jev_router.Fixtures.Pool.{config}
use jev_router.Config.Router.{ModelCfg}
use jev_router.Policy.Finalize.Plan.{NamedLevels}

levels_named :
    (es : List String)
    → All (λ e. str_eq e "" ≡ false) es
    → (e : String) → Memᴰ e es
    → str_eq e "" ≡ false
levels_named es h e m = All-of_Memᴰ (λ z. str_eq z "" ≡ false) es e h m

pub named : NamedLevels config
named model m found =
    lookup-All (λ (m : ModelCfg). (e : String) → Memᴰ e m.efforts → str_eq e "" ≡ false) model
      config.models m
      (
        levels_named ("low" ∷ "high" ∷ []) (refl, (refl, tt)),
        (
          levels_named ("low" ∷ "medium" ∷ "high" ∷ []) (refl, (refl, (refl, tt))),
          (levels_named ("low" ∷ "high" ∷ []) (refl, (refl, tt)), tt),
        ),
      )
      found
