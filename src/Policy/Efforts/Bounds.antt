-- ===== src/Policy/Efforts/Bounds.antt =====
-- A constrained effort stands on the model's ladder, within the client's floor and the alias's cap
-- (`constrained_effort` of src/jev_router/policy.py).
use mathlib.Core.List.{Memᴰ}
use jev_router.Common.{
  ◌≡◌, refl, sym, subst, Bool, true, String, List, [], ◌∷◌, none, some, ok, arith, keep, lookup,
  Memᴰ-keep, Bool-cases, of_some, of_ok, leb, inl, inr,
}
use jev_router.Common.Float.{Float}
use jev_router.Config.Routes.{Effort, or_else}
use jev_router.Config.Router.{ModelCfg, AliasCfg, RouterConfig}
use jev_router.Policy.Efforts.{
  rank, best_by, higher, lower, highest_or, choose_level, level_for, level_in, in_bounds, at_least,
  at_most, constrain, constrain_model, constrained_effort, client_floor,
}

pub best_by-Memᴰ :
    (better : String → String → Bool) (b : String) (xs : List String)
    → Memᴰ (best_by better b xs) (b ∷ xs)
unfolding best_by
best_by-Memᴰ better b [] = Memᴰ.head refl
best_by-Memᴰ better b (x ∷ xs) = elim (Bool-cases (better x b)) [
  | inl yes' ↦ rw yes' (Memᴰ.tail (best_by-Memᴰ better x xs))
  | inr no' ↦ rw no' (skip (best_by-Memᴰ better b xs))
]
  where
    skip : {z : String} → Memᴰ z (b ∷ xs) → Memᴰ z (b ∷ x ∷ xs)
    skip (Memᴰ.head e) = Memᴰ.head e
    skip (Memᴰ.tail m) = Memᴰ.tail (Memᴰ.tail m)

module _ (order : List String) (l : String) (ls : List String) where
  pub choose_level-Memᴰ : (want : String) → Memᴰ (choose_level order l ls want) (l ∷ ls)
  unfolding choose_level
  choose_level-Memᴰ want = by (keep (λ e. leb (rank order e) (rank order want)) (l ∷ ls)) refl
    where
      by :
          (low : List String)
          → keep (λ e. leb (rank order e) (rank order want)) (l ∷ ls) ≡ low
          → Memᴰ (highest_or order l ls low) (l ∷ ls)
      by [] e = unfold highest_or in best_by-Memᴰ (lower order) l ls
      by (x ∷ xs) e =
          unfold highest_or in
          (Memᴰ-keep (λ z. leb (rank order z) (rank order want)) (l ∷ ls) _
            (subst (λ low. Memᴰ (best_by (higher order) x xs) low) (sym e)
              (best_by-Memᴰ (higher order) x xs))).0

  level_for-Memᴰ :
      (want cap : Effort) (e : String) → level_for order want cap l ls ≡ some e → Memᴰ e (l ∷ ls)
  unfolding level_for
  level_for-Memᴰ none none e h = cc
  level_for-Memᴰ none (some cap) e h =
      subst (λ z. Memᴰ z (l ∷ ls)) (of_some h) (choose_level-Memᴰ _)
  level_for-Memᴰ (some w) none e h = subst (λ z. Memᴰ z (l ∷ ls)) (of_some h) (choose_level-Memᴰ _)
  level_for-Memᴰ (some w) (some cap) e h =
      subst (λ z. Memᴰ z (l ∷ ls)) (of_some h) (choose_level-Memᴰ _)

level_in-Memᴰ :
    (order : List String) (want cap : Effort) (levels : List String) (e : String)
    → level_in order want cap levels ≡ ok (some e)
    → Memᴰ e levels
unfolding level_in
level_in-Memᴰ order want cap [] e h = cc
level_in-Memᴰ order want cap (l ∷ ls) e h = level_for-Memᴰ order l ls want cap e (of_ok h)

module _ ⦃f : Float⦄ where
  constrain-Memᴰ :
      (order : List String) (floor cap : Effort) (m : ModelCfg) (effort : Effort) (e : String)
      → constrain order floor cap m effort ≡ ok (some e)
      → Memᴰ e (keep (in_bounds order floor cap) m.efforts)
  unfolding constrain
  constrain-Memᴰ order floor cap m effort e h =
      level_in-Memᴰ order (or_else (or_else effort m.default_effort) floor) cap
        (keep (in_bounds order floor cap) m.efforts) e (ground arith)

  -- An effort that a request is sent with is one of the model's own, is no weaker than the
  -- client's minimum and no stronger than the alias's maximum, in the configured order.
  pub constrained_effort-in_bounds :
      (config : RouterConfig) (alias_cfg : AliasCfg) (client model : String) (effort : Effort)
      (m : ModelCfg) (e : String)
      → lookup model config.models ≡ some m
      → constrained_effort config alias_cfg client model effort ≡ ok (some e)
      → Memᴰ e m.efforts
        × (at_least config.settings.effort_order (client_floor config client) e ≡ true)
        × (at_most config.settings.effort_order alias_cfg.max_effort e ≡ true)
  unfolding constrained_effort constrain_model
  constrained_effort-in_bounds config alias_cfg client model effort m e found h =
      let order = config.settings.effort_order in
      let floor = client_floor config client in
      let cap = alias_cfg.max_effort in
      let (there, fits) =
        Memᴰ-keep (in_bounds order floor cap) m.efforts e
          (constrain-Memᴰ order floor cap m effort e (rw (found, constrain_model) at h)) in
      (there, unfold in_bounds in ground arith, unfold in_bounds in ground arith)
