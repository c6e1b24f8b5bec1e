-- ===== src/Policy/Efforts/Stable.antt =====
-- Constraining an effort twice gives what constraining it once gives (`constrained_effort` of
-- src/jev_router/policy.py), so that a planned entry passes the check before it is sent.
pub mod Choice
use mathlib.Core.List.{Memᴰ}
use jev_router.Common.{
  ℕ, ◌≤◌, ◌≡◌, ◌≢◌, refl, sym, ap, subst, ◌∙◌, Bool, true, false, String, str_eq, str_eq_iff, List,
  [], ◌∷◌, Option, none, some, ok, err, of_ok, of_some, arith, keep, keep-congr, keep-All,
  keep-Memᴰ, Memᴰ-keep, lookup, All, All-map, All-Memᴰ, All-of_Memᴰ, Bool-cases, inl, inr, leb,
  leb→le, le→leb, if◌then◌else◌,
}
use jev_router.Common.Float.{Float}
use jev_router.Config.Routes.{Effort, or_else}
use jev_router.Config.Router.{ModelCfg, AliasCfg, RouterConfig}
use jev_router.Policy.Efforts.{
  rank, best_by, higher, lower, highest_or, choose_level, level_for, level_in, constrain,
  constrain_model, constrained_effort, in_bounds,
}
use jev_router.Policy.Efforts.Bounds.{best_by-Memᴰ, choose_level-Memᴰ}
use jev_router.Policy.Efforts.Stable.Choice.{choose_level-stable}

-- A level is the choice for some wish.
level_for-chosen :
    (order : List String) (l : String) (ls : List String) (want cap : Effort) (e : String)
    → level_for order want cap l ls ≡ some e
    → (w : String) × (choose_level order l ls w ≡ e)
unfolding level_for
level_for-chosen order l ls none none e h = cc
level_for-chosen order l ls none (some cap) e h = (_, of_some h)
level_for-chosen order l ls (some w) none e h = (_, of_some h)
level_for-chosen order l ls (some w) (some cap) e h = (_, of_some h)

level_for-some :
    (order : List String) (l : String) (ls : List String) (cap : Effort) (e : String)
    → str_eq e "" ≡ false
    → level_for order (some e) cap l ls ≡ some (choose_level order l ls e)
unfolding level_for
level_for-some order l ls none e h =
    ap (λ (b : Bool). some (choose_level order l ls (if b then l else e))) h
level_for-some order l ls (some c) e h =
    ap
      (λ (b : Bool).
        some (choose_level order l ls (if b then (if str_eq c "" then l else c) else e)))
      h

level_for-none :
    (order : List String) (l : String) (ls : List String) (want cap : Effort)
    → level_for order want cap l ls ≡ none
    → (want ≡ none) × (cap ≡ none)
unfolding level_for
level_for-none order l ls none none h = (refl, refl)
level_for-none order l ls none (some cap) h = cc
level_for-none order l ls (some w) none h = cc
level_for-none order l ls (some w) (some cap) h = cc

or_else-none :
    (effort default floor : Effort)
    → or_else (or_else effort default) floor ≡ none
    → or_else (or_else none default) floor ≡ none
unfolding or_else
or_else-none none default floor h = h
or_else-none (some a) default floor h = ground arith

or_else-some :
    (e : String) (default floor : Effort)
    → str_eq e "" ≡ false
    → or_else (or_else (some e) default) floor ≡ some e
unfolding or_else
or_else-some e default floor h = rw h (rw h)

module _ (order : List String) (cap default floor effort : Effort) where
  level_in-stable :
      (levels : List String) (r : Effort)
      → ((e : String) → Memᴰ e levels → str_eq e "" ≡ false)
      → level_in order (or_else (or_else effort default) floor) cap levels ≡ ok r
      → level_in order (or_else (or_else r default) floor) cap levels ≡ ok r
  unfolding level_in
  level_in-stable [] r named h = cc
  level_in-stable (l ∷ ls) none named h =
      let (bare, no_cap) = level_for-none order l ls _ cap (of_ok h) in
      ap ok (
        ap (λ w. level_for order w cap l ls) (or_else-none effort default floor bare ∙ sym bare)
        ∙ of_ok h)
  level_in-stable (l ∷ ls) (some e) named h =
      let (w, chosen) = level_for-chosen order l ls _ cap e (of_ok h) in
      let there = subst (λ z. Memᴰ z (l ∷ ls)) chosen (choose_level-Memᴰ order l ls w) in
      let e_named = named e there in
      ap ok (
        ap (λ v. level_for order v cap l ls) (or_else-some e default floor e_named)
        ∙ level_for-some order l ls cap e e_named
        ∙ ap some
            (subst (λ z. choose_level order l ls z ≡ z) chosen (choose_level-stable order l ls w)))

module _ ⦃f : Float⦄ where
  constrain-stable :
      (order : List String) (floor cap : Effort) (m : ModelCfg) (effort r : Effort)
      → ((e : String) → Memᴰ e m.efforts → str_eq e "" ≡ false)
      → constrain order floor cap m effort ≡ ok r
      → constrain order floor cap m r ≡ ok r
  unfolding constrain
  constrain-stable order floor cap m effort r named h = ground (
    arith,
    level_in-stable order cap m.default_effort floor effort
        (keep (in_bounds order floor cap) m.efforts) r
        (λ e there. named e (Memᴰ-keep (in_bounds order floor cap) m.efforts e there).0),
  )

  constrain_model-stable :
      (config : RouterConfig) (alias_cfg : AliasCfg) (client model : String) (effort r : Effort)
      (o : Option ModelCfg)
      → ((m : ModelCfg) → o ≡ some m → (e : String) → Memᴰ e m.efforts → str_eq e "" ≡ false)
      → constrain_model config alias_cfg client model effort o ≡ ok r
      → constrain_model config alias_cfg client model r o ≡ ok r
  unfolding constrain_model
  constrain_model-stable config alias_cfg client model effort r none named h = cc
  constrain_model-stable config alias_cfg client model effort r (some m) named h =
      constrain-stable _ _ alias_cfg.max_effort m effort r (named m refl) h

  -- An effort that `constrained_effort` gave for a model is left as it is, by the same bounds,
  -- where no level of the model's ladder is the empty text.
  pub constrained_effort-stable :
      (config : RouterConfig) (alias_cfg : AliasCfg) (client model : String) (effort r : Effort)
      → ((m : ModelCfg)
          → lookup model config.models ≡ some m
          → (e : String) → Memᴰ e m.efforts
          → str_eq e "" ≡ false)
      → constrained_effort config alias_cfg client model effort ≡ ok r
      → constrained_effort config alias_cfg client model r ≡ ok r
  unfolding constrained_effort
  constrained_effort-stable config alias_cfg client model effort r named h =
      constrain_model-stable config alias_cfg client model effort r (lookup model config.models)
        named h
