-- ===== src/Policy/Eligible/Partition.antt =====
-- The permitted models are either eligible or excluded (src/jev_router/policy.py).
use mathlib.Core.List.{Memᴰ}
use mathlib.Core.Bool.{false≢true}
use jev_router.Common.{
  ◌≡◌, ◌↔◌, ◌⊎◌, refl, sym, subst, ap, ◌∙◌, Bool, true, false, ◌&&◌, String, List, [], ◌∷◌, Option,
  none, some, ok, err, >>=-eq-ok, of_ok, arith, keep, keep-Memᴰ, Memᴰ-keep, lookup, Option-cases,
  inl, inr,
}
use jev_router.Common.Float.{Float}
use jev_router.Features.{Features}
use jev_router.Config.Router.{ModelCfg, AliasCfg, RouterConfig}
use jev_router.Policy.Failures.{Failure, Routed}
use jev_router.Policy.Efforts.{constrained_effort}
use jev_router.Policy.Eligible.{
  Exclusion, nonempty, is_ok, client_cfg, permits, pool, allowed_models, fits_model, fits, usable,
  eligible_models, exclusion_of, exclusion, note_exclusion, excluded_in, excluded_models,
}

nonempty-ok : (why : Failure) (ms ns : List String) → nonempty why ms ≡ ok ns → ms ≡ ns
unfolding nonempty
nonempty-ok why [] ns h = cc
nonempty-ok why (m ∷ ms) ns h = of_ok h

note_exclusion-Memᴰ :
    (x : String) (o : Option Exclusion) (rest : List (String × Exclusion)) (model : String)
    (why : Exclusion)
    → Memᴰ (model, why) (note_exclusion x o rest)
    → ((model ≡ x) × (o ≡ some why)) ⊎ Memᴰ (model, why) rest
unfolding note_exclusion
note_exclusion-Memᴰ x none rest model why m = inr m
note_exclusion-Memᴰ x (some w) rest model why (Memᴰ.head e) =
    inl (ap (λ (p : String × Exclusion). p.0) e, ap (λ (p : String × Exclusion). some p.1) (sym e))
note_exclusion-Memᴰ x (some w) rest model why (Memᴰ.tail m) = inr m

note_exclusion-tail :
    (x : String) (o : Option Exclusion) (rest : List (String × Exclusion)) (p : String × Exclusion)
    → Memᴰ p rest
    → Memᴰ p (note_exclusion x o rest)
unfolding note_exclusion
note_exclusion-tail x none rest p m = m
note_exclusion-tail x (some w) rest p m = Memᴰ.tail m

module _ ⦃f : Float⦄ (config : RouterConfig) (alias_cfg : AliasCfg) (features : Features) where
  -- A model of the pool that the client permits and that the request can use.
  pub accepts : String → Bool
  accepts model =
      permits (client_cfg config features.client) model && usable config alias_cfg features model

  pub eligible_models-keep :
      (ms : List String)
      → eligible_models config alias_cfg features ≡ ok ms
      → ms
        ≡ keep
            (usable config alias_cfg features)
            (keep (permits (client_cfg config features.client)) (pool config alias_cfg))
  unfolding eligible_models allowed_models
  eligible_models-keep ms h =
      let allowed = keep (permits (client_cfg config features.client)) (pool config alias_cfg) in
      let (ns, found, rest) = >>=-eq-ok (nonempty _ allowed) _ h in
      sym (nonempty-ok _ _ ms rest)
      ∙ ap (keep (usable config alias_cfg features)) (sym (nonempty-ok _ allowed ns found))

  module _ (model : String) where
    exclusion_of-usable :
        (o : Option ModelCfg) (permitted : Bool) (effort : Routed (Option String))
        → (exclusion_of features permitted effort o ≡ none
            → (permitted && (fits_model features o && is_ok effort)) ≡ true)
          × ((e : Exclusion)
              → exclusion_of features permitted effort o ≡ some e
              → (permitted && (fits_model features o && is_ok effort)) ≡ false)
    unfolding exclusion_of fits_model is_ok
    exclusion_of-usable none permitted (ok x) = (λ h. cc, λ e h. ground arith)
    exclusion_of-usable none permitted (err x) = (λ h. cc, λ e h. ground arith)
    exclusion_of-usable (some m) permitted (ok x) = (λ h. ground arith, λ e h. ground arith)
    exclusion_of-usable (some m) permitted (err x) = (λ h. ground arith, λ e h. ground arith)

  -- The eligible models are those of the alias's pool that the client permits and that the
  -- request can use.
  pub eligible_models-Memᴰ :
      (ms : List String) (model : String)
      → eligible_models config alias_cfg features ≡ ok ms
      → Memᴰ model ms ↔ (Memᴰ model (pool config alias_cfg) × (accepts model ≡ true))
  unfolding accepts
  eligible_models-Memᴰ ms model h =
      let e = eligible_models-keep ms h in
      let permitted = permits (client_cfg config features.client) in
      let p = pool config alias_cfg in
      (
        λ m.
            let (k, u) =
              Memᴰ-keep (usable config alias_cfg features) (keep permitted p) model
                (subst (λ l. Memᴰ model l) e m) in
            let (there, ok') = Memᴰ-keep permitted p model k in (there, ground arith),
        λ m.
            subst (λ l. Memᴰ model l) (sym e)
              (keep-Memᴰ (usable config alias_cfg features) (keep permitted p) model
                (keep-Memᴰ permitted p model m.0 (ground arith)) (ground arith)),
      )

  exclusion-none :
      (model : String) → exclusion config alias_cfg features model ≡ none → accepts model ≡ true
  unfolding exclusion accepts usable fits
  exclusion-none model h =
      (exclusion_of-usable model (lookup model config.models)
          (permits (client_cfg config features.client) model)
          (constrained_effort config alias_cfg features.client model none)).0
        h

  exclusion-some :
      (model : String) (why : Exclusion)
      → exclusion config alias_cfg features model ≡ some why
      → accepts model ≡ false
  unfolding exclusion accepts usable fits
  exclusion-some model why h =
      (exclusion_of-usable model (lookup model config.models)
          (permits (client_cfg config features.client) model)
          (constrained_effort config alias_cfg features.client model none)).1
        why h

  excluded_in-Memᴰ :
      (ms : List String) (model : String) (why : Exclusion)
      → Memᴰ (model, why) (excluded_in config alias_cfg features ms)
      → exclusion config alias_cfg features model ≡ some why
  unfolding excluded_in
  excluded_in-Memᴰ [] model why m = elim m [ ]
  excluded_in-Memᴰ (x ∷ xs) model why m =
      elim (note_exclusion-Memᴰ x (exclusion config alias_cfg features x) _ model why m) [
        | inl (same, here) ↦ ap (exclusion config alias_cfg features) same ∙ here
        | inr later ↦ excluded_in-Memᴰ xs model why later
      ]

  Memᴰ-excluded_in :
      (ms : List String) (model : String) (why : Exclusion)
      → Memᴰ model ms
      → exclusion config alias_cfg features model ≡ some why
      → Memᴰ (model, why) (excluded_in config alias_cfg features ms)
  unfolding excluded_in note_exclusion
  Memᴰ-excluded_in [] model why m h = elim m [ ]
  Memᴰ-excluded_in (x ∷ xs) model why (Memᴰ.head e) h = rw (← e, h) (Memᴰ.head refl)
  Memᴰ-excluded_in (x ∷ xs) model why (Memᴰ.tail m) h =
      note_exclusion-tail x (exclusion config alias_cfg features x) _ (model, why)
        (Memᴰ-excluded_in xs model why m h)

  -- Every model of the alias's pool is eligible and not excluded, or excluded, with the first
  -- reason that applies, and not eligible.
  pub eligible_models-partition :
      (ms : List String) (model : String)
      → eligible_models config alias_cfg features ≡ ok ms
      → Memᴰ model (pool config alias_cfg)
      → (Memᴰ model ms
          × ((why : Exclusion) → ¬ Memᴰ (model, why) (excluded_models config alias_cfg features)))
        ⊎ ((why : Exclusion) × Memᴰ (model, why) (excluded_models config alias_cfg features)
            × ¬ Memᴰ model ms)
  unfolding excluded_models
  eligible_models-partition ms model h there =
      elim (Option-cases (exclusion config alias_cfg features model)) [
        | inl free ↦ inl (
          (eligible_models-Memᴰ ms model h).1 (there, exclusion-none model free),
          λ why m. cc (free, excluded_in-Memᴰ (pool config alias_cfg) model why m),
        )
        | inr (why, barred) ↦ inr (
          why,
          Memᴰ-excluded_in (pool config alias_cfg) model why there barred,
          λ m.
              false≢true
                (sym (exclusion-some model why barred) ∙ ((eligible_models-Memᴰ ms model h).0 m).1),
        )
      ]
