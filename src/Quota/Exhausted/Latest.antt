-- ===== src/Quota/Exhausted/Latest.antt =====
-- The window that resets last (`max` with its key in `exhausted_window` of
-- src/jev_router/quota.py).
use mathlib.Core.List.{Memᴰ}
use mathlib.Core.Bool.{true≢false}
use jev_router.Common.{
  ◌≡◌, ◌⊎◌, refl, sym, ap, ◌∙◌, subst, true, false, inl, inr, List, [], ◌∷◌, none, some, Bool-cases,
  of_some,
}
use jev_router.Common.Float.{Float, Number, ◌<<◌}
use jev_router.Quota.{QuotaWindow}
use jev_router.Quota.Exhausted.{reset_key, last_reset, latest}

module _ ⦃f : Float⦄ where
  -- `<` of floats, NaN included
  pub record StrictLaws : Type 0 where
    pub irreflexive : (a : Number) → (a << a) ≡ false
    pub transitive : (a b c : Number) → (a << b) ≡ true → (b << c) ≡ true → (a << c) ≡ true

  -- `max` over the windows
  module _ (laws : StrictLaws) where
    last_reset-beyond :
        (best : QuotaWindow) (ws : List QuotaWindow)
        → (last_reset best ws ≡ best) ⊎ ((reset_key best << reset_key (last_reset best ws)) ≡ true)
    unfolding last_reset
    last_reset-beyond best [] = inl refl
    last_reset-beyond best (w ∷ ws) = elim (Bool-cases (reset_key best << reset_key w)) [
      | inl later ↦ rw later (
          inr (elim (last_reset-beyond w ws) [
            | inl same ↦ rw same later
            | inr after ↦ laws.transitive (reset_key best) (reset_key w) _ later after
          ]))
      | inr not_later ↦ rw not_later (last_reset-beyond best ws)
    ]

    -- What is not after a window is not after the last one.
    not_after :
        (best w : QuotaWindow) (ws : List QuotaWindow)
        → (reset_key best << reset_key w) ≡ false
        → (reset_key (last_reset best ws) << reset_key w) ≡ false
    not_after best w ws past = elim (Bool-cases (reset_key (last_reset best ws) << reset_key w)) [
      | inr no_ ↦ no_
      | inl yes_ ↦ elim (last_reset-beyond best ws) [
        | inl same ↦ ap (λ x. reset_key x << reset_key w) same ∙ past
        | inr after ↦ absurd (
            true≢false (
              sym (
                laws.transitive (reset_key best) (reset_key (last_reset best ws)) (reset_key w)
                  after yes_)
              ∙ past))
      ]
    ]

    last_reset-last :
        (best : QuotaWindow) (ws : List QuotaWindow) (v : QuotaWindow)
        → Memᴰ v (best ∷ ws)
        → (reset_key (last_reset best ws) << reset_key v) ≡ false
    unfolding last_reset
    last_reset-last best ws v (Memᴰ.head e) =
        rw e (not_after best best ws (laws.irreflexive (reset_key best)))
    last_reset-last best [] v (Memᴰ.tail m) = elim m [ ]
    last_reset-last best (w ∷ ws) v (Memᴰ.tail m) =
        elim (Bool-cases (reset_key best << reset_key w)) [
          | inl later ↦ rw later (last_reset-last w ws v m)
          | inr past ↦ rw past (elim m [
            | Memᴰ.head e ↦ rw e (not_after best w ws past)
            | Memᴰ.tail t ↦ last_reset-last best ws v (Memᴰ.tail t)
          ])
        ]

    last_reset-Memᴰ :
        (best : QuotaWindow) (ws : List QuotaWindow) → Memᴰ (last_reset best ws) (best ∷ ws)
    unfolding last_reset
    last_reset-Memᴰ best [] = Memᴰ.head refl
    last_reset-Memᴰ best (w ∷ ws) = elim (Bool-cases (reset_key best << reset_key w)) [
      | inl later ↦ rw later (Memᴰ.tail (last_reset-Memᴰ w ws))
      | inr past ↦ rw past (elim (last_reset-Memᴰ best ws) [
        | Memᴰ.head e ↦ Memᴰ.head e
        | Memᴰ.tail m ↦ Memᴰ.tail (Memᴰ.tail m)
      ])
    ]

    pub latest-some :
        (ws : List QuotaWindow) (w : QuotaWindow)
        → latest ws ≡ some w
        → Memᴰ w ws × ((v : QuotaWindow) → Memᴰ v ws → (reset_key w << reset_key v) ≡ false)
    unfolding latest
    latest-some [] w h = cc
    latest-some (x ∷ xs) w h =
        subst
          (λ z.
            Memᴰ z (x ∷ xs)
            × ((v : QuotaWindow) → Memᴰ v (x ∷ xs) → (reset_key z << reset_key v) ≡ false))
          (of_some h) (last_reset-Memᴰ x xs, last_reset-last x xs)

    pub latest-none : (ws : List QuotaWindow) (v : QuotaWindow) → latest ws ≡ none → ¬ Memᴰ v ws
    unfolding latest
    latest-none [] v h m = elim m [ ]
    latest-none (x ∷ xs) v h m = cc
