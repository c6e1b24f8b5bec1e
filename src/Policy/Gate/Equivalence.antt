-- ===== src/Policy/Gate/Equivalence.antt =====
-- The gate's exception for an answer whose labels all route the same way (`_action_equivalent` of
-- src/jev_router/policy.py).
use mathlib.Core.List.{Memᴰ}
use jev_router.Common.{
  Bool, true, false, ◌&&◌, String, str_eq_iff, List, [], ◌∷◌, map, Option, none, some, ◌≡◌, refl,
  sym, ap, ◌∙◌, opt_eq, every, length, leb, leb→le, ◌≤◌, subst,
}
use jev_router.Common.Float.{Float}
use jev_router.Features.{Features}
use jev_router.Config.Conditions.{Value}
use jev_router.Config.Routes.{Route}
use jev_router.Config.Router.{Ruleset, RouterConfig, LowConfidence}
use jev_router.Policy.Answers.{Answer, Answers}
use jev_router.Policy.Match.{Pressures}
use jev_router.Policy.Gate.{
  action_equivalent, candidate_labels, substituted, route_with, same_route, one_route,
}

opt_eq→≡ : (a b : Option String) → opt_eq a b ≡ true → a ≡ b
unfolding opt_eq
opt_eq→≡ none none h = refl
opt_eq→≡ none (some b) h = cc
opt_eq→≡ (some a) none h = cc
opt_eq→≡ (some a) (some b) h = ap some ((str_eq_iff a b).0 h)

both : (a b : Bool) → (a && b) ≡ true → (a ≡ true) × (b ≡ true)
both true b h = (refl, h)
both false b h = cc

-- The same place to send the request to.
abbrev pub Alike : Route → Route → Type 0
Alike r s = (r.route ≡ s.route) × (r.model ≡ s.model) × (r.effort ≡ s.effort)

same_route-Alike : (r s : Route) → same_route r s ≡ true → Alike r s
unfolding same_route
same_route-Alike r s h =
    let parts =
      both (opt_eq r.route s.route && opt_eq r.model s.model) (opt_eq r.effort s.effort) h in
    let first = both (opt_eq r.route s.route) (opt_eq r.model s.model) parts.0 in
    (
      opt_eq→≡ r.route s.route first.0,
      opt_eq→≡ r.model s.model first.1,
      opt_eq→≡ r.effort s.effort parts.1,
    )

every-Memᴰ {ℓ} :
    {A : Type ℓ} (p : A → Bool) (xs : List A) (x : A) → every p xs ≡ true → Memᴰ x xs → p x ≡ true
unfolding every
every-Memᴰ p [] x h m = elim m [ ]
every-Memᴰ p (y ∷ ys) x h (Memᴰ.head e) = ap p e ∙ (both (p y) (every p ys) h).0
every-Memᴰ p (y ∷ ys) x h (Memᴰ.tail m) = every-Memᴰ p ys x (both (p y) (every p ys) h).1 m

Alike-sym : {r s : Route} → Alike r s → Alike s r
Alike-sym h = (sym h.0, sym h.1, sym h.2)

Alike-trans : {r s t : Route} → Alike r s → Alike s t → Alike r t
Alike-trans h k = (h.0 ∙ k.0, h.1 ∙ k.1, h.2 ∙ k.2)

Alike-refl : (r : Route) → Alike r r
Alike-refl r = (refl, refl, refl)

one_route-head :
    (r : Route) (rs : List Route) (s : Route)
    → one_route (r ∷ rs) ≡ true
    → Memᴰ s (r ∷ rs)
    → Alike r s
unfolding one_route
one_route-head r rs s h (Memᴰ.head e) = subst (Alike r) (sym e) (Alike-refl r)
one_route-head r rs s h (Memᴰ.tail m) = same_route-Alike r s (every-Memᴰ (same_route r) rs s h m)

one_route-Alike :
    (rs : List Route) (s t : Route) → one_route rs ≡ true → Memᴰ s rs → Memᴰ t rs → Alike s t
one_route-Alike [] s t h m n = elim m [ ]
one_route-Alike (r ∷ rs) s t h m n =
    Alike-trans (Alike-sym (one_route-head r rs s h m)) (one_route-head r rs t h n)

Memᴰ-map {ℓ κ} :
    {A : Type ℓ} {B : Type κ} (g : A → B) (xs : List A) (x : A) → Memᴰ x xs → Memᴰ (g x) (map g xs)
Memᴰ-map g [] x m = elim m [ ]
Memᴰ-map g (y ∷ ys) x (Memᴰ.head e) = Memᴰ.head (ap g e)
Memᴰ-map g (y ∷ ys) x (Memᴰ.tail m) = Memᴰ.tail (Memᴰ-map g ys x m)

module _ ⦃f : Float⦄ where
  -- Where the gate lets an unsure answer pass as action equivalent, the answer is torn between at
  -- least two labels, and whichever two of them stand in its place, the rules choose the same
  -- route, model and effort.
  pub action_equivalent-Alike :
      (config : RouterConfig) (rs : Ruleset) (answers : Answers) (features : Features)
      (pressures : Pressures) (qid : String) (a : Answer) (lc : LowConfidence)
      (running : List String) (v w : Value)
      → action_equivalent config rs answers features pressures qid a lc running ≡ true
      → Memᴰ v (candidate_labels a lc.equivalence_min_mass)
      → Memᴰ w (candidate_labels a lc.equivalence_min_mass)
      → (2 ≤ length (candidate_labels a lc.equivalence_min_mass))
        × Alike
            (route_with config rs answers features pressures running (substituted answers qid a v))
            (route_with config rs answers features pressures running (substituted answers qid a w))
  unfolding action_equivalent
  action_equivalent-Alike config rs answers features pressures qid a lc running v w h m n =
      let values = candidate_labels a lc.equivalence_min_mass in
      let route = λ (u : Value).
        route_with config rs answers features pressures running (substituted answers qid a u) in
      let parts = both (leb 2 (length values)) (one_route (map route values)) h in
      (
        leb→le 2 (length values) parts.0,
        one_route-Alike (map route values) (route v) (route w) parts.1 (Memᴰ-map route values v m)
            (Memᴰ-map route values w n),
      )
