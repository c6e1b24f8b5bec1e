-- ===== src/Policy/Budget/Fits.antt =====
-- What a check that fits promises.
use jev_router.Common.{
  ℕ, ◌+◌, ◌-◌, ◌≤◌, ◌≡◌, ◌↔◌, refl, Bool, true, false, String, List, [], ◌∷◌, Option, none, some,
  leb, leb→le, if◌then◌else◌, arith,
}
use jev_router.Common.Int.{ℤ, pos, negsuc, sub_ℕ}
use jev_router.Common.Float.{Float}
use jev_router.Deciders.{Json}
use jev_router.Policy.Budget.{
  Count, if_missing, bad_counts, or_zero, whole, reserve_tokens, ceiling, budget, checked, refused,
  BudgetCheck, context_budget,
}

none_missing :
    (w i o r : Option ℕ)
    → bad_counts w i o r ≡ []
    → (w ≡ some (or_zero w))
      × (i ≡ some (or_zero i))
      × (o ≡ some (or_zero o))
      × (r ≡ some (or_zero r))
unfolding bad_counts if_missing
none_missing (some w) (some i) (some o) (some r) h = (refl, refl, refl, refl)
none_missing none i o r h = cc
none_missing (some w) none o r h = cc
none_missing (some w) (some i) none r h = cc
none_missing (some w) (some i) (some o) none h = cc

-- 0 or more
pub IsCounted : ℤ → Type 0
IsCounted (pos n) = Unit
IsCounted (negsuc n) = ⊥

counted_if : (t : Bool) (n m : ℕ) → t ≡ true ↔ IsCounted (if t then pos n else negsuc m)
unfolding IsCounted
counted_if true n m = ((λ h. tt), (λ c. refl))
counted_if false n m = ((λ h. cc), (λ c. absurd c))

sub_ℕ-IsCounted : (a b : ℕ) → leb b a ≡ true ↔ IsCounted (sub_ℕ a b)
sub_ℕ-IsCounted a b = counted_if (leb b a) (a - b) (b - a - 1)

module _ ⦃f : Float⦄ where
  -- The law of floats that the margin needs: 95% of a count is no more than the count.
  unfoldable pub Shrinks : Type 0
  Shrinks = (n : ℕ) → f.trunc (f.mul (f.decimal n 0) (f.sub (f.decimal 1 0) (f.decimal 5 2))) ≤ n

  ceiling-le : Shrinks → (unknown : List String) (window : ℕ) → ceiling unknown window ≤ window
  unfolding ceiling Shrinks
  ceiling-le law [] window = omega arith
  ceiling-le law (u ∷ us) window = law window

  pub record Admitted (window inputs outputs requested : Json) (check : BudgetCheck) : Type 0 where
    pub window_whole : whole window ≡ some check.window
    pub inputs_whole : whole inputs ≡ some check.inputs
    pub outputs_whole : whole outputs ≡ some check.outputs
    pub requested_tokens : ℕ
    pub requested_whole : whole requested ≡ some requested_tokens
    pub room : check.inputs + check.outputs + check.reserve ≤ check.window
    pub least : 4096 ≤ check.reserve
    pub no_less : requested_tokens ≤ check.reserve
    pub counted : IsCounted check.headroom

  checked-Admitted :
      Shrinks
      → (window inputs outputs requested : Json) (method : String) (unknown : List String)
        (bad : List Count)
      → bad_counts (whole window) (whole inputs) (whole outputs) (whole requested) ≡ bad
      → (checked bad
          (whole window)
          (whole inputs)
          (whole outputs)
          (whole requested)
          method
          unknown).fits
        ≡ true
      → Admitted window inputs outputs requested (
          checked bad
            (whole window)
            (whole inputs)
            (whole outputs)
            (whole requested)
            method
            unknown)
  unfolding checked refused budget reserve_tokens
  checked-Admitted law window inputs outputs requested method unknown (name ∷ names) bads fits = cc
  checked-Admitted law window inputs outputs requested method unknown [] bads fits =
      let (w, i, o, r) =
        none_missing (whole window) (whole inputs) (whole outputs) (whole requested) bads in
      let total =
        or_zero (whole inputs)
        + or_zero (whole outputs)
        + reserve_tokens (or_zero (whole inputs)) (or_zero (whole requested)) in
      let most = ceiling unknown (or_zero (whole window)) in
      record {
        window_whole = w;
        inputs_whole = i;
        outputs_whole = o;
        requested_tokens = or_zero (whole requested);
        requested_whole = r;
        room =
            omega (arith, leb→le total most fits, ceiling-le law unknown (or_zero (whole window)));
        least = omega arith;
        no_less = omega arith;
        counted = (sub_ℕ-IsCounted most total).0 fits;
      }

  -- A context budget that fits has four whole counts, a reserve of at least 4096 tokens and at
  -- least what the client asked for, an input, an output and a reserve that together are no more
  -- than the window, and a headroom that is not negative, provided that 95% of a count is computed
  -- as no more than the count.
  pub context_budget-Admitted :
      Shrinks
      → (window inputs outputs requested : Json) (method : String) (unknown : List String)
      → (context_budget window inputs outputs requested method unknown).fits ≡ true
      → Admitted window inputs outputs requested
          (context_budget window inputs outputs requested method unknown)
  unfolding context_budget
  context_budget-Admitted law window inputs outputs requested method unknown fits =
      checked-Admitted law window inputs outputs requested method unknown
        (bad_counts (whole window) (whole inputs) (whole outputs) (whole requested)) refl fits
