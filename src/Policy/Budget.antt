-- ===== src/Policy/Budget.antt =====
-- The admission check of a context window (`context_budget` of src/jev_router/policy.py). A count
-- comes from outside as any JSON value. The reason's text is a constructor.
pub mod Fits
mod Tests
use jev_router.Common.{
  ℕ, ◌+◌, max, Bool, true, false, not, ◌&&◌, String, List, [], ◌∷◌, ◌++◌, Option, none, some, leb,
  if◌then◌else◌,
}
use jev_router.Common.Int.{ℤ, pos, negsuc, sub_ℕ}
use jev_router.Common.Float.{Float, Number}
use jev_router.Deciders.{Json, null, boolean, integer, real, text, array, object}

-- The names of the four numbers
pub data Count : Type 0 where
  context_window input_tokens output_tokens requested_reserve : Count

pub data BudgetReason : Type 0 where
  not_whole : List Count → BudgetReason
  fits_window : BudgetReason
  unknown_size : List String → ℕ → ℕ → BudgetReason
  exceeds : ℕ → ℕ → ℕ → ℕ → ℕ → BudgetReason

pub record BudgetCheck : Type 0 where
  pub fits : Bool
  pub reason : BudgetReason
  pub window : ℕ
  pub inputs : ℕ
  pub outputs : ℕ
  pub reserve : ℕ
  pub headroom : ℤ
  pub estimate_method : String
  pub unknown : List String

abbrev or_zero : Option ℕ → ℕ
or_zero none = 0
or_zero (some n) = n

if_missing : Count → Option ℕ → List Count → List Count
if_missing name none rest = name ∷ rest
if_missing name (some n) rest = rest

-- The names of the numbers that are not whole, which stand in the order of `sorted`.
unfoldable pub bad_counts : Option ℕ → Option ℕ → Option ℕ → Option ℕ → List Count
unfolding if_missing
bad_counts window inputs outputs requested = if_missing context_window window (
    if_missing input_tokens inputs
      (if_missing output_tokens outputs (if_missing requested_reserve requested [])))

is_known : List String → Bool
is_known [] = true
is_known (_ ∷ _) = false

module _ ⦃f : Float⦄ where
  whole_float : Number → Option ℕ
  whole_float x =
      if f.is_finite x && f.le (f.decimal 0 0) x
      then if f.le (f.decimal (f.trunc x) 0) x && f.le x (f.decimal (f.trunc x) 0)
        then some (f.trunc x)
        else none
      else none

  -- A count, or nothing.
  unfoldable pub whole : Json → Option ℕ
  unfolding whole_float
  whole (integer (pos n)) = some n
  whole (real x) = whole_float x
  whole _ = none

  -- `max(4096, ceil(0.10 * I))`, and never less than the client asked for
  unfoldable pub reserve_tokens : ℕ → ℕ → ℕ
  reserve_tokens input_count requested =
      max (max 4096 (f.ceil (f.mul (f.decimal 1 1) (f.decimal input_count 0)))) requested

  -- An estimate with unknown parts stays away from the boundary.
  unfoldable pub ceiling : List String → ℕ → ℕ
  ceiling [] window = window
  ceiling (_ ∷ _) window =
      f.trunc (f.mul (f.decimal window 0) (f.sub (f.decimal 1 0) (f.decimal 5 2)))

  reason_for : Bool → List String → ℕ → ℕ → ℕ → ℕ → BudgetReason
  unfolding is_known
  reason_for fits unknown window inputs outputs reserve =
      let needed = inputs + outputs + reserve in
      if fits
      then fits_window
      else if not (is_known unknown) && leb needed window
      then unknown_size unknown needed window
      else exceeds inputs outputs reserve needed window

  unfoldable pub budget : ℕ → ℕ → ℕ → ℕ → String → List String → BudgetCheck
  unfolding reserve_tokens ceiling reason_for
  budget window inputs outputs requested estimate_method unknown =
      let reserve = reserve_tokens inputs requested in
      let needed = inputs + outputs + reserve in
      let fits = leb needed (ceiling unknown window) in
      record {
        fits = fits;
        reason = reason_for fits unknown window inputs outputs reserve;
        window = window;
        inputs = inputs;
        outputs = outputs;
        reserve = reserve;
        headroom = sub_ℕ (ceiling unknown window) needed;
        estimate_method = estimate_method;
        unknown = unknown;
      }

  refused : List Count → Option ℕ → Option ℕ → Option ℕ → String → List String → BudgetCheck
  refused bad window inputs outputs estimate_method unknown = record {
    fits = false;
    reason = not_whole bad;
    window = or_zero window;
    inputs = or_zero inputs;
    outputs = or_zero outputs;
    reserve = 0;
    headroom = pos 0;
    estimate_method = estimate_method;
    unknown = unknown;
  }

  checked :
      List Count → Option ℕ → Option ℕ → Option ℕ → Option ℕ → String → List String → BudgetCheck
  unfolding refused budget
  checked (name ∷ names) window inputs outputs requested estimate_method unknown =
      refused (name ∷ names) window inputs outputs estimate_method unknown
  checked [] window inputs outputs requested estimate_method unknown =
      budget (or_zero window) (or_zero inputs) (or_zero outputs) (or_zero requested) estimate_method
        unknown

  -- The admission check, as one pure function.
  unfoldable pub context_budget : Json → Json → Json → Json → String → List String → BudgetCheck
  unfolding checked bad_counts whole
  context_budget window inputs outputs requested estimate_method unknown =
      checked (bad_counts (whole window) (whole inputs) (whole outputs) (whole requested))
        (whole window) (whole inputs) (whole outputs) (whole requested) estimate_method unknown
