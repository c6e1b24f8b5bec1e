-- ===== src/Common/Float.antt =====
-- Python's floats. The language has none of its own, so the type and its operations are an
-- interface, which each definition that uses a float takes as an instance argument.
use Prim.Native.Nat.{ℕ}
use mathlib.Core.Bool.{Bool}
use mathlib.Core.List.{List}

pub record Float : Type 1 where
  pub Carrier : Type 0
  pub le : Carrier → Carrier → Bool
  pub lt : Carrier → Carrier → Bool
  pub add : Carrier → Carrier → Carrier
  pub sub : Carrier → Carrier → Carrier
  pub mul : Carrier → Carrier → Carrier
  pub div : Carrier → Carrier → Carrier
  pub abs : Carrier → Carrier
  -- `sum` of floats, which Python compensates
  pub sum : List Carrier → Carrier
  -- the float nearest to n / 10 ^ k, as a literal denotes it
  pub decimal : ℕ → ℕ → Carrier
  -- `math.ceil` and `int` of a float that is not negative
  pub ceil : Carrier → ℕ
  pub trunc : Carrier → ℕ
  pub is_finite : Carrier → Bool
  -- `float("inf")`
  pub infinity : Carrier
  -- `math.isclose(a, b, abs_tol=t)`
  pub is_close : Carrier → Carrier → Carrier → Bool

module _ ⦃f : Float⦄ where
  abbrev pub Number : Type 0
  Number = f.Carrier

  infix 50 ◌<=◌ ◌<<◌
  abbrev pub ◌<=◌ : Number → Number → Bool
  a <= b = f.le a b

  abbrev pub ◌<<◌ : Number → Number → Bool
  a << b = f.lt a b
