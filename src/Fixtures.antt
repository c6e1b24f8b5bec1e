-- ===== src/Fixtures.antt =====
-- Concrete inputs that the tests share: decimal fixed point in place of the floats.
pub mod Turns
pub mod Pool
pub mod Levels
use jev_router.Common.{ℕ, ◌+◌, ◌-◌, ◌*◌, ◌/◌, ◌^◌, leb, ltb, true, ◌&&◌, List, [], ◌∷◌, String}
use mathlib.Core.List.{foldr}
use jev_router.Common.Float.{Float}

abbrev unit : ℕ
unit = 10000

-- A number counts ten-thousandths.
instance abbrev pub fixed : Float
fixed = record {
  Carrier = ℕ;
  le = leb;
  lt = ltb;
  add = λ a b. a + b;
  sub = λ a b. a - b;
  mul = λ a b. a * b / unit;
  div = λ a b. a * unit / b;
  abs = λ a. a;
  sum = foldr (λ a b. a + b) 0;
  decimal = λ n k. n * unit / 10 ^ k;
  ceil = λ a. (a + (unit - 1)) / unit;
  trunc = λ a. a / unit;
  is_finite = λ a. true;
  infinity = 1000000000;
  is_close = λ a b t. leb (a - b) t && leb (b - a) t;
}
