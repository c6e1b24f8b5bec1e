-- ===== src/Config/Routes.antt =====
-- What a rule chooses, and the named routes (src/jev_router/config.py).
use jev_router.Common.{Bool, String, str_eq, List, ◌∷◌, Option, none, some, if◌then◌else◌}

-- An effort is a text or None.
abbrev pub Effort : Type 0
Effort = Option String

-- A model and an effort.
abbrev pub Pair : Type 0
Pair = String × Effort

-- `x or y` on texts that may be None: the empty text counts as absent.
unfoldable pub or_else : Effort → Effort → Effort
or_else none y = y
or_else (some a) y = if str_eq a "" then y else some a

pub record Route : Type 0 where
  pub model : Option String
  pub effort : Effort
  pub route : Option String

pub record RouteEntry : Type 0 where
  pub model : String
  pub effort : Effort
  pub equivalent : Bool

pub record Lane : Type 0 where
  pub primary : RouteEntry
  pub fallbacks : List RouteEntry

unfoldable pub entries : Lane → List RouteEntry
entries lane = lane.primary ∷ lane.fallbacks
