-- ===== src/Policy/Failures.antt =====
-- `RoutingError` of src/jev_router/policy.py, a constructor for each message, and the KeyError of a
-- model or a ruleset that the configuration does not hold.
use jev_router.Common.{String, Result}

pub data Failure : Type 0 where
  no_common_model no_eligible_model no_permitted_model : Failure
  floor_over_cap unmet_floor no_bounded_level : Failure
  not_in_lane : String → Failure
  entry_not_eligible effort_violates : Failure
  key_error : String → Failure

abbrev pub Routed : Type 0 → Type 0
Routed A = Result Failure A
