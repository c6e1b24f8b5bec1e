-- ===== src/Config/Lanes.antt =====
-- Quality lanes: the model/effort pairs that were measured for a class of work
-- (src/jev_router/config.py).
use jev_router.Common.{
  Bool, true, ◌&&◌, String, str_eq, List, [], ◌∷◌, map, Option, none, some, any, opt_eq,
  if◌then◌else◌,
}
use jev_router.Config.Routes.{Effort, Pair, Route}

pub record LaneModel : Type 0 where
  pub model : String
  pub effort : Effort
  pub qualification_ref : String

pub record QualityLaneCfg : Type 0 where
  pub qualification_ref : String
  pub qualified : List LaneModel
  pub conservative_default : Option Route

unfoldable pub as_pair : LaneModel → Pair
as_pair q = (q.model, q.effort)

unfoldable pub pairs : QualityLaneCfg → List Pair
unfolding as_pair
pairs lane = map as_pair lane.qualified

-- An entry with no effort stands for any effort of its model.
effort_allowed : Effort → Effort → Bool
effort_allowed none effort = true
effort_allowed (some e) effort = opt_eq (some e) effort

covers : String → Effort → LaneModel → Bool
unfolding effort_allowed
covers model effort q = str_eq q.model model && effort_allowed q.effort effort

-- Is this exact pair qualified?
unfoldable pub allows : QualityLaneCfg → Pair → Bool
unfolding covers any
allows lane (model, effort) = any (covers model effort) lane.qualified

reference_in : String → List LaneModel → Pair → String
unfolding covers
reference_in default [] pair = default
reference_in default (q ∷ rest) (model, effort) =
    if covers model effort q then q.qualification_ref else reference_in default rest (model, effort)

unfoldable pub reference_for : QualityLaneCfg → Pair → String
unfolding reference_in
reference_for lane pair = reference_in lane.qualification_ref lane.qualified pair
