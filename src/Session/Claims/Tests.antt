-- ===== src/Session/Claims/Tests.antt =====
-- Claims that run, and the theorems at them.
use jev_router.Common.{◌≡◌, refl, List, [], ◌∷◌}
use jev_router.Session.{SessionRoutingCfg}
use jev_router.Session.Claims.{
  Call, claims, releases, inflight, claim, release, after, after_all, count_after, count_after_all,
  inflight-after_all, release-claim,
}
use jev_router.Common.{lookup}
use jev_router.Common.Dict.{set_item, pop_item}

abbrev cfg : SessionRoutingCfg
cfg = record { max_inflight_per_session = 2; prepared_ttl_seconds = 60; max_request_history = 2 }

abbrev calls : List Call
calls = claims "a" ∷ claims "a" ∷ claims "b" ∷ claims "a" ∷ releases "b" ∷ releases "b" ∷ []

unfoldable claims_run : Unit {0}
unfolding inflight claim release after after_all lookup set_item pop_item count_after
    count_after_all
claims_run = tt

the_third_claim_waits : inflight (after_all cfg [] calls) "a" ≡ 2
unfolding claims_run
the_third_claim_waits = refl

the_slot_of_b_is_gone : inflight (after_all cfg [] calls) "b" ≡ 0
unfolding claims_run
the_slot_of_b_is_gone = refl

inflight-after_all_example : inflight (after_all cfg [] calls) "a" ≡ 2
unfolding claims_run
inflight-after_all_example = inflight-after_all cfg [] calls "a"

release-claim_example :
    inflight (release (claim cfg (("a", 1) ∷ []) "a").0 "a") "a" ≡ inflight (("a", 1) ∷ []) "a"
unfolding claims_run
release-claim_example = release-claim cfg (("a", 1) ∷ []) "a" "a" refl
