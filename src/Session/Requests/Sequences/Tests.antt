-- ===== src/Session/Requests/Sequences/Tests.antt =====
-- Requests that run, and the theorems at them.
use jev_router.Common.{◌≡◌, ◌≤◌, refl, List, [], ◌∷◌, none, some, keep, any, ◌&&◌}
use jev_router.Common.Sorted.{find, sort_by}
use jev_router.Common.Table.{update_where, count_where}
use jev_router.Session.{completed, stream_failed, RequestRow, Store, SessionRoutingCfg}
use jev_router.Session.Requests.{
  is_unresolved, is_forgettable, of_session, unresolved, get_request, take, newest, is_trimmed,
  trim_requests, attempt, start_request, finished, finish_request,
}
use jev_router.Session.Requests.Sequences.{
  Call, starts, finishes, settles, after, after_all, no_requests, trim_requests-bound,
  start_request-pending,
}

abbrev cfg : SessionRoutingCfg
cfg = record { max_inflight_per_session = 1; prepared_ttl_seconds = 60; max_request_history = 1 }

abbrev empty : Store
empty = record { sessions = []; requests = []; plans = []; next_request = 1; next_plan = 1 }

abbrev finished_once : List Call
finished_once =
    starts "s" "a" "f" 1
    ∷ finishes "s" "a" completed (some 200) none 2
    ∷ starts "s" "b" "f" 3
    ∷ finishes "s" "b" stream_failed (some 200) none 4
    ∷ starts "s" "c" "f" 5
    ∷ finishes "s" "c" completed (some 200) none 6
    ∷ starts "s" "d" "f" 7
    ∷ []

unfoldable requests_run : Unit {0}
unfolding is_unresolved is_forgettable unresolved get_request take newest is_trimmed trim_requests
    attempt start_request finished finish_request settles after after_all find sort_by update_where
    count_where keep any
requests_run = tt

abbrev busy : Store
busy = after_all cfg empty finished_once

-- The completed `a` has left the history, and a repeat of it starts anew.
a_forgotten_id_starts_again :
    ((start_request cfg busy "s" "a" "f" 8).1 ≡ none)
    × (get_request (start_request cfg empty "s" "a" "f" 8).0 "s" "a"
        ≡ some (attempt empty "s" "a" "f" 8))
unfolding requests_run
a_forgotten_id_starts_again = (refl, refl)

two_are_unresolved : unresolved busy "s" ≡ 2
unfolding requests_run
two_are_unresolved = refl

trim_requests-bound_example :
    count_where
      (λ row. of_session "s" row && is_forgettable row.status)
      (trim_requests cfg (after_all cfg (no_requests empty) finished_once) "s").requests
    ≤ 1
trim_requests-bound_example = trim_requests-bound cfg empty finished_once "s"

abbrev broken : Store
broken =
    after_all cfg empty (starts "s" "b" "f" 3 ∷ finishes "s" "b" stream_failed none none 4 ∷ [])

abbrev broken_row : RequestRow
broken_row = record {
  id = 1;
  session_id = "s";
  request_id = "b";
  fingerprint = "f";
  status = stream_failed;
  created = 3;
  updated = 4;
  decision_id = none;
  upstream_status = none;
}

abbrev others : List Call
others =
    starts "s" "a" "f" 5 ∷ finishes "s" "a" completed (some 200) none 6 ∷ starts "s" "b" "f" 7 ∷ []

start_request-pending_example :
    start_request cfg (after_all cfg broken others) "s" "b" "f" 9
    ≡ (after_all cfg broken others, some broken_row)
unfolding requests_run
start_request-pending_example =
    start_request-pending cfg broken others "s" "b" "f" 9 broken_row refl refl refl
