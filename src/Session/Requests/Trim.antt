-- ===== src/Session/Requests/Trim.antt =====
-- What the bound on a session's request history takes, and what it never does.
use jev_router.Common.{
  ℕ, ◌≡◌, refl, ap, true, false, not, ◌&&◌, String, List, some, and_right, and_false,
}
use jev_router.Common.Table.{find-keep, count_where-keep}
use jev_router.Session.{
  Outcome, in_flight, accepted, completed, rejected, stream_failed, unknown, RequestRow, Store,
  SessionRoutingCfg,
}
use jev_router.Session.Requests.{
  is_unresolved, is_forgettable, of_session, unresolved, is_request, get_request, is_trimmed,
  trim_requests,
}

unresolved-kept : (status : Outcome) → is_unresolved status ≡ true → is_forgettable status ≡ false
unfolding is_unresolved is_forgettable
unresolved-kept in_flight h = refl
unresolved-kept accepted h = refl
unresolved-kept stream_failed h = refl
unresolved-kept unknown h = refl
unresolved-kept completed h = cc
unresolved-kept rejected h = cc

spared :
    (n : ℕ) (session_id : String) (rows : List RequestRow) (row : RequestRow)
    → is_unresolved row.status ≡ true
    → not (is_trimmed n session_id rows row) ≡ true
unfolding is_trimmed
spared n session_id rows row h =
    rw (unresolved-kept row.status h) (ap not (and_false (of_session session_id row)))

-- A trim leaves the number of unresolved attempts of every session as it is.
pub unresolved-trim_requests :
    (cfg : SessionRoutingCfg) (store : Store) (session_id other_id : String)
    → unresolved (trim_requests cfg store session_id) other_id ≡ unresolved store other_id
unfolding unresolved trim_requests
unresolved-trim_requests cfg store session_id other_id =
    count_where-keep (λ row. of_session other_id row && is_unresolved row.status)
      (λ row. not (is_trimmed cfg.max_request_history session_id store.requests row)) store.requests
      (λ row h.
        spared cfg.max_request_history session_id store.requests row
          (and_right (of_session other_id row) (is_unresolved row.status) h))

pub get_request-trim_requests :
    (cfg : SessionRoutingCfg) (store : Store) (trimmed session_id request_id : String)
    (row : RequestRow)
    → get_request store session_id request_id ≡ some row
    → is_unresolved row.status ≡ true
    → get_request (trim_requests cfg store trimmed) session_id request_id ≡ some row
unfolding get_request trim_requests
get_request-trim_requests cfg store trimmed session_id request_id row there open_ =
    find-keep (is_request session_id request_id)
      (λ r. not (is_trimmed cfg.max_request_history trimmed store.requests r)) store.requests row
      there (spared cfg.max_request_history trimmed store.requests row open_)
