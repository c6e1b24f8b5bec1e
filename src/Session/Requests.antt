-- ===== src/Session/Requests.antt =====
-- The operations of `Sessions` on the table `session_requests` (src/jev_router/sessions.py).
pub mod Trim
pub mod Bounded
pub mod Sequences
use jev_router.Common.{
  ℕ, zero, suc, Bool, true, false, not, ◌&&◌, String, str_eq, List, [], ◌∷◌, ◌++◌, Option, none,
  some, keep, any, ◌==◌,
}
use jev_router.Common.Sorted.{find, sort_by, descending}
use jev_router.Common.Table.{update_where, count_where}
use jev_router.Session.{
  Outcome, in_flight, accepted, completed, rejected, stream_failed, unknown, RequestRow, Store,
  SessionRoutingCfg,
}
use jev_router.Session.Contract.{given}

unfoldable pub is_unresolved : Outcome → Bool
is_unresolved in_flight = true
is_unresolved accepted = true
is_unresolved stream_failed = true
is_unresolved unknown = true
is_unresolved completed = false
is_unresolved rejected = false

-- `status in FORGETTABLE`
unfoldable pub is_forgettable : Outcome → Bool
is_forgettable completed = true
is_forgettable rejected = true
is_forgettable _ = false

abbrev pub of_session : String → RequestRow → Bool
of_session session_id row = str_eq row.session_id session_id

-- Attempts nobody can call settled.
unfoldable pub unresolved : Store → String → ℕ
unfolding count_where is_unresolved
unresolved store session_id =
    count_where (λ row. of_session session_id row && is_unresolved row.status) store.requests

abbrev pub is_request : String → String → RequestRow → Bool
is_request session_id request_id row = of_session session_id row && str_eq row.request_id request_id

unfoldable pub get_request : Store → String → String → Option RequestRow
unfolding find
get_request store session_id request_id = find (is_request session_id request_id) store.requests

unfoldable pub take {ℓ} : {A : Type ℓ} → ℕ → List A → List A
take zero xs = []
take (suc n) [] = []
take (suc n) (x ∷ xs) = x ∷ take n xs

abbrev pub id_of : RequestRow → ℕ
id_of row = row.id

-- `SELECT id … ORDER BY id DESC LIMIT n`, as rows
unfoldable pub newest : ℕ → String → List RequestRow → List RequestRow
unfolding take sort_by keep
newest n session_id rows = take n (sort_by (descending id_of) (keep (of_session session_id) rows))

-- What the deletion takes: a row of the session that is forgettable and not among the newest.
unfoldable pub is_trimmed : ℕ → String → List RequestRow → RequestRow → Bool
unfolding newest is_forgettable any
is_trimmed n session_id rows row =
    of_session session_id row
    && (is_forgettable row.status
        && not (any (λ kept. kept.id == row.id) (newest n session_id rows)))

-- Bound the per-session history, keeping every unresolved outcome.
unfoldable pub trim_requests : SessionRoutingCfg → Store → String → Store
unfolding is_trimmed keep
trim_requests cfg store session_id = record store {
  requests =
      keep (λ row. not (is_trimmed cfg.max_request_history session_id store.requests row))
        store.requests;
}

unfoldable pub attempt : Store → String → String → String → ℕ → RequestRow
attempt store session_id request_id body_fingerprint now = record {
  id = store.next_request;
  session_id = session_id;
  request_id = request_id;
  fingerprint = body_fingerprint;
  status = in_flight;
  created = now;
  updated = now;
  decision_id = none;
  upstream_status = none;
}

start_absent :
    SessionRoutingCfg → Store → RequestRow → Option RequestRow → Store × Option RequestRow
unfolding trim_requests
start_absent cfg store row (some there) = (store, some there)
start_absent cfg store row none = (
  trim_requests cfg
      (record store {
        requests = store.requests ++ row ∷ [];
        next_request = suc store.next_request;
      })
      row.session_id,
  none,
)

-- Record one attempt, or return the record that already exists.
unfoldable pub start_request :
    SessionRoutingCfg → Store → String → String → String → ℕ → Store × Option RequestRow
unfolding start_absent get_request attempt
start_request cfg store session_id request_id body_fingerprint now =
    start_absent cfg store (attempt store session_id request_id body_fingerprint now)
      (get_request store session_id request_id)

unfoldable pub finished : Outcome → Option ℕ → Option String → ℕ → RequestRow → RequestRow
finished status upstream_status decision_id now row = record row {
  status = status;
  updated = now;
  upstream_status = given upstream_status row.upstream_status;
  decision_id = given decision_id row.decision_id;
}

unfoldable pub finish_request :
    Store → String → String → Outcome → Option ℕ → Option String → ℕ → Store
unfolding update_where finished
finish_request store session_id request_id status upstream_status decision_id now = record store {
  requests =
      update_where (is_request session_id request_id)
        (finished status upstream_status decision_id now) store.requests;
}
