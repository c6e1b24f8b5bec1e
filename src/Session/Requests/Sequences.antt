-- ===== src/Session/Requests/Sequences.antt =====
-- Requests started and finished in any order: the history stays in bounds, and an attempt that
-- nobody settled is found by every later start.
mod Tests
use jev_router.Common.{
  ℕ, zero, suc, ◌+◌, ◌≤◌, ◌<◌, ◌≡◌, refl, sym, ap, ◌∙◌, subst, Bool, true, false, not, ◌&&◌, ◌||◌,
  String, str_eq, str_eq_iff, List, [], ◌∷◌, ◌++◌, Option, none, some, ◌==◌, keep, any, length,
  Bool-cases, Option-cases, inl, inr, arith, and_left, and_right, and_true, or_left, or_right,
  if◌then◌else◌,
}
use mathlib.Core.Option
use mathlib.Core.Bool.{true≢false}
use jev_router.Common.Sorted.{find}
use jev_router.Common.Table.{update_where, count_where, find-append, find-update_where, find-holds}
use jev_router.Session.{Outcome, in_flight, RequestRow, Store, SessionRoutingCfg}
use jev_router.Session.Requests.{
  is_unresolved, is_forgettable, of_session, is_request, get_request, is_trimmed, trim_requests,
  attempt, start_absent, start_request, finished, finish_request,
}
use jev_router.Session.Requests.Trim.{get_request-trim_requests}
use jev_router.Session.Requests.Bounded.{
  Rising, Rising-append, Rising-keep, Rising-update_where, settled-trim_requests,
}

pub data Call : Type 0 where
  starts : String → String → String → ℕ → Call
  finishes : String → String → Outcome → Option ℕ → Option String → ℕ → Call

unfoldable pub after : SessionRoutingCfg → Store → Call → Store
unfolding start_request finish_request
after cfg store (starts session_id request_id body_fingerprint now) =
    (start_request cfg store session_id request_id body_fingerprint now).0
after cfg store (finishes session_id request_id status upstream_status decision_id now) =
    finish_request store session_id request_id status upstream_status decision_id now

unfoldable pub after_all : SessionRoutingCfg → Store → List Call → Store
unfolding after
after_all cfg store [] = store
after_all cfg store (c ∷ cs) = after_all cfg (after cfg store c) cs

-- A call that may settle the attempt.
unfoldable pub settles : String → String → Call → Bool
settles session_id request_id (starts _ _ _ _) = false
settles session_id request_id (finishes s r _ _ _ _) = str_eq s session_id && str_eq r request_id

Numbered : Store → Type 0
Numbered store = Rising 0 store.requests store.next_request

start_absent-Numbered :
    (cfg : SessionRoutingCfg) (store : Store) (row : RequestRow) (o : Option RequestRow)
    → row.id ≡ store.next_request
    → Numbered store
    → Numbered (start_absent cfg store row o).0
unfolding Numbered start_absent trim_requests
start_absent-Numbered cfg store row (some there) key numbered = numbered
start_absent-Numbered cfg store row none key numbered =
    Rising-keep 0 _ (store.requests ++ row ∷ []) (suc store.next_request)
      (Rising-append 0 store.requests store.next_request row key numbered)

after-Numbered :
    (cfg : SessionRoutingCfg) (store : Store) (c : Call)
    → Numbered store
    → Numbered (after cfg store c)
unfolding Numbered after start_request finish_request attempt finished
after-Numbered cfg store (starts s r f now) numbered =
    start_absent-Numbered cfg store (attempt store s r f now) (get_request store s r) refl numbered
after-Numbered cfg store (finishes s r status up dec now) numbered =
    Rising-update_where 0 (is_request s r) (finished status up dec now) store.requests
      store.next_request (λ row. refl) numbered

after_all-Numbered :
    (cfg : SessionRoutingCfg) (store : Store) (calls : List Call)
    → Numbered store
    → Numbered (after_all cfg store calls)
unfolding after_all
after_all-Numbered cfg store [] numbered = numbered
after_all-Numbered cfg store (c ∷ cs) numbered =
    after_all-Numbered cfg (after cfg store c) cs (after-Numbered cfg store c numbered)

abbrev no_requests : Store → Store
no_requests store = record store { requests = []; next_request = 1 }

-- After any requests were started and finished, from an empty table on, a trim leaves a session no
-- more completed and rejected records than the configured history.
pub trim_requests-bound :
    (cfg : SessionRoutingCfg) (store : Store) (calls : List Call) (session_id : String)
    → count_where
        (λ row. of_session session_id row && is_forgettable row.status)
        (trim_requests cfg (after_all cfg (no_requests store) calls) session_id).requests
      ≤ cfg.max_request_history
unfolding Numbered Rising
trim_requests-bound cfg store calls session_id =
    settled-trim_requests cfg (after_all cfg (no_requests store) calls) session_id
      (after_all-Numbered cfg (no_requests store) calls (omega arith))

-- The attempt is on record, and nobody can call it settled.
pub record Pending (store : Store) (session_id request_id : String) (row : RequestRow)
    : Type 0 where
  pub recorded : get_request store session_id request_id ≡ some row
  pub unsettled : is_unresolved row.status ≡ true

start_absent-Pending :
    (cfg : SessionRoutingCfg) (store : Store) (new : RequestRow) (o : Option RequestRow)
    (session_id request_id : String) (row : RequestRow)
    → Pending store session_id request_id row
    → Pending (start_absent cfg store new o).0 session_id request_id row
unfolding start_absent get_request
start_absent-Pending cfg store new (some there) session_id request_id row pending = pending
start_absent-Pending cfg store new none session_id request_id row pending = record {
  recorded =
      get_request-trim_requests cfg
        (record store {
          requests = store.requests ++ new ∷ [];
          next_request = suc store.next_request;
        })
        new.session_id session_id request_id row
        (find-append (is_request session_id request_id) store.requests new
          ∙ ap
              (λ o. elim o [
                | none ↦ if is_request session_id request_id new then some new else none
                | some r ↦ some r
              ])
              pending.recorded)
        pending.unsettled;
  unsettled = pending.unsettled;
}

same_as : (a b x : String) → str_eq x a ≡ true → str_eq x b ≡ true → str_eq a b ≡ true
same_as a b x e f = (str_eq_iff a b).1 (sym ((str_eq_iff x a).0 e) ∙ (str_eq_iff x b).0 f)

-- A row of one attempt is not that of another.
other_attempt :
    (s r session_id request_id : String) (row : RequestRow)
    → is_request session_id request_id row ≡ true
    → str_eq s session_id && str_eq r request_id ≡ false
    → is_request s r row ≡ false
other_attempt s r session_id request_id row mine differ = elim (Bool-cases (is_request s r row)) [
  | inl hit ↦ absurd (
      true≢false (
        sym (
          and_true
            (same_as s session_id row.session_id
              (and_left (str_eq row.session_id s) (str_eq row.request_id r) hit)
              (and_left (str_eq row.session_id session_id) (str_eq row.request_id request_id) mine))
            (same_as r request_id row.request_id
              (and_right (str_eq row.session_id s) (str_eq row.request_id r) hit)
              (and_right (str_eq row.session_id session_id) (str_eq row.request_id request_id)
                mine)))
        ∙ differ))
  | inr n ↦ n
]

after-Pending :
    (cfg : SessionRoutingCfg) (store : Store) (c : Call) (session_id request_id : String)
    (row : RequestRow)
    → settles session_id request_id c ≡ false
    → Pending store session_id request_id row
    → Pending (after cfg store c) session_id request_id row
unfolding after start_request finish_request settles get_request finished
after-Pending cfg store (starts s r f now) session_id request_id row spares pending =
    start_absent-Pending cfg store (attempt store s r f now) (get_request store s r) session_id
      request_id row pending
after-Pending cfg store (finishes s r status up dec now) session_id request_id row spares pending =
    record {
      recorded =
          find-update_where (is_request session_id request_id) (is_request s r)
            (finished status up dec now) store.requests (λ x. refl)
          ∙ ap (Option.map (λ x. if is_request s r x then finished status up dec now x else x))
              pending.recorded
          ∙ rw
              (other_attempt s r session_id request_id row
                (find-holds (is_request session_id request_id) store.requests row pending.recorded)
                spares)
              refl;
      unsettled = pending.unsettled;
    }

-- An attempt on record that nobody settled is what every later start with its id returns, the
-- store unchanged, whatever requests were started and whatever other requests were finished in
-- between.
pub start_request-pending :
    (cfg : SessionRoutingCfg) (store : Store) (calls : List Call) (session_id request_id : String)
    (body_fingerprint : String) (now : ℕ) (row : RequestRow)
    → get_request store session_id request_id ≡ some row
    → is_unresolved row.status ≡ true
    → any (settles session_id request_id) calls ≡ false
    → start_request cfg (after_all cfg store calls) session_id request_id body_fingerprint now
      ≡ (after_all cfg store calls, some row)
unfolding start_request start_absent after_all any
start_request-pending cfg store [] session_id request_id body_fingerprint now row there open_
      spares =
    ap (start_absent cfg store (attempt store session_id request_id body_fingerprint now)) there
start_request-pending cfg store (c ∷ cs) session_id request_id body_fingerprint now row there open_
      spares =
    let pending =
      after-Pending cfg store c session_id request_id row
        (or_left (settles session_id request_id c) (any (settles session_id request_id) cs) spares)
        (record { recorded = there; unsettled = open_ }) in
    start_request-pending cfg (after cfg store c) cs session_id request_id body_fingerprint now row
      pending.recorded open_
      (or_right (settles session_id request_id c) (any (settles session_id request_id) cs) spares)
