-- ===== src/Session/Plans/Reconcile/Sessions.antt =====
-- What a hand reconciliation leaves of the session's row.
use jev_router.Common.{
  ℕ, ◌≡◌, refl, sym, ap, ◌∙◌, subst, Bool, true, false, String, [], ◌∷◌, Option, some, opt_eq,
  if◌then◌else◌,
}
use jev_router.Turn.Ledger.{is_change}
use jev_router.Session.{SessionRow, PlanRow, Store}
use jev_router.Session.Contract.{
  to_effort_lineage, update, find_session, updated_row, assign_all, assign,
}
use jev_router.Session.Contract.Commands.Rows.{find_session-update, get_anyone}
use jev_router.Session.Plans.Reconcile.{
  Verdict, or_row, kept_effort, keeping, move_effort, lost, read_again, settle_effort,
  settle_lineage, settle_session,
}

pub read_again-found :
    (store : Store) (session_id : String) (old row : SessionRow)
    → find_session store.sessions session_id ≡ some row
    → (read_again store session_id old).1 ≡ row
read_again-found store session_id old row found =
    ap (λ o. or_row o old) (sym (get_anyone store session_id) ∙ found)

-- A store and a row of it, with the efforts all at one where they were moved.
record Moved (plan : PlanRow) (keep : Option String) (session_id : String) (store : Store)
    (row : SessionRow) : Type 0 where
  found : find_session store.sessions session_id ≡ some row
  same_effort :
      is_change plan.action ≡ true
      → (e : String) → keep ≡ some e
      → (row.effective_effort ≡ some e)
        × (row.confirmed_effort ≡ some e)
        × (row.expected_effort ≡ some e)

move_effort-found :
    (change : Bool) (store : Store) (session_id : String) (current : SessionRow)
    (keep : Option String) (moved : ℕ)
    → find_session store.sessions session_id ≡ some current
    → find_session (move_effort change store session_id current keep moved).sessions session_id
      ≡ some (if change then updated_row (keeping keep) moved current else current)
unfolding move_effort
move_effort-found true store session_id current keep moved found =
    find_session-update store session_id current (keeping keep) moved found
move_effort-found false store session_id current keep moved found = found

abbrev pub AllAt : SessionRow → String → Type 0
AllAt row e =
    (row.effective_effort ≡ some e)
    × (row.confirmed_effort ≡ some e)
    × (row.expected_effort ≡ some e)

efforts_moved :
    (change : Bool) (keep : Option String) (current : SessionRow) (moved : ℕ) (e : String)
    → change ≡ true
    → keep ≡ some e
    → AllAt (if change then updated_row (keeping keep) moved current else current) e
unfolding updated_row assign_all assign
efforts_moved change keep current moved e changes kept = rw (changes, kept) (refl, refl, refl)

settle_effort-Moved :
    (store : Store) (plan : PlanRow) (session_id : String) (current : SessionRow)
    (outcome : Verdict) (moved : ℕ)
    → find_session store.sessions session_id ≡ some current
    → let (after, row) = settle_effort store plan session_id current outcome moved in
      Moved plan (kept_effort outcome plan current) session_id after row
unfolding settle_effort
settle_effort-Moved store plan session_id current outcome moved there =
    let keep = kept_effort outcome plan current in
    let moving = move_effort (is_change plan.action) store session_id current keep moved in
    let found =
      move_effort-found (is_change plan.action) store session_id current keep moved there in
    let row = if is_change plan.action then updated_row (keeping keep) moved current else current in
    subst (Moved plan keep session_id moving)
      (sym (read_again-found moving session_id current row found))
      (record {
        found = found;
        same_effort =
            λ changes e. efforts_moved (is_change plan.action) keep current moved e changes;
      })

-- The lineage is known, and the efforts stay where they were.
record Cleared (session_id : String) (before : SessionRow) (store : Store) (row : SessionRow)
    : Type 0 where
  found : find_session store.sessions session_id ≡ some row
  known : lost row ≡ false
  kept : (e : String) → AllAt before e → AllAt row e

lineage-Cleared :
    (session_id : String) (before : SessionRow) (after : Store) (cleared : ℕ)
    → find_session after.sessions session_id
      ≡ some (updated_row (to_effort_lineage (some "known") ∷ []) cleared before)
    → Cleared session_id before after
        (updated_row (to_effort_lineage (some "known") ∷ []) cleared before)
unfolding updated_row assign_all assign opt_eq
lineage-Cleared session_id before after cleared found = record {
  found = found;
  known = refl;
  kept = λ e at. at;
}

settle_lineage-Cleared :
    (unknown : Bool) (store : Store) (session_id : String) (before : SessionRow) (cleared : ℕ)
    → lost before ≡ unknown
    → find_session store.sessions session_id ≡ some before
    → let (after, row) = settle_lineage unknown store session_id before cleared in
      Cleared session_id before after row
unfolding settle_lineage
settle_lineage-Cleared false store session_id before cleared known_ there = record {
  found = there;
  known = known_;
  kept = λ e at. at;
}
settle_lineage-Cleared true store session_id before cleared unknown_ there =
    let fields = to_effort_lineage (some "known") ∷ [] in
    let after = (update store session_id before.version fields cleared).0 in
    let found = find_session-update store session_id before fields cleared there in
    subst (Cleared session_id before after)
      (sym (read_again-found after session_id before (updated_row fields cleared before) found))
      (lineage-Cleared session_id before after cleared found)

-- What the reconciliation of a plan leaves of its session.
pub record SessionSettled (plan : PlanRow) (keep : Option String) (session_id : String)
    (store : Store) : Type 0 where
  pub row : SessionRow
  pub found : find_session store.sessions session_id ≡ some row
  pub known : lost row ≡ false
  pub same_effort : is_change plan.action ≡ true → (e : String) → keep ≡ some e → AllAt row e

pub settle_session-settled :
    (store : Store) (plan : PlanRow) (session_id : String) (current : SessionRow)
    (outcome : Verdict) (moved cleared : ℕ)
    → find_session store.sessions session_id ≡ some current
    → SessionSettled plan
        (kept_effort outcome plan current)
        session_id
        (settle_session store plan session_id current outcome moved cleared).0
unfolding settle_session
settle_session-settled store plan session_id current outcome moved cleared there =
    let (moving, after) = settle_effort store plan session_id current outcome moved in
    let first = settle_effort-Moved store plan session_id current outcome moved there in
    let last =
      settle_lineage-Cleared (lost after) moving session_id after cleared refl first.found in
    record {
      row = (settle_lineage (lost after) moving session_id after cleared).1;
      found = last.found;
      known = last.known;
      same_effort = λ changes e kept. last.kept e (first.same_effort changes e kept);
    }
