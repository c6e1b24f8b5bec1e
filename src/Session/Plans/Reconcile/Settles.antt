-- ===== src/Session/Plans/Reconcile/Settles.antt =====
-- What a hand reconciliation leaves of the plan and of its session.
use jev_router.Session.Plans.Reconcile.Sessions.{read_again-found, AllAt, settle_session-settled}
use jev_router.Session.Plans.Reconcile.Marks.{settle_session-plans, plan_by_id-marked}
use jev_router.Common.{ℕ, ◌≡◌, refl, sym, ap, ◌∙◌, subst, true, false, String, some, ok, err}
use jev_router.Common.Sorted.{find, sort_by, descending}
use jev_router.Turn.Ledger.{is_reconcilable, is_change}
use jev_router.Session.{SessionRow, PlanRow, Store}
use jev_router.Session.Contract.{get, find_session}
use jev_router.Session.Plans.{plan_key, has_plan_id, newest_plan, update_plan, plan_by_id}
use jev_router.Session.Plans.Reconcile.{
  Verdict, status_after, verdict_text, or_row, kept_effort, mark_plan, lost, settle_session, report,
  Report, settle_plan, reconcile,
}
use jev_router.Session.Plans.Reconcile.Errors.{session_conflict, raised}

-- Both tables after a reconciliation that the code accepted.
pub record Settled (plan : PlanRow) (row current : SessionRow) (outcome : Verdict) (after : Store)
    (told : Report) : Type 0 where
  pub settled : PlanRow
  pub on_record : plan_by_id after plan.plan_id ≡ some settled
  pub status_is : settled.status ≡ status_after outcome
  pub said_by_hand : settled.reconciled ≡ some (verdict_text outcome)
  pub told_so : told.status ≡ settled.status
  pub session : SessionRow
  pub of_session : find_session after.sessions row.session_id ≡ some session
  pub known : lost session ≡ false
  pub same_effort :
      is_change plan.action ≡ true
      → (e : String) → kept_effort outcome plan current ≡ some e
      → AllAt session e
  pub only_once :
      (other : Verdict) (marked moved cleared : ℕ)
      → reconcile after settled row other marked moved cleared
        ≡ err (raised session_conflict settled.plan_id settled.turn_id settled.status)

plan_by_id-plans :
    (a b : Store) (plan_id : String)
    → a.plans ≡ b.plans
    → plan_by_id a plan_id ≡ plan_by_id b plan_id
unfolding plan_by_id newest_plan
plan_by_id-plans a b plan_id same =
    ap (λ rows. find (has_plan_id plan_id) (sort_by (descending plan_key) rows)) same

settled_is_final : (outcome : Verdict) → is_reconcilable (status_after outcome) ≡ false
unfolding is_reconcilable
settled_is_final Verdict.applied = refl
settled_is_final Verdict.not_applied = refl

reconcile-refused :
    (store : Store) (plan : PlanRow) (row : SessionRow) (outcome : Verdict)
    (marked moved cleared : ℕ)
    → is_reconcilable plan.status ≡ false
    → reconcile store plan row outcome marked moved cleared
      ≡ err (raised session_conflict plan.plan_id plan.turn_id plan.status)
unfolding reconcile
reconcile-refused store plan row outcome marked moved cleared h = rw h refl

module _ (store : Store) (plan stored : PlanRow) (row current : SessionRow) (outcome : Verdict)
    (marked moved cleared : ℕ) (on_record : plan_by_id store plan.plan_id ≡ some stored)
    (of_session : find_session store.sessions row.session_id ≡ some current) where
  settle_session-Settled :
      (read : SessionRow)
      → read ≡ current
      → let told = mark_plan store plan outcome marked in
        let (after, last) = settle_session told plan row.session_id read outcome moved cleared in
        Settled plan row current outcome after (report after last plan row outcome)
  unfolding report mark_plan update_plan
  settle_session-Settled read is_current =
      let told = mark_plan store plan outcome marked in
      let after = (settle_session told plan row.session_id read outcome moved cleared).0 in
      let (settled, marks, status_is, said) =
        plan_by_id-marked store plan stored outcome marked on_record in
      let kept =
        subst (λ c. find_session store.sessions row.session_id ≡ some c) (sym is_current)
          of_session in
      let session =
        settle_session-settled told plan row.session_id read outcome moved cleared kept in
      let found =
        plan_by_id-plans after told plan.plan_id
          (settle_session-plans told plan row.session_id read outcome moved cleared)
        ∙ marks in
      record {
        settled = settled;
        on_record = found;
        status_is = status_is;
        said_by_hand = said;
        told_so = ap (λ o. (or_row o plan).status) found;
        session = session.row;
        of_session = session.found;
        known = session.known;
        same_effort = λ changes e keeps.
            session.same_effort changes e (ap (kept_effort outcome plan) is_current ∙ keeps);
        only_once = λ other marked moved cleared.
            reconcile-refused after settled row other marked moved cleared
              (ap is_reconcilable status_is ∙ settled_is_final outcome);
      }

  -- Where the plan is one that the provider received, and the plan and its session are on record,
  -- a reconciliation returns: the plan on record is confirmed or rejected as the outcome says and
  -- is reported so, the session's lineage is not unknown, its three efforts are the one that is
  -- kept where the plan changes the effort, and a second reconciliation is refused.
  pub reconcile-Settled :
      is_reconcilable plan.status ≡ true
      → (after : Store) × (told : Report) × (reconcile store plan row outcome marked moved cleared
          ≡ ok (after, told))
        × Settled plan row current outcome after told
  unfolding reconcile settle_plan mark_plan update_plan
  reconcile-Settled reached =
      let told = mark_plan store plan outcome marked in
      (
        (settle_plan store plan row outcome marked moved cleared).0,
        (settle_plan store plan row outcome marked moved cleared).1,
        rw reached refl,
        settle_session-Settled (or_row (get told row.session_id "") row)
            (read_again-found told row.session_id row current of_session),
      )
