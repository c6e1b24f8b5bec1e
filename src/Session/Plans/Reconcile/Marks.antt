-- ===== src/Session/Plans/Reconcile/Marks.antt =====
-- What a hand reconciliation leaves of the plan's rows.
use mathlib.Core.Option
use jev_router.Common.{
  ℕ, ◌≡◌, refl, sym, ap, ◌∙◌, Bool, true, false, String, [], ◌∷◌, Option, some, if◌then◌else◌,
  Bool-cases, inl, inr,
}
use jev_router.Common.Sorted.{find, sort_by, descending}
use jev_router.Common.Sorted.Mapped.{sort_by-map}
use jev_router.Common.Table.{update_where, find-update_where, update_where-map, find-holds}
use jev_router.Turn.Ledger.{is_change}
use jev_router.Session.{SessionRow, PlanRow, Store}
use jev_router.Session.Contract.{update}
use jev_router.Session.Plans.{
  plan_key, has_plan_id, newest_plan, assign_plan, assign_plans, to_status, to_confirmed,
  to_reconciled, update_plan, plan_by_id,
}
use jev_router.Session.Plans.Reconcile.{
  Verdict, status_after, verdict_text, effort_after, kept_effort, mark_plan, move_effort, lost,
  settle_effort, settle_lineage, settle_session,
}

-- The tables of the plans are written by the mark alone.
move_effort-plans :
    (change : Bool) (store : Store) (session_id : String) (current : SessionRow)
    (keep : Option String) (moved : ℕ)
    → (move_effort change store session_id current keep moved).plans ≡ store.plans
unfolding move_effort update
move_effort-plans true store session_id current keep moved = refl
move_effort-plans false store session_id current keep moved = refl

settle_lineage-plans :
    (unknown : Bool) (store : Store) (session_id : String) (before : SessionRow) (cleared : ℕ)
    → (settle_lineage unknown store session_id before cleared).0.plans ≡ store.plans
unfolding settle_lineage update
settle_lineage-plans true store session_id before cleared = refl
settle_lineage-plans false store session_id before cleared = refl

pub settle_session-plans :
    (store : Store) (plan : PlanRow) (session_id : String) (current : SessionRow)
    (outcome : Verdict) (moved cleared : ℕ)
    → (settle_session store plan session_id current outcome moved cleared).0.plans ≡ store.plans
unfolding settle_session settle_effort
settle_session-plans store plan session_id current outcome moved cleared =
    let (moving, after) = settle_effort store plan session_id current outcome moved in
    settle_lineage-plans (lost after) moving session_id after cleared
    ∙ move_effort-plans (is_change plan.action) store session_id current
        (kept_effort outcome plan current) moved

kept_key :
    (q : PlanRow → Bool) (g : PlanRow → PlanRow) (r : PlanRow)
    → ((x : PlanRow) → (g x).id ≡ x.id)
    → plan_key (if q r then g r else r) ≡ plan_key r
kept_key q g r same = elim (Bool-cases (q r)) [ inl e ↦ rw e (same r) | inr n ↦ rw n refl ]

-- The newest row that meets a condition, after an update that leaves keys and condition.
newest_plan-update_where :
    (p q : PlanRow → Bool) (g : PlanRow → PlanRow) (store : Store)
    → ((r : PlanRow) → (g r).id ≡ r.id)
    → ((r : PlanRow) → p (g r) ≡ p r)
    → newest_plan p (record store { plans = update_where q g store.plans })
      ≡ Option.map (λ r. if q r then g r else r) (newest_plan p store)
unfolding newest_plan
newest_plan-update_where p q g store same_key same =
    let u = λ (r : PlanRow). if q r then g r else r in
    let sorted = sort_by (descending plan_key) in
    ap (λ rows. find p (sorted rows)) (update_where-map q g store.plans)
    ∙ ap (find p) (
        sort_by-map (descending plan_key) u
          (λ x y. rw (kept_key q g x same_key, kept_key q g y same_key) refl) store.plans
        ∙ sym (update_where-map q g (sorted store.plans)))
    ∙ find-update_where p q g (sorted store.plans) same

named_plan :
    (store : Store) (plan_id : String) (row : PlanRow)
    → plan_by_id store plan_id ≡ some row
    → has_plan_id plan_id row ≡ true
unfolding plan_by_id newest_plan
named_plan store plan_id row there =
    find-holds (has_plan_id plan_id) (sort_by (descending plan_key) store.plans) row there

-- The newest row of a plan after all its rows were amended.
pub plan_by_id-marked :
    (store : Store) (plan stored : PlanRow) (outcome : Verdict) (marked : ℕ)
    → plan_by_id store plan.plan_id ≡ some stored
    → (settled : PlanRow) × (plan_by_id (mark_plan store plan outcome marked) plan.plan_id
        ≡ some settled)
      × (settled.status ≡ status_after outcome)
      × (settled.reconciled ≡ some (verdict_text outcome))
unfolding plan_by_id mark_plan update_plan assign_plans assign_plan
plan_by_id-marked store plan stored outcome marked there =
    let fields =
      to_status (some (status_after outcome))
      ∷ to_confirmed (effort_after outcome plan)
      ∷ to_reconciled (some (verdict_text outcome))
      ∷ [] in
    let has = has_plan_id plan.plan_id in
    (
      assign_plans fields marked stored,
      newest_plan-update_where has has (assign_plans fields marked) store (λ r. refl) (λ r. refl)
          ∙ ap (Option.map (λ r. if has r then assign_plans fields marked r else r)) there
          ∙ rw (named_plan store plan.plan_id stored there) refl,
      refl,
      refl,
    )
