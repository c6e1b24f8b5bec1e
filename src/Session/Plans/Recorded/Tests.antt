-- ===== src/Session/Plans/Recorded/Tests.antt =====
-- Plans that run, and the theorems at them.
use jev_router.Common.{
  ℕ, suc, ◌≡◌, refl, Bool, true, false, str_eq, ◌++◌, String, [], ◌∷◌, none, some, keep, any,
}
use jev_router.Common.Sorted.{find, sort_by}
use jev_router.Common.Table.{update_where, count_where}
use jev_router.Turn.Ledger.{Status, change_effort}
use jev_router.Session.{PlanRow, Store}
use jev_router.Session.Requests.{take}
use jev_router.Session.Plans.{
  in_turn, plans, newest_plan, get_plan, plan_by_id, last_sequence, next_sequence, Offer, plan_row,
  conflicts, insert_plan, answer_plan, record_plan, to_status, to_column, assign_plan, assign_plans,
  is_given, update_plan, reached_provider, applied_updates,
}
use jev_router.Session.Contract.{set_column}
use jev_router.Session.Plans.Recorded.{Recorded, record_plan-Recorded, record_plan-held}

abbrev empty : Store
empty = record { sessions = []; requests = []; plans = []; next_request = 1; next_plan = 1 }

abbrev offer : String → String → ℕ → Offer
offer plan_id turn_id sequence = record {
  plan_id = plan_id;
  turn_id = turn_id;
  sequence = sequence;
  action = change_effort;
  status = Status.planned;
  to_effort = some "high";
  confirmed_effort = none;
  compaction_epoch = some 1;
  columns = [];
}

-- Two plans for one turn, an amendment that names three columns, and a plan for the next turn.
ledger : Bool → Store
unfolding record_plan update_plan
ledger unique =
    let first = (record_plan unique empty "s" (offer "p" "t1" 1) 10).0 in
    let second = (record_plan unique first "s" (offer "q" "t1" 2) 11).0 in
    let amended =
      update_plan second "p"
        (to_status (some Status.accepted)
          ∷ to_column "response_id" (some "r1")
          ∷ to_column "anchor_position" none
          ∷ [])
        12 in
    (record_plan unique amended "s" (offer "r" "t2" 2) 13).0

unfoldable plans_run : Unit {0}
unfolding plans newest_plan get_plan plan_by_id last_sequence next_sequence plan_row conflicts
    insert_plan answer_plan record_plan assign_plan assign_plans is_given update_plan
    reached_provider applied_updates ledger set_column take find sort_by update_where count_where
    keep any
plans_run = tt

the_first_plan_keeps_the_turn :
    (row : PlanRow) × (get_plan (ledger true) "s" "" "t1" ≡ some row) × (row.plan_id ≡ "p")
unfolding plans_run
the_first_plan_keeps_the_turn = (_, refl, refl)

the_next_plan_is_the_third : next_sequence (ledger true) "s" ≡ 3
unfolding plans_run
the_next_plan_is_the_third = refl

a_compaction_forgets_the_update : applied_updates (ledger true) "s" 2 ≡ []
unfolding plans_run
a_compaction_forgets_the_update = refl

without_the_index_a_turn_has_two : count_where (in_turn "s" "t1") (ledger false).plans ≡ 2
unfolding plans_run
without_the_index_a_turn_has_two = refl

abbrev holder : PlanRow
holder = record {
  id = 1;
  session_id = "s";
  plan_id = "p";
  turn_id = "t1";
  sequence = 1;
  action = change_effort;
  status = Status.accepted;
  to_effort = some "high";
  confirmed_effort = none;
  reconciled = none;
  compaction_epoch = some 1;
  created = 10;
  updated = 12;
  columns = ("response_id", "r1") ∷ [];
}

record_plan-held_example :
    (true ≡ true
      → record_plan true (ledger true) "s" (offer "z" "t1" 3) 14 ≡ (ledger true, some holder))
    × (true ≡ false
        → str_eq "z" "" ≡ false
        → get_plan (ledger true) "s" "z" "" ≡ none
        → record_plan true (ledger true) "s" (offer "z" "t1" 3) 14 ≡ (
          record (ledger true) {
            plans = (ledger true).plans ++ plan_row (ledger true) "s" (offer "z" "t1" 3) 14 ∷ [];
            next_plan = suc (ledger true).next_plan;
          },
          some (plan_row (ledger true) "s" (offer "z" "t1" 3) 14),
        ))
unfolding plans_run
record_plan-held_example = record_plan-held true (ledger true) "s" (offer "z" "t1" 3) 14 holder refl

record_plan-Recorded_example :
    Recorded false
      (ledger false)
      "s"
      (offer "z" "t1" 3)
      14
      (record_plan false (ledger false) "s" (offer "z" "t1" 3) 14)
record_plan-Recorded_example =
    record_plan-Recorded false (ledger false) "s" (offer "z" "t1" 3) 14 refl refl
