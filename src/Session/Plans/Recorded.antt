-- ===== src/Session/Plans/Recorded.antt =====
-- What `record_plan` of src/jev_router/sessions.py leaves and gives back, with the index of one plan
-- for each turn and without it.
mod Tests
use mathlib.Core.List.{Memᴰ}
use mathlib.Core.List.Memᴰ.{append_cases, append_right}
use mathlib.Core.Bool.{true≢false, false≢true}
use jev_router.Common.{
  ℕ, suc, ◌≡◌, ◌≢◌, ◌⊎◌, refl, sym, ap, ◌∙◌, subst, Bool, true, false, not, ◌&&◌, ◌||◌, String,
  str_eq, str_eq_iff, List, [], ◌∷◌, ◌++◌, Option, none, some, any, Bool-cases, Option-cases, inl,
  inr, and_left, and_right, and_true, or_left, or_true, and_false, if◌then◌else◌, All, All-of_Memᴰ,
}
use jev_router.Common.Sorted.{sort_by, descending}
use jev_router.Common.Sorted.First.{descending-IsOrder, find-sort_by, find-sort_by-none}
use jev_router.Common.Table.{any-Memᴰ}
use jev_router.Session.{PlanRow, Store}
use jev_router.Session.Plans.{
  in_turn, is_plan, plan_key, newest_plan, get_plan, Offer, plan_row, conflicts, insert_plan,
  answer_plan, or_else, record_plan,
}
use jev_router.Session.Plans.Newest.{newest_plan-some, newest_plan-none, newest_plan-new}

conflicts-is_plan :
    (unique : Bool) (new row : PlanRow)
    → conflicts unique new row ≡ false
    → is_plan new.session_id new.plan_id row ≡ false
unfolding conflicts
conflicts-is_plan unique new row free =
    or_left (is_plan new.session_id new.plan_id row)
      (unique && in_turn new.session_id new.turn_id row) free

-- The row that is in the way
in_the_way :
    (c : PlanRow → Bool) (rows : List PlanRow)
    → any c rows ≡ true
    → (row : PlanRow) × Memᴰ row rows × (c row ≡ true)
unfolding any
in_the_way c [] hit = cc
in_the_way c (r ∷ rs) hit = elim (Bool-cases (c r)) [
  | inl here ↦ (r, Memᴰ.head refl, here)
  | inr past ↦
      let (row, member, found) = in_the_way c rs (rw past at hit) in (row, Memᴰ.tail member, found)
]

no_conflict :
    (unique : Bool) (new row : PlanRow) (store : Store)
    → any (conflicts unique new) store.plans ≡ false
    → Memᴰ row store.plans
    → conflicts unique new row ≡ false
no_conflict unique new row store free member = elim (Bool-cases (conflicts unique new row)) [
  | inl hit ↦
      absurd (true≢false (sym (any-Memᴰ (conflicts unique new) store.plans row member hit) ∙ free))
  | inr other ↦ other
]

same_text : (a : String) → str_eq a a ≡ true
same_text a = (str_eq_iff a a).1 refl

abbrev appended : Store → PlanRow → Store
appended store new = record store {
  plans = store.plans ++ new ∷ [];
  next_plan = suc store.next_plan;
}

module _ (unique : Bool) (store : Store) (session_id : String) (plan : Offer) (now : ℕ) where
  abbrev new : PlanRow
  new = plan_row store session_id plan now

  -- The offered plan is now the last row and the answer, or the store is as it was and the answer
  -- is a row of this session that has the turn or the plan's id.
  pub Recorded : Store × Option PlanRow → Type 0
  Recorded (after, answer) =
      ((after ≡ appended store new) × (answer ≡ some new))
      ⊎ ((row : PlanRow) × (after ≡ store)
          × (answer ≡ some row)
          × Memᴰ row store.plans
          × (row.session_id ≡ session_id)
          × ((row.turn_id ≡ plan.turn_id) ⊎ (row.plan_id ≡ plan.plan_id)))

  inserted :
      any (conflicts unique new) store.plans ≡ false
      → str_eq plan.plan_id "" ≡ false
      → record_plan unique store session_id plan now ≡ (appended store new, some new)
  unfolding record_plan insert_plan answer_plan plan_row get_plan
  inserted free named =
      rw (free, named)
        (ap (λ o. (appended store new, o))
          (newest_plan-new (is_plan session_id plan.plan_id) store new
            (and_true (same_text session_id) (same_text plan.plan_id))
            (λ row member.
              conflicts-is_plan unique new row (no_conflict unique new row store free member))))

  its_turn :
      (row : PlanRow)
      → in_turn session_id plan.turn_id row ≡ true
      → (row.session_id ≡ session_id) × (row.turn_id ≡ plan.turn_id)
  its_turn row hit = (
    (str_eq_iff row.session_id session_id).0
        (and_left (str_eq row.session_id session_id) (str_eq row.turn_id plan.turn_id) hit),
    (str_eq_iff row.turn_id plan.turn_id).0
        (and_right (str_eq row.session_id session_id) (str_eq row.turn_id plan.turn_id) hit),
  )

  its_id :
      (row : PlanRow)
      → is_plan session_id plan.plan_id row ≡ true
      → (row.session_id ≡ session_id) × (row.plan_id ≡ plan.plan_id)
  its_id row hit = (
    (str_eq_iff row.session_id session_id).0
        (and_left (str_eq row.session_id session_id) (str_eq row.plan_id plan.plan_id) hit),
    (str_eq_iff row.plan_id plan.plan_id).0
        (and_right (str_eq row.session_id session_id) (str_eq row.plan_id plan.plan_id) hit),
  )

  -- Where no row has the turn, the row in the way has the plan's id.
  by_id :
      any (conflicts unique new) store.plans ≡ true
      → newest_plan (in_turn session_id plan.turn_id) store ≡ none
      → newest_plan (is_plan session_id plan.plan_id) store ≢ none
  unfolding conflicts plan_row
  by_id taken missing absent =
      let (row, member, hit) = in_the_way (conflicts unique new) store.plans taken in
      false≢true (
        rw
          (
            newest_plan-none (is_plan session_id plan.plan_id) store row absent member,
            newest_plan-none (in_turn session_id plan.turn_id) store row missing member,
            and_false unique,
          )
          at hit)

  answered :
      any (conflicts unique new) store.plans ≡ true
      → (turn same : Option PlanRow) → newest_plan (in_turn session_id plan.turn_id) store ≡ turn
      → newest_plan (is_plan session_id plan.plan_id) store ≡ same
      → Recorded (store, or_else turn same)
  unfolding Recorded
  answered taken (some row) same there other =
      let (hit, member) = newest_plan-some (in_turn session_id plan.turn_id) store row there in
      let (mine, turn) = its_turn row hit in inr (row, refl, refl, member, mine, inl turn)
  answered taken none (some row) missing there =
      let (hit, member) = newest_plan-some (is_plan session_id plan.plan_id) store row there in
      let (mine, same) = its_id row hit in inr (row, refl, refl, member, mine, inr same)
  answered taken none none missing absent = absurd (by_id taken missing absent)

  -- Without the index only the plan's id is in the way.
  free :
      unique ≡ false
      → newest_plan (is_plan session_id plan.plan_id) store ≡ none
      → any (conflicts unique new) store.plans ≡ false
  unfolding conflicts plan_row
  free bare absent = elim (Bool-cases (any (conflicts unique new) store.plans)) [
    | inr other ↦ other
    | inl taken ↦
        let (row, member, hit) = in_the_way (conflicts unique new) store.plans taken in
        absurd (
          false≢true (
            rw (newest_plan-none (is_plan session_id plan.plan_id) store row absent member, bare) at
              hit))
  ]

  refused :
      any (conflicts unique new) store.plans ≡ true
      → str_eq plan.turn_id "" ≡ false
      → record_plan unique store session_id plan now ≡ (
        store,
        or_else
            (newest_plan (in_turn session_id plan.turn_id) store)
            (get_plan store session_id plan.plan_id ""),
      )
  unfolding record_plan insert_plan answer_plan plan_row get_plan
  refused taken placed = rw (taken, placed) refl

  same_plan :
      str_eq plan.plan_id "" ≡ false
      → get_plan store session_id plan.plan_id ""
        ≡ newest_plan (is_plan session_id plan.plan_id) store
  unfolding get_plan
  same_plan named = rw named refl

  -- A plan that is offered is never lost: either it is the new last row of the ledger and the
  -- answer, or nothing is written and the answer is a row on record that has the same session and
  -- the same turn or the same plan id. With the index of one plan for each turn and without it,
  -- where the plan names its id and its turn.
  pub record_plan-Recorded :
      str_eq plan.plan_id "" ≡ false
      → str_eq plan.turn_id "" ≡ false
      → Recorded (record_plan unique store session_id plan now)
  unfolding Recorded
  record_plan-Recorded named placed = elim (Bool-cases (any (conflicts unique new) store.plans)) [
    | inl taken ↦
        subst Recorded
          (sym (
            refused taken placed
            ∙ ap (λ o. (store, or_else (newest_plan (in_turn session_id plan.turn_id) store) o))
                (same_plan named)))
          (answered taken (newest_plan (in_turn session_id plan.turn_id) store)
            (newest_plan (is_plan session_id plan.plan_id) store) refl refl)
    | inr free ↦ subst Recorded (sym (inserted free named)) (inl (refl, refl))
  ]

  -- A plan offered for a turn that already has one: with the index of one plan for each turn it
  -- changes nothing and gets back the plan that holds the turn. Without the index, a plan whose id
  -- the session does not have yet is written as a second one of that turn, and is the answer.
  pub record_plan-held :
      (row : PlanRow)
      → get_plan store session_id "" plan.turn_id ≡ some row
      → (unique ≡ true → record_plan unique store session_id plan now ≡ (store, some row))
        × (unique ≡ false
            → str_eq plan.plan_id "" ≡ false
            → get_plan store session_id plan.plan_id "" ≡ none
            → record_plan unique store session_id plan now ≡ (appended store new, some new))
  unfolding get_plan conflicts plan_row
  record_plan-held row there = elim (Bool-cases (str_eq plan.turn_id "")) [
    | inl blank ↦ cc (rw blank at there)
    | inr placed ↦
        let holds : newest_plan (in_turn session_id plan.turn_id) store ≡ some row =
          rw placed at there in
        let (hit, member) = newest_plan-some (in_turn session_id plan.turn_id) store row holds in
        (
          λ index.
              refused
                (any-Memᴰ (conflicts unique new) store.plans row member
                  (rw (index, hit) (or_true (is_plan session_id plan.plan_id row))))
                placed
              ∙ ap (λ o. (store, or_else o (get_plan store session_id plan.plan_id ""))) holds,
          λ bare named absent. inserted (free bare (rw named at absent)) named,
        )
  ]
