-- ===== src/Session/Plans/Newest.antt =====
-- The row that `ORDER BY id DESC LIMIT 1` gives (get_plan of src/jev_router/sessions.py).
use mathlib.Core.List.{Memᴰ}
use mathlib.Core.List.Memᴰ.{append_cases, append_right}
use mathlib.Core.Bool.{true≢false}
use jev_router.Common.{
  ◌≡◌, refl, sym, ap, ◌∙◌, Bool, true, false, none, some, Option-cases, inl, inr, All-of_Memᴰ,
}
use jev_router.Common.Sorted.First.{descending-IsOrder, find-sort_by, find-sort_by-none}
use jev_router.Session.{PlanRow, Store}
use jev_router.Session.Plans.{plan_key, newest_plan, insert_plan}

-- The row that a query gives is one of the table that passes it.
pub newest_plan-some :
    (p : PlanRow → Bool) (store : Store) (row : PlanRow)
    → newest_plan p store ≡ some row
    → (p row ≡ true) × Memᴰ row store.plans
unfolding newest_plan
newest_plan-some p store row there =
    let (hit, member, _) = find-sort_by (descending-IsOrder plan_key) p store.plans row there in
    (hit, member)

pub newest_plan-none :
    (p : PlanRow → Bool) (store : Store) (row : PlanRow)
    → newest_plan p store ≡ none
    → Memᴰ row store.plans
    → p row ≡ false
unfolding newest_plan
newest_plan-none p store row missing member =
    All-of_Memᴰ (λ r. p r ≡ false) store.plans row
      (find-sort_by-none (descending-IsOrder plan_key) p store.plans missing) member

-- A query that a new row alone passes gives the new row.
pub newest_plan-new :
    (p : PlanRow → Bool) (store : Store) (new : PlanRow)
    → p new ≡ true
    → ((row : PlanRow) → Memᴰ row store.plans → p row ≡ false)
    → newest_plan p (insert_plan store new false).0 ≡ some new
unfolding insert_plan
newest_plan-new p store new hit others =
    let after = (insert_plan store new false).0 in
    elim (Option-cases (newest_plan p after)) [
      | inl missing ↦ absurd (
          true≢false (
            sym hit
            ∙ newest_plan-none p after new missing (append_right store.plans (Memᴰ.head refl))))
      | inr (row, there) ↦
          let (its, member) = newest_plan-some p after row there in
          elim (append_cases store.plans member) [
            | inl old ↦ absurd (true≢false (sym its ∙ others row old))
            | inr (Memᴰ.head e) ↦ there ∙ ap (λ r. some r) e
            | inr (Memᴰ.tail m) ↦ elim m [ ]
          ]
    ]
