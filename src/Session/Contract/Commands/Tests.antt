-- ===== src/Session/Contract/Commands/Tests.antt =====
-- Sessions that run, and the theorems at them.
use jev_router.Common.{
  ◌≡◌, ◌≢◌, refl, true, false, String, str_eq, str_eq_iff, sym, ◌∙◌, List, [], ◌∷◌, Option, none,
  some, keep, contains,
}
use mathlib.Core.Bool.{true≢false}
use jev_router.Common.Sorted.{find}
use jev_router.Common.Table.{update_where, count_where}
use jev_router.Session.{SessionRow, Store}
use jev_router.Session.Contract.{
  to_base_effort, to_column, to_expected_effort, Binding, find_session, get, create, update,
  is_closed, owned, insert_session, set_column, close_session, touch, prepared_row, assign_all,
  assign, at_version, updated_row, open_session, closed_row, seen_row,
}
use jev_router.Session.Contract.Turns.{
  compact, compact_row, prune, bump_turn, next_turn, bump_counts, count_up, counted_row,
  set_feedback_verdict, judged_row, is_stale, tombstone_row,
}
use jev_router.Session.Contract.Once.{update-again, close_session-again, get-create}
use jev_router.Session.Contract.Commands.{
  Command, compacted_row, updates, closes, compacts, touches, bumps_turn, bumps_counts, judges,
  prunes, run, run_all, effect, effect_all, born, change_row, row_counted,
}
use jev_router.Session.Contract.Commands.Rows.{find_session-run_all}
use jev_router.Session.Contract.Commands.Kept.{Follows, create-run_all}

abbrev empty : Store
empty = record { sessions = []; requests = []; plans = []; next_request = 1; next_plan = 1 }

abbrev binding : Binding
binding = record {
  session_id = "s";
  owner = "ann";
  fields = to_base_effort (some "low") ∷ to_column "model_key" (some "m") ∷ [];
}

abbrev admitted : Store
admitted = (create empty binding 10).0

-- Its row as a compaction reads it after the first update
abbrev at_version_2 : Option SessionRow
at_version_2 = some (record (prepared_row binding 10) { version = 2 })

-- Its work, and a prune long after. The second compaction read the row before the first wrote.
abbrev life : List Command
life =
    updates "s" 1 (to_expected_effort (some "high") ∷ []) 11
    ∷ compacts at_version_2 "s" "known" 12 12
    ∷ compacts at_version_2 "s" "unknown" 12 12
    ∷ bumps_turn "s"
    ∷ bumps_counts "s" 1 0
    ∷ judges "s" "good"
    ∷ touches "s" 13
    ∷ closes "t" "closed" 14
    ∷ prunes 100 200 200
    ∷ []

unfoldable sessions_run : Unit {0}
unfolding find_session get owned create insert_session prepared_row assign_all assign update
    at_version updated_row close_session open_session is_closed closed_row touch seen_row compact
    compact_row bump_turn next_turn bump_counts count_up counted_row set_feedback_verdict judged_row
    prune is_stale tombstone_row run run_all effect effect_all born change_row row_counted
    compacted_row find update_where count_where keep contains set_column
sessions_run = tt

a_pruned_session_is_closed :
    (r : SessionRow) × (get (run_all admitted life) "s" "ann" ≡ some r)
    × (r.tombstone ≡ true)
    × (r.version ≡ 4)
    × (r.columns ≡ [])
    × (r.compaction_epoch ≡ some 1)
    × (r.expected_effort ≡ some "high")
unfolding sessions_run
a_pruned_session_is_closed = (_, refl, refl, refl, refl, refl, refl)

the_second_update_is_stale : (update (update admitted "s" 1 [] 11).0 "s" 1 [] 12).1 ≡ false
unfolding sessions_run
the_second_update_is_stale = refl

-- Another update came between a compaction's read and its write: it says epoch 1 and writes nothing.
a_late_compaction_writes_nothing :
    compact (λ store. (update store "s" 1 [] 11).0) admitted "s" "known" 12 12
    ≡ ((update admitted "s" 1 [] 11).0, 1)
unfolding sessions_run
a_late_compaction_writes_nothing = refl

a_compaction_is_a_command :
    (compact (λ store. store) admitted "s" "known" 12 12).0
    ≡ run admitted (compacts (get admitted "s" "") "s" "known" 12 12)
unfolding sessions_run
a_compaction_is_a_command = refl

find_session-run_all_example :
    find_session (run_all admitted life).sessions "s"
    ≡ effect_all life "s" (find_session admitted.sessions "s")
find_session-run_all_example = find_session-run_all admitted life "s"

create-run_all_example :
    (new : SessionRow) × (create (run_all admitted life) binding 300
      ≡ (run_all admitted life, some new, false))
    × Follows (prepared_row binding 10) new
unfolding sessions_run
create-run_all_example = create-run_all admitted life binding 300 (prepared_row binding 10) refl

update-again_example :
    update (update admitted "s" 1 [] 11).0 "s" 1 (to_base_effort (some "high") ∷ []) 12
    ≡ ((update admitted "s" 1 [] 11).0, false)
update-again_example = update-again admitted "s" 1 [] (to_base_effort (some "high") ∷ []) 11 12

close_session-again_example :
    close_session (close_session admitted "s" "done" 11).0 "s" "again" 12
    ≡ ((close_session admitted "s" "done" 11).0, false)
close_session-again_example = close_session-again admitted "s" "done" "again" 11 12

different_texts : (a b : String) → str_eq a b ≡ false → a ≢ b
different_texts a b h e = true≢false (sym ((str_eq_iff a b).1 e) ∙ h)

get-create_example :
    let (after, new, created) = create empty binding 10 in
    (created ≡ true)
    × (new ≡ some (prepared_row binding 10))
    × (get after "s" "ann" ≡ some (prepared_row binding 10))
    × (get after "s" "bob" ≡ none)
unfolding sessions_run
get-create_example =
    get-create empty binding 10 "bob" refl (different_texts "bob" "" refl)
      (different_texts "bob" "ann" refl)
