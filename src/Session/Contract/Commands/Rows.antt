-- ===== src/Session/Contract/Commands/Rows.antt =====
-- What the commands do to the row that is found under an id.
use jev_router.Common.{
  ℕ, ◌≡◌, refl, sym, ap, ◌∙◌, Bool, true, false, ◌&&◌, String, str_eq, str_eq_iff, List, [], ◌∷◌,
  Option, none, some, ◌==◌, if◌then◌else◌, Bool-cases, inl, inr, ◌≢◌, arith,
}
use mathlib.Core.Option
use mathlib.Core.Option.{none-ne-some}
use jev_router.Common.Sorted.{find}
use jev_router.Common.Table.{update_where, find-update_where, find-append, find-holds}
use jev_router.Session.{SessionRow, Store}
use jev_router.Session.Contract.{
  Field, Binding, has_id, find_session, get, owned, prepared_row, insert_session, at_version,
  updated_row, update, open_session, closed_row, close_session, seen_row, touch,
}
use jev_router.Session.Contract.Turns.{
  compact_row, compacting, next_epoch, bump_turn, next_turn, bump_counts, count_up, counted_row,
  set_feedback_verdict, judged_row, prune, is_stale, tombstone_row,
}
use jev_router.Session.Contract.Commands.{
  Command, creates, updates, closes, compacts, touches, bumps_turn, bumps_counts, judges, prunes,
  run, run_all, born, row_counted, compacted_row, change_row, effect, effect_all,
}
use jev_router.Session.Contract.Commands.Identity.{identity-assign_all, identity-prepared_row}

-- `UPDATE` on a table whose rows keep their ids
find_session-update_where :
    (p : SessionRow → Bool) (g : SessionRow → SessionRow) (rows : List SessionRow)
    (session_id : String)
    → ((row : SessionRow) → (g row).session_id ≡ row.session_id)
    → find_session (update_where p g rows) session_id
      ≡ Option.map (λ row. if p row then g row else row) (find_session rows session_id)
unfolding find_session
find_session-update_where p g rows session_id same =
    find-update_where (has_id session_id) p g rows (λ row. ap (λ a. str_eq a session_id) (same row))

module _ {A : Type 0} where
  map_found :
      (g h : A → A) (o : Option A)
      → ((a : A) → o ≡ some a → g a ≡ h a)
      → Option.map g o ≡ Option.map h o
  map_found g h none same = refl
  map_found g h (some a) same = ap some (same a refl)

  map_same : (g : A → A) (o : Option A) → ((a : A) → o ≡ some a → g a ≡ a) → o ≡ Option.map g o
  map_same g none same = refl
  map_same g (some a) same = ap some (sym (same a refl))

-- The row that a search by id finds has that id.
found_id :
    (rows : List SessionRow) (session_id : String) (row : SessionRow)
    → find_session rows session_id ≡ some row
    → row.session_id ≡ session_id
unfolding find_session
found_id rows session_id row found =
    (str_eq_iff row.session_id session_id).0 (find-holds (has_id session_id) rows row found)

born_after :
    (binding : Binding) (now : ℕ) (session_id : String) (o : Option SessionRow)
    → elim o [
      | none ↦
          if has_id session_id (prepared_row binding now)
          then some (prepared_row binding now)
          else none
      | some row ↦ some row
    ]
      ≡ born binding now session_id o
unfolding born prepared_row
born_after binding now session_id none =
    ap (λ a. if str_eq a session_id then some (prepared_row binding now) else none)
      (ap (λ i. i.0) (identity-prepared_row binding now))
born_after binding now session_id (some row) = refl

born_beside :
    (rows : List SessionRow) (binding : Binding) (now : ℕ) (session_id : String) (row : SessionRow)
    → find_session rows binding.session_id ≡ some row
    → (o : Option SessionRow) → find_session rows session_id ≡ o
    → find_session rows session_id ≡ born binding now session_id o
unfolding born
born_beside rows binding now session_id row there none absent =
    elim (Bool-cases (str_eq binding.session_id session_id)) [
      | inl e ↦ absurd (
          none-ne-some row (
            sym absent
            ∙ ap (find_session rows) (sym ((str_eq_iff binding.session_id session_id).0 e))
            ∙ there))
      | inr other ↦ rw other absent
    ]
born_beside rows binding now session_id row there (some found) is_there = is_there

find_session-insert_session :
    (rows : List SessionRow) (binding : Binding) (now : ℕ) (session_id : String)
    (there : Option SessionRow)
    → find_session rows binding.session_id ≡ there
    → find_session (insert_session rows (prepared_row binding now) there).0 session_id
      ≡ born binding now session_id (find_session rows session_id)
unfolding insert_session find_session
find_session-insert_session rows binding now session_id none absent =
    find-append (has_id session_id) rows (prepared_row binding now)
    ∙ born_after binding now session_id (find (has_id session_id) rows)
find_session-insert_session rows binding now session_id (some row) there =
    born_beside rows binding now session_id row there (find_session rows session_id) refl

find_session-count_up :
    (zeros : Bool) (store : Store) (s : String) (e c : ℕ) (session_id : String)
    → find_session (count_up zeros s e c store).sessions session_id
      ≡ Option.map (row_counted zeros s e c) (find_session store.sessions session_id)
unfolding count_up row_counted
find_session-count_up true store s e c session_id =
    map_same (row_counted true s e c) (find_session store.sessions session_id) (λ row found. refl)
find_session-count_up false store s e c session_id =
    find_session-update_where (has_id s) (counted_row e c) store.sessions session_id (λ row. refl)

other_id :
    (s session_id : String) (a : SessionRow)
    → a.session_id ≡ session_id
    → s ≢ session_id
    → has_id s a ≡ false
other_id s session_id a named differ = elim (Bool-cases (has_id s a)) [
  | inl e ↦ absurd (differ (sym ((str_eq_iff a.session_id s).0 e) ∙ named))
  | inr other ↦ other
]

same_number : (n : ℕ) → n == n ≡ true
same_number n = ground arith

find_session-compact_row :
    (store : Store) (read : Option SessionRow) (s state : String) (compacted now : ℕ)
    (session_id : String)
    → find_session (compact_row store s state compacted now read).0.sessions session_id
      ≡ Option.map
          (compacted_row read s state compacted now)
          (find_session store.sessions session_id)
unfolding compact_row compacted_row update
find_session-compact_row store none s state compacted now session_id =
    map_same (compacted_row none s state compacted now) (find_session store.sessions session_id)
      (λ a found. refl)
find_session-compact_row store (some read) s state compacted now session_id =
    find_session-update_where (at_version s read.version)
      (updated_row (compacting (next_epoch read) state compacted) now) store.sessions session_id
      (λ a. refl)

anyone : (o : Option SessionRow) → o ≡ owned "" o
unfolding owned
anyone none = refl
anyone (some row) = refl

pub find_session-run :
    (store : Store) (c : Command) (session_id : String)
    → find_session (run store c).sessions session_id
      ≡ effect c session_id (find_session store.sessions session_id)
unfolding run update close_session touch bump_turn bump_counts set_feedback_verdict prune effect
    change_row
find_session-run store (creates binding now) session_id =
    find_session-insert_session store.sessions binding now session_id
      (find_session store.sessions binding.session_id) refl
find_session-run store (compacts read s state compacted now) session_id =
    find_session-compact_row store read s state compacted now session_id
find_session-run store (updates s version fields now) session_id =
    find_session-update_where (at_version s version) (updated_row fields now) store.sessions
      session_id (λ row. ap (λ i. i.0) (identity-assign_all fields row))
find_session-run store (closes s reason now) session_id =
    find_session-update_where (open_session s) (closed_row reason now) store.sessions session_id
      (λ row. refl)
find_session-run store (touches s now) session_id =
    find_session-update_where (has_id s) (seen_row now) store.sessions session_id (λ row. refl)
find_session-run store (bumps_turn s) session_id =
    find_session-update_where (has_id s) next_turn store.sessions session_id (λ row. refl)
find_session-run store (bumps_counts s e c) session_id =
    find_session-count_up (e == 0 && c == 0) store s e c session_id
find_session-run store (judges s verdict) session_id =
    find_session-update_where (has_id s) (judged_row verdict) store.sessions session_id
      (λ row. refl)
find_session-run store (prunes older_than now closing) session_id =
    find_session-update_where (is_stale older_than now) (tombstone_row closing) store.sessions
      session_id (λ row. refl)

pub get_anyone :
    (store : Store) (session_id : String)
    → find_session store.sessions session_id ≡ get store session_id ""
unfolding get
get_anyone store session_id = anyone (find_session store.sessions session_id)

-- An update at the row's own version lands.
pub find_session-update :
    (store : Store) (session_id : String) (row : SessionRow) (fields : List Field) (now : ℕ)
    → find_session store.sessions session_id ≡ some row
    → find_session (update store session_id row.version fields now).0.sessions session_id
      ≡ some (updated_row fields now row)
unfolding run effect change_row at_version
find_session-update store session_id row fields now found =
    find_session-run store (updates session_id row.version fields now) session_id
    ∙ rw
        (
          found,
          (str_eq_iff row.session_id session_id).1 (found_id store.sessions session_id row found),
          same_number row.version,
        )
        refl

-- The table of sessions is as good as one independent row for each id: after any writes, the row
-- found under an id is the effect of those writes on the row that was found under it before.
pub find_session-run_all :
    (store : Store) (commands : List Command) (session_id : String)
    → find_session (run_all store commands).sessions session_id
      ≡ effect_all commands session_id (find_session store.sessions session_id)
unfolding run_all effect_all
find_session-run_all store [] session_id = refl
find_session-run_all store (c ∷ cs) session_id =
    find_session-run_all (run store c) cs session_id
    ∙ ap (effect_all cs session_id) (find_session-run store c session_id)
