-- ===== src/Session/Contract/Once.antt =====
-- The writes that land once: a create, an update at one version, a close.
use jev_router.Common.{
  ℕ, suc, ◌≡◌, ◌≢◌, refl, sym, ap, ◌∙◌, Bool, true, false, not, String, str_eq, str_eq_iff, List,
  Option, none, some, ◌==◌, Bool-cases, inl, inr, arith, and_right, and_false,
}
use jev_router.Common.Table.{
  update_where, count_where, update_where_nothing, count_where-update_where,
}
use jev_router.Session.{SessionRow, Store}
use jev_router.Session.Contract.{
  Field, Binding, has_id, is_closed, find_session, owned, get, prepared_row, insert_session, create,
  at_version, updated_row, update, open_session, closed_row, close_session,
}
use jev_router.Session.Contract.Commands.{creates, run, born, effect}
use jev_router.Session.Contract.Commands.Identity.{identity-prepared_row}
use jev_router.Session.Contract.Commands.Rows.{find_session-run}

-- A conditional write whose condition no row meets leaves the store, and says so.
unhit :
    (store : Store) (p : SessionRow → Bool) (g : SessionRow → SessionRow)
    → count_where p store.sessions ≡ 0
    → ◌≡◌ {A = Store × Bool}
        (
          record store { sessions = update_where p g store.sessions },
          count_where p store.sessions == 1,
        )
        (store, false)
unhit store p g nothing =
    ap (λ rows. (record store { sessions = rows }, count_where p store.sessions == 1))
      (update_where_nothing p g store.sessions nothing)
    ∙ ap (λ n. (store, n == 1)) nothing

next_version : (n v : ℕ) → n == v ≡ true → suc n == v ≡ false
next_version n v h = ground arith

updated_row-moves :
    (session_id : String) (version : ℕ) (fields : List Field) (now : ℕ) (row : SessionRow)
    → at_version session_id version row ≡ true
    → at_version session_id version (updated_row fields now row) ≡ false
unfolding at_version updated_row
updated_row-moves session_id version fields now row hit =
    rw
      (next_version row.version version
        (and_right (has_id session_id row) (row.version == version) hit))
      (and_false (has_id session_id (updated_row fields now row)))

-- Of two updates that read the same version of a session, the second reports that it failed and
-- changes nothing.
pub update-again :
    (store : Store) (session_id : String) (version : ℕ) (fields others : List Field) (now later : ℕ)
    → update (update store session_id version fields now).0 session_id version others later
      ≡ ((update store session_id version fields now).0, false)
unfolding update
update-again store session_id version fields others now later =
    unhit (update store session_id version fields now).0 (at_version session_id version)
      (updated_row others later)
      (count_where-update_where (at_version session_id version) (updated_row fields now)
        store.sessions (updated_row-moves session_id version fields now))

closed_row-moves :
    (session_id reason : String) (now : ℕ) (row : SessionRow)
    → open_session session_id row ≡ true
    → open_session session_id (closed_row reason now row) ≡ false
unfolding open_session closed_row is_closed
closed_row-moves session_id reason now row hit = and_false (has_id session_id row)

pub close_session-again :
    (store : Store) (session_id reason other : String) (now later : ℕ)
    → close_session (close_session store session_id reason now).0 session_id other later
      ≡ ((close_session store session_id reason now).0, false)
unfolding close_session
close_session-again store session_id reason other now later =
    unhit (close_session store session_id reason now).0 (open_session session_id)
      (closed_row other later)
      (count_where-update_where (open_session session_id) (closed_row reason now) store.sessions
        (closed_row-moves session_id reason now))

same_text : (a : String) → str_eq a a ≡ true
same_text a = (str_eq_iff a a).1 refl

find_session-create :
    (store : Store) (binding : Binding) (now : ℕ)
    → find_session store.sessions binding.session_id ≡ none
    → find_session (create store binding now).0.sessions binding.session_id
      ≡ some (prepared_row binding now)
unfolding run effect born
find_session-create store binding now absent =
    find_session-run store (creates binding now) binding.session_id
    ∙ rw (absent, same_text binding.session_id) refl

owned_self :
    (row : SessionRow) (owner : String) → row.owner ≡ owner → owned owner (some row) ≡ some row
unfolding owned
owned_self row owner own = rw (own, same_text owner, and_false (not (str_eq owner ""))) refl

owned-stranger :
    (row : SessionRow) (other : String)
    → str_eq other "" ≡ false
    → str_eq row.owner other ≡ false
    → owned other (some row) ≡ none
unfolding owned
owned-stranger row other named differ = rw (named, differ) refl

different : (a b : String) → b ≢ a → str_eq a b ≡ false
different a b differ = elim (Bool-cases (str_eq a b)) [
  | inl e ↦ absurd (differ (sym ((str_eq_iff a b).0 e)))
  | inr n ↦ n
]

insert_session-absent :
    (rows : List SessionRow) (row : SessionRow) (o : Option SessionRow)
    → o ≡ none
    → (insert_session rows row o).1 ≡ true
unfolding insert_session
insert_session-absent rows row o absent = rw absent refl

-- A session created under an id that is not on record is created, returned, and read back as the
-- prepared row by its owner, and as absent by anybody else who names himself.
pub get-create :
    (store : Store) (binding : Binding) (now : ℕ) (other : String)
    → find_session store.sessions binding.session_id ≡ none
    → other ≢ ""
    → other ≢ binding.owner
    → let (after, row, created) = create store binding now in
      (created ≡ true)
      × (row ≡ some (prepared_row binding now))
      × (get after binding.session_id binding.owner ≡ some (prepared_row binding now))
      × (get after binding.session_id other ≡ none)
unfolding get create
get-create store binding now other absent named stranger =
    let found = find_session-create store binding now absent in
    let row = prepared_row binding now in
    let own =
      ap (λ (i : String × String × ℕ × Bool × ℕ). i.1) (identity-prepared_row binding now) in
    (
      insert_session-absent store.sessions row (find_session store.sessions binding.session_id)
          absent,
      found,
      ap (owned binding.owner) found ∙ owned_self row binding.owner own,
      ap (owned other) found
          ∙ owned-stranger row other (different other "" (λ e. named (sym e)))
              (different row.owner other (λ e. stranger (e ∙ own))),
    )
