-- ===== src/Session/Contract/Commands/Kept.antt =====
-- What no sequence of commands takes from a session, and what a create then reports.
use jev_router.Common.{
  ℕ, ◌≤◌, ◌≡◌, refl, ap, ◌∙◌, Bool, true, false, ◌&&◌, String, List, [], ◌∷◌, none, some, ◌==◌,
  Bool-cases, inl, inr, arith, if◌then◌else◌,
}
use jev_router.Session.{SessionRow, Store}
use jev_router.Session.Contract.{
  Field, Binding, has_id, find_session, prepared_row, insert_session, create, at_version,
  updated_row, open_session, closed_row, seen_row,
}
use jev_router.Session.Contract.Turns.{
  next_turn, counted_row, judged_row, is_stale, tombstone_row, compacting, next_epoch,
}
use jev_router.Session.Contract.Commands.{
  Command, creates, updates, closes, compacts, touches, bumps_turn, bumps_counts, judges, prunes,
  run_all, compacted_row, change_row, effect, effect_all, row_counted, born,
}
use jev_router.Session.Contract.Commands.Identity.{identity-assign_all}
use jev_router.Session.Contract.Commands.Rows.{find_session-run_all}

-- A row is the same session's, at the same version or a later one.
pub record Follows (old new : SessionRow) : Type 0 where
  pub same_id : new.session_id ≡ old.session_id
  pub same_owner : new.owner ≡ old.owner
  pub same_created : new.created ≡ old.created
  pub newer : old.version ≤ new.version
  pub stays_gone : old.tombstone ≡ true → new.tombstone ≡ true

Follows-refl : (row : SessionRow) → Follows row row
Follows-refl row = record {
  same_id = refl;
  same_owner = refl;
  same_created = refl;
  newer = omega arith;
  stays_gone = λ gone. gone;
}

Follows-trans : (a b c : SessionRow) → Follows a b → Follows b c → Follows a c
Follows-trans a b c first then_ = record {
  same_id = then_.same_id ∙ first.same_id;
  same_owner = then_.same_owner ∙ first.same_owner;
  same_created = then_.same_created ∙ first.same_created;
  newer = omega (arith, first.newer, then_.newer);
  stays_gone = λ gone. then_.stays_gone (first.stays_gone gone);
}

module _ (test : Bool) (row new : SessionRow) where
  Follows-if : Follows row new → Follows row (if test then new else row)
  Follows-if h = elim (Bool-cases test) [ inl e ↦ rw e h | inr n ↦ rw n (Follows-refl row) ]

updated_row-Follows :
    (fields : List Field) (now : ℕ) (row : SessionRow) → Follows row (updated_row fields now row)
unfolding updated_row
updated_row-Follows fields now row =
    let same = identity-assign_all fields row in
    record {
      same_id = ap (λ (i : String × String × ℕ × Bool × ℕ). i.0) same;
      same_owner = ap (λ (i : String × String × ℕ × Bool × ℕ). i.1) same;
      same_created = ap (λ (i : String × String × ℕ × Bool × ℕ). i.2) same;
      newer = omega arith;
      stays_gone = λ gone. ap (λ (i : String × String × ℕ × Bool × ℕ). i.3) same ∙ gone;
    }

-- A write of columns that are not the identity's, at the version that follows or the same one.
module _ (row new : SessionRow) (id_ : new.session_id ≡ row.session_id)
    (owner_ : new.owner ≡ row.owner) (created_ : new.created ≡ row.created) where
  Follows-write :
      row.version ≤ new.version → (row.tombstone ≡ true → new.tombstone ≡ true) → Follows row new
  Follows-write later gone = record {
    same_id = id_;
    same_owner = owner_;
    same_created = created_;
    newer = later;
    stays_gone = gone;
  }

row_counted-Follows :
    (zeros : Bool) (s : String) (e c : ℕ) (row : SessionRow)
    → Follows row (row_counted zeros s e c row)
unfolding row_counted counted_row
row_counted-Follows true s e c row = Follows-refl row
row_counted-Follows false s e c row =
    Follows-if (has_id s row) row (counted_row e c row)
      (Follows-write row (counted_row e c row) refl refl refl (omega arith) (λ gone. gone))

change_row-Follows : (c : Command) (row : SessionRow) → Follows row (change_row c row)
unfolding change_row compacted_row closed_row seen_row next_turn judged_row tombstone_row
change_row-Follows (creates binding now) row = Follows-refl row
change_row-Follows (updates s version fields now) row =
    Follows-if (at_version s version row) row (updated_row fields now row)
      (updated_row-Follows fields now row)
change_row-Follows (closes s reason now) row =
    Follows-if (open_session s row) row (closed_row reason now row)
      (Follows-write row (closed_row reason now row) refl refl refl (omega arith) (λ gone. gone))
change_row-Follows (compacts none s state compacted now) row = Follows-refl row
change_row-Follows (compacts (some read) s state compacted now) row =
    Follows-if (at_version s read.version row) row
      (updated_row (compacting (next_epoch read) state compacted) now row)
      (updated_row-Follows (compacting (next_epoch read) state compacted) now row)
change_row-Follows (touches s now) row =
    Follows-if (has_id s row) row (seen_row now row)
      (Follows-write row (seen_row now row) refl refl refl (omega arith) (λ gone. gone))
change_row-Follows (bumps_turn s) row =
    Follows-if (has_id s row) row (next_turn row)
      (Follows-write row (next_turn row) refl refl refl (omega arith) (λ gone. gone))
change_row-Follows (bumps_counts s e c) row = row_counted-Follows (e == 0 && c == 0) s e c row
change_row-Follows (judges s verdict) row =
    Follows-if (has_id s row) row (judged_row verdict row)
      (Follows-write row (judged_row verdict row) refl refl refl (omega arith) (λ gone. gone))
change_row-Follows (prunes older_than now closing) row =
    Follows-if (is_stale older_than now row) row (tombstone_row closing row)
      (Follows-write row (tombstone_row closing row) refl refl refl (omega arith) (λ gone. refl))

effect-Follows :
    (c : Command) (session_id : String) (row : SessionRow)
    → (new : SessionRow) × (effect c session_id (some row) ≡ some new) × Follows row new
unfolding effect born
effect-Follows (creates binding now) session_id row = (row, refl, Follows-refl row)
effect-Follows (updates s version fields now) session_id row =
    (_, refl, change_row-Follows (updates s version fields now) row)
effect-Follows (closes s reason now) session_id row =
    (_, refl, change_row-Follows (closes s reason now) row)
effect-Follows (compacts read s state compacted now) session_id row =
    (_, refl, change_row-Follows (compacts read s state compacted now) row)
effect-Follows (touches s now) session_id row = (_, refl, change_row-Follows (touches s now) row)
effect-Follows (bumps_turn s) session_id row = (_, refl, change_row-Follows (bumps_turn s) row)
effect-Follows (bumps_counts s e c) session_id row =
    (_, refl, change_row-Follows (bumps_counts s e c) row)
effect-Follows (judges s verdict) session_id row =
    (_, refl, change_row-Follows (judges s verdict) row)
effect-Follows (prunes older_than now closing) session_id row =
    (_, refl, change_row-Follows (prunes older_than now closing) row)

effect_all-Follows :
    (commands : List Command) (session_id : String) (row : SessionRow)
    → (new : SessionRow) × (effect_all commands session_id (some row) ≡ some new) × Follows row new
unfolding effect_all
effect_all-Follows [] session_id row = (row, refl, Follows-refl row)
effect_all-Follows (c ∷ cs) session_id row =
    let (mid, first, follows_) = effect-Follows c session_id row in
    let (last, rest, onward) = effect_all-Follows cs session_id mid in
    (last, ap (effect_all cs session_id) first ∙ rest, Follows-trans row mid last follows_ onward)

create_there :
    (store : Store) (binding : Binding) (now : ℕ) (row : SessionRow)
    → find_session store.sessions binding.session_id ≡ some row
    → create store binding now ≡ (store, some row, false)
unfolding create insert_session
create_there store binding now row there =
    let leaves = insert_session store.sessions (prepared_row binding now) in
    ap
      (λ o. (
        record store { sessions = (leaves o).0 },
        find_session (leaves o).0 binding.session_id,
        (leaves o).1,
      ))
      there
    ∙ ap (λ o. (store, o, false)) there

-- A session on record is what every later create with its id returns, with the store unchanged:
-- same owner, same time of creation, a version no lower and a tombstone kept, whatever writes came
-- in between, a prune included.
pub create-run_all :
    (store : Store) (commands : List Command) (binding : Binding) (now : ℕ) (row : SessionRow)
    → find_session store.sessions binding.session_id ≡ some row
    → (new : SessionRow) × (create (run_all store commands) binding now
        ≡ (run_all store commands, some new, false))
      × Follows row new
create-run_all store commands binding now row there =
    let (new, found, follows_) = effect_all-Follows commands binding.session_id row in
    (
      new,
      create_there (run_all store commands) binding now new (
          find_session-run_all store commands binding.session_id
          ∙ ap (effect_all commands binding.session_id) there
          ∙ found),
      follows_,
    )
