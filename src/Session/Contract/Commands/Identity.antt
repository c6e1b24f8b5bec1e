-- ===== src/Session/Contract/Commands/Identity.antt =====
-- The columns of a session's row that no update names.
use jev_router.Common.{ℕ, ◌≡◌, refl, ap, ◌∙◌, Bool, false, String, List, [], ◌∷◌}
use jev_router.Session.{SessionRow}
use jev_router.Session.Contract.{
  Field, to_state, to_base_effort, to_effective_effort, to_expected_effort, to_confirmed_effort,
  to_effort_lineage, to_blocked_reason, to_compaction_state, to_compaction_epoch, to_compacted_at,
  to_column, Binding, assign, assign_all, unnamed_row, prepared_row,
}

-- What no field of an update names
abbrev pub identity : SessionRow → String × String × ℕ × Bool × ℕ
identity row = (row.session_id, row.owner, row.created, row.tombstone, row.version)

identity-assign : (f : Field) (row : SessionRow) → identity (assign f row) ≡ identity row
unfolding assign
identity-assign (to_state s) row = refl
identity-assign (to_base_effort e) row = refl
identity-assign (to_effective_effort e) row = refl
identity-assign (to_expected_effort e) row = refl
identity-assign (to_confirmed_effort e) row = refl
identity-assign (to_effort_lineage l) row = refl
identity-assign (to_blocked_reason r) row = refl
identity-assign (to_compaction_state c) row = refl
identity-assign (to_compaction_epoch n) row = refl
identity-assign (to_compacted_at t) row = refl
identity-assign (to_column name v) row = refl

pub identity-assign_all :
    (fields : List Field) (row : SessionRow) → identity (assign_all fields row) ≡ identity row
unfolding assign_all
identity-assign_all [] row = refl
identity-assign_all (f ∷ fs) row = identity-assign_all fs (assign f row) ∙ identity-assign f row

pub identity-prepared_row :
    (binding : Binding) (now : ℕ)
    → identity (prepared_row binding now) ≡ (binding.session_id, binding.owner, now, false, 1)
unfolding prepared_row
identity-prepared_row binding now =
    ap (λ (i : String × String × ℕ × Bool × ℕ). (i.0, i.1, now, i.3, 1))
      (identity-assign_all binding.fields (unnamed_row binding.session_id binding.owner now))
