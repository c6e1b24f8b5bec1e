-- ===== src/Turn/Ledger/Paths.antt =====
-- The paths of a ledger row's status (`advance` of src/jev_router/effort.py).
use mathlib.Core.List.{Memᴰ}
use jev_router.Common.{◌≡◌, ◌≢◌, refl, String, List, [], ◌∷◌, Option, arith}
use jev_router.Turn.Ledger.{Status, Event, Row, RowAction, advance, effective_after, effective}

-- What a sequence of events makes of a status.
abbrev pub run : Status → List Event → Status
run s [] = s
run s (e ∷ es) = run (advance s e) es

-- An `accepted` with a `completed` after it.
pub data AcceptedThenCompleted : List Event → Type 0 where
  here : {es : List Event} → Memᴰ Event.completed es → AcceptedThenCompleted (Event.accepted ∷ es)
  later : {e : Event} {es : List Event} → AcceptedThenCompleted es → AcceptedThenCompleted (e ∷ es)

-- A confirmed row stays confirmed, and a row whose outcome is unknown stays unknown.
pub run-absorbs :
    (es : List Event)
    → (run Status.confirmed es ≡ Status.confirmed)
      × (run Status.outcome_unknown es ≡ Status.outcome_unknown)
unfolding advance
run-absorbs [] = (refl, refl)
run-absorbs (Event.accepted ∷ es) = run-absorbs es
run-absorbs (_ ∷ es) = run-absorbs es

run_other : (w : String) (es : List Event) → run (Status.other w) es ≡ Status.other w
unfolding advance
run_other w [] = refl
run_other w (e ∷ es) = run_other w es

run_accepted :
    (es : List Event) → run Status.accepted es ≡ Status.confirmed → Memᴰ Event.completed es
unfolding advance
run_accepted [] h = cc
run_accepted (Event.accepted ∷ es) h = Memᴰ.tail (run_accepted es h)
run_accepted (Event.completed ∷ es) h = Memᴰ.head refl
run_accepted (Event.rejected ∷ es) h = cc (run-absorbs es).1
run_accepted (Event.unknown ∷ es) h = cc (run-absorbs es).1
run_accepted (Event.other _ ∷ es) h = Memᴰ.tail (run_accepted es h)

mutual
  unfolding advance

  run-planned :
      (es : List Event) → run Status.planned es ≡ Status.confirmed → AcceptedThenCompleted es
  run-planned [] h = cc
  run-planned (Event.accepted ∷ es) h = AcceptedThenCompleted.here (run_accepted es h)
  run-planned (Event.completed ∷ es) h = AcceptedThenCompleted.later (run-planned es h)
  run-planned (Event.rejected ∷ es) h = AcceptedThenCompleted.later (run_rejected es h)
  run-planned (Event.unknown ∷ es) h = cc (run-absorbs es).1
  run-planned (Event.other _ ∷ es) h = AcceptedThenCompleted.later (run-planned es h)

  run_rejected :
      (es : List Event) → run Status.rejected es ≡ Status.confirmed → AcceptedThenCompleted es
  run_rejected [] h = cc
  run_rejected (Event.accepted ∷ es) h = AcceptedThenCompleted.here (run_accepted es h)
  run_rejected (Event.completed ∷ es) h = AcceptedThenCompleted.later (run_rejected es h)
  run_rejected (Event.rejected ∷ es) h = AcceptedThenCompleted.later (run_rejected es h)
  run_rejected (Event.unknown ∷ es) h = cc (run-absorbs es).1
  run_rejected (Event.other _ ∷ es) h = AcceptedThenCompleted.later (run_rejected es h)

effective_confirmed :
    (s : Status) (a : RowAction) (to c : Option String)
    → effective s a to c ≢ c
    → s ≡ Status.confirmed
unfolding effective
effective_confirmed s a to c h = ground arith

-- A planned update becomes the effective effort only after an acceptance and, later, a
-- completion.
pub effective_after-run :
    (row : Row) (es : List Event) (c : Option String)
    → row.status ≡ run Status.planned es
    → effective_after row c ≢ c
    → AcceptedThenCompleted es
unfolding effective_after
effective_after-run row es c h moved =
    run-planned es (rw (← h) (effective_confirmed row.status row.action row.to_effort c moved))
