-- ===== src/Turn/Ledger/Search.antt =====
-- The open change and the hole that the ledger finds (src/jev_router/effort.py).
use mathlib.Core.List.{Memᴰ}
use jev_router.Common.{◌≤◌, ◌≡◌, true, false, List, none, some, arith, All, All-map}
use jev_router.Common.Sorted.First.{
  ascending-IsOrder, descending-IsOrder, find-sort_by, find-sort_by-none,
}
use jev_router.Turn.Ledger.{
  Row, sequence_of, is_open_change, is_hole, open_change, reconciliation_hole,
}

-- The row found is an open change of the ledger, and no open change of it is newer.
pub open_change-newest :
    (rows : List Row) (row : Row)
    → open_change rows ≡ some row
    → (is_open_change row ≡ true)
      × Memᴰ row rows
      × All (λ r. is_open_change r ≡ true → sequence_of r ≤ sequence_of row) rows
unfolding open_change
open_change-newest rows row h =
    let (hit, there, best) =
      find-sort_by (descending-IsOrder sequence_of) is_open_change rows row h in
    (hit, there, All-map rows (λ r k moving. ground (arith, k moving)) best)

-- Where nothing is found, the ledger has no open change.
pub open_change-none :
    (rows : List Row) → open_change rows ≡ none → All (λ r. is_open_change r ≡ false) rows
unfolding open_change
open_change-none rows h = find-sort_by-none (descending-IsOrder sequence_of) is_open_change rows h

-- The hole found is a hole of the ledger, and no hole of it is older.
pub reconciliation_hole-oldest :
    (rows : List Row) (row : Row)
    → reconciliation_hole rows ≡ some row
    → (is_hole row ≡ true)
      × Memᴰ row rows
      × All (λ r. is_hole r ≡ true → sequence_of row ≤ sequence_of r) rows
unfolding reconciliation_hole
reconciliation_hole-oldest rows row h =
    let (hit, there, best) = find-sort_by (ascending-IsOrder sequence_of) is_hole rows row h in
    (hit, there, All-map rows (λ r k hole. ground (arith, k hole)) best)
