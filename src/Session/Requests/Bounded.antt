-- ===== src/Session/Requests/Bounded.antt =====
-- Rows in the order of their keys, and how many settled ones the bound leaves.
use jev_router.Common.{
  ℕ, zero, suc, ◌≤◌, ◌<◌, ◌≡◌, refl, Bool, true, false, not, ◌&&◌, String, List, [], ◌∷◌, ◌++◌,
  ◌==◌, keep, any, length, Bool-cases, inl, inr, arith,
}
use jev_router.Common.Sorted.{sort_by, descending}
use jev_router.Common.Table.{update_where, count_where, count_where-keep_below, count_where-either}
use jev_router.Session.{RequestRow, Store, SessionRoutingCfg}
use jev_router.Session.Requests.{
  is_forgettable, of_session, take, newest, is_trimmed, trim_requests, id_of,
}

-- The keys rise from `low` on and stay below `top`.
unfoldable pub Rising : ℕ → List RequestRow → ℕ → Type 0
Rising low [] top = low ≤ top
Rising low (r ∷ rs) top = (low ≤ r.id) × Rising (suc r.id) rs top

Rising-lower :
    (a b : ℕ) (rs : List RequestRow) (top : ℕ) → a ≤ b → Rising b rs top → Rising a rs top
unfolding Rising
Rising-lower a b [] top h rising = omega arith
Rising-lower a b (r ∷ rs) top h rising = (omega (arith, rising.0), rising.1)

pub Rising-append :
    (low : ℕ) (rs : List RequestRow) (top : ℕ) (new : RequestRow)
    → new.id ≡ top
    → Rising low rs top
    → Rising low (rs ++ new ∷ []) (suc top)
unfolding Rising
Rising-append low [] top new key rising = (omega arith, omega arith)
Rising-append low (r ∷ rs) top new key rising =
    (rising.0, Rising-append (suc r.id) rs top new key rising.1)

pub Rising-keep :
    (low : ℕ) (p : RequestRow → Bool) (rs : List RequestRow) (top : ℕ)
    → Rising low rs top
    → Rising low (keep p rs) top
unfolding Rising keep
Rising-keep low p [] top rising = rising
Rising-keep low p (r ∷ rs) top rising =
    let rest = Rising-keep (suc r.id) p rs top rising.1 in
    elim (Bool-cases (p r)) [
      | inl stays ↦ rw stays (rising.0, rest)
      | inr goes ↦
          rw goes (Rising-lower low (suc r.id) (keep p rs) top (omega (arith, rising.0)) rest)
    ]

pub Rising-update_where :
    (low : ℕ) (p : RequestRow → Bool) (g : RequestRow → RequestRow) (rs : List RequestRow) (top : ℕ)
    → ((r : RequestRow) → (g r).id ≡ r.id)
    → Rising low rs top
    → Rising low (update_where p g rs) top
unfolding Rising update_where
Rising-update_where low p g [] top same rising = rising
Rising-update_where low p g (r ∷ rs) top same rising =
    let rest = Rising-update_where (suc r.id) p g rs top same rising.1 in
    elim (Bool-cases (p r)) [
      | inl hit ↦ rw (hit, same r) (rising.0, rest)
      | inr miss ↦ rw miss (rising.0, rest)
    ]

abbrev keyed : ℕ → RequestRow → Bool
keyed key row = key == row.id

no_key :
    (key low : ℕ) (rs : List RequestRow) (top : ℕ)
    → key < low
    → Rising low rs top
    → count_where (keyed key) rs ≡ 0
unfolding Rising count_where
no_key key low [] top h rising = refl
no_key key low (r ∷ rs) top h rising =
    ground (arith, no_key key (suc r.id) rs top (omega (arith, rising.0)) rising.1, rising.0)

below_next : (key id : ℕ) → key == id ≡ true → key < suc id
below_next key id h = ground arith

one_key :
    (key low : ℕ) (rs : List RequestRow) (top : ℕ)
    → Rising low rs top
    → count_where (keyed key) rs ≤ 1
unfolding Rising count_where
one_key key low [] top rising = omega arith
one_key key low (r ∷ rs) top rising = elim (Bool-cases (key == r.id)) [
  | inl hit ↦
      rw hit (omega (arith, no_key key (suc r.id) rs top (below_next key r.id hit) rising.1))
  | inr miss ↦ rw miss (one_key key (suc r.id) rs top rising.1)
]

nobody : (rs : List RequestRow) → count_where (λ r. false) rs ≡ 0
unfolding count_where
nobody [] = refl
nobody (r ∷ rs) = nobody rs

among_few :
    (kept : List RequestRow) (low : ℕ) (rs : List RequestRow) (top : ℕ)
    → Rising low rs top
    → count_where (λ r. any (λ k. k.id == r.id) kept) rs ≤ length kept
unfolding any
among_few [] low rs top rising = omega (arith, nobody rs)
among_few (k ∷ kept) low rs top rising = omega (
  arith,
  count_where-either (keyed k.id) (λ r. any (λ k. k.id == r.id) kept) rs,
  one_key k.id low rs top rising,
  among_few kept low rs top rising,
)

length-take {ℓ} : {A : Type ℓ} (n : ℕ) (xs : List A) → length (take n xs) ≤ n
unfolding take
length-take zero xs = omega arith
length-take (suc n) [] = omega arith
length-take (suc n) (x ∷ xs) = omega (arith, length-take n xs)

-- A settled row of the session that the deletion left is among the newest.
left_among :
    (n : ℕ) (session_id : String) (rows : List RequestRow) (row : RequestRow)
    → of_session session_id row && is_forgettable row.status ≡ true
    → not (is_trimmed n session_id rows row) ≡ true
    → any (λ kept. kept.id == row.id) (newest n session_id rows) ≡ true
unfolding is_trimmed
left_among n session_id rows row settled left = ground (arith, settled, left)

pub settled-trim_requests :
    (cfg : SessionRoutingCfg) (store : Store) (session_id : String)
    → Rising 0 store.requests store.next_request
    → count_where
        (λ row. of_session session_id row && is_forgettable row.status)
        (trim_requests cfg store session_id).requests
      ≤ cfg.max_request_history
unfolding trim_requests newest
settled-trim_requests cfg store session_id rising =
    let n = cfg.max_request_history in
    let kept = newest n session_id store.requests in
    omega (
      arith,
      count_where-keep_below (λ row. of_session session_id row && is_forgettable row.status)
          (λ row. not (is_trimmed n session_id store.requests row))
          (λ row. any (λ k. k.id == row.id) kept) store.requests
          (left_among n session_id store.requests),
      among_few kept 0 store.requests store.next_request rising,
      length-take n (sort_by (descending id_of) (keep (of_session session_id) store.requests)),
    )
