-- ===== src/Quota/Monitor/Bounded.antt =====
-- The pressure that routing reads is a number between 0 and 1, however the polls went.
use jev_router.Common.{
  ℕ, zero, suc, ◌-◌, ◌≤◌, ◌≡◌, refl, subst, Bool, true, false, List, [], ◌∷◌, ◌++◌, Option, none,
  some, length, if◌then◌else◌, Bool-cases, inl, inr, All, arith, of_some, ltb,
}
use jev_router.Common.Float.{Float, Number, ◌<=◌, ◌<<◌}
use jev_router.Config.Router.{QuotaPolicyCfg}
use jev_router.Quota.{
  PressureReason, QuotaSnapshot, whole_number, min_of, in_unit, smoothed, is_snapshot_stale,
  raw_pressure, compute_pressure,
}
use jev_router.Quota.Monitor.{
  ProviderQuota, fetched, drop, keep_last, before, record_poll, poll_once, aged, refresh_staleness,
  Call, polls, refreshes, after, after_all,
}

module _ ⦃f : Float⦄ where
  -- What is used of the order of floats; NaN and the infinities keep it.
  pub record OrderLaws : Type 0 where
    pub less : (a b : Number) → (a << b) ≡ true → (a <= b) ≡ true
    pub zero_zero : (whole_number 0 <= whole_number 0) ≡ true
    pub zero_one : (whole_number 0 <= whole_number 1) ≡ true
    pub one_one : (whole_number 1 <= whole_number 1) ≡ true

  unfoldable pub InUnit : Number → Type 0
  InUnit x = ((whole_number 0 <= x) ≡ true) × ((x <= whole_number 1) ≡ true)

  module _ (laws : OrderLaws) where
    min_of-le_one : (x : Number) → (min_of (whole_number 1) x <= whole_number 1) ≡ true
    min_of-le_one x = elim (Bool-cases (x << whole_number 1)) [
      | inl below ↦ rw below (laws.less x (whole_number 1) below)
      | inr above ↦ rw above laws.one_one
    ]

    above_zero :
        (m : Number)
        → (m <= whole_number 1) ≡ true
        → InUnit (if whole_number 0 << m then m else whole_number 0)
    unfolding InUnit
    above_zero m small = elim (Bool-cases (whole_number 0 << m)) [
      | inl above ↦ rw above (laws.less (whole_number 0) m above, small)
      | inr below ↦ rw below (laws.zero_zero, laws.zero_one)
    ]

    in_unit-InUnit : (x : Number) → InUnit (in_unit x)
    in_unit-InUnit x = above_zero (min_of (whole_number 1) x) (min_of-le_one x)

    smoothed-InUnit :
        (knobs : QuotaPolicyCfg) (raw : Number × PressureReason) (previous : Option Number)
        → ((p : Number) → previous ≡ some p → InUnit p)
        → InUnit (smoothed knobs raw previous).0
    unfolding smoothed
    smoothed-InUnit knobs (value, why) none was = in_unit-InUnit value
    smoothed-InUnit knobs (value, why) (some p) was =
        elim (Bool-cases (f.abs (f.sub value p) << knobs.hysteresis)) [
          | inl small ↦ rw small (was p refl)
          | inr large ↦ rw large (in_unit-InUnit _)
        ]

    compute_pressure-InUnit :
        (snapshot : Option QuotaSnapshot) (knobs : QuotaPolicyCfg) (now : Number)
        (previous stale_after : Option Number)
        → ((p : Number) → previous ≡ some p → InUnit p)
        → InUnit (compute_pressure snapshot knobs now previous stale_after).0
    unfolding compute_pressure InUnit
    compute_pressure-InUnit snapshot knobs now previous stale_after was =
        elim (Bool-cases (is_snapshot_stale snapshot now stale_after)) [
          | inl old ↦ rw old (laws.zero_zero, laws.zero_one)
          | inr young ↦
              rw young (smoothed-InUnit knobs (raw_pressure snapshot knobs now) previous was)
        ]

    drop-All : (n : ℕ) (xs : List Number) → All InUnit xs → All InUnit (drop n xs)
    unfolding drop
    drop-All zero xs h = h
    drop-All (suc n) [] h = tt
    drop-All (suc n) (x ∷ xs) h = drop-All n xs h.1

    append-All :
        (xs : List Number) (x : Number) → All InUnit xs → InUnit x → All InUnit (xs ++ x ∷ [])
    append-All [] x h last = (last, tt)
    append-All (y ∷ ys) x h last = (h.0, append-All ys x h.1 last)

  some_if : (b : Bool) (x p : Number) → (if b then some x else none) ≡ some p → x ≡ p
  some_if true x p h = of_some h
  some_if false x p h = cc

  length-drop : (n : ℕ) (xs : List Number) → length (drop n xs) ≡ length xs - n
  unfolding drop
  length-drop zero xs = omega arith
  length-drop (suc n) [] = omega arith
  length-drop (suc n) (x ∷ xs) = omega (arith, length-drop n xs)

  -- What a reader of the monitor may rely on.
  pub record InBounds (state : ProviderQuota) : Type 0 where
    pub pressure_in : InUnit state.pressure
    pub history_in : All InUnit state.history
    pub short : length state.history ≤ 20

  module _ (laws : OrderLaws) (knobs : QuotaPolicyCfg) (stale_after : Option Number) where
    before-InUnit :
        (state : ProviderQuota) → InBounds state → (p : Number) → before state ≡ some p → InUnit p
    unfolding before
    before-InUnit state bounds p was =
        subst InUnit (some_if (ltb 0 state.polls) state.pressure p was) bounds.pressure_in

    record_poll-InBounds :
        (snapshot : QuotaSnapshot) (state : ProviderQuota) (found : Number × PressureReason)
        → InBounds state
        → InUnit found.0
        → InBounds (record_poll snapshot state found)
    unfolding record_poll keep_last
    record_poll-InBounds snapshot state (pressure, why) bounds inside =
        let longer = state.history ++ pressure ∷ [] in
        record {
          pressure_in = inside;
          history_in =
              drop-All laws (length longer - 20) longer
                (append-All laws state.history pressure bounds.history_in inside);
          short = omega (arith, length-drop (length longer - 20) longer);
        }

    after-InBounds :
        (state : ProviderQuota) (c : Call)
        → InBounds state
        → InBounds (after knobs stale_after state c)
    unfolding after poll_once refresh_staleness InUnit
    after-InBounds state (polls fetch raised_at now) bounds =
        record_poll-InBounds (fetched fetch raised_at) state
          (compute_pressure (some (fetched fetch raised_at)) knobs now (before state) stale_after)
          bounds
          (compute_pressure-InUnit laws (some (fetched fetch raised_at)) knobs now (before state)
            stale_after (before-InUnit state bounds))
    after-InBounds state (refreshes now) bounds =
        elim (Bool-cases (aged state state.snapshot stale_after now)) [
          | inl old ↦ rw old (record {
            pressure_in = (laws.zero_zero, laws.zero_one);
            history_in = bounds.history_in;
            short = bounds.short;
          })
          | inr young ↦ rw young bounds
        ]

    -- From a pressure and a history of at most 20 numbers between 0 and 1 on, whatever the polls
    -- fetched or raised and whenever staleness was checked, the pressure and the history stay so,
    -- given that a smaller float is no larger and that 0 and 1 compare as they should.
    pub after_all-InBounds :
        (state : ProviderQuota) (calls : List Call)
        → InBounds state
        → InBounds (after_all knobs stale_after state calls)
    unfolding after_all
    after_all-InBounds state [] bounds = bounds
    after_all-InBounds state (c ∷ cs) bounds =
        after_all-InBounds (after knobs stale_after state c) cs (after-InBounds state c bounds)
