-- ===== src/Quota.antt =====
-- A provider's windows of usage, and the pressure they put on routing (src/jev_router/quota.py).
-- A reason's text is a constructor.
pub mod Monitor
pub mod Exhausted
use jev_router.Common.{
  ℕ, Bool, true, false, not, ◌&&◌, ◌||◌, String, str_eq, List, [], ◌∷◌, map, Option, none, some,
  any, keep, if◌then◌else◌,
}
use jev_router.Common.Float.{Float, Number, ◌<=◌, ◌<<◌}
use jev_router.Config.Router.{QuotaPolicyCfg}

pub data Reading : Type 0 where
  fresh stale unknown error : Reading

pub data PressureReason : Type 0 where
  no_snapshot no_usage stale_snapshot : PressureReason
  failed : String → PressureReason
  full raw_percent pace : String → PressureReason
  held limited : PressureReason → PressureReason

is_no_usage : PressureReason → Bool
is_no_usage no_usage = true
is_no_usage _ = false

module _ ⦃f : Float⦄ where
  abbrev whole_number : ℕ → Number
  whole_number n = f.decimal n 0

  -- `max(a, b)` and `min(a, b)`, which give `a` where neither is beyond the other
  abbrev pub max_of : Number → Number → Number
  max_of a b = if a << b then b else a

  abbrev pub min_of : Number → Number → Number
  min_of a b = if b << a then b else a

  -- A number counts as true unless it is 0.
  is_true : Number → Bool
  is_true x = not (x <= whole_number 0 && whole_number 0 <= x)

  pub record QuotaWindow : Type 0 where
    pub name : String
    pub used_percent : Option Number
    pub used : Option Number
    pub limit : Option Number
    pub expected_used_percent : Option Number
    pub window_minutes : Option Number
    pub resets_at : Option Number

  unfoldable pub share : Option Number → Option Number → Option Number
  unfolding is_true
  share (some used) (some limit) =
      if is_true limit then some (f.div (f.mul (whole_number 100) used) limit) else none
  share _ _ = none

  -- The window's usage as a percentage, computed only from itself.
  unfoldable pub percent : QuotaWindow → Option Number
  unfolding share
  percent window = elim window.used_percent [
    | none ↦ share window.used window.limit
    | some p ↦ some p
  ]

  pub record QuotaSnapshot : Type 0 where
    pub fetched_at : Number
    pub used_percent : Option Number
    pub expected_used_percent : Option Number
    pub window_minutes : Option Number
    pub resets_at : Option Number
    pub error : String
    pub windows : List QuotaWindow

  unfoldable pub has_number : Option Number → Bool
  has_number none = false
  has_number (some x) = true

  unfoldable pub is_reading : QuotaSnapshot → Bool
  unfolding has_number percent any
  is_reading snapshot =
      str_eq snapshot.error ""
      && (has_number snapshot.used_percent || any (λ w. has_number (percent w)) snapshot.windows)

  unfoldable pub is_old : QuotaSnapshot → Number → Option Number → Bool
  is_old snapshot now none = false
  is_old snapshot now (some after) = after << f.sub now snapshot.fetched_at

  -- One word for how much this reading is worth.
  unfoldable pub snapshot_status : Option QuotaSnapshot → Number → Option Number → Reading
  unfolding is_reading is_old
  snapshot_status none now stale_after = unknown
  snapshot_status (some snapshot) now stale_after =
      if not (str_eq snapshot.error "")
      then error
      else if not (is_reading snapshot)
      then unknown
      else if is_old snapshot now stale_after
      then stale
      else fresh

  -- A percentage is kept between 0 and 100.
  abbrev in_percent : Number → Number
  in_percent x = max_of (whole_number 0) (min_of (whole_number 100) x)

  elapsed_share : Number → Number → Number → Option Number
  elapsed_share minutes resets now =
      let window_s = f.mul minutes (whole_number 60) in
      if window_s <= whole_number 0
      then none
      else some (
          in_percent
            (f.div (f.mul (whole_number 100) (f.sub window_s (f.sub resets now))) window_s))

  expected_by : Option Number → Option Number → Option Number → Number → Option Number
  unfolding is_true elapsed_share
  expected_by (some expected) minutes resets now = some (in_percent expected)
  expected_by none (some minutes) (some resets) now =
      if is_true minutes && is_true resets then elapsed_share minutes resets now else none
  expected_by none _ _ now = none

  -- Where usage should be, as a percentage of the window, right now.
  unfoldable pub expected_percent : QuotaSnapshot → Number → Option Number
  unfolding expected_by
  expected_percent snapshot now =
      expected_by snapshot.expected_used_percent snapshot.window_minutes snapshot.resets_at now

  unfoldable pub window_expected_percent : QuotaWindow → Number → Option Number
  unfolding expected_by
  window_expected_percent window now =
      expected_by window.expected_used_percent window.window_minutes window.resets_at now

  unfoldable pub ramp : Number → Number → Number → Number
  ramp value starts_at full_at =
      if full_at <= starts_at
      then if full_at <= value then whole_number 1 else whole_number 0
      else max_of (whole_number 0)
          (min_of (whole_number 1) (f.div (f.sub value starts_at) (f.sub full_at starts_at)))

  paced : QuotaPolicyCfg → String → Number → Option Number → Number × PressureReason
  unfolding ramp
  paced knobs label used none = (ramp used knobs.raw_starts_at knobs.raw_full_at, raw_percent label)
  paced knobs label used (some expected) =
      (ramp (f.sub used expected) knobs.pressure_starts_at knobs.pressure_full_at, pace label)

  pressed : QuotaPolicyCfg → String → Number → Option Number → Number × PressureReason
  unfolding paced
  pressed knobs label used expected =
      if knobs.full_used_percent <= used
      then (whole_number 1, full label)
      else paced knobs label used expected

  -- Pressure from one window, using nothing but that window's own fields.
  unfoldable pub window_pressure : QuotaWindow → QuotaPolicyCfg → Number → Number × PressureReason
  unfolding percent pressed window_expected_percent
  window_pressure window knobs now = elim (percent window) [
    | none ↦ (whole_number 0, no_usage)
    | some used ↦
        pressed knobs (if str_eq window.name "" then "window" else window.name) used
          (window_expected_percent window now)
  ]

  -- `max` by the pressure: the first of the highest
  highest : Number × PressureReason → List (Number × PressureReason) → Number × PressureReason
  highest best [] = best
  highest best (next ∷ rest) = highest (if best.0 << next.0 then next else best) rest

  abbrev has_usage : Number × PressureReason → Bool
  has_usage scored = not (is_no_usage scored.1)

  strongest : List (Number × PressureReason) → Number × PressureReason
  unfolding highest
  strongest [] = (whole_number 0, no_usage)
  strongest (first ∷ rest) = highest first rest

  score_windows :
      List QuotaWindow → QuotaSnapshot → QuotaPolicyCfg → Number → Number × PressureReason
  unfolding window_pressure strongest is_no_usage keep pressed expected_percent
  score_windows [] snapshot knobs now =
      pressed knobs "used" (elim snapshot.used_percent [ none ↦ whole_number 0 | some u ↦ u ])
        (expected_percent snapshot now)
  score_windows (w ∷ ws) snapshot knobs now =
      strongest (keep has_usage (map (λ window. window_pressure window knobs now) (w ∷ ws)))

  -- Pressure before hysteresis, with where it came from.
  unfoldable pub raw_pressure :
      Option QuotaSnapshot → QuotaPolicyCfg → Number → Number × PressureReason
  unfolding is_reading score_windows
  raw_pressure none knobs now = (whole_number 0, no_snapshot)
  raw_pressure (some snapshot) knobs now =
      if is_reading snapshot
      then score_windows snapshot.windows snapshot knobs now
      else (whole_number 0, if str_eq snapshot.error "" then no_usage else failed snapshot.error)

  abbrev pub in_unit : Number → Number
  in_unit x = max_of (whole_number 0) (min_of (whole_number 1) x)

  is_same : Number → Number → Bool
  is_same a b = a <= b && b <= a

  -- Hysteresis and the limit on one poll's change
  smoothed : QuotaPolicyCfg → Number × PressureReason → Option Number → Number × PressureReason
  unfolding is_same
  smoothed knobs (value, why) none = (in_unit value, why)
  smoothed knobs (value, why) (some previous) =
      if f.abs (f.sub value previous) << knobs.hysteresis
      then (previous, held why)
      else let span = max_of (whole_number 0) knobs.max_change_per_poll in
        let clamped = max_of (f.sub previous span) (min_of (f.add previous span) value) in
        (in_unit clamped, if is_same clamped value then why else limited why)

  is_snapshot_stale : Option QuotaSnapshot → Number → Option Number → Bool
  unfolding is_old
  is_snapshot_stale none now stale_after = false
  is_snapshot_stale (some snapshot) now stale_after = is_old snapshot now stale_after

  -- Pressure in [0, 1] for one provider, with the reason for that number.
  unfoldable pub compute_pressure :
      Option QuotaSnapshot
      → QuotaPolicyCfg
      → Number
      → Option Number
      → Option Number
      → Number × PressureReason
  unfolding is_snapshot_stale raw_pressure smoothed
  compute_pressure snapshot knobs now previous stale_after =
      if is_snapshot_stale snapshot now stale_after
      then (whole_number 0, stale_snapshot)
      else smoothed knobs (raw_pressure snapshot knobs now) previous
