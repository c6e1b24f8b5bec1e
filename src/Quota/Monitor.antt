-- ===== src/Quota/Monitor.antt =====
-- The monitor's record of one provider, poll after poll (`QuotaMonitor.poll_once` and
-- `refresh_staleness` of src/jev_router/quota.py). What a source fetches is an argument.
pub mod Bounded
mod Tests
use jev_router.Common.{
  ℕ, zero, suc, ◌-◌, Bool, true, false, not, ◌&&◌, String, str_eq, List, [], ◌∷◌, ◌++◌, Option,
  none, some, Result, ok, err, length, ltb, if◌then◌else◌,
}
use jev_router.Common.Float.{Float, Number}
use jev_router.Config.Router.{QuotaPolicyCfg}
use jev_router.Quota.{
  PressureReason, no_usage, stale_snapshot, QuotaSnapshot, is_old, is_true, whole_number,
  compute_pressure,
}

module _ ⦃f : Float⦄ where
  pub record ProviderQuota : Type 0 where
    pub enabled : Bool
    pub snapshot : Option QuotaSnapshot
    pub pressure : Number
    pub reason : PressureReason
    pub polls : ℕ
    pub errors : ℕ
    pub last_error : String
    pub history : List Number

  -- A source that raised counts as a snapshot with an error.
  fetched : Result String QuotaSnapshot → Number → QuotaSnapshot
  fetched (ok snapshot) now = snapshot
  fetched (err raised) now = record {
    fetched_at = now;
    used_percent = none;
    expected_used_percent = none;
    window_minutes = none;
    resets_at = none;
    error = raised;
    windows = [];
  }

  drop : ℕ → List Number → List Number
  drop zero xs = xs
  drop (suc n) [] = []
  drop (suc n) (x ∷ xs) = drop n xs

  -- `del xs[:-n]`
  unfoldable pub keep_last : ℕ → List Number → List Number
  unfolding drop
  keep_last n xs = drop (length xs - n) xs

  before : ProviderQuota → Option Number
  before state = if ltb 0 state.polls then some state.pressure else none

  failed_on : QuotaSnapshot → ProviderQuota → ProviderQuota
  failed_on snapshot state =
      if str_eq snapshot.error ""
      then state
      else record state { errors = suc state.errors; last_error = snapshot.error }

  record_poll : QuotaSnapshot → ProviderQuota → Number × PressureReason → ProviderQuota
  unfolding failed_on keep_last
  record_poll snapshot state (pressure, why) = record (failed_on snapshot state) {
    polls = suc state.polls;
    snapshot = some snapshot;
    pressure = pressure;
    reason = why;
    history = keep_last 20 (state.history ++ pressure ∷ []);
  }

  -- One poll of one provider. The clock is read again after the fetch.
  unfoldable pub poll_once :
      QuotaPolicyCfg
      → Option Number
      → ProviderQuota
      → Result String QuotaSnapshot
      → Number
      → Number
      → ProviderQuota
  unfolding record_poll fetched before compute_pressure
  poll_once knobs stale_after state fetch raised_at now =
      let snapshot = fetched fetch raised_at in
      record_poll snapshot state
        (compute_pressure (some snapshot) knobs now (before state) stale_after)

  aged : ProviderQuota → Option QuotaSnapshot → Option Number → Number → Bool
  unfolding is_old is_true
  aged state (some snapshot) (some after) now =
      state.enabled && (is_old snapshot now (some after) && is_true state.pressure)
  aged state _ _ now = false

  -- Drop pressure to zero for a provider whose snapshot has aged out.
  unfoldable pub refresh_staleness : Option Number → ProviderQuota → Number → ProviderQuota
  unfolding aged
  refresh_staleness stale_after state now =
      if aged state state.snapshot stale_after now
      then record state { pressure = whole_number 0; reason = stale_snapshot }
      else state

  pub data Call : Type 0 where
    polls : Result String QuotaSnapshot → Number → Number → Call
    refreshes : Number → Call

  unfoldable pub after : QuotaPolicyCfg → Option Number → ProviderQuota → Call → ProviderQuota
  unfolding poll_once refresh_staleness
  after knobs stale_after state (polls fetch raised_at now) =
      poll_once knobs stale_after state fetch raised_at now
  after knobs stale_after state (refreshes now) = refresh_staleness stale_after state now

  unfoldable pub after_all :
      QuotaPolicyCfg → Option Number → ProviderQuota → List Call → ProviderQuota
  unfolding after
  after_all knobs stale_after state [] = state
  after_all knobs stale_after state (c ∷ cs) =
      after_all knobs stale_after (after knobs stale_after state c) cs
