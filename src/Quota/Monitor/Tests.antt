-- ===== src/Quota/Monitor/Tests.antt =====
-- Polls that run, and the theorem at them.
use jev_router.Common.{
  ℕ, ◌≡◌, refl, true, false, List, [], ◌∷◌, none, some, ok, err, any, keep, arith, leb, ltb,
}
use jev_router.Fixtures.{fixed}
use jev_router.Config.Router.{QuotaPolicyCfg}
use jev_router.Quota.{
  QuotaWindow, QuotaSnapshot, percent, is_reading, is_old, snapshot_status, expected_percent,
  window_expected_percent, ramp, window_pressure, raw_pressure, compute_pressure, no_snapshot,
  fresh,
}
use jev_router.Quota.Monitor.{
  ProviderQuota, Call, polls, refreshes, keep_last, poll_once, refresh_staleness, after, after_all,
}
use jev_router.Quota.Exhausted.{
  exhausted_window, exhausted_in, windows_of, summary_window, reaches_mark, is_spent, reset_key,
  last_reset, latest, steering_label, demoting, is_fresh,
}
use jev_router.Quota.Exhausted.Latest.{StrictLaws}
use jev_router.Quota.Exhausted.Chosen.{Says, exhausted_window-Says}
use jev_router.Quota.Monitor.Bounded.{OrderLaws, InBounds, InUnit, after_all-InBounds}

abbrev knobs : QuotaPolicyCfg
knobs = record {
  enabled = true;
  pressure_starts_at = 0;
  pressure_full_at = 250000;
  full_used_percent = 900000;
  raw_starts_at = 600000;
  raw_full_at = 950000;
  hysteresis = 500;
  max_change_per_poll = 2500;
  demote_above = 6000;
  exhausted_at = 1000000;
}

abbrev window : ℕ → QuotaWindow
window used = record {
  name = "weekly";
  used_percent = some used;
  used = none;
  limit = none;
  expected_used_percent = none;
  window_minutes = none;
  resets_at = none;
}

abbrev snapshot : ℕ → ℕ → QuotaSnapshot
snapshot at used = record {
  fetched_at = at;
  used_percent = none;
  expected_used_percent = none;
  window_minutes = none;
  resets_at = none;
  error = "";
  windows = window used ∷ window 0 ∷ [];
}

abbrev idle : ProviderQuota
idle = record {
  enabled = true;
  snapshot = none;
  pressure = 0;
  reason = no_snapshot;
  polls = 0;
  errors = 0;
  last_error = "";
  history = [];
}

abbrev calls : List Call
calls =
    polls (ok (snapshot 10 400000)) 10 10
    ∷ polls (ok (snapshot 20 950000)) 20 20
    ∷ polls (err "timeout") 30 30
    ∷ []

unfoldable quota_run : Unit {0}
unfolding percent is_reading is_old snapshot_status expected_percent window_expected_percent ramp
    window_pressure raw_pressure compute_pressure keep_last poll_once refresh_staleness after
    after_all any keep
quota_run = tt

one_poll_moves_it_by_a_quarter :
    (after_all knobs
      (some 100)
      idle
      (polls (ok (snapshot 10 400000)) 10 10 ∷ polls (ok (snapshot 20 950000)) 20 20 ∷ [])).pressure
    ≡ 2500
unfolding quota_run
one_poll_moves_it_by_a_quarter = refl

a_first_poll_moves_it_at_once :
    (after_all knobs (some 100) idle (polls (ok (snapshot 20 950000)) 20 20 ∷ [])).pressure ≡ 10000
unfolding quota_run
a_first_poll_moves_it_at_once = refl

an_old_snapshot_counts_for_nothing :
    (after_all knobs
      (some 100)
      idle
      (polls (ok (snapshot 20 950000)) 20 20 ∷ refreshes 121 ∷ [])).pressure
    ≡ 0
unfolding quota_run
an_old_snapshot_counts_for_nothing = refl

below : (a b : ℕ) → ltb a b ≡ true → leb a b ≡ true
below a b h = ground arith

laws : OrderLaws
laws = record { less = λ a b h. below a b h; zero_zero = refl; zero_one = refl; one_one = refl }

idle-InBounds : InBounds idle
unfolding InUnit
idle-InBounds = record { pressure_in = (refl, refl); history_in = tt; short = omega arith }

after_all-InBounds_example : InBounds (after_all knobs (some 100) idle calls)
after_all-InBounds_example = after_all-InBounds laws knobs (some 100) idle calls idle-InBounds

-- Two spent windows beside one that is not; the second resets later.
abbrev resetting : ℕ → ℕ → QuotaWindow
resetting used at = record (window used) { resets_at = some at }

abbrev spent : QuotaSnapshot
spent = record (snapshot 10 0) {
  windows = resetting 1000000 40 ∷ resetting 1100000 50 ∷ window 5000 ∷ [];
}

unfoldable exhausted_run : Unit {0}
unfolding quota_run exhausted_window exhausted_in windows_of summary_window reaches_mark is_spent
    reset_key last_reset latest is_fresh
exhausted_run = tt

the_later_spent_window_is_found :
    exhausted_window (some spent) knobs 20 (some 100) ≡ some (resetting 1100000 50)
unfolding exhausted_run
the_later_spent_window_is_found = refl

the_first_of_two_unknown_resets_is_found :
    exhausted_window
      (some (record spent { windows = window 1100000 ∷ window 1000000 ∷ [] }))
      knobs
      20
      none
    ≡ some (window 1100000)
unfolding exhausted_run
the_first_of_two_unknown_resets_is_found = refl

an_old_reading_says_nothing : exhausted_window (some spent) knobs 200 (some 100) ≡ none
unfolding exhausted_run
an_old_reading_says_nothing = refl

a_pressure_beyond_the_mark_demotes : steering_label 7000 fresh false knobs true ≡ some demoting
unfolding steering_label
a_pressure_beyond_the_mark_demotes = refl

not_below_itself : (a : ℕ) → ltb a a ≡ false
not_below_itself a = ground arith

below_through : (a b c : ℕ) → ltb a b ≡ true → ltb b c ≡ true → ltb a c ≡ true
below_through a b c h k = ground arith

strict : StrictLaws
strict = record { irreflexive = not_below_itself; transitive = below_through }

exhausted_window-Says_example :
    Says (some spent) knobs 20 (some 100) (exhausted_window (some spent) knobs 20 (some 100))
exhausted_window-Says_example = exhausted_window-Says strict knobs 20 (some 100) (some spent)
