-- ===== src/Tests/Limits.antt =====
-- The rate limits at concrete inputs.
use sky_personal_ledger.Base.{
  ℕ, ◌≡◌, refl, Bool, false, none, List, [], ◌∷◌, arith, find_row, update_rows,
}
use sky_personal_ledger.RateLimit.{
  Attempt, Limits, check, check_found, attempt_is, GlobalRateLimiter, allow,
}
use sky_personal_ledger.RateLimit.Lockout.{check-refused, record_all, check-record_all}
use sky_personal_ledger.RateLimit.Window.{IsBounded, allow-IsBounded}

abbrev limits : Limits
limits = record { max_attempts = 2; time_window = 300; lock_duration = 1800; max_entries = 10 }

abbrev tried : List Attempt
tried = record { key = 9; attempts = 100 ∷ 200 ∷ []; locked_until = 0; last_seen = 200 } ∷ []

abbrev answered : (Bool × ℕ) × List Attempt
answered = check limits tried 9 250

answered_ok : check limits tried 9 250 ≡ ((false, 2050), answered.1)
unfolding check check_found find_row update_rows
answered_ok = refl

check-refused_example : (check limits answered.1 9 2000).0 ≡ (false, 2050)
check-refused_example =
    check-refused limits tried 9 250 2050 answered.1 2000 answered_ok (omega arith)

no_entry : find_row (attempt_is 8) tried ≡ none
unfolding find_row
no_entry = refl

check-record_all_example :
    (check limits (record_all limits tried 8 (100 ∷ 200 ∷ [])) 8 250).0 ≡ (false, 2050)
check-record_all_example =
    check-record_all limits tried 8 (100 ∷ 200 ∷ []) 250 no_entry (omega arith) (omega arith)
      (refl, (refl, tt))

abbrev busy : GlobalRateLimiter
busy = record {
  requests = record { ip = 4; times = 10 ∷ 20 ∷ [] } ∷ [];
  max_requests = 2;
  window = 60;
  max_entries = 1;
}

busy-IsBounded : IsBounded busy
busy-IsBounded = record {
  room = omega arith;
  space = omega arith;
  entries = omega arith;
  named = (refl, tt);
  counted = ((omega arith, omega arith), tt);
}

allow-IsBounded_example : IsBounded (allow busy 5 30).1
allow-IsBounded_example = allow-IsBounded busy 5 30 refl busy-IsBounded

-- A third request within the window is refused.
busy_refuses : (allow busy 4 30).0 ≡ false
unfolding allow find_row
busy_refuses = refl
