-- ===== src/RateLimit/Defs.antt =====
-- The two limiters. A Go map is a list of entries in its order of iteration, with `attempt_is` and
-- `requests_are` as look-up; a key is a number, and 0 is the empty text. Times and durations are
-- numbers, and 0 is the zero time. The locks make every call one step.
use sky_personal_ledger.Base.{
  ℕ, ◌+◌, Bool, true, false, not, ◌&&◌, ◌||◌, none, some, List, [], ◌∷◌, ◌++◌, map, ltb, leb, ◌==◌,
  if◌then◌else◌, length, keep_if, find_row, update_rows,
}

pub record Attempt : Type 0 where
  pub key : ℕ
  pub attempts : List ℕ
  pub locked_until : ℕ
  pub last_seen : ℕ

-- The limiter's configuration.
pub record Limits : Type 0 where
  pub max_attempts : ℕ
  pub time_window : ℕ
  pub lock_duration : ℕ
  pub max_entries : ℕ

pub record RateLimiter : Type 0 where
  pub ip_attempts : List Attempt
  pub account_attempts : List Attempt

abbrev pub attempt_is : ℕ → Attempt → Bool
attempt_is key a = a.key == key

-- `now.Sub(t) < window`
abbrev pub within : ℕ → ℕ → ℕ → Bool
within window now t = ltb now (t + window)

abbrev pub see : ℕ → Attempt → Attempt
see now a = record a { last_seen = now }

abbrev pub recall : ℕ → List ℕ → Attempt → Attempt
recall now recent a = record a { attempts = recent; last_seen = now }

abbrev pub lock : ℕ → List ℕ → ℕ → Attempt → Attempt
lock now recent until a = record a { attempts = recent; locked_until = until; last_seen = now }

-- `CheckIP` and `CheckAccount` on an attempt that was found; the time is that of the end of the lock.
unfoldable pub check_found : Limits → List Attempt → Attempt → ℕ → (Bool × ℕ) × List Attempt
check_found limits entries a now =
    if ltb now a.locked_until
    then ((false, a.locked_until), update_rows (attempt_is a.key) (see now) entries)
    else (let recent = keep_if (within limits.time_window now) a.attempts in
        if length recent == 0
        then ((true, 0), keep_if (λ x. not (attempt_is a.key x)) entries)
        else (if leb limits.max_attempts (length recent)
            then (
              (false, now + limits.lock_duration),
              update_rows (attempt_is a.key) (lock now recent (now + limits.lock_duration)) entries,
            )
            else ((true, 0), update_rows (attempt_is a.key) (recall now recent) entries)))

unfoldable pub check : Limits → List Attempt → ℕ → ℕ → (Bool × ℕ) × List Attempt
check limits entries key now = elim (find_row (attempt_is key) entries) [
  | none ↦ ((true, 0), entries)
  | some a ↦ check_found limits entries a now
]

-- The key that the loop of `ensureLoginMapCapacity` ends with, and the time seen with it.
unfoldable pub oldest : List Attempt → ℕ → ℕ → ℕ
oldest [] key seen = key
oldest (a ∷ entries) key seen =
    let next = oldest entries in
    if key == 0 || ltb a.last_seen seen then next a.key a.last_seen else next key seen

unfoldable pub ensure_login_map_capacity : Limits → List Attempt → List Attempt
ensure_login_map_capacity limits entries =
    if leb limits.max_entries 0 || ltb (length entries) limits.max_entries
    then entries
    else (let key = oldest entries 0 0 in
        if key == 0 then entries else keep_if (λ x. not (attempt_is key x)) entries)

abbrev pub append_attempt : ℕ → Attempt → Attempt
append_attempt now a = record a { attempts = a.attempts ++ (now ∷ []); last_seen = now }

abbrev pub first_attempt : ℕ → ℕ → Attempt
first_attempt key now = record { key = key; attempts = now ∷ []; locked_until = 0; last_seen = now }

-- `RecordAttempt` on one of its two maps.
unfoldable pub record_in : Limits → List Attempt → ℕ → ℕ → List Attempt
record_in limits entries key now = elim (find_row (attempt_is key) entries) [
  | none ↦ first_attempt key now ∷ ensure_login_map_capacity limits entries
  | some _ ↦ update_rows (attempt_is key) (append_attempt now) entries
]

unfoldable pub check_ip : Limits → RateLimiter → ℕ → ℕ → (Bool × ℕ) × RateLimiter
check_ip limits rl ip now =
    let (answer, entries) = check limits rl.ip_attempts ip now in
    (answer, record rl { ip_attempts = entries })

unfoldable pub check_account : Limits → RateLimiter → ℕ → ℕ → (Bool × ℕ) × RateLimiter
check_account limits rl username now =
    let (answer, entries) = check limits rl.account_attempts username now in
    (answer, record rl { account_attempts = entries })

unfoldable pub record_attempt : Limits → RateLimiter → ℕ → ℕ → ℕ → RateLimiter
record_attempt limits rl ip username now = record {
  ip_attempts = record_in limits rl.ip_attempts ip now;
  account_attempts = record_in limits rl.account_attempts username now;
}

unfoldable pub reset_account : RateLimiter → ℕ → RateLimiter
reset_account rl username = record rl {
  account_attempts = keep_if (λ x. not (attempt_is username x)) rl.account_attempts;
}

abbrev pub forget : Limits → ℕ → Attempt → Attempt
forget limits now a = record a { attempts = keep_if (within limits.time_window now) a.attempts }

-- `cleanupMapAt`
unfoldable pub cleanup_map_at : Limits → List Attempt → ℕ → List Attempt
cleanup_map_at limits entries now =
    keep_if (λ a. not (length a.attempts == 0 && not (ltb now a.locked_until)))
      (map (forget limits now) entries)

-- A source of requests, with the times of those that count.
pub record Requests : Type 0 where
  pub ip : ℕ
  pub times : List ℕ

pub record GlobalRateLimiter : Type 0 where
  pub requests : List Requests
  pub max_requests : ℕ
  pub window : ℕ
  pub max_entries : ℕ

-- `NewGlobalRateLimiter`, with the corrections of its arguments; a negative one is 0 here.
unfoldable pub new_global_rate_limiter : ℕ → ℕ → GlobalRateLimiter
new_global_rate_limiter max_requests window = record {
  requests = [];
  max_requests = if ltb max_requests 1 then 1 else max_requests;
  window = if leb window 0 then 60000000000 else window;
  max_entries = 10000;
}

abbrev pub requests_are : ℕ → Requests → Bool
requests_are ip r = r.ip == ip

abbrev pub drop_old : ℕ → ℕ → Requests → Requests
drop_old window now r = record r { times = keep_if (within window now) r.times }

unfoldable pub cleanup_at : ℕ → List Requests → ℕ → List Requests
cleanup_at window requests now =
    keep_if (λ r. not (length r.times == 0)) (map (drop_old window now) requests)

-- `requests[len(requests)-1]`; no entry is without requests.
unfoldable pub last_time : List ℕ → ℕ
last_time [] = 0
last_time (t ∷ []) = t
last_time (_ ∷ t ∷ times) = last_time (t ∷ times)

unfoldable pub oldest_ip : List Requests → ℕ → ℕ → ℕ
oldest_ip [] ip seen = ip
oldest_ip (r ∷ requests) ip seen =
    let next = oldest_ip requests in
    if ip == 0 || ltb (last_time r.times) seen then next r.ip (last_time r.times) else next ip seen

unfoldable pub ensure_capacity : ℕ → List Requests → List Requests
ensure_capacity max_entries requests =
    if leb max_entries 0 || ltb (length requests) max_entries
    then requests
    else (let ip = oldest_ip requests 0 0 in
        if ip == 0 then requests else keep_if (λ r. not (requests_are ip r)) requests)

abbrev pub set_times : List ℕ → Requests → Requests
set_times times r = record r { times = times }

-- `Allow` of a source that has no entry: room is made for it.
unfoldable pub admit : GlobalRateLimiter → ℕ → ℕ → List Requests
admit g ip now =
    let cleaned =
      if ltb 0 g.max_entries && leb g.max_entries (length g.requests)
      then cleanup_at g.window g.requests now
      else g.requests in
    record { ip = ip; times = now ∷ [] } ∷ ensure_capacity g.max_entries cleaned

unfoldable pub allow : GlobalRateLimiter → ℕ → ℕ → Bool × GlobalRateLimiter
allow g ip now = elim (find_row (requests_are ip) g.requests) [
  | none ↦ (true, record g { requests = admit g ip now })
  | some r ↦
      let valid = keep_if (within g.window now) r.times in
      if leb g.max_requests (length valid)
      then (
        false,
        record g { requests = update_rows (requests_are ip) (set_times valid) g.requests },
      )
      else (
        true,
        record g {
          requests = update_rows (requests_are ip) (set_times (valid ++ (now ∷ []))) g.requests;
        },
      )
]
