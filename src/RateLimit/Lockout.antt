-- ===== src/RateLimit/Lockout.antt =====
-- How the login limiter locks out.
use sky_personal_ledger.Base.{
  ℕ, ◌+◌, ◌≤◌, ◌<◌, ◌≡◌, refl, sym, ap, ◌∙◌, subst, ◌≢◌, inl, inr, Bool, true, false, none, some,
  List, [], ◌∷◌, ◌++◌, arith, ltb, leb, ◌==◌, Bool-cases, Option-cases, length, keep_if, All,
  find_row, update_rows, touch, find_row-update_rows, find_row_holds,
}
use sky_personal_ledger.RateLimit.Defs.{
  Attempt, Limits, attempt_is, within, see, lock, check_found, check, append_attempt, first_attempt,
  record_in,
}

find_key :
    (key : ℕ) (f : Attempt → Attempt) (a : Attempt) (entries : List Attempt)
    → ((x : Attempt) → (f x).key ≡ x.key)
    → find_row (attempt_is key) entries ≡ some a
    → find_row (attempt_is key) (update_rows (attempt_is key) f entries) ≡ some (f a)
find_key key f a entries same h =
    let mine : attempt_is key a ≡ true = find_row_holds (attempt_is key) entries a h in
    find_row-update_rows (attempt_is key) f (attempt_is key) entries
      (λ x. ap (λ (k : ℕ). k == key) (same x))
    ∙ ap (touch (attempt_is key) f) h
    ∙ rw mine refl

check-some :
    (limits : Limits) (entries : List Attempt) (key now : ℕ) (a : Attempt)
    → find_row (attempt_is key) entries ≡ some a
    → check limits entries key now ≡ check_found limits entries a now
unfolding check
check-some limits entries key now a h = rw (check, h) refl

check-none :
    (limits : Limits) (entries : List Attempt) (key now : ℕ)
    → find_row (attempt_is key) entries ≡ none
    → check limits entries key now ≡ ((true, 0), entries)
unfolding check
check-none limits entries key now h = rw (check, h) refl

record_in-some :
    (limits : Limits) (entries : List Attempt) (key now : ℕ) (a : Attempt)
    → find_row (attempt_is key) entries ≡ some a
    → record_in limits entries key now ≡ update_rows (attempt_is key) (append_attempt now) entries
unfolding record_in
record_in-some limits entries key now a h = rw (record_in, h) refl

record_in-none :
    (limits : Limits) (entries : List Attempt) (key now : ℕ)
    → find_row (attempt_is key) entries ≡ none
    → find_row (attempt_is key) (record_in limits entries key now) ≡ some (first_attempt key now)
unfolding record_in find_row
record_in-none limits entries key now h =
    let mine : (key == key) ≡ true = ground arith in rw (record_in, h, mine) refl

locked :
    (limits : Limits) (entries : List Attempt) (key now : ℕ) (a : Attempt)
    → find_row (attempt_is key) entries ≡ some a
    → now < a.locked_until
    → (check limits entries key now).0 ≡ (false, a.locked_until)
unfolding check_found
locked limits entries key now a h early =
    let e : ltb now a.locked_until ≡ true = ground arith in
    rw (check-some limits entries key now a h, e) refl

eq_of_key : (key : ℕ) (a : Attempt) → attempt_is key a ≡ true → a.key ≡ key
eq_of_key key a h = ground arith

accepted : true ≢ false
accepted h = cc

-- What a refusal leaves behind.
refused :
    (limits : Limits) (entries : List Attempt) (now until : ℕ) (entries' : List Attempt)
    (a : Attempt)
    → find_row (attempt_is a.key) entries ≡ some a
    → check_found limits entries a now ≡ ((false, until), entries')
    → (b : Attempt) × (find_row (attempt_is a.key) entries' ≡ some b) × (b.locked_until ≡ until)
unfolding check_found
refused limits entries now until entries' a found h = elim (Bool-cases (ltb now a.locked_until)) [
  | inl e ↦
      let q = rw e at h in
      (
        see now a,
        rw (sym (ap (λ (x : (Bool × ℕ) × List Attempt). x.1) q))
            (find_key a.key (see now) a entries (λ x. refl) found),
        ap (λ (x : (Bool × ℕ) × List Attempt). x.0.1) q,
      )
  | inr e ↦ elim (Bool-cases (length (keep_if (within limits.time_window now) a.attempts) == 0)) [
    | inl f ↦ absurd (accepted (ap (λ (x : (Bool × ℕ) × List Attempt). x.0.0) (rw (e, f) at h)))
    | inr f ↦
        elim (Bool-cases
          (leb limits.max_attempts (length (keep_if (within limits.time_window now) a.attempts)))) [
            | inl g ↦
                let q = rw (e, f, g) at h in
                (
                  lock now (keep_if (within limits.time_window now) a.attempts)
                      (now + limits.lock_duration) a,
                  rw (sym (ap (λ (x : (Bool × ℕ) × List Attempt). x.1) q)) (
                      find_key a.key
                        (lock now (keep_if (within limits.time_window now) a.attempts)
                          (now + limits.lock_duration))
                        a entries (λ x. refl) found),
                  ap (λ (x : (Bool × ℕ) × List Attempt). x.0.1) q,
                )
            | inr g ↦
                absurd
                  (accepted (ap (λ (x : (Bool × ℕ) × List Attempt). x.0.0) (rw (e, f, g) at h)))
          ]
  ]
]

-- Once a key is refused, it is refused until the time that the refusal names, and that time stays.
pub check-refused :
    (limits : Limits) (entries : List Attempt) (key now until : ℕ) (entries' : List Attempt)
    (later : ℕ)
    → check limits entries key now ≡ ((false, until), entries')
    → later < until
    → (check limits entries' key later).0 ≡ (false, until)
check-refused limits entries key now until entries' later h early =
    elim (Option-cases (find_row (attempt_is key) entries)) [
      | inl e ↦ absurd (
          accepted (
            ap (λ (x : (Bool × ℕ) × List Attempt). x.0.0)
              (sym (check-none limits entries key now e) ∙ h)))
      | inr (a, e) ↦
          let mine : a.key ≡ key = eq_of_key key a (find_row_holds (attempt_is key) entries a e) in
          let (b, found, until_is) =
            refused limits entries now until entries' a
              (subst (λ (k : ℕ). find_row (attempt_is k) entries ≡ some a) (sym mine) e)
              (sym (check-some limits entries key now a e) ∙ h) in
          rw (← until_is) (
            locked limits entries' key later b
              (subst (λ (k : ℕ). find_row (attempt_is k) entries' ≡ some b) mine found)
              (omega (arith, early, until_is)))
    ]

-- Several attempts of one key, one after the other.
unfoldable pub record_all : Limits → List Attempt → ℕ → List ℕ → List Attempt
record_all limits entries key [] = entries
record_all limits entries key (t ∷ times) =
    record_all limits (record_in limits entries key t) key times

append_assoc : (xs : List ℕ) (y : ℕ) (ys : List ℕ) → (xs ++ (y ∷ [])) ++ ys ≡ xs ++ (y ∷ ys)
append_assoc [] y ys = refl
append_assoc (x ∷ xs) y ys = ap (λ (zs : List ℕ). x ∷ zs) (append_assoc xs y ys)

append_nil : (xs : List ℕ) → xs ≡ xs ++ []
append_nil [] = refl
append_nil (x ∷ xs) = ap (λ (zs : List ℕ). x ∷ zs) (append_nil xs)

recorded :
    (limits : Limits) (entries : List Attempt) (key : ℕ) (a : Attempt) (times : List ℕ)
    → find_row (attempt_is key) entries ≡ some a
    → (b : Attempt) × (find_row (attempt_is key) (record_all limits entries key times) ≡ some b)
      × (b.attempts ≡ a.attempts ++ times)
      × (b.locked_until ≡ a.locked_until)
unfolding record_all record_in
recorded limits entries key a [] h = (a, h, append_nil a.attempts, refl)
recorded limits entries key a (t ∷ times) h =
    let next : find_row (attempt_is key) (record_in limits entries key t)
        ≡ some (append_attempt t a) =
      rw (record_in-some limits entries key t a h)
        (find_key key (append_attempt t) a entries (λ x. refl) h) in
    let (b, found, attempts, until) =
      recorded limits (record_in limits entries key t) key (append_attempt t a) times next in
    (b, found, attempts ∙ append_assoc a.attempts t times, until)

keep_if-All_same : (p : ℕ → Bool) (xs : List ℕ) → All (λ x. p x ≡ true) xs → keep_if p xs ≡ xs
keep_if-All_same p [] h = refl
keep_if-All_same p (x ∷ xs) h = rw (h.0) (ap (λ (zs : List ℕ). x ∷ zs) (keep_if-All_same p xs h.1))

-- A check that finds as many recent attempts as the limit allows.
full :
    (limits : Limits) (entries : List Attempt) (a : Attempt) (now : ℕ) (recent : List ℕ)
    → ltb now a.locked_until ≡ false
    → keep_if (within limits.time_window now) a.attempts ≡ recent
    → (length recent == 0) ≡ false
    → leb limits.max_attempts (length recent) ≡ true
    → (check_found limits entries a now).0 ≡ (false, now + limits.lock_duration)
unfolding check_found
full limits entries a now recent e kept some_one enough =
    let g : (length (keep_if (within limits.time_window now) a.attempts) == 0) ≡ false =
      ap (λ (xs : List ℕ). length xs == 0) kept ∙ some_one in
    let f : leb limits.max_attempts (length (keep_if (within limits.time_window now) a.attempts))
        ≡ true =
      ap (λ (xs : List ℕ). leb limits.max_attempts (length xs)) kept ∙ enough in
    rw (e, g, f) refl

-- A key without an entry that has as many attempts recorded as the limit allows, all within the window
-- before a check, is refused at the check, for the lock's duration.
pub check-record_all :
    (limits : Limits) (entries : List Attempt) (key : ℕ) (times : List ℕ) (now : ℕ)
    → find_row (attempt_is key) entries ≡ none
    → 1 ≤ limits.max_attempts
    → limits.max_attempts ≤ length times
    → All (λ t. within limits.time_window now t ≡ true) times
    → (check limits (record_all limits entries key times) key now).0
      ≡ (false, now + limits.lock_duration)
unfolding record_all
check-record_all limits entries key [] now h room enough recent =
    absurd (omega (arith, room, enough))
check-record_all limits entries key (t ∷ times) now h room enough recent =
    let (b, found, attempts, until) =
      recorded limits (record_in limits entries key t) key (first_attempt key t) times
        (record_in-none limits entries key t h) in
    let kept : keep_if (within limits.time_window now) b.attempts ≡ t ∷ times =
      rw attempts (keep_if-All_same (within limits.time_window now) (t ∷ times) recent) in
    let early : ltb now b.locked_until ≡ false = rw until (ground arith) in
    ap (λ (x : (Bool × ℕ) × List Attempt). x.0) (check-some limits _ key now b found)
    ∙ full limits _ b now (t ∷ times) early kept (ground arith) (ground arith)
