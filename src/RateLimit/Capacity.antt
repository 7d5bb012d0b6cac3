-- ===== src/RateLimit/Capacity.antt =====
-- How the global limiter makes room and forgets.
use sky_personal_ledger.Base.{
  ℕ, ◌+◌, ◌≤◌, ◌<◌, ◌≡◌, refl, ◌⊎◌, inl, inr, Bool, false, not, ◌||◌, List, [], ◌∷◌, arith, ltb,
  leb, ◌==◌, if◌then◌else◌, Bool-cases, length, keep_if, All, length-keep_if-le, keep_if-All_of,
  count_rows, update_rows,
}
use sky_personal_ledger.RateLimit.Defs.{
  within, Requests, requests_are, cleanup_at, last_time, oldest_ip, ensure_capacity,
}

-- A source counts from one request up to the limit.
abbrev pub IsCounted : ℕ → Requests → Type 0
IsCounted limit r = (1 ≤ length r.times) × (length r.times ≤ limit)

split :
    (p : Requests → Bool) (rs : List Requests)
    → length (keep_if (λ r. not (p r)) rs) + count_rows p rs ≡ length rs
unfolding count_rows
split p [] = omega arith
split p (r ∷ rs) = ground (arith, split p rs)

abbrev pub IsNamed : Requests → Type 0
IsNamed r = (r.ip == 0) ≡ false

abbrev Found : List Requests → ℕ → ℕ → Type 0
Found rs start found =
    ((found == 0) ≡ false) × ((found ≡ start) ⊎ (1 ≤ count_rows (requests_are found) rs))

count_head :
    (r : Requests) (rs : List Requests) (found : ℕ)
    → ((found ≡ r.ip) ⊎ (1 ≤ count_rows (requests_are found) rs))
    → 1 ≤ count_rows (requests_are found) (r ∷ rs)
unfolding count_rows
count_head r rs found h = ground arith

first :
    (r : Requests) (rs : List Requests) (found start : ℕ)
    → Found rs r.ip found
    → Found (r ∷ rs) start found
first r rs found start h = (h.0, inr (count_head r rs found h.1))

later :
    (r : Requests) (rs : List Requests) (found start : ℕ)
    → Found rs start found
    → Found (r ∷ rs) start found
later r rs found start h =
    (h.0, elim h.1 [ inl e ↦ inl e | inr e ↦ inr (count_head r rs found (inr e)) ])

-- The address that is dropped is one of an entry.
oldest_ip-found :
    (rs : List Requests) (ip seen : ℕ)
    → All IsNamed rs
    → (ip == 0) ≡ false
    → Found rs ip (oldest_ip rs ip seen)
unfolding oldest_ip
oldest_ip-found [] ip seen h named = (named, inl refl)
oldest_ip-found (r ∷ rs) ip seen h named = elim (Bool-cases (ltb (last_time r.times) seen)) [
  | inl e ↦ rw (named, e) (first r rs _ ip (oldest_ip-found rs r.ip (last_time r.times) h.1 h.0))
  | inr e ↦ rw (named, e) (later r rs _ ip (oldest_ip-found rs ip seen h.1 named))
]

dropped-length :
    (rs : List Requests)
    → 1 ≤ length rs
    → All IsNamed rs
    → length (
        if oldest_ip rs 0 0 == 0
        then rs
        else keep_if (λ r. not (requests_are (oldest_ip rs 0 0) r)) rs)
      < length rs
unfolding oldest_ip
dropped-length [] some_one named = absurd (omega (arith, some_one))
dropped-length (r ∷ rs) some_one named =
    let (found, which) = oldest_ip-found rs r.ip (last_time r.times) named.1 named.0 in
    let counted = count_head r rs (oldest_ip rs r.ip (last_time r.times)) which in
    rw found (
      omega (arith, counted, split (requests_are (oldest_ip rs r.ip (last_time r.times))) (r ∷ rs)))

-- Making room leaves room.
pub ensure_capacity-length :
    (m : ℕ) (rs : List Requests)
    → 1 ≤ m
    → length rs ≤ m
    → All IsNamed rs
    → length (ensure_capacity m rs) < m
unfolding ensure_capacity
ensure_capacity-length m rs space fits named = elim (Bool-cases (ltb (length rs) m)) [
  | inl e ↦ ground arith
  | inr e ↦
      let full : length rs ≡ m = ground arith in
      let none_left : leb m 0 ≡ false = ground arith in
      rw (none_left, e) (omega (arith, full, dropped-length rs (omega (arith, full, space)) named))
]

pub IsCounted-keep :
    (limit window now : ℕ) (rs : List Requests)
    → All (IsCounted limit) rs
    → All (IsCounted limit) (cleanup_at window rs now)
unfolding cleanup_at
IsCounted-keep limit window now [] h = tt
IsCounted-keep limit window now (r ∷ rs) h =
    let rest = IsCounted-keep limit window now rs h.1 in
    let few : length (keep_if (within window now) r.times) ≤ limit =
      omega (arith, length-keep_if-le (within window now) r.times, h.0.1) in
    elim (Bool-cases (length (keep_if (within window now) r.times) == 0)) [
      | inl e ↦ rw e rest
      | inr e ↦ rw e ((ground arith, few), rest)
    ]

pub IsNamed-keep :
    (window now : ℕ) (rs : List Requests) → All IsNamed rs → All IsNamed (cleanup_at window rs now)
unfolding cleanup_at
IsNamed-keep window now [] h = tt
IsNamed-keep window now (r ∷ rs) h =
    elim (Bool-cases (length (keep_if (within window now) r.times) == 0)) [
      | inl e ↦ rw e (IsNamed-keep window now rs h.1)
      | inr e ↦ rw e (h.0, IsNamed-keep window now rs h.1)
    ]

pub length-cleanup_at :
    (window now : ℕ) (rs : List Requests) → length (cleanup_at window rs now) ≤ length rs
unfolding cleanup_at
length-cleanup_at window now [] = omega arith
length-cleanup_at window now (r ∷ rs) = ground (arith, length-cleanup_at window now rs)

pub ensure_capacity-All {κ} :
    (P : Requests → Type κ) (m : ℕ) (rs : List Requests) → All P rs → All P (ensure_capacity m rs)
unfolding ensure_capacity
ensure_capacity-All P m rs h = elim (Bool-cases (leb m 0 || ltb (length rs) m)) [
  | inl e ↦ rw e h
  | inr e ↦ elim (Bool-cases (oldest_ip rs 0 0 == 0)) [
    | inl f ↦ rw (e, f) h
    | inr f ↦ rw (e, f) (keep_if-All_of P (λ r. not (requests_are (oldest_ip rs 0 0) r)) rs h)
  ]
]

pub update-All {κ} :
    (P : Requests → Type κ) (ip : ℕ) (f : Requests → Requests) (rs : List Requests)
    → ((r : Requests) → P r → P (f r))
    → All P rs
    → All P (update_rows (requests_are ip) f rs)
unfolding update_rows
update-All P ip f [] h a = tt
update-All P ip f (r ∷ rs) h a = elim (Bool-cases (requests_are ip r)) [
  | inl e ↦ rw e (h r a.0, update-All P ip f rs h a.1)
  | inr e ↦ rw e (a.0, update-All P ip f rs h a.1)
]

pub update-length :
    (ip : ℕ) (f : Requests → Requests) (rs : List Requests)
    → length (update_rows (requests_are ip) f rs) ≡ length rs
unfolding update_rows
update-length ip f [] = refl
update-length ip f (r ∷ rs) = omega (arith, update-length ip f rs)
