-- ===== src/RateLimit/Window.antt =====
-- The bounds of the global limiter.
use sky_personal_ledger.Base.{
  ℕ, ◌≤◌, ◌≡◌, subst, inl, inr, Bool, false, ◌&&◌, some, List, [], ◌∷◌, ◌++◌, arith, ltb, leb, ◌==◌,
  Bool-cases, Option-cases, length, keep_if, All, length-append, length-keep_if-le, find_row,
  update_rows,
}
use sky_personal_ledger.RateLimit.Defs.{
  within, Requests, GlobalRateLimiter, requests_are, cleanup_at, ensure_capacity, set_times, admit,
  allow,
}
use sky_personal_ledger.RateLimit.Capacity.{
  IsCounted, IsNamed, ensure_capacity-length, IsCounted-keep, IsNamed-keep, length-cleanup_at,
  ensure_capacity-All, update-All, update-length,
}

-- The limits are positive, there is no entry for the empty text, the entries are no more than the
-- limiter holds, and each is counted.
pub record IsBounded (g : GlobalRateLimiter) : Type 0 where
  pub room : 1 ≤ g.max_requests
  pub space : 1 ≤ g.max_entries
  pub entries : length g.requests ≤ g.max_entries
  pub named : All (λ r. (r.ip == 0) ≡ false) g.requests
  pub counted : All (IsCounted g.max_requests) g.requests

found-All {κ} :
    (P : Requests → Type κ) (p : Requests → Bool) (rs : List Requests) (r : Requests)
    → All P rs
    → find_row p rs ≡ some r
    → P r
unfolding find_row
found-All P p [] r h e = cc
found-All P p (x ∷ rs) r h e = elim (Bool-cases (p x)) [
  | inl f ↦ subst P (some_of (rw f at e)) h.0
  | inr f ↦ found-All P p rs r h.1 (rw f at e)
]
  where
    some_of : {x y : Requests} → some x ≡ some y → x ≡ y
    some_of q = cc

-- One more source, for which room was made.
one_more :
    (g : GlobalRateLimiter) (ip now : ℕ) (rs : List Requests)
    → (ip == 0) ≡ false
    → IsBounded g
    → length rs ≤ g.max_entries
    → All IsNamed rs
    → All (IsCounted g.max_requests) rs
    → IsBounded (record g {
      requests = record { ip = ip; times = now ∷ [] } ∷ ensure_capacity g.max_entries rs;
    })
one_more g ip now rs named h fits names counts = record {
  room = h.room;
  space = h.space;
  entries = omega (arith, ensure_capacity-length g.max_entries rs h.space fits names);
  named = (named, ensure_capacity-All IsNamed g.max_entries rs names);
  counted = (
    (omega arith, omega (arith, h.room)),
    ensure_capacity-All (IsCounted g.max_requests) g.max_entries rs counts,
  );
}

admit-IsBounded :
    (g : GlobalRateLimiter) (ip now : ℕ)
    → (ip == 0) ≡ false
    → IsBounded g
    → IsBounded (record g { requests = admit g ip now })
unfolding admit
admit-IsBounded g ip now named h =
    elim (Bool-cases (ltb 0 g.max_entries && leb g.max_entries (length g.requests))) [
      | inl e ↦ rw e (
          one_more g ip now (cleanup_at g.window g.requests now) named h
            (omega (arith, length-cleanup_at g.window now g.requests, h.entries))
            (IsNamed-keep g.window now g.requests h.named)
            (IsCounted-keep g.max_requests g.window now g.requests h.counted))
      | inr e ↦ rw e (one_more g ip now g.requests named h h.entries h.named h.counted)
    ]

-- New times for a source.
retimed :
    (g : GlobalRateLimiter) (ip : ℕ) (times : List ℕ)
    → IsBounded g
    → 1 ≤ length times
    → length times ≤ g.max_requests
    → IsBounded (record g { requests = update_rows (requests_are ip) (set_times times) g.requests })
retimed g ip times h low high = record {
  room = h.room;
  space = h.space;
  entries = omega (arith, update-length ip (set_times times) g.requests, h.entries);
  named = update-All IsNamed ip (set_times times) g.requests (λ r n. n) h.named;
  counted =
      update-All (IsCounted g.max_requests) ip (set_times times) g.requests (λ r n. (low, high))
        h.counted;
}

allow-some :
    (g : GlobalRateLimiter) (ip now : ℕ) (r : Requests)
    → IsBounded g
    → length r.times ≤ g.max_requests
    → find_row (requests_are ip) g.requests ≡ some r
    → IsBounded (allow g ip now).1
unfolding allow
allow-some g ip now r h few e =
    let valid = keep_if (within g.window now) r.times in
    let fewer : length valid ≤ g.max_requests =
      omega (arith, length-keep_if-le (within g.window now) r.times, few) in
    elim (Bool-cases (leb g.max_requests (length valid))) [
      | inl f ↦ rw (allow, e, f) (retimed g ip valid h (ground (arith, h.room)) fewer)
      | inr f ↦
          rw (allow, e, f)
            (retimed g ip (valid ++ (now ∷ [])) h (omega (arith, length-append valid (now ∷ [])))
              (ground (arith, length-append valid (now ∷ []))))
    ]

-- The bounds of the limiter are kept by a request of any source that has an address: the limiter holds
-- no more entries than it may, none for the empty address, and each has from one request up to the
-- limit.
pub allow-IsBounded :
    (g : GlobalRateLimiter) (ip now : ℕ)
    → (ip == 0) ≡ false
    → IsBounded g
    → IsBounded (allow g ip now).1
unfolding allow
allow-IsBounded g ip now named h = elim (Option-cases (find_row (requests_are ip) g.requests)) [
  | inl e ↦ rw (allow, e) (admit-IsBounded g ip now named h)
  | inr (r, e) ↦
      allow-some g ip now r h
        (found-All (IsCounted g.max_requests) (requests_are ip) g.requests r h.counted e).1 e
]
