-- ===== src/Tokens/Scopes.antt =====
-- The normalization of scopes.
use sky_personal_ledger.Base.{
  ℕ, ◌≡◌, refl, sym, ap, ◌∙◌, subst, inl, inr, Bool, true, false, not, ◌&&◌, ◌||◌, none, some, List,
  [], ◌∷◌, ◌++◌, map, arith, ◌==◌, ==_iff, Bool-cases, All,
}
use sky_personal_ledger.Tokens.Defs.{allowed_scopes, is_member, keep_scopes, normalize_scopes}

-- No item twice.
unfoldable pub Distinct : List ℕ → Type 0
Distinct [] = Unit
Distinct (x ∷ xs) = (is_member x xs ≡ false) × Distinct xs

abbrev pub IsAllowed : ℕ → Type 0
IsAllowed x = is_member x allowed_scopes ≡ true

is_member-append :
    (x : ℕ) (xs : List ℕ) (y : ℕ) → is_member x (xs ++ (y ∷ [])) ≡ (is_member x xs || x == y)
unfolding is_member
is_member-append x [] y = ground arith
is_member-append x (z ∷ xs) y = ground (arith, is_member-append x xs y)

Distinct-append :
    (xs : List ℕ) (y : ℕ) → Distinct xs → is_member y xs ≡ false → Distinct (xs ++ (y ∷ []))
unfolding Distinct is_member
Distinct-append [] y h ne = (refl, tt)
Distinct-append (x ∷ xs) y (h, hs) ne =
    (is_member-append x xs y ∙ ground (arith, h, ne), Distinct-append xs y hs (ground (arith, ne)))

All-append : (P : ℕ → Type 0) (xs : List ℕ) (y : ℕ) → All P xs → P y → All P (xs ++ (y ∷ []))
All-append P [] y h p = (p, tt)
All-append P (x ∷ xs) y (h, hs) p = (h, All-append P xs y hs p)

module _ (trim lower : ℕ → ℕ) where
  abbrev scope_of : ℕ → ℕ
  scope_of value = lower (trim value)

  Kept : List ℕ → List ℕ → List ℕ → Type 0
  Kept kept values result =
      Distinct result
      × All IsAllowed result
      × ((x : ℕ)
          → is_member x result
            ≡ (is_member x kept || (not (x == 0) && is_member x (map scope_of values))))

  keep_scopes-Kept :
      (kept values result : List ℕ)
      → Distinct kept
      → All IsAllowed kept
      → keep_scopes trim lower kept values ≡ some result
      → Kept kept values result
  unfolding keep_scopes Kept is_member
  keep_scopes-Kept kept [] result d a h =
      let e : kept ≡ result = some_list h in
      (subst Distinct e d, subst (All IsAllowed) e a, λ x. ap (is_member x) (sym e) ∙ ground arith)
    where
      some_list : {u v : List ℕ} → some u ≡ some v → u ≡ v
      some_list h = cc
  keep_scopes-Kept kept (value ∷ values) result d a h = elim (Bool-cases (scope_of value == 0)) [
    | inl z ↦
        let (d', a', m) = keep_scopes-Kept kept values result d a (rw z at h) in
        (
          d',
          a',
          λ x.
              m x
              ∙ blank x (scope_of value) (is_member x kept) (is_member x (map scope_of values)) z,
        )
    | inr z ↦ elim (Bool-cases (is_member (scope_of value) allowed_scopes)) [
      | inr refused ↦ absurd (never (rw (z, refused) at h))
      | inl allowed ↦ elim (Bool-cases (is_member (scope_of value) kept)) [
        | inl again ↦
            let (d', a', m) =
              keep_scopes-Kept kept values result d a (rw (z, allowed, again) at h) in
            (
              d',
              a',
              λ x. m x ∙ known x (scope_of value) kept (is_member x (map scope_of values)) z again,
            )
        | inr new ↦
            let (d', a', m) =
              keep_scopes-Kept (kept ++ (scope_of value ∷ [])) values result
                (Distinct-append kept (scope_of value) d new)
                (All-append IsAllowed kept (scope_of value) a allowed)
                (rw (z, allowed, new) at h) in
            (
              d',
              a',
              λ x.
                  m x
                  ∙ ap (λ (b : Bool). b || (not (x == 0) && is_member x (map scope_of values)))
                      (is_member-append x kept (scope_of value))
                  ∙ added x (scope_of value) (is_member x kept) (is_member x (map scope_of values))
                      z,
            )
      ]
    ]
  ]
    where
      never : {u : List ℕ} → none ≡ some u → ⊥
      never h = cc

      known :
          (x s : ℕ) (kept : List ℕ) (r : Bool)
          → (s == 0) ≡ false
          → is_member s kept ≡ true
          → (is_member x kept || (not (x == 0) && r))
            ≡ (is_member x kept || (not (x == 0) && (x == s || r)))
      known x s kept r z m = elim (Bool-cases (x == s)) [
        | inl e ↦ rw ((==_iff x s).0 e) (rw m refl)
        | inr e ↦ rw e refl
      ]

      added :
          (x s : ℕ) (k r : Bool)
          → (s == 0) ≡ false
          → ((k || x == s) || (not (x == 0) && r)) ≡ (k || (not (x == 0) && (x == s || r)))
      added x s k r z = ground (arith, z)

      blank :
          (x s : ℕ) (k r : Bool)
          → (s == 0) ≡ true
          → (k || (not (x == 0) && r)) ≡ (k || (not (x == 0) && (x == s || r)))
      blank x s k r z = ground (arith, z)

  is_member-mid : (x : ℕ) (kept xs : List ℕ) → is_member x (kept ++ (x ∷ xs)) ≡ true
  unfolding is_member
  is_member-mid x [] xs = ground arith
  is_member-mid x (y ∷ kept) xs = ground (arith, is_member-mid x kept xs)

  Distinct-mid :
      (kept : List ℕ) (x : ℕ) (xs : List ℕ) → Distinct (kept ++ (x ∷ xs)) → is_member x kept ≡ false
  unfolding Distinct is_member
  Distinct-mid [] x xs d = refl
  Distinct-mid (y ∷ kept) x xs (h, hs) = elim (Bool-cases (x == y)) [
    | inl e ↦ absurd (
        clash (ap (λ (z : ℕ). is_member z (kept ++ (x ∷ xs))) ((==_iff x y).0 e) ∙ h)
          (is_member-mid x kept xs))
    | inr e ↦ rw e (Distinct-mid kept x xs hs)
  ]
    where
      clash : {b : Bool} → b ≡ false → b ≡ true → ⊥
      clash g h = cc (sym g ∙ h)

  not_blank : (x : ℕ) → IsAllowed x → (x == 0) ≡ false
  unfolding is_member
  not_blank x h = ground arith

  pub keep_scopes-again :
      (kept xs : List ℕ)
      → ((x : ℕ) → IsAllowed x → scope_of x ≡ x)
      → Distinct (kept ++ xs)
      → All IsAllowed xs
      → keep_scopes trim lower kept xs ≡ some (kept ++ xs)
  unfolding keep_scopes
  keep_scopes-again kept [] plain d a = ap some (sym (append-nil kept))
    where
      append-nil : (xs : List ℕ) → xs ++ [] ≡ xs
      append-nil [] = refl
      append-nil (x ∷ xs) = ap (λ (l : List ℕ). x ∷ l) (append-nil xs)
  keep_scopes-again kept (x ∷ xs) plain d (h, hs) =
      let new = Distinct-mid kept x xs d in
      let joined = append-cons kept x xs in
      rw (plain x h, not_blank x h, h, new)
        (keep_scopes-again (kept ++ (x ∷ [])) xs plain (subst Distinct (sym joined) d) hs
          ∙ ap some joined)
    where
      append-cons :
          (kept : List ℕ) (x : ℕ) (xs : List ℕ) → (kept ++ (x ∷ [])) ++ xs ≡ kept ++ (x ∷ xs)
      append-cons [] x xs = refl
      append-cons (y ∷ kept) x xs = ap (λ (l : List ℕ). y ∷ l) (append-cons kept x xs)

  -- Scopes that are accepted are allowed ones, none twice, and those that the values name once trimmed
  -- and in lower case, the empty ones aside; accepted scopes are accepted again unchanged. Trimming and
  -- lower case leave the allowed scopes as they are.
  pub normalize_scopes-Distinct :
      (values result : List ℕ)
      → ((x : ℕ) → IsAllowed x → scope_of x ≡ x)
      → normalize_scopes trim lower values ≡ some result
      → Distinct result
        × All IsAllowed result
        × ((x : ℕ) → is_member x result ≡ (not (x == 0) && is_member x (map scope_of values)))
        × (normalize_scopes trim lower result ≡ some result)
  unfolding normalize_scopes Kept Distinct is_member
  normalize_scopes-Distinct values result plain h =
      let (d, a, m) = keep_scopes-Kept [] values result tt tt h in
      (d, a, m, keep_scopes-again [] result plain d a)
