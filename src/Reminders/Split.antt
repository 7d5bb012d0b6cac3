-- ===== src/Reminders/Split.antt =====
-- The split of a payment into principal and interest.
use sky_personal_ledger.Base.{
  ℕ, ◌≡◌, refl, sym, ap, ◌∙◌, ◌⊎◌, inl, inr, Bool, true, false, not, ◌||◌, Option, arith,
  Bool-cases, ℤ, pos, pos_part, neg_part, ◌+ℤ◌, ◌-ℤ◌, ltb_ℤ, leb_ℤ, ◌==ℤ◌, -ℤ_parts, eq_of_parts,
  int_laws, ==ℤ_refl, eq_of_==ℤ, Result, ok, ◌>>◌, guard, >>=-eq-ok,
}
use sky_personal_ledger.Base.{payment_not_positive, payment_split_negative, payment_split_mismatch}
use sky_personal_ledger.Money.{Amount, exact, from_cents, cents, add, sub}
use sky_personal_ledger.Money.Exact.{
  add-eq-from_cents, sub-eq-from_cents, cents-exact, from_cents-in_range,
}
use sky_personal_ledger.Balance.Mutation.{InRange}
use sky_personal_ledger.Reminders.Defs.{RecordPaymentRequest, normalize_payment_split}

-- A payment of `a` with the parts `p` and `i`, as cents.
abbrev pub payment_of : ℤ → ℤ → ℤ → Option ℕ → RecordPaymentRequest
payment_of a p i acct = record {
  amount = exact a;
  principal_amount = exact p;
  interest_amount = exact i;
  account_id = acct;
}

-- The test of the parts, and the second half of the split.
abbrev balanced : ℤ → ℤ → ℤ → Bool
balanced a x y = not (
    ltb_ℤ x (pos 0)
    || (ltb_ℤ y (pos 0) || not (cents (add (exact x) (exact y)) ==ℤ cents (exact a))))

abbrev checked : ℤ → ℤ → ℤ → Result (Amount × Amount)
checked a x y = do guard (balanced a x y) payment_split_mismatch; ok (exact x, exact y)

unfoldable pub IsSplit : ℤ → ℤ → ℤ → Type 0
IsSplit a x y = (x +ℤ y ≡ a) × (leb_ℤ (pos 0) x ≡ true) × (leb_ℤ (pos 0) y ≡ true)

cents-from : (c : ℤ) → (cents (from_cents c) ≡ c) ⊎ (cents (from_cents c) ≡ pos 0)
unfolding cents from_cents
cents-from c = ground arith

parts_add :
    (a x y : ℤ)
    → InRange x
    → InRange y
    → InRange a
    → leb_ℤ (pos 1) a ≡ true
    → balanced a x y ≡ true
    → x +ℤ y ≡ a
parts_add a x y fx fy fa positive h =
    let e : cents (add (exact x) (exact y)) ≡ cents (from_cents (x +ℤ y)) =
      ap cents (add-eq-from_cents (exact x) (exact y))
      ∙ rw (cents-exact x fx, cents-exact y fy) refl in
    let eq : cents (from_cents (x +ℤ y)) ≡ a =
      sym e ∙ eq_of_==ℤ _ _ (ground arith) ∙ cents-exact a fa in
    elim (cents-from (x +ℤ y)) [
      | inl same ↦ sym same ∙ eq
      | inr z ↦ absurd (zero_not (sym z ∙ eq) positive)
    ]
  where
    zero_not : {c : ℤ} → pos 0 ≡ c → leb_ℤ (pos 1) c ≡ true → ⊥
    zero_not e h = ground (arith, rw (sym e) at h)

checked-sums :
    (a x y : ℤ) {q r : Amount}
    → InRange a
    → InRange x
    → InRange y
    → leb_ℤ (pos 1) a ≡ true
    → checked a x y ≡ ok (q, r)
    → (q ≡ exact x) × (r ≡ exact y) × IsSplit a x y
unfolding IsSplit
checked-sums a x y fa fx fy positive h =
    let (_, g, h1) = >>=-eq-ok (guard (balanced a x y) payment_split_mismatch) _ h in
    let b : balanced a x y ≡ true = ground arith in
    (cc, cc, (parts_add a x y fx fy fa positive b, ground arith, ground arith))

checked-accepts :
    (a x y : ℤ)
    → InRange a
    → InRange x
    → InRange y
    → IsSplit a x y
    → checked a x y ≡ ok (exact x, exact y)
unfolding IsSplit
checked-accepts a x y fa fx fy (e, px, py) =
    let sum : cents (add (exact x) (exact y)) ≡ cents (exact a) = ap cents (
      add-eq-from_cents (exact x) (exact y)
      ∙ rw (cents-exact x fx, cents-exact y fy, e) (from_cents-in_range a fa)) in
    rw (sum, ==ℤ_refl (cents (exact a)), nonneg x y px py) refl
  where
    nonneg :
        (x y : ℤ)
        → leb_ℤ (pos 0) x ≡ true
        → leb_ℤ (pos 0) y ≡ true
        → not (ltb_ℤ x (pos 0) || (ltb_ℤ y (pos 0) || false)) ≡ true
    nonneg x y px py = ground (arith, px, py)

-- The part that is left when the other is given.
rest_lem :
    (a p : ℤ)
    → InRange a
    → InRange p
    → leb_ℤ (pos 0) p ≡ true
    → leb_ℤ (pos 1) a ≡ true
    → (sub (exact a) (exact p) ≡ exact (a -ℤ p)) × InRange (a -ℤ p)
rest_lem a p fa fp np pa =
    let fits : InRange (a -ℤ p) = ground (arith, -ℤ_parts a p) in
    (
      sub-eq-from_cents (exact a) (exact p)
          ∙ rw (cents-exact a fa, cents-exact p fp) (from_cents-in_range (a -ℤ p) fits),
      fits,
    )

-- What the split makes of the parts: the part that is given, or what is left for it.
whole : (a : ℤ) → leb_ℤ (pos 1) a ≡ true → IsSplit a a (pos 0)
unfolding IsSplit
whole a h = (eq_of_parts _ _ (omega int_laws), ground (arith, h), refl)

none_given :
    (a p i : ℤ)
    → InRange p
    → InRange i
    → IsSplit a p i
    → leb_ℤ (pos 1) a ≡ true
    → (p ==ℤ pos 0) ≡ true
    → (i ==ℤ pos 0) ≡ true
    → ⊥
unfolding IsSplit
none_given a p i fp fi (e, _, _) positive zp zi =
    let zero : pos 0 ≡ a =
      eq_of_parts _ _ (omega int_laws) ∙ rw (eq_of_==ℤ p (pos 0) zp, eq_of_==ℤ i (pos 0) zi) at e in
    ground (arith, rw (sym zero) at positive)

-- A payment that is split has a positive amount, and its parts are not negative and add up to the
-- amount. A part that the request gives, other than 0, is kept.
pub normalize_payment_split-IsSplit :
    (a p i : ℤ) (acct : Option ℕ) {q r : Amount}
    → InRange a
    → InRange p
    → InRange i
    → normalize_payment_split (payment_of a p i acct) ≡ ok (q, r)
    → (leb_ℤ (pos 1) a ≡ true)
      × ((x y : ℤ) × (q ≡ exact x)
          × (r ≡ exact y)
          × IsSplit a x y
          × ((p ≡ pos 0) ⊎ (x ≡ p))
          × ((i ≡ pos 0) ⊎ (y ≡ i)))
unfolding normalize_payment_split
normalize_payment_split-IsSplit a p i acct fa fp fi h =
    let (_, g, h1) = >>=-eq-ok (guard (not (leb_ℤ a (pos 0))) payment_not_positive) _ h in
    let (_, g2, h2) =
      >>=-eq-ok (guard (not (ltb_ℤ p (pos 0) || ltb_ℤ i (pos 0))) payment_split_negative) _ h1 in
    let positive : leb_ℤ (pos 1) a ≡ true = ground arith in
    let np : leb_ℤ (pos 0) p ≡ true = ground arith in
    let ni : leb_ℤ (pos 0) i ≡ true = ground arith in
    (
      positive,
      elim (Bool-cases (p ==ℤ pos 0)) [
        | inl zp ↦ elim (Bool-cases (i ==ℤ pos 0)) [
          | inl zi ↦
              let e = rw (zp, zi) at h2 in
              (
                a,
                pos 0,
                cc,
                cc,
                whole a positive,
                inl (eq_of_==ℤ p (pos 0) zp),
                inl (eq_of_==ℤ i (pos 0) zi),
              )
          | inr zi ↦
              let (rest, fits) = rest_lem a i fa fi ni positive in
              let (e, f, ok_) =
                checked-sums a (a -ℤ i) i fa fits fi positive (rw (zp, zi, rest) at h2) in
              (a -ℤ i, i, e, f, ok_, inl (eq_of_==ℤ p (pos 0) zp), inr refl)
        ]
        | inr zp ↦ elim (Bool-cases (i ==ℤ pos 0)) [
          | inl zi ↦
              let (rest, fits) = rest_lem a p fa fp np positive in
              let (e, f, ok_) =
                checked-sums a p (a -ℤ p) fa fp fits positive (rw (zp, zi, rest) at h2) in
              (p, a -ℤ p, e, f, ok_, inr refl, inl (eq_of_==ℤ i (pos 0) zi))
          | inr zi ↦
              let (e, f, ok_) = checked-sums a p i fa fp fi positive (rw (zp, zi) at h2) in
              (p, i, e, f, ok_, inr refl, inr refl)
        ]
      ],
    )

-- A positive payment whose parts are not negative and add up to the amount is split as it says.
pub normalize_payment_split-accepts :
    (a p i : ℤ) (acct : Option ℕ)
    → InRange a
    → InRange p
    → InRange i
    → leb_ℤ (pos 1) a ≡ true
    → IsSplit a p i
    → normalize_payment_split (payment_of a p i acct) ≡ ok (exact p, exact i)
unfolding normalize_payment_split IsSplit
normalize_payment_split-accepts a p i acct fa fp fi positive parts =
    let (e, np, ni) = parts in
    let g : not (leb_ℤ a (pos 0)) ≡ true = ground arith in
    let g2 : not (ltb_ℤ p (pos 0) || ltb_ℤ i (pos 0)) ≡ true = ground arith in
    elim (Bool-cases (p ==ℤ pos 0)) [
      | inl zp ↦ elim (Bool-cases (i ==ℤ pos 0)) [
        | inl zi ↦ absurd (none_given a p i fp fi parts positive zp zi)
        | inr zi ↦
            let (rest, _) = rest_lem a i fa fi ni positive in
            let same : a -ℤ i ≡ p = left a p i e in
            rw (g, g2, zp, zi, rest, same) (checked-accepts a p i fa fp fi parts)
      ]
      | inr zp ↦ elim (Bool-cases (i ==ℤ pos 0)) [
        | inl zi ↦
            let (rest, _) = rest_lem a p fa fp np positive in
            let same : a -ℤ p ≡ i = right a p i e in
            rw (g, g2, zp, zi, rest, same) (checked-accepts a p i fa fp fi parts)
        | inr zi ↦ rw (g, g2, zp, zi) (checked-accepts a p i fa fp fi parts)
      ]
    ]
  where
    left : (a p i : ℤ) → p +ℤ i ≡ a → a -ℤ i ≡ p
    left a p i e = eq_of_parts _ _ (omega (int_laws, ap pos_part e, ap neg_part e))

    right : (a p i : ℤ) → p +ℤ i ≡ a → a -ℤ p ≡ i
    right a p i e = eq_of_parts _ _ (omega (int_laws, ap pos_part e, ap neg_part e))
