-- ===== src/Base/Tables.antt =====
-- A database table as a list of rows: `First` with a condition, `Updates` with a condition and the
-- rows that it affects, and the sum of a measure over the rows.
use sky_personal_ledger.Base.Tests.{if◌then◌else◌, Bool-cases}
use sky_personal_ledger.Base.Int.{ℤ, pos, pos_part, neg_part, ◌+ℤ◌, int_laws}
use Prim.Native.Nat.{ℕ, suc, ◌≤◌}
use mathlib.Core.Path.{◌≡◌, refl, ap, sym, ◌∙◌}
use mathlib.Core.Logic.{inl, inr}
use mathlib.Core.Bool.{Bool, true, false}
use mathlib.Core.Option.{Option, none, some}
use mathlib.Core.List.{List, [], ◌∷◌}
use native.Mathlib.Omega.{arith}

add_left : (a s r t u : ℤ) → s +ℤ r ≡ t +ℤ u → a +ℤ s +ℤ r ≡ a +ℤ t +ℤ u
add_left a s r t u h = omega (int_laws, ap pos_part h, ap neg_part h)

module _ {ℓ} {A : Type ℓ} where
  unfoldable pub find_row : (A → Bool) → List A → Option A
  find_row p [] = none
  find_row p (x ∷ xs) = let rest = find_row p xs in if p x then some x else rest

  unfoldable pub count_rows : (A → Bool) → List A → ℕ
  count_rows p [] = 0
  count_rows p (x ∷ xs) = let rest = count_rows p xs in if p x then suc rest else rest

  unfoldable pub update_rows : (A → Bool) → (A → A) → List A → List A
  update_rows p f [] = []
  update_rows p f (x ∷ xs) = (if p x then f x else x) ∷ update_rows p f xs

  unfoldable pub sum_rows : (A → ℤ) → List A → ℤ
  sum_rows m [] = pos 0
  sum_rows m (x ∷ xs) = m x +ℤ sum_rows m xs

  -- The row that an update makes of a row that is found.
  abbrev pub touch : (A → Bool) → (A → A) → Option A → Option A
  touch p f none = none
  touch p f (some x) = some (if p x then f x else x)

  module _ (p : A → Bool) (f : A → A) where
    pub update_rows-count_zero : (xs : List A) → count_rows p xs ≡ 0 → update_rows p f xs ≡ xs
    unfolding count_rows update_rows
    update_rows-count_zero [] h = refl
    update_rows-count_zero (x ∷ xs) h = ground (arith, update_rows-count_zero xs)

    -- With exactly one row affected, the sum of a measure changes by what it changes at that row.
    pub sum_rows-update_rows :
        (m : A → ℤ) (r : A) (xs : List A)
        → count_rows p xs ≡ 1
        → find_row p xs ≡ some r
        → sum_rows m (update_rows p f xs) +ℤ m r ≡ sum_rows m xs +ℤ m (f r)
    unfolding count_rows update_rows sum_rows find_row
    sum_rows-update_rows m r [] h e = cc
    sum_rows-update_rows m r (x ∷ xs) h e = elim (Bool-cases (p x)) [
      | inl t ↦
          let rest : update_rows p f xs ≡ xs = update_rows-count_zero xs (ground arith) in
          let same : x ≡ r = ground arith in rw (t, rest, same) (omega int_laws)
      | inr t ↦ rw t (
          add_left (m x) _ (m r) _ (m (f r))
            (sum_rows-update_rows m r xs (ground arith) (ground arith)))
    ]

    -- An update that a condition does not notice is made on the row that the condition finds.
    pub find_row-update_rows :
        (q : A → Bool) (xs : List A)
        → ((x : A) → q (f x) ≡ q x)
        → find_row q (update_rows p f xs) ≡ touch p f (find_row q xs)
    unfolding update_rows find_row
    find_row-update_rows q [] h = refl
    find_row-update_rows q (x ∷ xs) h = ground (arith, h x, find_row-update_rows q xs h)

    pub count_rows-update_rows :
        (q : A → Bool) (xs : List A)
        → ((x : A) → q (f x) ≡ q x)
        → count_rows q (update_rows p f xs) ≡ count_rows q xs
    unfolding update_rows count_rows
    count_rows-update_rows q [] h = refl
    count_rows-update_rows q (x ∷ xs) h = ground (arith, h x, count_rows-update_rows q xs h)

    -- A measure that the update leaves alone at the rows it affects has the same sum.
    pub sum_rows-update_rows_same :
        (m : A → ℤ) (xs : List A)
        → ((x : A) → p x ≡ true → m (f x) ≡ m x)
        → sum_rows m (update_rows p f xs) ≡ sum_rows m xs
    unfolding update_rows sum_rows
    sum_rows-update_rows_same m [] h = refl
    sum_rows-update_rows_same m (x ∷ xs) h = ground (arith, h x, sum_rows-update_rows_same m xs h)

  pub find_row_holds : (p : A → Bool) (xs : List A) (r : A) → find_row p xs ≡ some r → p r ≡ true
  unfolding find_row
  find_row_holds p [] r h = cc
  find_row_holds p (x ∷ xs) r h = ground (arith, find_row_holds p xs r)

  pub find_row-none : (p : A → Bool) (xs : List A) → count_rows p xs ≡ 0 → find_row p xs ≡ none
  unfolding find_row count_rows
  find_row-none p [] h = refl
  find_row-none p (x ∷ xs) h = ground (arith, find_row-none p xs)

  pub find_row-some :
      (p : A → Bool) (xs : List A) → count_rows p xs ≡ 1 → (r : A) × (find_row p xs ≡ some r)
  unfolding find_row count_rows
  find_row-some p [] h = absurd (omega (arith, h))
  find_row-some p (x ∷ xs) h = elim (Bool-cases (p x)) [
    | inl t ↦ (x, rw t)
    | inr t ↦ rw t (find_row-some p xs (ground arith))
  ]

  count_rows-le :
      (p q : A → Bool) (xs : List A)
      → ((x : A) → p x ≡ true → q x ≡ true)
      → count_rows p xs ≤ count_rows q xs
  unfolding count_rows
  count_rows-le p q [] h = omega arith
  count_rows-le p q (x ∷ xs) h = ground (arith, h x, count_rows-le p q xs h)

  -- Where a key finds one row, a narrower condition finds that row or none.
  pub find_row_unique :
      (key p : A → Bool) (xs : List A) (r x : A)
      → ((y : A) → p y ≡ true → key y ≡ true)
      → count_rows key xs ≡ 1
      → find_row key xs ≡ some r
      → find_row p xs ≡ some x
      → x ≡ r
  unfolding count_rows find_row
  find_row_unique key p [] r x h one e f = cc
  find_row_unique key p (y ∷ xs) r x h one e f = elim (Bool-cases (p y)) [
    | inl t ↦ let k = h y t in some_row (sym (rw t at f) ∙ rw k at e)
    | inr t ↦ elim (Bool-cases (key y)) [
      | inl k ↦
          let rest : count_rows key xs ≡ 0 = ground (arith, one, k) in
          let nothing : find_row p xs ≡ none =
            find_row-none p xs (omega (arith, count_rows-le p key xs h, rest)) in
          cc (sym nothing ∙ (rw t at f))
      | inr k ↦ find_row_unique key p xs r x h (rw k at one) (rw k at e) (rw t at f)
    ]
  ]
    where
      some_row : {a b : A} → some a ≡ some b → a ≡ b
      some_row h = cc

  -- Where a key finds one row, and that row fails a narrower condition, no row meets the condition.
  pub count_rows-zero :
      (key p : A → Bool) (xs : List A) (r : A)
      → ((y : A) → p y ≡ true → key y ≡ true)
      → count_rows key xs ≡ 1
      → find_row key xs ≡ some r
      → p r ≡ false
      → count_rows p xs ≡ 0
  unfolding count_rows find_row
  count_rows-zero key p [] r h one e f = refl
  count_rows-zero key p (y ∷ xs) r h one e f = elim (Bool-cases (key y)) [
    | inl k ↦
        let rest : count_rows key xs ≡ 0 = ground (arith, one, k) in
        let py : p y ≡ false = ap p (the_row (rw k at e)) ∙ f in
        rw py (omega (arith, count_rows-le p key xs h, rest))
    | inr k ↦
        let py : p y ≡ false = ground (arith, h y, k) in
        rw py (count_rows-zero key p xs r h (rw k at one) (rw k at e) f)
  ]
    where
      the_row : {a b : A} → some a ≡ some b → a ≡ b
      the_row h = cc

  -- Where a key finds one row, an update of that row only that takes it from the key leaves none.
  pub update_away :
      (key p : A → Bool) (f : A → A) (xs : List A) (r : A)
      → ((y : A) → p y ≡ true → key y ≡ true)
      → count_rows key xs ≡ 1
      → find_row key xs ≡ some r
      → p r ≡ true
      → key (f r) ≡ false
      → (count_rows p xs ≡ 1)
        × (find_row p xs ≡ some r)
        × (find_row key (update_rows p f xs) ≡ none)
  unfolding count_rows find_row update_rows
  update_away key p f [] r h one e t away = cc
  update_away key p f (y ∷ xs) r h one e t away = elim (Bool-cases (key y)) [
    | inl k ↦
        let rest : count_rows key xs ≡ 0 = ground (arith, one, k) in
        let same : y ≡ r = the_row (rw k at e) in
        let none_left : count_rows p xs ≡ 0 = omega (arith, count_rows-le p key xs h, rest) in
        let py : p y ≡ true = ap p same ∙ t in
        let gone : key (f y) ≡ false = ap (λ x. key (f x)) same ∙ away in
        let kept : update_rows p f xs ≡ xs = update_rows-count_zero p f xs none_left in
        rw (py, gone, kept, none_left, same) (refl, refl, find_row-none key xs rest)
    | inr k ↦
        let py : p y ≡ false = ground (arith, h y, k) in
        rw (py, k) (update_away key p f xs r h (rw k at one) (rw k at e) t away)
  ]
    where
      the_row : {a b : A} → some a ≡ some b → a ≡ b
      the_row h = cc

  -- An update of the one row that a key finds, and an update back, both with conditions that hold at
  -- the key's rows only.
  module _ (key p back : A → Bool) (f g : A → A) (r : A) (at : p r ≡ true)
      (at_back : back (f r) ≡ true) (undo : g (f r) ≡ r)
      (p_key : (x : A) → p x ≡ true → key x ≡ true)
      (back_key : (x : A) → back x ≡ true → key x ≡ true) where
    none_to_update :
        (q : A → Bool) (xs : List A)
        → ((x : A) → q x ≡ true → key x ≡ true)
        → count_rows key xs ≡ 0
        → count_rows q xs ≡ 0
    none_to_update q xs h e = omega (arith, count_rows-le q key xs h, e)

    excluded : (q : A → Bool) (x : A) → (q x ≡ true → key x ≡ true) → key x ≡ false → q x ≡ false
    excluded q x h k = ground (arith, h, k)

    pub update_back :
        (xs : List A)
        → count_rows key xs ≡ 1
        → find_row key xs ≡ some r
        → (count_rows back (update_rows p f xs) ≡ 1)
          × (update_rows back g (update_rows p f xs) ≡ xs)
    unfolding count_rows find_row update_rows
    update_back [] one e = cc
    update_back (x ∷ xs) one e = elim (Bool-cases (key x)) [
      | inl k ↦
          let same : x ≡ r = some_row (rw k at e) in
          let rest : count_rows key xs ≡ 0 = ground (arith, one, k) in
          let px : p x ≡ true = ap p same ∙ at in
          let fx : f x ≡ f r = ap f same in
          let kept = update_rows-count_zero p f xs (none_to_update p xs p_key rest) in
          let kept_back = update_rows-count_zero back g xs (none_to_update back xs back_key rest) in
          let bx : back (f x) ≡ true = ap back fx ∙ at_back in
          let gx : g (f x) ≡ x = ap g fx ∙ undo ∙ sym same in
          rw (px, bx, kept, none_to_update back xs back_key rest, kept_back, gx) (refl, refl)
      | inr k ↦
          let (once, restored) = update_back xs (rw k at one) (rw k at e) in
          rw (excluded p x (p_key x) k, excluded back x (back_key x) k, restored) (once, refl)
    ]
      where
        some_row : {a b : A} → some a ≡ some b → a ≡ b
        some_row h = cc
