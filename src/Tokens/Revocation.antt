-- ===== src/Tokens/Revocation.antt =====
-- Tokens that are revoked.
use sky_personal_ledger.Base.{
  ℕ, ◌≡◌, refl, sym, ap, ◌∙◌, inl, inr, Bool, false, not, ◌&&◌, none, List, [], ◌∷◌, arith, ◌==◌,
  Bool-cases, All, find_row, count_rows, update_rows, ok, err, guard, >>=-eq-ok,
}
use sky_personal_ledger.Base.{invalid_token, token_not_found}
use sky_personal_ledger.Tokens.Defs.{
  ApiToken, live_token, revocable, revoke_at, delete_token, look_up, validate_principal,
}

-- Every live row that is stored under the text is the one that is revoked.
abbrev pub OnlyRow : ℕ → ℕ → ℕ → List ApiToken → Type 0
OnlyRow text id user tokens =
    All (λ (x : ApiToken). (live_token text x && not (revocable id user x)) ≡ false) tokens

revoked_away :
    (text id user now : ℕ) (tokens : List ApiToken)
    → OnlyRow text id user tokens
    → find_row (live_token text) (update_rows (revocable id user) (revoke_at now) tokens) ≡ none
unfolding find_row update_rows
revoked_away text id user now [] h = refl
revoked_away text id user now (x ∷ tokens) (h, hs) = elim (Bool-cases (revocable id user x)) [
  | inl t ↦ rw (t, off (x.token == text)) (revoked_away text id user now tokens hs)
  | inr t ↦
      rw (t, dead (live_token text x) (revocable id user x) h t)
        (revoked_away text id user now tokens hs)
]
  where
    off : (b : Bool) → (b && false) ≡ false
    off b = ground arith

    dead : (a b : Bool) → (a && not b) ≡ false → b ≡ false → a ≡ false
    dead a b h t = ground (arith, h, t)

module _ (trim lower runes hash : ℕ → ℕ) where
  not_found :
      (can_rehash : Bool) (tokens : List ApiToken) (text : ℕ)
      → find_row (live_token (hash text)) tokens ≡ none
      → find_row (live_token text) tokens ≡ none
      → look_up trim lower runes hash can_rehash tokens text ≡ none
  unfolding look_up
  not_found can_rehash tokens text e f = rw (look_up, e, f) refl

  -- A token that its user has revoked is refused from then on, whatever can be written, where no other
  -- live row is stored under its digest or under itself.
  pub validate_principal-delete_token :
      (can_rehash can_use : Bool) (tokens after : List ApiToken) (id user now text later : ℕ)
      → delete_token tokens id user now ≡ ok after
      → OnlyRow (hash (trim text)) id user tokens
      → OnlyRow (trim text) id user tokens
      → validate_principal trim lower runes hash can_rehash can_use after text later
        ≡ (err invalid_token, after)
  unfolding delete_token validate_principal
  validate_principal-delete_token can_rehash can_use tokens after id user now text later h one two =
      let (_, _, h1) =
        >>=-eq-ok (guard (not (count_rows (revocable id user) tokens == 0)) token_not_found) _ h in
      let e : update_rows (revocable id user) (revoke_at now) tokens ≡ after = tokens_of h1 in
      let gone : look_up trim lower runes hash can_rehash after (trim text) ≡ none =
        not_found can_rehash after (trim text)
          (ap (find_row (live_token (hash (trim text)))) (sym e)
            ∙ revoked_away (hash (trim text)) id user now tokens one)
          (ap (find_row (live_token (trim text))) (sym e)
            ∙ revoked_away (trim text) id user now tokens two) in
      elim (Bool-cases (trim text == 0)) [ inl t ↦ rw t refl | inr t ↦ rw (t, gone) refl ]
    where
      tokens_of : {a b : List ApiToken} → ok a ≡ ok b → a ≡ b
      tokens_of h = cc
