-- ===== src/Tokens/Validation.antt =====
-- The tokens that are issued, and the texts that are accepted as tokens.
use sky_personal_ledger.Base.{
  ℕ, ◌≡◌, refl, sym, ap, ◌∙◌, subst, inl, inr, Bool, true, false, not, ◌&&◌, ◌||◌, none, some, List,
  [], ◌∷◌, arith, ltb, ◌==◌, Option-cases, pos, ltb_ℤ, find_row, update_rows, ok, guard, >>=-eq-ok,
}
use sky_personal_ledger.Base.{invalid_token_name, invalid_token_expiry}
use sky_personal_ledger.Tokens.Defs.{
  allowed_scopes, is_member, ApiToken, json_scopes, api_token, is_none, live_token, token_is,
  expired, rehash, end_of, new_token, GenerateRequest, normalize_scopes, some_scopes, decode_scopes,
  scopes_asked, generate_token, look_up, validate_principal,
}
use sky_personal_ledger.Tokens.Scopes.{
  Distinct, IsAllowed, keep_scopes-again, normalize_scopes-Distinct,
}

module _ (trim lower runes hash : ℕ → ℕ) where
  -- The principal of a row that is found and has not expired.
  found_principal :
      (can_rehash : Bool) (tokens after : List ApiToken) (text now : ℕ) (t : ApiToken)
      (scopes : List ℕ)
      → (trim text == 0) ≡ false
      → look_up trim lower runes hash can_rehash tokens (trim text) ≡ some (t, after)
      → expired now t ≡ false
      → decode_scopes trim lower t.scopes ≡ ok scopes
      → (validate_principal trim lower runes hash can_rehash true tokens text now).0
        ≡ ok (record { user_id = t.user_id; credential_type = api_token; scopes = scopes })
  unfolding validate_principal
  found_principal can_rehash tokens after text now t scopes some_text found live decoded =
      rw (validate_principal, some_text, found, live, decoded) refl

  allowed-again :
      ((x : ℕ) → IsAllowed x → lower (trim x) ≡ x)
      → normalize_scopes trim lower allowed_scopes ≡ some allowed_scopes
  unfolding normalize_scopes Distinct is_member
  allowed-again plain =
      keep_scopes-again trim lower [] allowed_scopes plain
        (refl, (refl, (refl, (refl, (refl, tt))))) (refl, (refl, (refl, (refl, (refl, tt)))))

  own_row :
      (t : ApiToken) (tokens : List ApiToken) {digest : ℕ}
      → t.token ≡ digest
      → t.revoked_at ≡ none
      → find_row (live_token digest) (t ∷ tokens) ≡ some t
  unfolding find_row
  own_row t tokens {digest} e r =
      let same : (t.token == digest && is_none t.revoked_at) ≡ true = rw (e, r) (ground arith) in
      rw same refl

  first_found :
      (can_rehash : Bool) (t : ApiToken) (tokens : List ApiToken) (text : ℕ)
      → t.token ≡ hash text
      → t.revoked_at ≡ none
      → look_up trim lower runes hash can_rehash (t ∷ tokens) text ≡ some (t, t ∷ tokens)
  unfolding look_up
  first_found can_rehash t tokens text e r = rw (look_up, own_row t tokens e r) refl

  second_found :
      (tokens : List ApiToken) (text : ℕ) (t : ApiToken)
      → find_row (live_token (hash text)) tokens ≡ none
      → find_row (live_token text) tokens ≡ some t
      → look_up trim lower runes hash true tokens text
        ≡ some (t, update_rows (token_is t.id) (rehash (hash text)) tokens)
  unfolding look_up
  second_found tokens text t e f = rw (look_up, e, f) refl

  asked_again :
      (asked scopes : List ℕ)
      → ((x : ℕ) → IsAllowed x → lower (trim x) ≡ x)
      → scopes_asked trim lower asked ≡ ok scopes
      → decode_scopes trim lower (json_scopes scopes) ≡ ok scopes
  unfolding decode_scopes
  asked_again [] scopes plain h =
      subst (λ (l : List ℕ). some_scopes trim lower (normalize_scopes trim lower l) ≡ ok l)
        (ok_list h) (all_again plain)
    where
      ok_list : {a b : List ℕ} → ok a ≡ ok b → a ≡ b
      ok_list h = cc

      all_again :
          ((x : ℕ) → IsAllowed x → lower (trim x) ≡ x)
          → some_scopes trim lower (normalize_scopes trim lower allowed_scopes) ≡ ok allowed_scopes
      all_again plain = ap (some_scopes trim lower) (allowed-again plain)
  asked_again (x ∷ asked) scopes plain h =
      elim (Option-cases (normalize_scopes trim lower (x ∷ asked))) [
        | inl e ↦ absurd (refused (rw e at h))
        | inr (kept, e) ↦
            let (same, again) = some_kept kept (rw e at h) in
            let (_, _, _, twice) = normalize_scopes-Distinct trim lower (x ∷ asked) kept plain e in
            subst (λ (l : List ℕ). some_scopes trim lower (normalize_scopes trim lower l) ≡ ok l)
              same (ap (some_scopes trim lower) twice ∙ again)
      ]
    where
      refused : some_scopes trim lower none ≡ ok scopes → ⊥
      refused h = cc

      some_kept :
          (kept : List ℕ)
          → some_scopes trim lower (some kept) ≡ ok scopes
          → (kept ≡ scopes) × (some_scopes trim lower (some kept) ≡ ok kept)
      some_kept [] h = cc
      some_kept (y ∷ kept) h = (cc, refl)

  -- The table after a token is issued.
  issued_row :
      (add_days : ℕ → ℕ → ℕ) (tokens issued : List ApiToken) (user : ℕ) (req : GenerateRequest)
      (secret id now : ℕ) (scopes : List ℕ)
      → scopes_asked trim lower req.scopes ≡ ok scopes
      → generate_token trim lower runes hash add_days tokens user req secret id now ≡ ok issued
      → new_token id user
            (trim req.name)
            (hash secret)
            scopes
            (end_of add_days now req.expires_in_days)
          ∷ tokens
        ≡ issued
  unfolding generate_token
  issued_row add_days tokens issued user req secret id now scopes asked made =
      let (_, _, h1) =
        >>=-eq-ok
          (guard (not (trim req.name == 0 || ltb 100 (runes (trim req.name)))) invalid_token_name) _
          made in
      let (_, _, h2) =
        >>=-eq-ok
          (guard (not (ltb_ℤ req.expires_in_days (pos 0) || ltb_ℤ (pos 3650) req.expires_in_days))
            invalid_token_expiry)
          _ h1 in
      tokens_of (rw asked at h2)
    where
      tokens_of : {a b : List ApiToken} → ok a ≡ ok b → a ≡ b
      tokens_of h = cc

  -- A token that is issued is accepted for its user, with the scopes that were asked for, until it
  -- expires, where its last use can be written. Its secret is not empty and has no blanks around it, and trimming and lower case leave the
  -- allowed scopes as they are.
  pub validate_principal-generate_token :
      (can_rehash : Bool) (add_days : ℕ → ℕ → ℕ) (tokens issued : List ApiToken) (user : ℕ)
      (req : GenerateRequest) (secret id now later : ℕ) (scopes : List ℕ)
      → trim secret ≡ secret
      → (secret == 0) ≡ false
      → ((x : ℕ) → IsAllowed x → lower (trim x) ≡ x)
      → scopes_asked trim lower req.scopes ≡ ok scopes
      → generate_token trim lower runes hash add_days tokens user req secret id now ≡ ok issued
      → expired later (
          new_token id user
            (trim req.name)
            (hash secret)
            scopes
            (end_of add_days now req.expires_in_days))
        ≡ false
      → (validate_principal trim lower runes hash can_rehash true issued secret later).0
        ≡ ok (record { user_id = user; credential_type = api_token; scopes = scopes })
  validate_principal-generate_token can_rehash add_days tokens issued user req secret id now later
        scopes clean some_text plain asked made live =
      let t =
        new_token id user (trim req.name) (hash secret) scopes
          (end_of add_days now req.expires_in_days) in
      let e = issued_row add_days tokens issued user req secret id now scopes asked made in
      found_principal can_rehash issued issued secret later t scopes
        (ap (λ (x : ℕ). x == 0) clean ∙ some_text)
        (ap (look_up trim lower runes hash can_rehash issued) clean
          ∙ subst
              (λ (l : List ApiToken).
                look_up trim lower runes hash can_rehash l secret ≡ some (t, l))
              e (first_found can_rehash t tokens secret refl refl))
        live (asked_again req.scopes scopes plain asked)

  -- The digest that the table has of an issued token is itself accepted as a token, for its user and
  -- with its scopes, until the token expires, as long as no live row has the digest of the digest and
  -- the table can be written. Neither the digest is empty nor does it have blanks around it, and
  -- trimming and lower case leave the allowed scopes as they are.
  pub validate_principal-digest :
      (add_days : ℕ → ℕ → ℕ) (tokens issued : List ApiToken) (user : ℕ) (req : GenerateRequest)
      (secret id now later : ℕ) (scopes : List ℕ)
      → trim (hash secret) ≡ hash secret
      → (hash secret == 0) ≡ false
      → ((x : ℕ) → IsAllowed x → lower (trim x) ≡ x)
      → scopes_asked trim lower req.scopes ≡ ok scopes
      → generate_token trim lower runes hash add_days tokens user req secret id now ≡ ok issued
      → find_row (live_token (hash (hash secret))) issued ≡ none
      → expired later (
          new_token id user
            (trim req.name)
            (hash secret)
            scopes
            (end_of add_days now req.expires_in_days))
        ≡ false
      → (validate_principal trim lower runes hash true true issued (hash secret) later).0
        ≡ ok (record { user_id = user; credential_type = api_token; scopes = scopes })
  validate_principal-digest add_days tokens issued user req secret id now later scopes clean
        some_text plain asked made no_digest live =
      let t =
        new_token id user (trim req.name) (hash secret) scopes
          (end_of add_days now req.expires_in_days) in
      let e = issued_row add_days tokens issued user req secret id now scopes asked made in
      found_principal true issued _ (hash secret) later t scopes
        (ap (λ (x : ℕ). x == 0) clean ∙ some_text)
        (ap (look_up trim lower runes hash true issued) clean
          ∙ second_found issued (hash secret) t no_digest
              (ap (find_row (live_token (hash secret))) (sym e) ∙ own_row t tokens refl refl))
        live (asked_again req.scopes scopes plain asked)
