-- ===== src/Tokens/Defs.antt =====
-- The scopes of a credential (authz/principal.go) and the API tokens (service/api_token.go,
-- repository/api_token.go). A text is a number, 0 the empty one. `trim` is `strings.TrimSpace`,
-- `lower` is `strings.ToLower`, `equal_fold` is `strings.EqualFold`, `runes` the number of runes of a
-- text, `add_days` is `AddDate(0, 0, d)`, and `hash` is the hexadecimal SHA-256 digest; a token's secret comes from `crypto/rand`.
use sky_personal_ledger.Base.{
  ℕ, zero, suc, ◌-◌, Bool, true, false, not, ◌&&◌, ◌||◌, Option, none, some, List, [], ◌∷◌, ◌++◌,
  ltb, ◌==◌, if◌then◌else◌, ℤ, pos, negsuc, ltb_ℤ, find_row, count_rows, update_rows, Result, ok,
  err, ◌>>=◌, ◌>>◌, guard,
}
use sky_personal_ledger.Base.{
  invalid_token, token_expired, invalid_token_scopes, invalid_token_name, invalid_token_expiry,
  token_not_found,
}

-- The scopes that an API token may have.
abbrev pub allowed_scopes : List ℕ
allowed_scopes = 1 ∷ 2 ∷ 3 ∷ 4 ∷ 5 ∷ []

unfoldable pub is_member : ℕ → List ℕ → Bool
is_member x [] = false
is_member x (y ∷ ys) = x == y || is_member x ys

-- The Scopes column: blank, a JSON array of texts, or no such JSON.
pub data ScopeText : Type 0 where
  no_scopes bad_scopes : ScopeText
  json_scopes : List ℕ → ScopeText

pub record ApiToken : Type 0 where
  pub id : ℕ
  pub user_id : ℕ
  pub name : ℕ
  pub token : ℕ
  pub scopes : ScopeText
  pub last_used_at : Option ℕ
  pub expires_at : Option ℕ
  pub revoked_at : Option ℕ

pub data CredentialType : Type 0 where
  jwt api_token : CredentialType

pub record Principal : Type 0 where
  pub user_id : ℕ
  pub credential_type : CredentialType
  pub scopes : List ℕ

abbrev pub is_none : Option ℕ → Bool
is_none none = true
is_none (some _) = false

-- `FindByToken`
abbrev pub live_token : ℕ → ApiToken → Bool
live_token text t = t.token == text && is_none t.revoked_at

abbrev pub token_is : ℕ → ApiToken → Bool
token_is id t = t.id == id

-- `time.Now().After(*ExpiresAt)`
abbrev pub expired : ℕ → ApiToken → Bool
expired now t = elim t.expires_at [ none ↦ false | some end ↦ ltb end now ]

-- `UpdateLastUsed`: at most once in five minutes.
abbrev pub stale : ℕ → ℕ → ApiToken → Bool
stale id now t =
    t.id == id
    && (is_none t.revoked_at
        && (elim t.last_used_at [ none ↦ true | some used ↦ ltb used (now - 300) ]))

abbrev pub use_at : ℕ → ApiToken → ApiToken
use_at now t = record t { last_used_at = some now }

abbrev pub rehash : ℕ → ApiToken → ApiToken
rehash digest t = record t { token = digest }

abbrev pub revoke_at : ℕ → ApiToken → ApiToken
revoke_at now t = record t { revoked_at = some now }

-- `Delete` of the repository and `DeleteToken`.
abbrev pub revocable : ℕ → ℕ → ApiToken → Bool
revocable id user t = t.id == id && (t.user_id == user && is_none t.revoked_at)

unfoldable pub delete_token : List ApiToken → ℕ → ℕ → ℕ → Result (List ApiToken)
delete_token tokens id user now = do
  guard (not (count_rows (revocable id user) tokens == 0)) token_not_found
  ok (update_rows (revocable id user) (revoke_at now) tokens)

pub record GenerateRequest : Type 0 where
  pub name : ℕ
  pub expires_in_days : ℤ
  pub scopes : List ℕ

abbrev pub end_of : (ℕ → ℕ → ℕ) → ℕ → ℤ → Option ℕ
end_of add_days now (pos zero) = none
end_of add_days now (pos (suc d)) = some (add_days now (suc d))
end_of add_days now (negsuc _) = none

abbrev pub new_token : ℕ → ℕ → ℕ → ℕ → List ℕ → Option ℕ → ApiToken
new_token id user name digest scopes end = record {
  id = id;
  user_id = user;
  name = name;
  token = digest;
  scopes = json_scopes scopes;
  last_used_at = none;
  expires_at = end;
  revoked_at = none;
}

module _ (trim lower : ℕ → ℕ) where
  -- `NormalizeScopes`, with the scopes that its loop has kept so far; `none` where one is not allowed.
  unfoldable pub keep_scopes : List ℕ → List ℕ → Option (List ℕ)
  unfolding is_member
  keep_scopes kept [] = some kept
  keep_scopes kept (value ∷ values) =
      let scope = lower (trim value) in
      let more =
        keep_scopes (if scope == 0 || is_member scope kept then kept else kept ++ (scope ∷ []))
          values in
      if scope == 0 || is_member scope allowed_scopes then more else none

  unfoldable pub normalize_scopes : List ℕ → Option (List ℕ)
  unfolding keep_scopes
  normalize_scopes values = keep_scopes [] values

  -- `HasScope`
  unfoldable pub has_scope : (ℕ → ℕ → Bool) → Principal → ℕ → Bool
  has_scope equal_fold p required = elim p.credential_type [ jwt ↦ true | api_token ↦ any p.scopes ]
    where
      any : List ℕ → Bool
      any [] = false
      any (scope ∷ scopes) = equal_fold (trim scope) required || any scopes

  -- Scopes that are accepted and are not empty.
  abbrev pub some_scopes : Option (List ℕ) → Result (List ℕ)
  some_scopes none = err invalid_token_scopes
  some_scopes (some []) = err invalid_token_scopes
  some_scopes (some (scope ∷ scopes)) = ok (scope ∷ scopes)

  -- `decodeAPITokenScopes`
  unfoldable pub decode_scopes : ScopeText → Result (List ℕ)
  unfolding normalize_scopes
  decode_scopes no_scopes = ok allowed_scopes
  decode_scopes bad_scopes = err invalid_token_scopes
  decode_scopes (json_scopes stored) = some_scopes (normalize_scopes stored)

  abbrev pub scopes_asked : List ℕ → Result (List ℕ)
  scopes_asked [] = ok allowed_scopes
  scopes_asked (scope ∷ scopes) = some_scopes (normalize_scopes (scope ∷ scopes))

  module _ (runes hash : ℕ → ℕ) where
    -- `GenerateToken`, with the new secret and the new id.
    unfoldable pub generate_token :
        (ℕ → ℕ → ℕ) → List ApiToken → ℕ → GenerateRequest → ℕ → ℕ → ℕ → Result (List ApiToken)
    generate_token add_days tokens user req secret id now = do
      let name = trim req.name
      guard (not (name == 0 || ltb 100 (runes name))) invalid_token_name
      guard (not (ltb_ℤ req.expires_in_days (pos 0) || ltb_ℤ (pos 3650) req.expires_in_days))
          invalid_token_expiry
      scopes ← scopes_asked req.scopes
      ok (
          new_token id user name (hash secret) scopes (end_of add_days now req.expires_in_days)
          ∷ tokens)

    -- The row that a token names, and the table: a token that is stored as it is, an old one, is
    -- replaced by its digest, and is refused where `UpdateToken` fails (`can_rehash`).
    unfoldable pub look_up : Bool → List ApiToken → ℕ → Option (ApiToken × List ApiToken)
    look_up can_rehash tokens text = elim (find_row (live_token (hash text)) tokens) [
      | some t ↦ some (t, tokens)
      | none ↦ elim (find_row (live_token text) tokens) [
        | some t ↦
            if can_rehash
            then some (t, update_rows (token_is t.id) (rehash (hash text)) tokens)
            else none
        | none ↦ none
      ]
    ]

    abbrev pub principal_of :
        Bool → ApiToken → List ApiToken → ℕ → Result (List ℕ) → Result Principal × List ApiToken
    principal_of can_use t tokens now (err failure) = (err failure, tokens)
    principal_of can_use t tokens now (ok scopes) =
        if can_use
        then (
          ok (record { user_id = t.user_id; credential_type = api_token; scopes = scopes }),
          update_rows (stale t.id now) (use_at now) tokens,
        )
        else (err invalid_token, tokens)

    -- `ValidatePrincipal`: the principal, and the table after the call, whether it fails or not;
    -- `can_use` says whether `UpdateLastUsed` succeeds.
    unfoldable pub validate_principal :
        Bool → Bool → List ApiToken → ℕ → ℕ → Result Principal × List ApiToken
    unfolding decode_scopes look_up
    validate_principal can_rehash can_use tokens token now =
        if trim token == 0
        then (err invalid_token, tokens)
        else elim (look_up can_rehash tokens (trim token)) [
          | none ↦ (err invalid_token, tokens)
          | some found ↦
              if expired now found.0
              then (err token_expired, found.1)
              else principal_of can_use found.0 found.1 now (decode_scopes found.0.scopes)
        ]
