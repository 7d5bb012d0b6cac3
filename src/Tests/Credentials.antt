-- ===== src/Tests/Credentials.antt =====
-- API tokens at concrete inputs: a digest is the text plus 100, lower case cuts the last digit off a
-- text of two digits or more, and no text has blanks around it.
use sky_personal_ledger.Base.{
  ℕ, ◌+◌, ◌*◌, ◌/◌, ◌≡◌, refl, true, false, not, ◌&&◌, none, some, [], ◌∷◌, map, arith, ltb, ◌==◌,
  if◌then◌else◌, pos, All, find_row, count_rows, update_rows, ok, err, invalid_token,
}
use sky_personal_ledger.Tokens.{
  is_member, keep_scopes, normalize_scopes, scopes_asked, ApiToken, api_token, live_token,
  new_token, GenerateRequest, generate_token, validate_principal,
}
use sky_personal_ledger.Tokens.Scopes.{Distinct, IsAllowed, normalize_scopes-Distinct}
use sky_personal_ledger.Tokens.Validation.{
  validate_principal-generate_token, validate_principal-digest,
}
use sky_personal_ledger.Tokens.{delete_token}
use sky_personal_ledger.Tokens.Revocation.{validate_principal-delete_token}

abbrev plain : ℕ → ℕ
plain x = x

abbrev lower_case : ℕ → ℕ
lower_case x = if ltb x 10 then x else x / 10

allowed_small : (x : ℕ) → IsAllowed x → lower_case x ≡ x
unfolding is_member
allowed_small x h = ground arith

abbrev digest_of : ℕ → ℕ
digest_of x = x + 100

normal_ok : normalize_scopes plain lower_case (20 ∷ 1 ∷ 0 ∷ 2 ∷ []) ≡ some (2 ∷ 1 ∷ [])
unfolding normalize_scopes keep_scopes is_member
normal_ok = refl

normalize_scopes-Distinct_example :
    Distinct (2 ∷ 1 ∷ [])
    × All IsAllowed (2 ∷ 1 ∷ [])
    × ((x : ℕ)
        → is_member x (2 ∷ 1 ∷ [])
          ≡ (not (x == 0) && is_member x (map (λ v. lower_case (plain v)) (20 ∷ 1 ∷ 0 ∷ 2 ∷ []))))
    × (normalize_scopes plain lower_case (2 ∷ 1 ∷ []) ≡ some (2 ∷ 1 ∷ []))
normalize_scopes-Distinct_example =
    normalize_scopes-Distinct plain lower_case (20 ∷ 1 ∷ 0 ∷ 2 ∷ []) (2 ∷ 1 ∷ []) allowed_small
      normal_ok

abbrev asking : GenerateRequest
asking = record { name = 33; expires_in_days = pos 2; scopes = 20 ∷ 1 ∷ [] }

abbrev after_days : ℕ → ℕ → ℕ
after_days now days = now + days * 86400

abbrev issued : ApiToken
issued = new_token 4 7 33 177 (2 ∷ 1 ∷ []) (some 172850)

asked_ok : scopes_asked plain lower_case (20 ∷ 1 ∷ []) ≡ ok (2 ∷ 1 ∷ [])
unfolding normalize_scopes keep_scopes is_member
asked_ok = refl

issued_ok :
    generate_token plain lower_case plain digest_of after_days [] 7 asking 77 4 50
    ≡ ok (issued ∷ [])
unfolding generate_token normalize_scopes keep_scopes is_member
issued_ok = refl

validate_principal-generate_token_example :
    (validate_principal plain lower_case plain digest_of false true (issued ∷ []) 77 60).0
    ≡ ok (record { user_id = 7; credential_type = api_token; scopes = 2 ∷ 1 ∷ [] })
validate_principal-generate_token_example =
    validate_principal-generate_token plain lower_case plain digest_of false after_days []
      (issued ∷ []) 7 asking 77 4 50 60 (2 ∷ 1 ∷ []) refl refl allowed_small asked_ok issued_ok refl

not_digest : find_row (live_token (digest_of (digest_of 77))) (issued ∷ []) ≡ none
unfolding find_row
not_digest = refl

validate_principal-digest_example :
    (validate_principal plain lower_case plain digest_of true true (issued ∷ []) 177 60).0
    ≡ ok (record { user_id = 7; credential_type = api_token; scopes = 2 ∷ 1 ∷ [] })
validate_principal-digest_example =
    validate_principal-digest plain lower_case plain digest_of after_days [] (issued ∷ []) 7 asking
      77 4 50 60 (2 ∷ 1 ∷ []) refl refl allowed_small asked_ok issued_ok not_digest refl

abbrev revoked : ApiToken
revoked = record issued { revoked_at = some 90 }

revoked_ok : delete_token (issued ∷ []) 4 7 90 ≡ ok (revoked ∷ [])
unfolding delete_token count_rows update_rows
revoked_ok = refl

validate_principal-delete_token_example :
    validate_principal plain lower_case plain digest_of true true (revoked ∷ []) 77 95
    ≡ (err invalid_token, revoked ∷ [])
validate_principal-delete_token_example =
    validate_principal-delete_token plain lower_case plain digest_of true true (issued ∷ [])
      (revoked ∷ []) 4 7 90 77 95 revoked_ok (refl, tt) (refl, tt)
