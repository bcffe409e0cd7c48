-- ===== src/Tests/AuthTests.antt =====
-- The auth-service at concrete inputs.
use Prim.Native.String.{◌++◌ as concat}
use fyredocs_backend.Prelude.{
  ℕ, String, ◌≡◌, refl, ap, ◌⊎◌, inl, inr, some, [], ◌∷◌, arith, ◌=ₛ◌, lt→ltb,
}
use fyredocs_backend.Store.{ok}
use fyredocs_backend.Http.{success, failure, go}
use fyredocs_backend.Text.Space.{trim_space, fields, to_lower}
use fyredocs_backend.Auth.Accounts.{User, normalize_email}
use fyredocs_backend.Auth.Rows.{
  is_valid_reset, is_live_of, is_reset_of, has_access_hash, find_valid_reset_token_by_hash,
  delete_reset_tokens_for_user, revoke_all_user_sessions, revoke_session_by_access_hash,
}
use fyredocs_backend.Auth.Backend.{delete_plan_cache, publish_event, deny_token_hash}
use fyredocs_backend.Auth.Refresh.{refresh, invalid_refresh_token}
use fyredocs_backend.Auth.Reset.{
  ResetPasswordRequest, reset_password, reset_found, reset_hashed, reset_done, transaction,
  reset_tx, users_in_tx, resets_in_tx, deny_revoked,
}
use fyredocs_backend.Auth.Reset.Effect.{reset_password-logs_out, reset_password-single_use}
use fyredocs_backend.Auth.Accounts.{build_user_response, token_role}
use fyredocs_backend.Auth.Issuer.{claims_for, issue_access_token, issue_refresh_token, signed}
use fyredocs_backend.Auth.Cookies.{set_access_token_cookie, set_refresh_token_cookie}
use fyredocs_backend.Auth.Backend.{lookup_plan, plan_answer, cached_plan, cache_plan_info}
use fyredocs_backend.Auth.Grant.{
  Granted, respond_with_tokens, with_access_token, with_refresh_token, open_user_session, plan_or,
}
use fyredocs_backend.Auth.Grant.Opened.{refresh_claims}
use fyredocs_backend.Auth.Refresh.Renewal.{JwtLaws, respond_with_tokens-renewable}
use fyredocs_backend.Auth.Logout.{Carried, bearer_token, extract_access_token, logout}
use fyredocs_backend.Auth.Logout.Ends.{logout-ends}
use fyredocs_backend.Auth.Login.{login, welcome, invalid_credentials}
use fyredocs_backend.Auth.Grant.Replies.{Answered}
use fyredocs_backend.Auth.Login.Authentic.{Knows, login-Authentic}
use fyredocs_backend.Auth.Plans.{change_plan, load_user_from_auth}
use fyredocs_backend.Auth.Plans.AdminOnly.{Moves, change_plan-AdminOnly}
use fyredocs_backend.Auth.Reset.{forgot_password}
use fyredocs_backend.Auth.Reset.Replies.{CannotIssue, forgot_password-replies}
use fyredocs_backend.Tests.FakeTable.{list-TableLaws, list-finds}
use fyredocs_backend.Tests.FakeBackend.{
  moment, later, fake_backend, rows, alice, open_session_row, reset_row, bob_form,
}

abbrev new_password : ResetPasswordRequest
new_password = record { token = " link "; new_password = "new-password" }

resets_well : (reset_password fake_backend moment (some new_password) rows).0 ≡ success 200 tt
unfolding reset_password reset_found reset_hashed reset_done transaction reset_tx users_in_tx
    resets_in_tx deny_revoked is_valid_reset is_live_of is_reset_of find_valid_reset_token_by_hash
    delete_reset_tokens_for_user revoke_all_user_sessions trim_space delete_plan_cache publish_event
    deny_token_hash
resets_well = refl

finds_token :
    find_valid_reset_token_by_hash fake_backend.resets moment.now
      (fake_backend.hash_token (trim_space new_password.token))
      rows.resets
    ≡ ok reset_row
unfolding find_valid_reset_token_by_hash is_valid_reset trim_space
finds_token = refl

reset_password-logs_out_example :
    let w' = (reset_password fake_backend moment (some new_password) rows).1 in
    refresh fake_backend later (some "jwt:r1") w' ≡ (invalid_refresh_token, w')
reset_password-logs_out_example =
    reset_password-logs_out fake_backend (λ s. s) list-TableLaws (λ s. s) list-TableLaws (λ s. s)
      list-TableLaws moment later new_password reset_row "jwt:r1" rows (omega arith) finds_token
      (λ s there fits. elim there [
        | inl same ↦ ap (λ x. x.user_id) same
        | inr none_left ↦ absurd none_left
      ])
      resets_well

reset_password-single_use_example :
    let w' = (reset_password fake_backend moment (some new_password) rows).1 in
    (status : ℕ) × (code : String) × (reset_password fake_backend later (some new_password) w'
      ≡ (failure status code, w'))
reset_password-single_use_example =
    reset_password-single_use fake_backend (λ s. s) list-TableLaws (λ s. s) list-TableLaws (λ s. s)
      list-TableLaws moment later new_password new_password reset_row rows finds_token
      (λ t there same_hash. elim there [
        | inl same ↦ ap (λ x. x.user_id) same
        | inr none_left ↦ absurd none_left
      ])
      refl resets_well

use_r1 : JwtLaws fake_backend.issuer (refresh_claims fake_backend moment alice)
unfolding claims_for trim_space
use_r1 = record {
  signs = λ d. (concat "jwt:" d.id, refl);
  is_visible = λ t e. let same : "jwt:r1" ≡ t = cc in rw⁻¹ same refl;
  parses = λ t now e before.
      let same : "jwt:r1" ≡ t = cc in rw⁻¹ same (rw (lt→ltb now 605800 before) refl);
}

abbrev alice_tokens : Granted
alice_tokens = record {
  user = record {
    id = "u1";
    email = "alice@x.org";
    full_name = "Alice";
    phone = "";
    country = "NL";
    image = "";
    role = "admin";
    plan_name = "free";
  };
  access_expires_at = 29800;
  cookies =
      set_access_token_cookie fake_backend.env "jwt:a1" 28800
      ∷ set_refresh_token_cookie fake_backend.env "jwt:r1" 604800
      ∷ [];
}

grants : (respond_with_tokens fake_backend moment alice rows).0 ≡ success 200 alice_tokens
unfolding respond_with_tokens with_access_token with_refresh_token open_user_session lookup_plan
    plan_answer cached_plan plan_or cache_plan_info issue_access_token issue_refresh_token signed
    build_user_response token_role trim_space claims_for
grants = refl

respond_with_tokens-renewable_example :
    let w' = (respond_with_tokens fake_backend moment alice rows).1 in
    (token : String) × ((access : String) × (alice_tokens.cookies
        ≡ set_access_token_cookie fake_backend.env access fake_backend.access_ttl
          ∷ set_refresh_token_cookie fake_backend.env token fake_backend.refresh_ttl
          ∷ []))
    × (g' : Granted) × ((refresh fake_backend later (some token) w').0 ≡ success 200 g')
unfolding trim_space
respond_with_tokens-renewable_example =
    respond_with_tokens-renewable fake_backend (λ s. s) list-TableLaws (λ r s. refl)
      (λ p r s there fits. list-finds p r s there fits) moment later alice alice rows alice_tokens
      use_r1 (omega arith) refl refl refl refl grants

abbrev bearer : Carried
bearer = record { authorization = "bearer  acc"; context = ""; cookie = "" }

logout-ends_example :
    let w' = (logout fake_backend moment "u1" bearer rows).1 in
    refresh fake_backend later (some "jwt:r1") w' ≡ (invalid_refresh_token, w')
unfolding extract_access_token bearer_token fields to_lower trim_space revoke_session_by_access_hash
    has_access_hash
logout-ends_example =
    logout-ends fake_backend (λ s. s) list-TableLaws moment later "u1" bearer "acc" "jwt:r1" rows
      (open_session_row ∷ []) refl refl refl refl
      (λ s there fits. elim there [
        | inl same ↦ ap (λ x. x.access_token_hash) same
        | inr none_left ↦ absurd none_left
      ])

login-Authentic_example :
    (login fake_backend moment (some bob_form) rows ≡ (invalid_credentials, rows))
    ⊎ ((user : User) × Knows fake_backend moment bob_form rows user
        × (login fake_backend moment (some bob_form) rows
            ≡ welcome fake_backend moment "user.login" user rows)
        × Answered (login fake_backend moment (some bob_form) rows).0)
login-Authentic_example = login-Authentic fake_backend moment bob_form rows

change_plan-AdminOnly_example :
    ((status : ℕ) × (code : String) × (change_plan fake_backend moment "u1" (some "pro") rows
        ≡ (failure status code, rows)))
    ⊎ ((user : User) × (raw : String) × (some "pro" ≡ some raw)
        × (load_user_from_auth fake_backend moment "u1" rows ≡ go user)
        × ((trim_space user.role ≡ "admin") ⊎ (trim_space user.role ≡ "super-admin"))
        × Moves fake_backend moment user
            (trim_space raw)
            rows
            (change_plan fake_backend moment "u1" (some "pro") rows))
change_plan-AdminOnly_example = change_plan-AdminOnly fake_backend moment "u1" (some "pro") rows

forgot_password-replies_example :
    ((forgot_password fake_backend moment (some "alice@x.org") "10.0.0.1" rows).0 ≡ success 200 tt)
    ⊎ ((raw : String) × (user : User) × (some "alice@x.org" ≡ some raw)
        × (fake_backend.users.first (λ u. u.email =ₛ normalize_email raw) rows.users ≡ ok user)
        × CannotIssue fake_backend moment "10.0.0.1" rows user
        × ((forgot_password fake_backend moment (some "alice@x.org") "10.0.0.1" rows).0
            ≡ failure 500 "SERVER_ERROR"))
forgot_password-replies_example =
    forgot_password-replies fake_backend moment (some "alice@x.org") "10.0.0.1" rows
