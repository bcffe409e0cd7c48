-- ===== src/Tests/ProxyTests.antt =====
-- An impersonation at concrete inputs.
use fyredocs_backend.Prelude.{◌≡◌, ◌⊎◌, refl, some, [], ◌∷◌}
use fyredocs_backend.Http.{success, go}
use fyredocs_backend.Config.{get_env_bool}
use fyredocs_backend.Text.Space.{trim_space}
use fyredocs_backend.Auth.Accounts.{User, build_user_response, token_role}
use fyredocs_backend.Auth.Issuer.{claims_for, issue_impersonation_token, signed}
use fyredocs_backend.Auth.Cookies.{set_access_token_cookie}
use fyredocs_backend.Auth.Backend.{cache_plan_info}
use fyredocs_backend.Auth.Grant.{Granted}
use fyredocs_backend.Auth.Proxy.{
  may_impersonate, plan_found, find_target, open_impersonation, with_impersonation,
  respond_with_impersonation_token, proxy_login,
}
use fyredocs_backend.Auth.Proxy.Impersonates.{Impersonates, proxy_login-Impersonates}
use fyredocs_backend.Tests.FakeBackend.{moment, fake_backend, rows}

abbrev as_alice : Granted
as_alice = record {
  user = record {
    id = "u1";
    email = "alice@x.org";
    full_name = "Alice";
    phone = "";
    country = "NL";
    image = "";
    role = "admin";
    plan_name = "free";
  };
  access_expires_at = 2800;
  cookies = set_access_token_cookie fake_backend.env "jwt:a1" 1800 ∷ [];
}

impersonates :
    (proxy_login fake_backend moment 1800 "u0" "admin" (some "u1") rows).0 ≡ success 200 as_alice
unfolding proxy_login find_target get_env_bool trim_space may_impersonate
    respond_with_impersonation_token plan_found with_impersonation open_impersonation
    issue_impersonation_token signed claims_for cache_plan_info build_user_response token_role
impersonates = refl

proxy_login-Impersonates_example :
    ((trim_space "admin" ≡ "admin") ⊎ (trim_space "admin" ≡ "super-admin"))
    × (target : User) × (find_target fake_backend moment 1800 "u0" "admin" (some "u1") rows
        ≡ go target)
    × Impersonates fake_backend moment 1800 target rows as_alice
        (proxy_login fake_backend moment 1800 "u0" "admin" (some "u1") rows).1
proxy_login-Impersonates_example =
    proxy_login-Impersonates fake_backend moment 1800 "u0" "admin" (some "u1") rows as_alice
      impersonates
