-- ===== src/Tests/SignupTests.antt =====
-- Signing up and logging in at concrete inputs.
use fyredocs_backend.Prelude.{◌≡◌, refl, inl, inr, [], ◌∷◌, Elem, some, eq_iff, sym, String}
use fyredocs_backend.Store.{ok}
use fyredocs_backend.Http.{success}
use fyredocs_backend.Text.Space.{trim_space, to_lower}
use fyredocs_backend.Auth.Accounts.{User, normalize_email, build_user_response, token_role}
use fyredocs_backend.Auth.Issuer.{claims_for, issue_access_token, issue_refresh_token, signed}
use fyredocs_backend.Auth.Cookies.{set_access_token_cookie, set_refresh_token_cookie}
use fyredocs_backend.Auth.Backend.{
  lookup_plan, plan_answer, cached_plan, cache_plan_info, publish_event,
}
use fyredocs_backend.Auth.Grant.{
  Granted, respond_with_tokens, with_access_token, with_refresh_token, open_user_session, plan_or,
}
use fyredocs_backend.Auth.Login.{
  signup, login, welcome, check_signup, check_unknown, create_user, created, new_user,
}
use fyredocs_backend.Auth.Login.SignedUp.{signup-login}
use fyredocs_backend.Tests.FakeTable.{list-TableLaws, list-finds}
use fyredocs_backend.Tests.FakeBackend.{moment, later, fake_backend, rows, alice, bob_form}

abbrev bob_tokens : Granted
bob_tokens = record {
  user = record {
    id = "";
    email = "bob@x.org";
    full_name = "Bob";
    phone = "";
    country = "BE";
    image = "";
    role = "user";
    plan_name = "free";
  };
  access_expires_at = 29800;
  cookies =
      set_access_token_cookie fake_backend.env "jwt:a1" 28800
      ∷ set_refresh_token_cookie fake_backend.env "jwt:r1" 604800
      ∷ [];
}

abbrev bob : User
bob = record {
  id = "";
  email = "bob@x.org";
  full_name = "Bob";
  phone = "";
  country = "BE";
  image_url = "";
  password_hash = "bc:correct horse";
  plan_name = "";
  role = "";
}

signs_up : (signup fake_backend moment (some bob_form) rows).0 ≡ success 200 bob_tokens
unfolding signup check_signup check_unknown create_user created new_user welcome publish_event
    normalize_email to_lower respond_with_tokens with_access_token with_refresh_token
    open_user_session lookup_plan plan_answer cached_plan plan_or cache_plan_info issue_access_token
    issue_refresh_token signed build_user_response token_role trim_space claims_for
signs_up = refl

users_after : (signup fake_backend moment (some bob_form) rows).1.users ≡ bob ∷ alice ∷ []
unfolding signup check_signup check_unknown create_user created new_user welcome publish_event
    normalize_email to_lower respond_with_tokens with_access_token with_refresh_token
    open_user_session lookup_plan plan_answer cached_plan plan_or cache_plan_info issue_access_token
    issue_refresh_token signed build_user_response token_role trim_space claims_for
users_after = refl

unique :
    (u v : User) → Elem u (bob ∷ alice ∷ []) → Elem v (bob ∷ alice ∷ []) → u.email ≡ v.email → u ≡ v
unique u v (inl a) (inl c) e = cc
unique u v (inl a) (inr (inl c)) e = cc
unique u v (inr (inl a)) (inl c) e = cc
unique u v (inr (inl a)) (inr (inl c)) e = cc
unique u v (inr (inr n)) c e = absurd n
unique u v (inl a) (inr (inr n)) e = absurd n
unique u v (inr (inl a)) (inr (inr n)) e = absurd n

ok_eq : (x y : String) → ok x ≡ ok y → x ≡ y
ok_eq x y e = cc

signup-login_example :
    let w' = (signup fake_backend moment (some bob_form) rows).1 in
    (user : User) × (user.email ≡ normalize_email bob_form.email)
    × (login fake_backend later (some bob_form) w'
        ≡ welcome fake_backend later "user.login" user w')
    × (g' : Granted) × ((login fake_backend later (some bob_form) w').0 ≡ success 200 g')
signup-login_example =
    signup-login fake_backend (λ s. s) list-TableLaws
      (λ r r' s e. let same : r ≡ r' = cc in (rw same refl, rw same refl))
      (λ p r s there fits. list-finds p r s there fits)
      (λ password hash e. (eq_iff _ _).1 (ok_eq _ _ (sym e))) moment later bob_form rows bob_tokens
      signs_up (λ u v a c. unique u v (rw users_after at a) (rw users_after at c)) (λ c. (_, refl))
      "a2" refl
