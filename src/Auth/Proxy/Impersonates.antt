-- ===== src/Auth/Proxy/Impersonates.antt =====
-- Only admins impersonate, and an impersonation cannot be renewed.
use fyredocs_backend.Prelude.{
  ℕ, String, true, ◌=ₛ◌, Option, none, some, [], ◌∷◌, ◌≡◌, refl, ap, ◌∙◌, ◌⊎◌, inl, inr, Bool-cases,
  eq_iff,
}
use fyredocs_backend.Config.{get_env_bool}
use fyredocs_backend.Store.{Result, ok, err}
use fyredocs_backend.Http.{success, go, Flow-cases}
use fyredocs_backend.Text.Space.{trim_space}
use fyredocs_backend.Auth.Accounts.{User, SubscriptionPlan}
use fyredocs_backend.Auth.Rows.{UserSession, store_access_only_session}
use fyredocs_backend.Auth.Issuer.{Issued}
use fyredocs_backend.Auth.Cookies.{set_access_token_cookie}
use fyredocs_backend.Auth.Backend.{World, Backend, Moment}
use fyredocs_backend.Auth.Backend.Tables.{publish_event-tables, cache_plan_info-tables}
use fyredocs_backend.Auth.Grant.{Granted}
use fyredocs_backend.Auth.Proxy.{
  may_impersonate, find_target, open_impersonation, with_impersonation,
  respond_with_impersonation_token, proxy_login,
}

module _ {U S R Q : Type 0} (b : Backend U S R Q) (m : Moment) (ttl : ℕ) where
  roles :
      (role : String)
      → may_impersonate role ≡ true
      → (trim_space role ≡ "admin") ⊎ (trim_space role ≡ "super-admin")
  unfolding may_impersonate
  roles role h = elim (Bool-cases (trim_space role =ₛ "admin")) [
    | inl e ↦ inl ((eq_iff _ _).0 e)
    | inr e ↦ inr ((eq_iff _ _).0 (rw e at h))
  ]

  -- The guards were passed.
  admitted :
      (uid role : String) (body : Option String) (w : World U S R Q) (target : User)
      → find_target b m ttl uid role body w ≡ go target
      → may_impersonate role ≡ true
  unfolding find_target
  admitted uid role body w target h =
      elim (Bool-cases (get_env_bool b.env "PROXY_LOGIN_ENABLED" true)) [
        | inr e ↦ let h' = rw (find_target, e) at h in cc
        | inl e ↦ elim (Bool-cases (trim_space uid =ₛ "")) [
          | inl t ↦ let h' = rw (find_target, e, t) at h in cc
          | inr t ↦ elim (Bool-cases (may_impersonate role)) [
            | inl r ↦ r
            | inr r ↦ let h' = rw (find_target, e, t, r) at h in cc
          ]
        ]
      ]

  -- The session that an impersonation stores: it has no refresh token, and the reply sets no cookie
  -- for one.
  pub record Impersonates (target : User) (w : World U S R Q) (g : Granted) (w' : World U S R Q)
      : Type 0 where
    pub session : UserSession
    pub owner : session.user_id ≡ target.id
    pub no_refresh : session.refresh_token_hash ≡ none
    pub stores : w'.sessions ≡ (b.sessions.create session w.sessions).1
    pub token : String
    pub cookies : g.cookies ≡ set_access_token_cookie b.env token ttl ∷ []

  open-Impersonates :
      (target : User) (plan : SubscriptionPlan) (access : Issued) (sid : Option String)
      (w v : World U S R Q) (g : Granted)
      → v.sessions ≡ w.sessions
      → (open_impersonation b m ttl target plan access sid v).0 ≡ success 200 g
      → Impersonates target w g (open_impersonation b m ttl target plan access sid v).1
  unfolding open_impersonation store_access_only_session
  open-Impersonates target plan access none w v g same h = cc
  open-Impersonates target plan access (some sid) w v g same h =
      let row : UserSession = record {
        id = sid;
        user_id = target.id;
        access_token_hash = b.hash_token access.token;
        refresh_token_hash = none;
        access_expires_at = access.expires_at;
        refresh_expires_at = none;
      } in
      record {
        session = row;
        owner = refl;
        no_refresh = refl;
        stores =
            ap (λ (t : U × S × R). t.1) (publish_event-tables b "user.proxy_login" target.id "" _)
            ∙ ap (λ s. (b.sessions.create row s).1) same;
        token = access.token;
        cookies = cc;
      }

  with-Impersonates :
      (target : User) (plan : SubscriptionPlan) (r : Result Issued) (w v : World U S R Q)
      (g : Granted)
      → v.sessions ≡ w.sessions
      → (with_impersonation b m ttl target plan r v).0 ≡ success 200 g
      → Impersonates target w g (with_impersonation b m ttl target plan r v).1
  unfolding with_impersonation
  with-Impersonates target plan (err e) w v g same h = cc
  with-Impersonates target plan (ok access) w v g same h =
      open-Impersonates target plan access _ w v g same h

  -- An impersonation that is granted was asked for by a caller with the role admin or super-admin, for
  -- a user whose row passed the guards; its session is the target's and has no refresh token, and
  -- the only cookie that is set is that of the access token.
  pub proxy_login-Impersonates :
      (uid role : String) (body : Option String) (w : World U S R Q) (g : Granted)
      → (proxy_login b m ttl uid role body w).0 ≡ success 200 g
      → ((trim_space role ≡ "admin") ⊎ (trim_space role ≡ "super-admin"))
        × (target : User) × (find_target b m ttl uid role body w ≡ go target)
        × Impersonates target w g (proxy_login b m ttl uid role body w).1
  unfolding proxy_login respond_with_impersonation_token
  proxy_login-Impersonates uid role body w g h =
      elim (Flow-cases (find_target b m ttl uid role body w)) [
        | inl ((status, code), e) ↦ let h' = rw (proxy_login, e) at h in cc
        | inr (target, e) ↦ (
          roles role (admitted uid role body w target e),
          target,
          e,
          rw (proxy_login, e)
              (with-Impersonates target _ _ w _ g
                (ap (λ (t : U × S × R). t.1) (cache_plan_info-tables b target.id _ ttl w))
                (rw (proxy_login, e) at h)),
        )
      ]
