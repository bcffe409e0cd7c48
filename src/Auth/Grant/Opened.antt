-- ===== src/Auth/Grant/Opened.antt =====
-- What a grant of tokens that succeeds has done.
use fyredocs_backend.Prelude.{
  ◌+◌, String, ◌≡◌, refl, sym, ap, subst, ◌∙◌, Option, some, none, List, [], ◌∷◌,
}
use fyredocs_backend.Store.{Result, ok, err}
use fyredocs_backend.Http.{Reply, success, failure}
use fyredocs_backend.Auth.Accounts.{User, SubscriptionPlan}
use fyredocs_backend.Auth.Rows.{store_session}
use fyredocs_backend.Auth.Issuer.{Claims, Issued, claims_for, signed, issue_refresh_token}
use fyredocs_backend.Auth.Backend.{World, Backend, Moment}
use fyredocs_backend.Auth.Backend.Tables.{tables, cache_plan_info-tables, lookup_plan-tables}
use fyredocs_backend.Auth.Cookies.{Cookie, set_access_token_cookie, set_refresh_token_cookie}
use fyredocs_backend.Auth.Grant.{
  Granted, open_user_session, with_refresh_token, with_access_token, respond_with_tokens,
}

module _ {U S R Q : Type 0} (b : Backend U S R Q) where
  -- The refresh token's claims.
  abbrev pub refresh_claims : Moment → User → Claims
  refresh_claims m user = claims_for b.issuer m.now m.refresh_jti user.id "" [] "" b.refresh_ttl

  -- What a grant has done: a refresh token signed, its session stored, the cookie set.
  pub record Opened (m : Moment) (user : User) (w : World U S R Q) (g : Granted)
      (w' : World U S R Q) : Type 0 where
    pub sid : String
    pub access : Issued
    pub token : String
    pub signs : b.issuer.sign (refresh_claims m user) ≡ ok token
    pub users : w'.users ≡ w.users
    pub sessions :
        w'.sessions
        ≡ (store_session b.sessions b.hash_token sid user.id access.token access.expires_at token
            (m.now + b.refresh_ttl)
            w.sessions).1
    pub cookies :
        g.cookies
        ≡ set_access_token_cookie b.env access.token b.access_ttl
          ∷ set_refresh_token_cookie b.env token b.refresh_ttl
          ∷ []

  open_user_session-Opened :
      (m : Moment) (user : User) (plan : SubscriptionPlan) (access : Issued)
      (signing : Result String) (w : World U S R Q) (g : Granted)
      → b.issuer.sign (refresh_claims m user) ≡ signing
      → (with_refresh_token b m user plan access
          (signed b.issuer m.now m.refresh_jti b.refresh_ttl signing)
          w).0
        ≡ success 200 g
      → Opened m user w g
          (with_refresh_token b m user plan access
            (signed b.issuer m.now m.refresh_jti b.refresh_ttl signing)
            w).1
  unfolding with_refresh_token open_user_session signed
  open_user_session-Opened m user plan access (err e) w g s h = cc
  open_user_session-Opened m user plan access (ok t) w g s h =
      opened (b.parse_uuid access.jti) refl h
    where
      issued : Issued
      issued = record { token = t; jti = m.refresh_jti; expires_at = m.now + b.refresh_ttl }

      cookies_of : Reply Granted → List Cookie
      cookies_of (success n x) = x.cookies
      cookies_of (failure n c) = []

      opened :
          (parsed : Option String)
          → b.parse_uuid access.jti ≡ parsed
          → (open_user_session b m user plan access issued parsed w).0 ≡ success 200 g
          → Opened m user w g
              (open_user_session b m user plan access issued (b.parse_uuid access.jti) w).1
      opened none e k = cc
      opened (some id) e k =
          subst (λ p. Opened m user w g (open_user_session b m user plan access issued p w).1)
            (sym e)
            (record {
              sid = id;
              access = access;
              token = t;
              signs = s;
              users = refl;
              sessions = refl;
              cookies = sym (ap cookies_of k);
            })

  with_access-Opened :
      (m : Moment) (user : User) (plan : SubscriptionPlan) (r : Result Issued) (w : World U S R Q)
      (g : Granted)
      → (with_access_token b m user plan r w).0 ≡ success 200 g
      → Opened m user w g (with_access_token b m user plan r w).1
  unfolding with_access_token issue_refresh_token
  with_access-Opened m user plan (err e) w g h = cc
  with_access-Opened m user plan (ok access) w g h =
      open_user_session-Opened m user plan access _ w g refl h

  -- The caches that a grant fills leave the tables alone.
  Opened-tables :
      (m : Moment) (user : User) (v w : World U S R Q) (g : Granted) (w' : World U S R Q)
      → tables v ≡ tables w
      → Opened m user v g w'
      → Opened m user w g w'
  Opened-tables m user v w g w' e o = record {
    sid = o.sid;
    access = o.access;
    token = o.token;
    signs = o.signs;
    users = o.users ∙ ap (λ (t : U × S × R). t.0) e;
    sessions =
        o.sessions
        ∙ ap
            (λ (t : U × S × R).
              (store_session b.sessions b.hash_token o.sid user.id o.access.token
                o.access.expires_at o.token (m.now + b.refresh_ttl) t.1).1)
            e;
    cookies = o.cookies;
  }

  pub respond-Opened :
      (m : Moment) (user : User) (w : World U S R Q) (g : Granted)
      → (respond_with_tokens b m user w).0 ≡ success 200 g
      → Opened m user w g (respond_with_tokens b m user w).1
  unfolding respond_with_tokens
  respond-Opened m user w g h =
      Opened-tables m user _ w g _
        (cache_plan_info-tables b user.id _ b.access_ttl _
          ∙ lookup_plan-tables b m.now user.plan_name w)
        (with_access-Opened m user _ _ _ g h)
