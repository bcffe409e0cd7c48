-- ===== src/Auth/Grant/Replies.antt =====
-- How `respondWithTokens` of auth-service/handlers/auth.go replies.
use fyredocs_backend.Prelude.{◌≡◌, refl, ◌⊎◌, inl, inr, String, ℕ, Option, none, some, [], ap, ◌∙◌}
use fyredocs_backend.Store.{Result, ok, err}
use fyredocs_backend.Http.{Reply, success, failure}
use fyredocs_backend.Auth.Accounts.{User, SubscriptionPlan, token_role}
use fyredocs_backend.Auth.Issuer.{
  Claims, Issued, claims_for, signed, issue_access_token, issue_refresh_token,
}
use fyredocs_backend.Auth.Backend.{World, Backend, Moment}
use fyredocs_backend.Auth.Grant.{
  Granted, open_user_session, with_refresh_token, with_access_token, respond_with_tokens,
}

-- Tokens, or a server error.
abbrev pub Answered : Reply Granted → Type 0
Answered r = ((g : Granted) × (r ≡ success 200 g)) ⊎ (r ≡ failure 500 "SERVER_ERROR")

module _ {U S R Q : Type 0} (b : Backend U S R Q) (m : Moment) where
  opened-Answered :
      (user : User) (plan : SubscriptionPlan) (access refresh : Issued) (sid : Option String)
      (w : World U S R Q)
      → Answered (open_user_session b m user plan access refresh sid w).0
  unfolding open_user_session
  opened-Answered user plan access refresh none w = inr refl
  opened-Answered user plan access refresh (some sid) w = inl (_, refl)

  refreshed-Answered :
      (user : User) (plan : SubscriptionPlan) (access : Issued) (refresh : Result Issued)
      (w : World U S R Q)
      → Answered (with_refresh_token b m user plan access refresh w).0
  unfolding with_refresh_token
  refreshed-Answered user plan access (err e) w = inr refl
  refreshed-Answered user plan access (ok refresh) w =
      opened-Answered user plan access refresh (b.parse_uuid access.jti) w

  issued-Answered :
      (user : User) (plan : SubscriptionPlan) (access : Result Issued) (w : World U S R Q)
      → Answered (with_access_token b m user plan access w).0
  unfolding with_access_token
  issued-Answered user plan (err e) w = inr refl
  issued-Answered user plan (ok access) w = refreshed-Answered user plan access _ w

  pub respond-Answered :
      (user : User) (w : World U S R Q) → Answered (respond_with_tokens b m user w).0
  unfolding respond_with_tokens
  respond-Answered user w = issued-Answered user _ _ _

  module _ (signs : (c : Claims) → (t : String) × (b.issuer.sign c ≡ ok t)) (sid : String)
      (parses : b.parse_uuid m.access_jti ≡ some sid) where
    signed-ok :
        (c : Claims) (jti : String) (ttl : ℕ)
        → (a : Issued) × (a.jti ≡ jti) × (signed b.issuer m.now jti ttl (b.issuer.sign c) ≡ ok a)
    unfolding signed
    signed-ok c jti ttl = (_, refl, ap (signed b.issuer m.now jti ttl) (signs c).1)

    opened-succeeds :
        (user : User) (plan : SubscriptionPlan) (access refresh : Issued) (found : Option String)
        (w : World U S R Q)
        → found ≡ some sid
        → (g : Granted) × ((open_user_session b m user plan access refresh found w).0
            ≡ success 200 g)
    unfolding open_user_session
    opened-succeeds user plan access refresh none w e = cc
    opened-succeeds user plan access refresh (some x) w e = (_, refl)

    refreshed-succeeds :
        (user : User) (plan : SubscriptionPlan) (access : Issued) (refresh : Result Issued)
        (a : Issued) (w : World U S R Q)
        → access.jti ≡ m.access_jti
        → refresh ≡ ok a
        → (g : Granted) × ((with_refresh_token b m user plan access refresh w).0 ≡ success 200 g)
    unfolding with_refresh_token
    refreshed-succeeds user plan access (err e) a w j h = cc
    refreshed-succeeds user plan access (ok refresh) a w j h =
        opened-succeeds user plan access refresh (b.parse_uuid access.jti) w
          (ap b.parse_uuid j ∙ parses)

    issued-succeeds :
        (user : User) (plan : SubscriptionPlan) (access : Result Issued) (a : Issued)
        (w : World U S R Q)
        → access ≡ ok a
        → a.jti ≡ m.access_jti
        → (g : Granted) × ((with_access_token b m user plan access w).0 ≡ success 200 g)
    unfolding with_access_token issue_refresh_token
    issued-succeeds user plan (err e) a w h j = cc
    issued-succeeds user plan (ok access) a w h j =
        let (r, _, e) =
          signed-ok (claims_for b.issuer m.now m.refresh_jti user.id "" [] "" b.refresh_ttl)
            m.refresh_jti b.refresh_ttl in
        let same : access ≡ a = cc in
        refreshed-succeeds user plan access _ r w (ap (λ x. x.jti) same ∙ j) e

    -- With signing and ids that work, tokens are granted.
    pub respond-succeeds :
        (user : User) (w : World U S R Q)
        → (g : Granted) × ((respond_with_tokens b m user w).0 ≡ success 200 g)
    unfolding respond_with_tokens issue_access_token
    respond-succeeds user w =
        let (a, j, e) =
          signed-ok
            (claims_for b.issuer m.now m.access_jti user.id (token_role user) [] "" b.access_ttl)
            m.access_jti b.access_ttl in
        issued-succeeds user _ _ a _ e j
