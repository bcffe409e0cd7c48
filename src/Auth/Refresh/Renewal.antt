-- ===== src/Auth/Refresh/Renewal.antt =====
-- A session that has just been opened can be renewed.
use fyredocs_backend.Prelude.{
  ℕ, ◌<◌, ◌+◌, String, Bool, true, false, ◌≡◌, refl, sym, ap, subst, ◌∙◌, ◌=ₛ◌, some, List, [], ◌∷◌,
  Elem, inl, lt→ltb, eq_refl,
}
use fyredocs_backend.Store.{Result, ok, err}
use fyredocs_backend.Store.Table.{TableLaws}
use fyredocs_backend.Http.{success}
use fyredocs_backend.Text.Space.{trim_space}
use fyredocs_backend.Auth.Accounts.{User, SubscriptionPlan, token_role}
use fyredocs_backend.Auth.Rows.{
  UserSession, is_refreshable, store_session, find_session_by_refresh_hash,
}
use fyredocs_backend.Auth.Issuer.{
  Claims, Issuer, Issued, claims_for, signed, issue_access_token, subject_of, verify_refresh_token,
}
use fyredocs_backend.Auth.Backend.{World, Backend, Moment}
use fyredocs_backend.Auth.Cookies.{set_access_token_cookie, set_refresh_token_cookie}
use fyredocs_backend.Auth.Grant.{Granted, respond_with_tokens}
use fyredocs_backend.Auth.Grant.Opened.{refresh_claims, respond-Opened}
use fyredocs_backend.Auth.Refresh.{refresh, check_user, renew_for, renew}

-- What the libraries behind the issuer are documented to do: signing works, and the token made of
-- the claims `c` is parsed to them until it expires. It is not blank.
pub record JwtLaws (i : Issuer) (c : Claims) : Type 0 where
  pub signs : (d : Claims) → (t : String) × (i.sign d ≡ ok t)
  pub is_visible : (t : String) → i.sign c ≡ ok t → (trim_space t =ₛ "") ≡ false
  pub parses :
      (t : String) (now : ℕ)
      → i.sign c ≡ ok t
      → now < c.expires_at
      → i.parse c.issuer c.audience now t ≡ some c

module _ {U S R Q : Type 0} (b : Backend U S R Q) where
  issue-ok :
      ((d : Claims) → (t : String) × (b.issuer.sign d ≡ ok t))
      → (m : Moment) (uid role : String)
      → (a : Issued) × (issue_access_token b.issuer m.now m.access_jti uid role [] b.access_ttl
          ≡ ok a)
  unfolding issue_access_token signed
  issue-ok signs m uid role =
      let c = claims_for b.issuer m.now m.access_jti uid role [] "" b.access_ttl in
      (_, ap (signed b.issuer m.now m.access_jti b.access_ttl) (signs c).1)

  renew-ok :
      (m : Moment) (user : User) (session : UserSession) (plan : SubscriptionPlan)
      (w : World U S R Q) (r : Result Issued) (a : Issued)
      → r ≡ ok a
      → (g : Granted) × ((renew b m user session plan r w).0 ≡ success 200 g)
  unfolding renew
  renew-ok m user session plan w (err e) a h = cc
  renew-ok m user session plan w (ok x) a h = (_, refl)

  renew_for-succeeds :
      ((d : Claims) → (t : String) × (b.issuer.sign d ≡ ok t))
      → (m : Moment) (user : User) (session : UserSession) (w : World U S R Q)
      → (g : Granted) × ((renew_for b m user session w).0 ≡ success 200 g)
  unfolding renew_for
  renew_for-succeeds signs m user session w =
      let (a, e) = issue-ok signs m user.id (token_role user) in renew-ok m user session _ _ _ a e

  verified :
      (m : Moment) (user : User) (token : String) (now : ℕ)
      → JwtLaws b.issuer (refresh_claims b m user)
      → b.issuer.sign (refresh_claims b m user) ≡ ok token
      → now < m.now + b.refresh_ttl
      → (trim_space user.id =ₛ "") ≡ false
      → verify_refresh_token b.issuer now token ≡ some (trim_space user.id)
  unfolding verify_refresh_token subject_of claims_for
  verified m user token now laws e before shown =
      ap (subject_of b.issuer now) (laws.parses token now e before) ∙ rw shown refl

  -- A refresh that gets as far as its session and its user succeeds.
  refresh_reaches :
      ((d : Claims) → (t : String) × (b.issuer.sign d ≡ ok t))
      → (m : Moment) (token uid id : String) (s : UserSession) (user : User) (w : World U S R Q)
      → (trim_space token =ₛ "") ≡ false
      → verify_refresh_token b.issuer m.now token ≡ some uid
      → b.sessions.first (is_refreshable m.now (b.hash_token token)) w.sessions ≡ ok s
      → b.parse_uuid (trim_space uid) ≡ some id
      → b.users.first (λ u. u.id =ₛ id) w.users ≡ ok user
      → (g : Granted) × ((refresh b m (some token) w).0 ≡ success 200 g)
  unfolding refresh check_user find_session_by_refresh_hash
  refresh_reaches signs m token uid id s user w shown v found parsed known =
      let (g, e) = renew_for-succeeds signs m user s w in
      (g, rw (shown, v, found, check_user, parsed, known) e)

  module _ (rows_s : S → List UserSession) (laws_s : TableLaws b.sessions rows_s)
      (stores : (r : UserSession) (s : S) → (b.sessions.create r s).0 ≡ ok r)
      (finds : (p : UserSession → Bool) (r : UserSession) (s : S)
        → Elem r (rows_s s)
        → p r ≡ true
        → (r' : UserSession) × (b.sessions.first p s ≡ ok r')) where
    -- A user who has been granted a pair of tokens gets a new access token for the refresh token in
    -- the cookie, at any time before it expires. Tokens are signed and parsed without fail, and
    -- sessions stored and found; the user's row can be found by its id.
    pub respond_with_tokens-renewable :
        (m later : Moment) (user row : User) (w : World U S R Q) (g : Granted)
        → JwtLaws b.issuer (refresh_claims b m user)
        → later.now < m.now + b.refresh_ttl
        → (user.id =ₛ "") ≡ false
        → trim_space user.id ≡ user.id
        → b.parse_uuid user.id ≡ some user.id
        → b.users.first (λ u. u.id =ₛ user.id) w.users ≡ ok row
        → (respond_with_tokens b m user w).0 ≡ success 200 g
        → let w' = (respond_with_tokens b m user w).1 in
          (token : String) × ((access : String) × (g.cookies
              ≡ set_access_token_cookie b.env access b.access_ttl
                ∷ set_refresh_token_cookie b.env token b.refresh_ttl
                ∷ []))
          × (g' : Granted) × ((refresh b later (some token) w').0 ≡ success 200 g')
    unfolding is_refreshable store_session
    respond_with_tokens-renewable m later user row w g laws before shown trimmed parsed known h =
        let o = respond-Opened b m user w g h in
        let w' = (respond_with_tokens b m user w).1 in
        let stored : UserSession = record {
          id = o.sid;
          user_id = user.id;
          access_token_hash = b.hash_token o.access.token;
          refresh_token_hash = some (b.hash_token o.token);
          access_expires_at = o.access.expires_at;
          refresh_expires_at = some (m.now + b.refresh_ttl);
        } in
        let rows =
          ap rows_s o.sessions
          ∙ laws_s.create_ok stored stored w.sessions (stores stored w.sessions) in
        let fits : is_refreshable later.now (b.hash_token o.token) stored ≡ true =
          rw (eq_refl (b.hash_token o.token), lt→ltb _ _ before) refl in
        let (found, e) =
          finds _ stored w'.sessions (subst (Elem stored) (sym rows) (inl refl)) fits in
        let (g', done) =
          refresh_reaches laws.signs later o.token user.id user.id found row w'
            (laws.is_visible o.token o.signs)
            (verified m user o.token later.now laws o.signs before (rw trimmed shown)
              ∙ ap some trimmed)
            e (rw trimmed parsed) (ap (b.users.first (λ u. u.id =ₛ user.id)) o.users ∙ known) in
        (o.token, (o.access.token, o.cookies), g', done)
