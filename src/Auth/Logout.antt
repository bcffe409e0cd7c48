-- ===== src/Auth/Logout.antt =====
-- Logging out (`Logout`, `denyAccessToken`, `extractAccessToken` and `getTokenRemainingTTL` of
-- auth-service/handlers/auth.go). The caller's id is "" where no token was verified.
pub mod Ends
use fyredocs_backend.Prelude.{
  ℕ, ◌-◌, String, ◌=ₛ◌, if◌then◌else◌, Option, none, some, List, [], ◌∷◌,
}
use fyredocs_backend.Http.{Reply, success, failure}
use fyredocs_backend.Text.Space.{trim_space, fields, to_lower}
use fyredocs_backend.Auth.Rows.{revoke_session_by_access_hash}
use fyredocs_backend.Auth.Cookies.{Cookie, clear_access_token_cookie, clear_refresh_token_cookie}
use fyredocs_backend.Auth.Backend.{
  World, Backend, Moment, on_sessions, deny_token, delete_plan_cache,
}

-- Where a request may carry an access token: its Authorization header, gin's context and its
-- cookie. An absent one is "".
pub record Carried : Type 0 where
  pub authorization : String
  pub context : String
  pub cookie : String

-- The token of a header's two words; "" if it is of another form. Only ASCII letters fold to those
-- of "Bearer".
unfoldable pub bearer_token : List String → String
bearer_token (scheme ∷ token ∷ []) = if to_lower scheme =ₛ "bearer" then trim_space token else ""
bearer_token _ = ""

unfoldable pub extract_access_token : Carried → Option String
unfolding bearer_token fields
extract_access_token r =
    let bearer = bearer_token (fields r.authorization) in
    if bearer =ₛ ""
    then if r.context =ₛ ""
      then if trim_space r.cookie =ₛ "" then none else some (trim_space r.cookie)
      else some r.context
    else some bearer

-- The claimed expiry, if the token could be read; 0 once it is past.
unfoldable pub token_remaining_ttl : ℕ → Option ℕ → Option ℕ
token_remaining_ttl now none = none
token_remaining_ttl now (some e) = some (e - now)

abbrev pub ttl_or : ℕ → Option ℕ → ℕ
ttl_or d none = d
ttl_or d (some t) = t

module _ {U S R Q : Type 0} (b : Backend U S R Q) (m : Moment) where
  -- The failures of both tiers are only logged.
  unfoldable pub deny_access_token : String → World U S R Q → World U S R Q
  deny_access_token token w =
      let w' = (on_sessions (revoke_session_by_access_hash b.sessions (b.hash_token token)) w).1 in
      deny_token b token (ttl_or b.access_ttl (token_remaining_ttl m.now (b.expiry_of token))) w'

  unfoldable pub deny_carried : Option String → World U S R Q → World U S R Q
  deny_carried none w = w
  deny_carried (some token) w =
      let w' = deny_access_token token w in if trim_space token =ₛ "" then w else w'

  unfoldable pub logout : String → Carried → World U S R Q → Reply (List Cookie) × World U S R Q
  logout uid carried w = if trim_space uid =ₛ "" then (failure 401 "UNAUTHORIZED", w) else (
    success 204 (clear_access_token_cookie b.env ∷ clear_refresh_token_cookie b.env ∷ []),
    delete_plan_cache b uid (deny_carried (extract_access_token carried) w),
  )
