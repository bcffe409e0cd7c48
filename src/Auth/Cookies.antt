-- ===== src/Auth/Cookies.antt =====
-- The cookies that carry the tokens (the cookie helpers of auth-service/handlers/auth.go).
use fyredocs_backend.Prelude.{ℕ, String, Bool, true, ◌=ₛ◌, if◌then◌else◌}
use fyredocs_backend.Prelude.Int.{ℤ, pos, negsuc}
use fyredocs_backend.Config.{Env, get_env, get_env_bool}
use fyredocs_backend.Text.Space.{trim_space, to_lower}

pub data SameSite : Type 0 where
  strict_mode lax_mode none_mode : SameSite

-- A negative `max_age` deletes the cookie.
pub record Cookie : Type 0 where
  pub name : String
  pub value : String
  pub max_age : ℤ
  pub path : String
  pub domain : String
  pub secure : Bool
  pub http_only : Bool
  pub same_site : SameSite

unfoldable pub parse_same_site : String → SameSite
parse_same_site value =
    let v = to_lower (trim_space value) in
    if v =ₛ "strict" then strict_mode else if v =ₛ "none" then none_mode else lax_mode

module _ (env : Env) where
  -- What the four functions below share: `gin.SetCookie` with the configured attributes.
  unfoldable pub set_cookie : String → String → ℤ → String → Cookie
  set_cookie name value max_age path = record {
    name = name;
    value = value;
    max_age = max_age;
    path = path;
    domain = trim_space (get_env env "AUTH_COOKIE_DOMAIN" "");
    secure = get_env_bool env "AUTH_COOKIE_SECURE" true;
    http_only = true;
    same_site = parse_same_site (get_env env "AUTH_COOKIE_SAMESITE" "lax");
  }

  unfoldable pub set_access_token_cookie : String → ℕ → Cookie
  set_access_token_cookie token ttl =
      set_cookie (get_env env "AUTH_ACCESS_COOKIE" "access_token") token (pos ttl) "/"

  unfoldable pub clear_access_token_cookie : Cookie
  clear_access_token_cookie =
      set_cookie (get_env env "AUTH_ACCESS_COOKIE" "access_token") "" (negsuc 0) "/"

  unfoldable pub set_refresh_token_cookie : String → ℕ → Cookie
  set_refresh_token_cookie token ttl =
      set_cookie (get_env env "AUTH_REFRESH_COOKIE" "refresh_token") token (pos ttl) "/auth"

  unfoldable pub clear_refresh_token_cookie : Cookie
  clear_refresh_token_cookie =
      set_cookie (get_env env "AUTH_REFRESH_COOKIE" "refresh_token") "" (negsuc 0) "/auth"
