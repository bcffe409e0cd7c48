-- ===== src/Auth/Rows.antt =====
-- Sessions and password reset tokens: the statements of auth-service/internal/models/token.go and
-- auth-service/internal/models/password_reset.go. Times are instants in seconds.
use fyredocs_backend.Prelude.{
  ℕ, ◌+◌, String, Bool, false, ◌&&◌, ◌||◌, ltb, ◌=ₛ◌, Option, none, some, true, List,
}
use fyredocs_backend.Store.{Result}
use fyredocs_backend.Store.Table.{Table}

-- `none` is NULL.
pub record UserSession : Type 0 where
  pub id : String
  pub user_id : String
  pub access_token_hash : String
  pub refresh_token_hash : Option String
  pub access_expires_at : ℕ
  pub refresh_expires_at : Option ℕ

pub record PasswordResetToken : Type 0 where
  pub user_id : String
  pub token_hash : String
  pub expires_at : ℕ
  pub request_ip : String

-- `column = ?` and `column > ?`, which NULL does not satisfy.
abbrev pub eq_sql : Option String → String → Bool
eq_sql none x = false
eq_sql (some y) x = y =ₛ x

abbrev pub after_sql : Option ℕ → ℕ → Bool
after_sql none t = false
after_sql (some e) t = ltb t e

-- `column IS NULL OR column < ?`
abbrev pub null_or_before_sql : Option ℕ → ℕ → Bool
null_or_before_sql none t = true
null_or_before_sql (some e) t = ltb e t

-- The conditions of the four statements on sessions.
unfoldable pub is_refreshable : ℕ → String → UserSession → Bool
is_refreshable now hash s = eq_sql s.refresh_token_hash hash && after_sql s.refresh_expires_at now

unfoldable pub has_access_hash : String → UserSession → Bool
has_access_hash hash s = s.access_token_hash =ₛ hash

unfoldable pub is_live_of : ℕ → String → UserSession → Bool
is_live_of now uid s =
    s.user_id =ₛ uid && (ltb now s.access_expires_at || after_sql s.refresh_expires_at now)

unfoldable pub is_expired : ℕ → UserSession → Bool
is_expired now s = ltb s.access_expires_at now && null_or_before_sql s.refresh_expires_at now

module _ {S : Type 0} (sessions : Table S UserSession) (hash : String → String) where
  unfoldable pub store_session :
      String → String → String → ℕ → String → ℕ → S → Result UserSession × S
  store_session id uid access access_expires refresh refresh_expires s =
      sessions.create
        (record {
          id = id;
          user_id = uid;
          access_token_hash = hash access;
          refresh_token_hash = some (hash refresh);
          access_expires_at = access_expires;
          refresh_expires_at = some refresh_expires;
        })
        s

  unfoldable pub store_access_only_session :
      String → String → String → ℕ → S → Result UserSession × S
  store_access_only_session id uid access access_expires s =
      sessions.create
        (record {
          id = id;
          user_id = uid;
          access_token_hash = hash access;
          refresh_token_hash = none;
          access_expires_at = access_expires;
          refresh_expires_at = none;
        })
        s

module _ {S : Type 0} (sessions : Table S UserSession) where
  unfoldable pub find_session_by_refresh_hash : ℕ → String → S → Result UserSession
  find_session_by_refresh_hash now hash s = sessions.first (is_refreshable now hash) s

  unfoldable pub revoke_session_by_access_hash : String → S → Result (List UserSession) × S
  revoke_session_by_access_hash hash s = sessions.delete (has_access_hash hash) s

  unfoldable pub revoke_all_user_sessions : ℕ → String → S → Result (List UserSession) × S
  revoke_all_user_sessions now uid s = sessions.delete (is_live_of now uid) s

  unfoldable pub delete_expired_sessions : ℕ → S → Result (List UserSession) × S
  delete_expired_sessions now s = sessions.delete (is_expired now) s

unfoldable pub is_valid_reset : ℕ → String → PasswordResetToken → Bool
is_valid_reset now hash r = r.token_hash =ₛ hash && ltb now r.expires_at

unfoldable pub is_reset_of : String → PasswordResetToken → Bool
is_reset_of uid r = r.user_id =ₛ uid

module _ {R : Type 0} (resets : Table R PasswordResetToken) where
  unfoldable pub create_password_reset_token :
      (String → String) → ℕ → String → String → ℕ → String → R → Result PasswordResetToken × R
  create_password_reset_token hash now uid raw ttl ip r =
      resets.create
        (record { user_id = uid; token_hash = hash raw; expires_at = now + ttl; request_ip = ip }) r

  unfoldable pub find_valid_reset_token_by_hash : ℕ → String → R → Result PasswordResetToken
  find_valid_reset_token_by_hash now hash r = resets.first (is_valid_reset now hash) r

  unfoldable pub delete_reset_tokens_for_user : String → R → Result (List PasswordResetToken) × R
  delete_reset_tokens_for_user uid r = resets.delete (is_reset_of uid) r
