-- ===== src/Auth/Logout/Ends.antt =====
-- A logout ends the session whose access token it carries.
use fyredocs_backend.Prelude.{
  String, true, false, ◌≡◌, ap, ◌∙◌, ◌=ₛ◌, some, List, Elem, eq_iff, kept,
}
use fyredocs_backend.Store.{ok}
use fyredocs_backend.Store.Table.{TableLaws}
use fyredocs_backend.Text.Space.{trim_space}
use fyredocs_backend.Auth.Rows.{
  UserSession, is_refreshable, has_access_hash, revoke_session_by_access_hash,
}
use fyredocs_backend.Auth.Backend.{World, Backend, Moment, on_sessions}
use fyredocs_backend.Auth.Backend.Tables.{tables, delete_plan_cache-tables, deny_token-tables}
use fyredocs_backend.Auth.Refresh.{refresh, invalid_refresh_token}
use fyredocs_backend.Auth.Reset.Effect.{refresh_refused}
use fyredocs_backend.Auth.Logout.{
  Carried, extract_access_token, deny_access_token, deny_carried, logout,
}

module _ {U S R Q : Type 0} (b : Backend U S R Q) where
  -- Of the tables, a logout touches the sessions alone, by one statement.
  logout-tables :
      (m : Moment) (uid : String) (carried : Carried) (token : String) (w : World U S R Q)
      → (trim_space uid =ₛ "") ≡ false
      → extract_access_token carried ≡ some token
      → (trim_space token =ₛ "") ≡ false
      → tables (logout b m uid carried w).1
        ≡ tables (on_sessions (revoke_session_by_access_hash b.sessions (b.hash_token token)) w).1
  unfolding logout deny_carried deny_access_token
  logout-tables m uid carried token w known e shown =
      rw (known, logout, e, shown)
        (delete_plan_cache-tables b uid _ ∙ deny_token-tables b token _ _)

  module _ (rows_s : S → List UserSession) (laws_s : TableLaws b.sessions rows_s) where
    -- After a logout that carries a session's access token, and whose deletion the database has
    -- carried out, that session's refresh token is refused at any time, and the refusal changes
    -- nothing. The sessions of the refresh token are those with the access token's hash.
    pub logout-ends :
        (m later : Moment) (uid : String) (carried : Carried) (access token : String)
        (w : World U S R Q) (gone : List UserSession)
        → (trim_space uid =ₛ "") ≡ false
        → extract_access_token carried ≡ some access
        → (trim_space access =ₛ "") ≡ false
        → (revoke_session_by_access_hash b.sessions (b.hash_token access) w.sessions).0 ≡ ok gone
        → ((s : UserSession)
            → Elem s (rows_s w.sessions)
            → is_refreshable later.now (b.hash_token token) s ≡ true
            → s.access_token_hash ≡ b.hash_token access)
        → let w' = (logout b m uid carried w).1 in
          refresh b later (some token) w' ≡ (invalid_refresh_token, w')
    unfolding revoke_session_by_access_hash has_access_hash
    logout-ends m later uid carried access token w gone known e shown deleted paired =
        let w' = (logout b m uid carried w).1 in
        let left =
          ap (λ (t : U × S × R). rows_s t.1) (logout-tables m uid carried access w known e shown)
          ∙ (laws_s.delete_ok (has_access_hash (b.hash_token access)) w.sessions gone deleted).0 in
        refresh_refused b later token w' (λ s found.
          let (matches, there) = laws_s.first_ok _ w'.sessions s found in
          let (was, other) = kept _ _ _ s left there in
          let same = (eq_iff _ _).1 (paired s was matches) in cc)
