-- ===== src/Auth/Reset/Effect.antt =====
-- What a password reset is for: old sessions and old links no longer work.
use fyredocs_backend.Prelude.{
  ℕ, ◌≤◌, String, Bool, true, ◌&&◌, ◌||◌, ◌≡◌, refl, subst, ◌=ₛ◌, Option, some, none, List, Elem,
  kept, inl, inr, Bool-cases, Option-cases, arith, eq_iff,
}
use fyredocs_backend.Store.{Result, ok, err}
use fyredocs_backend.Store.Table.{TableLaws}
use fyredocs_backend.Http.{success, failure}
use fyredocs_backend.Text.Space.{trim_space}
use fyredocs_backend.Auth.Accounts.{User}
use fyredocs_backend.Auth.Rows.{
  UserSession, PasswordResetToken, after_sql, is_refreshable, is_live_of, is_valid_reset,
  is_reset_of, find_session_by_refresh_hash, find_valid_reset_token_by_hash,
}
use fyredocs_backend.Auth.Issuer.{verify_refresh_token}
use fyredocs_backend.Auth.Backend.{World, Backend, Moment}
use fyredocs_backend.Auth.Refresh.{refresh, check_user, invalid_refresh_token}
use fyredocs_backend.Auth.Reset.{ResetPasswordRequest, reset_password}
use fyredocs_backend.Auth.Reset.Revokes.{reset_password-Revoked, reset_refused}

module _ {U S R Q : Type 0} (b : Backend U S R Q) where
  -- A refresh whose session cannot be found is refused.
  pub refresh_refused :
      (m : Moment) (token : String) (w : World U S R Q)
      → ((s : UserSession)
          → b.sessions.first (is_refreshable m.now (b.hash_token token)) w.sessions ≡ ok s
          → ⊥)
      → refresh b m (some token) w ≡ (invalid_refresh_token, w)
  unfolding refresh find_session_by_refresh_hash check_user
  refresh_refused m token w none_found = elim (Bool-cases (trim_space token =ₛ "")) [
    | inl e ↦ rw e refl
    | inr e ↦ elim (Option-cases (verify_refresh_token b.issuer m.now token)) [
      | inl v ↦ rw (e, v) refl
      | inr (uid, v) ↦ rw (e, v) (unfound uid _ none_found)
    ]
  ]
    where
      unfound :
          (uid : String) (r : Result UserSession)
          → ((s : UserSession) → r ≡ ok s → ⊥)
          → check_user b m uid r w ≡ (invalid_refresh_token, w)
      unfound uid (err e) h = refl
      unfound uid (ok s) h = absurd (h s refl)

  after_sql-earlier :
      (e : Option ℕ) (now later : ℕ)
      → now ≤ later
      → after_sql e later ≡ true
      → after_sql e now ≡ true
  after_sql-earlier none now later before h = cc
  after_sql-earlier (some e) now later before h = ground arith

  refreshable-is_live :
      (now later : ℕ) (hash uid : String) (s : UserSession)
      → now ≤ later
      → s.user_id ≡ uid
      → is_refreshable later hash s ≡ true
      → is_live_of now uid s ≡ true
  unfolding is_refreshable is_live_of
  refreshable-is_live now later hash uid s before owner h =
      conclude _ _ _ _ (after_sql-earlier s.refresh_expires_at now later before) h
        ((eq_iff s.user_id uid).1 owner)
    where
      conclude :
          (found running owned access : Bool) {still : Bool}
          → (running ≡ true → still ≡ true)
          → (found && running) ≡ true
          → owned ≡ true
          → (owned && (access || still)) ≡ true
      conclude found running owned access f g o = ground (arith, f)

  valid-hash :
      (now : ℕ) (hash : String) (t : PasswordResetToken)
      → is_valid_reset now hash t ≡ true
      → t.token_hash ≡ hash
  unfolding is_valid_reset
  valid-hash now hash t h = elim (Bool-cases (t.token_hash =ₛ hash)) [
    | inl e ↦ (eq_iff _ _).0 e
    | inr e ↦ let h' = rw e at h in cc
  ]

  module _ (rows_u : U → List User) (laws_u : TableLaws b.users rows_u)
      (rows_s : S → List UserSession) (laws_s : TableLaws b.sessions rows_s)
      (rows_r : R → List PasswordResetToken) (laws_r : TableLaws b.resets rows_r) where
    -- Once a password reset has succeeded with a user's reset token, a refresh token whose sessions
    -- were all that user's is refused, at that time and at every later one, and the refusal changes
    -- nothing.
    pub reset_password-logs_out :
        (m later : Moment) (p : ResetPasswordRequest) (row : PasswordResetToken) (token : String)
        (w : World U S R Q)
        → m.now ≤ later.now
        → find_valid_reset_token_by_hash b.resets m.now (b.hash_token (trim_space p.token)) w.resets
          ≡ ok row
        → ((s : UserSession)
            → Elem s (rows_s w.sessions)
            → is_refreshable later.now (b.hash_token token) s ≡ true
            → s.user_id ≡ row.user_id)
        → (reset_password b m (some p) w).0 ≡ success 200 tt
        → let w' = (reset_password b m (some p) w).1 in
          refresh b later (some token) w' ≡ (invalid_refresh_token, w')
    reset_password-logs_out m later p row token w after found owned h =
        let (hash, hashed, done) =
          reset_password-Revoked b m rows_u laws_u rows_s laws_s rows_r laws_r p row w found h in
        let w' = (reset_password b m (some p) w).1 in
        refresh_refused later token w' (λ s e.
          let (matches, there) = laws_s.first_ok _ w'.sessions s e in
          let (was, dead) = kept _ _ _ s done.sessions there in
          let live =
            refreshable-is_live m.now later.now _ row.user_id s after (owned s was matches)
              matches in
          cc)

    -- Once a password reset has succeeded, a second one with the same token is refused whatever the
    -- new password and whenever it comes, and changes nothing. All tokens with that hash are taken
    -- to be the same user's, as the unique index has it.
    pub reset_password-single_use :
        (m later : Moment) (p again : ResetPasswordRequest) (row : PasswordResetToken)
        (w : World U S R Q)
        → find_valid_reset_token_by_hash b.resets m.now (b.hash_token (trim_space p.token)) w.resets
          ≡ ok row
        → ((t : PasswordResetToken)
            → Elem t (rows_r w.resets)
            → t.token_hash ≡ b.hash_token (trim_space p.token)
            → t.user_id ≡ row.user_id)
        → again.token ≡ p.token
        → (reset_password b m (some p) w).0 ≡ success 200 tt
        → let w' = (reset_password b m (some p) w).1 in
          (status : ℕ) × (code : String) × (reset_password b later (some again) w'
            ≡ (failure status code, w'))
    unfolding find_valid_reset_token_by_hash is_reset_of
    reset_password-single_use m later p again row w found owned same h =
        let (hash, hashed, done) =
          reset_password-Revoked b m rows_u laws_u rows_s laws_s rows_r laws_r p row w found h in
        let w' = (reset_password b m (some p) w).1 in
        reset_refused b later again w' (λ t e.
          let (matches, there) = laws_r.first_ok _ w'.resets t (
            subst
              (λ x.
                find_valid_reset_token_by_hash b.resets later.now (b.hash_token (trim_space x))
                  w'.resets
                ≡ ok t)
              same e) in
          let (was, other) = kept _ _ _ t done.resets there in
          let mine = owned t was (valid-hash _ _ t matches) in
          let theirs = (eq_iff t.user_id row.user_id).1 mine in cc)
