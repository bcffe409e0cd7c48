-- ===== src/Auth/Reset/Revokes.antt =====
-- What a successful password reset has done to the tables.
use Prim.Native.String.{len}
use fyredocs_backend.Text.Space.{trim_space}
use fyredocs_backend.Prelude.{
  ◌⊎◌, ℕ, String, not, ◌≡◌, refl, sym, ap, subst, ◌∙◌, ◌=ₛ◌, if◌then◌else◌, some, List, [], ◌∷◌,
  map, filter, inl, inr, Bool-cases, ltb,
}
use fyredocs_backend.Store.{Result, ok, err}
use fyredocs_backend.Store.Table.{TableLaws}
use fyredocs_backend.Http.{Reply, success, failure}
use fyredocs_backend.Auth.Accounts.{User}
use fyredocs_backend.Auth.Rows.{
  UserSession, PasswordResetToken, is_live_of, is_reset_of, revoke_all_user_sessions,
  delete_reset_tokens_for_user, find_valid_reset_token_by_hash,
}
use fyredocs_backend.Auth.Backend.{World, Backend, Moment, on_users, on_resets}
use fyredocs_backend.Auth.Backend.Tables.{
  tables, publish_event-tables, delete_plan_cache-tables, deny_token_hash-tables,
}
use fyredocs_backend.Auth.Reset.{
  deny_revoked, reset_done, transaction, reset_tx, users_in_tx, resets_in_tx, reset_hashed,
  reset_found, reset_password, ResetPasswordRequest,
}

module _ {U S R Q : Type 0} (b : Backend U S R Q) (m : Moment) where
  deny_revoked-tables :
      (ss : List UserSession) (w : World U S R Q) → tables (deny_revoked b m ss w) ≡ tables w
  unfolding deny_revoked
  deny_revoked-tables [] w = refl
  deny_revoked-tables (s ∷ ss) w = elim (Bool-cases (ltb m.now s.access_expires_at)) [
    | inl e ↦ rw (e, deny_revoked) (deny_revoked-tables ss _ ∙ deny_token_hash-tables b _ _ w)
    | inr e ↦ rw (e, deny_revoked) (deny_revoked-tables ss w)
  ]

  -- A reset that succeeds has committed, and only its transaction changes the tables.
  reset_done-ok :
      (uid : String) (r : Result (List UserSession) × World U S R Q)
      → (reset_done b m uid r).0 ≡ success 200 tt
      → (gone : List UserSession) × (r.0 ≡ ok gone) × (tables (reset_done b m uid r).1 ≡ tables r.1)
  unfolding reset_done
  reset_done-ok uid (err e, w) h = cc
  reset_done-ok uid (ok gone, w) h = (
    gone,
    refl,
    publish_event-tables b _ uid "" _
        ∙ (delete_plan_cache-tables b uid _ ∙ deny_revoked-tables gone w),
  )

  transaction-ok :
      {A : Type 0} (before : World U S R Q) (r : Result A × World U S R Q) (a : A)
      → (transaction b m before r).0 ≡ ok a
      → (r.0 ≡ ok a) × ((transaction b m before r).1 ≡ r.1)
  unfolding transaction
  transaction-ok before (err e, w) a h = cc
  transaction-ok before (ok x, w) a h = commits b.commit refl h
    where
      commits :
          (c : Result (Unit {0}))
          → b.commit ≡ c
          → (transaction b m before (ok x, w)).0 ≡ ok a
          → (ok x ≡ ok a) × ((transaction b m before (ok x, w)).1 ≡ w)
      commits (err e) k h = let h' = rw (transaction, k) at h in cc
      commits (ok u) k h = rw (transaction, k) (rw (transaction, k) at h, refl)

  -- A request is refused for what it says, or depends on its token.
  pub reset_password-cases :
      (p : ResetPasswordRequest) (w : World U S R Q)
      → ((status : ℕ) × (code : String) × (reset_password b m (some p) w
            ≡ (failure status code, w)))
        ⊎ (reset_password b m (some p) w
            ≡ reset_found b m p.new_password
                (find_valid_reset_token_by_hash b.resets m.now
                  (b.hash_token (trim_space p.token))
                  w.resets)
                w)
  unfolding reset_password
  reset_password-cases p w = elim (Bool-cases (trim_space p.token =ₛ "")) [
    | inl e ↦ inl (400, "INVALID_INPUT", rw (e, reset_password) refl)
    | inr e ↦ elim (Bool-cases (ltb (len p.new_password) 8)) [
      | inl l ↦ inl (400, "WEAK_PASSWORD", rw (e, reset_password, l) refl)
      | inr l ↦ elim (Bool-cases (ltb 128 (len p.new_password))) [
        | inl g ↦ inl (400, "INVALID_INPUT", rw (e, reset_password, l, g) refl)
        | inr g ↦ inr (rw (e, reset_password, l, g) refl)
      ]
    ]
  ]

  -- A reset whose token cannot be found is refused.
  pub reset_refused :
      (p : ResetPasswordRequest) (w : World U S R Q)
      → ((t : PasswordResetToken)
          → find_valid_reset_token_by_hash b.resets m.now
              (b.hash_token (trim_space p.token))
              w.resets
            ≡ ok t
          → ⊥)
      → (status : ℕ) × (code : String) × (reset_password b m (some p) w ≡ (failure status code, w))
  unfolding reset_found
  reset_refused p w none_found = elim (reset_password-cases p w) [
    | inl r ↦ r
    | inr e ↦ (400, "INVALID_OR_EXPIRED_TOKEN", e ∙ unfound _ none_found)
  ]
    where
      unfound :
          (r : Result PasswordResetToken)
          → ((t : PasswordResetToken) → r ≡ ok t → ⊥)
          → reset_found b m p.new_password r w ≡ (failure 400 "INVALID_OR_EXPIRED_TOKEN", w)
      unfound (err e) h = refl
      unfound (ok t) h = absurd (h t refl)

  -- The statements of the transaction, one after the other.
  module _ (rows_u : U → List User) (laws_u : TableLaws b.users rows_u)
      (rows_s : S → List UserSession) (laws_s : TableLaws b.sessions rows_s)
      (rows_r : R → List PasswordResetToken) (laws_r : TableLaws b.resets rows_r) where
    resets_in_tx-ok :
        (uid : String) (r : Result (List PasswordResetToken) × World U S R Q)
        (gone : List UserSession)
        → (resets_in_tx b m uid r).0 ≡ ok gone
        → (was : List PasswordResetToken) × (r.0 ≡ ok was)
          × ((resets_in_tx b m uid r).1.users ≡ r.1.users)
          × ((resets_in_tx b m uid r).1.resets ≡ r.1.resets)
          × (rows_s (resets_in_tx b m uid r).1.sessions
              ≡ filter (λ s. not (is_live_of m.now uid s)) (rows_s r.1.sessions))
    unfolding resets_in_tx revoke_all_user_sessions
    resets_in_tx-ok uid (err e, w) gone h = cc
    resets_in_tx-ok uid (ok was, w) gone h =
        (was, refl, refl, refl, (laws_s.delete_ok (is_live_of m.now uid) w.sessions gone h).0)

    users_in_tx-ok :
        (uid : String) (r : Result (Unit {0}) × World U S R Q) (gone : List UserSession)
        → (users_in_tx b m uid r).0 ≡ ok gone
        → (r.0 ≡ ok tt)
          × ((users_in_tx b m uid r).1.users ≡ r.1.users)
          × (rows_s (users_in_tx b m uid r).1.sessions
              ≡ filter (λ s. not (is_live_of m.now uid s)) (rows_s r.1.sessions))
          × (rows_r (users_in_tx b m uid r).1.resets
              ≡ filter (λ t. not (is_reset_of uid t)) (rows_r r.1.resets))
    unfolding users_in_tx delete_reset_tokens_for_user
    users_in_tx-ok uid (err e, w) gone h = cc
    users_in_tx-ok uid (ok tt, w) gone h =
        let (was, deleted, users, resets, sessions) =
          resets_in_tx-ok uid (on_resets (delete_reset_tokens_for_user b.resets uid) w) gone h in
        (
          refl,
          users,
          sessions,
          ap rows_r resets ∙ (laws_r.delete_ok (is_reset_of uid) w.resets was deleted).0,
        )

    -- What a reset leaves: the user's new hash, none of the sessions that were live, and none of the
    -- user's reset tokens. All other rows are as they were.
    pub record Revoked (uid : String) (new_hash : String) (before : World U S R Q)
        (after : World U S R Q) : Type 0 where
      pub users :
          rows_u after.users
          ≡ map
              (λ u. if u.id =ₛ uid then record u { password_hash = new_hash } else u)
              (rows_u before.users)
      pub sessions :
          rows_s after.sessions
          ≡ filter (λ s. not (is_live_of m.now uid s)) (rows_s before.sessions)
      pub resets :
          rows_r after.resets ≡ filter (λ t. not (is_reset_of uid t)) (rows_r before.resets)

    tx-Revoked :
        (uid h : String) (w : World U S R Q) (gone : List UserSession)
        → (reset_tx b m uid h w).0 ≡ ok gone
        → Revoked uid h w (reset_tx b m uid h w).1
    unfolding reset_tx
    tx-Revoked uid h w gone e =
        let (done, users, sessions, resets) =
          users_in_tx-ok uid
            (on_users (b.users.update (λ u. u.id =ₛ uid) (λ u. record u { password_hash = h })) w)
            gone e in
        record {
          users = ap rows_u users ∙ laws_u.update_ok _ _ w.users done;
          sessions = sessions;
          resets = resets;
        }

    Revoked-tables :
        {uid h : String} {w v v' : World U S R Q}
        → tables v' ≡ tables v
        → Revoked uid h w v
        → Revoked uid h w v'
    Revoked-tables e r = record {
      users = ap (λ (t : U × S × R). rows_u t.0) e ∙ r.users;
      sessions = ap (λ (t : U × S × R). rows_s t.1) e ∙ r.sessions;
      resets = ap (λ (t : U × S × R). rows_r t.2) e ∙ r.resets;
    }

    -- A reset that finds its token and succeeds has hashed the new password and revoked the rest.
    pub reset_hashed-Revoked :
        (uid : String) (hashed : Result String) (w : World U S R Q)
        → (reset_hashed b m uid hashed w).0 ≡ success 200 tt
        → (h : String) × (hashed ≡ ok h) × Revoked uid h w (reset_hashed b m uid hashed w).1
    unfolding reset_hashed
    reset_hashed-Revoked uid (err e) w k = cc
    reset_hashed-Revoked uid (ok h) w k =
        let (gone, answered, same) = reset_done-ok uid _ k in
        let (done, committed) = transaction-ok w (reset_tx b m uid h w) gone answered in
        (h, refl, Revoked-tables (same ∙ ap tables committed) (tx-Revoked uid h w gone done))

    -- What a reset leaves that has found its token and succeeds.
    pub reset_password-Revoked :
        (p : ResetPasswordRequest) (row : PasswordResetToken) (w : World U S R Q)
        → find_valid_reset_token_by_hash b.resets m.now (b.hash_token (trim_space p.token)) w.resets
          ≡ ok row
        → (reset_password b m (some p) w).0 ≡ success 200 tt
        → (h : String) × (b.generate_hash p.new_password ≡ ok h)
          × Revoked row.user_id h w (reset_password b m (some p) w).1
    unfolding reset_found
    reset_password-Revoked p row w found k = elim (reset_password-cases p w) [
      | inl (status, code, e) ↦ cc
      | inr e ↦
          let e' = e ∙ ap (λ r. reset_found b m p.new_password r w) found in
          let (h, hashed, done) =
            reset_hashed-Revoked row.user_id (b.generate_hash p.new_password) w
              (sym (ap (λ (r : Reply (Unit {0}) × World U S R Q). r.0) e') ∙ k) in
          (
            h,
            hashed,
            subst (λ (r : Reply (Unit {0}) × World U S R Q). Revoked row.user_id h w r.1) (sym e')
                done,
          )
    ]
