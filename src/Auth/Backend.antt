-- ===== src/Auth/Backend.antt =====
-- What the handlers of the auth-service work with: `AuthEndpoints`, the tables, and the state that a
-- request sees and leaves. Also the cache of plans (auth-service/handlers/plancache.go), the
-- gateway's cache of plan limits and the events of auth-service/handlers/auth.go, and the denylist
-- of shared/authverify/guest.go.
pub mod Tables
use Prim.Native.String.{◌++◌ as concat}
use fyredocs_backend.Prelude.{
  ℕ, ◌+◌, String, Bool, ltb, ◌==◌, ◌=ₛ◌, if◌then◌else◌, Option, none, some, List, [], ◌∷◌, ◌++◌,
}
use fyredocs_backend.Config.{Env}
use fyredocs_backend.Store.{Result, ok, err}
use fyredocs_backend.Store.Redis.{Redis}
use fyredocs_backend.Store.Table.{Table}
use fyredocs_backend.Auth.Accounts.{User, SubscriptionPlan}
use fyredocs_backend.Auth.Rows.{UserSession, PasswordResetToken}
use fyredocs_backend.Auth.Issuer.{Issuer}

pub record CachedPlan : Type 0 where
  pub plan : SubscriptionPlan
  pub expires : ℕ

pub record AnalyticsEvent : Type 0 where
  pub event_type : String
  pub user_id : String
  pub plan_name : String

-- A mail with a reset link: to whom, and the link's token.
pub record ResetMail : Type 0 where
  pub to : String
  pub token : String

-- The tables of users, sessions and reset tokens, the Redis of caches and denials, the process's
-- plan cache, and what has been published and mailed.
pub record World (U : Type 0) (S : Type 0) (R : Type 0) (Q : Type 0) : Type 0 where
  pub users : U
  pub sessions : S
  pub resets : R
  pub redis : Q
  pub plan_cache : String → Option CachedPlan
  pub events : List AnalyticsEvent
  pub mails : List ResetMail

-- `hash_token` is SHA-256 in hex, `generate_hash` and `matches_hash` are bcrypt's, `first_plan` is
-- the query of the table of plans, `commit` the database's answer to a transaction's COMMIT,
-- `expiry_of` the expiry that an unverified token claims, `encode_plan` the JSON of a plan's limits.
-- Durations are in seconds, as `config.GetEnvDuration` gives them.
pub record Backend (U : Type 0) (S : Type 0) (R : Type 0) (Q : Type 0) : Type 0 where
  pub users : Table U User
  pub sessions : Table S UserSession
  pub resets : Table R PasswordResetToken
  pub first_plan : String → Result SubscriptionPlan
  pub commit : Result (Unit {0})
  pub redis : Option (Redis Q)
  pub denylist : Option (Redis Q)
  pub issuer : Issuer
  pub has_mailer : Bool
  pub has_jet_stream : Bool
  pub hash_token : String → String
  pub generate_hash : String → Result String
  pub matches_hash : String → String → Bool
  pub parse_uuid : String → Option String
  pub expiry_of : String → Option ℕ
  pub encode_plan : SubscriptionPlan → String
  pub env : Env
  pub access_ttl : ℕ
  pub refresh_ttl : ℕ
  pub reset_ttl : ℕ
  pub plan_cache_ttl : ℕ

-- What differs from one request to the next: the time, and the fresh identifiers that it may use.
pub record Moment : Type 0 where
  pub now : ℕ
  pub access_jti : String
  pub refresh_jti : String
  pub reset_token : Result String

abbrev pub denylist_key : String → String
denylist_key hash = concat "denylist:jwt:" hash

abbrev pub plan_cache_key : String → String
plan_cache_key uid = concat "user:plan:" uid

module _ {U S R Q : Type 0} where
  abbrev pub on_users : {A : Type 0} → (U → A × U) → World U S R Q → A × World U S R Q
  on_users f w = let (a, u) = f w.users in (a, record w { users = u })

  abbrev pub on_sessions : {A : Type 0} → (S → A × S) → World U S R Q → A × World U S R Q
  on_sessions f w = let (a, s) = f w.sessions in (a, record w { sessions = s })

  abbrev pub on_resets : {A : Type 0} → (R → A × R) → World U S R Q → A × World U S R Q
  on_resets f w = let (a, r) = f w.resets in (a, record w { resets = r })

  module _ (b : Backend U S R Q) where
    -- An event's own failure is only logged.
    unfoldable pub publish_event : String → String → String → World U S R Q → World U S R Q
    publish_event kind uid plan w =
        if b.has_jet_stream
        then record w {
          events = w.events ++ record { event_type = kind; user_id = uid; plan_name = plan } ∷ [];
        }
        else w

    unfoldable pub cache_plan_info : String → SubscriptionPlan → ℕ → World U S R Q → World U S R Q
    cache_plan_info uid plan ttl w = elim b.redis [
      | none ↦ w
      | some r ↦ record w {
        redis = (r.set (plan_cache_key uid) (b.encode_plan plan) ttl w.redis).1;
      }
    ]

    unfoldable pub delete_plan_cache : String → World U S R Q → World U S R Q
    delete_plan_cache uid w = elim b.redis [
      | none ↦ w
      | some r ↦ record w { redis = (r.del (plan_cache_key uid ∷ []) w.redis).1 }
    ]

    -- Eight hours, for a duration of 0.
    abbrev deny_ttl : ℕ → ℕ
    deny_ttl ttl = if ttl == 0 then 28800 else ttl

    unfoldable pub deny_token_hash : String → ℕ → World U S R Q → World U S R Q
    deny_token_hash hash ttl w = elim b.denylist [
      | none ↦ w
      | some r ↦
          if hash =ₛ ""
          then w
          else record w { redis = (r.set (denylist_key hash) "1" (deny_ttl ttl) w.redis).1 }
    ]

    unfoldable pub deny_token : String → ℕ → World U S R Q → World U S R Q
    deny_token token ttl w = elim b.denylist [
      | none ↦ w
      | some r ↦ if token =ₛ "" then w else record w {
        redis = (r.set (denylist_key (b.hash_token token)) "1" (deny_ttl ttl) w.redis).1;
      }
    ]

    -- The plan that is cached and fresh.
    unfoldable pub fresh_plan : ℕ → Option CachedPlan → Option SubscriptionPlan
    fresh_plan now none = none
    fresh_plan now (some c) = if ltb now c.expires then some c.plan else none

    -- Lines 56 to 71: ask the database, and cache what it answers.
    unfoldable pub plan_answer :
        ℕ
        → String
        → Result SubscriptionPlan
        → World U S R Q
        → Option SubscriptionPlan × World U S R Q
    plan_answer now name (err e) w = (none, w)
    plan_answer now name (ok plan) w = (
      some plan,
      if ltb 0 b.plan_cache_ttl
          then record w {
            plan_cache = λ n.
                if n =ₛ name
                then some (record { plan = plan; expires = now + b.plan_cache_ttl })
                else w.plan_cache n;
          }
          else w,
    )

    unfoldable pub cached_plan : ℕ → String → World U S R Q → Option SubscriptionPlan
    cached_plan now name w =
        if ltb 0 b.plan_cache_ttl then fresh_plan now (w.plan_cache name) else none

    unfoldable pub lookup_plan :
        ℕ → String → World U S R Q → Option SubscriptionPlan × World U S R Q
    lookup_plan now name w = if name =ₛ "" then (none, w) else elim (cached_plan now name w) [
      | some plan ↦ (some plan, w)
      | none ↦ plan_answer now name (b.first_plan name) w
    ]
