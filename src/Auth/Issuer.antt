-- ===== src/Auth/Issuer.antt =====
-- The issuer of JWTs (auth-service/internal/token/issuer.go). Signing, parsing and random UUIDs are
-- the libraries' and so parameters; times are instants in seconds.
use fyredocs_backend.Prelude.{ℕ, ◌+◌, String, List, [], Option, none, some, ◌=ₛ◌, if◌then◌else◌}
use fyredocs_backend.Store.{Result, ok, err}
use fyredocs_backend.Text.Space.{trim_space}

pub record Claims : Type 0 where
  pub id : String
  pub subject : String
  pub issuer : String
  pub audience : String
  pub issued_at : ℕ
  pub expires_at : ℕ
  pub role : String
  pub scope : List String
  pub impersonated_by : String

-- `sign` is `SignedString` with the secret; `parse` is `jwt.ParseWithClaims`, which checks the
-- signature, the issuer, the audience and, at the time it is given, the expiry.
pub record Issuer : Type 0 where
  pub issuer : String
  pub audience : String
  pub sign : Claims → Result String
  pub parse : String → String → ℕ → String → Option Claims

pub record Issued : Type 0 where
  pub token : String
  pub jti : String
  pub expires_at : ℕ

module _ (i : Issuer) (now : ℕ) where
  -- What the three kinds of token are made of; `jti` is the fresh UUID.
  unfoldable pub claims_for : String → String → String → List String → String → ℕ → Claims
  claims_for jti uid role scope impersonated_by ttl = record {
    id = jti;
    subject = trim_space uid;
    issuer = i.issuer;
    audience = i.audience;
    issued_at = now;
    expires_at = now + ttl;
    role = trim_space role;
    scope = scope;
    impersonated_by = trim_space impersonated_by;
  }

  unfoldable pub signed : String → ℕ → Result String → Result Issued
  signed jti ttl (err e) = err e
  signed jti ttl (ok t) = ok (record { token = t; jti = jti; expires_at = now + ttl })

  unfoldable pub issue_access_token : String → String → String → List String → ℕ → Result Issued
  issue_access_token jti uid role scope ttl =
      signed jti ttl (i.sign (claims_for jti uid role scope "" ttl))

  unfoldable pub issue_impersonation_token :
      String → String → String → List String → String → ℕ → Result Issued
  issue_impersonation_token jti uid role scope admin ttl =
      signed jti ttl (i.sign (claims_for jti uid role scope admin ttl))

  -- Only the registered claims are set; the others are left out of the token.
  unfoldable pub issue_refresh_token : String → String → ℕ → Result Issued
  issue_refresh_token jti uid ttl = signed jti ttl (i.sign (claims_for jti uid "" [] "" ttl))

  unfoldable pub subject_of : Option Claims → Option String
  subject_of none = none
  subject_of (some c) = if c.subject =ₛ "" then none else some c.subject

  unfoldable pub verify_refresh_token : String → Option String
  verify_refresh_token t = subject_of (i.parse i.issuer i.audience now t)
