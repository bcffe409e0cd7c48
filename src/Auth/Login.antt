-- ===== src/Auth/Login.antt =====
-- Signing up and logging in (`Signup` and `Login` of auth-service/handlers/auth.go). A body that does
-- not bind is `none`.
pub mod Authentic
pub mod SignedUp
use Prim.Native.String.{len}
use fyredocs_backend.Prelude.{ℕ, String, ◌||◌, ltb, ◌=ₛ◌, if◌then◌else◌, Option, none, some}
use fyredocs_backend.Store.{Result, ok, err, not_found, broken}
use fyredocs_backend.Http.{Reply, failure, Flow, go, reply}
use fyredocs_backend.Text.Space.{trim_space}
use fyredocs_backend.Auth.Accounts.{User, AuthCredentials, normalize_email, is_duplicate_error}
use fyredocs_backend.Auth.Backend.{World, Backend, Moment, on_users, publish_event}
use fyredocs_backend.Auth.Grant.{Granted, respond_with_tokens}

abbrev pub invalid_credentials : Reply Granted
invalid_credentials = failure 401 "INVALID_CREDENTIALS"

module _ {U S R Q : Type 0} (b : Backend U S R Q) (m : Moment) where
  -- The checks of a new account's fields.
  unfoldable pub check_signup : AuthCredentials → Flow (ℕ × String) String
  check_signup p =
      let email = normalize_email p.email in
      if email =ₛ ""
        || trim_space p.password =ₛ ""
        || trim_space p.full_name =ₛ ""
        || trim_space p.country =ₛ ""
      then reply (400, "INVALID_INPUT")
      else if ltb (len p.password) 8
      then reply (400, "WEAK_PASSWORD")
      else if ltb 128 (len p.password)
      then reply (400, "INVALID_INPUT")
      else go email

  -- Lines 94 to 102.
  unfoldable pub check_unknown : Result User → Flow (ℕ × String) (Unit {0})
  check_unknown (ok existing) = reply (409, "USER_ALREADY_EXISTS")
  check_unknown (err not_found) = go tt
  check_unknown (err (broken e)) = reply (500, "SERVER_ERROR")

  -- The row that is inserted; the database fills in the fields left empty.
  unfoldable pub new_user : AuthCredentials → String → String → User
  new_user p email password_hash = record {
    id = "";
    email = email;
    full_name = trim_space p.full_name;
    phone = trim_space p.phone;
    country = trim_space p.country;
    image_url = trim_space p.image;
    password_hash = password_hash;
    plan_name = "";
    role = "";
  }

  -- A user has come in: the event, and the tokens.
  unfoldable pub welcome : String → User → World U S R Q → Reply Granted × World U S R Q
  welcome kind user w = respond_with_tokens b m user (publish_event b kind user.id user.plan_name w)

  -- Lines 119 to 130.
  unfoldable pub created : Result User × World U S R Q → Reply Granted × World U S R Q
  created (err e, w) =
      if is_duplicate_error e
      then (failure 409 "USER_ALREADY_EXISTS", w)
      else (failure 500 "SERVER_ERROR", w)
  created (ok user, w) = welcome "user.signup" user w

  -- Lines 104 to 130.
  unfoldable pub create_user :
      AuthCredentials → String → Result String → World U S R Q → Reply Granted × World U S R Q
  create_user p email (err e) w = (failure 500 "SERVER_ERROR", w)
  create_user p email (ok password_hash) w =
      created (on_users (b.users.create (new_user p email password_hash)) w)

  unfoldable pub signup : Option AuthCredentials → World U S R Q → Reply Granted × World U S R Q
  signup none w = (failure 400 "INVALID_INPUT", w)
  signup (some p) w = elim (check_signup p) [
    | reply (status, code) ↦ (failure status code, w)
    | go email ↦ elim (check_unknown (b.users.first (λ u. u.email =ₛ email) w.users)) [
      | reply (status, code) ↦ (failure status code, w)
      | go _ ↦ create_user p email (b.generate_hash p.password) w
    ]
  ]

  -- Lines 153 to 167.
  unfoldable pub check_password :
      String → Result User → World U S R Q → Reply Granted × World U S R Q
  check_password password (err e) w = (invalid_credentials, w)
  check_password password (ok user) w =
      let welcomed = welcome "user.login" user w in
      if b.matches_hash user.password_hash password then welcomed else (invalid_credentials, w)

  unfoldable pub login : Option AuthCredentials → World U S R Q → Reply Granted × World U S R Q
  login none w = (failure 400 "INVALID_INPUT", w)
  login (some p) w =
      let email = normalize_email p.email in
      if email =ₛ "" || trim_space p.password =ₛ ""
      then (invalid_credentials, w)
      else if ltb 128 (len p.password)
      then (invalid_credentials, w)
      else check_password p.password (b.users.first (λ u. u.email =ₛ email) w.users) w
