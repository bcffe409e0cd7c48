-- ===== src/Tests/FakeBackend.antt =====
-- An auth-service whose tables are lists and whose libraries are simple functions, with one account.
use Prim.Native.String.{◌++◌ as concat}
use fyredocs_backend.Prelude.{
  true, false, ◌&&◌, ltb, ◌=ₛ◌, if◌then◌else◌, none, some, List, [], ◌∷◌,
}
use fyredocs_backend.Store.{ok, err, not_found}
use fyredocs_backend.Auth.Accounts.{User, SubscriptionPlan, AuthCredentials}
use fyredocs_backend.Auth.Rows.{UserSession, PasswordResetToken}
use fyredocs_backend.Auth.Issuer.{Claims, Issuer}
use fyredocs_backend.Auth.Backend.{World, Backend, Moment}
use fyredocs_backend.Tests.FakeTable.{list_table}

abbrev pub Rows : Type 0
Rows = World (List User) (List UserSession) (List PasswordResetToken) (Unit {0})

abbrev pub moment : Moment
moment = record { now = 1000; access_jti = "a1"; refresh_jti = "r1"; reset_token = ok "raw" }

abbrev pub later : Moment
later = record { now = 2000; access_jti = "a2"; refresh_jti = "r2"; reset_token = ok "raw2" }

-- The claims of the refresh token that `moment` issues to the account.
abbrev pub refresh_r1 : Claims
refresh_r1 = record {
  id = "r1";
  subject = "u1";
  issuer = "fyredocs";
  audience = "web";
  issued_at = 1000;
  expires_at = 605800;
  role = "";
  scope = [];
  impersonated_by = "";
}

abbrev pub fake_issuer : Issuer
fake_issuer = record {
  issuer = "fyredocs";
  audience = "web";
  sign = λ c. ok (concat "jwt:" c.id);
  parse =
      λ issuer audience now t. if t =ₛ "jwt:r1" && ltb now 605800 then some refresh_r1 else none;
}

abbrev pub pro : SubscriptionPlan
pro = record { name = "pro"; max_file_size_mb = 500; max_files_per_job = 50; retention_days = 30 }

abbrev pub fake_backend :
    Backend (List User) (List UserSession) (List PasswordResetToken) (Unit {0})
fake_backend = record {
  users = list_table;
  sessions = list_table;
  resets = list_table;
  first_plan = λ name. if name =ₛ "pro" then ok pro else err not_found;
  commit = ok tt;
  redis = none;
  denylist = none;
  issuer = fake_issuer;
  has_mailer = true;
  has_jet_stream = false;
  hash_token = λ t. concat "#" t;
  generate_hash = λ p. ok (concat "bc:" p);
  matches_hash = λ h p. h =ₛ concat "bc:" p;
  parse_uuid = λ id. some id;
  expiry_of = λ t. none;
  encode_plan = λ p. p.name;
  env = λ key. "";
  access_ttl = 28800;
  refresh_ttl = 604800;
  reset_ttl = 3600;
  plan_cache_ttl = 0;
}

abbrev pub alice : User
alice = record {
  id = "u1";
  email = "alice@x.org";
  full_name = "Alice";
  phone = "";
  country = "NL";
  image_url = "";
  password_hash = "bc:old-password";
  plan_name = "free";
  role = "admin";
}

abbrev pub open_session_row : UserSession
open_session_row = record {
  id = "a0";
  user_id = "u1";
  access_token_hash = "#acc";
  refresh_token_hash = some "#jwt:r1";
  access_expires_at = 5000;
  refresh_expires_at = some 605800;
}

abbrev pub reset_row : PasswordResetToken
reset_row = record {
  user_id = "u1";
  token_hash = "#link";
  expires_at = 4000;
  request_ip = "10.0.0.1";
}

abbrev pub rows : Rows
rows = record {
  users = alice ∷ [];
  sessions = open_session_row ∷ [];
  resets = reset_row ∷ [];
  redis = tt;
  plan_cache = λ name. none;
  events = [];
  mails = [];
}

abbrev pub bob_form : AuthCredentials
bob_form = record {
  email = " Bob@X.org ";
  password = "correct horse";
  full_name = "Bob";
  phone = "";
  country = "BE";
  image = "";
}
