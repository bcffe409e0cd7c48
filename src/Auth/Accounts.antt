-- ===== src/Auth/Accounts.antt =====
-- Accounts and plans (auth-service/internal/models/user.go), and the helpers of
-- auth-service/handlers/auth.go that compute on them. UUIDs are their canonical texts.
use text.Mathlib.Text.{starts_with}
use fyredocs_backend.Prelude.{ℕ, String, Bool, true, false, ◌||◌, ◌=ₛ◌, if◌then◌else◌, ◌≡◌, refl}
use fyredocs_backend.Store.{Fault, not_found, broken}
use fyredocs_backend.Text.Space.{trim_space, to_lower}

pub record User : Type 0 where
  pub id : String
  pub email : String
  pub full_name : String
  pub phone : String
  pub country : String
  pub image_url : String
  pub password_hash : String
  pub plan_name : String
  pub role : String

pub record SubscriptionPlan : Type 0 where
  pub name : String
  pub max_file_size_mb : ℕ
  pub max_files_per_job : ℕ
  pub retention_days : ℕ

pub record AuthCredentials : Type 0 where
  pub email : String
  pub password : String
  pub full_name : String
  pub phone : String
  pub country : String
  pub image : String

-- What clients see of a user.
pub record AuthUser : Type 0 where
  pub id : String
  pub email : String
  pub full_name : String
  pub phone : String
  pub country : String
  pub image : String
  pub role : String
  pub plan_name : String

unfoldable pub normalize_email : String → String
normalize_email raw = to_lower (trim_space raw)

-- The first text that is not blank.
abbrev pub unless_blank : String → String → String
unless_blank s t = if trim_space s =ₛ "" then t else s

unfoldable pub build_user_response : User → String → SubscriptionPlan → AuthUser
build_user_response user role plan = record {
  id = user.id;
  email = user.email;
  full_name = user.full_name;
  phone = user.phone;
  country = user.country;
  image = user.image_url;
  role = unless_blank (unless_blank user.role role) "user";
  plan_name = unless_blank plan.name user.plan_name;
}

-- The role that a token is issued for.
unfoldable pub token_role : User → String
token_role user = if user.role =ₛ "" then "user" else user.role

-- The plan of a user whose plan cannot be found.
abbrev pub free_plan : SubscriptionPlan
free_plan = record {
  name = "free";
  max_file_size_mb = 25;
  max_files_per_job = 10;
  retention_days = 7;
}

unfoldable pub can_change_plan : String → Bool
can_change_plan role = let r = trim_space role in r =ₛ "admin" || r =ₛ "super-admin"

-- strings.Contains
unfoldable pub contains : String → String → Bool
contains String.[] t = t =ₛ ""
contains (String.◌∷◌ c s) t = let rest = contains s t in starts_with (String.◌∷◌ c s) t || rest

-- The text of `gorm.ErrDuplicatedKey` is "duplicated key not allowed".
unfoldable pub is_duplicate_error : Fault → Bool
is_duplicate_error not_found = false
is_duplicate_error (broken e) =
    let lower = to_lower e in contains lower "duplicate" || contains lower "unique"

duplicates :
    is_duplicate_error (broken "ERROR: Duplicate key value violates users_email_key") ≡ true
unfolding is_duplicate_error contains to_lower
duplicates = refl
