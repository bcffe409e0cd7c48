-- ===== src/Config.antt =====
-- Configuration read from the environment (shared/config). `env` is `os.Getenv`: the value of a
-- variable, or the empty text.
use fyredocs_backend.Prelude.{
  ℕ, ◌*◌, ◌%◌, ◌^◌, String, Bool, true, false, ◌||◌, Option, none, some, ◌=ₛ◌, if◌then◌else◌,
}
use fyredocs_backend.Prelude.Int.{ℤ, pos, is_positive, to_nat, to_int64}
use fyredocs_backend.Text.Space.{trim_space, to_lower}
use fyredocs_backend.Text.Decimal.{atoi}

abbrev pub Env : Type 0
Env = String → String

abbrev pub or_else : Option ℤ → ℤ → ℤ
or_else none d = d
or_else (some n) d = n

unfoldable pub get_env : Env → String → String → String
get_env env key fallback =
    let value = trim_space (env key) in if value =ₛ "" then fallback else value

unfoldable pub get_env_bool : Env → String → Bool → Bool
get_env_bool env key fallback =
    let value = trim_space (env key) in
    let v = to_lower value in
    if value =ₛ ""
    then fallback
    else if v =ₛ "1" || v =ₛ "true" || v =ₛ "yes" || v =ₛ "y"
    then true
    else if v =ₛ "0" || v =ₛ "false" || v =ₛ "no" || v =ₛ "n"
    then false
    else fallback

unfoldable pub get_env_int : Env → String → ℤ → ℤ
get_env_int env key fallback = if env key =ₛ "" then fallback else or_else (atoi (env key)) fallback

-- A value above 0, or the fallback.
abbrev pub positive_or : ℕ → ℤ → ℕ
positive_or d n = if is_positive n then to_nat n else d

unfoldable pub guest_max_file_size_mb : Env → ℕ
unfolding get_env_int
guest_max_file_size_mb env = positive_or 20 (get_env_int env "GUEST_MAX_FILE_MB" (pos 20))

unfoldable pub guest_max_files_per_job : Env → ℕ
unfolding get_env_int
guest_max_files_per_job env = positive_or 5 (get_env_int env "GUEST_MAX_FILES" (pos 5))

-- An int64 product: it wraps round.
unfoldable pub max_upload_bytes : Env → ℤ
unfolding get_env_int
max_upload_bytes env =
    to_int64 (positive_or 500 (get_env_int env "MAX_UPLOAD_MB" (pos 500)) * 1048576 % 2 ^ 64)
