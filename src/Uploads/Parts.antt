-- ===== src/Uploads/Parts.antt =====
-- Part numbers, part sizes and part URLs (`presignParts`, `allPartNumbers`, `parsePartNumbers`,
-- `sanitizeFileName` and `uploadPartSize` of job-service/handlers/uploads.go).
use Prim.Native.Char.{Char, code}
use fyredocs_backend.Prelude.{
  ℕ, zero, suc, ◌+◌, ◌*◌, ◌%◌, ◌^◌, String, ◌||◌, ◌&&◌, Option, none, some, List, [], ◌∷◌, ltb, leb,
  ◌==◌, ◌=ₛ◌, if◌then◌else◌,
}
use fyredocs_backend.Prelude.Int.{ℤ, pos, negsuc, is_positive, to_nat, to_int64}
use fyredocs_backend.Text.Space.{trim_space}
use fyredocs_backend.Text.Paths.{base}
use fyredocs_backend.Text.Decimal.{atoi}
use fyredocs_backend.Config.{Env}
use fyredocs_backend.Store.{Result, ok, err}
use fyredocs_backend.Store.Objects.{Objects}

pub record UploadPartUrl : Type 0 where
  pub part_number : ℕ
  pub url : String

abbrev pub max_upload_parts : ℕ
max_upload_parts = 1000

abbrev pub min_part_size_bytes : ℕ
min_part_size_bytes = 5 * 1024 * 1024

abbrev pub default_part_size_mb : ℕ
default_part_size_mb = 8

abbrev extend_field : Char → List String → List String
extend_field c [] = String.◌∷◌ c "" ∷ []
extend_field c (f ∷ fs) = String.◌∷◌ c f ∷ fs

-- `strings.Split(s, ",")`
unfoldable pub split_comma : String → List String
split_comma String.[] = "" ∷ []
split_comma (String.◌∷◌ c s) =
    let rest = split_comma s in if code c == b',' then "" ∷ rest else extend_field c rest

-- start, start + 1, … (n numbers)
unfoldable pub numbers_from : ℕ → ℕ → List ℕ
numbers_from start zero = []
numbers_from start (suc n) = start ∷ numbers_from (start + 1) n

unfoldable pub all_part_numbers : ℕ → List ℕ
unfolding numbers_from
all_part_numbers total = numbers_from 1 total

-- A number within [1, total].
abbrev part_in : ℕ → Option ℤ → Option ℕ
part_in total none = none
part_in total (some n) = if is_positive n && leb (to_nat n) total then some (to_nat n) else none

abbrev push_part : Option ℕ → Option (List ℕ) → Option (List ℕ)
push_part (some n) (some ns) = some (n ∷ ns)
push_part _ _ = none

parse_fields : ℕ → List String → Option (List ℕ)
parse_fields total [] = some []
parse_fields total (f ∷ fs) =
    push_part (part_in total (atoi (trim_space f))) (parse_fields total fs)

-- `none` is the error that names the offending field.
unfoldable pub parse_part_numbers : String → ℕ → Option (List ℕ)
unfolding parse_fields
parse_part_numbers raw total =
    if trim_space raw =ₛ ""
    then some (all_part_numbers total)
    else parse_fields total (split_comma raw)

-- "" if nothing usable remains.
unfoldable pub sanitize_file_name : String → String
sanitize_file_name name =
    let b = base (trim_space name) in if b =ₛ "." || b =ₛ ".." || b =ₛ "/" then "" else b

-- The megabytes of UPLOAD_PART_SIZE_MB, as an int64 number of bytes: the product wraps round, and a
-- negative one is below the minimum.
abbrev part_size_mb : Option ℤ → ℕ
part_size_mb none = default_part_size_mb
part_size_mb (some n) = if is_positive n then to_nat n else default_part_size_mb

abbrev at_least_min : ℤ → ℕ
at_least_min (negsuc n) = min_part_size_bytes
at_least_min (pos n) = if ltb n min_part_size_bytes then min_part_size_bytes else n

unfoldable pub upload_part_size : Env → ℕ
upload_part_size env =
    let value = env "UPLOAD_PART_SIZE_MB" in
    let mb = if value =ₛ "" then default_part_size_mb else part_size_mb (atoi value) in
    at_least_min (to_int64 (mb * 1048576 % 2 ^ 64))

abbrev push_url : ℕ → Result String → Result (List UploadPartUrl) → Result (List UploadPartUrl)
push_url n (ok u) (ok us) = ok (record { part_number = n; url = u } ∷ us)
push_url n (ok u) (err e) = err e
push_url n (err e) us = err e

-- The first failure ends the loop.
unfoldable pub presign_parts :
    {W : Type 0} → Objects W → W → String → String → String → List ℕ → Result (List UploadPartUrl)
presign_parts store w bucket key id [] = ok []
presign_parts store w bucket key id (n ∷ ns) =
    push_url n (store.presign_upload_part w bucket key id n)
      (presign_parts store w bucket key id ns)
