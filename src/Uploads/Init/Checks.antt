-- ===== src/Uploads/Init/Checks.antt =====
-- What an upload has passed when it is started.
use native.Mathlib.Nat.{div-add-mod', mod-lt}
use fyredocs_backend.Prelude.{
  ℕ, ◌^◌, sym, ap, lt→ltb, ◌+◌, ◌-◌, ◌*◌, ◌≤◌, ◌<◌, ◌≡◌, ◌≢◌, refl, String, Bool, false, true,
  subst, not, ◌||◌, ltb, ◌=ₛ◌, if◌then◌else◌, Option, none, some, arith, eq_iff,
}
use fyredocs_backend.Prelude.Int.{ℤ, pos, negsuc, is_positive, to_nat, gtb_ℤ}
use fyredocs_backend.Text.Space.{trim_space}
use fyredocs_backend.Text.Paths.{base, has_slash, base-has_slash}
use fyredocs_backend.Config.{Env}
use fyredocs_backend.Http.{Reply, go, reply}
use fyredocs_backend.Uploads.Caller.{Caller}
use fyredocs_backend.Uploads.Parts.{
  min_part_size_bytes, max_upload_parts, sanitize_file_name, upload_part_size,
}
use fyredocs_backend.Uploads.Init.{UploadInitRequest, Plan, size_limit, parts_needed, check_init}

parts_cover :
    (s p : ℕ)
    → 0 < s
    → 0 < p
    → s < 2 ^ 52
    → (s ≤ parts_needed s p * p) × (parts_needed s p * p < s + p)
unfolding parts_needed
parts_cover s p h k exact =
    let whole = div-add-mod' (s + p - 1) p in
    let part = mod-lt (s + p - 1) k in
    let small = lt→ltb s (2 ^ 52) exact in (rw small (omega arith), rw small (omega arith))

min-le-upload_part_size : (env : Env) → min_part_size_bytes ≤ upload_part_size env
unfolding upload_part_size
min-le-upload_part_size env = ground arith

-- A single path element: one name below its directory.
pub record IsBaseName (name : String) : Type 0 where
  pub not_empty : name ≢ ""
  pub not_dot : name ≢ "."
  pub not_dots : name ≢ ".."
  pub no_slash : has_slash name ≡ false

pub sanitize_file_name-IsBaseName :
    (name : String) → sanitize_file_name name ≢ "" → IsBaseName (sanitize_file_name name)
unfolding sanitize_file_name
sanitize_file_name-IsBaseName name h =
    let b = base (trim_space name) in
    ground (arith, eq_iff b ".", eq_iff b "..", eq_iff b "/", base-has_slash (trim_space name))

positive_size : (n : ℤ) → is_positive n ≡ true → n ≡ pos (to_nat n)
positive_size (pos n) h = refl
positive_size (negsuc n) h = cc

default_type : (t : String) → (if t =ₛ "" then "application/octet-stream" else t) ≢ ""
default_type t h = ground (arith, eq_iff t "", eq_iff "application/octet-stream" "")

-- What a plan promises of its request.
pub record IsAdmissible (env : Env) (c : Caller) (req : UploadInitRequest) (plan : Plan)
    : Type 0 where
  pub name : plan.file_name ≡ sanitize_file_name req.file_name
  pub base_name : IsBaseName plan.file_name
  pub size : req.file_size ≡ pos plan.file_size
  pub positive : 0 < plan.file_size
  pub within_limit : gtb_ℤ (pos plan.file_size) (size_limit env c) ≡ false
  pub large_parts : min_part_size_bytes ≤ plan.part_size
  pub few_parts : plan.total_parts ≤ max_upload_parts
  -- The parts hold the file, and the last of them is needed.
  pub enough : plan.file_size ≤ plan.total_parts * plan.part_size
  pub tight : plan.total_parts * plan.part_size < plan.file_size + plan.part_size
  pub typed : plan.content_type ≢ ""

-- A run through three tests that goes on.
passed :
    {B : Type 0} (a b d : Bool) (r r' r'' : Reply B) (p plan : Plan)
    → (if a then reply r else if b then reply r' else if d then reply r'' else go p) ≡ go plan
    → (a ≡ false) × (b ≡ false) × (d ≡ false) × (p ≡ plan)
passed true b d r r' r'' p plan h = cc
passed false true d r r' r'' p plan h = cc
passed false false true r r' r'' p plan h = cc
passed false false false r r' r'' p plan h = (refl, refl, refl, ground arith)

-- An upload of a file below 2 ^ 52 bytes is started only for a request that binds, with a usable base
-- name as its file's name, a size above 0 and within the plan's limit, and a content type; it is cut
-- into at most 1000 parts of at least 5 MiB, which hold the file, and no fewer parts would.
pub check_init-IsAdmissible :
    (env : Env) (c : Caller) (body : Option UploadInitRequest) (B : Type 0) (plan : Plan)
    → check_init {B = B} env c body ≡ go plan
    → plan.file_size < 2 ^ 52
    → (req : UploadInitRequest) × (body ≡ some req) × IsAdmissible env c req plan
unfolding check_init
check_init-IsAdmissible env c none B plan h exact = cc
check_init-IsAdmissible env c (some req) B plan h exact =
    let (named, fits, few, same) =
      passed (sanitize_file_name req.file_name =ₛ "" || not (is_positive req.file_size))
        (gtb_ℤ req.file_size (size_limit env c))
        (ltb max_upload_parts (parts_needed (to_nat req.file_size) (upload_part_size env))) _ _ _ _
        plan h in
    let size : req.file_size ≡ pos (to_nat req.file_size) =
      positive_size req.file_size (ground arith) in
    let large = min-le-upload_part_size env in
    let cover =
      parts_cover (to_nat req.file_size) (upload_part_size env) (ground arith) (omega arith)
        (subst (λ n. n < 2 ^ 52) (sym (ap (λ p. p.file_size) same)) exact) in
    (
      req,
      refl,
      subst (IsAdmissible env c req) same (record {
        name = refl;
        base_name =
            sanitize_file_name-IsBaseName req.file_name
              (ground (arith, eq_iff (sanitize_file_name req.file_name) ""));
        size = size;
        positive = ground arith;
        within_limit = rw (← size) fits;
        large_parts = large;
        few_parts = ground arith;
        enough = cover.0;
        tight = cover.1;
        typed = default_type (trim_space req.content_type);
      }),
    )
