-- ===== src/Jobs/Create/Restores/Direct.antt =====
-- The multipart branch: the object store is not Redis.
use fyredocs_backend.Prelude.{
  ℕ, ◌∷◌, ◌≡◌, refl, ap, ◌∙◌, String, Bool, ◌=ₛ◌, ltb, length, Option, none, some, List, [], inl,
  inr, Bool-cases, Option-cases,
}
use fyredocs_backend.Prelude.Int.{pos, gtb_ℤ}
use fyredocs_backend.Store.{Result, ok, err}
use fyredocs_backend.Store.Objects.{Objects}
use fyredocs_backend.Http.{success, failure, Flow, go, reply}
use fyredocs_backend.Uploads.Caller.{Caller, plan_max_files_per_job}
use fyredocs_backend.Jobs.Create.{
  JobBackend, Fresh, InputFile, Outcome, not_committed, committed, queued,
}
use fyredocs_backend.Uploads.Parts.{sanitize_file_name}
use fyredocs_backend.Jobs.Tools.{validate_file_type, validate_mime_head}
use fyredocs_backend.Jobs.Create.Direct.{
  FormFile, Form, first_or_empty, put_direct, store_read, store_direct_upload, direct_limit,
  store_next, store_files, remove_direct, remove_unless_queued, queue_stored, create_direct_from,
  first_filename, create_direct,
}
use fyredocs_backend.Jobs.Create.Restores.{Kept, queue_job-Kept}

module _ {W : Type 0} (present : W → String → Bool) (b : JobBackend W) (c : Caller) (f : Fresh)
    (s : Objects W) (tool : String)
    (quiet : (kind tool : String) (w : W) (j : String)
      → present (b.publish_limit_hit kind tool w) j ≡ present w j)
    (put_quiet : (bucket key : String) (size : ℕ) (w : W) (j : String)
      → present (s.put_object bucket key size w).1 j ≡ present w j)
    (remove_quiet : (bucket key : String) (w : W) (j : String)
      → present (s.remove_object bucket key w).1 j ≡ present w j) where
  put_direct-world :
      (key : String) (r : Result (Unit {0}) × W) → (put_direct b c f s tool key r).1 ≡ r.1
  unfolding put_direct
  put_direct-world key (err e, w) = refl
  put_direct-world key (ok _, w) = refl

  store_read-Same :
      (name : String) (size : ℕ) (head : Result String) (w : W) (j : String)
      → present (store_read b c f s tool name size head w).1 j ≡ present w j
  unfolding store_read
  store_read-Same name size (err e) w j = refl
  store_read-Same name size (ok head) w j =
      elim (Bool-cases (validate_mime_head tool (b.detect head))) [
        | inl m ↦
            rw (store_read, m)
              (ap (λ v. present v j) (put_direct-world _ _) ∙ put_quiet _ _ size w j)
        | inr m ↦ rw (store_read, m) refl
      ]

  upload-Same :
      (file : FormFile) (w : W) (j : String)
      → present (store_direct_upload b c f s tool file w).1 j ≡ present w j
  unfolding store_direct_upload
  upload-Same file w j = elim (Bool-cases (sanitize_file_name file.filename =ₛ "")) [
    | inl e ↦ rw (store_direct_upload, e) refl
    | inr e ↦ rw (store_direct_upload, e) (store_read-Same _ file.size file.head w j)
  ]

  next-Same :
      (done : List InputFile) (file : FormFile)
      (next : List InputFile → W → Flow (ℕ × String) (Unit {0}) × List InputFile × W)
      (r : Flow (ℕ × String) String × W) (j : String)
      → ((done' : List InputFile) (v : W) → present (next done' v).2 j ≡ present v j)
      → present (store_next b c f s tool done file next r).2 j ≡ present r.1 j
  unfolding store_next
  next-Same done file next (reply e, w) j rest = refl
  next-Same done file next (go key, w) j rest = rest _ w

  store_files-Same :
      (done : List InputFile) (files : List FormFile) (w : W) (j : String)
      → present (store_files b c f s tool done files w).2 j ≡ present w j
  unfolding store_files
  store_files-Same done [] w j = refl
  store_files-Same done (file ∷ files) w j =
      elim (Bool-cases (gtb_ℤ (pos file.size) (direct_limit b c f s tool))) [
        | inl g ↦ rw (store_files, g) (quiet "max_file_size" tool w j)
        | inr g ↦ elim (Bool-cases (validate_file_type tool file.filename)) [
          | inl v ↦
              rw (store_files, g, v)
                (next-Same done file _ (store_direct_upload b c f s tool file w) j
                    (λ done' u. store_files-Same done' files u j)
                  ∙ upload-Same file w j)
          | inr v ↦ rw (store_files, g, v) refl
        ]
      ]

  remove_direct-Same :
      (files : List InputFile) (w : W) (j : String)
      → present (remove_direct b c f s tool files w) j ≡ present w j
  unfolding remove_direct
  remove_direct-Same [] w j = refl
  remove_direct-Same (x ∷ xs) w j = remove_direct-Same xs _ j ∙ remove_quiet _ x.path w j

  remove-Kept :
      (files : List InputFile) (w v : W) (o : Outcome W)
      → ((j : String) → present v j ≡ present w j)
      → Kept b c f present v o
      → Kept b c f present w (remove_unless_queued b c f s tool files o)
  unfolding remove_unless_queued
  remove-Kept files w v (success n x, not_committed, u) e k = tt
  remove-Kept files w v (success n x, committed, u) e k = tt
  remove-Kept files w v (success n x, queued, u) e k = tt
  remove-Kept files w v (failure n x, not_committed, u) e k =
      λ j. remove_direct-Same files u j ∙ (k j ∙ e j)
  remove-Kept files w v (failure n x, committed, u) e k = tt
  remove-Kept files w v (failure n x, queued, u) e k = tt

  queue_stored-Kept :
      (name options : String) (w : W) (r : Flow (ℕ × String) (Unit {0}) × List InputFile × W)
      → ((j : String) → present r.2 j ≡ present w j)
      → Kept b c f present w (queue_stored b c f s tool name options r)
  unfolding queue_stored
  queue_stored-Kept name options w (reply (status, code), files, v) e =
      remove-Kept files w v (failure status code, not_committed, v) e (λ j. refl)
  queue_stored-Kept name options w (go _, files, v) e =
      remove-Kept files w v _ e (queue_job-Kept b c f present tool _ v)

  create_direct_from-Kept :
      (name : String) (form : Form) (w : W)
      → Kept b c f present w (create_direct_from b c f s tool name form w)
  unfolding create_direct_from
  create_direct_from-Kept name form w =
      elim (Bool-cases (ltb (plan_max_files_per_job b.env c) (length form.files))) [
        | inl m ↦ rw (create_direct_from, m) (quiet "max_files" tool w)
        | inr m ↦ elim (Bool-cases (b.check_options tool (first_or_empty form.options))) [
          | inl o ↦
              rw (create_direct_from, m, o)
                (queue_stored-Kept name _ w _ (store_files-Same [] form.files w))
          | inr o ↦ rw (create_direct_from, m, o) (λ j. refl)
        ]
      ]

  pub create_direct-Kept :
      (form : Option Form) (w : W) → Kept b c f present w (create_direct b c f s tool form w)
  unfolding create_direct
  create_direct-Kept none w = λ j. refl
  create_direct-Kept (some form) w = elim (Option-cases (first_filename b c f s tool form.files)) [
    | inl e ↦ rw (create_direct, e) (λ j. refl)
    | inr (name, e) ↦ rw (create_direct, e) (create_direct_from-Kept name form w)
  ]
