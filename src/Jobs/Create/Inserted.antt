-- ===== src/Jobs/Create/Inserted.antt =====
-- What a job's transaction has done (`CreateJobFromTool` of job-service/handlers/jobs.go), and how many
-- files a job is made of.
use fyredocs_backend.Prelude.{
  ℕ, ◌+◌, ◌≡◌, refl, sym, ap, ◌∙◌, subst, String, length, length-append, List, [], ◌∷◌, inl, inr,
  Bool-cases, arith,
}
use fyredocs_backend.Prelude.Int.{pos, gtb_ℤ}
use fyredocs_backend.Store.{Fault, Result, ok, err}
use fyredocs_backend.Store.Objects.{Objects}
use fyredocs_backend.Http.{Flow, go, reply}
use fyredocs_backend.Uploads.Caller.{Caller}
use fyredocs_backend.Jobs.Tools.{validate_file_type}
use fyredocs_backend.Jobs.Consume.{ConsumedUpload, ConsumeError, consume_upload}
use fyredocs_backend.Jobs.Create.{
  JobBackend, NewJob, Fresh, InputFile, insert_files, end_transaction, store_job,
}
use fyredocs_backend.Jobs.Create.Uploaded.{consume_next, consume_all}
use fyredocs_backend.Jobs.Create.Direct.{
  FormFile, store_next, store_files, store_direct_upload, direct_limit,
}

err-ok :
    {W : Type 0} {e : Fault} {w w' : W} → Path (Result (Unit {0}) × W) (err e, w) (ok tt, w') → ⊥
err-ok {W} {e} h =
    let k : Path (Result (Unit {0})) (err e) (ok tt) = ap (λ (x : Result (Unit {0}) × W). x.0) h in
    cc

reply-go :
    {W : Type 0} {e : ℕ × String} {l l' : List InputFile} {w w' : W}
    → Path (Flow (ℕ × String) (Unit {0}) × List InputFile × W) (reply e, l, w) (go tt, l', w')
    → ⊥
reply-go {W} {e} h =
    let k : Path (Flow (ℕ × String) (Unit {0})) (reply e) (go tt) =
      ap (λ (x : Flow (ℕ × String) (Unit {0}) × List InputFile × W). x.0) h in
    cc

module _ {W : Type 0} (b : JobBackend W) (c : Caller) (f : Fresh) where
  -- From one world to another by the rows of the files, one by one.
  pub data Inserted : W → List InputFile → W → Type 0 where
    done : {w : W} → Inserted w [] w
    row :
        {w v w' : W} {files : List InputFile} (file : InputFile)
        → b.insert_file f.job_id file w ≡ (ok tt, v)
        → Inserted v files w'
        → Inserted w (file ∷ files) w'

  -- The row of the job is inserted, then those of all its files, and it is all committed.
  pub record IsStored (job : NewJob) (files : List InputFile) (from w' : W) : Type 0 where
    pub start : W
    pub inserts : b.insert_job job from ≡ (ok tt, start)
    pub rows : Inserted start files w'
    pub commits : b.commit w' ≡ ok tt

  insert_files-Inserted :
      (files : List InputFile) (r : Result (Unit {0}) × W) (w' : W)
      → insert_files b c f files r ≡ (ok tt, w')
      → (w : W) × (r ≡ (ok tt, w)) × Inserted w files w'
  unfolding insert_files
  insert_files-Inserted [] (err e, w) w' h = absurd (err-ok h)
  insert_files-Inserted [] (ok tt, w) w' h =
      (w, refl, subst (Inserted w []) (ap (λ (x : Result (Unit {0}) × W). x.1) h) done)
  insert_files-Inserted (file ∷ files) (err e, w) w' h = absurd (err-ok h)
  insert_files-Inserted (file ∷ files) (ok tt, w) w' h =
      let (v, e, rest) = insert_files-Inserted files (b.insert_file f.job_id file w) w' h in
      (w, refl, row file e rest)

  after_commit : W → W → Result (Unit {0}) → Result (Unit {0}) × W
  after_commit before w (err e) = (err e, before)
  after_commit before w (ok _) = (ok tt, w)

  committed_only :
      (before w w' : W) (r : Result (Unit {0}))
      → after_commit before w r ≡ (ok tt, w')
      → (r ≡ ok tt) × (w ≡ w')
  unfolding after_commit
  committed_only before w w' (err e) h = absurd (err-ok h)
  committed_only before w w' (ok tt) h = (refl, ap (λ (x : Result (Unit {0}) × W). x.1) h)

  commit_stage :
      (before w : W) → end_transaction b c f before (ok tt, w) ≡ after_commit before w (b.commit w)
  unfolding end_transaction after_commit
  commit_stage before w = cases (b.commit w) refl
    where
      cases :
          (r : Result (Unit {0}))
          → b.commit w ≡ r
          → end_transaction b c f before (ok tt, w) ≡ after_commit before w (b.commit w)
      cases (err e) h = rw (h, end_transaction, after_commit) refl
      cases (ok tt) h = rw (h, end_transaction, after_commit) refl

  ended :
      (job : NewJob) (files : List InputFile) (from w' : W) (r : Result (Unit {0}) × W)
      → insert_files b c f files (b.insert_job job from) ≡ r
      → end_transaction b c f from r ≡ (ok tt, w')
      → IsStored job files from w'
  unfolding end_transaction
  ended job files from w' (err e, w) k h = absurd (err-ok h)
  ended job files from w' (ok tt, w) k h =
      let (commits, same) = committed_only from w w' (b.commit w) (sym (commit_stage from w) ∙ h) in
      let (v, inserts, rows) = insert_files-Inserted files (b.insert_job job from) w k in
      record {
        start = v;
        inserts = inserts;
        rows = subst (Inserted v files) same rows;
        commits = ap b.commit (sym same) ∙ commits;
      }

  pub store_job-IsStored :
      (job : NewJob) (files : List InputFile) (from w' : W)
      → store_job b c f job files from ≡ (ok tt, w')
      → IsStored job files from w'
  unfolding store_job
  store_job-IsStored job files from w' h = ended job files from w' _ refl h

  module _ (tool : String) where
    consume_next-length :
        (files out : List InputFile) (ids : List String) (r : Flow ConsumeError ConsumedUpload)
        (next : List InputFile → Flow ConsumeError (List InputFile))
        → ((files' : List InputFile)
            → next files' ≡ go out
            → length out ≡ length files' + length ids)
        → consume_next b c f tool files r next ≡ go out
        → length out ≡ length files + (1 + length ids)
    unfolding consume_next
    consume_next-length files out ids (reply e) next rest h = cc
    consume_next-length files out ids (go u) next rest h =
        omega (arith, rest _ h, length-append files (_ ∷ []))

    consume_all-length :
        (w : W) (files out : List InputFile) (ids : List String)
        → consume_all b c f tool w files ids ≡ go out
        → length out ≡ length files + length ids
    unfolding consume_all
    consume_all-length w files out [] h =
        let same : files ≡ out = cc in omega (arith, ap length same)
    consume_all-length w files out (id ∷ ids) h =
        let step =
          consume_next-length files out ids
            (consume_upload b.redis b.store b.env b.detect tool w id) _
            (λ files' k. consume_all-length w files' out ids k) h in
        omega (arith, step)

    -- One file is consumed for each upload.
    pub consumed-length :
        (w : W) (out : List InputFile) (ids : List String)
        → consume_all b c f tool w [] ids ≡ go out
        → length out ≡ length ids
    consumed-length w out ids h = omega (arith, consume_all-length w [] out ids h)

    module _ (s : Objects W) where
      store_next-length :
          (files out : List InputFile) (file : FormFile) (n : ℕ) (v : W)
          (next : List InputFile → W → Flow (ℕ × String) (Unit {0}) × List InputFile × W)
          (r : Flow (ℕ × String) String × W)
          → ((files' : List InputFile) (w : W)
              → next files' w ≡ (go tt, out, v)
              → length out ≡ length files' + n)
          → store_next b c f s tool files file next r ≡ (go tt, out, v)
          → length out ≡ length files + (1 + n)
      unfolding store_next
      store_next-length files out file n v next (reply e, w) rest h = absurd (reply-go h)
      store_next-length files out file n v next (go key, w) rest h =
          omega (arith, rest _ w h, length-append files (_ ∷ []))

      store_files-length :
          (files out : List InputFile) (forms : List FormFile) (w v : W)
          → store_files b c f s tool files forms w ≡ (go tt, out, v)
          → length out ≡ length files + length forms
      unfolding store_files
      store_files-length files out [] w v h =
          let same : files ≡ out =
            ap (λ (x : Flow (ℕ × String) (Unit {0}) × List InputFile × W). x.1) h in
          omega (arith, ap length same)
      store_files-length files out (file ∷ forms) w v h =
          elim (Bool-cases (gtb_ℤ (pos file.size) (direct_limit b c f s tool))) [
            | inl e ↦ absurd (reply-go (rw (store_files, e) at h))
            | inr e ↦ elim (Bool-cases (validate_file_type tool file.filename)) [
              | inr x ↦ absurd (reply-go (rw (store_files, e, x) at h))
              | inl x ↦
                  let step =
                    store_next-length files out file (length forms) v _
                      (store_direct_upload b c f s tool file w)
                      (λ files' w' k. store_files-length files' out forms w' v k)
                      (rw (store_files, e, x) at h) in
                  omega (arith, step)
            ]
          ]

      -- One file is stored for each file of the form.
      pub stored-length :
          (out : List InputFile) (forms : List FormFile) (w v : W)
          → store_files b c f s tool [] forms w ≡ (go tt, out, v)
          → length out ≡ length forms
      stored-length out forms w v h = omega (arith, store_files-length [] out forms w v h)
