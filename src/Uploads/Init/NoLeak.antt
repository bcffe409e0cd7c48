-- ===== src/Uploads/Init/NoLeak.antt =====
-- A failed start leaves no multipart upload behind.
use fyredocs_backend.Prelude.{
  ℕ, String, Bool, true, false, not, ◌&&◌, ◌≡◌, refl, ◌∙◌, subst, List, ◌=ₛ◌, if◌then◌else◌, arith,
  eq_iff,
}
use fyredocs_backend.Store.{Result, ok, err}
use fyredocs_backend.Store.Redis.{Redis, Fields}
use fyredocs_backend.Store.Objects.{Objects}
use fyredocs_backend.Http.{Reply, success}
use fyredocs_backend.Uploads.Caller.{Caller}
use fyredocs_backend.Uploads.Parts.{UploadPartUrl}
use fyredocs_backend.Uploads.Init.{
  Plan, Moment, Started, abort, record_session, presign_session, after_create, start_upload,
  the_key,
}

-- Multipart uploads by their ids: creating opens one, aborting closes it, and Redis has none.
pub record MultipartLaws {W : Type 0} (redis : Redis W) (store : Objects W)
    (opened : W → String → Bool) : Type 0 where
  pub create_ok :
      (b k t id : String) (w : W)
      → (store.create_multipart b k t w).0 ≡ ok id
      → (opened w id ≡ false)
        × ((j : String)
            → opened (store.create_multipart b k t w).1 j ≡ (if id =ₛ j then true else opened w j))
  pub abort_closes :
      (b k id : String) (w : W)
      → (store.abort_multipart b k id w).0 ≡ ok tt
      → (j : String) → opened (store.abort_multipart b k id w).1 j ≡ (opened w j && not (id =ₛ j))
  pub hset_expire_keeps :
      (k : String) (fs : Fields) (t : ℕ) (w : W) (j : String)
      → opened (redis.hset_expire k fs t w).1 j ≡ opened w j

module _ {W : Type 0} (redis : Redis W) (store : Objects W) (opened : W → String → Bool)
    (laws : MultipartLaws redis store opened)
    (abort_works : (b k id : String) (w : W) → (store.abort_multipart b k id w).0 ≡ ok tt)
    (m : Moment) (c : Caller) (plan : Plan) where
  -- Either the upload has started, or the uploads that are open are those of the world `w₀`.
  pub data Clean (w₀ : W) (r : Reply Started × W) : Type 0 where
    started : (s : Started) → r.0 ≡ success 201 s → Clean w₀ r
    unchanged : ((j : String) → opened r.1 j ≡ opened w₀ j) → Clean w₀ r

  -- `id` is the one upload opened since `w₀`.
  Added : W → String → W → Type 0
  Added w₀ id w =
      (opened w₀ id ≡ false) × ((j : String) → opened w j ≡ (if id =ₛ j then true else opened w₀ j))

  abort_undoes :
      (w₀ w : W) (id : String)
      → Added w₀ id w
      → (j : String) → opened (abort redis store m c plan id w) j ≡ opened w₀ j
  unfolding abort Added
  abort_undoes w₀ w id a j =
      let b = store.bucket_uploads in
      let k = the_key redis store m c plan in
      ground (arith, laws.abort_closes b k id w (abort_works b k id w) j, a.1 j, eq_iff id j)

  record_session-Clean :
      (w₀ w : W) (id : String) (parts : List UploadPartUrl) (r : Result (Unit {0}) × W)
      → Added w₀ id r.1
      → Clean w₀ (record_session redis store m c plan id parts r)
  unfolding record_session
  record_session-Clean w₀ w id parts (ok u, w') a = started _ refl
  record_session-Clean w₀ w id parts (err e, w') a = unchanged (abort_undoes w₀ w' id a)

  presign_session-Clean :
      (w₀ w : W) (id : String) (r : Result (List UploadPartUrl))
      → Added w₀ id w
      → Clean w₀ (presign_session redis store m c plan id r w)
  unfolding presign_session Added
  presign_session-Clean w₀ w id (err e) a = unchanged (abort_undoes w₀ w id a)
  presign_session-Clean w₀ w id (ok parts) a =
      record_session-Clean w₀ w id parts _ (a.0, λ j. laws.hset_expire_keeps _ _ _ w j ∙ a.1 j)

  after_create-Clean :
      (w₀ : W) (r : Result String × W) (id : String)
      → r.0 ≡ ok id
      → Added w₀ id r.1
      → Clean w₀ (after_create redis store m c plan r)
  unfolding after_create
  after_create-Clean w₀ (err e, w) id h a = cc
  after_create-Clean w₀ (ok id', w) id h a =
      presign_session-Clean w₀ w id' _ (subst (λ x. Added w₀ x w) (ground arith) a)

  -- Once the store has opened the multipart upload, a start that does not reply 201 has aborted it:
  -- the open uploads are those from before. Aborts are taken to succeed.
  pub start_upload-no_leak :
      (w : W) (id : String)
      → (store.create_multipart store.bucket_uploads
          (the_key redis store m c plan)
          plan.content_type
          w).0
        ≡ ok id
      → Clean w (start_upload redis store m c plan w)
  unfolding start_upload Added
  start_upload-no_leak w id h = after_create-Clean w _ id h (laws.create_ok _ _ _ id w h)
