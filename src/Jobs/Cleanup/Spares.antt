-- ===== src/Jobs/Cleanup/Spares.antt =====
-- Reaping expired upload sessions spares the uploads that jobs have consumed (`cleanupUploadState` of
-- job-service/internal/cleanup/cleanup.go).
use fyredocs_backend.Prelude.{
  ℕ, ◌-◌, ◌*◌, String, Bool, true, false, ltb, List, [], ◌∷◌, Option, none, some, ◌≡◌, refl, ap,
  ◌∙◌, inl, inr, Bool-cases, ◌=ₛ◌, eq_iff, if◌then◌else◌,
}
use Prim.Native.String.{◌++◌ as concat}
use fyredocs_backend.Store.{Result, ok, err}
use fyredocs_backend.Store.Redis.{Fields}
use fyredocs_backend.Uploads.Session.{field}
use fyredocs_backend.Auth.Accounts.{contains}
use fyredocs_backend.Jobs.Cleanup.{
  SweepBackend, is_referenced, upload_object_consumed, reap_expired_upload_objects, reap_if_old,
  reap_state, reap_keys, cleanup_upload_state,
}

-- Objects of the bucket of uploads, under removals, and the references to them, which neither Redis
-- nor the object store holds. A removal touches the object named alone.
pub record ObjectLaws {W : Type 0} (b : SweepBackend W) (there : W → String → Bool) : Type 0 where
  pub remove_other :
      (key other : String) (w : W)
      → (key =ₛ other) ≡ false
      → there (b.store.remove_object b.store.bucket_uploads key w).1 other ≡ there w other
  pub remove_count :
      (key other : String) (w : W)
      → b.count_paths (b.store.remove_object b.store.bucket_uploads key w).1 other
        ≡ b.count_paths w other
  pub abort_same :
      (key id other : String) (w : W)
      → (there (b.store.abort_multipart b.store.bucket_uploads key id w).1 other ≡ there w other)
        × (b.count_paths (b.store.abort_multipart b.store.bucket_uploads key id w).1 other
            ≡ b.count_paths w other)
  pub del_same :
      (keys : List String) (other : String) (w : W)
      → (there (b.redis.del keys w).1 other ≡ there w other)
        × (b.count_paths (b.redis.del keys w).1 other ≡ b.count_paths w other)

module _ {W : Type 0} (b : SweepBackend W) (there : W → String → Bool) (laws : ObjectLaws b there)
    (object : String) where
  -- The object is as it was, and so are the references to it.
  abbrev Spared : W → W → Type 0
  Spared w w' =
      (there w' object ≡ there w object) × (b.count_paths w' object ≡ b.count_paths w object)

  Spared-trans : {u v w : W} → Spared u v → Spared v w → Spared u w
  Spared-trans p q = (q.0 ∙ p.0, q.1 ∙ p.1)

  -- Of two worlds chosen between, both spare the object.
  Spared-if : (t : Bool) (w v v' : W) → Spared w v → Spared w v' → Spared w (if t then v else v')
  Spared-if true w v v' p q = p
  Spared-if false w v v' p q = q

  reap-Spared :
      (key id : String) (w : W)
      → upload_object_consumed b w object ≡ true
      → Spared w (reap_expired_upload_objects b key id w)
  unfolding reap_expired_upload_objects upload_object_consumed
  reap-Spared key id w used =
      let aborted = (b.store.abort_multipart b.store.bucket_uploads key id w).1 in
      let w' = if id =ₛ "" then w else aborted in
      let s : Spared w w' =
        Spared-if (id =ₛ "") w w aborted (refl, refl) (laws.abort_same key id object w) in
      elim (Bool-cases (key =ₛ "")) [
        | inl e ↦ rw (reap_expired_upload_objects, e) (refl, refl)
        | inr e ↦ elim (Bool-cases (is_referenced b (b.count_paths w' key))) [
          | inl c ↦ rw (reap_expired_upload_objects, e, c) s
          | inr c ↦ elim (Bool-cases (key =ₛ object)) [
            | inl k ↦
                let same = (eq_iff key object).0 k in
                let kept = s.1 in absurd (clash _ _ (ap (b.count_paths w') same ∙ kept) used c)
            | inr k ↦
                rw (reap_expired_upload_objects, e, c)
                  (Spared-trans s
                    (laws.remove_other key object w' k, laws.remove_count key object w'))
          ]
        ]
      ]
    where
      clash : (x y : Result ℕ) → x ≡ y → is_referenced b y ≡ true → is_referenced b x ≡ false → ⊥
      clash x y e t f = cc

  -- The references are read again in every world that spares the object.
  still_used :
      (w w' : W)
      → Spared w w'
      → upload_object_consumed b w object ≡ true
      → upload_object_consumed b w' object ≡ true
  unfolding upload_object_consumed
  still_used w w' s used = ap (is_referenced b) s.1 ∙ used

  reap_if_old-Spared :
      (now : ℕ) (key : String) (state : Fields) (created : Option ℕ) (w : W)
      → upload_object_consumed b w object ≡ true
      → Spared w (reap_if_old b now key state created w)
  unfolding reap_if_old
  reap_if_old-Spared now key state none w used = (refl, refl)
  reap_if_old-Spared now key state (some t) w used =
      let deleted = laws.del_same (key ∷ concat key ":chunks" ∷ []) object w in
      Spared-if (ltb (2 * b.upload_ttl) (now - t)) w _ w
        (Spared-trans deleted (
          reap-Spared (field state "key") (field state "s3UploadId") _
            (still_used w _ deleted used)))
        (refl, refl)

  reap_state-Spared :
      (now : ℕ) (key : String) (state : Result Fields) (w : W)
      → upload_object_consumed b w object ≡ true
      → Spared w (reap_state b now key state w)
  unfolding reap_state
  reap_state-Spared now key (err e) w used = (refl, refl)
  reap_state-Spared now key (ok state) w used =
      Spared-if (field state "createdAt" =ₛ "") w w _ (refl, refl)
        (reap_if_old-Spared now key state _ w used)

  reap_keys-Spared :
      (now : ℕ) (keys : List String) (w : W)
      → upload_object_consumed b w object ≡ true
      → Spared w (reap_keys b now keys w)
  unfolding reap_keys
  reap_keys-Spared now [] w used = (refl, refl)
  reap_keys-Spared now (key ∷ keys) w used =
      let s =
        Spared-if (contains key ":chunks") w w _ (refl, refl)
          (reap_state-Spared now key (b.redis.hget_all w key) w used) in
      Spared-trans s (reap_keys-Spared now keys _ (still_used w _ s used))

  -- Reaping the expired upload sessions leaves an object of the bucket of uploads, there or not, as
  -- it is if a job's file refers to it, or if the query for that fails, whatever the sessions say.
  pub cleanup_upload_state-spares :
      (now : ℕ) (w : W)
      → upload_object_consumed b w object ≡ true
      → there (cleanup_upload_state b now w) object ≡ there w object
  unfolding cleanup_upload_state
  cleanup_upload_state-spares now w used = (reap_keys-Spared now (b.scan w "upload:*") w used).0
