-- ===== src/Tests/SweepTests.antt =====
-- The sweep at concrete inputs.
use fyredocs_backend.Prelude.{
  ℕ, zero, suc, ◌≤◌, String, Bool, true, false, not, ◌||◌, length, any, filter, List, [], ◌∷◌, ◌++◌,
  ◌≡◌, refl, ap, ◌⊎◌, inl, inr, Bool-cases, arith, ◌=ₛ◌, eq_iff, some, if◌then◌else◌,
}
use fyredocs_backend.Store.{ok, err, not_found}
use fyredocs_backend.Store.Redis.{Redis}
use fyredocs_backend.Store.Objects.{Objects}
use fyredocs_backend.Jobs.Cleanup.{
  SweepBackend, batch_size, cleanup_expired_jobs, cleanup_upload_state, upload_object_consumed,
  is_referenced,
}
use fyredocs_backend.Jobs.Cleanup.Completes.{BatchLaws, listed, cleanup_expired_jobs-completes}
use fyredocs_backend.Jobs.Cleanup.Spares.{ObjectLaws, cleanup_upload_state-spares}

-- The expired jobs, and the objects in the bucket of uploads.
record Shelf : Type 0 where
  jobs : List String
  objects : List String

abbrev prefix : ℕ → List String → List String
prefix zero xs = []
prefix (suc n) [] = []
prefix (suc n) (x ∷ xs) = x ∷ prefix n xs

abbrev beyond : ℕ → List String → List String
beyond zero xs = xs
beyond (suc n) [] = []
beyond (suc n) (x ∷ xs) = beyond n xs

split : (n : ℕ) (xs : List String) → xs ≡ prefix n xs ++ beyond n xs
split zero xs = refl
split (suc n) [] = refl
split (suc n) (x ∷ xs) = ap (λ l. x ∷ l) (split n xs)

full : (n : ℕ) (xs : List String) → (length (prefix n xs) ≡ n) ⊎ (beyond n xs ≡ [])
full zero xs = inl refl
full (suc n) [] = inr refl
full (suc n) (x ∷ xs) = elim (full n xs) [ inl e ↦ inl (ap suc e) | inr e ↦ inr e ]

-- One old session, whose object is "uploads/s/a.pdf".
abbrev shelf_redis : Redis Shelf
shelf_redis = record {
  get = λ w k. err not_found;
  hget_all = λ w k. ok (("createdAt", "old") ∷ ("key", "uploads/s/a.pdf") ∷ []);
  smembers = λ w k. ok [];
  set = λ k v t w. (ok tt, w);
  set_nx = λ k v t w. (ok true, w);
  del = λ ks w. (ok tt, w);
  hset_expire = λ k fs t w. (ok tt, w);
  sadd_expire = λ k v t w. w;
  srem = λ k v w. w;
}

abbrev shelf_objects : Objects Shelf
shelf_objects = record {
  bucket_uploads = "uploads";
  bucket_outputs = "outputs";
  stat_object = λ w bucket key. err not_found;
  get_object_range = λ w bucket key from count. err not_found;
  presign_upload_part = λ w bucket key id n. ok "";
  create_multipart = λ bucket key kind w. (ok "mp", w);
  complete_multipart = λ bucket key id parts w. (ok tt, w);
  abort_multipart = λ bucket key id w. (ok tt, w);
  remove_object =
      λ bucket key w. (ok tt, record w { objects = filter (λ x. not (key =ₛ x)) w.objects });
  put_object = λ bucket key size w. (ok tt, w);
}

abbrev sweeper : SweepBackend Shelf
sweeper = record {
  redis = shelf_redis;
  store = shelf_objects;
  scan = λ w pattern. "upload:s" ∷ [];
  find_expired = λ w now n. ok (prefix n w.jobs);
  files_of = λ w ids. ok [];
  delete_files = λ ids w. w;
  delete_jobs = λ ids w. record w { jobs = filter (λ x. not (listed ids x)) w.jobs };
  count_paths = λ w key. if key =ₛ "uploads/s/a.pdf" then ok 1 else ok 0;
  list_incomplete = λ w bucket age. ok [];
  backfill_expiry = λ ttl w. w;
  parse_time = λ text. some 0;
  upload_ttl = 1800;
  stale_age = 86400;
  free_job_ttl = 604800;
}

sweeper-BatchLaws : BatchLaws sweeper 100000 (λ w. w.jobs)
sweeper-BatchLaws = record {
  find_ok = λ w. (
    prefix batch_size w.jobs,
    beyond batch_size w.jobs,
    refl,
    split batch_size w.jobs,
    full batch_size w.jobs,
  );
  delete_ok = λ ids w. refl;
  files_quiet = λ ids w. refl;
  objects_quiet = λ bucket key w. refl;
}

abbrev on_shelf : Shelf → String → Bool
on_shelf w key = any (λ x. x =ₛ key) w.objects

others_stay :
    (key other : String) (xs : List String)
    → (key =ₛ other) ≡ false
    → any (λ x. x =ₛ other) (filter (λ x. not (key =ₛ x)) xs) ≡ any (λ x. x =ₛ other) xs
others_stay key other [] e = refl
others_stay key other (x ∷ xs) e = elim (Bool-cases (key =ₛ x)) [
  | inl k ↦
      let apart : (x =ₛ other) ≡ false = rw (← (eq_iff key x).0 k) e in
      rw (k, apart) (others_stay key other xs e)
  | inr k ↦ rw k (ap (λ t. x =ₛ other || t) (others_stay key other xs e))
]

sweeper-ObjectLaws : ObjectLaws sweeper on_shelf
sweeper-ObjectLaws = record {
  remove_other = λ key other w e. others_stay key other w.objects e;
  remove_count = λ key other w. refl;
  abort_same = λ key id other w. (refl, refl);
  del_same = λ keys other w. (refl, refl);
}

abbrev shelf : Shelf
shelf = record { jobs = "j1" ∷ "j2" ∷ []; objects = "uploads/s/a.pdf" ∷ "uploads/s/b.pdf" ∷ [] }

cleanup_expired_jobs-completes_example :
    ((cleanup_expired_jobs sweeper 3 100000 shelf).jobs ≡ [])
    × ((m : ℕ)
        → 3 ≤ m
        → cleanup_expired_jobs sweeper m 100000 shelf ≡ cleanup_expired_jobs sweeper 3 100000 shelf)
cleanup_expired_jobs-completes_example =
    cleanup_expired_jobs-completes sweeper 100000 (λ w. w.jobs) sweeper-BatchLaws 3 shelf
      (omega arith)

cleanup_upload_state-spares_example :
    on_shelf (cleanup_upload_state sweeper 100000 shelf) "uploads/s/a.pdf"
    ≡ on_shelf shelf "uploads/s/a.pdf"
unfolding upload_object_consumed is_referenced
cleanup_upload_state-spares_example =
    cleanup_upload_state-spares sweeper on_shelf sweeper-ObjectLaws "uploads/s/a.pdf" 100000 shelf
      refl
