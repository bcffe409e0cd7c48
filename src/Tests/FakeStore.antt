-- ===== src/Tests/FakeStore.antt =====
-- A Redis of hashes and an object store with one multipart upload, none of which fails.
use fyredocs_backend.Prelude.{
  String, Bool, true, false, not, ◌&&◌, refl, List, [], ◌∷◌, ◌++◌, ◌=ₛ◌, if◌then◌else◌, arith,
  eq_iff,
}
use fyredocs_backend.Store.{ok, err, not_found, broken}
use fyredocs_backend.Store.Redis.{Redis, Fields}
use fyredocs_backend.Store.Objects.{Objects}
use fyredocs_backend.Uploads.Init.NoLeak.{MultipartLaws}

-- Hashes by their keys, and whether the multipart upload "mp" is open.
pub record World : Type 0 where
  pub hashes : List (String × Fields)
  pub is_open : Bool

abbrev pub hash_of : List (String × Fields) → String → Fields
hash_of [] k = []
hash_of ((j, fs) ∷ hs) k = if j =ₛ k then fs else hash_of hs k

abbrev pub fake_hashes : Redis World
fake_hashes = record {
  get = λ w k. err not_found;
  hget_all = λ w k. ok (hash_of w.hashes k);
  smembers = λ w k. ok [];
  set = λ k v t w. (ok tt, w);
  set_nx = λ k v t w. (ok true, w);
  del = λ ks w. (ok tt, w);
  hset_expire = λ k fs t w. (ok tt, record w { hashes = (k, fs ++ hash_of w.hashes k) ∷ w.hashes });
  sadd_expire = λ k v t w. w;
  srem = λ k v w. w;
}

abbrev pub fake_store : Objects World
fake_store = record {
  bucket_uploads = "uploads";
  bucket_outputs = "outputs";
  stat_object = λ w b k. ok (record { size = 6000000; etag = "e" });
  get_object_range = λ w b k lo hi. ok "%PDF-1.7";
  presign_upload_part = λ w b k i n. ok "https://store/part";
  create_multipart = λ b k t w.
      if w.is_open then (err (broken "busy"), w) else (ok "mp", record w { is_open = true });
  complete_multipart = λ b k i ps w. (ok tt, record w { is_open = false });
  abort_multipart = λ b k i w. (ok tt, record w { is_open = w.is_open && not (i =ₛ "mp") });
  remove_object = λ b k w. (ok tt, w);
  put_object = λ b k n w. (ok tt, w);
}

abbrev pub opened : World → String → Bool
opened w id = w.is_open && "mp" =ₛ id

pub fake-MultipartLaws : MultipartLaws fake_hashes fake_store opened
fake-MultipartLaws = record {
  create_ok = λ b k t id w e. (
    ground (arith, eq_iff "mp" id),
    λ j. ground (arith, eq_iff id j, eq_iff "mp" j, eq_iff "mp" id),
  );
  abort_closes = λ b k id w e j. ground (arith, eq_iff id "mp", eq_iff "mp" j, eq_iff id j);
  hset_expire_keeps = λ k fs t w j. refl;
}
