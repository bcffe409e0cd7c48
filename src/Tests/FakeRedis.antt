-- ===== src/Tests/FakeRedis.antt =====
-- A Redis that holds texts under keys and never fails.
use fyredocs_backend.Prelude.{
  String, Bool, true, false, not, ◌&&◌, ◌||◌, ◌≡◌, refl, List, [], ◌∷◌, ◌=ₛ◌, if◌then◌else◌, any,
  arith, eq_iff,
}
use fyredocs_backend.Store.{Result, ok, err, not_found}
use fyredocs_backend.Store.Redis.{Redis, KeyLaws}

abbrev pub Keys : Type 0
Keys = List (String × String)

abbrev pub find : Keys → String → Result String
find [] k = err not_found
find ((j, v) ∷ m) k = if j =ₛ k then ok v else find m k

abbrev pub has : Keys → String → Bool
has [] k = false
has ((j, v) ∷ m) k = j =ₛ k || has m k

abbrev pub put : String → String → Keys → Keys
put k v m = (k, v) ∷ m

abbrev pub remove : List String → Keys → Keys
remove ks [] = []
remove ks ((j, v) ∷ m) = if any (λ k. k =ₛ j) ks then remove ks m else (j, v) ∷ remove ks m

abbrev pub fake_redis : Redis Keys
fake_redis = record {
  get = find;
  hget_all = λ w k. ok [];
  smembers = λ w k. ok [];
  set = λ k v t w. (ok tt, put k v w);
  set_nx = λ k v t w. if has w k then (ok false, w) else (ok true, put k v w);
  del = λ ks w. (ok tt, remove ks w);
  hset_expire = λ k fs t w. (ok tt, put k "" w);
  sadd_expire = λ k v t w. put k v w;
  srem = λ k v w. w;
}

has-remove :
    (ks : List String) (m : Keys) (j : String)
    → has (remove ks m) j ≡ (has m j && not (any (λ k. k =ₛ j) ks))
has-remove ks [] j = refl
has-remove ks ((k, v) ∷ m) j = ground (arith, eq_iff k j, has-remove ks m j)

pub fake-KeyLaws : KeyLaws fake_redis has
fake-KeyLaws = record {
  set_nx_new = λ k v t w e. (ground arith, λ j. ground arith);
  set_nx_old = λ k v t w e. (ground arith, λ j. ground arith);
  del_ok = λ ks w e j. has-remove ks w j;
}
