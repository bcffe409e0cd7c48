-- ===== src/Jobs/Consume/Usable.antt =====
-- What holds of an upload that a job consumes.
use fyredocs_backend.Prelude.{
  ℕ, String, Bool, true, false, not, ◌=ₛ◌, ◌≡◌, refl, ap, some, if◌then◌else◌, is_empty, Bool-cases,
  inl, inr, arith,
}
use fyredocs_backend.Prelude.Int.{pos, gtb_ℤ}
use fyredocs_backend.Config.{Env, max_upload_bytes}
use fyredocs_backend.Store.{Result, ok, err, not_found, broken}
use fyredocs_backend.Store.Redis.{Redis, Fields}
use fyredocs_backend.Store.Objects.{Objects, ObjectInfo}
use fyredocs_backend.Http.{Flow, go, reply}
use fyredocs_backend.Uploads.Session.{field, upload_state_key}
use fyredocs_backend.Jobs.Tools.{validate_file_type, validate_mime_head}
use fyredocs_backend.Jobs.Consume.{
  ConsumedUpload, sniff_len, check_contents, check_object, bucket_of, check_session, read_session,
  consume_upload,
}

module _ {W : Type 0} (r : Redis W) (s : Objects W) (env : Env) (detect : String → String)
    (tool : String) where
  -- The upload's session is there, names a file whose extension suits the tool, and an object that
  -- is in the store with the size that is handed on, within the server's limit, and whose first
  -- bytes suit the tool.
  pub record IsUsable (w : W) (id : String) (u : ConsumedUpload) : Type 0 where
    pub state : Fields
    pub info : ObjectInfo
    pub head : String
    pub stored : r.hget_all w (upload_state_key id) ≡ ok state
    pub named : u.original_name ≡ field state "fileName"
    pub right_type : validate_file_type tool u.original_name ≡ true
    pub keyed : u.key ≡ field state "key"
    pub measured :
        s.stat_object w (bucket_of (some r) (some s) env detect tool s state) u.key ≡ ok info
    pub true_size : u.size ≡ info.size
    pub within_limit : gtb_ℤ (pos u.size) (max_upload_bytes env) ≡ false
    pub read :
        s.get_object_range w (bucket_of (some r) (some s) env detect tool s state) u.key 0 sniff_len
        ≡ ok head
    pub right_contents : validate_mime_head tool (detect head) ≡ true

  -- What the last two stages establish.
  record Checked (w : W) (bucket key name : String) (u : ConsumedUpload) : Type 0 where
    info : ObjectInfo
    head : String
    same_key : u.key ≡ key
    same_name : u.original_name ≡ name
    measured : s.stat_object w bucket key ≡ ok info
    true_size : u.size ≡ info.size
    within_limit : gtb_ℤ (pos info.size) (max_upload_bytes env) ≡ false
    read : s.get_object_range w bucket key 0 sniff_len ≡ ok head
    right_contents : validate_mime_head tool (detect head) ≡ true

  check_contents_passed :
      (key name : String) (size : ℕ) (h : Result String) (u : ConsumedUpload)
      → check_contents (some r) (some s) env detect tool key name size h ≡ go u
      → (head : String) × (h ≡ ok head)
        × (validate_mime_head tool (detect head) ≡ true)
        × (u ≡ record { key = key; original_name = name; size = size })
  unfolding check_contents
  check_contents_passed key name size (err e) u h = cc
  check_contents_passed key name size (ok head) u h =
      elim (Bool-cases (validate_mime_head tool (detect head))) [
        | inl t ↦ let h' = rw (t, check_contents) at h in (head, refl, t, ground (arith, h'))
        | inr f ↦ let h' = rw (f, check_contents) at h in cc
      ]

  check_object_passed :
      (w : W) (bucket key name : String) (o : Result ObjectInfo) (u : ConsumedUpload)
      → s.stat_object w bucket key ≡ o
      → check_object (some r) (some s) env detect tool s w bucket key name o ≡ go u
      → Checked w bucket key name u
  unfolding check_object
  check_object_passed w bucket key name (err not_found) u e h = cc
  check_object_passed w bucket key name (err (broken x)) u e h = cc
  check_object_passed w bucket key name (ok info) u e h =
      elim (Bool-cases (gtb_ℤ (pos info.size) (max_upload_bytes env))) [
        | inl t ↦ let h' = rw (t, check_object) at h in cc
        | inr f ↦
            let (head, read, right, same) =
              check_contents_passed key name info.size _ u (rw (f, check_object) at h) in
            record {
              info = info;
              head = head;
              same_key = ap (λ v. v.key) same;
              same_name = ap (λ v. v.original_name) same;
              measured = e;
              true_size = ap (λ v. v.size) same;
              within_limit = f;
              read = read;
              right_contents = right;
            }
      ]

  -- Four tests that were all passed.
  gates :
      {E A : Type 0} (a b d e : Bool) (w x y z : E) (rest : Flow E A) (u : A)
      → (if a
          then reply w
          else if b
          then reply x
          else if d
          then reply y
          else if e
          then reply z
          else rest)
        ≡ go u
      → (d ≡ false) × (rest ≡ go u)
  gates true b d e w x y z rest u h = cc
  gates false true d e w x y z rest u h = cc
  gates false false true e w x y z rest u h = cc
  gates false false false true w x y z rest u h = cc
  gates false false false false w x y z rest u h = (refl, h)

  check_session_passed :
      (w : W) (id : String) (state : Fields) (u : ConsumedUpload)
      → r.hget_all w (upload_state_key id) ≡ ok state
      → check_session (some r) (some s) env detect tool s w state ≡ go u
      → IsUsable w id u
  unfolding check_session
  check_session_passed w id state u stored h =
      let name = field state "fileName" in
      let key = field state "key" in
      let bucket = bucket_of (some r) (some s) env detect tool s state in
      let (typed, rest) =
        gates (is_empty state) (name =ₛ "") (not (validate_file_type tool name)) (key =ₛ "") _ _ _ _
          _ u h in
      let c = check_object_passed w bucket key name _ u refl rest in
      record {
        state = state;
        info = c.info;
        head = c.head;
        stored = stored;
        named = c.same_name;
        right_type = rw c.same_name (ground (arith, typed));
        keyed = c.same_key;
        measured = rw c.same_key c.measured;
        true_size = c.true_size;
        within_limit = rw c.true_size c.within_limit;
        read = rw c.same_key c.read;
        right_contents = c.right_contents;
      }

  read_session_passed :
      (w : W) (id : String) (o : Result Fields) (u : ConsumedUpload)
      → r.hget_all w (upload_state_key id) ≡ o
      → read_session (some r) (some s) env detect tool s w o ≡ go u
      → IsUsable w id u
  unfolding read_session
  read_session_passed w id (err not_found) u e h = cc
  read_session_passed w id (err (broken x)) u e h = cc
  read_session_passed w id (ok state) u e h = check_session_passed w id state u e h

  -- An upload is handed on to a job only when its session is stored and names a file whose
  -- extension suits the tool, its object is in the store with the size that is handed on, which is
  -- within the server's limit, and the object's first bytes suit the tool.
  pub consume_upload-IsUsable :
      (w : W) (id : String) (u : ConsumedUpload)
      → consume_upload (some r) (some s) env detect tool w id ≡ go u
      → IsUsable w id u
  unfolding consume_upload
  consume_upload-IsUsable w id u h = elim (Bool-cases (id =ₛ "")) [
    | inl t ↦ let h' = rw t at h in cc
    | inr f ↦ read_session_passed w id _ u refl (rw f at h)
  ]
