-- ===== src/Uploads/RoundTrip.antt =====
-- What `InitUpload` stores in a session is what the later calls read from it.
use fyredocs_backend.Prelude.{
  ◌<◌, ◌^◌, String, true, ◌≡◌, ◌≢◌, refl, none, some, ◌=ₛ◌, arith, eq_iff, if◌then◌else◌,
}
use fyredocs_backend.Prelude.Int.{pos}
use fyredocs_backend.Text.Decimal.RoundTrip.{atoi-itoa}
use fyredocs_backend.Uploads.Caller.{Caller, upload_owner_id}
use fyredocs_backend.Uploads.Session.{field, upload_owner_matches}
use fyredocs_backend.Uploads.Init.{Plan, session_fields}
use fyredocs_backend.Uploads.Complete.{total_parts}

-- The caller's next request: a guest who had no token now carries the fresh one.
abbrev pub with_cookie : String → Caller → Caller
with_cookie fresh c = record c {
  guest_token = if c.guest_token =ₛ "" then fresh else c.guest_token;
}

owner_kept :
    (c : Caller) (fresh : String)
    → fresh ≢ ""
    → upload_owner_id (with_cookie fresh c) none ≡ upload_owner_id c (some fresh)
unfolding upload_owner_id
owner_kept c fresh h = ground (arith, eq_iff fresh "", eq_iff c.guest_token "")

same_owner : (o o' : String) → o' ≡ o → (if o =ₛ "" then true else o' =ₛ o) ≡ true
same_owner o o' e = ground (arith, eq_iff o "", eq_iff o' o)

-- The session that a caller starts is one that the same caller may use afterwards, with the cookie
-- that the start set, and the number of parts that completing it asks for is the planned one.
pub session_fields_round_trip :
    (plan : Plan) (bucket key s3_id now fresh : String) (c : Caller)
    → fresh ≢ ""
    → plan.total_parts < 2 ^ 63
    → let state = session_fields plan bucket key s3_id now (upload_owner_id c (some fresh)) in
      (upload_owner_matches (with_cookie fresh c) state ≡ true)
      × (total_parts state ≡ pos plan.total_parts)
      × (field state "bucket" ≡ bucket)
      × (field state "key" ≡ key)
      × (field state "s3UploadId" ≡ s3_id)
      × (field state "fileName" ≡ plan.file_name)
unfolding session_fields upload_owner_matches total_parts field
session_fields_round_trip plan bucket key s3_id now fresh c h lt = (
  same_owner _ _ (owner_kept c fresh h),
  rw (atoi-itoa plan.total_parts lt) refl,
  refl,
  refl,
  refl,
  refl,
)
