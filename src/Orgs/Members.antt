-- ===== src/Orgs/Members.antt =====
-- The membership handlers of user-service/handlers/orgs.go. UUIDs are their canonical texts, and a
-- request's caller is the header's user, which the router requires.
use fyredocs_backend.Prelude.{
  ℕ, String, ◌||◌, not, ◌=ₛ◌, if◌then◌else◌, ◌≡◌, refl, Option, none, some,
}
use fyredocs_backend.Store.{Result, ok, err}
use fyredocs_backend.Http.{Reply, success, failure, Flow, go, reply}
use fyredocs_backend.Text.Space.{trim_space}
use fyredocs_backend.Orgs.Roles.{AddMemberReq, UpdateMemberReq, role_at_least, valid_role}

-- The table `memberships` through gorm: the role of a user in an organization, and the statements
-- that change it.
pub record Members (W : Type 0) : Type 0 where
  pub first : W → String → String → Result String
  pub update_role : String → String → String → W → Result (Unit {0}) × W
  pub upsert : String → String → String → W → Result (Unit {0}) × W
  pub delete : String → String → W → Result (Unit {0}) × W

module _ {W : Type 0} (members : Members W) (parse_uuid : String → Option String) where
  -- A database error counts as no membership.
  unfoldable pub membership_role : W → String → String → Option String
  membership_role w org uid = elim (members.first w org uid) [ ok role ↦ some role | err e ↦ none ]

  unfoldable pub org_param : W → String → String → Flow (Reply String) (String × String)
  org_param w uid id = elim (parse_uuid id) [
    | none ↦ reply (failure 400 "INVALID_ID")
    | some org ↦ elim (membership_role w org uid) [
      | none ↦ reply (failure 404 "NOT_FOUND")
      | some role ↦ go (org, role)
    ]
  ]

  -- The guard that the three handlers below begin with.
  unfoldable pub manage : W → String → String → Flow (Reply String) String
  manage w uid id = elim (org_param w uid id) [
    | reply r ↦ reply r
    | go (org, role) ↦
        if role_at_least role "admin" then go org else reply (failure 403 "FORBIDDEN")
  ]

  -- The reply to a statement, and the world after it.
  unfoldable pub answer : ℕ → String → String → Result (Unit {0}) × W → Reply String × W
  answer status body code (ok _, w) = (success status body, w)
  answer status body code (err e, w) = (failure 500 code, w)

  pub answer-world :
      (status : ℕ) (body code : String) (r : Result (Unit {0}) × W)
      → (answer status body code r).1 ≡ r.1
  unfolding answer
  answer-world status body code (ok _, w) = refl
  answer-world status body code (err e, w) = refl

  pub answer-ok :
      (status : ℕ) (body code : String) (r : Result (Unit {0}) × W)
      → r.0 ≡ ok tt
      → answer status body code r ≡ (success status body, r.1)
  unfolding answer
  answer-ok status body code (ok tt, w) h = refl
  answer-ok status body code (err e, w) h = cc

  unfoldable pub new_member_role : String → String
  new_member_role role = let r = trim_space role in if r =ₛ "" then "viewer" else r

  -- Lines 214 to 241.
  unfoldable pub put_member : String → String → String → W → Reply String × W
  put_member org target new_role w = elim (members.first w org target) [
    | ok existing ↦
        if existing =ₛ "owner"
        then (failure 403 "FORBIDDEN", w)
        else answer 200 target "UPDATE_FAILED" (members.update_role org target new_role w)
    | err e ↦ answer 201 target "ADD_FAILED" (members.upsert org target new_role w)
  ]

  -- Lines 194 to 241. A body that does not bind is `none`.
  unfoldable pub add_to : String → Option AddMemberReq → W → Reply String × W
  add_to org none w = (failure 400 "INVALID_BODY", w)
  add_to org (some req) w = elim (parse_uuid (trim_space req.user_id)) [
    | none ↦ (failure 400 "INVALID_USER", w)
    | some target ↦
        let new_role = new_member_role req.role in
        if new_role =ₛ "owner" || not (valid_role new_role)
        then (failure 400 "INVALID_ROLE", w)
        else put_member org target new_role w
  ]

  unfoldable pub add_member : String → String → Option AddMemberReq → W → Reply String × W
  add_member uid id body w = elim (manage w uid id) [
    | reply r ↦ (r, w)
    | go org ↦ add_to org body w
  ]

  -- Lines 273 to 287.
  unfoldable pub change_role : String → String → String → W → Reply String × W
  change_role org target new_role w = elim (members.first w org target) [
    | err e ↦ (failure 404 "NOT_FOUND", w)
    | ok existing ↦
        if existing =ₛ "owner"
        then (failure 403 "FORBIDDEN", w)
        else answer 200 target "UPDATE_FAILED" (members.update_role org target new_role w)
  ]

  -- Lines 263 to 287.
  unfoldable pub update_to : String → String → Option UpdateMemberReq → W → Reply String × W
  update_to org target none w = (failure 400 "INVALID_BODY", w)
  update_to org target (some req) w =
      let new_role = trim_space req.role in
      if new_role =ₛ "owner" || not (valid_role new_role)
      then (failure 400 "INVALID_ROLE", w)
      else change_role org target new_role w

  unfoldable pub update_member_role :
      String → String → String → Option UpdateMemberReq → W → Reply String × W
  update_member_role uid id user body w = elim (manage w uid id) [
    | reply r ↦ (r, w)
    | go org ↦ elim (parse_uuid user) [
      | none ↦ (failure 400 "INVALID_USER", w)
      | some target ↦ update_to org target body w
    ]
  ]

  -- Lines 305 to 319.
  unfoldable pub drop_member : String → String → W → Reply String × W
  drop_member org target w = elim (members.first w org target) [
    | err e ↦ (failure 404 "NOT_FOUND", w)
    | ok existing ↦
        if existing =ₛ "owner"
        then (failure 403 "FORBIDDEN", w)
        else answer 200 target "REMOVE_FAILED" (members.delete org target w)
  ]

  unfoldable pub remove_member : String → String → String → W → Reply String × W
  remove_member uid id user w = elim (manage w uid id) [
    | reply r ↦ (r, w)
    | go org ↦ elim (parse_uuid user) [
      | none ↦ (failure 400 "INVALID_USER", w)
      | some target ↦ drop_member org target w
    ]
  ]
