-- ===== src/Orgs/Authority.antt =====
-- Who may change an organization's memberships.
use fyredocs_backend.Prelude.{
  ℕ, String, true, false, ◌||◌, ◌=ₛ◌, ◌≡◌, ◌≢◌, ◌∙◌, sym, ap, ◌⊎◌, refl, Option, some, Bool-cases,
  Option-cases, inl, inr, eq_iff,
}
use fyredocs_backend.Store.{Result, ok, err, broken}
use fyredocs_backend.Text.Space.{trim_space}
use fyredocs_backend.Http.{Reply, success, failure, Flow, reply}
use fyredocs_backend.Orgs.Roles.{
  AddMemberReq, UpdateMemberReq, role_rank, role_at_least, valid_role,
}
use fyredocs_backend.Orgs.Owners.{some_not_owner}
use fyredocs_backend.Orgs.Members.{
  Members, membership_role, org_param, manage, answer-ok, new_member_role, add_to, put_member,
  add_member, update_member_role, remove_member,
}

text_path : (s t : String) → (s =ₛ t) ≡ true → s ≡ t
text_path s t = (eq_iff s t).0

role_at_least_admin :
    (role : String) → role_at_least role "admin" ≡ (role =ₛ "admin" || role =ₛ "owner")
unfolding role_at_least role_rank
role_at_least_admin role = elim (Bool-cases (role =ₛ "admin")) [
  | inl a ↦ rw (text_path role "admin" a) refl
  | inr a ↦ elim (Bool-cases (role =ₛ "owner")) [
    | inl o ↦ rw (text_path role "owner" o) refl
    | inr o ↦ elim (Bool-cases (role =ₛ "viewer")) [
      | inl v ↦ rw (text_path role "viewer" v) refl
      | inr v ↦ elim (Bool-cases (role =ₛ "editor")) [
        | inl e ↦ rw (text_path role "editor" e) refl
        | inr e ↦ rw (v, e, a, o, role_rank, role_at_least) refl
      ]
    ]
  ]
]

module _ {W : Type 0} (members : Members W) (parse_uuid : String → Option String) where
  -- The caller is an admin or the owner of the organization that the request names.
  pub MayManage : W → String → String → Type 0
  MayManage w uid id =
      (org : String) × (role : String) × (parse_uuid id ≡ some org)
      × (members.first w org uid ≡ ok role)
      × ((role =ₛ "admin" || role =ₛ "owner") ≡ true)

  -- The reply is an error, and nothing has changed.
  pub Refused : W → Reply String × W → Type 0
  Refused w r = (status : ℕ) × (code : String) × (r ≡ (failure status code, w))

  -- Either the caller may manage, or the guard has replied with an error.
  Guarded : Flow (Reply String) String → Type 0
  Guarded f = (status : ℕ) × (code : String) × (f ≡ reply (failure status code))

  role-cases :
      (w : W) (uid id org role : String)
      → parse_uuid id ≡ some org
      → members.first w org uid ≡ ok role
      → MayManage w uid id ⊎ Guarded (manage members parse_uuid w uid id)
  unfolding Guarded manage org_param membership_role MayManage
  role-cases w uid id org role e f = elim (Bool-cases (role =ₛ "admin" || role =ₛ "owner")) [
    | inl t ↦ inl (org, role, e, f, t)
    | inr t ↦ inr (
      403,
      "FORBIDDEN",
      rw (e, org_param, f, membership_role, manage, role_at_least_admin, t) refl,
    )
  ]

  found-cases :
      (w : W) (uid id org : String) (found : Result String)
      → parse_uuid id ≡ some org
      → members.first w org uid ≡ found
      → MayManage w uid id ⊎ Guarded (manage members parse_uuid w uid id)
  unfolding Guarded manage org_param membership_role
  found-cases w uid id org (ok role) e f = role-cases w uid id org role e f
  found-cases w uid id org (err x) e f =
      inr (404, "NOT_FOUND", rw (e, org_param, f, membership_role, manage) refl)

  manage-cases :
      (w : W) (uid id : String) → MayManage w uid id ⊎ Guarded (manage members parse_uuid w uid id)
  unfolding Guarded manage org_param
  manage-cases w uid id = elim (Option-cases (parse_uuid id)) [
    | inl e ↦ inr (400, "INVALID_ID", rw (e, org_param, manage) refl)
    | inr (org, e) ↦ found-cases w uid id org _ e refl
  ]

  -- In any state of the database and for any request, each of the three handlers that change
  -- memberships (add, change of a role, removal) either was called by an admin or the owner of the
  -- organization that the request names, or replies with an error and changes nothing.
  pub handlers-NeedAdmin :
      (w : W) (uid id user : String) (add : Option AddMemberReq) (update : Option UpdateMemberReq)
      → MayManage w uid id
        ⊎ (Refused w (add_member members parse_uuid uid id add w)
            × Refused w (update_member_role members parse_uuid uid id user update w)
            × Refused w (remove_member members parse_uuid uid id user w))
  unfolding Guarded Refused add_member update_member_role remove_member
  handlers-NeedAdmin w uid id user add update = elim (manage-cases w uid id) [
    | inl m ↦ inl m
    | inr (status, code, e) ↦ inr (
      (status, code, rw (e, add_member) refl),
      (status, code, rw (e, update_member_role) refl),
      (status, code, rw (e, remove_member) refl),
    )
  ]

  -- When the lookup of the target's membership fails with a database error, and the upsert then
  -- works and writes the row, an admin who adds the organization's owner as a member with a role
  -- that may be given is answered 201, and the owner has that role, which is not an owner's.
  pub broken_lookup_demotes :
      (role : W → String → String → Option String)
      → ((org user new : String) (w : W)
          → (members.upsert org user new w).0 ≡ ok tt
          → role (members.upsert org user new w).1 org user ≡ some new)
      → (w : W) (uid id org target e : String) (req : AddMemberReq) → parse_uuid id ≡ some org
      → parse_uuid (trim_space req.user_id) ≡ some target
      → members.first w org uid ≡ ok "admin"
      → members.first w org target ≡ err (broken e)
      → role w org target ≡ some "owner"
      → (new_member_role members parse_uuid req.role =ₛ "owner") ≡ false
      → valid_role (new_member_role members parse_uuid req.role) ≡ true
      → (members.upsert org target (new_member_role members parse_uuid req.role) w).0 ≡ ok tt
      → let (answered, w') = add_member members parse_uuid uid id (some req) w in
        (answered ≡ success 201 target)
        × (role w' org target ≡ some (new_member_role members parse_uuid req.role))
        × (role w' org target ≢ role w org target)
  unfolding add_member add_to put_member manage org_param membership_role
  broken_lookup_demotes role writes w uid id org target e req i t a f o n v up =
      let new = new_member_role members parse_uuid req.role in
      let result = members.upsert org target new w in
      let run : add_member members parse_uuid uid id (some req) w ≡ (success 201 target, result.1) =
        rw
          (
            i, org_param, a, membership_role, manage, role_at_least_admin, add_member, t, add_to, n,
            v, f, put_member,
          )
          (answer-ok members parse_uuid 201 target "ADD_FAILED" result up) in
      let now = writes org target new w up in
      (
        ap (λ r. r.0) run,
        ap (λ r. role r.1 org target) run ∙ now,
        λ same.
            some_not_owner new n (sym now ∙ (sym (ap (λ r. role r.1 org target) run) ∙ (same ∙ o))),
      )
