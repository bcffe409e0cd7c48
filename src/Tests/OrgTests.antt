-- ===== src/Tests/OrgTests.antt =====
-- Memberships at concrete inputs.
use fyredocs_backend.Prelude.{
  String, ◌≡◌, ◌≢◌, ◌⊎◌, refl, if◌then◌else◌, ◌=ₛ◌, eq_refl, Option, none, some, [], ◌∷◌,
}
use fyredocs_backend.Store.{ok, err, broken}
use fyredocs_backend.Text.Space.{trim_space}
use fyredocs_backend.Orgs.Roles.{AddMemberReq, valid_role}
use fyredocs_backend.Http.{success}
use fyredocs_backend.Orgs.Members.{
  Members, new_member_role, add_member, update_member_role, remove_member,
}
use fyredocs_backend.Orgs.Owners.{SameOwners, here, next, adds, removes, Reach-SameOwners}
use fyredocs_backend.Orgs.Authority.{MayManage, Refused, handlers-NeedAdmin, broken_lookup_demotes}
use fyredocs_backend.Tests.FakeMembers.{Rows, role_of, answer_of, fake_members, fake-RowLaws}

abbrev rows : Rows
rows = (("org", "alice"), some "owner") ∷ (("org", "bob"), some "viewer") ∷ []

abbrev admin : AddMemberReq
admin = record { user_id = "bob"; role = "admin" }

answers : (x : Option String) (e : String) → answer_of x ≢ err (broken e)
answers none e h = cc
answers (some r) e h = cc

-- Alice makes Bob an admin, who then tries to remove her.
abbrev promoted : Rows
promoted = (add_member fake_members some "alice" "org" (some admin) rows).1

Reach-SameOwners_example :
    SameOwners fake_members role_of fake-RowLaws some rows
      (remove_member fake_members some "bob" "org" "alice" promoted).1
Reach-SameOwners_example =
    Reach-SameOwners fake_members role_of fake-RowLaws some (λ w o u e. answers (role_of w o u) e)
      {w = rows} (next (next here (adds "alice" "org" (some admin))) (removes "bob" "org" "alice"))

handlers-NeedAdmin_example :
    MayManage fake_members some rows "bob" "org"
    ⊎ (Refused fake_members some rows (add_member fake_members some "bob" "org" (some admin) rows)
        × Refused fake_members some rows
            (update_member_role fake_members some "bob" "org" "bob" none rows)
        × Refused fake_members some rows (remove_member fake_members some "bob" "org" "bob" rows))
handlers-NeedAdmin_example =
    handlers-NeedAdmin fake_members some rows "bob" "org" "bob" (some admin) none

-- A database that fails to look up Alice.
abbrev failing : Members Rows
failing = record fake_members {
  first = λ w o u.
      if u =ₛ "alice" then err (broken "connection refused") else answer_of (role_of w o u);
}

abbrev ruled : Rows
ruled = (("org", "alice"), some "owner") ∷ (("org", "bob"), some "admin") ∷ []

abbrev demotion : AddMemberReq
demotion = record { user_id = "alice"; role = "" }

upsert_writes :
    (org user new : String) (w : Rows)
    → (failing.upsert org user new w).0 ≡ ok tt
    → role_of (failing.upsert org user new w).1 org user ≡ some new
upsert_writes org user new w e = rw (eq_refl org, eq_refl user) refl

broken_lookup_demotes_example :
    let (answered, w') = add_member failing some "bob" "org" (some demotion) ruled in
    (answered ≡ success 201 "alice")
    × (role_of w' "org" "alice" ≡ some "viewer")
    × (role_of w' "org" "alice" ≢ role_of ruled "org" "alice")
unfolding new_member_role trim_space valid_role
broken_lookup_demotes_example =
    broken_lookup_demotes failing some role_of upsert_writes ruled "bob" "org" "org" "alice"
      "connection refused" demotion refl refl refl refl refl refl refl refl
