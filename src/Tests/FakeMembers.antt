-- ===== src/Tests/FakeMembers.antt =====
-- Memberships in a list, the latest first.
use fyredocs_backend.Prelude.{
  String, ◌&&◌, ◌≡◌, refl, ◌⊎◌, inl, inr, Option, none, some, List, [], ◌∷◌, ◌=ₛ◌, if◌then◌else◌,
  Bool-cases, arith, eq_iff,
}
use fyredocs_backend.Store.{Result, ok, err, not_found}
use fyredocs_backend.Orgs.Members.{Members}
use fyredocs_backend.Orgs.Owners.{RowLaws}

-- An organization, a user, and the role, or nothing for a row that was deleted.
abbrev pub Rows : Type 0
Rows = List ((String × String) × Option String)

abbrev pub role_of : Rows → String → String → Option String
role_of [] o u = none
role_of (((org, user), r) ∷ rows) o u = if org =ₛ o && user =ₛ u then r else role_of rows o u

abbrev pub answer_of : Option String → Result String
answer_of none = err not_found
answer_of (some r) = ok r

abbrev pub fake_members : Members Rows
fake_members = record {
  first = λ w o u. answer_of (role_of w o u);
  update_role = λ o u r w. (ok tt, ((o, u), some r) ∷ w);
  upsert = λ o u r w. (ok tt, ((o, u), some r) ∷ w);
  delete = λ o u w. (ok tt, ((o, u), none) ∷ w);
}

answer-ok : (x : Option String) (r : String) → answer_of x ≡ ok r → x ≡ some r
answer-ok none r e = cc
answer-ok (some s) r e = ground arith

answer-none : (x : Option String) → answer_of x ≡ err not_found → x ≡ none
answer-none none e = refl
answer-none (some s) e = cc

row_only :
    (org user : String) (new : Option String) (w : Rows) (o u : String)
    → (role_of (((org, user), new) ∷ w) o u ≡ role_of w o u)
      ⊎ ((org ≡ o) × (user ≡ u) × (role_of (((org, user), new) ∷ w) o u ≡ new))
row_only org user new w o u = elim (Bool-cases (org =ₛ o && user =ₛ u)) [
  | inl e ↦ inr (
    ground (arith, eq_iff org o, eq_iff user u),
    ground (arith, eq_iff org o, eq_iff user u),
    rw e refl,
  )
  | inr e ↦ inl (rw e refl)
]

pub fake-RowLaws : RowLaws fake_members role_of
fake-RowLaws = record {
  first_ok = λ w o u r e. answer-ok (role_of w o u) r e;
  first_none = λ w o u e. answer-none (role_of w o u) e;
  update_only = λ org user new w o u. row_only org user (some new) w o u;
  upsert_only = λ org user new w o u. row_only org user (some new) w o u;
  delete_only = λ org user w o u. row_only org user none w o u;
}
