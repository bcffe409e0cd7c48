-- ===== src/Orgs/Owners.antt =====
-- Who owns an organization does not change through the membership handlers.
use fyredocs_backend.Prelude.{
  Option-cases, String, false, ◌||◌, not, ◌=ₛ◌, ◌≡◌, ◌≢◌, ◌↔◌, ◌⊎◌, inl, inr, refl, sym, ◌∙◌,
  Option, none, some, if◌then◌else◌, Bool-cases, arith, eq_iff,
}
use fyredocs_backend.Store.{Result, ok, err, not_found, broken}
use fyredocs_backend.Http.{Reply, Flow-cases}
use fyredocs_backend.Orgs.Roles.{AddMemberReq, UpdateMemberReq, valid_role}
use fyredocs_backend.Text.Space.{trim_space}
use fyredocs_backend.Orgs.Members.{
  Members, manage, answer-world, put_member, add_to, add_member, change_role, update_to,
  update_member_role, drop_member, remove_member, new_member_role,
}

-- A text that is not the owner's role.
pub some_not_owner : (r : String) → (r =ₛ "owner") ≡ false → some r ≢ some "owner"
some_not_owner r n e = ground (arith, eq_iff r "owner")

-- What the statements are documented to do, by the role `role w o u` that the table holds: a query
-- that answers tells the truth, and a statement changes nothing but the row it names, failed or not.
pub record RowLaws {W : Type 0} (members : Members W) (role : W → String → String → Option String)
    : Type 0 where
  pub first_ok : (w : W) (o u r : String) → members.first w o u ≡ ok r → role w o u ≡ some r
  pub first_none : (w : W) (o u : String) → members.first w o u ≡ err not_found → role w o u ≡ none
  pub update_only :
      (org user new : String) (w : W) (o u : String)
      → (role (members.update_role org user new w).1 o u ≡ role w o u)
        ⊎ ((org ≡ o) × (user ≡ u) × (role (members.update_role org user new w).1 o u ≡ some new))
  pub upsert_only :
      (org user new : String) (w : W) (o u : String)
      → (role (members.upsert org user new w).1 o u ≡ role w o u)
        ⊎ ((org ≡ o) × (user ≡ u) × (role (members.upsert org user new w).1 o u ≡ some new))
  pub delete_only :
      (org user : String) (w : W) (o u : String)
      → (role (members.delete org user w).1 o u ≡ role w o u)
        ⊎ ((org ≡ o) × (user ≡ u) × (role (members.delete org user w).1 o u ≡ none))

module _ {W : Type 0} (members : Members W) (role : W → String → String → Option String)
    (laws : RowLaws members role) (parse_uuid : String → Option String) where
  -- The same users own the same organizations.
  pub SameOwners : W → W → Type 0
  SameOwners w w' = (o u : String) → (role w o u ≡ some "owner") ↔ (role w' o u ≡ some "owner")

  SameOwners-refl : (w : W) → SameOwners w w
  unfolding SameOwners
  SameOwners-refl w o u = (λ e. e, λ e. e)

  SameOwners-trans : (a b c : W) → SameOwners a b → SameOwners b c → SameOwners a c
  unfolding SameOwners
  SameOwners-trans a b c f g o u = (λ e. (g o u).0 ((f o u).0 e), λ e. (f o u).1 ((g o u).1 e))

  -- A change of one row, of a user who is no owner, to a role that is not the owner's.
  one_row :
      (w w' : W) (org user : String) (new : Option String)
      → role w org user ≢ some "owner"
      → new ≢ some "owner"
      → ((o u : String)
          → (role w' o u ≡ role w o u) ⊎ ((org ≡ o) × (user ≡ u) × (role w' o u ≡ new)))
      → SameOwners w w'
  unfolding SameOwners
  one_row w w' org user new old not_owner only o u = elim (only o u) [
    | inl e ↦ (λ h. e ∙ h, λ h. sym e ∙ h)
    | inr (eo, eu, e) ↦ (λ h. absurd (old (rw (eo, eu) h)), λ h. absurd (not_owner (sym e ∙ h)))
  ]

  role_not_owner :
      (w : W) (org target r : String)
      → members.first w org target ≡ ok r
      → (r =ₛ "owner") ≡ false
      → role w org target ≢ some "owner"
  role_not_owner w org target r e n h =
      some_not_owner r n (sym (laws.first_ok w org target r e) ∙ h)

  change_role-SameOwners :
      (org target new : String) (w : W) (found : Result String)
      → (new =ₛ "owner") ≡ false
      → members.first w org target ≡ found
      → SameOwners w (change_role members parse_uuid org target new w).1
  unfolding change_role
  change_role-SameOwners org target new w (err e) n f = rw (f, change_role) (SameOwners-refl w)
  change_role-SameOwners org target new w (ok r) n f = elim (Bool-cases (r =ₛ "owner")) [
    | inl t ↦ rw (f, change_role, t) (SameOwners-refl w)
    | inr t ↦
        rw (f, change_role, t, answer-world)
          (one_row w _ org target (some new) (role_not_owner w org target r f t)
            (some_not_owner new n) (laws.update_only org target new w))
  ]

  drop_member-SameOwners :
      (org target : String) (w : W) (found : Result String)
      → members.first w org target ≡ found
      → SameOwners w (drop_member members parse_uuid org target w).1
  unfolding drop_member
  drop_member-SameOwners org target w (err e) f = rw (f, drop_member) (SameOwners-refl w)
  drop_member-SameOwners org target w (ok r) f = elim (Bool-cases (r =ₛ "owner")) [
    | inl t ↦ rw (f, drop_member, t) (SameOwners-refl w)
    | inr t ↦
        rw (f, drop_member, t, answer-world)
          (one_row w _ org target none (role_not_owner w org target r f t) (λ e. cc)
            (laws.delete_only org target w))
  ]

  module _ (reads : (w : W) (o u e : String) → members.first w o u ≢ err (broken e)) where
    put_member-SameOwners :
        (org target new : String) (w : W) (found : Result String)
        → (new =ₛ "owner") ≡ false
        → members.first w org target ≡ found
        → SameOwners w (put_member members parse_uuid org target new w).1
    unfolding put_member
    put_member-SameOwners org target new w (err (broken e)) n f = absurd (reads w org target e f)
    put_member-SameOwners org target new w (err not_found) n f =
        rw (f, put_member, answer-world)
          (one_row w _ org target (some new) (λ h. cc (sym (laws.first_none w org target f) ∙ h))
            (some_not_owner new n) (laws.upsert_only org target new w))
    put_member-SameOwners org target new w (ok r) n f = elim (Bool-cases (r =ₛ "owner")) [
      | inl t ↦ rw (f, put_member, t) (SameOwners-refl w)
      | inr t ↦
          rw (f, put_member, t, answer-world)
            (one_row w _ org target (some new) (role_not_owner w org target r f t)
              (some_not_owner new n) (laws.update_only org target new w))
    ]

    refused_or :
        (new : String) (x y : Reply String × W) (w : W)
        → SameOwners w x.1
        → ((new =ₛ "owner") ≡ false → SameOwners w y.1)
        → SameOwners w (if new =ₛ "owner" || not (valid_role new) then x else y).1
    refused_or new x y w hx hy = elim (Bool-cases (new =ₛ "owner")) [
      | inl t ↦ rw t hx
      | inr f ↦ elim (Bool-cases (valid_role new)) [
        | inl v ↦ rw (f, v) (hy f)
        | inr v ↦ rw (f, v) hx
      ]
    ]

    add_to-SameOwners :
        (org : String) (body : Option AddMemberReq) (w : W)
        → SameOwners w (add_to members parse_uuid org body w).1
    unfolding add_to
    add_to-SameOwners org none w = SameOwners-refl w
    add_to-SameOwners org (some req) w = elim (Option-cases (parse_uuid (trim_space req.user_id))) [
      | inl e ↦ rw (e, add_to) (SameOwners-refl w)
      | inr (target, e) ↦
          rw (e, add_to)
            (refused_or (new_member_role members parse_uuid req.role) _ _ w (SameOwners-refl w)
              (λ n. put_member-SameOwners org target _ w _ n refl))
    ]

    update_to-SameOwners :
        (org target : String) (body : Option UpdateMemberReq) (w : W)
        → SameOwners w (update_to members parse_uuid org target body w).1
    unfolding update_to
    update_to-SameOwners org target none w = SameOwners-refl w
    update_to-SameOwners org target (some req) w =
        refused_or (trim_space req.role) _ _ w (SameOwners-refl w)
          (λ n. change_role-SameOwners org target _ w _ n refl)

    -- A request of anyone to one of the three handlers.
    pub data Step (w : W) : W → Type 0 where
      adds :
          (uid id : String) (body : Option AddMemberReq)
          → Step w (add_member members parse_uuid uid id body w).1
      updates :
          (uid id user : String) (body : Option UpdateMemberReq)
          → Step w (update_member_role members parse_uuid uid id user body w).1
      removes : (uid id user : String) → Step w (remove_member members parse_uuid uid id user w).1

    Step-SameOwners : (w : W) {w' : W} → Step w w' → SameOwners w w'
    unfolding add_member update_member_role remove_member
    Step-SameOwners w (adds uid id body) = elim (Flow-cases (manage members parse_uuid w uid id)) [
      | inl (r, e) ↦ rw (e, add_member) (SameOwners-refl w)
      | inr (org, e) ↦ rw (e, add_member) (add_to-SameOwners org body w)
    ]
    Step-SameOwners w (updates uid id user body) =
        elim (Flow-cases (manage members parse_uuid w uid id)) [
          | inl (r, e) ↦ rw (e, update_member_role) (SameOwners-refl w)
          | inr (org, e) ↦ elim (Option-cases (parse_uuid user)) [
            | inl n ↦ rw (e, update_member_role, n) (SameOwners-refl w)
            | inr (target, s) ↦
                rw (e, update_member_role, s) (update_to-SameOwners org target body w)
          ]
        ]
    Step-SameOwners w (removes uid id user) =
        elim (Flow-cases (manage members parse_uuid w uid id)) [
          | inl (r, e) ↦ rw (e, remove_member) (SameOwners-refl w)
          | inr (org, e) ↦ elim (Option-cases (parse_uuid user)) [
            | inl n ↦ rw (e, remove_member, n) (SameOwners-refl w)
            | inr (target, s) ↦
                rw (e, remove_member, s) (drop_member-SameOwners org target w _ refl)
          ]
        ]

    pub data Reach (w : W) : W → Type 0 where
      here : Reach w w
      next : {v v' : W} → Reach w v → Step v v' → Reach w v'

    -- As long as the database answers the lookups of memberships, any requests of any callers to
    -- the three handlers that change memberships, one after the other, leave every organization
    -- with exactly the owners it had: no owner is demoted or removed, and nobody is made one.
    pub Reach-SameOwners : {w w' : W} → Reach w w' → SameOwners w w'
    Reach-SameOwners {w} here = SameOwners-refl w
    Reach-SameOwners {w} (next {v} {v'} r s) =
        SameOwners-trans w v v' (Reach-SameOwners r) (Step-SameOwners v s)
