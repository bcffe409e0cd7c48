-- ===== src/Orgs/Roles.antt =====
-- The roles of user-service/internal/models/org.go, and the requests of user-service/handlers/orgs.go.
use fyredocs_backend.Prelude.{ℕ, String, Bool, ◌&&◌, ◌=ₛ◌, ltb, leb, if◌then◌else◌}

-- A role that is not in the map has rank 0.
unfoldable pub role_rank : String → ℕ
role_rank role =
    if role =ₛ "viewer"
    then 1
    else if role =ₛ "editor"
    then 2
    else if role =ₛ "admin"
    then 3
    else if role =ₛ "owner"
    then 4
    else 0

unfoldable pub role_at_least : String → String → Bool
unfolding role_rank
role_at_least role min = leb (role_rank min) (role_rank role) && ltb 0 (role_rank role)

unfoldable pub valid_role : String → Bool
unfolding role_rank
valid_role role = ltb 0 (role_rank role)

pub record AddMemberReq : Type 0 where
  pub user_id : String
  pub role : String

pub record UpdateMemberReq : Type 0 where
  pub role : String
