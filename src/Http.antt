-- ===== src/Http.antt =====
-- What a handler sends back, and a handler's way through its early returns (shared/response and the
-- `return` statements of the gin handlers). Message texts are left out; status and code are kept.
use fyredocs_backend.Prelude.{ℕ, String, ◌≡◌, refl, ◌⊎◌, inl, inr}

-- `response.OK` and its kin with their data; `response.Err` and its kin with status and code.
pub data Reply (B : Type 0) : Type 0 where
  success : ℕ → B → Reply B
  failure : ℕ → String → Reply B

-- A handler either goes on with a value or has replied.
pub data Flow (R : Type 0) (A : Type 0) : Type 0 where
  go : A → Flow R A
  reply : R → Flow R A

pub Flow-cases : {R A : Type 0} (f : Flow R A) → ((r : R) × (f ≡ reply r)) ⊎ ((a : A) × (f ≡ go a))
Flow-cases (go a) = inr (a, refl)
Flow-cases (reply r) = inl (r, refl)
