-- ===== src/Store/Faults.antt =====
-- Results of calls to the outside.
use fyredocs_backend.Prelude.{String}

-- Why a call failed: what it asked for is not there (`redis.Nil`, `storage.IsNotFound`), or the
-- call itself went wrong.
pub data Fault : Type 0 where
  not_found : Fault
  broken : String → Fault

pub data Result (A : Type 0) : Type 0 where
  ok : A → Result A
  err : Fault → Result A
