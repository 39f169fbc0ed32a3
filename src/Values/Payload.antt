-- ===== src/Values/Payload.antt =====
-- pkg/skald/payload.go and the identity types of pkg/skald/ids.go.
use skald.Prelude.{ℕ, String, List}
use skald.Prelude.GoMap.{GoMap}

-- `bytes` is the field Data.
pub record Payload : Type 0 where
  pub encoding : String
  pub metadata : GoMap String String
  pub bytes : List ℕ

pub record WorkflowExecution : Type 0 where
  pub workflow_id : String
  pub run_id : String
