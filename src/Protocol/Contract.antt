-- ===== src/Protocol/Contract.antt =====
-- The records of pkg/protocol/schema.go for tasks and their evidence, as far as pkg/policy reads them.
-- A confidence is in hundredths.
use reinframe.Prelude.{ℕ, String, List, Map, ℤ}

-- The success criteria are their ids.
pub record TaskContract : Type 0 where
  pub revision : ℤ
  pub complexity : String
  pub risk : String
  pub confidence : ℕ
  pub success_criteria : List String

-- The status of each criterion, the ids of the validations, and the calls of each tool.
pub record EvidenceLedger : Type 0 where
  pub criteria_status : Map String
  pub validation_records : List String
  pub tool_call_counts : Map ℤ
