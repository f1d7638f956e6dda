-- ===== src/Transactions/Types.antt =====
-- platform/core/state/transactions/types.go and integrity.go. A `map[string]string` is an
-- association list.
use runfabric.Prelude.{String, Bool, List, ◌=?=◌}
use runfabric.Prelude.Int.{ℤ}

abbrev OperationType : Type 0
OperationType = String

abbrev pub op_create_api : OperationType
op_create_api = "create_api"

abbrev op_create_integration : OperationType
op_create_integration = "create_integration"

abbrev op_create_route : OperationType
op_create_route = "create_route"

abbrev op_create_lambda : OperationType
op_create_lambda = "create_lambda"

abbrev pub op_create_role : OperationType
op_create_role = "create_role"

abbrev op_create_function_url : OperationType
op_create_function_url = "create_function_url"

abbrev pub Status : Type 0
Status = String

abbrev pub status_active : Status
status_active = "active"

abbrev pub status_rolling_back : Status
status_rolling_back = "rolling_back"

abbrev pub status_rolled_back : Status
status_rolled_back = "rolled_back"

abbrev pub status_completed : Status
status_completed = "completed"

abbrev pub status_archived : Status
status_archived = "archived"

pub record JournalCheckpoint : Type 0 where
  pub name : String
  pub status : String

pub record Operation : Type 0 where
  pub type_of : OperationType
  pub resource : String
  pub metadata : List (String × String)

pub record JournalFile : Type 0 where
  pub service : String
  pub stage : String
  pub operation : String
  pub status : Status
  pub started_at : String
  pub updated_at : String
  pub version : ℤ
  pub attempt_count : ℤ
  pub last_attempt_at : String
  pub checksum : String
  pub checkpoints : List JournalCheckpoint
  pub operations : List Operation

-- `digest` is the hexadecimal SHA-256 of the file's JSON text, which these fields always have.
module _ (digest : JournalFile → String) where
  unfoldable pub compute_checksum : JournalFile → String
  compute_checksum j = digest (record j { checksum = "" })

  unfoldable pub verify_checksum : JournalFile → Bool
  unfolding compute_checksum
  verify_checksum j = j.checksum =?= compute_checksum j
