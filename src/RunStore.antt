-- ===== src/RunStore.antt =====
-- platform/core/state/runstore: where workflow runs are stored so that several processes can share
-- them. This file has the interface of runstore.go; a marshalled run is the run itself, and a text
-- that does not parse as a run is `garbage`.
pub mod Contract
pub mod Local
pub mod Dynamo
pub mod Tests
use runfabric.Prelude.{ℕ, zero, suc, String, ◌=?=◌, Bool, ◌||◌, Option}
use runfabric.Errors.{Error, message, wrap, Result}
use runfabric.Workflow.Runs.{WorkflowRun, Stamp, format}

abbrev pub Version : Type 0
Version = String

abbrev pub not_found : Error
not_found = message "runstore: run not found"

abbrev pub version_conflict : Error
version_conflict = message "runstore: version conflict"

abbrev pub lock_held : Error
lock_held = message "runstore: lock held by another owner"

-- The first 12 characters of a version.
unfoldable pub cut : ℕ → String → String
cut zero s = ""
cut (suc n) String.[] = ""
cut (suc n) (String.◌∷◌ c s) = String.◌∷◌ c (cut n s)

unfoldable pub short : Version → String
unfolding cut
short v = cut 12 v

pub data RunText : Type 0 where
  json : WorkflowRun → RunText
  garbage : String → RunText

-- json.Unmarshal into a run
unfoldable pub unmarshal : RunText → Result WorkflowRun
unmarshal (json run) = Result.ok run
unmarshal (garbage text) = Result.err (wrap "runstore: unmarshal run" Error.parse)

-- What a save takes from its surroundings: the clock, and the random token, where it can be read.
pub record Fresh : Type 0 where
  pub now : ℕ
  pub token : Option String

-- What a save returns, the run, whose UpdatedAt it sets, and the store.
pub record Saved (S : Type 0) : Type 0 where
  pub answer : Result Version
  pub run : WorkflowRun
  pub store : S

pub record RunStore (S : Type 0) : Type 0 where
  pub load : String → String → S → Result (WorkflowRun × Version)
  pub save : Fresh → WorkflowRun → Version → S → Saved S

abbrev pub lacks_names : String → String → Bool
lacks_names stage run_id = stage =?= "" || run_id =?= ""

abbrev pub touched : ℕ → WorkflowRun → WorkflowRun
touched now run = record run { updated_at = format now }

abbrev pub names_error : Error
names_error = message "runstore: stage and runID are required"

abbrev pub run_names_error : Error
run_names_error = message "runstore: run stage and runID are required"
