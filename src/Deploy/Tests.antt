-- ===== src/Deploy/Tests.antt =====
-- platform/deploy/exec: runs of the theorems on a journal without a disk.
use runfabric.Prelude.{ℕ, suc, String, ◌≡◌, refl, true, false, Option, none, some, [], ◌∷◌, All}
use runfabric.Prelude.Int.{pos}
use runfabric.Errors.{Error, err, io}
use runfabric.Disk.{Disk}
use runfabric.Transactions.Types.{JournalFile}
use runfabric.Transactions.Backend.{Backend}
use runfabric.Transactions.FileBackend.{Content, json, garbage, path}
use runfabric.Transactions.Journal.{new_journal}
use runfabric.Deploy.Engine.{FaultConfig, Phase, Session, run, completed_checkpoints}
use runfabric.Deploy.Engine.Laws.{OnSuccess, run_completes}
use runfabric.Deploy.Universal.{run_deploy, initial_context}
use runfabric.Deploy.Universal.Laws.{IsProvided, run_deploy_result}

-- A backend that keeps the number of saves, and a clock and a digest that stand still.
abbrev counting : Backend ℕ
counting = record {
  load = λ service stage n. err io;
  save = λ j n. (none, suc n);
  delete = λ service stage n. (none, n);
}

abbrev digest : JournalFile → String
digest f = "sum"

abbrev clock : ℕ → String
clock n = "t"

abbrev no_faults : FaultConfig
no_faults = record {
  fail_before_phase = "";
  fail_after_phase = "";
  fail_on_resource = "";
  enabled = false;
}

abbrev journal : JournalFile
journal = new_journal "svc" "dev" "deploy" "t0"

-- The result is the number of calls, which are the resources too.
abbrev session : Session ℕ ℕ ℕ
session = record {
  journal = some journal;
  store = 0;
  context = initial_context "/srv" "dev" no_faults;
  resources = 0;
  ticks = 0;
}

abbrev deploy : ℕ → Option Error × Option ℕ × ℕ
deploy n = (none, some n, suc n)

abbrev count : Phase ℕ ℕ
count = record { name = "count"; run = λ c n. (none, c, suc n) }

run_completes_example :
    OnSuccess
      (λ t.
        All (λ (p : Phase ℕ ℕ). completed_checkpoints t.journal p.name ≡ true) (count ∷ count ∷ []))
      (run counting digest clock (count ∷ count ∷ []) session)
run_completes_example =
    run_completes counting digest clock (count ∷ count ∷ []) journal session refl

run_deploy_result_example :
    IsProvided counting digest clock deploy
      (run_deploy counting digest clock deploy "/srv" "dev" no_faults session)
run_deploy_result_example =
    run_deploy_result counting digest clock deploy "/srv" "dev" no_faults journal session refl

-- The journal of a deployment that has ended.
abbrev completed : JournalFile
completed = record journal { status = "completed"; version = pos 4 }

abbrev disk : Disk Content
disk = record {
  files = (path "svc" "dev", json completed) ∷ [];
  temp = none;
  torn = garbage;
  read_fails = false;
  remove_fails = false;
  fails = λ s. false;
}
