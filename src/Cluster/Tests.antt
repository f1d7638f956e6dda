-- ===== src/Cluster/Tests.antt =====
-- platform/deploy/controlplane/cluster: runs of the theorems on a small disk.
use runfabric.Prelude.{
  ℕ, suc, String, ◌<>◌, ◌≡◌, refl, ◌⊎◌, false, Option, none, some, [], ◌∷◌, ◌+◌,
}
use runfabric.Errors.{Error, Result, ok, err, io}
use runfabric.Disk.{Disk}
use runfabric.Locking.Handle
use runfabric.Locking.Handle.{Handle, new_handle}
use runfabric.Lease.{tick}
use runfabric.Transactions.Types.{JournalFile}
use runfabric.Transactions.FileBackend.{Content, json, garbage, path, file_backend}
use runfabric.Transactions.FileBackend.Laws.{readable, file_backend-IsVersioned}
use runfabric.Transactions.Journal.{new_journal, next_revision}
use runfabric.Cluster.Coordinator.{LockAcquire, resume_or_new_journal}
use runfabric.Cluster.Coordinator.Laws.{IsResumed, IsRefused, IsFresh, resume_or_new_journal_cases}
use runfabric.Cluster.Remove.{Timing, run_remove}
use runfabric.Cluster.Remove.Laws.{locks_after, run_remove_gives_back}

abbrev digest : JournalFile → String
digest f = "sum of " <> f.updated_at

abbrev first : JournalFile
first = next_revision file_backend digest "t1" (new_journal "svc" "dev" "remove" "t0")

abbrev disk_one : Disk Content
disk_one = record {
  files = (path "svc" "dev", json first) ∷ [];
  temp = none;
  torn = garbage;
  read_fails = false;
  remove_fails = false;
  fails = λ s. false;
}

-- The state of the locks counts the renewals and releases.
abbrev counted : Handle ℕ
counted =
    new_handle "svc" "dev" "token" (λ service stage n. (none, 10 + n))
      (some (λ service stage owner lease n. (none, suc n))) none

abbrev locks : LockAcquire ℕ
locks service stage operation lease n = (ok counted, n)

abbrev failing : ℕ → Result String × ℕ
failing w = (err io, suc w)

abbrev timing : Timing
timing = record {
  started = "t2";
  opened = "t3";
  ended = "t4";
  working = tick ∷ tick ∷ [];
  late = [];
  ctx_done = false;
}

abbrev text : Error → String
text e = "error"

resume_or_new_journal_cases_example :
    let r = resume_or_new_journal file_backend digest "t2" "t3" "svc" "dev" "remove" disk_one in
    IsResumed file_backend digest readable file_backend-IsVersioned "svc" "dev" disk_one r
    ⊎ IsRefused file_backend digest readable file_backend-IsVersioned disk_one r
    ⊎ IsFresh file_backend digest readable file_backend-IsVersioned "svc" "dev" disk_one r
resume_or_new_journal_cases_example =
    resume_or_new_journal_cases file_backend digest readable file_backend-IsVersioned "t2" "t3"
      "svc" "dev" "remove" disk_one refl

abbrev opened : Result JournalFile × Disk Content
opened = resume_or_new_journal file_backend digest "t2" "t3" "svc" "dev" "remove" disk_one

run_remove_gives_back_example :
    (k : ℕ) × (locks_after
        (run_remove locks file_backend digest text failing 30 timing "svc" "dev" 0 disk_one 0)
      ≡ (Handle.release counted k).2)
run_remove_gives_back_example =
    run_remove_gives_back locks file_backend digest text failing 30 timing "svc" "dev" 0 disk_one
      counted 0 refl 0

abbrev flaky : ℕ → Option Error
flaky (suc (suc (suc n))) = none
flaky n = some io
