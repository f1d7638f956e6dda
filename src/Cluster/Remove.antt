-- ===== src/Cluster/Remove.antt =====
-- platform/deploy/controlplane/cluster/remove.go: a removal under a lock and a journal.
pub mod Laws
use runfabric.Prelude.{ℕ, suc, String, Bool, true, false, Option, none, some, List}
use runfabric.Errors.{Error, Result, ok, err}
use runfabric.Lease
use runfabric.Lease.{Managed, Signal}
use runfabric.Transactions.Types.{JournalFile}
use runfabric.Transactions.Backend.{Backend}
use runfabric.Transactions.Journal
use runfabric.Cluster.Coordinator.{
  Held, LockAcquire, RunContext, acquire_run_context, fail_if_lease_lost, close,
}

-- What a removal returns, and what it leaves: the lock once it is acquired, the state of the locks
-- where it is not, the journals and the resources.
pub record Removal (L S R W : Type 0) : Type 0 where
  pub result : Option R
  pub error : Option Error
  pub lock : Option (Managed (Held L))
  pub locks : L
  pub journals : S
  pub resources : W

-- The times and ticks of one removal: those that the journal reads, the ticks while the executor
-- works, and those that the heartbeat takes after its end.
pub record Timing : Type 0 where
  pub started : String
  pub opened : String
  pub ended : String
  pub working : List Signal
  pub late : List Signal
  pub ctx_done : Bool

module _ {L S R W : Type 0} (locks : LockAcquire L) (b : Backend S) (digest : JournalFile → String)
    (text_of : Error → String) (executor : W → Result R × W) where
  -- The journal after the executor: what is returned and the journals.
  unfoldable pub complete_remove : String → R → JournalFile → S → Option R × Option Error × S
  unfolding Journal.mark_completed Journal.delete
  complete_remove now r j s =
      let o = Journal.mark_completed b digest now j s in
      elim o.error [
        | some e ↦ (none, some e, o.store)
        | none ↦ (some r, none, (Journal.delete b digest o.file o.store).1)
      ]

  unfoldable pub after_executor :
      Timing
      → String
      → String
      → Result R
      → RunContext L
      → S
      → Option R × Option Error × Managed (Held L) × S
  unfolding Journal.mark_rolling_back fail_if_lease_lost Journal.checkpoint complete_remove
  after_executor t service stage (err e) run s =
      (none, some e, run.lock, (Journal.mark_rolling_back b digest t.ended run.journal s).store)
  after_executor t service stage (ok r) run s =
      let (lost, m) = fail_if_lease_lost text_of t.ctx_done service stage run.lock in
      elim lost [
        | some e ↦ (
          none,
          some e,
          m,
          (Journal.checkpoint b digest t.ended "lease" "lost" run.journal s).store,
        )
        | none ↦
            let (result, error, s') = complete_remove t.ended r run.journal s in
            (result, error, m, s')
      ]

  -- After the run context: the executor, and the deferred Close.
  unfoldable pub with_context :
      Timing → String → String → W → Result (RunContext L) × L × S → Removal L S R W
  with_context t service stage w (err e, l, s) = record {
    result = none;
    error = some e;
    lock = none;
    locks = l;
    journals = s;
    resources = w;
  }
  with_context t service stage w (ok run, l, s) =
      let (q, w') = executor w in
      let run' = record run { lock = Lease.wait t.working run.lock } in
      let (result, error, m, s') = after_executor t service stage q run' s in
      record {
        result = result;
        error = error;
        lock = (close t.late (record run' { lock = m })).1;
        locks = l;
        journals = s';
        resources = w';
      }

  unfoldable pub run_remove : ℕ → Timing → String → String → L → S → W → Removal L S R W
  run_remove lease_for t service stage l s w = with_context t service stage w (
      acquire_run_context locks b digest lease_for t.late t.started t.opened service stage "remove"
        l s)
