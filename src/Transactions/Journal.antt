-- ===== src/Transactions/Journal.antt =====
-- platform/core/state/transactions/journal.go. A `Journal` is its file and the state behind its
-- backend; a method returns both with its error. `now` is the formatted clock, read once for each
-- call of time.Now in the source.
pub mod Laws
pub mod Writers
use runfabric.Prelude.{
  ℕ, zero, suc, String, ◌=?=◌, Bool, Option, none, some, List, [], ◌∷◌, ◌++◌, if◌then◌else◌, length,
  get_elem?,
}
use runfabric.Prelude.Int.{ℤ, pos, incr}
use runfabric.Errors.{Error}
use runfabric.Transactions.Types.{
  JournalFile, JournalCheckpoint, Operation, Status, status_active, status_rolling_back,
  status_rolled_back, status_completed, status_archived, compute_checksum,
}
use runfabric.Transactions.Backend.{Backend}

unfoldable pub new_journal : String → String → String → String → JournalFile
new_journal service stage operation now = record {
  service = service;
  stage = stage;
  operation = operation;
  status = status_active;
  started_at = now;
  updated_at = now;
  version = pos 1;
  attempt_count = pos 0;
  last_attempt_at = "";
  checksum = "";
  checkpoints = [];
  operations = [];
}

-- The loop of `Checkpoint`: the first entry of that name is rewritten, or one is appended.
unfoldable pub set_checkpoint : String → String → List JournalCheckpoint → List JournalCheckpoint
set_checkpoint name status [] = record { name = name; status = status } ∷ []
set_checkpoint name status (c ∷ cs) =
    if c.name =?= name then record c { status = status } ∷ cs else c ∷ set_checkpoint name status cs

pub record Outcome (S : Type 0) : Type 0 where
  pub error : Option Error
  pub file : JournalFile
  pub store : S

module _ {S : Type 0} (b : Backend S) (digest : JournalFile → String) where
  -- The revision that `commit` saves.
  unfoldable pub next_revision : String → JournalFile → JournalFile
  unfolding compute_checksum
  next_revision now f =
      let stamped : JournalFile = record f { version = incr f.version; updated_at = now } in
      record stamped { checksum = compute_checksum digest stamped }

  unfoldable pub commit : String → JournalFile → S → Outcome S
  commit now f s =
      let next = next_revision now f in
      let (e, s') = b.save next s in record { error = e; file = next; store = s' }

  unfoldable pub save : String → JournalFile → S → Outcome S
  unfolding commit
  save now f s = commit now f s

  unfoldable pub record_op : String → Operation → JournalFile → S → Outcome S
  unfolding commit
  record_op now op f s = commit now (record f { operations = f.operations ++ op ∷ [] }) s

  unfoldable pub checkpoint : String → String → String → JournalFile → S → Outcome S
  unfolding commit set_checkpoint
  checkpoint now name status f s =
      commit now (record f { checkpoints = set_checkpoint name status f.checkpoints }) s

  unfoldable pub increment_attempt : String → String → JournalFile → S → Outcome S
  unfolding commit
  increment_attempt now now' f s =
      commit now' (record f { attempt_count = incr f.attempt_count; last_attempt_at = now }) s

  unfoldable pub mark_status : Status → String → JournalFile → S → Outcome S
  unfolding commit
  mark_status status now f s = commit now (record f { status = status }) s

  unfoldable pub mark_rolling_back : String → JournalFile → S → Outcome S
  unfolding mark_status
  mark_rolling_back = mark_status status_rolling_back

  unfoldable pub mark_rolled_back : String → JournalFile → S → Outcome S
  unfolding mark_status
  mark_rolled_back = mark_status status_rolled_back

  unfoldable pub mark_completed : String → JournalFile → S → Outcome S
  unfolding mark_status
  mark_completed = mark_status status_completed

  unfoldable pub mark_archived : String → JournalFile → S → Outcome S
  unfolding mark_status
  mark_archived = mark_status status_archived

  unfoldable pub delete : JournalFile → S → Option Error × S
  delete f s = b.delete f.service f.stage s

-- The loop of `Reverse`, for the indices below `i`; an index out of range does not occur.
unfoldable pub reverse_loop : ℕ → List Operation → List Operation → List Operation
reverse_loop zero ops out = out
reverse_loop (suc i) ops out = elim (get_elem? ops i) [
  | some op ↦ reverse_loop i ops (out ++ op ∷ [])
  | none ↦ reverse_loop i ops out
]

unfoldable pub reverse_ops : List Operation → List Operation
unfolding reverse_loop
reverse_ops ops = reverse_loop (length ops) ops []
