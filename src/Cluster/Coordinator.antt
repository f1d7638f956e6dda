-- ===== src/Cluster/Coordinator.antt =====
-- platform/deploy/controlplane/cluster: coordinator.go, lock_manager.go, lease.go and heartbeat.go. A
-- lock is kept alive by internal/lease, whose state is the handle with the state `L` of its backend.
-- The adapter between the journals of internal/state/types and those of the transactions copies every
-- field but an empty list, for which it leaves nil; a nil list and an empty one are the same list
-- here, and the digest, a parameter, is taken not to tell them apart, although the JSON of one is
-- `null` and of the other `[]`.
pub mod Laws
pub mod Lock
use runfabric.Prelude.{
  ℕ, String, ◌<>◌, ◌=?=◌, Bool, true, false, ◌||◌, Option, none, some, List, if◌then◌else◌,
}
use runfabric.Errors.{Error, message, wrap, Result, ok, err}
use runfabric.Locking.Handle
use runfabric.Locking.Handle.{Handle}
use runfabric.Lease
use runfabric.Lease.{Managed, Signal, Receive, nothing, closed, value, manage, receive}
use runfabric.Transactions.Types.{JournalFile, Status, status_active, status_rolling_back}
use runfabric.Transactions.Backend.{Backend}
use runfabric.Transactions.Journal
use runfabric.Transactions.Journal.{Outcome, new_journal}

-- The lock that a run holds: `lease.Manage(ctx, handle.Renew, …, handle.Release)`.
abbrev pub Held : Type 0 → Type 0
Held L = Handle L × L

module _ {L : Type 0} where
  unfoldable pub renew_held : ℕ → Held L → Option Error × Held L
  unfolding Handle.renew
  renew_held lease_for (h, l) = let (e, l') = Handle.renew lease_for h l in (e, (h, l'))

  unfoldable pub release_held : Held L → Option Error × Held L
  unfolding Handle.release
  release_held (h, l) = let (e, h', l') = Handle.release h l in (e, (h', l'))

  unfoldable pub managed_lock : ℕ → Held L → Managed (Held L)
  unfolding manage renew_held release_held
  managed_lock lease_for held = manage (some renew_held) lease_for (some release_held) held

abbrev pub LockAcquire : Type 0 → Type 0
LockAcquire L = String → String → String → ℕ → L → Result (Handle L) × L

unfoldable pub managed_handle :
    {L : Type 0} → ℕ → Result (Handle L) × L → Result (Managed (Held L)) × L
managed_handle lease_for (err e, l) = (err (wrap "acquire lock" e), l)
managed_handle lease_for (ok h, l) = (ok (managed_lock lease_for (h, l)), l)

-- LockManager.Acquire
unfoldable pub acquire_lock :
    {L : Type 0} → LockAcquire L → ℕ → String → String → String → L → Result (Managed (Held L)) × L
unfolding managed_handle
acquire_lock locks lease_for service stage operation l =
    managed_handle lease_for (locks service stage operation lease_for l)

unfoldable pub journal_resumable : Status → Bool
journal_resumable s = s =?= status_active || s =?= status_rolling_back

-- The journal of a run, and the state of the journals.
pub record RunContext (L : Type 0) : Type 0 where
  pub lock : Managed (Held L)
  pub journal : JournalFile

module _ {S : Type 0} (b : Backend S) (digest : JournalFile → String) where
  unfoldable pub save_new : String → JournalFile → S → Result JournalFile × S
  unfolding Journal.save
  save_new now j s =
      let o = Journal.save b digest now j s in
      (elim o.error [ some e ↦ err e | none ↦ ok o.file ], o.store)

  -- `started` and `now` are the two times that are read. An error of `Load` counts as no journal.
  unfoldable pub resume_or_new_journal :
      String → String → String → String → String → S → Result JournalFile × S
  unfolding journal_resumable save_new
  resume_or_new_journal started now service stage operation s = elim (b.load service stage s) [
    | err e ↦ save_new now (new_journal service stage operation started) s
    | ok f ↦
        if journal_resumable f.status
        then (ok f, s)
        else save_new now
            (record (new_journal service stage operation started) { version = f.version }) s
  ]

-- The state of the locks in a released lock.
abbrev pub locks_of : {L : Type 0} → L → Option (Managed (Held L)) → L
locks_of l none = l
locks_of l (some m) = m.heartbeat.store.1

module _ {L S : Type 0} (locks : LockAcquire L) (b : Backend S) (digest : JournalFile → String)
    (lease_for : ℕ) where
  -- `late` are the ticks that the heartbeat still takes while a failed run gives its lock back.
  unfoldable pub with_journal :
      List Signal → Managed (Held L) → L → Result JournalFile × S → Result (RunContext L) × L × S
  with_journal late m l (err e, s) = (err e, locks_of l (Lease.release late (some m)).1, s)
  with_journal late m l (ok j, s) = (ok (record { lock = m; journal = j }), l, s)

  unfoldable pub with_lock :
      List Signal
      → String
      → String
      → String
      → String
      → String
      → S
      → Result (Managed (Held L)) × L
      → Result (RunContext L) × L × S
  unfolding with_journal
  with_lock late started now service stage operation s (err e, l) = (err e, l, s)
  with_lock late started now service stage operation s (ok m, l) =
      with_journal late m l (resume_or_new_journal b digest started now service stage operation s)

  unfoldable pub acquire_run_context :
      List Signal
      → String
      → String
      → String
      → String
      → String
      → L
      → S
      → Result (RunContext L) × L × S
  acquire_run_context late started now service stage operation l s =
      with_lock late started now service stage operation s
        (acquire_lock locks lease_for service stage operation l)

unfoldable pub lease_lost_error : String → String → String → Error
lease_lost_error service stage text =
    message ("lease lost for service=" <> service <> " stage=" <> stage <> ": " <> text)

-- FailIfLeaseLost; `ctx_done` is that the context is done and the `select` takes its case, and
-- `text_of` gives the text of an error.
unfoldable pub fail_if_lease_lost :
    {L : Type 0}
    → (Error → String)
    → Bool
    → String
    → String
    → Managed (Held L)
    → Option Error × Managed (Held L)
unfolding receive
fail_if_lease_lost text_of ctx_done service stage m =
    if ctx_done
    then (none, m)
    else let (r, m') = receive m in
      (elim r [ value e ↦ some (lease_lost_error service stage (text_of e)) | _ ↦ none ], m')

-- AbortIfLeaseLost, which has no case for the context.
unfoldable pub abort_if_lease_lost :
    {L : Type 0} → String → String → Managed (Held L) → Option Error × Managed (Held L)
unfolding receive
abort_if_lease_lost service stage m =
    let (r, m') = receive m in
    (
      elim r [
        | value e ↦ some (lease_lost_error service stage "heartbeat renewal failed")
        | _ ↦ none
      ],
      m',
    )

-- Coordinator.Close of a run.
unfoldable pub close :
    {L : Type 0} → List Signal → RunContext L → Option Error × Option (Managed (Held L))
unfolding Lease.release
close late run = Lease.release late (some run.lock)
