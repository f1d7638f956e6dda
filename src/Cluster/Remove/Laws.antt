-- ===== src/Cluster/Remove/Laws.antt =====
-- platform/deploy/controlplane/cluster/remove.go: what a removal leaves of its lock and journal.
use runfabric.Prelude.{ℕ, String, ◌≡◌, ◌∙◌, ap, some, List, inl, inr, Option-cases}
use runfabric.Errors.{Error, Result, ok, err}
use runfabric.Locking.Handle
use runfabric.Locking.Handle.{Handle}
use runfabric.Lease
use runfabric.Lease.{Managed, Signal}
use runfabric.Transactions.Types.{JournalFile}
use runfabric.Transactions.Backend.{Backend}
use runfabric.Cluster.Coordinator.{
  Held, LockAcquire, locks_of, managed_handle, with_journal, with_lock, RunContext, acquire_lock,
  managed_lock, acquire_run_context, resume_or_new_journal, fail_if_lease_lost, close, release_held,
}
use runfabric.Cluster.Coordinator.Lock.{
  IsLive, managed_lock-IsLive, wait-IsLive, fail_if_lease_lost-IsLive, release-IsGivenBack,
}
use runfabric.Cluster.Remove.{Removal, Timing, after_executor, with_context, run_remove}

-- The locks as a removal leaves them.
abbrev pub locks_after : {L S R W : Type 0} → Removal L S R W → L
locks_after o = locks_of o.locks o.lock

given_back :
    {L : Type 0} (h : Handle L) (late : List Signal) (m : Managed (Held L)) (l : L)
    → IsLive h m
    → (k : L) × (locks_of l (Lease.release late (some m)).1 ≡ (Handle.release h k).2)
unfolding release_held
given_back {L} h late m l live =
    let (m', k, q, g) = release-IsGivenBack h late m live in
    (k, ap (locks_of l) q ∙ ap (λ x. x.1) g.last)

module _ {L S R W : Type 0} (locks : LockAcquire L) (b : Backend S) (digest : JournalFile → String)
    (text_of : Error → String) (executor : W → Result R × W) where
  after_executor-IsLive :
      (h : Handle L) (t : Timing) (service stage : String) (q : Result R) (run : RunContext L)
      (s : S)
      → IsLive h run.lock
      → IsLive h (after_executor locks b digest text_of executor t service stage q run s).2
  unfolding after_executor
  after_executor-IsLive h t service stage (err e) run s k = k
  after_executor-IsLive h t service stage (ok r) run s k =
      let lost = (fail_if_lease_lost text_of t.ctx_done service stage run.lock).0 in
      let k' = fail_if_lease_lost-IsLive h text_of t.ctx_done service stage run.lock k in
      elim (Option-cases lost) [
        | inl e ↦ rw (e, after_executor) k'
        | inr (x, e) ↦ rw (e, after_executor) k'
      ]

  module _ (lease_for : ℕ) (t : Timing) (service stage : String) (l : L) (s : S) (h : Handle L)
      (l' : L) (e : locks service stage "remove" lease_for l ≡ (ok h, l')) where
    lock_is_managed :
        acquire_lock locks lease_for service stage "remove" l
        ≡ (ok (managed_lock lease_for (h, l')), l')
    unfolding acquire_lock
    lock_is_managed = ap (managed_handle lease_for) e

    abbrev opened : Result JournalFile × S
    opened = resume_or_new_journal b digest t.started t.opened service stage "remove" s

    context_is_opened :
        acquire_run_context locks b digest lease_for t.late t.started t.opened service stage
          "remove" l s
        ≡ with_journal locks b digest lease_for t.late (managed_lock lease_for (h, l')) l' opened
    unfolding acquire_run_context with_lock
    context_is_opened =
        ap (with_lock locks b digest lease_for t.late t.started t.opened service stage "remove" s)
          lock_is_managed

    with_context_gives_back :
        (w : W) (r : Result JournalFile × S)
        → (k : L) × (locks_after (
              with_context locks b digest text_of executor t service stage w (
                with_journal locks b digest lease_for t.late (managed_lock lease_for (h, l')) l' r))
            ≡ (Handle.release h k).2)
    unfolding with_context with_journal close
    with_context_gives_back w (err x, s') =
        given_back h t.late (managed_lock lease_for (h, l')) l' (managed_lock-IsLive h lease_for l')
    with_context_gives_back w (ok j, s') =
        let live =
          wait-IsLive h t.working (managed_lock lease_for (h, l'))
            (managed_lock-IsLive h lease_for l') in
        let run : RunContext L = record {
          lock = Lease.wait t.working (managed_lock lease_for (h, l'));
          journal = j;
        } in
        given_back h t.late _ l'
          (after_executor-IsLive h t service stage (executor w).0 run s' live)

    -- However a removal ends once it has the lock, and also where it then gets no journal, the last
    -- thing that it does to the locks is to release the handle that it acquired.
    pub run_remove_gives_back :
        (w : W)
        → (k : L) × (locks_after
              (run_remove locks b digest text_of executor lease_for t service stage l s w)
            ≡ (Handle.release h k).2)
    unfolding run_remove
    run_remove_gives_back w =
        let (k, p) = with_context_gives_back w opened in
        (
          k,
          ap (λ x. locks_after (with_context locks b digest text_of executor t service stage w x))
                context_is_opened
              ∙ p,
        )
