-- ===== src/Cluster/Coordinator/Laws.antt =====
-- platform/deploy/controlplane/cluster: which journal a run has.
use runfabric.Prelude.{
  String, arith, eq_iff, ◌≡◌, refl, ◌∙◌, sym, Bool, true, false, [], ◌⊎◌, inl, inr, Bool-cases,
  Option-cases, subst,
}
use runfabric.Prelude.Int.{le_int}
use runfabric.Errors.{Error, Result, ok, err, Result-cases}
use runfabric.Transactions.Types.{JournalFile, Status, status_active, status_rolling_back}
use runfabric.Transactions.Backend.{Backend, IsVersioned}
use runfabric.Transactions.Journal
use runfabric.Transactions.Journal.{new_journal, commit, next_revision}
use runfabric.Cluster.Coordinator.{journal_resumable, save_new, resume_or_new_journal}

abbrev IsInterrupted : Status → Type 0
IsInterrupted s = (s ≡ status_active) ⊎ (s ≡ status_rolling_back)

resumable-IsInterrupted : (s : Status) → journal_resumable s ≡ true → IsInterrupted s
unfolding journal_resumable
resumable-IsInterrupted s h =
    ground (arith, h, eq_iff s status_active, eq_iff s status_rolling_back)

ended-IsInterrupted : (s : Status) → journal_resumable s ≡ false → ¬ IsInterrupted s
unfolding journal_resumable
ended-IsInterrupted s h (inl e) = ground (arith, e, h, eq_iff s status_active)
ended-IsInterrupted s h (inr e) = ground (arith, e, h, eq_iff s status_rolling_back)

same_status :
    (f g : JournalFile)
    → Path (Result JournalFile) (ok f) (ok g)
    → journal_resumable f.status ≡ false
    → journal_resumable g.status ≡ false
same_status f g e h =
    let same : f ≡ g = cc in subst (λ (x : JournalFile). journal_resumable x.status ≡ false) same h

not_ok : {e : Error} {f : JournalFile} → ¬ Path (Result JournalFile) (err e) (ok f)
not_ok h = cc

module _ {S : Type 0} (b : Backend S) (digest : JournalFile → String) (readable : S → Bool)
    (laws : IsVersioned b readable) where
  -- The journal that was there goes on.
  abbrev pub IsResumed : String → String → S → Result JournalFile × S → Type 0
  IsResumed service stage s (q, s') =
      (f : JournalFile) × (b.load service stage s ≡ ok f)
      × IsInterrupted f.status
      × (q ≡ ok f)
      × (s' ≡ s)

  abbrev pub IsRefused : S → Result JournalFile × S → Type 0
  IsRefused s (q, s') =
      (e : Error) × (q ≡ err e)
      × ((service stage : String) → b.load service stage s' ≡ b.load service stage s)

  -- A fresh journal is stored, above the version of one that had ended.
  abbrev pub IsFresh : String → String → S → Result JournalFile × S → Type 0
  IsFresh service stage s (q, s') =
      (j : JournalFile) × (q ≡ ok j)
      × (b.load service stage s' ≡ ok j)
      × (j.status ≡ status_active)
      × (j.operations ≡ [])
      × ((f : JournalFile)
          → b.load service stage s ≡ ok f
          → (¬ IsInterrupted f.status) × (le_int j.version f.version ≡ false))

  save_new_cases :
      (now : String) (j : JournalFile) (s : S)
      → j.status ≡ status_active
      → j.operations ≡ []
      → readable s ≡ true
      → ((f : JournalFile) → b.load j.service j.stage s ≡ ok f → journal_resumable f.status ≡ false)
      → IsRefused s (save_new b digest now j s)
        ⊎ IsFresh j.service j.stage s (save_new b digest now j s)
  unfolding save_new Journal.save next_revision
  save_new_cases now j s ea eo r old =
      let next = next_revision b digest now j in
      elim (Option-cases (b.save next s).0) [
        | inr (e, q) ↦ inl (e, rw (q, save_new), laws.save_error_keeps next s e q)
        | inl q ↦ inr (
          next,
          rw (q, save_new),
          laws.save_ok_load next s r q,
          ea,
          eo,
          λ f p. (ended-IsInterrupted f.status (old f p), laws.save_ok_above next f s p q),
        )
      ]

  -- Where the backend keeps its contract and the journals can be read, a run goes on with a journal
  -- that is active or rolling back and changes nothing; or it fails and changes no journal; or it
  -- has stored a fresh active journal, and then none was there, or one that had ended and whose
  -- version is below.
  pub resume_or_new_journal_cases :
      (started now service stage operation : String) (s : S)
      → readable s ≡ true
      → let r = resume_or_new_journal b digest started now service stage operation s in
        IsResumed service stage s r ⊎ IsRefused s r ⊎ IsFresh service stage s r
  unfolding resume_or_new_journal new_journal
  resume_or_new_journal_cases started now service stage operation s r =
      let fresh = new_journal service stage operation started in
      let Cases : Result JournalFile × S → Type 0 =
        λ x. IsResumed service stage s x ⊎ IsRefused s x ⊎ IsFresh service stage s x in
      elim (Result-cases (b.load service stage s)) [
        | inl (e, q) ↦
            let step : resume_or_new_journal b digest started now service stage operation s
                ≡ save_new b digest now fresh s =
              rw (q, resume_or_new_journal) in
            subst Cases (sym step)
              (inr (save_new_cases now fresh s refl refl r (λ f p. absurd (not_ok (sym q ∙ p)))))
        | inr (f, q) ↦ elim (Bool-cases (journal_resumable f.status)) [
          | inl go ↦
              let step : resume_or_new_journal b digest started now service stage operation s
                  ≡ (ok f, s) =
                rw (q, resume_or_new_journal) (rw go) in
              subst Cases (sym step) (inl (f, q, resumable-IsInterrupted f.status go, refl, refl))
          | inr ended ↦
              let above = record fresh { version = f.version } in
              let step : resume_or_new_journal b digest started now service stage operation s
                  ≡ save_new b digest now above s =
                rw (q, resume_or_new_journal) (rw ended) in
              subst Cases (sym step) (
                inr (
                  save_new_cases now above s refl refl r
                    (λ g p. same_status f g (sym q ∙ p) ended)))
        ]
      ]
