-- ===== src/RunStore/Local/Check.antt =====
-- platform/core/state/runstore/local.go: the check of the version before a write.
use runfabric.Prelude.{
  String, ◌=?=◌, ◌≡◌, ◌≢◌, refl, sym, ap, Option, none, some, ◌⊎◌, inl, inr, Bool-cases,
  Option-cases, subst, arith, eq_iff, lookup,
}
use runfabric.Errors.{Error, io, not_exist, wrap, ok, err}
use runfabric.Disk.{Disk, read_file}
use runfabric.Workflow.Runs.{WorkflowRun}
use runfabric.RunStore.{
  RunText, unmarshal, Fresh, Saved, Version, version_conflict, lacks_names, run_names_error,
}
use runfabric.RunStore.Contract.{Entry, IsExpected, IsConflict, run_of}
use runfabric.RunStore.Local.{
  run_path, conflict_of, version_answer, current_version, refused, check, write, save,
}

-- A read sees the file, unless it fails.
pub read_cases :
    (p : String) (d : Disk RunText)
    → (read_file p d ≡ err io)
      ⊎ ((lookup p d.files ≡ none) × (read_file p d ≡ err not_exist))
      ⊎ ((c : RunText) × (lookup p d.files ≡ some c) × (read_file p d ≡ ok c))
unfolding read_file
read_cases p d = elim (Bool-cases d.read_fails) [
  | inl e ↦ inl (rw (e, read_file) refl)
  | inr e ↦ elim (Option-cases (lookup p d.files)) [
    | inl q ↦ inr (inl (q, rw (e, q, read_file) refl))
    | inr (c, q) ↦ inr (inr (c, q, rw (e, q, read_file) refl))
  ]
]

-- What the check of a save finds of the entry `old`.
pub data IsChecked (expected : Version) (old : Option Entry) : Option Error → Type 0 where
  passed : IsExpected expected old → IsChecked expected old none
  stale :
      (s : String)
      → expected ≢ ""
      → ((q : Option WorkflowRun) → old ≢ some (q, expected))
      → IsChecked expected old (some (wrap s version_conflict))
  unread : IsChecked expected old (some io)

other_version :
    {q q' : Option WorkflowRun} {u v : Version}
    → Path (Option Entry) (some (q, u)) (some (q', v))
    → u ≡ v
other_version h = cc

module _ (digest : RunText → Version) where
  abbrev pub entry_of : Option RunText → Option Entry
  entry_of none = none
  entry_of (some c) = some (run_of (unmarshal c), digest c)

  abbrev pub stored : String → String → Disk RunText → Option Entry
  stored stage run_id d = entry_of (lookup (run_path stage run_id) d.files)

  missing-IsChecked :
      (expected : Version) → expected ≢ "" → IsChecked expected none (refused expected (ok ""))
  unfolding refused conflict_of
  missing-IsChecked expected ne = elim (Bool-cases ("" =?= expected)) [
    | inl e ↦ absurd (ne (sym ((eq_iff "" expected).0 e)))
    | inr e ↦ rw (e, refused) (stale _ ne (λ q h. cc))
  ]

  found-IsChecked :
      (expected : Version) (c : RunText)
      → expected ≢ ""
      → IsChecked expected (entry_of (some c)) (refused expected (ok (digest c)))
  unfolding refused conflict_of
  found-IsChecked expected c ne = elim (Bool-cases (digest c =?= expected)) [
    | inl e ↦
        rw (e, refused)
          (passed
            (λ k. (_, ap (λ v. some (run_of (unmarshal c), v)) ((eq_iff (digest c) expected).0 e))))
    | inr e ↦
        rw (e, refused)
          (stale _ ne (λ q h. ground (arith, e, other_version h, eq_iff (digest c) expected)))
  ]

  check-IsChecked :
      (r : WorkflowRun) (expected : Version) (d : Disk RunText)
      → IsChecked expected (stored r.stage r.run_id d) (check digest r expected d)
  unfolding check current_version version_answer refused
  check-IsChecked r expected d = elim (Bool-cases (expected =?= "")) [
    | inl e ↦ rw (e, check) (passed (λ ne. absurd (ne ((eq_iff expected "").0 e))))
    | inr e ↦
        let ne : expected ≢ "" = ground (arith, e, eq_iff expected "") in
        elim (read_cases (run_path r.stage r.run_id) d) [
          | inl q ↦ rw (e, check) (rw (q, refused) unread)
          | inr (inl (k, q)) ↦ rw (e, check) (rw (q, k) (missing-IsChecked expected ne))
          | inr (inr (c, k, q)) ↦ rw (e, check) (rw (q, k) (found-IsChecked expected c ne))
        ]
  ]

  -- A save that does not write.
  pub record IsSkipped (expected : Version) (old : Option Entry) (d : Disk RunText)
      (o : Saved (Disk RunText)) : Type 0 where
    pub error : Error
    pub answer : o.answer ≡ err error
    pub untouched : o.store ≡ d
    pub stale :
        IsConflict error → (expected ≢ "") × ((q : Option WorkflowRun) → old ≢ some (q, expected))

  skipped :
      (expected : Version) (old : Option Entry) (d : Disk RunText) (r : WorkflowRun) (e : Error)
      → IsChecked expected old (some e)
      → IsSkipped expected old d (record { answer = err e; run = r; store = d })
  skipped expected old d r e (stale s a b) = record {
    error = e;
    answer = refl;
    untouched = refl;
    stale = λ c. (a, b);
  }
  skipped expected old d r e unread = record {
    error = e;
    answer = refl;
    untouched = refl;
    stale = λ (s, q). cc;
  }

  is_open :
      (expected : Version) (old : Option Entry) (c : Option Error)
      → IsChecked expected old c
      → c ≡ none
      → IsExpected expected old
  is_open expected old c (passed x) e = x
  is_open expected old c (stale s x y) e = cc
  is_open expected old c unread e = cc

  pub save_cases :
      (f : Fresh) (r : WorkflowRun) (expected : Version) (d : Disk RunText)
      → IsSkipped expected (stored r.stage r.run_id d) d (save digest f r expected d)
        ⊎ (IsExpected expected (stored r.stage r.run_id d)
            × (save digest f r expected d ≡ write digest f r d))
  unfolding save
  save_cases f r expected d = elim (Bool-cases (lacks_names r.run_id r.stage)) [
    | inl e ↦ inl (
        rw (e, save)
          (record {
            error = run_names_error;
            answer = refl;
            untouched = refl;
            stale = λ (s, q). cc;
          }))
    | inr e ↦ elim (Option-cases (check digest r expected d)) [
      | inl q ↦ inr (is_open expected _ _ (check-IsChecked r expected d) q, rw (e, q, save) refl)
      | inr (x, q) ↦ inl (
          rw (e, q, save)
            (skipped expected _ d r x (
              subst (IsChecked expected (stored r.stage r.run_id d)) q
                (check-IsChecked r expected d))))
    ]
  ]
