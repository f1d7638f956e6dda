-- ===== src/RunStore/Local/Laws.antt =====
-- platform/core/state/runstore/local.go: files keep the contract of a run store.
use runfabric.Prelude.{
  String, ◌=?=◌, ◌≡◌, ◌≢◌, refl, ◌∙◌, sym, ap, false, Option, none, some, List, if◌then◌else◌, ◌⊎◌,
  inl, inr, Bool-cases, subst, arith, eq_iff, lookup, insert, lookup-insert, text_eq_refl,
}
use runfabric.Errors.{Error, io, wrap, Result, ok, err}
use runfabric.Disk.{Disk, read_file, write_error, WriteStep}
use runfabric.Disk.Atomic.{write_state_file_cases}
use runfabric.Workflow.Runs.{WorkflowRun}
use runfabric.RunStore.{
  RunText, json, garbage, unmarshal, Fresh, Version, not_found, version_conflict, touched,
  lacks_names, names_error,
}
use runfabric.RunStore.Contract.{
  IsConflict, IsExpected, IsRunStore, ok_version, not_both, not_loaded, same_error, names_found,
}
use runfabric.RunStore.Local.{run_path, loaded, read_answer, load, write, local_run_store}
use runfabric.RunStore.Local.Check.{entry_of, stored, read_cases, save_cases}

io_found : Path (Result (WorkflowRun × Version)) (err io) (err not_found) → ⊥
io_found p = cc

write_no_conflict : (s : WriteStep) (t : String) → write_error s ≢ wrap t version_conflict
unfolding write_error
write_no_conflict WriteStep.make_dir t h = cc
write_no_conflict WriteStep.chmod_dir t h = cc
write_no_conflict WriteStep.create_temp t h = cc
write_no_conflict WriteStep.chmod_temp t h = cc
write_no_conflict WriteStep.write_temp t h = cc
write_no_conflict WriteStep.sync_temp t h = cc
write_no_conflict WriteStep.close_temp t h = cc
write_no_conflict WriteStep.rename_temp t h = cc

after_write :
    (p q : String) (r : WorkflowRun) (files files' : List (String × RunText))
    → files' ≡ insert p (json r) files
    → lookup q files' ≡ (if p =?= q then some (json r) else lookup q files)
after_write p q r files files' e = ap (lookup q) e ∙ lookup-insert p q (json r) files

at_itself : (p : String) (x y : Option RunText) → (if p =?= p then x else y) ≡ x
at_itself p x y = rw (text_eq_refl p) refl

module _ (digest : RunText → Version) where
  write_cases :
      (f : Fresh) (r : WorkflowRun) (d : Disk RunText)
      → let o = write digest f r d in
        let data_written = json (touched f.now r) in
        ((o.answer ≡ ok (digest data_written))
          × (o.store.files ≡ insert (run_path r.stage r.run_id) data_written d.files))
        ⊎ ((s : WriteStep) × (o.answer ≡ err (write_error s)) × (o.store.files ≡ d.files))
  unfolding write
  write_cases f r d =
      elim (write_state_file_cases (run_path r.stage r.run_id) (json (touched f.now r)) d).0 [
        | inl (e, k) ↦ inl (rw (e, write) refl, k)
        | inr (s, e, k) ↦ inr (s, rw (e, write) refl, k)
      ]

  load_answer :
      (stage run_id : String) (d : Disk RunText)
      → (load digest stage run_id d ≡ err names_error)
        ⊎ (load digest stage run_id d ≡ read_answer digest (read_file (run_path stage run_id) d))
  unfolding load
  load_answer stage run_id d = elim (Bool-cases (lacks_names stage run_id)) [
    | inl e ↦ inl (rw (e, load) refl)
    | inr e ↦ inr (rw (e, load) refl)
  ]

  loaded_entry :
      (c : RunText) (r : WorkflowRun) (v : Version)
      → loaded digest c ≡ ok (r, v)
      → entry_of digest (some c) ≡ some (some r, v)
  unfolding loaded unmarshal
  loaded_entry (json x) r v h = cc
  loaded_entry (garbage s) r v h = cc

  loaded_found : (c : RunText) → loaded digest c ≢ err not_found
  unfolding loaded unmarshal
  loaded_found (json x) h = cc
  loaded_found (garbage s) h = cc

  load_entry :
      (stage run_id : String) (d : Disk RunText) (r : WorkflowRun) (v : Version)
      → read_answer digest (read_file (run_path stage run_id) d) ≡ ok (r, v)
      → stored digest stage run_id d ≡ some (some r, v)
  unfolding read_answer
  load_entry stage run_id d r v h = elim (read_cases (run_path stage run_id) d) [
    | inl q ↦ absurd (not_loaded (ap (read_answer digest) q) h)
    | inr (inl (k, q)) ↦ absurd (not_loaded (ap (read_answer digest) q) h)
    | inr (inr (c, k, q)) ↦
        ap (entry_of digest) k ∙ loaded_entry c r v (sym (ap (read_answer digest) q) ∙ h)
  ]

  load_nothing :
      (stage run_id : String) (d : Disk RunText)
      → read_answer digest (read_file (run_path stage run_id) d) ≡ err not_found
      → stored digest stage run_id d ≡ none
  unfolding read_answer
  load_nothing stage run_id d h = elim (read_cases (run_path stage run_id) d) [
    | inl q ↦ absurd (io_found (sym (ap (read_answer digest) q) ∙ h))
    | inr (inl (k, q)) ↦ ap (entry_of digest) k
    | inr (inr (c, k, q)) ↦ absurd (loaded_found c (sym (ap (read_answer digest) q) ∙ h))
  ]

  write_ok :
      (f : Fresh) (r : WorkflowRun) (d : Disk RunText) (v : Version)
      → (write digest f r d).answer ≡ ok v
      → stored digest r.stage r.run_id (write digest f r d).store ≡ some (some (touched f.now r), v)
  unfolding unmarshal
  write_ok f r d v h =
      let p = run_path r.stage r.run_id in
      elim (write_cases f r d) [
        | inr (s, e, k) ↦ absurd (not_both e h)
        | inl (e, k) ↦
            ap (entry_of digest) (after_write p p (touched f.now r) d.files _ k ∙ at_itself p _ _)
            ∙ ap (λ x. some (some (touched f.now r), x)) (ok_version (sym e ∙ h))
      ]

  write_failed :
      (f : Fresh) (r : WorkflowRun) (d : Disk RunText) (e : Error)
      → (write digest f r d).answer ≡ err e
      → (¬ IsConflict e)
        × ((p : String) → lookup p (write digest f r d).store.files ≡ lookup p d.files)
  write_failed f r d e h = elim (write_cases f r d) [
    | inl (q, k) ↦ absurd (not_both h q)
    | inr (s, q, k) ↦ (λ (t, c). write_no_conflict s t (same_error q h ∙ c), λ p. ap (lookup p) k)
  ]

  write_others :
      (f : Fresh) (r : WorkflowRun) (d : Disk RunText) (p : String)
      → run_path r.stage r.run_id ≢ p
      → lookup p (write digest f r d).store.files ≡ lookup p d.files
  write_others f r d p apart = elim (write_cases f r d) [
    | inl (e, k) ↦
        let q = run_path r.stage r.run_id in
        let other : (q =?= p) ≡ false = ground (arith, apart, eq_iff q p) in
        after_write q p (touched f.now r) d.files _ k ∙ rw other refl
    | inr (s, e, k) ↦ ap (lookup p) k
  ]

  written-store :
      (f : Fresh) (r : WorkflowRun) (d : Disk RunText) → (write digest f r d).run ≡ touched f.now r
  unfolding write
  written-store f r d = refl

  -- The run files keep the contract of the interface, by which a save that expects a version replaces
  -- only a stored run of that version, whichever system calls fail and whatever the digest is.
  pub local_run_store-IsRunStore :
      IsRunStore IsExpected
        (local_run_store digest)
        (λ stage run_id. (run_path stage run_id, ""))
        (stored digest)
  local_run_store-IsRunStore = record {
    load_ok = λ stage run_id d r v h. elim (load_answer stage run_id d) [
      | inl e ↦ absurd (not_loaded e h)
      | inr q ↦ load_entry stage run_id d r v (sym q ∙ h)
    ];
    load_missing = λ stage run_id d h. elim (load_answer stage run_id d) [
      | inl e ↦ absurd (names_found (sym e ∙ h))
      | inr q ↦ load_nothing stage run_id d (sym q ∙ h)
    ];
    save_ok = λ f r expected d v h. elim (save_cases digest f r expected d) [
      | inl k ↦ absurd (not_both k.answer h)
      | inr (free, q) ↦ (
        ap (λ o. stored digest r.stage r.run_id o.store) q
            ∙ write_ok f r d v (sym (ap (λ o. o.answer) q) ∙ h),
        ap (λ o. o.run) q ∙ written-store f r d,
        free,
      )
    ];
    save_conflict = λ f r expected d e h c. elim (save_cases digest f r expected d) [
      | inl k ↦
          let x = k.stale (subst IsConflict (same_error h k.answer) c) in
          (ap (stored digest r.stage r.run_id) k.untouched, x.0, x.1)
      | inr (free, q) ↦ absurd ((write_failed f r d e (sym (ap (λ o. o.answer) q) ∙ h)).0 c)
    ];
    save_error = λ f r expected d e h. elim (save_cases digest f r expected d) [
      | inl k ↦ inl (ap (stored digest r.stage r.run_id) k.untouched)
      | inr (free, q) ↦ inl (
          ap (λ o. stored digest r.stage r.run_id o.store) q
          ∙ ap (entry_of digest) (
              (write_failed f r d e (sym (ap (λ o. o.answer) q) ∙ h)).1
                (run_path r.stage r.run_id)))
    ];
    save_others = λ f r expected d stage run_id apart. elim (save_cases digest f r expected d) [
      | inl k ↦ ap (stored digest stage run_id) k.untouched
      | inr (free, q) ↦
          ap (λ o. stored digest stage run_id o.store) q
          ∙ ap (entry_of digest)
              (write_others f r d (run_path stage run_id) (λ same. apart (ap (λ x. (x, "")) same)))
    ];
  }
