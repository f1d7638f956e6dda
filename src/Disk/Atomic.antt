-- ===== src/Disk/Atomic.antt =====
-- platform/core/state/core/atomic_write.go: what a reader sees of a write that fails or crashes.
use runfabric.Prelude.{
  String, ℕ, zero, suc, take, Bool, false, ap, ◌≡◌, ◌⊎◌, true, Option, none, some, List, [], ◌∷◌,
  lookup, insert, lookup-insert, arith, refl, ◌∙◌, inl, inr, Bool-cases, ◌=?=◌,
}
use runfabric.Disk.{
  Disk, WriteStep, make_dir, chmod_dir, create_temp, chmod_temp, write_temp, sync_temp, close_temp,
  rename_temp, write_error, write_state_file, write_steps, write_step, all_steps,
}

module _ {ℓ} {A : Type ℓ} (path : String) (a : A) where
  -- Either no call failed and `path` holds `a`, or one did and the files are `before`.
  abbrev Outcome : List (String × A) → Option WriteStep × Disk A → Type ℓ
  Outcome before r =
      ((r.0 ≡ none) × (r.1.files ≡ insert path a before))
      ⊎ ((s : WriteStep) × (r.0 ≡ some s) × (r.1.files ≡ before))

  Outcome-cons :
      (before : List (String × A)) (s : WriteStep) (rest : List WriteStep) (d : Disk A)
      → d.files ≡ before
      → Outcome before (write_steps rest path a (write_step s path a d))
      → Outcome before (write_steps (s ∷ rest) path a d)
  unfolding write_steps
  Outcome-cons before s rest d e h = elim (Bool-cases (d.fails s)) [
    | inl f ↦ rw f (inr (s, refl, e))
    | inr f ↦ rw f h
  ]

  Outcome-last :
      (before : List (String × A)) (d : Disk A)
      → d.files ≡ before
      → d.temp ≡ some (true, a)
      → Outcome before (write_steps (rename_temp ∷ []) path a d)
  unfolding write_steps write_step
  Outcome-last before d e t = elim (Bool-cases (d.fails rename_temp)) [
    | inl f ↦ rw f (inr (rename_temp, refl, e))
    | inr f ↦ rw f (rw (t, e) (inl (refl, refl)))
  ]

  Outcome-write : (d : Disk A) → Outcome d.files (write_steps all_steps path a d)
  unfolding write_step
  Outcome-write d = Outcome-cons d.files make_dir _ _ refl (
      Outcome-cons d.files chmod_dir _ _ refl (
        Outcome-cons d.files create_temp _ _ refl (
          Outcome-cons d.files chmod_temp _ _ refl (
            Outcome-cons d.files write_temp _ _ refl (
              Outcome-cons d.files sync_temp _ _ refl
                (Outcome-cons d.files close_temp _ _ refl (Outcome-last d.files _ refl refl)))))))

  abbrev no_rename : List WriteStep → Bool
  no_rename [] = true
  no_rename (rename_temp ∷ rest) = false
  no_rename (s ∷ rest) = no_rename rest

  files-write_step :
      (s : WriteStep) (rest : List WriteStep) (d : Disk A)
      → no_rename (s ∷ rest) ≡ true
      → (no_rename rest ≡ true) × ((write_step s path a d).files ≡ d.files)
  unfolding write_step
  files-write_step create_temp rest d h = (h, refl)
  files-write_step write_temp rest d h = (h, refl)
  files-write_step sync_temp rest d h = (h, refl)
  files-write_step rename_temp rest d h = cc
  files-write_step make_dir rest d h = (h, refl)
  files-write_step chmod_dir rest d h = (h, refl)
  files-write_step chmod_temp rest d h = (h, refl)
  files-write_step close_temp rest d h = (h, refl)

  -- Only the rename changes a file.
  files-write_steps :
      (l : List WriteStep) (d : Disk A)
      → no_rename l ≡ true
      → (write_steps l path a d).1.files ≡ d.files
  unfolding write_steps
  files-write_steps [] d h = refl
  files-write_steps (s ∷ rest) d h =
      let (h', same) = files-write_step s rest d h in
      elim (Bool-cases (d.fails s)) [
        | inl f ↦ rw f refl
        | inr f ↦ rw f (files-write_steps rest (write_step s path a d) h' ∙ same)
      ]

  prefix_cases :
      (n : ℕ) (d : Disk A)
      → ((write_steps (take n all_steps) path a d).1.files ≡ d.files)
        ⊎ ((write_steps (take n all_steps) path a d).1.files ≡ insert path a d.files)
  prefix_cases zero d = inl (files-write_steps (take 0 all_steps) d refl)
  prefix_cases (suc zero) d = inl (files-write_steps (take 1 all_steps) d refl)
  prefix_cases (suc (suc zero)) d = inl (files-write_steps (take 2 all_steps) d refl)
  prefix_cases (suc (suc (suc zero))) d = inl (files-write_steps (take 3 all_steps) d refl)
  prefix_cases (suc (suc (suc (suc zero)))) d = inl (files-write_steps (take 4 all_steps) d refl)
  prefix_cases (suc (suc (suc (suc (suc zero))))) d =
      inl (files-write_steps (take 5 all_steps) d refl)
  prefix_cases (suc (suc (suc (suc (suc (suc zero)))))) d =
      inl (files-write_steps (take 6 all_steps) d refl)
  prefix_cases (suc (suc (suc (suc (suc (suc (suc zero))))))) d =
      inl (files-write_steps (take 7 all_steps) d refl)
  prefix_cases (suc (suc (suc (suc (suc (suc (suc (suc n)))))))) d = elim (Outcome-write d) [
    | inl (e, f) ↦ inr f
    | inr (s, e, f) ↦ inl f
  ]

module _ {ℓ} {A : Type ℓ} (path : String) (a : A) where
  read_fails-write_step :
      (s : WriteStep) (d : Disk A) → (write_step s path a d).read_fails ≡ d.read_fails
  unfolding write_step
  read_fails-write_step create_temp d = refl
  read_fails-write_step sync_temp d = refl
  read_fails-write_step _ d = refl

  read_fails-write_steps :
      (l : List WriteStep) (d : Disk A) → (write_steps l path a d).1.read_fails ≡ d.read_fails
  unfolding write_steps
  read_fails-write_steps [] d = refl
  read_fails-write_steps (s ∷ rest) d = elim (Bool-cases (d.fails s)) [
    | inl f ↦ rw f refl
    | inr f ↦ rw f (read_fails-write_steps rest (write_step s path a d) ∙ read_fails-write_step s d)
  ]

-- A write changes nothing of which reads fail.
pub read_fails-write_state_file {ℓ} :
    {A : Type ℓ} (path : String) (a : A) (d : Disk A)
    → (write_state_file path a d).1.read_fails ≡ d.read_fails
unfolding write_state_file
read_fails-write_state_file path a d = read_fails-write_steps path a all_steps d

-- If the process stops after any number of the calls of a write, in their order, and whichever of
-- them fails, a reader of any file finds what it held before, or, in the written file, the whole of
-- the new content: never what a file holds that is moved into place before it is written or flushed.
pub write_is_atomic {ℓ} :
    {A : Type ℓ} (path : String) (a : A) (d : Disk A) (n : ℕ) (j : String)
    → let (failed, after) = write_steps (take n all_steps) path a d in
      (lookup j after.files ≡ lookup j d.files)
      ⊎ ((path =?= j) ≡ true) × (lookup j after.files ≡ some a)
write_is_atomic path a d n j = elim (prefix_cases path a n d) [
  | inl e ↦ inl (ap (lookup j) e)
  | inr e ↦ rw e (rw lookup-insert (ground arith))
]

-- A write that returns no error has put the content in its file and changed no other file; a
-- write that returns an error has changed no file. Either way no temporary file is left.
pub write_state_file_cases {ℓ} :
    {A : Type ℓ} (path : String) (a : A) (d : Disk A)
    → (((write_state_file path a d).0 ≡ none)
          × ((write_state_file path a d).1.files ≡ insert path a d.files)
        ⊎ ((s : WriteStep) × ((write_state_file path a d).0 ≡ some (write_error s))
            × ((write_state_file path a d).1.files ≡ d.files)))
      × ((write_state_file path a d).1.temp ≡ none)
unfolding write_state_file
write_state_file_cases path a d = elim (Outcome-write path a d) [
  | inl (e, f) ↦ (inl (rw (e, write_state_file) refl, f), refl)
  | inr (s, e, f) ↦ (inr (s, rw (e, write_state_file) refl, f), refl)
]
