-- ===== src/Disk.antt =====
-- The part of the file system that a component uses, and platform/core/state/core/atomic_write.go.
-- A directory is an association list from a file's path to its content. Which system calls fail is
-- part of the disk, so a theorem over every disk covers every failure. What `files` holds is what a
-- reader finds, also after a crash: a file that was moved into place before its data was flushed is
-- taken to have lost it.
pub mod Atomic
mod Tests
use runfabric.Prelude.{
  String, Bool, true, false, Option, none, some, List, [], ◌∷◌, ◌++◌, lookup, insert, remove,
  if◌then◌else◌,
}
use runfabric.Errors.{Error, not_exist, io, wrap, Result, ok, err}

-- The system calls of `EnsureStateDir` and `WriteStateFile`, in their order.
pub data WriteStep : Type 0 where
  make_dir chmod_dir create_temp chmod_temp write_temp sync_temp close_temp rename_temp : WriteStep

pub record Disk {ℓ} (A : Type ℓ) : Type ℓ where
  pub files : List (String × A)
  -- the temporary file of a write in progress: whether it is flushed to the disk, and what it holds
  pub temp : Option (Bool × A)
  -- what stands in a file that was not written, or not flushed, before it is moved into place: a
  -- reader may find an empty file there, or part of one
  pub torn : A
  pub read_fails : Bool
  pub remove_fails : Bool
  pub fails : WriteStep → Bool

module _ {ℓ} {A : Type ℓ} where
  -- os.ReadFile
  unfoldable pub read_file : String → Disk A → Result A
  read_file path d =
      if d.read_fails
      then err io
      else elim (lookup path d.files) [ none ↦ err not_exist | some a ↦ ok a ]

  -- os.Remove, where a caller that ignores os.ErrNotExist sees only `io`
  unfoldable pub remove_file : String → Disk A → Option Error × Disk A
  remove_file path d = if d.remove_fails then (some io, d) else elim (lookup path d.files) [
    | none ↦ (some not_exist, d)
    | some a ↦ (none, record d { files = remove path d.files })
  ]

  -- What one system call of a write does when it succeeds.
  unfoldable pub write_step : WriteStep → String → A → Disk A → Disk A
  write_step create_temp path a d = record d { temp = some (false, d.torn) }
  write_step write_temp path a d = record d {
    temp = elim d.temp [ none ↦ none | some t ↦ some (false, a) ];
  }
  write_step sync_temp path a d = record d {
    temp = elim d.temp [ none ↦ none | some (flushed, b) ↦ some (true, b) ];
  }
  write_step rename_temp path a d = record d {
    temp = none;
    files = elim d.temp [
      | none ↦ d.files
      | some (true, b) ↦ insert path b d.files
      | some (false, b) ↦ insert path d.torn d.files
    ];
  }
  write_step _ path a d = d

  -- `if err := …; err != nil { return … }` for each call
  unfoldable pub write_steps : List WriteStep → String → A → Disk A → Option WriteStep × Disk A
  write_steps [] path a d = (none, d)
  write_steps (s ∷ rest) path a d =
      let next = write_steps rest path a (write_step s path a d) in
      if d.fails s then (some s, d) else next

unfoldable pub write_error : WriteStep → Error
write_error make_dir = wrap "create state dir" io
write_error chmod_dir = wrap "chmod state dir" io
write_error create_temp = wrap "create temp state file" io
write_error chmod_temp = wrap "chmod temp state file" io
write_error write_temp = wrap "write temp state file" io
write_error sync_temp = wrap "sync temp state file" io
write_error close_temp = wrap "close temp state file" io
write_error rename_temp = wrap "move state file into place" io

-- EnsureStateDir
abbrev ensure_state_dir : List WriteStep
ensure_state_dir = make_dir ∷ chmod_dir ∷ []

abbrev pub all_steps : List WriteStep
all_steps =
    ensure_state_dir
    ++ create_temp ∷ chmod_temp ∷ write_temp ∷ sync_temp ∷ close_temp ∷ rename_temp ∷ []

module _ {ℓ} {A : Type ℓ} where
  -- The deferred os.Remove drops the temporary file on every return.
  unfoldable pub write_state_file : String → A → Disk A → Option Error × Disk A
  unfolding write_steps write_step write_error
  write_state_file path a d =
      let (failed, d') = write_steps all_steps path a d in
      (elim failed [ none ↦ none | some s ↦ some (write_error s) ], record d' { temp = none })
