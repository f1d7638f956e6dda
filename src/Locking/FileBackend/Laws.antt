-- ===== src/Locking/FileBackend/Laws.antt =====
-- platform/state/locking/file_backend.go: leases, and who may take a lock.
use runfabric.Prelude.{
  ℕ, ◌+◌, ◌≤◌, String, ◌=?=◌, ◌≡◌, refl, ap, subst, ◌∙◌, ◌⊎◌, inl, inr, Bool, true, false, Option,
  none, some, arith, lookup, insert, remove, lookup-insert, lookup-remove, if◌then◌else◌,
}
use runfabric.Errors.{Result-cases, Error, wrap, io, Result, ok, err}
use runfabric.Locking.Handle.{Handle}
use runfabric.Locking.FileBackend.{
  LockDir, LockRecord, Content, json, second, lock_path, read, remove_lock, is_expired, held_error,
  clear_expired, new_record, create_exclusive, take_lock, handle_for, acquire,
}

create_exclusive_ok :
    (path : String) (r : LockRecord) (d : LockDir)
    → (create_exclusive path r d).0 ≡ none
    → (lookup path d.files ≡ none)
      × ((create_exclusive path r d).1 ≡ record d { files = insert path (json r) d.files })
unfolding create_exclusive
create_exclusive_ok path r d e = ground arith

pub clear_expired_ok :
    (seen : ℕ) (path : String) (found : Result LockRecord) (d d' : LockDir)
    → clear_expired seen path found d ≡ ok d'
    → (d' ≡ d) × ((x : Error) × (found ≡ err x))
      ⊎ (d' ≡ record d { files = remove path d.files })
        × ((r : LockRecord) × (found ≡ ok r) × (is_expired seen r.expires_at ≡ true))
unfolding clear_expired remove_lock
clear_expired_ok seen path (err x) d d' e = inl (ground arith, (x, refl))
clear_expired_ok seen path (ok r) d d' e = inr (ground arith, (r, refl, ground arith))

-- A lock whose record can be read and has not expired is not taken: whoever asks gets an error,
-- and no file changes.
pub acquire_held :
    (seen now clock : ℕ) (token : Option String) (pid : ℕ) (service stage operation : String)
    (stale_after : ℕ) (d : LockDir) (r : LockRecord)
    → read service stage d ≡ ok r
    → is_expired seen r.expires_at ≡ false
    → acquire seen now clock token pid service stage operation stale_after d
      ≡ (if d.mkdir_fails then err (wrap "create lock dir" io) else err (held_error r), d)
unfolding acquire clear_expired
acquire_held seen now clock token pid service stage operation stale_after d r found live =
    ground arith

pub live-new_record :
    (service stage operation t : String) (pid now stale_after seen : ℕ)
    → seen + second ≤ now + stale_after
    → is_expired seen (new_record service stage operation t pid now stale_after).expires_at ≡ false
unfolding new_record is_expired
live-new_record service stage operation t pid now stale_after seen h = ground arith

if_twice :
    (b : Bool) (v x y z : Option Content)
    → x ≡ (if b then y else z)
    → (if b then v else x) ≡ (if b then v else z)
if_twice true v x y z e = refl
if_twice false v x y z e = e

module _ (now clock pid : ℕ) (service stage operation : String) (stale_after : ℕ) where
  -- What a successful end of `Acquire` has done: the file was absent, and is the new record.
  abbrev Taken : Option String → LockDir → Handle LockDir → LockDir → Type 0
  Taken token d h d' =
      (t : String) × (token ≡ some t)
      × (lookup (lock_path service stage) d.files ≡ none)
      × (h ≡ handle_for clock service stage t)
      × (d' ≡ record d {
        files =
            insert (lock_path service stage)
              (json (new_record service stage operation t pid now stale_after)) d.files;
      })

  take_lock_ok :
      (token : Option String) (d : LockDir) (h : Handle LockDir)
      → (take_lock now clock token pid service stage operation stale_after d).0 ≡ ok h
      → Taken token d h (take_lock now clock token pid service stage operation stale_after d).1
  unfolding take_lock
  take_lock_ok none d h e = cc
  take_lock_ok (some t) d h e =
      let p = lock_path service stage in
      let r = new_record service stage operation t pid now stale_after in
      let c : (lookup p d.files ≡ none)
          × ((create_exclusive p r d).1 ≡ record d { files = insert p (json r) d.files }) =
        create_exclusive_ok p r d (ground arith) in
      (t, refl, c.0, ground arith, c.1)

  pub acquire_ok_cases :
      (seen : ℕ) (token : Option String) (d : LockDir) (h : Handle LockDir)
      → (acquire seen now clock token pid service stage operation stale_after d).0 ≡ ok h
      → (d' : LockDir) × (clear_expired seen (lock_path service stage) (read service stage d) d
          ≡ ok d')
        × Taken token d' h
            (acquire seen now clock token pid service stage operation stale_after d).1
  unfolding acquire
  acquire_ok_cases seen token d h e =
      elim (Result-cases (clear_expired seen (lock_path service stage) (read service stage d) d)) [
        | inl (x, c) ↦ absurd (ground arith)
        | inr (d', c) ↦
            let t : Taken token d' h
                (take_lock now clock token pid service stage operation stale_after d').1 =
              take_lock_ok token d' h (ground arith) in
            (d', c, (t.0, t.1, t.2, t.3, ground (arith, t.4)))
      ]

  -- Who gets a lock has found no file, or one whose record had expired, and then stands in the
  -- file as its owner, with the lease asked for. The locks of all other names are as they were.
  pub acquire_ok :
      (seen : ℕ) (token : Option String) (d : LockDir) (h : Handle LockDir)
      → (acquire seen now clock token pid service stage operation stale_after d).0 ≡ ok h
      → let p = lock_path service stage in
        let d' = (acquire seen now clock token pid service stage operation stale_after d).1 in
        ((lookup p d.files ≡ none)
          ⊎ ((r : LockRecord) × (read service stage d ≡ ok r)
              × (is_expired seen r.expires_at ≡ true)))
        × ((t : String) × (token ≡ some t)
            × (h ≡ handle_for clock service stage t)
            × ((q : String)
                → lookup q d'.files ≡ (
                    if p =?= q
                    then some (json (new_record service stage operation t pid now stale_after))
                    else lookup q d.files)))
  acquire_ok seen token d h e =
      let (d', c, (t, et, ln, eh, e')) = acquire_ok_cases seen token d h e in
      let p = lock_path service stage in
      let v : Content = json (new_record service stage operation t pid now stale_after) in
      let at =
        λ (q : String). ap (λ (x : LockDir). lookup q x.files) e' ∙ lookup-insert p q v d'.files in
      elim (clear_expired_ok seen p (read service stage d) d d' c) [
        | inl (same, (x, f)) ↦ (
          inl (subst (λ (x : LockDir). lookup p x.files ≡ none) same ln),
          (
            t,
            et,
            eh,
            λ q. at q ∙ ap (λ (x : LockDir). if p =?= q then some v else lookup q x.files) same,
          ),
        )
        | inr (gone, (r, f, old)) ↦ (
          inr (r, f, old),
          (
            t,
            et,
            eh,
            λ q.
                at q
                ∙ ap (λ (x : LockDir). if p =?= q then some v else lookup q x.files) gone
                ∙ if_twice (p =?= q) _ _ _ _ (lookup-remove p q d.files),
          ),
        )
      ]
