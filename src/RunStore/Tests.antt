-- ===== src/RunStore/Tests.antt =====
-- platform/core/state/runstore: a table of DynamoDB, and runs of the theorems on it and on a disk.
use runfabric.Prelude.{
  ℕ, String, ◌=?=◌, ◌*◌, lookup, ◌≡◌, ◌≢◌, refl, ◌∙◌, sym, ap, Bool, true, false, ◌&&◌, Option,
  none, some, [], ◌∷◌, if◌then◌else◌, Bool-cases, arith, eq_iff, text_eq_refl, inl, inr, ◌⊎◌, ◌≤◌,
}
use runfabric.Prelude.Int.{pos}
use runfabric.Errors.{ok}
use runfabric.Lease.{second}
use runfabric.Disk.{Disk, write_state_file}
use runfabric.Workflow.Runs.{WorkflowRun, RunStatus, blank}
use runfabric.RunStore.{RunText, json, garbage, Version, Fresh}
use runfabric.RunStore.Contract.{IsRunStore, IsExpected, IsOpen}
use runfabric.RunStore.Local.{run_path, save, local_run_store}
use runfabric.RunStore.Local.Check.{stored as local_stored}
use runfabric.RunStore.Local.Laws.{local_run_store-IsRunStore}
use runfabric.RunStore.Dynamo.{
  Item, Key, Condition, Write, holds, applied, ApiError, condition_failed, service_error, Table,
  IsTable, run_key, lock_key, dynamo_run_store,
}
use runfabric.RunStore.Dynamo.Laws.{stored as dynamo_stored, dynamo_run_store-IsRunStore}
use runfabric.RunStore.Dynamo.Lock.{milliseconds, lock_item, try_acquire, release_lock}
use runfabric.RunStore.Dynamo.Lock.Held.{IsHeld}
use runfabric.RunStore.Dynamo.Lock.Kept.{IsHeldUntil, attempt, release, stop, next, lock_is_kept}

both : {a : Bool} → a ≡ true → a ≡ false → ⊥
both p q = cc

apart : (s t : String) → (s =?= t) ≡ false → s ≢ t
apart s t e h = both ((eq_iff s t).1 h) e

-- The items of a table, and the time.
abbrev Service : Type 0
Service = (Key → Option Item) × ℕ

same_key : Key → Key → Bool
same_key (a, b) (c, d) = a =?= c && b =?= d

abbrev replaced : Key → Option Item → (Key → Option Item) → Key → Option Item
replaced k new items other = if same_key k other then new else items other

abbrev write : Write → Condition → Key → Service → Option ApiError × Service
write w c k (items, now) =
    if holds c (items k)
    then (none, (replaced k (applied w (items k)) items, now))
    else (some condition_failed, (items, now))

abbrev service : Table Service
service = record { get = λ k t. ok (t.0 k); write = write }

abbrev find : Key → Service → Option Item
find k t = t.0 k

same_key-itself : (k : Key) → same_key k k ≡ true
unfolding same_key
same_key-itself (a, b) = rw (text_eq_refl a, text_eq_refl b) refl

same_key-apart : (k l : Key) → k ≢ l → same_key k l ≡ false
unfolding same_key
same_key-apart (a, b) (c, d) h = elim (Bool-cases (a =?= c)) [
  | inr e ↦ rw e refl
  | inl e ↦ elim (Bool-cases (b =?= d)) [
    | inr q ↦ rw (e, q) refl
    | inl q ↦ absurd (h (λ i. ((eq_iff a c).0 e i, (eq_iff b d).0 q i)))
  ]
]

refused_or_made : {e : ApiError} → Path (Option ApiError) (some e) none → ⊥
refused_or_made h = cc

-- What a write of this table does, by its condition.
write_cases :
    (w : Write) (c : Condition) (k : Key) (t : Service)
    → ((holds c (t.0 k) ≡ true)
        × (write w c k t ≡ (none, (replaced k (applied w (t.0 k)) t.0, t.1))))
      ⊎ ((holds c (t.0 k) ≡ false) × (write w c k t ≡ (some condition_failed, t)))
write_cases w c k t = elim (Bool-cases (holds c (t.0 k))) [
  | inl e ↦ inl (e, rw e refl)
  | inr e ↦ inr (e, rw e refl)
]

not_unknown : Path (Option ApiError) (some condition_failed) (some service_error) → ⊥
not_unknown h = cc

service-IsTable : IsTable service find
service-IsTable = record {
  get_ok = λ k t i h. cc;
  write_ok = λ w c k t h. elim (write_cases w c k t) [
    | inl (e, q) ↦ (e, ap (λ x. find k x.1) q ∙ rw (same_key-itself k) refl)
    | inr (e, q) ↦ absurd (refused_or_made (sym (ap (λ x. x.0) q) ∙ h))
  ];
  write_failed = λ w c k t h. elim (write_cases w c k t) [
    | inl (e, q) ↦ absurd (refused_or_made (sym h ∙ ap (λ x. x.0) q))
    | inr (e, q) ↦ (e, ap (λ x. find k x.1) q)
  ];
  write_unknown = λ w c k t h. elim (write_cases w c k t) [
    | inl (e, q) ↦ absurd (refused_or_made (sym h ∙ ap (λ x. x.0) q))
    | inr (e, q) ↦ absurd (not_unknown (sym (ap (λ x. x.0) q) ∙ h))
  ];
  write_others = λ w c k other t h. elim (write_cases w c k t) [
    | inl (e, q) ↦ ap (λ x. find other x.1) q ∙ rw (same_key-apart k other h) refl
    | inr (e, q) ↦ ap (λ x. find other x.1) q
  ];
}

dynamo_run_store-IsRunStore_example :
    IsRunStore IsOpen
      (dynamo_run_store service)
      run_key
      (dynamo_stored service find service-IsTable)
dynamo_run_store-IsRunStore_example = dynamo_run_store-IsRunStore service find service-IsTable

abbrev sum : RunText → Version
sum (json r) = if r.cancel_requested then "c1" else "c0"
sum (garbage s) = "bad"

local_run_store-IsRunStore_example :
    IsRunStore IsExpected
      (local_run_store sum)
      (λ stage run_id. (run_path stage run_id, ""))
      (local_stored sum)
local_run_store-IsRunStore_example = local_run_store-IsRunStore sum

abbrev run : WorkflowRun
run = record {
  run_id = "r1";
  service = "svc";
  stage = "dev";
  provider = "aws-lambda";
  workflow_name = "w";
  workflow_hash = "h";
  entrypoint = "";
  status = RunStatus.running;
  started_at = blank;
  ended_at = blank;
  updated_at = blank;
  duration_ms = pos 0;
  cancel_requested = false;
  replay_from_step = "";
  checkpoint = none;
  steps = [];
  nodes = [];
  total_input_tokens = 0;
  total_output_tokens = 0;
}

abbrev to_cancel : WorkflowRun
to_cancel = record run { cancel_requested = true }

abbrev disk : Disk RunText
disk = record {
  files = (run_path "dev" "r1", json run) ∷ [];
  temp = none;
  torn = garbage "";
  read_fails = false;
  remove_fails = false;
  fails = λ s. false;
}

abbrev fresh : Fresh
fresh = record { now = 5 * second; token = some "t" }

saves : (save sum fresh to_cancel "c0" disk).answer ≡ ok "c1"
unfolding save lookup write_state_file
saves = refl

-- The lock of "a" until 31 seconds, at the time of one second.
abbrev held : Service
held = (
  λ k. if same_key k (lock_key "dev" "r1") then some (lock_item "dev" "r1" "a" 31000) else none,
  second,
)

abbrev clock : Service → ℕ
clock t = t.1

abbrev attempted : Service
attempted = (try_acquire service clock "dev" "r1" "b" (30 * second) held).1

abbrev released : Service
released = (release_lock service clock "dev" "r1" "b" attempted).1

is_held : IsHeld "a" 31000 (find (lock_key "dev" "r1") held)
unfolding lock_item same_key lock_key lookup
is_held = record { there = λ h. cc; by = refl; until = refl }

lock_is_kept_example :
    IsHeldUntil service find service-IsTable clock "dev" "r1" "a" 31000 released
    × ((other : String) (ttl : ℕ)
        → milliseconds (clock released) ≤ 31000
        → (try_acquire service clock "dev" "r1" other ttl released).0 ≢ ok true)
lock_is_kept_example =
    lock_is_kept service find service-IsTable clock "dev" "r1" "a" 31000 held released
      (next held attempted released (attempt "b" (30 * second) held (omega arith)) (
        next attempted released released (release "b" attempted (apart "a" "b" refl))
          (stop released)))
      (31000, is_held, omega arith)
