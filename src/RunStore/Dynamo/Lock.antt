-- ===== src/RunStore/Dynamo/Lock.antt =====
-- platform/core/state/runstore/dynamodb.go: Lock and what belongs to it. `clock` is the time, in
-- nanoseconds, at which a state of the service is seen.
pub mod Held
pub mod Kept
use runfabric.Prelude.{
  ℕ, suc, String, ◌<>◌, ◌+◌, ◌*◌, ◌/◌, Bool, true, false, ◌||◌, Option, none, some, List, [], ◌∷◌,
  if◌then◌else◌,
}
use runfabric.Prelude.Int.{ℤ, pos, negsuc}
use runfabric.Errors.{Error, io, message, wrap, Result, ok, err}
use runfabric.Lease.{Managed, manage, second}
use runfabric.RunStore.{lacks_names, names_error, lock_held}
use runfabric.RunStore.Dynamo.{
  AttributeValue, text_value, number_value, Item, Key, Condition, absent_or_below, equal, put_item,
  set_attribute, delete_item, ApiError, condition_failed, service_error, Table, lock_key,
  key_attributes,
}

abbrev default_lock_ttl : ℕ
default_lock_ttl = 30 * second

unfoldable pub lock_ttl : ℤ → ℕ
lock_ttl (pos (suc n)) = suc n
lock_ttl other = default_lock_ttl

-- time.UnixMilli and Duration.Milliseconds
abbrev pub milliseconds : ℕ → ℕ
milliseconds t = t / 1000000

unfoldable pub lock_item : String → String → String → ℕ → Item
unfolding lock_key
lock_item stage run_id owner expires =
    key_attributes (lock_key stage run_id)
      (("owner", text_value owner) ∷ ("expiresAt", number_value expires) ∷ [])

unfoldable pub acquire_answer : Option ApiError → Result Bool
acquire_answer none = ok true
acquire_answer (some condition_failed) = ok false
acquire_answer (some service_error) = err (wrap "runstore: dynamodb lock put" io)

unfoldable pub renew_answer : String → String → Option ApiError → Option Error
renew_answer stage run_id (some condition_failed) = some (
    wrap ("runstore: lease for " <> stage <> "/" <> run_id <> " lost to another owner")
      (message "ConditionalCheckFailedException"))
renew_answer stage run_id _ = none

unfoldable pub release_answer : Option ApiError → Option Error
release_answer (some service_error) = some (wrap "runstore: dynamodb lock release" io)
release_answer _ = none

unfoldable pub held_error : String → String → String → Error
held_error stage run_id ctx_err =
    wrap (": " <> stage <> "/" <> run_id <> " (" <> ctx_err <> ")") lock_held

module _ {T : Type 0} (tb : Table T) (clock : T → ℕ) (stage run_id owner : String) where
  unfoldable pub try_acquire : ℕ → T → Result Bool × T
  unfolding lock_item acquire_answer
  try_acquire ttl t =
      let now_ms = milliseconds (clock t) in
      let (e, t') =
        tb.write (put_item (lock_item stage run_id owner (now_ms + milliseconds ttl)))
          (absent_or_below "pk" "expiresAt" now_ms) (lock_key stage run_id) t in
      (acquire_answer e, t')

  -- renewFunc
  unfoldable pub renew : ℕ → T → Option Error × T
  unfolding renew_answer
  renew ttl t =
      let expires = milliseconds (clock t) + milliseconds ttl in
      let (e, t') =
        tb.write (set_attribute "expiresAt" (number_value expires)) (equal "owner" owner)
          (lock_key stage run_id) t in
      (renew_answer stage run_id e, t')

  unfoldable pub release_lock : T → Option Error × T
  unfolding release_answer
  release_lock t =
      let (e, t') = tb.write delete_item (equal "owner" owner) (lock_key stage run_id) t in
      (release_answer e, t')

  -- The loop of Lock: `waits` is what happens to the service in each wait between two attempts. At
  -- their end the context is done, with the error `ctx_err`.
  unfoldable pub lock_loop : ℕ → String → List (T → T) → T → Option Error × T
  unfolding try_acquire held_error
  lock_loop ttl ctx_err [] t =
      let (a, t') = try_acquire ttl t in
      elim a [
        | err e ↦ (some e, t')
        | ok true ↦ (none, t')
        | ok false ↦ (some (held_error stage run_id ctx_err), t')
      ]
  lock_loop ttl ctx_err (w ∷ waits) t =
      let (a, t') = try_acquire ttl t in
      let later = lock_loop ttl ctx_err waits (w t') in
      elim a [ err e ↦ (some e, t') | ok true ↦ (none, t') | ok false ↦ later ]

  unfoldable pub managed_lease : ℕ → Option Error × T → Result (Managed T) × T
  unfolding renew release_lock manage
  managed_lease ttl (some e, t) = (err e, t)
  managed_lease ttl (none, t) = (ok (manage (some renew) ttl (some release_lock) t), t)

-- Lock, whose owner token may not be readable.
unfoldable pub lock :
    {T : Type 0}
    → Table T
    → (T → ℕ)
    → Option String
    → String
    → List (T → T)
    → String
    → String
    → ℤ
    → T
    → Result (Managed T) × T
unfolding managed_lease lock_loop lock_ttl
lock tb clock token ctx_err waits stage run_id ttl t =
    if lacks_names stage run_id then (err names_error, t) else elim token [
      | none ↦ (err (wrap "runstore: generate token" io), t)
      | some owner ↦
          managed_lease tb clock stage run_id owner (lock_ttl ttl)
            (lock_loop tb clock stage run_id owner (lock_ttl ttl) ctx_err waits t)
    ]
