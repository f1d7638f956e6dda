-- ===== src/RunStore/Dynamo/Lock/Kept.antt =====
-- platform/core/state/runstore/dynamodb.go: what others do to a lock while its lease lasts.
use runfabric.Prelude.{
  ℕ, String, ◌+◌, ◌≤◌, ◌≡◌, ◌≢◌, refl, sym, ap, true, Option, none, some, inl, inr, Option-cases,
  subst, arith, lookup-insert,
}
use runfabric.Errors.{ok}
use runfabric.RunStore.Dynamo.{
  number_value, Item, Key, absent_or_below, equal, put_item, set_attribute, applied,
  condition_failed, service_error, Table, IsTable, lock_key,
}
use runfabric.RunStore.Dynamo.Lock.{
  milliseconds, lock_item, acquire_answer, try_acquire, renew, release_lock,
}
use runfabric.RunStore.Dynamo.Lock.Held.{
  IsHeld, lock_of, closed_write, live_IsHeld, other_IsHeld, no_answer, no_lock,
}

module _ {T : Type 0} (tb : Table T) (find : Key → T → Option Item) (laws : IsTable tb find) where
  module _ (clock : T → ℕ) (stage run_id : String) where
    -- The lock is the owner's at least until `bound`.
    abbrev pub IsHeldUntil : String → ℕ → T → Type 0
    IsHeldUntil owner bound t = (e : ℕ) × IsHeld owner e (lock_of find stage run_id t) × (bound ≤ e)

    -- What can happen to the lock while one owner has it until `bound`: attempts, renewals and
    -- releases of others, its own renewals, and anything that leaves the item of the lock alone.
    pub data Event (owner : String) (bound : ℕ) : T → T → Type 0 where
      attempt :
          (other : String) (ttl : ℕ) (t : T)
          → milliseconds (clock t) ≤ bound
          → Event owner bound t (try_acquire tb clock stage run_id other ttl t).1
      renewal :
          (other : String) (ttl : ℕ) (t : T)
          → owner ≢ other
          → Event owner bound t (renew tb clock stage run_id other ttl t).1
      own_renewal :
          (ttl : ℕ) (t : T)
          → bound ≤ milliseconds (clock t) + milliseconds ttl
          → Event owner bound t (renew tb clock stage run_id owner ttl t).1
      release :
          (other : String) (t : T)
          → owner ≢ other
          → Event owner bound t (release_lock tb clock stage run_id other t).1
      elsewhere :
          (t t' : T)
          → lock_of find stage run_id t' ≡ lock_of find stage run_id t
          → Event owner bound t t'

    pub data Events (owner : String) (bound : ℕ) : T → T → Type 0 where
      stop : (t : T) → Events owner bound t t
      next :
          (t t' t'' : T)
          → Event owner bound t t'
          → Events owner bound t' t''
          → Events owner bound t t''

    kept :
        (owner : String) (bound : ℕ) (t t' : T)
        → lock_of find stage run_id t' ≡ lock_of find stage run_id t
        → IsHeldUntil owner bound t
        → IsHeldUntil owner bound t'
    kept owner bound t t' same (e, h, le) = (e, subst (IsHeld owner e) (sym same) h, le)

    renewed_IsHeld :
        (owner : String) (e expires : ℕ) (i : Option Item)
        → IsHeld owner e i
        → IsHeld owner expires (applied (set_attribute "expiresAt" (number_value expires)) i)
    unfolding applied
    renewed_IsHeld owner e expires none h = absurd (h.there refl)
    renewed_IsHeld owner e expires (some item) h = record {
      there = rw lookup-insert h.there;
      by = rw lookup-insert h.by;
      until = rw lookup-insert refl;
    }

    Event-IsHeld :
        (owner : String) (bound : ℕ) (t t' : T)
        → Event owner bound t t'
        → IsHeldUntil owner bound t
        → IsHeldUntil owner bound t'
    unfolding try_acquire renew release_lock
    Event-IsHeld owner bound t t' (attempt other ttl s le) (e, h, b) =
        kept owner bound s _
          (closed_write tb find laws _ _ _ s (live_IsHeld owner e _ _ h (omega arith))).1 (e, h, b)
    Event-IsHeld owner bound t t' (renewal other ttl s apart) (e, h, b) =
        kept owner bound s _
          (closed_write tb find laws _ _ _ s (other_IsHeld owner other e _ h apart)).1 (e, h, b)
    Event-IsHeld owner bound t t' (own_renewal ttl s le) (e, h, b) =
        let expires = milliseconds (clock s) + milliseconds ttl in
        let w = set_attribute "expiresAt" (number_value expires) in
        let c = equal "owner" owner in
        let k = lock_key stage run_id in
        let made : find k (tb.write w c k s).1 ≡ applied w (find k s)
            → IsHeldUntil owner bound (tb.write w c k s).1 =
          λ q. (
            expires,
            subst (IsHeld owner expires) (sym q) (renewed_IsHeld owner e expires _ h),
            le,
          ) in
        elim (Option-cases (tb.write w c k s).0) [
          | inl q ↦ made (laws.write_ok w c k s q).1
          | inr (condition_failed, q) ↦
              kept owner bound s _ (laws.write_failed w c k s q).1 (e, h, b)
          | inr (service_error, q) ↦ elim (laws.write_unknown w c k s q) [
            | inl same ↦ kept owner bound s _ same (e, h, b)
            | inr (x, y) ↦ made y
          ]
        ]
    Event-IsHeld owner bound t t' (release other s apart) (e, h, b) =
        kept owner bound s _
          (closed_write tb find laws _ _ _ s (other_IsHeld owner other e _ h apart)).1 (e, h, b)
    Event-IsHeld owner bound t t' (elsewhere s s' same) k = kept owner bound s s' same k

    held_refuses :
        (owner other : String) (bound ttl : ℕ) (t : T)
        → IsHeldUntil owner bound t
        → milliseconds (clock t) ≤ bound
        → (try_acquire tb clock stage run_id other ttl t).0 ≢ ok true
    unfolding try_acquire acquire_answer
    held_refuses owner other bound ttl t (e, h, b) le ok_true =
        let w =
          put_item (lock_item stage run_id other (milliseconds (clock t) + milliseconds ttl)) in
        let c = absent_or_below "pk" "expiresAt" (milliseconds (clock t)) in
        let k = lock_key stage run_id in
        let no =
          closed_write tb find laws w c k t
            (live_IsHeld owner e (milliseconds (clock t)) _ h (omega arith)) in
        elim (Option-cases (tb.write w c k t).0) [
          | inl q ↦ no.0 q
          | inr (condition_failed, q) ↦ no_answer (ap acquire_answer q) ok_true
          | inr (service_error, q) ↦ no_lock (ap acquire_answer q) ok_true
        ]

    Events-IsHeld :
        (owner : String) (bound : ℕ) (t t' : T)
        → Events owner bound t t'
        → IsHeldUntil owner bound t
        → IsHeldUntil owner bound t'
    Events-IsHeld owner bound t t' (stop s) h = h
    Events-IsHeld owner bound t t' (next s s' s'' x xs) h =
        Events-IsHeld owner bound s' s'' xs (Event-IsHeld owner bound s s' x h)

    -- Until its lease ends the lock of a run stays with its owner, and every attempt to get it fails,
    -- whatever attempts, renewals and releases of others have happened, in any order, and whether or
    -- not the calls of the service failed.
    pub lock_is_kept :
        (owner : String) (bound : ℕ) (t t' : T)
        → Events owner bound t t'
        → IsHeldUntil owner bound t
        → IsHeldUntil owner bound t'
          × ((other : String) (ttl : ℕ)
              → milliseconds (clock t') ≤ bound
              → (try_acquire tb clock stage run_id other ttl t').0 ≢ ok true)
    lock_is_kept owner bound t t' xs h =
        let h' = Events-IsHeld owner bound t t' xs h in
        (h', λ other ttl le. held_refuses owner other bound ttl t' h' le)
