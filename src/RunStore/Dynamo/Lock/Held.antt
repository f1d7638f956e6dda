-- ===== src/RunStore/Dynamo/Lock/Held.antt =====
-- platform/core/state/runstore/dynamodb.go: what the item of a lock says, and what a write does to it.
use runfabric.Prelude.{
  ℕ, String, ◌≤◌, ◌≡◌, ◌≢◌, Bool, true, false, Option, none, some, inl, inr, Option-cases, arith,
  eq_iff,
}
use runfabric.Errors.{Error, Result, ok, err}
use runfabric.RunStore.Dynamo.{
  text_value, number_value, Item, Key, Condition, absent_or_below, equal, holds, attribute, Write,
  condition_failed, service_error, Table, IsTable, lock_key,
}

-- The lock is the owner's until `expires`, in milliseconds.
pub record IsHeld (owner : String) (expires : ℕ) (i : Option Item) : Type 0 where
  pub there : attribute "pk" i ≢ none
  pub by : attribute "owner" i ≡ some (text_value owner)
  pub until : attribute "expiresAt" i ≡ some (number_value expires)

pub live_IsHeld :
    (owner : String) (expires now : ℕ) (i : Option Item)
    → IsHeld owner expires i
    → now ≤ expires
    → holds (absent_or_below "pk" "expiresAt" now) i ≡ false
unfolding holds
live_IsHeld owner expires now i h le = elim (Option-cases (attribute "pk" i)) [
  | inl e ↦ absurd (h.there e)
  | inr (v, e) ↦ rw (e, h.until, holds) (ground arith)
]

pub other_IsHeld :
    (owner other : String) (expires : ℕ) (i : Option Item)
    → IsHeld owner expires i
    → owner ≢ other
    → holds (equal "owner" other) i ≡ false
unfolding holds
other_IsHeld owner other expires i h apart = rw h.by (ground (arith, apart, eq_iff owner other))

pub not_both : {a : Bool} → a ≡ true → a ≡ false → ⊥
not_both p q = cc

pub no_answer : {a : Result Bool} → a ≡ ok false → a ≡ ok true → ⊥
no_answer p q = cc

pub no_lock : {a : Result Bool} {e : Error} → a ≡ err e → a ≡ ok true → ⊥
no_lock p q = cc

abbrev pub lock_of : {T : Type 0} → (Key → T → Option Item) → String → String → T → Option Item
lock_of find stage run_id t = find (lock_key stage run_id) t

module _ {T : Type 0} (tb : Table T) (find : Key → T → Option Item) (laws : IsTable tb find) where
  -- A write whose condition is false changes nothing.
  pub closed_write :
      (w : Write) (c : Condition) (k : Key) (t : T)
      → holds c (find k t) ≡ false
      → ((tb.write w c k t).0 ≢ none) × (find k (tb.write w c k t).1 ≡ find k t)
  closed_write w c k t h = elim (Option-cases (tb.write w c k t).0) [
    | inl e ↦ absurd (not_both (laws.write_ok w c k t e).0 h)
    | inr (condition_failed, e) ↦ (λ n. cc, (laws.write_failed w c k t e).1)
    | inr (service_error, e) ↦ (
      λ n. cc,
      elim (laws.write_unknown w c k t e) [
        | inl same ↦ same
        | inr (true_c, x) ↦ absurd (not_both true_c h)
      ],
    )
  ]
