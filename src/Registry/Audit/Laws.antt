-- ===== src/Registry/Audit/Laws.antt =====
-- apps/registry/internal/store/store.go: the audit log is the end of what was recorded.
use runfabric.Prelude.{
  ℕ, zero, suc, ◌+◌, ◌-◌, ◌≤◌, ◌≡◌, refl, ap, ◌∙◌, sym, List, [], ◌∷◌, ◌++◌, inl, inr, Bool-cases,
  ltb, length, drop, arith,
}
use mathlib.Core.List.{append-nil, append_assoc}
use native.Mathlib.Decide.{dec_le}
use runfabric.Prelude.Int.{ℤ, pos, negsuc}
use runfabric.Registry.{AuditEvent}
use runfabric.Registry.Publish.{World, Store, save_locked}
use runfabric.Registry.Audit.{max_events, trimmed_log, record_audit, listed_events, list_audit}

module _ {ℓ} {A : Type ℓ} where
  -- The last `n` entries, or all of them.
  abbrev pub last : ℕ → List A → List A
  last n l = drop (length l - n) l

  length-append : (l m : List A) → length (l ++ m) ≡ length l + length m
  length-append [] m = omega arith
  length-append (x ∷ l) m = omega (arith, length-append l m)

  drop_none : (n : ℕ) (l : List A) → n ≡ 0 → drop n l ≡ l
  drop_none zero l e = refl
  drop_none (suc n) l e = absurd (omega arith)

  last_short : (n : ℕ) (l : List A) → length l ≤ n → last n l ≡ l
  last_short n l h = drop_none (length l - n) l (omega arith)

  last-cons : (n : ℕ) (x : A) (l : List A) → n ≤ length l → last n (x ∷ l) ≡ last n l
  last-cons n x l h =
      let e : suc (length l) - n ≡ suc (length l - n) = omega arith in ap (λ k. drop k (x ∷ l)) e

  -- What is left out of a list is left out of a longer one.
  last-append_last : (n : ℕ) (l m : List A) → last n (last n l ++ m) ≡ last n (l ++ m)
  last-append_last n [] m = ap (λ k. last n (k ++ m)) (last_short n [] (omega arith))
  last-append_last n (x ∷ l) m = elim (dec_le n (length l)) [
    | yes h ↦
        ap (λ k. last n (k ++ m)) (last-cons n x l h)
        ∙ last-append_last n l m
        ∙ sym (last-cons n x (l ++ m) (omega (arith, length-append l m)))
    | no h ↦ ap (λ k. last n (k ++ m)) (last_short n (x ∷ l) (omega arith))
  ]

  length-last : (n : ℕ) (l : List A) → length (last n l) ≤ n
  length-last n [] = rw (last_short n [] (omega arith)) (omega arith)
  length-last n (x ∷ l) = elim (dec_le n (length l)) [
    | yes h ↦ rw (last-cons n x l h) (length-last n l)
    | no h ↦ rw (last_short n (x ∷ l) (omega arith)) (omega arith)
  ]

  last-last : (n k : ℕ) (l : List A) → n ≤ k → last n (last k l) ≡ last n l
  last-last n k [] h = ap (last n) (last_short k [] (omega arith))
  last-last n k (x ∷ l) h = elim (dec_le k (length l)) [
    | yes p ↦
        ap (last n) (last-cons k x l p) ∙ last-last n k l h ∙ sym (last-cons n x l (omega arith))
    | no p ↦ ap (last n) (last_short k (x ∷ l) (omega arith))
  ]

-- Events that are recorded one after the other, each with what the calls of its save do.
unfoldable pub record_all : List (World × AuditEvent) → Store → Store
record_all [] st = st
record_all ((w, e) ∷ rest) st = record_all rest (record_audit w e st).1

abbrev pub events_of : List (World × AuditEvent) → List AuditEvent
events_of [] = []
events_of ((w, e) ∷ rest) = e ∷ events_of rest

trimmed_log-eq-last : (log : List AuditEvent) → trimmed_log log ≡ last max_events log
unfolding trimmed_log
trimmed_log-eq-last log = elim (Bool-cases (ltb max_events (length log))) [
  | inl e ↦ rw e refl
  | inr e ↦ rw e (sym (last_short max_events log (ground arith)))
]

audit_log-record_audit :
    (w : World) (e : AuditEvent) (st : Store)
    → (record_audit w e st).1.db.audit_log ≡ last max_events (st.db.audit_log ++ e ∷ [])
unfolding record_audit save_locked
audit_log-record_audit w e st = elim (Bool-cases w.save_fails) [
  | inl f ↦ simp f (trimmed_log-eq-last (st.db.audit_log ++ e ∷ []))
  | inr f ↦ simp f (trimmed_log-eq-last (st.db.audit_log ++ e ∷ []))
]

audit_log-record_all :
    (l : List (World × AuditEvent)) (st : Store)
    → length st.db.audit_log ≤ max_events
    → (record_all l st).db.audit_log ≡ last max_events (st.db.audit_log ++ events_of l)
unfolding record_all
audit_log-record_all [] st h =
    rw (append-nil st.db.audit_log) (sym (last_short max_events st.db.audit_log h))
audit_log-record_all ((w, e) ∷ rest) st h =
    let log = st.db.audit_log in
    let one = audit_log-record_audit w e st in
    audit_log-record_all rest (record_audit w e st).1
      (rw one (length-last max_events (log ++ e ∷ [])))
    ∙ ap (λ k. last max_events (k ++ events_of rest)) one
    ∙ last-append_last max_events (log ++ e ∷ []) (events_of rest)
    ∙ ap (last max_events) (append_assoc log (e ∷ []) (events_of rest))

listed_events-le-max_events : (limit : ℤ) → listed_events limit ≤ 500
unfolding listed_events
listed_events-le-max_events (pos n) = ground arith
listed_events-le-max_events (negsuc n) = omega arith

-- In a log of at most 5000 events, after any records, whether or not they are saved, a list is the last of all
-- the events that were recorded, as many as are asked for, or 100 where fewer than 1 or more than 500 are, and the
-- log still has at most 5000.
pub list_audit-record_all :
    (events : List (World × AuditEvent)) (limit : ℤ) (st : Store)
    → length st.db.audit_log ≤ max_events
    → (list_audit limit (record_all events st)
        ≡ last (listed_events limit) (st.db.audit_log ++ events_of events))
      × (length (record_all events st).db.audit_log ≤ max_events)
unfolding list_audit
list_audit-record_all events limit st h =
    let all = st.db.audit_log ++ events_of events in
    let kept = audit_log-record_all events st h in
    let few = listed_events-le-max_events limit in
    (
      ap (last (listed_events limit)) kept
          ∙ last-last (listed_events limit) max_events all (omega arith),
      rw kept (length-last max_events all),
    )
