-- ===== src/Registry/Resolve/Sorted.antt =====
-- apps/registry/internal/store/store.go: after the sort of Resolve nothing precedes the first candidate.
use runfabric.Prelude.{◌≡◌, false, List, [], ◌∷◌, inl, inr, Bool-cases, arith, All}
use runfabric.Registry.{ExtensionVersion}
use runfabric.Registry.Resolve.{precedes, insert_by_order, sort_candidates}
use runfabric.Registry.Resolve.Order.{precedes_asymm, not_precedes_trans}

abbrev pub NotAbove : ExtensionVersion → ExtensionVersion → Type 0
NotAbove v w = precedes w v ≡ false

pub precedes_irrefl : (v : ExtensionVersion) → precedes v v ≡ false
precedes_irrefl v = ground (arith, precedes_asymm v v)

pub All-imp {ℓ κ μ} :
    {A : Type ℓ} (P : A → Type κ) (Q : A → Type μ)
    → ((x : A) → P x → Q x)
    → (l : List A) → All P l
    → All Q l
All-imp P Q f [] h = tt
All-imp P Q f (x ∷ l) h = (f x h.0, All-imp P Q f l h.1)

module _ {ℓ} (P : ExtensionVersion → Type ℓ) where
  insert_by_order-All :
      (v : ExtensionVersion) (l : List ExtensionVersion)
      → P v
      → All P l
      → All P (insert_by_order v l)
  unfolding insert_by_order
  insert_by_order-All v [] p h = (p, tt)
  insert_by_order-All v (w ∷ l) p h = elim (Bool-cases (precedes w v)) [
    | inl e ↦ rw e (h.0, insert_by_order-All v l p h.1)
    | inr e ↦ rw e (p, h)
  ]

  All-insert_by_order :
      (v : ExtensionVersion) (l : List ExtensionVersion)
      → All P (insert_by_order v l)
      → P v × All P l
  unfolding insert_by_order
  All-insert_by_order v [] h = h
  All-insert_by_order v (w ∷ l) h = elim (Bool-cases (precedes w v)) [
    | inl e ↦
        let k : P w × All P (insert_by_order v l) = rw (e, insert_by_order) at h in
        let (p, q) = All-insert_by_order v l k.1 in (p, (k.0, q))
    | inr e ↦ rw (e, insert_by_order) at h
  ]

  pub sort_candidates-All : (l : List ExtensionVersion) → All P l → All P (sort_candidates l)
  unfolding sort_candidates
  sort_candidates-All [] h = tt
  sort_candidates-All (v ∷ l) h =
      insert_by_order-All v (sort_candidates l) h.0 (sort_candidates-All l h.1)

  pub All-sort_candidates : (l : List ExtensionVersion) → All P (sort_candidates l) → All P l
  unfolding sort_candidates
  All-sort_candidates [] h = tt
  All-sort_candidates (v ∷ l) h =
      let (p, q) = All-insert_by_order v (sort_candidates l) h in (p, All-sort_candidates l q)

-- Nothing precedes the first entry.
abbrev pub FirstIsBest : List ExtensionVersion → Type 0
FirstIsBest [] = Unit
FirstIsBest (v ∷ l) = All (NotAbove v) l

insert_by_order-FirstIsBest :
    (v : ExtensionVersion) (l : List ExtensionVersion)
    → FirstIsBest l
    → FirstIsBest (insert_by_order v l)
unfolding insert_by_order
insert_by_order-FirstIsBest v [] h = tt
insert_by_order-FirstIsBest v (w ∷ l) h = elim (Bool-cases (precedes w v)) [
  | inl e ↦ rw e (insert_by_order-All (NotAbove w) v l (precedes_asymm w v e) h)
  | inr e ↦ rw e (e, All-imp (NotAbove w) (NotAbove v) (λ x k. not_precedes_trans x w v k e) l h)
]

pub sort_candidates-FirstIsBest : (l : List ExtensionVersion) → FirstIsBest (sort_candidates l)
unfolding sort_candidates
sort_candidates-FirstIsBest [] = tt
sort_candidates-FirstIsBest (v ∷ l) =
    insert_by_order-FirstIsBest v (sort_candidates l) (sort_candidates-FirstIsBest l)
