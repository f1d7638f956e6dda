-- ===== src/Planner/Diff/Index.antt =====
-- platform/planner/engine/diff.go: the maps by name, `actualFunctionMap` and `actualRoutes`.
use runfabric.Prelude.{
  String, ◌=?=◌, ◌≡◌, refl, ◌∙◌, Bool, true, false, ◌||◌, Option, none, some, List, [], ◌∷◌,
  if◌then◌else◌, insert, remove, lookup, lookup-insert, arith,
}
use runfabric.Planner.Diff.{index}

abbrev pub is_named : {A : Type 0} → (A → String) → List A → String → Bool
is_named name [] n = false
is_named name (a ∷ l) n = name a =?= n || is_named name l n

abbrev pub is_some : {A : Type 0} → Option A → Bool
is_some none = false
is_some (some a) = true

abbrev pub values : {A : Type 0} → List (String × A) → List A
values [] = []
values ((k, a) ∷ m) = a ∷ values m

-- An index holds every value under its name.
module _ {A : Type 0} (name : A → String) where
  abbrev pub IsKeyed : List (String × A) → Type 0
  IsKeyed [] = Unit
  IsKeyed ((k, a) ∷ m) = (name a ≡ k) × IsKeyed m

  IsKeyed-insert : (a : A) (m : List (String × A)) → IsKeyed m → IsKeyed (insert (name a) a m)
  unfolding insert
  IsKeyed-insert f [] h = (refl, tt)
  IsKeyed-insert f ((k, a) ∷ m) h =
      elim (k =?= name f)
        as (λ b. IsKeyed (if b then (name f, f) ∷ m else (k, a) ∷ insert (name f) f m)) [
          | true ↦ (refl, h.1)
          | false ↦ (h.0, IsKeyed-insert f m h.1)
        ]

  pub IsKeyed-remove : (n : String) (m : List (String × A)) → IsKeyed m → IsKeyed (remove n m)
  unfolding remove
  IsKeyed-remove n [] h = tt
  IsKeyed-remove n ((k, a) ∷ m) h =
      elim (k =?= n) as (λ b. IsKeyed (if b then remove n m else (k, a) ∷ remove n m)) [
        | true ↦ IsKeyed-remove n m h.1
        | false ↦ (h.0, IsKeyed-remove n m h.1)
      ]

  pub IsKeyed-index : (l : List A) (m : List (String × A)) → IsKeyed m → IsKeyed (index name l m)
  unfolding index
  IsKeyed-index [] m h = h
  IsKeyed-index (f ∷ fs) m h = IsKeyed-index fs _ (IsKeyed-insert f m h)

  -- The values of a map are those that a lookup finds.
  pub is_named-values :
      (m : List (String × A)) (n : String)
      → IsKeyed m
      → is_named name (values m) n ≡ is_some (lookup n m)
  unfolding lookup
  is_named-values [] n h = refl
  is_named-values ((k, a) ∷ m) n h = ground (arith, h.0, is_named-values m n h.1)

  lookup-index :
      (l : List A) (m : List (String × A)) (n : String)
      → is_some (lookup n (index name l m)) ≡ (is_named name l n || is_some (lookup n m))
  unfolding index
  lookup-index [] m n = refl
  lookup-index (f ∷ fs) m n =
      lookup-index fs (insert (name f) f m) n ∙ ground (arith, lookup-insert (name f) n f m)

  pub deployed_is_found :
      (l : List A) (n : String) → is_some (lookup n (index name l [])) ≡ is_named name l n
  unfolding lookup
  deployed_is_found l n = lookup-index l [] n ∙ ground arith
