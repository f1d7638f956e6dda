-- ===== src/Prelude/Lists.antt =====
-- Lists measured and indexed by native numbers, under the library's names, and the predicate
-- that holds of every entry.
use Prim.Native.Nat.{ℕ, zero, suc, ◌<◌, ◌≤◌}
use mathlib.Core.Path.{◌≡◌, refl}
use mathlib.Core.List.{List, [], ◌∷◌, ◌++◌}
use mathlib.Core.Option.{Option, none, some}
use native.Mathlib.Omega.{arith}

module _ {ℓ} {A : Type ℓ} where
  abbrev pub length : List A → ℕ
  length [] = 0
  length (x ∷ xs) = suc (length xs)

  abbrev pub get_elem? : List A → ℕ → Option A
  get_elem? [] i = none
  get_elem? (x ∷ xs) zero = some x
  get_elem? (x ∷ xs) (suc i) = get_elem? xs i

  -- `l[:n]`, and all of it past the end.
  abbrev pub take : ℕ → List A → List A
  take n [] = []
  take zero (x ∷ xs) = []
  take (suc n) (x ∷ xs) = x ∷ take n xs

  -- `l[n:]`, and nothing past the end.
  abbrev pub drop : ℕ → List A → List A
  drop (suc n) (x ∷ xs) = drop n xs
  drop _ l = l

  -- A write out of bounds changes nothing.
  abbrev pub set : List A → ℕ → A → List A
  set [] i v = []
  set (x ∷ xs) zero v = v ∷ xs
  set (x ∷ xs) (suc i) v = x ∷ set xs i v

-- `P` holds of every entry.
abbrev pub All {ℓ κ} : {A : Type ℓ} → (A → Type κ) → List A → Type κ
All P [] = Unit
All P (x ∷ xs) = P x × All P xs

module _ {ℓ κ} {A : Type ℓ} (P : A → Type κ) where
  pub All-append : (xs ys : List A) → All P xs → All P ys → All P (xs ++ ys)
  All-append [] ys h k = k
  All-append (x ∷ xs) ys h k = (h.0, All-append xs ys h.1 k)

module _ {ℓ} {A : Type ℓ} where
  -- A write through `xs[i].f = …`; out of bounds nothing changes.
  abbrev pub modify : ℕ → (A → A) → List A → List A
  modify i f [] = []
  modify zero f (x ∷ xs) = f x ∷ xs
  modify (suc i) f (x ∷ xs) = x ∷ modify i f xs

  -- `f` applied to every entry from the index `i` on.
  abbrev pub modify_from : ℕ → (A → A) → List A → List A
  modify_from i f [] = []
  modify_from zero f (x ∷ xs) = f x ∷ modify_from zero f xs
  modify_from (suc i) f (x ∷ xs) = x ∷ modify_from i f xs

module _ {ℓ} {A : Type ℓ} (f : A → A) where
  pub get_elem?-modify_from_before :
      (i j : ℕ) (l : List A) → j < i → get_elem? (modify_from i f l) j ≡ get_elem? l j
  get_elem?-modify_from_before i j [] h = refl
  get_elem?-modify_from_before zero j (x ∷ l) h = elim h [ ]
  get_elem?-modify_from_before (suc i) zero (x ∷ l) h = refl
  get_elem?-modify_from_before (suc i) (suc j) (x ∷ l) h =
      get_elem?-modify_from_before i j l (omega arith)

  pub get_elem?-modify_from :
      (i j : ℕ) (l : List A) (x : A)
      → i ≤ j
      → get_elem? l j ≡ some x
      → get_elem? (modify_from i f l) j ≡ some (f x)
  get_elem?-modify_from i j [] x h e = cc
  get_elem?-modify_from zero zero (y ∷ l) x h e = cc
  get_elem?-modify_from zero (suc j) (y ∷ l) x h e =
      get_elem?-modify_from zero j l x (omega arith) e
  get_elem?-modify_from (suc i) zero (y ∷ l) x h e = ground arith
  get_elem?-modify_from (suc i) (suc j) (y ∷ l) x h e =
      get_elem?-modify_from i j l x (omega arith) e
