-- ===== src/Prelude/Assoc.antt =====
-- Go maps with string keys, as association lists; a missing key is `none`.
use Prim.Native.String.{String}
use mathlib.Core.Path.{◌≡◌, refl}
use mathlib.Core.Bool.{true, false}
use mathlib.Core.Logic.{◌⊎◌, inl, inr}
use mathlib.Core.Option.{Option, none, some}
use mathlib.Core.List.{List, [], ◌∷◌}
use native.Mathlib.Omega.{arith}
use text.Mathlib.TextEquality.{eq_iff}
use runfabric.Prelude.Tests.{◌=?=◌, if◌then◌else◌, Bool-cases}

pub text_eq_refl : (s : String) → (s =?= s) ≡ true
text_eq_refl s = (eq_iff s s).1 refl

-- A write replaces the entry of its key, or appends one.
unfoldable pub insert {ℓ} : {V : Type ℓ} → String → V → List (String × V) → List (String × V)
insert key new [] = (key, new) ∷ []
insert key new ((k, old) ∷ rest) =
    if k =?= key then (key, new) ∷ rest else (k, old) ∷ insert key new rest

unfoldable pub remove {ℓ} : {V : Type ℓ} → String → List (String × V) → List (String × V)
remove key [] = []
remove key ((k, old) ∷ rest) =
    let kept = remove key rest in if k =?= key then kept else (k, old) ∷ kept

unfoldable pub lookup {ℓ} : {V : Type ℓ} → String → List (String × V) → Option V
lookup key [] = none
lookup key ((k, found) ∷ rest) = if k =?= key then some found else lookup key rest

module _ {ℓ} {V : Type ℓ} where
  pub lookup-insert :
      (key other : String) (new : V) (m : List (String × V))
      → lookup other (insert key new m) ≡ (if key =?= other then some new else lookup other m)
  unfolding insert lookup
  lookup-insert key other new [] = refl
  lookup-insert key other new ((k, old) ∷ rest) =
      ground
        (eq_iff k key, eq_iff k other, eq_iff key other, lookup-insert key other new rest, arith)

  pub lookup-remove :
      (key other : String) (m : List (String × V))
      → lookup other (remove key m) ≡ (if key =?= other then none else lookup other m)
  unfolding remove lookup
  lookup-remove key other [] = ground arith
  lookup-remove key other ((k, old) ∷ rest) =
      ground (eq_iff k key, eq_iff k other, eq_iff key other, lookup-remove key other rest, arith)

  pub lookup-insert_self :
      (key : String) (new : V) (m : List (String × V)) → lookup key (insert key new m) ≡ some new
  lookup-insert_self key new m = rw lookup-insert (rw (text_eq_refl key))

  same_entry : {x y : V} → Path (Option V) (some x) (some y) → x ≡ y
  same_entry h = cc

  -- What is found after a write was written or there before.
  pub lookup-insert_cases :
      (key other : String) (new : V) (m : List (String × V)) {x : V}
      → lookup other (insert key new m) ≡ some x
      → ((key ≡ other) × (new ≡ x)) ⊎ (((key =?= other) ≡ false) × (lookup other m ≡ some x))
  lookup-insert_cases key other new m {x} h =
      let e : (if key =?= other then some new else lookup other m) ≡ some x =
        rw (lookup-insert key other new m) at h in
      elim (Bool-cases (key =?= other)) [
        | inl q ↦ inl ((eq_iff key other).0 q, same_entry (rw q at e))
        | inr q ↦ inr (q, rw q at e)
      ]
