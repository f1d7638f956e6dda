-- ===== src/Registry/Semver/Core.antt =====
-- apps/registry/internal/store/store.go: a constraint of lower bounds stays satisfied.
use Prim.Native.Nat.{Ordering}
use mathlib.Core.Logic.{◌≢◌}
use runfabric.Prelude.{
  String, ◌=?=◌, ◌≡◌, refl, Bool, true, false, ◌||◌, List, [], ◌∷◌, inl, inr, Bool-cases, arith,
  All,
}
use runfabric.Prelude.Text.{trim_space, split}
use runfabric.Registry.Semver.{
  compare_version, Operator, at_least, at_most, above, below, same, split_constraint, admits,
  constraint_holds, part_holds, all_hold, core_compatible,
}
use runfabric.Registry.Semver.Laws.{compare_version_trans, compare_version-swap}

abbrev is_lower : Operator → Bool
is_lower at_least = true
is_lower above = true
is_lower at_most = false
is_lower below = false
is_lower same = false

-- The part bounds the core from below, or is blank.
abbrev pub IsLowerBound : String → Type 0
IsLowerBound part =
    (trim_space part =?= "" || is_lower (split_constraint (trim_space part)).0) ≡ true

module _ (core newer : String) (h : compare_version core newer ≢ Ordering.gt) where
  at_least_newer :
      (ver : String)
      → compare_version ver core ≢ Ordering.gt
      → compare_version newer ver ≢ Ordering.lt
  at_least_newer ver a = (compare_version_trans ver core newer a h).1

  above_newer :
      (ver : String)
      → compare_version core ver ≡ Ordering.gt
      → (compare_version newer ver ≢ Ordering.gt)
      → ⊥
  above_newer ver a b = (compare_version_trans core newer ver h b).0 a

  admits_newer :
      (op : Operator) (ver : String)
      → is_lower op ≡ true
      → admits op (compare_version core ver) ≡ true
      → admits op (compare_version newer ver) ≡ true
  admits_newer at_least ver l a = ground (arith, at_least_newer ver, compare_version-swap core ver)
  admits_newer above ver l a = ground (arith, above_newer ver)
  admits_newer at_most ver l a = cc
  admits_newer below ver l a = cc
  admits_newer same ver l a = cc

  constraint_holds_newer :
      (c : Operator × String)
      → is_lower c.0 ≡ true
      → constraint_holds core c ≡ true
      → constraint_holds newer c ≡ true
  constraint_holds_newer (op, ver) l a = admits_newer op ver l a

  part_holds_newer :
      (part : String)
      → IsLowerBound part
      → part_holds core part ≡ true
      → part_holds newer part ≡ true
  unfolding part_holds
  part_holds_newer part l a = elim (Bool-cases (trim_space part =?= "")) [
    | inl e ↦ rw e refl
    | inr e ↦
        rw e (constraint_holds_newer (split_constraint (trim_space part)) (rw e at l) (rw e at a))
  ]

  all_hold_newer :
      (parts : List String)
      → All IsLowerBound parts
      → all_hold core parts ≡ true
      → all_hold newer parts ≡ true
  unfolding all_hold
  all_hold_newer [] l a = refl
  all_hold_newer (part ∷ rest) l a =
      ground (arith, part_holds_newer part l.0, all_hold_newer rest l.1)

-- A core that satisfies a constraint whose parts are blank or bounds from below leaves it satisfied for every
-- core that is not below it and not blank.
pub core_compatible-IsLowerBound :
    (core newer constraint : String)
    → All IsLowerBound (split b',' (trim_space constraint))
    → (trim_space newer =?= "") ≡ false
    → compare_version (trim_space core) (trim_space newer) ≢ Ordering.gt
    → core_compatible core constraint ≡ true
    → core_compatible newer constraint ≡ true
unfolding core_compatible
core_compatible-IsLowerBound core newer constraint l b h a = ground (
  arith,
  all_hold_newer (trim_space core) (trim_space newer) h (split b',' (trim_space constraint)) l,
)
