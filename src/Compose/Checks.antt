-- ===== src/Compose/Checks.antt =====
-- platform/workflow/core/compose_file.go: the checks for unknown services and for cycles.
use runfabric.Prelude.{
  ℕ, String, ◌=?=◌, ◌<◌, ◌≤◌, ◌≡◌, true, false, ltb, none, some, List, [], ◌∷◌, All, arith, eq_iff,
  text_eq_refl, Bool-cases, Option-cases, inl, inr, subst,
}
use runfabric.Compose.{
  ComposeService, contains, names, dependencies, unknown_in, find_unknown, later_in, find_cycle,
  index_of,
}
use runfabric.Compose.Position.{IsDistinct}

pub dependencies-listed :
    (services : List ComposeService) (n d : String)
    → contains d (dependencies services n) ≡ true
    → contains n (names services) ≡ true
unfolding dependencies
dependencies-listed [] n d h = cc
dependencies-listed (s ∷ rest) n d h = ground (arith, dependencies-listed rest n d)

pub dependencies_All :
    (Q : String → String → Type 0) (services : List ComposeService)
    → All (λ s. (d : String) → contains d s.depends_on ≡ true → Q s.name d) services
    → (n d : String) → contains d (dependencies services n) ≡ true
    → Q n d
unfolding dependencies
dependencies_All Q [] all n d h = cc
dependencies_All Q (s ∷ rest) all n d h = elim (Bool-cases (s.name =?= n)) [
  | inl e ↦ subst (λ k. Q k d) ((eq_iff s.name n).0 e) (all.0 d (ground arith))
  | inr e ↦ dependencies_All Q rest all.1 n d (ground arith)
]

unknown_in-none :
    (known ds : List String) (d : String)
    → unknown_in known ds ≡ none
    → contains d ds ≡ true
    → contains d known ≡ true
unfolding unknown_in
unknown_in-none known [] d h p = cc
unknown_in-none known (c ∷ ds) d h p = ground (arith, unknown_in-none known ds d, eq_iff c d)

unknown_in-some :
    (known ds : List String) (d : String)
    → unknown_in known ds ≡ some d
    → (contains d ds ≡ true) × (contains d known ≡ false)
unfolding unknown_in
unknown_in-some known [] d h = cc
unknown_in-some known (c ∷ ds) d h = elim (Bool-cases (contains c known)) [
  | inl e ↦ let q = unknown_in-some known ds d (ground arith) in (ground (arith, q.0), q.1)
  | inr e ↦
      let q : c ≡ d = ground arith in
      (ground (arith, text_eq_refl d, q), subst (λ k. contains k known ≡ false) q e)
]

pub find_unknown-none :
    (known : List String) (services : List ComposeService)
    → find_unknown known services ≡ none
    → All (λ s. (d : String) → contains d s.depends_on ≡ true → contains d known ≡ true) services
unfolding find_unknown
find_unknown-none known [] h = tt
find_unknown-none known (s ∷ rest) h = elim (Option-cases (unknown_in known s.depends_on)) [
  | inl e ↦ (
    λ d. unknown_in-none known s.depends_on d e,
    find_unknown-none known rest (rw (e, find_unknown) at h),
  )
  | inr (d, e) ↦ absurd (ground (arith, e, h))
]

-- A pair of a name and a later entry that the check found is a dependency.
pub find_unknown-some :
    (known : List String) (services : List ComposeService) (n d : String)
    → IsDistinct (names services)
    → find_unknown known services ≡ some (n, d)
    → (contains d (dependencies services n) ≡ true) × (contains d known ≡ false)
unfolding find_unknown dependencies
find_unknown-some known [] n d h q = cc
find_unknown-some known (s ∷ rest) n d h q = elim (Option-cases (unknown_in known s.depends_on)) [
  | inl e ↦
      let k = find_unknown-some known rest n d h.1 (ground (arith, e)) in
      (ground (arith, eq_iff s.name n, dependencies-listed rest n d k.0, h.0, k.0), k.1)
  | inr (c, e) ↦
      let k = unknown_in-some known s.depends_on c e in
      (ground (arith, e, text_eq_refl n, k.0), ground (arith, e, k.1))
]

later_in-none :
    (idx : List (String × ℕ)) (n : String) (ds : List String) (d : String)
    → later_in idx n ds ≡ none
    → contains d ds ≡ true
    → index_of d idx ≤ index_of n idx
unfolding later_in
later_in-none idx n [] d h p = cc
later_in-none idx n (c ∷ ds) d h p = ground (arith, later_in-none idx n ds d, eq_iff c d)

later_in-some :
    (idx : List (String × ℕ)) (n : String) (ds : List String) (d : String)
    → later_in idx n ds ≡ some d
    → (contains d ds ≡ true) × (index_of n idx < index_of d idx)
unfolding later_in
later_in-some idx n [] d h = cc
later_in-some idx n (c ∷ ds) d h = elim (Bool-cases (ltb (index_of n idx) (index_of c idx))) [
  | inl e ↦ let q : c ≡ d = ground arith in (ground (arith, text_eq_refl d, q), ground (arith, q))
  | inr e ↦ let q = later_in-some idx n ds d (ground arith) in (ground (arith, q.0), q.1)
]

pub find_cycle-none :
    (idx : List (String × ℕ)) (services : List ComposeService)
    → find_cycle idx services ≡ none
    → All
        (λ s. (d : String) → contains d s.depends_on ≡ true → index_of d idx ≤ index_of s.name idx)
        services
unfolding find_cycle
find_cycle-none idx [] h = tt
find_cycle-none idx (s ∷ rest) h = elim (Option-cases (later_in idx s.name s.depends_on)) [
  | inl e ↦ (
    λ d. later_in-none idx s.name s.depends_on d e,
    find_cycle-none idx rest (rw (e, find_cycle) at h),
  )
  | inr (d, e) ↦ absurd (ground (arith, e, h))
]

pub find_cycle-some :
    (idx : List (String × ℕ)) (services : List ComposeService) (n d : String)
    → IsDistinct (names services)
    → find_cycle idx services ≡ some (n, d)
    → (contains d (dependencies services n) ≡ true) × (index_of n idx < index_of d idx)
unfolding find_cycle dependencies
find_cycle-some idx [] n d h q = cc
find_cycle-some idx (s ∷ rest) n d h q = elim (Option-cases (later_in idx s.name s.depends_on)) [
  | inl e ↦
      let k = find_cycle-some idx rest n d h.1 (ground (arith, e)) in
      (ground (arith, eq_iff s.name n, dependencies-listed rest n d k.0, h.0, k.0), k.1)
  | inr (c, e) ↦
      let k = later_in-some idx s.name s.depends_on c e in
      (ground (arith, e, text_eq_refl n, k.0), ground (arith, e, k.1))
]
