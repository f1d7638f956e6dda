-- ===== src/Registry/Resolve/Laws.antt =====
-- apps/registry/internal/store/store.go: Resolve picks a best one of the versions that fit.
use mathlib.Core.Path.{subst⁻¹}
use runfabric.Prelude.{
  String, ◌≡◌, refl, subst, ◌⊎◌, true, false, ◌&&◌, Option, none, some, List, [], ◌∷◌, inl, inr,
  Bool-cases, All, lookup,
}
use runfabric.Prelude.Text.{trim_space}
use runfabric.Errors.{err}
use runfabric.Registry.{Publisher, ExtensionVersion, Extension, Data, Codec}
use runfabric.Registry.Resolve.{
  ResolveInput, canonical_id, select_artifact, precedes, sort_candidates, Wanted, wanted,
  is_candidate, candidates, resolved, no_compatible_version, or_zero, pick, resolve_extension,
  resolve,
}
use runfabric.Registry.Resolve.Sorted.{
  NotAbove, FirstIsBest, precedes_irrefl, All-imp, sort_candidates-All, All-sort_candidates,
  sort_candidates-FirstIsBest,
}

-- The version stands in the map.
abbrev Stored : ExtensionVersion → List (String × Option ExtensionVersion) → Type 0
Stored v [] = ⊥
Stored v ((k, none) ∷ rest) = Stored v rest
Stored v ((k, some x) ∷ rest) = (v ≡ x) ⊎ Stored v rest

module _ (w : Wanted) (ext_type : String) where
  -- No version of the map fits what is wanted.
  abbrev pub NoneFits : List (String × Option ExtensionVersion) → Type 0
  NoneFits [] = Unit
  NoneFits ((k, none) ∷ rest) = NoneFits rest
  NoneFits ((k, some x) ∷ rest) = (is_candidate w ext_type x ≡ false) × NoneFits rest

  -- No version of the map both fits and precedes `v`.
  abbrev NoneIsBetter : ExtensionVersion → List (String × Option ExtensionVersion) → Type 0
  NoneIsBetter v [] = Unit
  NoneIsBetter v ((k, none) ∷ rest) = NoneIsBetter v rest
  NoneIsBetter v ((k, some x) ∷ rest) =
      ((is_candidate w ext_type x && precedes x v) ≡ false) × NoneIsBetter v rest

  -- A version of the map that fits, and that none that fits precedes.
  pub record IsBest (v : ExtensionVersion) (m : List (String × Option ExtensionVersion))
      : Type 0 where
    pub is_stored : Stored v m
    pub fits : is_candidate w ext_type v ≡ true
    pub none_is_better : NoneIsBetter v m

  abbrev Good : List (String × Option ExtensionVersion) → ExtensionVersion → Type 0
  Good m v = Stored v m × (is_candidate w ext_type v ≡ true)

  candidates-Good :
      (m : List (String × Option ExtensionVersion)) → All (Good m) (candidates w ext_type m)
  unfolding candidates
  candidates-Good [] = tt
  candidates-Good ((k, none) ∷ rest) = candidates-Good rest
  candidates-Good ((k, some x) ∷ rest) =
      let later =
        All-imp (Good rest) (Good ((k, some x) ∷ rest)) (λ v g. (inr g.0, g.1))
          (candidates w ext_type rest) (candidates-Good rest) in
      elim (Bool-cases (is_candidate w ext_type x)) [
        | inl e ↦ rw e ((inl refl, e), later)
        | inr e ↦ rw e later
      ]

  candidates-NoneIsBetter :
      (v : ExtensionVersion) (m : List (String × Option ExtensionVersion))
      → All (NotAbove v) (candidates w ext_type m)
      → NoneIsBetter v m
  unfolding candidates
  candidates-NoneIsBetter v [] h = tt
  candidates-NoneIsBetter v ((k, none) ∷ rest) h = candidates-NoneIsBetter v rest h
  candidates-NoneIsBetter v ((k, some x) ∷ rest) h = elim (Bool-cases (is_candidate w ext_type x)) [
    | inl e ↦
        let g : NotAbove v x × All (NotAbove v) (candidates w ext_type rest) =
          rw (e, candidates) at h in
        rw e (g.0, candidates-NoneIsBetter v rest g.1)
    | inr e ↦ rw e (refl, candidates-NoneIsBetter v rest (rw (e, candidates) at h))
  ]

  candidates-NoneFits :
      (m : List (String × Option ExtensionVersion))
      → All (λ v. ⊥) (candidates w ext_type m)
      → NoneFits m
  unfolding candidates
  candidates-NoneFits [] h = tt
  candidates-NoneFits ((k, none) ∷ rest) h = candidates-NoneFits rest h
  candidates-NoneFits ((k, some x) ∷ rest) h = elim (Bool-cases (is_candidate w ext_type x)) [
    | inl e ↦
        let g : ⊥ × All (λ v. ⊥) (candidates w ext_type rest) = rw (e, candidates) at h in
        absurd g.0
    | inr e ↦ (e, candidates-NoneFits rest (rw (e, candidates) at h))
  ]

  nothing_fits :
      (m : List (String × Option ExtensionVersion))
      → sort_candidates (candidates w ext_type m) ≡ []
      → NoneFits m
  nothing_fits m e =
      candidates-NoneFits m (All-sort_candidates (λ v. ⊥) (candidates w ext_type m) (rw e tt))

  first-IsBest :
      (m : List (String × Option ExtensionVersion)) (v : ExtensionVersion)
      (rest : List ExtensionVersion)
      → sort_candidates (candidates w ext_type m) ≡ v ∷ rest
      → IsBest v m
  first-IsBest m v rest e =
      let l = candidates w ext_type m in
      let best = subst FirstIsBest e (sort_candidates-FirstIsBest l) in
      let good = subst (All (Good m)) e (sort_candidates-All (Good m) l (candidates-Good m)) in
      let whole : All (NotAbove v) (v ∷ rest) = (precedes_irrefl v, best) in
      record {
        is_stored = good.0.0;
        fits = good.0.1;
        none_is_better =
            candidates-NoneIsBetter v m
              (All-sort_candidates (NotAbove v) l (subst⁻¹ (All (NotAbove v)) e whole));
      }

List-cases {ℓ} : {A : Type ℓ} (l : List A) → (l ≡ []) ⊎ ((x : A) × (rest : List A) × (l ≡ x ∷ rest))
List-cases [] = inl refl
List-cases (x ∷ rest) = inr (x, rest, refl)

-- For an extension and a publisher of it that are there, either no version fits the request and the answer
-- is the error for that, or the answer is the one that is made of a version that fits, that no version
-- that fits precedes, and of the artifact that is selected in it.
pub resolve_cases :
    (c : Codec) (req : ResolveInput) (d : Data) (e : Extension) (p : Publisher)
    → lookup (canonical_id d.extensions (trim_space req.id)) d.extensions ≡ some e
    → lookup e.publisher_id d.publishers ≡ some p
    → (NoneFits (wanted req) e.extension_type e.versions
        × (resolve c req d ≡ err no_compatible_version))
      ⊎ ((v : ExtensionVersion) × IsBest (wanted req) e.extension_type v e.versions
          × (resolve c req d
              ≡ resolved c
                  (wanted req)
                  e
                  p
                  v
                  (or_zero (select_artifact v e.extension_type (wanted req).os (wanted req).arch))))
unfolding resolve resolve_extension pick
resolve_cases c req d e p h k =
    let w = wanted req in
    elim (List-cases (sort_candidates (candidates w e.extension_type e.versions))) [
      | inl n ↦ inl (
        nothing_fits w e.extension_type e.versions n,
        rw (h, resolve) (rw (k, resolve_extension) (rw (n, pick) refl)),
      )
      | inr (v, rest, n) ↦ inr (
        v,
        first-IsBest w e.extension_type e.versions v rest n,
        rw (h, resolve) (rw (k, resolve_extension) (rw (n, pick) refl)),
      )
    ]
