-- ===== src/Secrets/Laws.antt =====
-- platform/core/policy/secrets/resolver.go: what a chain of secret references gives.
use runfabric.Prelude.{
  ℕ, zero, suc, String, ◌≡◌, refl, ◌<◌, ◌⊎◌, inl, inr, arith, Option, some, Bool, true, false,
}
use runfabric.Prelude.Text.{trim_space}
use runfabric.Errors.{Result, err}
use runfabric.Secrets.{
  Sources, Hop, answer, refer, hop, resolve, resolve_secret_key, too_deep_error,
}

not_both : Path Bool true false → ⊥
not_both h = cc

same_value : {v w : String} → Path (Option String) (some v) (some w) → v ≡ w
same_value h = cc

module _ (src : Sources) where
  -- The key leads to an answer after that many references.
  pub data Ends : ℕ → String → Result String → Type 0 where
    here : (key : String) (r : Result String) → hop src (trim_space key) ≡ answer r → Ends 0 key r
    there :
        (n : ℕ) (key ref : String) (r : Result String)
        → hop src (trim_space key) ≡ refer ref
        → Ends n ref r
        → Ends (suc n) key r

  -- The key leads to another one after that many references.
  pub data Leads : ℕ → String → String → Type 0 where
    start : (key : String) → Leads 0 key key
    step :
        (n : ℕ) (key ref last : String)
        → hop src (trim_space key) ≡ refer ref
        → Leads n ref last
        → Leads (suc n) key last

  hop_cases : (h : Hop) → ((r : Result String) × (h ≡ answer r)) ⊎ ((k : String) × (h ≡ refer k))
  hop_cases (answer r) = inl (r, refl)
  hop_cases (refer k) = inr (k, refl)

  abbrev pub IsResolved : ℕ → String → Result String → Type 0
  IsResolved left key r = (n : ℕ) × (n < left) × Ends n key r

  abbrev pub IsTooDeep : ℕ → String → Result String → Type 0
  IsTooDeep left key r = (last : String) × Leads left key last × (r ≡ err (too_deep_error last))

  resolve_ok :
      (left : ℕ) (key : String)
      → IsResolved left key (resolve src left key) ⊎ IsTooDeep left key (resolve src left key)
  unfolding resolve
  resolve_ok zero key = inr (key, start key, refl)
  resolve_ok (suc left) key = elim (hop_cases (hop src (trim_space key))) [
    | inl (r, q) ↦ inl (0, omega arith, rw (q, resolve) (here key r q))
    | inr (ref, q) ↦ elim (resolve_ok left ref) [
      | inl (n, lt, e) ↦ inl (suc n, omega arith, rw (q, resolve) (there n key ref _ q e))
      | inr (last, l, e) ↦ inr (last, step left key ref last q l, rw (q, resolve) e)
    ]
  ]

  -- The resolution of a key always answers. Where the key leads to an answer after at most eight
  -- references, that is the answer; otherwise it leads to another key after nine references, as
  -- every key of a cycle does, and the error names that key.
  pub resolve_secret_key_cases :
      (key : String)
      → IsResolved 9 key (resolve_secret_key src key) ⊎ IsTooDeep 9 key (resolve_secret_key src key)
  unfolding resolve_secret_key
  resolve_secret_key_cases key = resolve_ok 9 key
