-- ===== src/Compose/Visit.antt =====
-- platform/workflow/core/compose_file.go: what a visit of a service does.
use runfabric.Prelude.{
  ℕ, zero, suc, String, ◌<◌, ◌≤◌, ◌≡◌, refl, true, false, Option, some, List, [], ◌∷◌,
  if◌then◌else◌, arith, eq_iff, text_eq_refl, Bool-cases, inl, inr,
}
use runfabric.Compose.{
  ComposeService, contains, names, Walk, dependencies, visit_all, append_name, visit,
  visit_services,
}
use runfabric.Compose.Dfs.{
  DependsOn, Reaches, Reaches-last, open-Reaches, IsWalk, mark_IsWalk, append_IsWalk,
}

-- How many of the names are not visited.
abbrev pub missing : List String → List String → ℕ
missing visited [] = 0
missing visited (n ∷ l) = if contains n visited then missing visited l else suc (missing visited l)

missing_mono :
    (v w l : List String)
    → ((x : String) → contains x v ≡ true → contains x w ≡ true)
    → missing w l ≤ missing v l
missing_mono v w [] h = omega arith
missing_mono v w (n ∷ l) h = ground (arith, missing_mono v w l h, h n)

missing_mark :
    (n : String) (v l : List String)
    → contains n l ≡ true
    → contains n v ≡ false
    → missing (n ∷ v) l < missing v l
missing_mark n v [] h k = cc
missing_mark n v (m ∷ l) h k = elim (Bool-cases (contains n l)) [
  | inl e ↦ ground (arith, missing_mark n v l e k, eq_iff n m)
  | inr e ↦ ground (arith, eq_iff m n, eq_iff n m, missing_mono v (n ∷ v) l (λ x q. ground arith))
]

module _ (services : List ComposeService) where
  -- A visit from that state gives a walk of the same open names that has been at the name.
  abbrev Visits : (String → Walk → Option Walk) → List String → String → Walk → Type 0
  Visits go open_names n w =
      (w' : Walk) × (go n w ≡ some w')
      × IsWalk services open_names w'
      × (contains n w'.visited ≡ true)
      × ((x : String) → contains x w.visited ≡ true → contains x w'.visited ≡ true)

  abbrev VisitsAll : (String → Walk → Option Walk) → List String → List String → Walk → Type 0
  VisitsAll go open_names ds w =
      (w' : Walk) × (visit_all go ds w ≡ some w')
      × IsWalk services open_names w'
      × ((d : String) → contains d ds ≡ true → contains d w'.visited ≡ true)
      × ((x : String) → contains x w.visited ≡ true → contains x w'.visited ≡ true)

  visit_all_ok :
      (go : String → Walk → Option Walk) (open_names ds : List String) (w : Walk) (fuel : ℕ)
      → ((d : String) (v : Walk)
          → contains d ds ≡ true
          → IsWalk services open_names v
          → missing v.visited (names services) < fuel
          → Visits go open_names d v)
      → IsWalk services open_names w
      → missing w.visited (names services) < fuel
      → VisitsAll go open_names ds w
  unfolding visit_all
  visit_all_ok go open_names [] w fuel step h lt = (w, refl, h, λ d e. cc, λ x e. e)
  visit_all_ok go open_names (d ∷ ds) w fuel step h lt =
      let later = λ (c : String) (v : Walk) (e : contains c ds ≡ true). step c v (ground arith) in
      elim (Bool-cases (contains d w.visited)) [
        | inl e ↦
            let (w', q, k, all, more) = visit_all_ok go open_names ds w fuel later h lt in
            (w', rw e q, k, λ c p. ground (arith, all c, more d e, eq_iff d c), more)
        | inr e ↦
            let (v, q, k, at, more) = step d w (ground (arith, text_eq_refl d)) h lt in
            let fewer = missing_mono w.visited v.visited (names services) more in
            let (w', q', k', all, more') =
              visit_all_ok go open_names ds v fuel later k (omega (arith, fewer)) in
            (
              w',
              rw (e, visit_all) (rw (q, visit_all) q'),
              k',
              λ c p. ground (arith, all c, more' d at, eq_iff d c),
              λ x p. more' x (more x p),
            )
      ]

  visit_ok :
      (listed : (n d : String) → DependsOn services n d → contains d (names services) ≡ true)
      (fuel : ℕ) (open_names : List String) (n : String) (w : Walk)
      → IsWalk services open_names w
      → contains n (names services) ≡ true
      → ((x : String) → contains x open_names ≡ true → Reaches services x n)
      → missing w.visited (names services) < fuel
      → Visits (visit services fuel) open_names n w
  unfolding visit append_name
  visit_ok listed zero open_names n w h known stack lt = elim lt [ ]
  visit_ok listed (suc fuel) open_names n w h known stack lt =
      elim (Bool-cases (contains n w.visited)) [
        | inl e ↦ (w, rw e, h, e, λ x p. p)
        | inr e ↦
            let marked = record w { visited = n ∷ w.visited } in
            let fewer = missing_mark n w.visited (names services) known e in
            let stack' : (x : String) → contains x (n ∷ open_names) ≡ true → Reaches services x n =
              λ x p. open-Reaches services open_names n x stack p in
            let (w', q, k, all, more) =
              visit_all_ok (visit services fuel) (n ∷ open_names) (dependencies services n) marked
                fuel
                (λ d v p iv below.
                  visit_ok listed fuel (n ∷ open_names) d v iv (listed n d p)
                    (λ x r. Reaches-last services (stack' x r) p) below)
                (mark_IsWalk services open_names n w h e) (omega (arith, fewer)) in
            (
              append_name n w',
              rw (e, visit) (rw (q, visit)),
              append_IsWalk services open_names n w' k (ground (arith, h.split n)) known stack all,
              more n (ground (arith, text_eq_refl n)),
              λ x p. more x (ground arith),
            )
      ]

  -- All visits of the services, with their number and one as fuel.
  pub visit_services_ok :
      (listed : (n d : String) → DependsOn services n d → contains d (names services) ≡ true)
      (fuel : ℕ) (rest : List ComposeService) (w : Walk)
      → ((n : String) → contains n (names rest) ≡ true → contains n (names services) ≡ true)
      → IsWalk services [] w
      → missing w.visited (names services) < fuel
      → (w' : Walk) × (visit_services services fuel rest w ≡ some w')
        × IsWalk services [] w'
        × ((n : String) → contains n (names rest) ≡ true → contains n w'.visited ≡ true)
        × ((x : String) → contains x w.visited ≡ true → contains x w'.visited ≡ true)
  unfolding visit_services
  visit_services_ok listed fuel [] w part h lt = (w, refl, h, λ n p. cc, λ x p. p)
  visit_services_ok listed fuel (s ∷ rest) w part h lt =
      let (v, q, k, at, more) =
        visit_ok listed fuel [] s.name w h (part s.name (ground (arith, text_eq_refl s.name)))
          (λ x p. cc) lt in
      let fewer = missing_mono w.visited v.visited (names services) more in
      let (w', q', k', all, more') =
        visit_services_ok listed fuel rest v (λ n p. part n (ground arith)) k
          (omega (arith, fewer)) in
      (
        w',
        rw (q, visit_services) q',
        k',
        λ n p. ground (arith, all n, more' s.name at, eq_iff s.name n),
        λ x p. more' x (more x p),
      )
