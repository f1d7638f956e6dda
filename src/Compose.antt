-- ===== src/Compose.antt =====
-- platform/workflow/core/compose_file.go: the services of a compose file and the order in which
-- they are deployed.
pub mod Position
pub mod Dfs
pub mod Visit
pub mod Checks
pub mod Laws
pub mod Tests
use runfabric.Prelude.{
  ℕ, zero, suc, String, ◌<>◌, ◌=?=◌, ◌+◌, Bool, true, false, ◌||◌, ltb, Option, none, some, List,
  [], ◌∷◌, ◌++◌, if◌then◌else◌, length, insert, lookup,
}
use runfabric.Errors.{Error, message, Result, ok, err}

pub record ComposeService : Type 0 where
  pub name : String
  pub config : String
  pub depends_on : List String

pub record ComposeFile : Type 0 where
  pub services : List ComposeService

-- A `map[string]bool` into which only `true` is written, by the keys that it holds.
abbrev pub contains : String → List String → Bool
contains x [] = false
contains x (y ∷ l) = y =?= x || contains x l

abbrev pub names : List ComposeService → List String
names [] = []
names (s ∷ rest) = s.name ∷ names rest

unfoldable pub unknown_error : String → String → Error
unknown_error s d = message ("service \"" <> s <> "\" depends on unknown service \"" <> d <> "\"")

unfoldable pub cycle_error : String → String → Error
cycle_error s d = message ("cycle in dependsOn involving \"" <> s <> "\" and \"" <> d <> "\"")

-- The first entry of `depends_on` that is no service.
unfoldable pub unknown_in : List String → List String → Option String
unknown_in known [] = none
unknown_in known (d ∷ ds) = if contains d known then unknown_in known ds else some d

unfoldable pub find_unknown : List String → List ComposeService → Option (String × String)
unfolding unknown_in
find_unknown known [] = none
find_unknown known (s ∷ rest) =
    let later = find_unknown known rest in
    elim (unknown_in known s.depends_on) [ none ↦ later | some d ↦ some (s.name, d) ]

-- What `visit` shares with its caller.
pub record Walk : Type 0 where
  pub visited : List String
  pub order : List String

-- What the first service of that name depends on.
unfoldable pub dependencies : List ComposeService → String → List String
dependencies [] n = []
dependencies (s ∷ rest) n = if s.name =?= n then s.depends_on else dependencies rest n

-- The loop over the dependencies; `none` is that the fuel of a visit ran out.
unfoldable pub visit_all : (String → Walk → Option Walk) → List String → Walk → Option Walk
visit_all go [] w = some w
visit_all go (d ∷ ds) w =
    if contains d w.visited
    then visit_all go ds w
    else elim (go d w) [ none ↦ none | some w' ↦ visit_all go ds w' ]

unfoldable pub append_name : String → Walk → Walk
append_name n w = record w { order = w.order ++ n ∷ [] }

-- `visit` contains nothing that makes an error.
module _ (services : List ComposeService) where
  unfoldable pub visit : ℕ → String → Walk → Option Walk
  unfolding visit_all dependencies append_name
  visit zero n w = none
  visit (suc fuel) n w =
      if contains n w.visited
      then some w
      else elim (visit_all (visit fuel) (dependencies services n)
          (record w { visited = n ∷ w.visited })) [
            | none ↦ none
            | some w' ↦ some (append_name n w')
          ]

  unfoldable pub visit_services : ℕ → List ComposeService → Walk → Option Walk
  unfolding visit
  visit_services fuel [] w = some w
  visit_services fuel (s ∷ rest) w = elim (visit fuel s.name w) [
    | none ↦ none
    | some w' ↦ visit_services fuel rest w'
  ]

-- The map `idx`; a key that is missing reads as 0.
unfoldable pub index_names : ℕ → List String → List (String × ℕ) → List (String × ℕ)
unfolding insert
index_names i [] m = m
index_names i (n ∷ rest) m = index_names (i + 1) rest (insert n i m)

unfoldable pub index_of : String → List (String × ℕ) → ℕ
unfolding lookup
index_of n m = elim (lookup n m) [ none ↦ 0 | some i ↦ i ]

-- The first entry of `depends_on` that comes after the name.
unfoldable pub later_in : List (String × ℕ) → String → List String → Option String
later_in idx n [] = none
later_in idx n (d ∷ ds) =
    if ltb (index_of n idx) (index_of d idx) then some d else later_in idx n ds

unfoldable pub find_cycle : List (String × ℕ) → List ComposeService → Option (String × String)
unfolding later_in index_of
find_cycle idx [] = none
find_cycle idx (s ∷ rest) =
    let later = find_cycle idx rest in
    elim (later_in idx s.name s.depends_on) [ none ↦ later | some d ↦ some (s.name, d) ]

unfoldable pub check_cycles : List ComposeService → List String → Result (List String)
unfolding find_cycle index_names
check_cycles services order = elim (find_cycle (index_names 0 order []) services) [
  | none ↦ ok order
  | some (s, d) ↦ err (cycle_error s d)
]

-- One visit is nested in another at most as deep as there are services.
unfoldable pub topo_order : ComposeFile → Option (Result (List String))
unfolding find_unknown visit_services check_cycles
topo_order c = elim (find_unknown (names c.services) c.services) [
  | some (s, d) ↦ some (err (unknown_error s d))
  | none ↦
      elim (visit_services c.services (suc (length c.services)) c.services
        (record { visited = []; order = [] })) [
          | none ↦ none
          | some w ↦ some (check_cycles c.services w.order)
        ]
]
