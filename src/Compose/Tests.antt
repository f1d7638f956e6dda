-- ===== src/Compose/Tests.antt =====
-- platform/workflow/core/compose_file.go: runs of the theorems on a small compose file.
use runfabric.Prelude.{String, ◌≡◌, refl, ◌⊎◌, ◌↔◌, some, List, [], ◌∷◌}
use runfabric.Errors.{ok, err}
use runfabric.Compose.{ComposeService, ComposeFile, unknown_error, cycle_error, topo_order}
use runfabric.Compose.Laws.{IsOrder, IsUnknown, IsCycle, topo_order_cases, topo_order_iff}

abbrev service : String → List String → ComposeService
service n ds = record { name = n; config = n; depends_on = ds }

abbrev shop : ComposeFile
shop = record {
  services =
      service "web" ("api" ∷ "auth" ∷ [])
      ∷ service "api" ("db" ∷ [])
      ∷ service "db" []
      ∷ service "auth" ("db" ∷ [])
      ∷ [];
}

topo_order_cases_example :
    ((order : List String) × (topo_order shop ≡ some (ok order)) × IsOrder shop.services order)
    ⊎ ((n d : String) × (topo_order shop ≡ some (err (unknown_error n d)))
        × IsUnknown shop.services n d)
    ⊎ ((n d : String) × (topo_order shop ≡ some (err (cycle_error n d)))
        × IsCycle shop.services n d)
topo_order_cases_example = topo_order_cases shop (refl, (refl, (refl, (refl, tt))))

topo_order_iff_example : ((order : List String) × (topo_order shop ≡ some (ok order))) ↔ (
    ((n d : String) → ¬ IsUnknown shop.services n d)
    × ((n d : String) → ¬ IsCycle shop.services n d))
topo_order_iff_example = topo_order_iff shop (refl, (refl, (refl, (refl, tt))))
