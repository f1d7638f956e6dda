-- ===== src/Secrets/Tests.antt =====
-- platform/core/policy/secrets: runs of the theorems on a few secrets.
use runfabric.Prelude.{String, ◌⊎◌, none, List, [], ◌∷◌}
use runfabric.Secrets.{Sources, resolve_secret_key}
use runfabric.Secrets.Laws.{IsResolved, IsTooDeep, resolve_secret_key_cases}

-- One key refers to another, and two to each other.
abbrev secrets : List (String × String)
secrets =
    ("db", " secret://pw ") ∷ ("pw", "hunter2") ∷ ("a", "secret://b") ∷ ("b", "secret://a") ∷ []

abbrev sources : Sources
sources = record {
  secrets = secrets;
  lookup_env = λ key. none;
  schemes = "vault" ∷ [];
  reference_resolver = none;
}

resolve_secret_key_cases_example :
    IsResolved sources 9 "a" (resolve_secret_key sources "a")
    ⊎ IsTooDeep sources 9 "a" (resolve_secret_key sources "a")
resolve_secret_key_cases_example = resolve_secret_key_cases sources "a"
