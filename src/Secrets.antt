-- ===== src/Secrets.antt =====
-- platform/core/policy/secrets: resolver.go and validate.go. A nil map of secrets is an empty one, and
-- a map lists its entries in the order in which Go visits them.
pub mod Laws
pub mod Tests
use runfabric.Prelude.{
  ℕ, zero, suc, String, ◌<>◌, ◌=?=◌, Bool, true, false, ◌||◌, ◌&&◌, Option, none, some, List, [],
  ◌∷◌, if◌then◌else◌, lookup,
}
use runfabric.Prelude.Text.{trim_space, to_lower, has_prefix, drop_text, before, codes, trim_suffix}
use runfabric.Errors.{Error, message, Result, ok, err}

-- What a resolution reads: the configured secrets, the process environment, the schemes of secret
-- managers, and the resolver of their references, if one is set.
pub record Sources : Type 0 where
  pub secrets : List (String × String)
  pub lookup_env : String → Option String
  pub schemes : List String
  pub reference_resolver : Option (String → Result String)

unfoldable pub listed : String → List String → Bool
listed x [] = false
listed x (y ∷ rest) = y =?= x || listed x rest

unfoldable pub normalize_scheme : String → String
unfolding trim_space to_lower trim_suffix
normalize_scheme raw = trim_space (trim_suffix "://" (to_lower (trim_space raw)))

-- A separator at the start, or none, gives no scheme.
unfoldable pub extract_ref_scheme : String → String
unfolding trim_space normalize_scheme
extract_ref_scheme value = elim (before (codes "://") (trim_space value)) [
  | none ↦ ""
  | some t ↦ if t =?= "" then "" else normalize_scheme t
]

unfoldable pub is_secret_manager_ref : List String → String → Bool
unfolding extract_ref_scheme listed
is_secret_manager_ref schemes value =
    let scheme = extract_ref_scheme value in if scheme =?= "" then false else listed scheme schemes

unfoldable pub no_plugin_error : String → Error
no_plugin_error value = message (
    "secret manager reference \"" <> value
    <> "\" requires extensions.secretManagerPlugin to be installed and configured")

unfoldable pub empty_value_error : String → Error
empty_value_error value =
    message ("secret manager reference \"" <> value <> "\" resolved to empty value")

unfoldable pub unset_error : String → Error
unset_error key = message ("config references ${secret:" <> key <> "} but " <> key <> " is not set")

unfoldable pub empty_ref_error : String → Error
empty_ref_error key = message ("secret \"" <> key <> "\" references empty secret:// ref")

unfoldable pub too_deep_error : String → Error
too_deep_error key = message ("secret resolution exceeded max depth for \"" <> key <> "\"")

abbrev empty_key_error : Error
empty_key_error = message "secret key is empty"

unfoldable pub resolved_answer : String → Result String → Result String
unfolding trim_space empty_value_error
resolved_answer value (err e) = err e
resolved_answer value (ok r) =
    if trim_space r =?= "" then err (empty_value_error value) else ok (trim_space r)

-- What a key leads to: an answer, or another key.
pub data Hop : Type 0 where
  answer : Result String → Hop
  refer : String → Hop

unfoldable pub referred : String → String → Hop
unfolding empty_ref_error
referred key ref = if ref =?= "" then answer (err (empty_ref_error key)) else refer ref

module _ (src : Sources) where
  -- resolveSecretManagerRefValue
  unfoldable pub resolve_value : String → Result String
  unfolding trim_space is_secret_manager_ref no_plugin_error resolved_answer
  resolve_value raw =
      let value = trim_space raw in
      if value =?= ""
      then ok ""
      else if is_secret_manager_ref src.schemes value
      then elim src.reference_resolver [
        | none ↦ err (no_plugin_error value)
        | some resolver ↦ resolved_answer value (resolver value)
      ]
      else ok value

  unfoldable pub from_environment : String → Result String
  unfolding trim_space unset_error resolve_value
  from_environment key = elim (src.lookup_env key) [
    | none ↦ err (unset_error key)
    | some v ↦ if trim_space v =?= "" then err (unset_error key) else resolve_value v
  ]

  -- A configured value, which is trimmed.
  unfoldable pub configured : String → String → Hop
  unfolding trim_space has_prefix drop_text referred resolve_value
  configured key v =
      if has_prefix v "secret://"
      then referred key (trim_space (drop_text 9 v))
      else answer (resolve_value v)

  -- One call of resolveSecretKey for a trimmed key, without the call that it makes of itself.
  unfoldable pub hop : String → Hop
  unfolding lookup trim_space from_environment configured
  hop key = if key =?= "" then answer (err empty_key_error) else elim (lookup key src.secrets) [
    | none ↦ answer (from_environment key)
    | some v ↦ configured key (trim_space v)
  ]

  -- `left` is how many depths are left: 9 minus the depth of the call.
  unfoldable pub resolve : ℕ → String → Result String
  unfolding hop trim_space too_deep_error
  resolve zero key = err (too_deep_error key)
  resolve (suc left) key = elim (hop (trim_space key)) [
    | answer r ↦ r
    | refer ref ↦ resolve left ref
  ]

  unfoldable pub resolve_secret_key : String → Result String
  unfolding resolve
  resolve_secret_key key = resolve 9 key

-- What stands behind the first separator.
unfoldable pub after_separator : String → String
unfolding has_prefix drop_text
after_separator String.[] = ""
after_separator (String.◌∷◌ c s) =
    let later = after_separator s in
    if has_prefix (String.◌∷◌ c s) "://" then drop_text 2 s else later

-- What ValidateConfigSecretMap finds of one entry.
unfoldable pub entry_error : List String → String → String → Option Error
unfolding trim_space has_prefix drop_text is_secret_manager_ref after_separator
entry_error schemes k v =
    let trimmed = trim_space v in
    if trim_space k =?= ""
    then some (message "secrets contains empty key")
    else if trimmed =?= ""
    then some (message ("secrets." <> k <> " is empty"))
    else if has_prefix trimmed "secret://" && trim_space (drop_text 9 trimmed) =?= ""
    then some (message ("secrets." <> k <> " has empty secret:// reference"))
    else if is_secret_manager_ref schemes trimmed && trim_space (after_separator trimmed) =?= ""
    then some (message ("secrets." <> k <> " has empty secret manager reference"))
    else none

unfoldable pub validate_config_secret_map : List String → List (String × String) → Option Error
unfolding entry_error
validate_config_secret_map schemes [] = none
validate_config_secret_map schemes ((k, v) ∷ rest) =
    let later = validate_config_secret_map schemes rest in
    elim (entry_error schemes k v) [ some e ↦ some e | none ↦ later ]

-- isProductionStage
unfoldable pub is_production_stage : String → Bool
unfolding trim_space to_lower
is_production_stage stage =
    let s = to_lower (trim_space stage) in s =?= "prod" || s =?= "production" || s =?= "live"

-- The values that a production stage may have.
unfoldable pub is_reference : List String → String → Bool
unfolding has_prefix is_secret_manager_ref
is_reference schemes trimmed =
    has_prefix trimmed "${env:"
    || has_prefix trimmed "${secret:"
    || has_prefix trimmed "secret://"
    || is_secret_manager_ref schemes trimmed

-- The first secret that is a literal; `examples` is SecretManagerRefExamples().
unfoldable pub literal_error : String → String → String → Error
unfolding trim_space
literal_error examples key stage = message (
    "secrets."
    <> key
    <> " uses a static literal in production stage \""
    <> trim_space stage
    <> "\"; use ${env:VAR}, secret://KEY, or secret manager refs ("
    <> examples
    <> ")")

unfoldable pub find_literal : List String → List (String × String) → Option String
unfolding trim_space is_reference
find_literal schemes [] = none
find_literal schemes ((key, value) ∷ rest) =
    let later = find_literal schemes rest in
    if trim_space value =?= ""
    then later
    else if is_reference schemes (trim_space value)
    then later
    else some key

unfoldable pub validate_for_stage :
    List String → String → List (String × String) → String → Option Error
unfolding is_production_stage find_literal literal_error
validate_for_stage schemes examples secrets stage =
    if is_production_stage stage
    then elim (find_literal schemes secrets) [
      | none ↦ none
      | some key ↦ some (literal_error examples key stage)
    ]
    else none
