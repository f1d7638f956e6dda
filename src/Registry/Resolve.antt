-- ===== src/Registry/Resolve.antt =====
-- apps/registry/internal/store/store.go: Resolve. The candidates are met in the order in which Go visits
-- the map of versions, and sort.Slice is an insertion sort: of two that precede neither one the other
-- any may stand first.
pub mod Order
pub mod Sorted
pub mod Laws
use Prim.Native.Nat.{Ordering}
use Prim.Native.String.{compare as compare_text}
use runfabric.Prelude.{
  ℕ, String, ◌<>◌, ◌=?=◌, Bool, true, false, not, ◌&&◌, ◌||◌, Option, none, some, List, [], ◌∷◌,
  if◌then◌else◌, lookup, length,
}
use runfabric.Prelude.Int.{pos}
use runfabric.Prelude.Text.{trim_space, equal_fold, replace_from, codes}
use runfabric.Errors.{Error, message, Result, ok, err}
use runfabric.Registry.Semver.{compare_version, core_compatible}
use runfabric.Registry.{
  Publisher, Artifact, ExtensionVersion, Extension, Data, Codec, local_signature,
}

pub record ResolveInput : Type 0 where
  pub id : String
  pub core : String
  pub os : String
  pub arch : String
  pub version : String

pub record ResolveOutput : Type 0 where
  pub extension : Extension
  pub version : ExtensionVersion
  pub publisher : Publisher
  pub artifact : Artifact

abbrev has_alias : String → List String → Bool
has_alias raw [] = false
has_alias raw (a ∷ rest) = equal_fold (trim_space a) raw || has_alias raw rest

unfoldable pub aliased : String → List (String × Extension) → String
aliased raw [] = raw
aliased raw ((id, e) ∷ rest) =
    let later = aliased raw rest in if has_alias raw e.aliases then id else later

-- canonicalIDLocked
unfoldable pub canonical_id : List (String × Extension) → String → String
canonical_id exts id =
    let raw = trim_space id in
    if raw =?= "" then "" else elim (lookup raw exts) [ some e ↦ raw | none ↦ aliased raw exts ]

unfoldable pub effective_core_constraint : ExtensionVersion → String
effective_core_constraint v =
    if not (trim_space v.core_constraint =?= "")
    then trim_space v.core_constraint
    else elim v.compatibility_core [ some c ↦ trim_space c | none ↦ "" ]

unfoldable pub first_for : String → String → List Artifact → Option Artifact
first_for os arch [] = none
first_for os arch (a ∷ rest) =
    let later = first_for os arch rest in
    if equal_fold (trim_space a.os) os && equal_fold (trim_space a.arch) arch then some a else later

unfoldable pub first_generic : List Artifact → Option Artifact
first_generic [] = none
first_generic (a ∷ rest) =
    let later = first_generic rest in
    if trim_space a.os =?= "" && trim_space a.arch =?= "" then some a else later

abbrev head_of : List Artifact → Option Artifact
head_of [] = none
head_of (a ∷ rest) = some a

unfoldable pub select_artifact : ExtensionVersion → String → String → String → Option Artifact
select_artifact v ext_type os arch =
    if not (ext_type =?= "plugin")
    then head_of v.artifacts
    else elim (first_for os arch v.artifacts) [ some a ↦ some a | none ↦ first_generic v.artifacts ]

-- deterministicBinaryBytes
unfoldable pub deterministic_bytes : String → String → String → String → List ℕ
deterministic_bytes id version os arch = codes (id <> "@" <> version <> ":" <> os <> "-" <> arch)

module _ (c : Codec) where
  unfoldable pub materialize_artifact : String → String → Artifact → String → String → Artifact
  materialize_artifact id version a os arch =
      let with_os = replace_from 0 "${os}" (c.query_escape os) a.url in
      let out = record a { url = replace_from 0 "${arch}" (c.query_escape arch) with_os } in
      let b = deterministic_bytes id version os arch in
      if not a.deterministic_binary then out else record out {
        size_bytes = pos (length b);
        checksum_algorithm = "sha256";
        checksum_value = c.sha256_hex b;
        signature = some (local_signature c b);
      }

abbrev pub is_above : Ordering → Bool
is_above Ordering.lt = false
is_above Ordering.eq = false
is_above Ordering.gt = true

-- The `less` of the sort: a higher version first, then what was published later, then the greater text.
unfoldable pub precedes : ExtensionVersion → ExtensionVersion → Bool
precedes v w = elim (compare_version v.version w.version) [
  | Ordering.gt ↦ true
  | Ordering.lt ↦ false
  | Ordering.eq ↦
      if not (v.published_at =?= w.published_at)
      then is_above (compare_text v.published_at w.published_at)
      else is_above (compare_text v.version w.version)
]

unfoldable pub insert_by_order : ExtensionVersion → List ExtensionVersion → List ExtensionVersion
insert_by_order v [] = v ∷ []
insert_by_order v (w ∷ rest) =
    let later = insert_by_order v rest in if precedes w v then w ∷ later else v ∷ w ∷ rest

unfoldable pub sort_candidates : List ExtensionVersion → List ExtensionVersion
sort_candidates [] = []
sort_candidates (v ∷ rest) = insert_by_order v (sort_candidates rest)

-- What the request asks of a version: the trimmed core, system, architecture and pin.
pub record Wanted : Type 0 where
  pub core : String
  pub os : String
  pub arch : String
  pub pin : String

unfoldable pub wanted : ResolveInput → Wanted
wanted req = record {
  core = trim_space req.core;
  os = trim_space req.os;
  arch = trim_space req.arch;
  pin = trim_space req.version;
}

abbrev is_there : Option Artifact → Bool
is_there none = false
is_there (some a) = true

unfoldable pub is_candidate : Wanted → String → ExtensionVersion → Bool
is_candidate w ext_type v =
    trim_space v.release_status =?= "published"
    && (w.pin =?= "" || trim_space v.version =?= w.pin)
    && core_compatible w.core (effective_core_constraint v)
    && is_there (select_artifact v ext_type w.os w.arch)

unfoldable pub candidates :
    Wanted → String → List (String × Option ExtensionVersion) → List ExtensionVersion
candidates w ext_type [] = []
candidates w ext_type ((k, none) ∷ rest) = candidates w ext_type rest
candidates w ext_type ((k, some v) ∷ rest) =
    let later = candidates w ext_type rest in if is_candidate w ext_type v then v ∷ later else later

-- cloneExtensionMeta, which leaves the versions out.
abbrev extension_meta : Extension → Extension
extension_meta e = record e { versions = [] }

abbrev needs_signature : Publisher → Artifact → Bool
needs_signature p a = p.verified && not (elim a.signature [ none ↦ false | some s ↦ true ])

unfoldable pub resolved :
    Codec → Wanted → Extension → Publisher → ExtensionVersion → Artifact → Result ResolveOutput
resolved c w e p v chosen =
    let a = materialize_artifact c e.extension_id v.version chosen w.os w.arch in
    if needs_signature p a
    then err (message "verified publisher artifact requires signature")
    else ok (record { extension = extension_meta e; version = v; publisher = p; artifact = a })

abbrev zero_artifact : Artifact
zero_artifact = record {
  artifact_type = "";
  format = "";
  url = "";
  size_bytes = pos 0;
  checksum_algorithm = "";
  checksum_value = "";
  signature = none;
  os = "";
  arch = "";
  deterministic_binary = false;
}

abbrev pub or_zero : Option Artifact → Artifact
or_zero none = zero_artifact
or_zero (some a) = a

abbrev pub no_compatible_version : Error
no_compatible_version = message "no compatible version"

-- The first of the sorted candidates.
unfoldable pub pick :
    Codec → Wanted → Extension → Publisher → List ExtensionVersion → Result ResolveOutput
pick c w e p [] = err no_compatible_version
pick c w e p (v ∷ rest) =
    resolved c w e p v (or_zero (select_artifact v e.extension_type w.os w.arch))

unfoldable pub resolve_extension :
    Codec → Wanted → Extension → Option Publisher → Result ResolveOutput
resolve_extension c w e none = err (message "publisher not found")
resolve_extension c w e (some p) =
    pick c w e p (sort_candidates (candidates w e.extension_type e.versions))

unfoldable pub resolve : Codec → ResolveInput → Data → Result ResolveOutput
resolve c req d = elim (lookup (canonical_id d.extensions (trim_space req.id)) d.extensions) [
  | none ↦ err (message "extension not found")
  | some e ↦ resolve_extension c (wanted req) e (lookup e.publisher_id d.publishers)
]
