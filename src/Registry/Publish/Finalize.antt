-- ===== src/Registry/Publish/Finalize.antt =====
-- apps/registry/internal/store/store.go: FinalizePublish. A panic, of a session without files, is an error.
pub mod Outcome
use Prim.Native.Nat.{Ordering}
use Prim.Native.String.{compare as compare_text}
use runfabric.Prelude.{
  ℕ, String, ◌<>◌, ◌=?=◌, Bool, true, false, not, ◌&&◌, Option, none, some, List, [], ◌∷◌,
  if◌then◌else◌, lookup, insert, length,
}
use runfabric.Prelude.Int.{pos}
use runfabric.Prelude.Text.{trim_space, to_lower, trim_suffix}
use runfabric.Errors.{Error, message, io, not_exist, Result, ok, err}
use runfabric.Registry.{
  Publisher, Signature, Artifact, ExtensionVersion, Extension, PublishSession, PublishSessionFile,
  Data, Codec, local_signature,
}
use runfabric.Registry.Publish.{World, Bytes, Store, Answer, put_session, text_at, stored_file}
use runfabric.Registry.Publish.Files.{session_not_found}
use runfabric.Registry.Publish.Create.{or_default}

unfoldable pub all_uploaded : List (String × PublishSessionFile) → Bool
all_uploaded [] = true
all_uploaded ((k, f) ∷ rest) = f.uploaded && all_uploaded rest

-- The keys of a map are distinct, so the first one of them in order is the least.
unfoldable pub lesser : String → String → String
lesser s t = elim (compare_text s t) [ Ordering.gt ↦ t | Ordering.eq ↦ s | Ordering.lt ↦ s ]

unfoldable pub first_key : List (String × PublishSessionFile) → Option String
first_key [] = none
first_key ((k, f) ∷ rest) = elim (first_key rest) [ none ↦ some k | some j ↦ some (lesser k j) ]

abbrev has_suffix : String → String → Bool
has_suffix s suffix = not (trim_suffix suffix s =?= s)

unfoldable pub artifact_format : String → String
artifact_format name =
    let lower = to_lower (trim_space name) in
    if has_suffix lower ".tar.gz"
    then "tar.gz"
    else if has_suffix lower ".tgz"
    then "tgz"
    else if has_suffix lower ".zip"
    then "zip"
    else "executable"

abbrev is_verified : Option Publisher → Bool
is_verified none = false
is_verified (some p) = p.verified

abbrev type_of_session : PublishSession → String
type_of_session s = trim_space (text_at "type" s.extension)

abbrev pub id_of_session : PublishSession → String
id_of_session s = trim_space (text_at "id" s.extension)

abbrev pub version_of_session : PublishSession → String
version_of_session s = trim_space (text_at "version" s.extension)

unfoldable pub description_of : PublishSession → String
description_of s = or_default (id_of_session s) (trim_space (text_at "description" s.extension))

unfoldable pub new_extension : PublishSession → Extension
new_extension s = record {
  extension_id = id_of_session s;
  aliases = [];
  name = id_of_session s;
  extension_type = type_of_session s;
  plugin_kind = trim_space (text_at "pluginKind" s.extension);
  description = description_of s;
  publisher_id = s.publisher;
  versions = [];
}

-- The extension of the session, which is made if it is not there.
unfoldable pub extension_of : PublishSession → Data → Extension
extension_of s d = elim (lookup (id_of_session s) d.extensions) [
  | some e ↦ e
  | none ↦ new_extension s
]

unfoldable pub put_extension : PublishSession → Extension → Store → Store
put_extension s e st = record st {
  db = record st.db { extensions = insert (id_of_session s) e st.db.extensions };
}

unfoldable pub add_extension : PublishSession → Store → Store
add_extension s st = elim (lookup (id_of_session s) st.db.extensions) [
  | some e ↦ st
  | none ↦ put_extension s (new_extension s) st
]

unfoldable pub must_sign : PublishSession → Data → Bool
must_sign s d = is_verified (lookup s.publisher d.publishers) && type_of_session s =?= "plugin"

module _ (c : Codec) where
  unfoldable pub new_artifact :
      PublishSession → String → PublishSessionFile → Bytes → Data → Artifact
  new_artifact s key f b d = record {
    artifact_type = if type_of_session s =?= "plugin" then "binary" else "addon";
    format = artifact_format f.name;
    url = "/v1/uploads/" <> c.path_escape s.session_id <> "/" <> c.path_escape key;
    size_bytes = pos (length b);
    checksum_algorithm = "sha256";
    checksum_value = f.declared_checksum;
    signature = if must_sign s d then some (local_signature c b) else none;
    os = "";
    arch = "";
    deterministic_binary = false;
  }

unfoldable pub new_version : World → PublishSession → Artifact → ExtensionVersion
new_version w s a = record {
  version = version_of_session s;
  release_status = "published";
  description = description_of s;
  core_constraint = ">=0.9.0";
  compatibility_core = some ">=0.9.0";
  artifacts = a ∷ [];
  published_at = w.now;
}

unfoldable pub published_session : World → PublishSession → PublishSession
published_session w s = record s { status = "published"; updated_at = w.now }

unfoldable pub add_version : Option ExtensionVersion → PublishSession → Extension → Extension
add_version v s e = record e { versions = insert (version_of_session s) v e.versions }

abbrev pub is_unsigned : Option Signature → Bool
is_unsigned none = true
is_unsigned (some x) = false

abbrev pub panicked : Error
panicked = message "panic: the session has no file"

module _ (c : Codec) (w : World) (id : String) (s : PublishSession) where
  unfoldable pub publish_artifact : Artifact → Store → Answer
  publish_artifact a st =
      let e = add_version (some (new_version w s a)) s (extension_of s st.db) in
      put_session w id (published_session w s) (put_extension s e st)

  unfoldable pub publish_bytes : String → PublishSessionFile → Bytes → Store → Answer
  publish_bytes key f b st =
      let a = new_artifact c s key f b st.db in
      if must_sign s st.db && is_unsigned a.signature
      then (err (message "plugin artifacts require signature for verified publisher policy"), st)
      else publish_artifact a st

  -- os.ReadFile of the first file
  unfoldable pub publish_file : String → PublishSessionFile → Store → Answer
  publish_file key f st = elim (stored_file s.session_id key st) [
    | none ↦ (err not_exist, st)
    | some b ↦ if w.read_fails then (err io, st) else publish_bytes key f b st
  ]

  unfoldable pub publish_first : Store → Answer
  publish_first st = elim (first_key s.files) [
    | none ↦ (err panicked, st)
    | some key ↦ elim (lookup key s.files) [
      | none ↦ (err panicked, st)
      | some f ↦ publish_file key f st
    ]
  ]

  unfoldable pub publish_new : Store → Answer
  publish_new st = elim (lookup (version_of_session s) (extension_of s st.db).versions) [
    | some v ↦ (err (message ("version " <> version_of_session s <> " already exists")), st)
    | none ↦ publish_first st
  ]

  unfoldable pub finalize_session : Store → Answer
  finalize_session st =
      if not (all_uploaded s.files)
      then (err (message "all staged files must be uploaded before finalize"), st)
      else publish_new (add_extension s st)

unfoldable pub finalize_publish : Codec → World → String → Store → Answer
finalize_publish c w publish_id st =
    let id = trim_space publish_id in
    elim (lookup id st.db.publish_sessions) [
      | none ↦ (err session_not_found, st)
      | some s ↦ finalize_session c w id s st
    ]
