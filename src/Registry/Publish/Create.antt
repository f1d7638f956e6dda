-- ===== src/Registry/Publish/Create.antt =====
-- apps/registry/internal/store/store.go: CreatePublishSession.
use runfabric.Prelude.{
  String, ◌<>◌, ◌=?=◌, Bool, true, false, not, ◌&&◌, ◌||◌, Option, none, some, List, [], ◌∷◌,
  if◌then◌else◌, insert,
}
use runfabric.Prelude.Int.{ℤ}
use runfabric.Prelude.Text.{trim_space, to_lower}
use runfabric.Errors.{Error, message, Result, ok, err}
use runfabric.Registry.{PublishSession, PublishSessionFile}
use runfabric.Registry.Publish.{World, Store, Answer, put_session}

pub record PublishFileInput : Type 0 where
  pub key : String
  pub name : String
  pub size_bytes : ℤ
  pub algorithm : String
  pub checksum : String

pub record PublishInitInput : Type 0 where
  pub publisher : String
  pub id : String
  pub version : String
  pub extension_type : String
  pub plugin_kind : String
  pub description : String
  pub files : List PublishFileInput

abbrev pub or_default : String → String → String
or_default default t = if t =?= "" then default else t

unfoldable pub type_of : PublishInitInput → String
type_of req = or_default "plugin" (to_lower (trim_space req.extension_type))

unfoldable pub is_plugin_kind : String → Bool
is_plugin_kind kind =
    let k = to_lower (trim_space kind) in k =?= "provider" || k =?= "runtime" || k =?= "simulator"

abbrev has_files : List PublishFileInput → Bool
has_files [] = false
has_files (f ∷ rest) = true

unfoldable pub init_error : PublishInitInput → Option Error
init_error req =
    if trim_space req.id =?= "" || trim_space req.version =?= ""
    then some (message "extension id and version are required")
    else if not (type_of req =?= "plugin") && not (type_of req =?= "addon")
    then some (message "type must be plugin or addon")
    else if type_of req =?= "plugin" && not (is_plugin_kind req.plugin_kind)
    then some (message "pluginKind must be provider, runtime, or simulator")
    else if not (has_files req.files)
    then some (message "at least one file is required")
    else none

abbrev pub key_of : PublishFileInput → String
key_of f = or_default "artifact" (trim_space f.key)

abbrev algorithm_of : PublishFileInput → String
algorithm_of f = or_default "sha256" (to_lower (trim_space f.algorithm))

abbrev checksum_of : PublishFileInput → String
checksum_of f = to_lower (trim_space f.checksum)

unfoldable pub file_error : PublishFileInput → Option Error
file_error f =
    if not (algorithm_of f =?= "sha256")
    then some (message ("file " <> key_of f <> " checksum algorithm must be sha256"))
    else if checksum_of f =?= ""
    then some (message ("file " <> key_of f <> " checksum is required"))
    else none

unfoldable pub staged_file : PublishFileInput → PublishSessionFile
staged_file f = record {
  key = key_of f;
  name = trim_space f.name;
  declared_size_bytes = f.size_bytes;
  declared_algorithm = algorithm_of f;
  declared_checksum = checksum_of f;
  uploaded = false;
  uploaded_size_bytes = 0;
}

-- The loop over the files, with those that are staged.
unfoldable pub stage_files :
    List PublishFileInput
    → List (String × PublishSessionFile)
    → Result (List (String × PublishSessionFile))
stage_files [] staged = ok staged
stage_files (f ∷ rest) staged =
    let later = stage_files rest (insert (key_of f) (staged_file f) staged) in
    elim (file_error f) [ some e ↦ err e | none ↦ later ]

unfoldable pub publish_id : World → String
publish_id w = "pub_local_" <> w.nanoseconds

unfoldable pub new_session :
    World → PublishInitInput → List (String × PublishSessionFile) → PublishSession
new_session w req files = record {
  session_id = publish_id w;
  status = "staged";
  publisher = trim_space req.publisher;
  extension =
      ("id", trim_space req.id)
      ∷ ("version", trim_space req.version)
      ∷ ("type", type_of req)
      ∷ ("pluginKind", trim_space req.plugin_kind)
      ∷ ("description", trim_space req.description)
      ∷ [];
  files = files;
  created_at = w.now;
  updated_at = w.now;
  uploaded_at = "";
}

unfoldable pub create_publish_session : World → PublishInitInput → Store → Answer
create_publish_session w req st = elim (init_error req) [
  | some e ↦ (err e, st)
  | none ↦ elim (stage_files req.files []) [
    | err e ↦ (err e, st)
    | ok files ↦ put_session w (publish_id w) (new_session w req files) st
  ]
]
