-- ===== src/Registry/Tests.antt =====
-- apps/registry/internal/store/store.go: runs of the theorems on a small registry.
use Prim.Native.Nat.{Ordering}
use mathlib.Core.Logic.{◌≢◌}
use runfabric.Prelude.{
  String, ◌≤◌, ◌≡◌, refl, arith, ◌⊎◌, true, false, Option, none, some, List, [], ◌∷◌, lookup,
  insert, length, if◌then◌else◌, ◌==◌, ◌=?=◌, All,
}
use runfabric.Prelude.Int.{pos}
use runfabric.Prelude.Text.{trim_space, to_lower, equal_fold, split}
use runfabric.Errors.{ok, err}
use runfabric.Registry.{
  AuditEvent, Publisher, Artifact, ExtensionVersion, Extension, PublishSession, PublishSessionFile,
  Data, Codec,
}
use runfabric.Registry.Semver.{
  compare_version, compare_parsed, compare_numbers, parse_semver, core_compatible, all_hold,
  part_holds, split_constraint,
}
use runfabric.Registry.Semver.Laws.{swap, compare_version_trans}
use runfabric.Registry.Semver.Core.{IsLowerBound, core_compatible-IsLowerBound}
use runfabric.Registry.Resolve.{
  ResolveInput, canonical_id, select_artifact, wanted, resolved, no_compatible_version, or_zero,
  resolve,
}
use runfabric.Registry.Resolve.Laws.{NoneFits, IsBest, resolve_cases}
use runfabric.Registry.Audit.{max_events, listed_events, list_audit}
use runfabric.Registry.Audit.Laws.{last, record_all, list_audit-record_all}
use runfabric.Registry.Publish.{
  intact, cut_short, World, Bytes, Store, put_session, save_locked, after_save, stored_file, dir_of,
  write_upload, text_at,
}
use runfabric.Registry.Publish.Create.{
  PublishInitInput, publish_id, create_publish_session, init_error, type_of, is_plugin_kind,
  stage_files, file_error, staged_file, new_session,
}
use runfabric.Registry.Publish.Files.{
  wrong_size, upload_publish_file, upload_to, upload_file, after_write, uploaded_file,
  uploaded_session,
}
use runfabric.Registry.Publish.Finalize.{
  published_session, finalize_publish, finalize_session, publish_new, publish_first, publish_file,
  publish_bytes, publish_artifact, add_extension, put_extension, extension_of, new_extension,
  new_version, new_artifact, add_version, all_uploaded, first_key, must_sign, description_of,
  artifact_format,
}
use runfabric.Registry.Publish.Run.{
  create, upload, finalize, answer_of, Event, request, relaunched, after, run,
}
use runfabric.Registry.Publish.Saved.{Saves, answer_of-Saves}
use runfabric.Registry.Publish.Immutable.{version_at, IsPublished, run-IsPublished}
use runfabric.Registry.Publish.Genuine.{IsGenuine, finalize_publish-IsGenuine}

not_gt : {o : Ordering} → o ≡ Ordering.lt → o ≢ Ordering.gt
not_gt h k = cc

below_middle : compare_version "v1.2.0" "1.10.0-rc.1" ≡ Ordering.lt
unfolding compare_version parse_semver compare_parsed compare_numbers
below_middle = refl

below_high : compare_version "1.10.0-rc.1" "2" ≡ Ordering.lt
unfolding compare_version parse_semver compare_parsed compare_numbers
below_high = refl

compare_version_trans_example :
    (compare_version "v1.2.0" "2" ≢ Ordering.gt)
    × (compare_version "2" "v1.2.0" ≢ Ordering.lt)
    × (compare_version "2" "v1.2.0" ≡ swap (compare_version "v1.2.0" "2"))
compare_version_trans_example =
    compare_version_trans "v1.2.0" "1.10.0-rc.1" "2" (not_gt below_middle) (not_gt below_high)

newer_core : compare_version (trim_space "0.9.1") (trim_space "1.0.0") ≡ Ordering.lt
unfolding compare_version parse_semver compare_parsed compare_numbers trim_space
newer_core = refl

old_core_fits : core_compatible "0.9.1" ">=0.9.0, > 0.8" ≡ true
unfolding core_compatible all_hold part_holds split_constraint compare_version parse_semver
    compare_parsed compare_numbers
old_core_fits = refl

lower_bounds : All IsLowerBound (split b',' (trim_space ">=0.9.0, > 0.8"))
unfolding split_constraint trim_space split
lower_bounds = (refl, (refl, tt))

not_blank : (trim_space "1.0.0" =?= "") ≡ false
unfolding trim_space
not_blank = refl

core_compatible-IsLowerBound_example : core_compatible "1.0.0" ">=0.9.0, > 0.8" ≡ true
core_compatible-IsLowerBound_example =
    core_compatible-IsLowerBound "0.9.1" "1.0.0" ">=0.9.0, > 0.8" lower_bounds not_blank
      (not_gt newer_core) old_core_fits

abbrev codec : Codec
codec = record {
  sha256_hex = λ b. if length b == 2 then "bb" else "aa";
  sign_bytes = λ b. "signed";
  query_escape = λ t. t;
  path_escape = λ t. t;
}

abbrev acme : Publisher
acme = record { publisher_id = "acme"; name = "Acme"; verified = true; trust = "official" }

abbrev world : World
world = record {
  now = "t1";
  nanoseconds = "7";
  save_fails = false;
  mkdir_fails = false;
  read_fails = false;
  write = intact;
}

abbrev init : PublishInitInput
init = record {
  publisher = "acme";
  id = "tool";
  version = "1.0.0";
  extension_type = "plugin";
  plugin_kind = "runtime";
  description = "";
  files =
      record { key = "bin"; name = "tool.tgz"; size_bytes = pos 2; algorithm = ""; checksum = "BB" }
      ∷ [];
}

abbrev body : Bytes
body = 1 ∷ 2 ∷ []

abbrev with_acme : List (String × Extension) → List (String × PublishSession) → Data
with_acme exts sessions = record {
  publishers = ("acme", acme) ∷ [];
  extensions = exts;
  publish_sessions = sessions;
  audit_log = [];
}

abbrev store_of : Data → List (String × List (String × Bytes)) → Store
store_of d u = record { db = d; saved = d; uploads = u }

abbrev empty_store : Store
empty_store = store_of (with_acme [] []) []

abbrev begun : List Event
begun = request world (create init) ∷ request world (upload "pub_local_7" "bin" body) ∷ []

abbrev tool_file : PublishSessionFile
tool_file = record {
  key = "bin";
  name = "tool.tgz";
  declared_size_bytes = pos 2;
  declared_algorithm = "sha256";
  declared_checksum = "bb";
  uploaded = true;
  uploaded_size_bytes = 2;
}

abbrev session_with : String → PublishSession
session_with status = record {
  session_id = "pub_local_7";
  status = status;
  publisher = "acme";
  extension =
      ("id", "tool")
      ∷ ("version", "1.0.0")
      ∷ ("type", "plugin")
      ∷ ("pluginKind", "runtime")
      ∷ ("description", "")
      ∷ [];
  files = ("bin", tool_file) ∷ [];
  created_at = "t1";
  updated_at = "t1";
  uploaded_at = "t1";
}

finalizes :
    (finalize_publish codec world "pub_local_7" (run codec begun empty_store)).0
    ≡ ok (session_with "published")
unfolding finalize_publish finalize_session run after answer_of create_publish_session
    upload_publish_file lookup trim_space upload_to init_error type_of to_lower is_plugin_kind
    stage_files file_error put_session insert publish_id new_session upload_file equal_fold
    staged_file wrong_size after_write uploaded_file uploaded_session add_extension add_version
    all_uploaded artifact_format description_of extension_of first_key must_sign new_artifact
    new_extension new_version publish_artifact publish_bytes publish_file publish_first publish_new
    published_session put_extension after_save dir_of save_locked stored_file text_at write_upload
finalizes = refl

finalize_publish-IsGenuine_example :
    IsGenuine codec
      (trim_space "pub_local_7")
      (session_with "published")
      (finalize_publish codec world "pub_local_7" (run codec begun empty_store)).1
finalize_publish-IsGenuine_example =
    finalize_publish-IsGenuine codec world begun empty_store "pub_local_7"
      (session_with "published") refl (tt, (tt, tt)) finalizes

answer_of-Saves_example :
    Saves
      (run codec begun empty_store)
      (answer_of codec world (finalize "pub_local_7") (run codec begun empty_store))
answer_of-Saves_example =
    answer_of-Saves codec world (finalize "pub_local_7") (run codec begun empty_store)

abbrev artifact : Artifact
artifact = record {
  artifact_type = "binary";
  format = "tgz";
  url = "/bin";
  size_bytes = pos 2;
  checksum_algorithm = "sha256";
  checksum_value = "bb";
  signature = none;
  os = "";
  arch = "";
  deterministic_binary = false;
}

abbrev version_named : String → ExtensionVersion
version_named v = record {
  version = v;
  release_status = "published";
  description = "";
  core_constraint = ">=0.9.0";
  compatibility_core = none;
  artifacts = artifact ∷ [];
  published_at = "t0";
}

abbrev tool : String → List (String × Option ExtensionVersion) → Extension
tool publisher versions = record {
  extension_id = "tool";
  aliases = [];
  name = "tool";
  extension_type = "plugin";
  plugin_kind = "runtime";
  description = "";
  publisher_id = publisher;
  versions = versions;
}

abbrev versions : List (String × Option ExtensionVersion)
versions = ("1.0.0", some (version_named "1.0.0")) ∷ ("1.2.0", some (version_named "1.2.0")) ∷ []

abbrev registry : Data
registry = with_acme (("tool", tool "acme" versions) ∷ []) []

abbrev wish : ResolveInput
wish = record { id = " tool"; core = "1.0.0"; os = "linux"; arch = "amd64"; version = "" }

tool_there :
    lookup (canonical_id registry.extensions (trim_space wish.id)) registry.extensions
    ≡ some (tool "acme" versions)
unfolding canonical_id lookup trim_space
tool_there = refl

acme_there : lookup "acme" registry.publishers ≡ some acme
unfolding lookup
acme_there = refl

resolve_cases_example :
    (NoneFits (wanted wish) "plugin" versions
      × (resolve codec wish registry ≡ err no_compatible_version))
    ⊎ ((v : ExtensionVersion) × IsBest (wanted wish) "plugin" v versions
        × (resolve codec wish registry
            ≡ resolved codec
                (wanted wish)
                (tool "acme" versions)
                acme
                v
                (or_zero (select_artifact v "plugin" (wanted wish).os (wanted wish).arch))))
resolve_cases_example =
    resolve_cases codec wish registry (tool "acme" versions) acme tool_there acme_there

there : version_at "tool" "1.2.0" registry ≡ some (some (version_named "1.2.0"))
unfolding version_at lookup
there = refl

abbrev later : List Event
later =
    request world (create init)
    ∷ request world (upload "pub_local_7" "bin" body)
    ∷ request world (finalize "pub_local_7")
    ∷ relaunched
    ∷ []

run-IsPublished_example :
    IsPublished "tool" "1.2.0"
      (some (version_named "1.2.0"))
      (run codec later (store_of registry []))
run-IsPublished_example =
    run-IsPublished codec "tool" "1.2.0" (some (version_named "1.2.0")) later (store_of registry [])
      (record { in_memory = there; on_disk = there })

abbrev foreign_tool : Extension
foreign_tool = tool "other" []

abbrev uploaded_store : Store
uploaded_store =
    store_of
      (with_acme (("tool", foreign_tool) ∷ []) (("pub_local_7", session_with "uploaded") ∷ []))
      (("pub_local_7", ("bin", body) ∷ []) ∷ [])

stored : stored_file "pub_local_7" "bin" uploaded_store ≡ some body
unfolding stored_file dir_of lookup
stored = refl

abbrev published_tool : Bytes → Extension
published_tool b =
    add_version
      (some (
        new_version world (session_with "uploaded")
          (new_artifact codec (session_with "uploaded") "bin" tool_file b uploaded_store.db)))
      (session_with "uploaded") foreign_tool

abbrev failing : World
failing = record world { write = cut_short (1 ∷ []) }

abbrev cut_store : Store
cut_store = (upload_publish_file codec failing "pub_local_7" "bin" body uploaded_store).1

abbrev event_of : String → AuditEvent
event_of action = record {
  time = "t1";
  action = action;
  actor_id = "acme";
  tenant_id = "";
  status = "ok";
  request_id = "r";
}

abbrev recorded : List (World × AuditEvent)
recorded = (world, event_of "publish_init") ∷ (failing, event_of "publish_upload") ∷ []

list_audit-record_all_example :
    (list_audit (pos 1) (record_all recorded empty_store)
      ≡ last (listed_events (pos 1)) (event_of "publish_init" ∷ event_of "publish_upload" ∷ []))
    × (length (record_all recorded empty_store).db.audit_log ≤ max_events)
list_audit-record_all_example = list_audit-record_all recorded (pos 1) empty_store (omega arith)
