-- ===== src/Registry.antt =====
-- apps/registry/internal/store/store.go: the data of the registry of extensions. A map lists its entries
-- in the order in which Go visits them; the pointers to extensions, sessions and files and the maps of
-- versions are not nil.
-- What no operation below reads or changes of a version is left out: its capabilities, permissions,
-- manifest, integrity, install and metadata.
pub mod Semver
pub mod Resolve
pub mod Publish
pub mod Audit
pub mod Tests
use runfabric.Prelude.{
  ℕ, String, ◌=?=◌, Bool, true, false, Option, none, some, List, [], ◌∷◌, if◌then◌else◌, lookup,
}
use runfabric.Prelude.Int.{ℤ}

pub record Publisher : Type 0 where
  pub publisher_id : String
  pub name : String
  pub verified : Bool
  pub trust : String

pub record Signature : Type 0 where
  pub algorithm : String
  pub value : String
  pub public_key_id : String

pub record Artifact : Type 0 where
  pub artifact_type : String
  pub format : String
  pub url : String
  pub size_bytes : ℤ
  pub checksum_algorithm : String
  pub checksum_value : String
  pub signature : Option Signature
  pub os : String
  pub arch : String
  pub deterministic_binary : Bool

-- `compatibility_core` is the entry "core" of the compatibility, if it is there and a text.
pub record ExtensionVersion : Type 0 where
  pub version : String
  pub release_status : String
  pub description : String
  pub core_constraint : String
  pub compatibility_core : Option String
  pub artifacts : List Artifact
  pub published_at : String

-- A nil version is `none`.
pub record Extension : Type 0 where
  pub extension_id : String
  pub aliases : List String
  pub name : String
  pub extension_type : String
  pub plugin_kind : String
  pub description : String
  pub publisher_id : String
  pub versions : List (String × Option ExtensionVersion)

pub record PublishSessionFile : Type 0 where
  pub key : String
  pub name : String
  pub declared_size_bytes : ℤ
  pub declared_algorithm : String
  pub declared_checksum : String
  pub uploaded : Bool
  pub uploaded_size_bytes : ℕ

pub record PublishSession : Type 0 where
  pub session_id : String
  pub status : String
  pub publisher : String
  pub extension : List (String × String)
  pub files : List (String × PublishSessionFile)
  pub created_at : String
  pub updated_at : String
  pub uploaded_at : String

-- The details of an event are left out.
pub record AuditEvent : Type 0 where
  pub time : String
  pub action : String
  pub actor_id : String
  pub tenant_id : String
  pub status : String
  pub request_id : String

pub record Data : Type 0 where
  pub publishers : List (String × Publisher)
  pub extensions : List (String × Extension)
  pub publish_sessions : List (String × PublishSession)
  pub audit_log : List AuditEvent

-- What the registry computes with SHA-256 and the local development key, and the escaping of texts
-- in a URL.
pub record Codec : Type 0 where
  pub sha256_hex : List ℕ → String
  pub sign_bytes : List ℕ → String
  pub query_escape : String → String
  pub path_escape : String → String

-- The signature of the local development key.
unfoldable pub local_signature : Codec → List ℕ → Signature
local_signature c b = record {
  algorithm = "ed25519";
  value = c.sign_bytes b;
  public_key_id = "local-dev";
}
