-- ===== src/Codex/Site.antt =====
-- What the direct Codex modules take from outside: Git (`run_user_scoped_git` starts it), the files
-- of the provider's state directory, `json.dumps`, `hashlib.sha256` and the decoding of bytes.
-- `R` is the type of everything that they can change: the checkout, the indexes, the remote.
use sentinelx_cloud_core.Base.{ℕ, String, Bool, Option, List, string_eq}
use sentinelx_cloud_core.Base.{nat_eq}
use sentinelx_cloud_core.Host.{Host}
pub use sentinelx_cloud_core.Json.{
  Json, null, text, number, flag, texts, object, Fields, end, field, json_beq, fields_beq,
  json_beq_refl,
}

-- The exceptions: DirectCodexTransportError and its subclasses by their code, a ValueError and an
-- OSError. Messages are left out.
pub data Failure : Type 0 where
  refused : String → Failure
  value_error : Failure
  os_error : Failure

abbrev pub Bytes : Type 0
Bytes = List ℕ

-- The exit status and the two streams of a Git process.
pub record Answer : Type 0 where
  pub code : ℕ
  pub stdout : Bytes
  pub stderr : Bytes

-- `.git/info/attributes`
pub data AttributesFile : Type 0 where
  absent : AttributesFile
  unreadable : AttributesFile
  holds : String → AttributesFile

abbrev pub Environ : Type 0
Environ = List (String × String)

pub record CanonicalizationSnapshot : Type 0 where
  pub version : ℕ
  pub scalars : List (String × String)
  pub info_attributes_empty : Bool
  pub expected_attribute_digest : String
  pub versioned_gitattributes_digest : String
  pub expected_remote_sha : String
  pub inspection_index_digest : String
  pub digest : String

pub record Site (R : Type 0) : Type 0 where
  -- The reply to an argument vector; none when the user's Git context is not available.
  pub git : List String → Environ → R → Option Answer × R
  -- Whether the state directory takes a write.
  pub writable : R → Bool
  -- Removal of a file where it exists; none is an OSError.
  pub unlink : String → R → Option R
  pub info_attributes : R → AttributesFile
  -- The persisted snapshot; none when it is missing or malformed.
  pub snapshot_file : R → Option CanonicalizationSnapshot
  -- `json.dumps(value, sort_keys=True, separators=(",", ":"))`
  pub dumps : Json → String
  pub sha256 : Bytes → String
  pub encode : String → Bytes
  -- `data.decode("utf-8", errors="replace")`
  pub decode : Bytes → String
  pub host : Host
