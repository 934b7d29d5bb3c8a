-- ===== src/Audit/Evidence.antt =====
-- `retain` and `materialize_verified` of ForensicEvidenceStore, in
-- src/sentinelx_core/mutation_audit.py. What becomes of a write of a file is an argument.
use sentinelx_cloud_core.Base.{
  ℕ, String, Bool, not, ◌||◌, ◌==◌, ◌+◌, ◌*◌, string_eq, nat_eq, list_eq, Option, none, some, [],
  ◌∷◌, ◌++◌, if◌then◌else◌,
}
use sentinelx_cloud_core.Base.Lists.{length, is_empty}
use sentinelx_cloud_core.Base.Text.{take_chars}
use sentinelx_cloud_core.Base.Result.{ok, err}
use sentinelx_cloud_core.Base.State.{M, ◌>>=◌, ◌>>◌, pure, throw_if}
use Prim.Native.String.{◌++◌ as ◌<>◌}
use sentinelx_cloud_core.Host.{FilePath}
use sentinelx_cloud_core.Audit.{ForensicScriptEvidence}
use sentinelx_cloud_core.Audit.Journal.{
  AuditHost, Broker, Bytes, Failure, evidence_error, read_bytes, read_verified,
}

-- A write raises before the file is there, raises with some bytes in it, or returns.
pub data Write : Type 0 where
  not_written : Write
  in_doubt : Bytes → Write
  done : Bytes → Write

unfoldable pub place : FilePath → Bytes → Broker → Broker
place path bytes w = record w { artifacts = λ p. if p == path then some bytes else w.artifacts p }

unfoldable pub put_file : FilePath → Write → M Broker Failure (Unit {0})
put_file path not_written w = (err evidence_error, w)
put_file path (in_doubt bytes) w = (err evidence_error, place path bytes w)
put_file path (done bytes) w = (ok tt, place path bytes w)

abbrev pub created : Option Bytes → FilePath → Write → M Broker Failure (Unit {0})
created none path write w = put_file path write w
created (some bytes) path write w = (err evidence_error, w)

-- `open("xb")`: a file that exists is not written.
unfoldable pub create_file : FilePath → Write → M Broker Failure (Unit {0})
create_file path write w = created (w.artifacts path) path write w

module _ (h : AuditHost) where
  unfoldable pub artifact_name : Bytes → String → String
  artifact_name bytes token = take_chars 20 (h.sha256 bytes) <> ("-" <> (token <> ".script"))

  unfoldable pub artifact_path : Bytes → String → FilePath
  artifact_path bytes token = h.evidence_root ++ artifact_name bytes token ∷ []

  -- A moment is a number of seconds, which `iso` prints.
  unfoldable pub retain :
      (ℕ → String) → ℕ → Bytes → String → ℕ → Write → M Broker Failure ForensicScriptEvidence
  retain iso retention_days exact_bytes token now write = do
    throw_if (is_empty exact_bytes) evidence_error
    let digest = h.sha256 exact_bytes
    put_file (artifact_path exact_bytes token) write
    persisted ← read_bytes (artifact_path exact_bytes token)
    throw_if (not (h.sha256 persisted == digest) || not (persisted == exact_bytes)) evidence_error
    pure (record {
      artifact_ref = "mutation-evidence:" <> artifact_name exact_bytes token;
      sha256 = digest;
      size_bytes = length exact_bytes;
      created_at = iso now;
      retained_until = iso (now + retention_days * 86400);
      artifact_path = artifact_path exact_bytes token;
    })

  -- The destination is resolved already. `parent_exists` tells whether its folder is there, and
  -- `write` what becomes of writing the given bytes.
  unfoldable pub materialize_verified :
      Bool → (Bytes → Write) → ForensicScriptEvidence → FilePath → M Broker Failure String
  materialize_verified parent_exists write e destination = do
    data_read ← read_verified h e
    throw_if (not parent_exists) evidence_error
    create_file destination (write data_read)
    written ← read_bytes destination
    throw_if (not (h.sha256 written == e.sha256)) evidence_error
    pure e.sha256
