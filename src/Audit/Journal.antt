-- ===== src/Audit/Journal.antt =====
-- MutationAuditJournal and `read_verified` of ForensicEvidenceStore, in
-- src/sentinelx_core/mutation_audit.py. The random tokens are arguments.
use sentinelx_cloud_core.Base.{
  ℕ, String, Bool, not, ◌||◌, ◌==◌, string_eq, nat_eq, list_eq, Option, none, some, List, [], ◌∷◌,
  contains,
}
use sentinelx_cloud_core.Base.Lists.{length, is_empty}
use sentinelx_cloud_core.Base.Text.{is_blank, strip, take_chars}
use sentinelx_cloud_core.Base.Result.{Result, ok, err}
use Prim.Native.String.{◌++◌ as ◌<>◌}
use sentinelx_cloud_core.Base.State.{M, ◌>>=◌, ◌>>◌, pure, throw_if, on_error}
use sentinelx_cloud_core.Host.{FilePath}
use sentinelx_cloud_core.Json.{number, Json, text, object, Fields, end, field}
use sentinelx_cloud_core.Placement.{is_relative_to}
use sentinelx_cloud_core.Audit.{
  MutationAuditBinding, ForensicScriptEvidence, MutationAuthorityEvidence,
  RequestedMutationIdentity, MutationProcessIntent, MutationSpawnEvidence,
  MutationFinishClosureEvidence, MutationAuditStart, MutationAuditSpawn, binding_dict,
  evidence_dict, authority_dict, requested_dict, intent_dict, spawn_fields, closure_dict, opt_text,
  opt_number,
}

abbrev pub Bytes : Type 0
Bytes = List ℕ

-- The exceptions. Messages are left out.
pub data Failure : Type 0 where
  durability : Failure
  evidence_error : Failure
  identity_mismatch : Failure
  value_error : Failure
  -- raised by a callback
  callback_error : Failure
  attribute_error : Failure

pub data EventName : Type 0 where
  operation_started : EventName
  process_spawned : EventName
  operation_finished : EventName

-- A line of the journal: the fields that every event has, and the others.
pub record Event : Type 0 where
  pub event : EventName
  pub event_ref : String
  pub operation_id : String
  pub timestamp : String
  pub binding_digest : String
  pub others : Fields

-- What becomes of an append: it is durable, or it raises when so many characters are written.
pub data Disk : Type 0 where
  appends : Disk
  fails_after : ℕ → Disk

-- The text of journal.jsonl, empty when there is no file, and the other files.
pub record Broker : Type 0 where
  pub journal : String
  pub artifacts : FilePath → Option Bytes
  pub disk : Disk

pub record AuditHost : Type 0 where
  pub dumps : Json → String
  -- `json.loads`; none is a JSONDecodeError
  pub loads : String → Option Json
  pub sha256 : Bytes → String
  pub encode : String → Bytes
  pub casefold : String → String
  -- the root of the evidence store
  pub evidence_root : FilePath

-- JOURNAL_VERSION
abbrev journal_version : ℕ
journal_version = 1

abbrev event_text : EventName → String
event_text operation_started = "OPERATION_STARTED"
event_text process_spawned = "PROCESS_SPAWNED"
event_text operation_finished = "OPERATION_FINISHED"

-- The dictionary of an event, which `json.dumps` sorts by its keys.
unfoldable pub event_dict : Event → Json
event_dict e = object (
    field "version" (number journal_version) (
      field "event" (text (event_text e.event)) (
        field "event_ref" (text e.event_ref) (
          field "operation_id" (text e.operation_id) (
            field "timestamp" (text e.timestamp)
              (field "binding_digest" (text e.binding_digest) e.others))))))

abbrev pub appended : Disk → String → M Broker Failure (Unit {0})
appended appends line w = (ok tt, record w { journal = w.journal <> line })
appended (fails_after n) line w =
    (err durability, record w { journal = w.journal <> take_chars n line })

abbrev pub present : Option Bytes → Result Failure Bytes
present none = err evidence_error
present (some bytes) = ok bytes

unfoldable pub read_bytes : FilePath → M Broker Failure Bytes
read_bytes path w = (present (w.artifacts path), w)

module _ (h : AuditHost) where
  -- The line of an event.
  unfoldable pub line_of : Event → String
  unfolding event_dict
  line_of e = h.dumps (event_dict e) <> "\n"

  -- `_durable_append`
  unfoldable pub durable_append : Event → M Broker Failure (Unit {0})
  unfolding line_of
  durable_append e w = appended w.disk (line_of e) w

  -- `_canonical_digest`
  unfoldable pub canonical_digest : Json → String
  canonical_digest value = h.sha256 (h.encode (h.dumps value))

  -- `MutationAuditBinding.digest`
  unfoldable pub digest_of : MutationAuditBinding → String
  unfolding canonical_digest
  digest_of b = canonical_digest (binding_dict b)

  -- `ForensicEvidenceStore.read_verified`
  unfoldable pub read_verified : ForensicScriptEvidence → M Broker Failure Bytes
  read_verified e = do
    throw_if (not (is_relative_to e.artifact_path h.evidence_root)) evidence_error
    bytes ← read_bytes e.artifact_path
    throw_if (not (length bytes == e.size_bytes) || not (h.sha256 bytes == e.sha256)) evidence_error
    pure bytes

  abbrev verification_field : Option Json → Fields
  verification_field none = end
  verification_field (some v) = field "verification_intent" v end

  -- The dictionary `start_evidence`.
  unfoldable pub start_evidence :
      MutationAuthorityEvidence
      → MutationProcessIntent
      → RequestedMutationIdentity
      → Option Json
      → Fields
  start_evidence authority process_intent requested_identity verification_intent =
      field "authority" (authority_dict authority) (
        field "process_intent" (intent_dict process_intent) (
          field "requested_identity" (requested_dict requested_identity)
            (verification_field verification_intent)))

  unfoldable pub begin :
      MutationAuditBinding
      → ForensicScriptEvidence
      → MutationAuthorityEvidence
      → MutationProcessIntent
      → RequestedMutationIdentity
      → Option Json
      → String
      → String
      → M Broker Failure MutationAuditStart
  begin binding evidence authority process_intent requested_identity verification_intent token now =
      do
        read_verified evidence
        let operation_id = "mao_" <> token
        let event_ref = "mutation-audit:" <> (operation_id <> ":start")
        let fields = start_evidence authority process_intent requested_identity verification_intent
        let sealed = canonical_digest (object fields)
        durable_append (record {
          event = operation_started;
          event_ref = event_ref;
          operation_id = operation_id;
          timestamp = now;
          binding_digest = digest_of binding;
          others = field "binding" (binding_dict binding) (
              field "script_evidence" (evidence_dict evidence)
                (field "start_evidence_digest" (text sealed) fields));
        })
        pure (record {
          operation_id = operation_id;
          event_ref = event_ref;
          binding = binding;
          binding_digest = digest_of binding;
          evidence = evidence;
          authority = authority;
          process_intent = process_intent;
          requested_identity = requested_identity;
          verification_intent = verification_intent;
          start_evidence_digest = sealed;
          started_at = now;
        })

  unfoldable pub assert_start_identity : MutationAuditStart → M Broker Failure (Unit {0})
  assert_start_identity s = do
    throw_if (not (digest_of s.binding == s.binding_digest)) identity_mismatch
    bytes ← read_verified s.evidence
    throw_if (not (s.evidence.sha256 == h.sha256 bytes)) identity_mismatch
    let current =
        start_evidence s.authority s.process_intent s.requested_identity s.verification_intent
    throw_if (not (canonical_digest (object current) == s.start_evidence_digest)) identity_mismatch

  unfoldable pub spawn_event : MutationAuditStart → MutationSpawnEvidence → String → Event
  spawn_event s e now = record {
    event = process_spawned;
    event_ref = "mutation-audit:" <> (s.operation_id <> ":spawn");
    operation_id = s.operation_id;
    timestamp = now;
    binding_digest = s.binding_digest;
    others = spawn_fields e;
  }

  unfoldable pub record_spawn :
      MutationAuditStart → MutationSpawnEvidence → String → M Broker Failure MutationAuditSpawn
  record_spawn s e now = do
    assert_start_identity s
    throw_if (e.pid == 0 || e.ppid == 0) value_error
    throw_if (is_blank (strip e.containment.job_binding)) value_error
    throw_if (not e.containment.contained || e.containment.breakaway_allowed) identity_mismatch
    throw_if
        (not (
            h.casefold e.executable_final_path == h.casefold s.process_intent.executable_final_path)
          || not (h.casefold e.cwd_final_path == h.casefold s.process_intent.cwd_final_path))
        identity_mismatch
    throw_if (not (e.os_identity.process_user_sid == s.requested_identity.host_user_sid))
        identity_mismatch
    throw_if (not (e.os_identity.appcontainer_sid == s.requested_identity.sandbox_identity))
        identity_mismatch
    throw_if (not e.os_identity.is_appcontainer) identity_mismatch
    durable_append (spawn_event s e now)
    pure (record {
      operation_id = s.operation_id;
      event_ref = "mutation-audit:" <> (s.operation_id <> ":spawn");
      pid = e.pid;
      job_binding = e.containment.job_binding;
      recorded_at = now;
    })

  unfoldable pub commit_spawn_before_resume :
      MutationAuditStart
      → MutationSpawnEvidence
      → String
      → M Broker Failure (Unit {0})
      → M Broker Failure (Unit {0})
      → M Broker Failure MutationAuditSpawn
  commit_spawn_before_resume s e now terminate_suspended resume_suspended = do
    spawn ← on_error (record_spawn s e now) terminate_suspended
    resume_suspended
    pure spawn

  unfoldable pub is_open : MutationAuditStart → MutationFinishClosureEvidence → Bool
  is_open s c =
      not (c.scope_state == "terminal")
      || (not (c.scope_digest == s.authority.scope_digest)
          || (not (c.protected_inventory_digest == s.authority.protected_inventory_digest)
              || (not c.job_handle_closed
                  || (not (c.job_active_process_count == 0)
                      || (not (is_empty c.active_job_ids)
                          || (not (is_empty c.active_process_ids)
                              || (c.sandbox_write_authority_present
                                  || (not c.process_tree_quiescent
                                      || is_blank c.terminalized_at))))))))

  unfoldable pub finish_ref : MutationAuditStart → String → String
  finish_ref s token = "mutation-audit:" <> (s.operation_id <> (":finish:" <> token))

  unfoldable pub finish_event :
      MutationAuditStart
      → String
      → MutationFinishClosureEvidence
      → Option ℕ
      → Option String
      → String
      → String
      → Event
  finish_event s status closure returncode error_code token now = record {
    event = operation_finished;
    event_ref = finish_ref s token;
    operation_id = s.operation_id;
    timestamp = now;
    binding_digest = s.binding_digest;
    others = field "status" (text status) (
        field "returncode" (opt_number returncode)
          (field "error_code" (opt_text error_code) (field "closure" (closure_dict closure) end)));
  }

  unfoldable pub finish :
      MutationAuditStart
      → String
      → MutationFinishClosureEvidence
      → Option ℕ
      → Option String
      → String
      → String
      → M Broker Failure String
  finish s status closure returncode error_code token now = do
    assert_start_identity s
    throw_if (not (contains ("succeeded" ∷ "failed" ∷ "timeout" ∷ "cancelled" ∷ []) status))
        value_error
    throw_if (is_open s closure) identity_mismatch
    durable_append (finish_event s status closure returncode error_code token now)
    pure (finish_ref s token)
