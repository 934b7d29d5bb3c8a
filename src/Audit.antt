-- ===== src/Audit.antt =====
-- src/sentinelx_core/mutation_audit.py: what the write-ahead journal records of a mutation, as the
-- dictionaries that it hashes and writes. Journal holds the operations,
-- Reading the events read back, Evidence the retained scripts.
pub mod Journal
pub mod Reading
pub mod Appended
pub mod Committed
pub mod Evidence
pub mod Retained
pub mod Tests
use sentinelx_cloud_core.Base.{ℕ, String, Bool, Option, none, some, List, [], ◌∷◌}
use sentinelx_cloud_core.Json.{Json, null, text, number, flag, texts, object, Fields, end, field}

abbrev pub opt_text : Option String → Json
opt_text none = null
opt_text (some t) = text t

abbrev pub opt_number : Option ℕ → Json
opt_number none = null
opt_number (some n) = number n

-- The lineage is kept as its own audit dictionary.
pub record MutationAuditBinding : Type 0 where
  pub request_id : String
  pub op : String
  pub opaque_ref : Option String
  pub lineage : Json
  pub scope_id : String
  pub scope_generation : ℕ
  pub workspace_id : String
  pub unique_lease_key : String
  pub job_id : Option String

pub record ForensicScriptEvidence : Type 0 where
  pub artifact_ref : String
  pub sha256 : String
  pub size_bytes : ℕ
  pub created_at : String
  pub retained_until : String
  pub artifact_path : List String

pub record MutationAuthorityEvidence : Type 0 where
  pub scope_digest : String
  pub exact_workspace_digest : String
  pub protected_inventory_digest : String
  pub policy_digest : String
  pub repository_identity_digest : String
  pub semantic_identity_digest : String

pub record RequestedMutationIdentity : Type 0 where
  pub host_platform : String
  pub host_user_sid : String
  pub sandbox_kind : String
  pub sandbox_profile : String
  pub sandbox_identity : String

pub record MutationProcessIntent : Type 0 where
  pub interpreter : String
  pub argv : List String
  pub executable_final_path : String
  pub cwd_final_path : String

pub record MutationOsIdentityEvidence : Type 0 where
  pub process_user_sid : String
  pub appcontainer_sid : String
  pub is_appcontainer : Bool

pub record MutationContainmentEvidence : Type 0 where
  pub job_binding : String
  pub contained : Bool
  pub breakaway_allowed : Bool
  pub active_process_count : ℕ

pub record MutationSpawnEvidence : Type 0 where
  pub pid : ℕ
  pub ppid : ℕ
  pub executable_final_path : String
  pub cwd_final_path : String
  pub os_identity : MutationOsIdentityEvidence
  pub containment : MutationContainmentEvidence

pub record MutationFinishClosureEvidence : Type 0 where
  pub scope_state : String
  pub scope_digest : String
  pub protected_inventory_digest : String
  pub sandbox_identity : Option String
  pub job_binding : Option String
  pub root_pid : Option ℕ
  pub job_handle_closed : Bool
  pub job_active_process_count : ℕ
  pub active_job_ids : List String
  pub active_process_ids : List String
  pub sandbox_write_authority_present : Bool
  pub process_tree_quiescent : Bool
  pub terminalized_at : String

-- The verification intent is kept as its audit dictionary.
pub record MutationAuditStart : Type 0 where
  pub operation_id : String
  pub event_ref : String
  pub binding : MutationAuditBinding
  pub binding_digest : String
  pub evidence : ForensicScriptEvidence
  pub authority : MutationAuthorityEvidence
  pub process_intent : MutationProcessIntent
  pub requested_identity : RequestedMutationIdentity
  pub verification_intent : Option Json
  pub start_evidence_digest : String
  pub started_at : String

pub record MutationAuditSpawn : Type 0 where
  pub operation_id : String
  pub event_ref : String
  pub pid : ℕ
  pub job_binding : String
  pub recorded_at : String

unfoldable pub binding_dict : MutationAuditBinding → Json
binding_dict b = object (
    field "request_id" (text b.request_id) (
      field "op" (text b.op) (
        field "opaque_ref" (opt_text b.opaque_ref) (
          field "lineage" b.lineage (
            field "scope_id" (text b.scope_id) (
              field "scope_generation" (number b.scope_generation) (
                field "workspace_id" (text b.workspace_id) (
                  field "unique_lease_key" (text b.unique_lease_key)
                    (field "job_id" (opt_text b.job_id) end)))))))))

unfoldable pub evidence_dict : ForensicScriptEvidence → Json
evidence_dict e = object (
    field "artifact_ref" (text e.artifact_ref) (
      field "sha256" (text e.sha256) (
        field "size_bytes" (number e.size_bytes) (
          field "created_at" (text e.created_at)
            (field "retained_until" (text e.retained_until) end)))))

unfoldable pub authority_dict : MutationAuthorityEvidence → Json
authority_dict a = object (
    field "scope_digest" (text a.scope_digest) (
      field "exact_workspace_digest" (text a.exact_workspace_digest) (
        field "protected_inventory_digest" (text a.protected_inventory_digest) (
          field "policy_digest" (text a.policy_digest) (
            field "repository_identity_digest" (text a.repository_identity_digest)
              (field "semantic_identity_digest" (text a.semantic_identity_digest) end))))))

unfoldable pub requested_dict : RequestedMutationIdentity → Json
requested_dict r = object (
    field "host_platform" (text r.host_platform) (
      field "host_user_sid" (text r.host_user_sid) (
        field "sandbox_kind" (text r.sandbox_kind) (
          field "sandbox_profile" (text r.sandbox_profile)
            (field "sandbox_identity" (text r.sandbox_identity) end)))))

unfoldable pub intent_dict : MutationProcessIntent → Json
intent_dict i = object (
    field "interpreter" (text i.interpreter) (
      field "argv" (texts i.argv) (
        field "executable_final_path" (text i.executable_final_path)
          (field "cwd_final_path" (text i.cwd_final_path) end))))

unfoldable pub os_identity_dict : MutationOsIdentityEvidence → Json
os_identity_dict o = object (
    field "process_user_sid" (text o.process_user_sid) (
      field "appcontainer_sid" (text o.appcontainer_sid)
        (field "is_appcontainer" (flag o.is_appcontainer) end)))

unfoldable pub containment_dict : MutationContainmentEvidence → Json
containment_dict c = object (
    field "job_binding" (text c.job_binding) (
      field "contained" (flag c.contained) (
        field "breakaway_allowed" (flag c.breakaway_allowed)
          (field "active_process_count" (number c.active_process_count) end))))

-- `MutationSpawnEvidence.audit_dict`
unfoldable pub spawn_fields : MutationSpawnEvidence → Fields
unfolding os_identity_dict containment_dict
spawn_fields e = field "pid" (number e.pid) (
    field "ppid" (number e.ppid) (
      field "executable_final_path" (text e.executable_final_path) (
        field "cwd_final_path" (text e.cwd_final_path) (
          field "os_identity" (os_identity_dict e.os_identity)
            (field "containment" (containment_dict e.containment) end)))))

unfoldable pub closure_dict : MutationFinishClosureEvidence → Json
closure_dict c = object (
    field "scope_state" (text c.scope_state) (
      field "scope_digest" (text c.scope_digest) (
        field "protected_inventory_digest" (text c.protected_inventory_digest) (
          field "sandbox_identity" (opt_text c.sandbox_identity) (
            field "job_binding" (opt_text c.job_binding) (
              field "root_pid" (opt_number c.root_pid) (
                field "job_handle_closed" (flag c.job_handle_closed) (
                  field "job_active_process_count" (number c.job_active_process_count) (
                    field "active_job_ids" (texts c.active_job_ids) (
                      field "active_process_ids" (texts c.active_process_ids) (
                        field "sandbox_write_authority_present"
                          (flag c.sandbox_write_authority_present)
                          (field "process_tree_quiescent" (flag c.process_tree_quiescent)
                            (field "terminalized_at" (text c.terminalized_at) end)))))))))))))
