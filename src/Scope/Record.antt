-- ===== src/Scope/Record.antt =====
-- `MutationScopeRecord`, `SessionObjectReadBinding` and `MutationRuntimeClosure`. Instants are
-- numbers and the workspace is a path; `iso` and `path_text` give the texts that are hashed.
use sentinelx_cloud_core.Base.{ℕ, String, Bool, true, false, not, ◌&&◌, ◌||◌, ◌==◌}
use sentinelx_cloud_core.Base.{Option, none, some, List, [], ◌∷◌, leb, ltb}
use sentinelx_cloud_core.Base.{nat_eq, string_eq, option_eq, contains}
use sentinelx_cloud_core.Base.Lists.{is_empty}
use sentinelx_cloud_core.Base.Result.{Result, ok, err, ◌>>◌, raise_if}
use sentinelx_cloud_core.Base.Text.{is_blank, strip, char_count}
use sentinelx_cloud_core.Errors.{Error, corrupt}
use sentinelx_cloud_core.Host.{Host, FilePath, text, number, texts, Value, mapping}
use sentinelx_cloud_core.Placement.{opt_text}

abbrev pub non_terminal_states : List String
non_terminal_states = "provisioned" ∷ "active" ∷ []

abbrev pub terminal_states : List String
terminal_states = "terminal" ∷ "revoked" ∷ "expired" ∷ []

pub record SessionObjectReadBinding : Type 0 where
  pub cleanup_required : Bool
  pub session_id : ℕ
  pub window_station_identity : String
  pub desktop_identity : String
  pub window_station_mask : ℕ
  pub desktop_mask : ℕ

-- `__post_init__` raises no `ValueError`.
unfoldable pub binding_accepted : SessionObjectReadBinding → Bool
binding_accepted b =
    b.cleanup_required
    && b.session_id == 0
    && not (is_blank (strip b.window_station_identity))
    && leb (char_count b.window_station_identity) 512
    && not (is_blank (strip b.desktop_identity))
    && leb (char_count b.desktop_identity) 512
    && ltb 0 b.window_station_mask
    && ltb 0 b.desktop_mask

abbrev bool_beq : Bool → Bool → Bool
bool_beq true b = b
bool_beq false b = not b

-- `==` of the dataclass
unfoldable pub same_binding : SessionObjectReadBinding → SessionObjectReadBinding → Bool
same_binding a b =
    bool_beq a.cleanup_required b.cleanup_required
    && a.session_id == b.session_id
    && a.window_station_identity == b.window_station_identity
    && a.desktop_identity == b.desktop_identity
    && a.window_station_mask == b.window_station_mask
    && a.desktop_mask == b.desktop_mask

pub record MutationScopeRecord : Type 0 where
  pub workspace_id : String
  pub scope_id : String
  pub generation : ℕ
  pub unique_lease_key : String
  pub attempt_key : String
  pub state : String
  pub project_id : String
  pub task_id : String
  pub run_id : String
  pub attempt_id : String
  pub slice_id : Option String
  pub semantic_identity_digest : String
  pub repository_identity_digest : String
  pub placement_ref : String
  pub placement_generation : ℕ
  pub policy_digest : String
  pub exact_workspace : FilePath
  pub exact_workspace_digest : String
  pub protected_inventory_digest : String
  pub allowed_operation_classes : List String
  pub issued_at : ℕ
  pub expires_at : ℕ
  pub scope_digest : String
  pub sandbox_identity : Option String
  pub active_job_ids : List String
  pub active_process_ids : List String
  pub sandbox_write_authority_present : Bool
  pub runtime_read_authority_roots : List String
  pub session_object_read_binding : Option SessionObjectReadBinding
  pub terminalized_at : Option ℕ

-- The property `current`
unfoldable pub is_current : MutationScopeRecord → Bool
is_current r = contains non_terminal_states r.state

-- `record.state in NON_TERMINAL_STATES | TERMINAL_STATES`
unfoldable pub is_known_state : String → Bool
is_known_state s = contains non_terminal_states s || contains terminal_states s

abbrev pub binding_absent : Option SessionObjectReadBinding → Bool
binding_absent none = true
binding_absent (some b) = false

-- `has_runtime_authority` of `terminalize_scope`
unfoldable pub has_runtime_authority : MutationScopeRecord → Bool
has_runtime_authority r =
    not (is_empty r.active_job_ids)
    || not (is_empty r.active_process_ids)
    || r.sandbox_write_authority_present
    || not (is_empty r.runtime_read_authority_roots)
    || not (binding_absent r.session_object_read_binding)

pub record MutationRuntimeClosure : Type 0 where
  pub sandbox_identity : Option String
  pub active_job_ids : List String
  pub active_process_ids : List String
  pub sandbox_write_authority_present : Bool
  pub runtime_read_authority_roots : List String
  pub session_object_read_binding : Option SessionObjectReadBinding

-- An entry of the JSON object `scopes`: no object, an object that does not fit the dataclass, or
-- the fields of one.
pub data ScopeEntry : Type 0 where
  not_mapping : ScopeEntry
  misfit : ScopeEntry
  fields : MutationScopeRecord → ScopeEntry

-- `to_json`
abbrev pub to_json : MutationScopeRecord → ScopeEntry
to_json r = fields r

abbrev pub stored_binding_accepted : Option SessionObjectReadBinding → Bool
stored_binding_accepted none = true
stored_binding_accepted (some b) = binding_accepted b

module _ (h : Host) where
  unfoldable pub immutable_digest_payload : MutationScopeRecord → Value
  immutable_digest_payload r = mapping (
      ("workspace_id", text r.workspace_id)
      ∷ ("scope_id", text r.scope_id)
      ∷ ("generation", number r.generation)
      ∷ ("unique_lease_key", text r.unique_lease_key)
      ∷ ("attempt_key", text r.attempt_key)
      ∷ ("project_id", text r.project_id)
      ∷ ("task_id", text r.task_id)
      ∷ ("run_id", text r.run_id)
      ∷ ("attempt_id", text r.attempt_id)
      ∷ ("slice_id", opt_text r.slice_id)
      ∷ ("semantic_identity_digest", text r.semantic_identity_digest)
      ∷ ("repository_identity_digest", text r.repository_identity_digest)
      ∷ ("placement_ref", text r.placement_ref)
      ∷ ("placement_generation", number r.placement_generation)
      ∷ ("policy_digest", text r.policy_digest)
      ∷ ("exact_workspace", text (h.path_text r.exact_workspace))
      ∷ ("exact_workspace_digest", text r.exact_workspace_digest)
      ∷ ("protected_inventory_digest", text r.protected_inventory_digest)
      ∷ ("allowed_operation_classes", texts r.allowed_operation_classes)
      ∷ ("issued_at", text (h.iso r.issued_at))
      ∷ ("expires_at", text (h.iso r.expires_at))
      ∷ [])

  unfoldable pub verify_digest : MutationScopeRecord → Result Error (Unit {0})
  verify_digest r = raise_if (not (h.digest (immutable_digest_payload r) == r.scope_digest)) corrupt

  unfoldable pub from_json : ScopeEntry → Result Error MutationScopeRecord
  from_json not_mapping = err corrupt
  from_json misfit = err corrupt
  from_json (fields r) = do
    raise_if (not (stored_binding_accepted r.session_object_read_binding)) corrupt
    verify_digest r
    raise_if (not (is_known_state r.state)) corrupt
    ok r
