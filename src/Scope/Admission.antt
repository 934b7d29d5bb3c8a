-- ===== src/Scope/Admission.antt =====
-- `provision_scope`; the child holds the revalidation that it shares with `revalidate_scope`. The
-- clock and the two fresh identifiers of `secrets` are arguments.
mod Revalidate
unfoldable pub use Revalidate.*
use sentinelx_cloud_core.Base.{ℕ, ◌+◌, ◌*◌, String, Bool, true, false, not, ◌&&◌, ◌||◌, ◌==◌}
use sentinelx_cloud_core.Base.{Option, none, some, List, [], leb, if◌then◌else◌}
use sentinelx_cloud_core.Base.{nat_eq, string_eq, option_eq, list_eq, contains}
use sentinelx_cloud_core.Base.Dict.{lookup, insert}
use sentinelx_cloud_core.Base.Result.{ok}
use sentinelx_cloud_core.Base.Text.{is_blank, strip}
use sentinelx_cloud_core.Errors.{
  value_error, not_current, scope_conflict, corrupt, binding_mismatch, operation_not_allowed,
}
use sentinelx_cloud_core.Host.{Host, FilePath, scalar, text}
use sentinelx_cloud_core.Policy.{MutationExecutionPolicy}
use sentinelx_cloud_core.Placement.{
  RepositoryIdentity, SemanticIdentity, PlacementGenerationState, PlacementEvidence, evolve,
  placement_policy_digest, resolve_placement, revalidate_placement, unique_mutation_lease_key,
  is_relative_to, canonical_repository, canonical_semantic, lineage_value,
}
use sentinelx_cloud_core.Scope.Record.{
  MutationScopeRecord, ScopeEntry, not_mapping, misfit, fields, is_current, verify_digest,
  immutable_digest_payload,
}
use sentinelx_cloud_core.Scope.Authority.{
  Authority, IndexValue, scope_ref, null_value, other_value, WorkspaceEntry, null_entry, no_mapping,
  bound, attempt_key, get_record, put_record, assert_index_binding, assert_no_competing_nonterminal,
  lineage_differs, normalize_operation_classes,
}
use sentinelx_cloud_core.Scope.Transaction.{
  M, ◌>>=◌, ◌>>◌, pure, raise, lift, throw_if, when, gets, modify, load_state, read_back, put,
  write_state, on_not_current,
}
use sentinelx_cloud_core.Scope.Runtime.{open_scope}

abbrev pub path_conflict : FilePath → FilePath → Bool
path_conflict a b = a == b || is_relative_to a b || is_relative_to b a

abbrev pub mismatch : MutationScopeRecord → String → PlacementEvidence → Bool
mismatch r lease_key p =
    not (r.unique_lease_key == lease_key)
    || not (r.exact_workspace_digest == p.exact_workspace_digest)
    || not (r.repository_identity_digest == p.repository_identity_digest)
    || not (r.semantic_identity_digest == p.semantic_identity_digest)
    || not (r.placement_generation == p.generation)
    || not (r.policy_digest == p.policy_digest)

-- `semantic.slice_id.strip() if semantic.slice_id else None`
abbrev pub stripped_slice : Option String → Option String
stripped_slice none = none
stripped_slice (some s) = if is_blank s then none else some (strip s)

abbrev pub is_some : {A : Type 0} → Option A → Bool
is_some none = false
is_some (some x) = true

-- An entry of the reverse index without its lease index is refused, whatever it holds.
-- `index.get(key) is not None`
abbrev is_given : Option IndexValue → Bool
is_given none = false
is_given (some null_value) = false
is_given (some other_value) = true
is_given (some (scope_ref id)) = true

unfoldable pub reject_workspace : Option WorkspaceEntry → M (Unit {0})
reject_workspace none = pure tt
reject_workspace (some null_entry) = pure tt
reject_workspace (some no_mapping) = raise corrupt
reject_workspace (some (bound lease scope)) = raise scope_conflict

module _ (h : Host) where
  -- The retry of an Attempt that already has a scope.
  unfoldable pub retry_attempt :
      String
      → MutationExecutionPolicy
      → RepositoryIdentity
      → SemanticIdentity
      → List String
      → List FilePath
      → ℕ
      → PlacementEvidence
      → String
      → String
      → Bool
      → M MutationScopeRecord
  retry_attempt found policy repository semantic operations roots now placement key lease moved = do
    s ← gets (λ s. s)
    existing ← lift (get_record h s found)
    throw_if (not (existing.attempt_key == key)) scope_conflict
    when (mismatch existing lease placement && moved) write_state
    throw_if (mismatch existing lease placement) binding_mismatch
    (validated, changed) ←
        on_not_current (revalidate_locked h existing policy repository semantic roots now)
          (write_if_moved h existing moved)
    throw_if (not (validated.allowed_operation_classes == operations)) scope_conflict
    when (changed || moved) write_state
    pure validated

  abbrev pub draft_scope :
      MutationExecutionPolicy
      → SemanticIdentity
      → List String
      → ℕ
      → PlacementEvidence
      → String
      → String
      → String
      → String
      → MutationScopeRecord
  draft_scope policy semantic operations now p key lease scope_id workspace_id = record {
    workspace_id = workspace_id;
    scope_id = scope_id;
    generation = 1;
    unique_lease_key = lease;
    attempt_key = key;
    state = "provisioned";
    project_id = strip semantic.project_id;
    task_id = strip semantic.task_id;
    run_id = strip semantic.run_id;
    attempt_id = strip semantic.attempt_id;
    slice_id = stripped_slice semantic.slice_id;
    semantic_identity_digest = p.semantic_identity_digest;
    repository_identity_digest = p.repository_identity_digest;
    placement_ref = p.placement_ref;
    placement_generation = p.generation;
    policy_digest = p.policy_digest;
    exact_workspace = p.exact_future_workspace;
    exact_workspace_digest = p.exact_workspace_digest;
    protected_inventory_digest = p.protected_inventory_digest;
    allowed_operation_classes = operations;
    issued_at = now;
    expires_at = now + policy.scope_ttl_seconds * 1_000_000;
    scope_digest = "";
    sandbox_identity = none;
    active_job_ids = [];
    active_process_ids = [];
    sandbox_write_authority_present = false;
    runtime_read_authority_roots = [];
    session_object_read_binding = none;
    terminalized_at = none;
  }

  abbrev pub seal : MutationScopeRecord → MutationScopeRecord
  seal draft = record draft { scope_digest = h.digest (immutable_digest_payload h draft) }

  -- The record and its three indexes, before the one write that publishes them.
  unfoldable pub enter_scope : MutationScopeRecord → Authority → Authority
  enter_scope r s = record (put_record s r) {
    leases = insert r.unique_lease_key (scope_ref r.scope_id) s.leases;
    attempts = insert r.attempt_key (scope_ref r.scope_id) s.attempts;
    workspaces =
        insert r.exact_workspace_digest (bound (some r.unique_lease_key) (some r.scope_id))
          s.workspaces;
  }

  -- The file is written, and the new record is read back from it.
  unfoldable pub confirm_scope : MutationScopeRecord → M MutationScopeRecord
  confirm_scope r = do
    write_state
    persisted ← read_back
    confirmed ← lift (get_record h persisted r.scope_id)
    lift (assert_index_binding persisted confirmed r.unique_lease_key)
    pure confirmed

  -- The last part of the admission: the indexes are checked before the file is written.
  unfoldable pub publish_scope : MutationScopeRecord → M MutationScopeRecord
  publish_scope r = do
    modify (enter_scope r)
    entered ← gets (λ s. s)
    lift (assert_index_binding entered r r.unique_lease_key)
    lift (assert_no_competing_nonterminal h entered r)
    confirm_scope r

  -- The admission of an Attempt that has no scope yet.
  unfoldable pub mint_scope : MutationScopeRecord → Bool → M MutationScopeRecord
  mint_scope r moved = do
    s ← gets (λ s. s)
    let leased = is_given (lookup r.unique_lease_key s.leases)
    when (leased && moved) write_state
    throw_if leased scope_conflict
    reject_workspace (lookup r.exact_workspace_digest s.workspaces)
    publish_scope r

  unfoldable pub admit :
      Option IndexValue
      → MutationExecutionPolicy
      → RepositoryIdentity
      → SemanticIdentity
      → List String
      → List FilePath
      → ℕ
      → PlacementEvidence
      → String
      → String
      → Bool
      → MutationScopeRecord
      → M MutationScopeRecord
  admit none policy repository semantic operations roots now p key lease moved fresh =
      mint_scope fresh moved
  admit (some null_value) policy repository semantic operations roots now p key lease moved fresh =
      mint_scope fresh moved
  admit (some other_value) policy repository semantic operations roots now p key lease moved fresh =
      raise corrupt
  admit (some (scope_ref found)) policy repository semantic operations roots now p key lease moved
        fresh =
      retry_attempt found policy repository semantic operations roots now p key lease moved

  -- `root` is the resolved directory of the store; `scope_id` and `workspace_id` are fresh.
  unfoldable pub provision_scope :
      FilePath
      → MutationExecutionPolicy
      → RepositoryIdentity
      → SemanticIdentity
      → List String
      → List FilePath
      → ℕ
      → String
      → String
      → M MutationScopeRecord
  provision_scope root policy repository semantic classes roots now scope_id workspace_id = do
    operations ← lift (normalize_operation_classes classes)
    load_state
    (generation, moved) ← placement_generation_state h policy
    p ← lift (resolve_placement h policy repository semantic (some generation) roots)
    key ← lift (attempt_key h p.repository_identity_digest semantic)
    lease ← lift (
        unique_mutation_lease_key h p.repository_identity_digest semantic p.generation
          p.exact_workspace_digest)
    let overlaps = path_conflict (h.resolve root) (h.resolve p.exact_future_workspace)
    when (overlaps && moved) write_state
    throw_if overlaps scope_conflict
    s ← gets (λ s. s)
    admit (lookup key s.attempts) policy repository semantic operations roots now p key lease moved
        (seal (draft_scope policy semantic operations now p key lease scope_id workspace_id))
