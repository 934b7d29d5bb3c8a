-- ===== src/Scope/Terminalize.antt =====
-- `terminalize_scope`: admission is revoked on disk, then the operating system is cleaned up
-- without the lock, then the scope is marked terminal. The cleanup is an argument; it may change
-- the file, as other calls may while it runs, and may return something that is no closure.
use sentinelx_cloud_core.Base.{ℕ, String, not, ◌&&◌, ◌||◌, ◌==◌}
use sentinelx_cloud_core.Base.{Option, none, some, [], ◌∷◌, if◌then◌else◌}
use sentinelx_cloud_core.Base.{nat_eq, string_eq, option_eq}
use sentinelx_cloud_core.Base.Dict.{Dict}
use sentinelx_cloud_core.Base.Lists.{is_empty}
use sentinelx_cloud_core.Base.Result.{Result, ok, err, raise_if}
use sentinelx_cloud_core.Errors.{
  Error, not_current, binding_mismatch, still_active, residual_authority, terminalization_failed,
}
use sentinelx_cloud_core.Host.{Host, scalar, text}
use sentinelx_cloud_core.Policy.{MutationExecutionPolicy}
use sentinelx_cloud_core.Placement.{
  RepositoryIdentity, SemanticIdentity, canonical_repository, unique_mutation_lease_key,
}
use sentinelx_cloud_core.Scope.Record.{
  MutationScopeRecord, MutationRuntimeClosure, ScopeEntry, not_mapping, from_json, is_current,
  verify_digest, has_runtime_authority, binding_absent,
}
use sentinelx_cloud_core.Scope.Authority.{
  get_record, attempt_key, assert_index_binding, assert_no_competing_nonterminal, lineage_differs,
}
use sentinelx_cloud_core.Scope.Transaction.{
  M, ◌>>=◌, ◌>>◌, pure, raise, lift, throw_if, when, gets, read_back, put, write_state,
}
use sentinelx_cloud_core.Scope.Runtime.{open_scope}
use sentinelx_cloud_core.Scope.Admission.{placement_generation_state}

abbrev pub Cleanup : Type 0
Cleanup = MutationScopeRecord → M (Option MutationRuntimeClosure)

abbrev seq : Result Error (Unit {0}) → Result Error (Unit {0}) → Result Error (Unit {0})
seq (ok _) next = next
seq (err e) next = err e

-- The checks on the closure, before the lock is taken again.
unfoldable pub accept_closure :
    MutationScopeRecord → Option MutationRuntimeClosure → M MutationRuntimeClosure
accept_closure revoked none = raise terminalization_failed
accept_closure revoked (some c) = do
  throw_if (not (c.sandbox_identity == revoked.sandbox_identity)) terminalization_failed
  throw_if (not (is_empty c.active_job_ids) || not (is_empty c.active_process_ids)) still_active
  throw_if c.sandbox_write_authority_present residual_authority
  throw_if (not (is_empty c.runtime_read_authority_roots)) residual_authority
  throw_if (not (binding_absent c.session_object_read_binding)) residual_authority
  pure c

module _ (h : Host) where
  -- `validate_sealed_binding`
  unfoldable pub validate_sealed_binding :
      MutationScopeRecord → ℕ → RepositoryIdentity → SemanticIdentity → M String
  validate_sealed_binding r generation repository semantic = do
    throw_if (not (r.generation == generation)) not_current
    throw_if (r.state == "terminal") not_current
    lift (verify_digest h r)
    canonical ← lift (canonical_repository h repository)
    throw_if (not (r.repository_identity_digest == h.digest (scalar (text canonical))))
        binding_mismatch
    expected_attempt ← lift (attempt_key h r.repository_identity_digest semantic)
    throw_if (not (expected_attempt == r.attempt_key)) binding_mismatch
    expected_lease ← lift (
        unique_mutation_lease_key h r.repository_identity_digest semantic r.placement_generation
          r.exact_workspace_digest)
    throw_if (not (expected_lease == r.unique_lease_key)) binding_mismatch
    throw_if (lineage_differs r semantic) binding_mismatch
    s ← gets (λ s. s)
    lift (assert_index_binding s r expected_lease)
    lift (assert_no_competing_nonterminal h s r)
    pure expected_lease

  -- A scope without runtime authority becomes terminal at once.
  unfoldable pub close_directly : String → MutationScopeRecord → String → ℕ → M MutationScopeRecord
  close_directly scope_id r expected_lease now = do
    put (record r { state = "terminal"; terminalized_at = some now })
    write_state
    persisted ← read_back
    confirmed ← lift (get_record h persisted scope_id)
    throw_if (not (confirmed.state == "terminal")) terminalization_failed
    lift (assert_index_binding persisted confirmed expected_lease)
    pure confirmed

  -- Admission is revoked before the cleanup runs.
  unfoldable pub revoke_admission : String → MutationScopeRecord → M MutationScopeRecord
  revoke_admission scope_id r = do
    put (record r { state = "revoked" })
    write_state
    s ← read_back
    persisted ← lift (get_record h s scope_id)
    throw_if (not (persisted.state == "revoked")) terminalization_failed
    pure persisted

  competes_after : MutationScopeRecord → Result Error MutationScopeRecord → Result Error (Unit {0})
  competes_after confirmed (err e) = err e
  competes_after confirmed (ok other) =
      raise_if
        (is_current other
          && (other.unique_lease_key == confirmed.unique_lease_key
              || other.exact_workspace_digest == confirmed.exact_workspace_digest))
        terminalization_failed

  competing_authority : MutationScopeRecord → String → ScopeEntry → Result Error (Unit {0})
  competing_authority confirmed other_id not_mapping = ok tt
  competing_authority confirmed other_id entry =
      if other_id == confirmed.scope_id then ok tt else competes_after confirmed (from_json h entry)

  -- The loop over `persisted["scopes"]` after the scope is terminal.
  unfoldable pub no_competing_authority :
      MutationScopeRecord → Dict ScopeEntry → Result Error (Unit {0})
  unfolding competing_authority competes_after
  no_competing_authority confirmed [] = ok tt
  no_competing_authority confirmed ((other_id, raw) ∷ rest) =
      seq (competing_authority confirmed other_id raw) (no_competing_authority confirmed rest)

  -- The second transaction, after the cleanup.
  unfoldable pub close_revoked :
      String
      → ℕ
      → RepositoryIdentity
      → SemanticIdentity
      → ℕ
      → MutationScopeRecord
      → MutationRuntimeClosure
      → M MutationScopeRecord
  close_revoked scope_id generation repository semantic now revoked c = do
    r ← open_scope h scope_id
    expected_lease ← validate_sealed_binding r generation repository semantic
    throw_if (not (r.state == "revoked")) terminalization_failed
    throw_if (not (r.scope_digest == revoked.scope_digest)) terminalization_failed
    put (record r {
      state = "terminal";
      active_job_ids = c.active_job_ids;
      active_process_ids = c.active_process_ids;
      sandbox_write_authority_present = c.sandbox_write_authority_present;
      runtime_read_authority_roots = c.runtime_read_authority_roots;
      session_object_read_binding = c.session_object_read_binding;
      terminalized_at = some now;
    })
    write_state
    persisted ← read_back
    confirmed ← lift (get_record h persisted scope_id)
    throw_if (not (confirmed.state == "terminal") || has_runtime_authority confirmed)
        terminalization_failed
    lift (assert_index_binding persisted confirmed expected_lease)
    lift (no_competing_authority confirmed persisted.scopes)
    pure confirmed

  -- What the first transaction does with a scope that holds runtime authority.
  unfoldable pub close_runtime :
      String
      → ℕ
      → RepositoryIdentity
      → SemanticIdentity
      → ℕ
      → Option Cleanup
      → MutationScopeRecord
      → M MutationScopeRecord
  close_runtime scope_id generation repository semantic now none r = raise (
      if not (is_empty r.active_job_ids) || not (is_empty r.active_process_ids)
      then still_active
      else residual_authority)
  close_runtime scope_id generation repository semantic now (some runtime_cleanup) r = do
    revoked ← revoke_admission scope_id r
    closure ← runtime_cleanup revoked
    c ← accept_closure revoked closure
    close_revoked scope_id generation repository semantic now revoked c

  unfoldable pub terminalize_scope :
      String
      → ℕ
      → MutationExecutionPolicy
      → RepositoryIdentity
      → SemanticIdentity
      → Option Cleanup
      → ℕ
      → M MutationScopeRecord
  terminalize_scope scope_id generation policy repository semantic runtime_cleanup now = do
    r ← open_scope h scope_id
    (current, generation_changed) ← placement_generation_state h policy
    expected_lease ← validate_sealed_binding r generation repository semantic
    when generation_changed write_state
    if has_runtime_authority r
        then close_runtime scope_id generation repository semantic now runtime_cleanup r
        else close_directly scope_id r expected_lease now
