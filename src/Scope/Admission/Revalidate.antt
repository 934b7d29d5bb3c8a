-- ===== src/Scope/Admission/Revalidate.antt =====
-- `revalidate_scope`, `revalidate_scope_for_operation` and `read_bound_scope`. The clock is an
-- argument.
use sentinelx_cloud_core.Base.{ℕ, String, Bool, true, false, not, ◌&&◌, ◌||◌, ◌==◌}
use sentinelx_cloud_core.Base.{Option, none, some, List, leb, if◌then◌else◌}
use sentinelx_cloud_core.Base.{nat_eq, string_eq, option_eq, list_eq, contains}
use sentinelx_cloud_core.Base.Dict.{lookup}
use sentinelx_cloud_core.Base.Result.{ok}
use sentinelx_cloud_core.Base.Text.{is_blank, strip}
use sentinelx_cloud_core.Errors.{value_error, not_current, binding_mismatch, operation_not_allowed}
use sentinelx_cloud_core.Host.{Host, FilePath, scalar, text}
use sentinelx_cloud_core.Policy.{MutationExecutionPolicy}
use sentinelx_cloud_core.Placement.{
  RepositoryIdentity, SemanticIdentity, PlacementGenerationState, PlacementEvidence, evolve,
  placement_policy_digest, revalidate_placement, unique_mutation_lease_key, canonical_repository,
  canonical_semantic, lineage_value,
}
use sentinelx_cloud_core.Scope.Record.{
  MutationScopeRecord, ScopeEntry, not_mapping, misfit, fields, is_current, verify_digest,
}
use sentinelx_cloud_core.Scope.Authority.{
  attempt_key, assert_index_binding, assert_no_competing_nonterminal, lineage_differs,
}
use sentinelx_cloud_core.Scope.Transaction.{
  M, ◌>>=◌, ◌>>◌, pure, lift, throw_if, when, gets, put, write_state, on_not_current,
}
use sentinelx_cloud_core.Scope.Runtime.{open_scope}

-- `_mark_expired_if_needed`
unfoldable pub mark_expired_if_needed : MutationScopeRecord → ℕ → MutationScopeRecord
mark_expired_if_needed r now =
    if is_current r && leb r.expires_at now
    then record r { state = "expired"; terminalized_at = some now }
    else r

-- `expired != record`: `replace` touches these two fields alone.
abbrev pub lifecycle_differs : MutationScopeRecord → MutationScopeRecord → Bool
lifecycle_differs a b =
    not (a.state == b.state) || not (option_eq.agrees a.terminalized_at b.terminalized_at)

-- `state["scopes"].get(record.scope_id) != record.to_json()`
abbrev pub entry_differs : Option ScopeEntry → MutationScopeRecord → Bool
entry_differs none r = true
entry_differs (some not_mapping) r = true
entry_differs (some misfit) r = true
entry_differs (some (fields x)) r = lifecycle_differs x r

abbrev pub same_generation : PlacementGenerationState → PlacementGenerationState → Bool
same_generation a b = a.policy_digest == b.policy_digest && a.generation == b.generation

module _ (h : Host) where
  -- `_placement_generation_state`
  unfoldable pub placement_generation_state :
      MutationExecutionPolicy → M (PlacementGenerationState × Bool)
  placement_generation_state policy w =
      let digest = placement_policy_digest h policy in
      elim w.state.placement_generation [
        | none ↦
            let current : PlacementGenerationState = record {
              policy_digest = digest;
              generation = 1;
            } in
            (
              ok (current, true),
              record w { state = record w.state { placement_generation = some current } },
            )
        | some previous ↦
            let current = evolve previous digest in
            if same_generation current previous then (ok (current, false), w) else (
              ok (current, true),
              record w { state = record w.state { placement_generation = some current } },
            )
      ]

  -- The sealed fields of a scope, as `revalidate_placement` expects them.
  abbrev pub sealed_placement : MutationScopeRecord → PlacementEvidence
  sealed_placement r = record {
    placement_ref = r.placement_ref;
    generation = r.placement_generation;
    policy_digest = r.policy_digest;
    exact_future_workspace = r.exact_workspace;
    exact_workspace_digest = r.exact_workspace_digest;
    repository_identity_digest = r.repository_identity_digest;
    semantic_identity_digest = r.semantic_identity_digest;
    protected_inventory_digest = r.protected_inventory_digest;
  }

  -- `_revalidate_locked`, from the lease key on.
  unfoldable pub revalidate_binding :
      MutationScopeRecord
      → MutationExecutionPolicy
      → RepositoryIdentity
      → SemanticIdentity
      → List FilePath
      → M (Unit {0})
  revalidate_binding r policy repository semantic provider_roots = do
    expected_attempt ← lift (attempt_key h r.repository_identity_digest semantic)
    throw_if (not (expected_attempt == r.attempt_key)) binding_mismatch
    expected_key ← lift (
        unique_mutation_lease_key h r.repository_identity_digest semantic r.placement_generation
          r.exact_workspace_digest)
    throw_if (not (expected_key == r.unique_lease_key)) binding_mismatch
    s ← gets (λ s. s)
    lift (assert_index_binding s r expected_key)
    lift (assert_no_competing_nonterminal h s r)
    throw_if (lineage_differs r semantic) binding_mismatch
    lift (revalidate_placement h (sealed_placement r) policy repository semantic provider_roots)
    pure tt

  -- `_revalidate_locked`
  unfoldable pub revalidate_locked :
      MutationScopeRecord
      → MutationExecutionPolicy
      → RepositoryIdentity
      → SemanticIdentity
      → List FilePath
      → ℕ
      → M (MutationScopeRecord × Bool)
  revalidate_locked given policy repository semantic provider_roots now = do
    lift (verify_digest h given)
    let r = mark_expired_if_needed given now
    let changed = lifecycle_differs r given
    when changed (put r)
    throw_if (not (is_current r)) not_current
    (current, generation_changed) ← placement_generation_state policy
    when generation_changed write_state
    throw_if
        (not (r.placement_generation == current.generation)
          || not (r.policy_digest == current.policy_digest))
        binding_mismatch
    revalidate_binding r policy repository semantic provider_roots
    pure (r, changed)

  -- The `except HostMutationScopeNotCurrent` clause of the callers.
  unfoldable pub write_if_moved : MutationScopeRecord → Bool → M (Unit {0})
  write_if_moved r generation_changed = do
    s ← gets (λ s. s)
    when (generation_changed || entry_differs (lookup r.scope_id s.scopes) r) write_state

  unfoldable pub revalidate_scope :
      String
      → ℕ
      → MutationExecutionPolicy
      → RepositoryIdentity
      → SemanticIdentity
      → List FilePath
      → ℕ
      → M MutationScopeRecord
  revalidate_scope scope_id generation policy repository semantic provider_roots now = do
    r ← open_scope h scope_id
    throw_if (not (r.generation == generation)) not_current
    (validated, changed) ←
        on_not_current (revalidate_locked r policy repository semantic provider_roots now)
          (write_if_moved r false)
    when changed write_state
    pure validated

  unfoldable pub revalidate_scope_for_operation :
      String
      → ℕ
      → MutationExecutionPolicy
      → RepositoryIdentity
      → SemanticIdentity
      → String
      → List FilePath
      → ℕ
      → M MutationScopeRecord
  revalidate_scope_for_operation scope_id generation policy repository semantic required roots now =
      do
        throw_if (is_blank (strip required)) value_error
        r ← revalidate_scope scope_id generation policy repository semantic roots now
        throw_if (not (contains r.allowed_operation_classes (strip required))) operation_not_allowed
        pure r

  unfoldable pub read_bound_scope :
      String → ℕ → RepositoryIdentity → SemanticIdentity → M MutationScopeRecord
  read_bound_scope scope_id generation repository semantic = do
    r ← open_scope h scope_id
    throw_if (not (r.generation == generation)) not_current
    canonical ← lift (canonical_repository h repository)
    throw_if (not (r.repository_identity_digest == h.digest (scalar (text canonical))))
        binding_mismatch
    lineage ← lift (canonical_semantic semantic)
    throw_if (not (r.semantic_identity_digest == h.digest (lineage_value lineage))) binding_mismatch
    throw_if (lineage_differs r semantic) binding_mismatch
    expected ← lift (attempt_key h r.repository_identity_digest semantic)
    throw_if (not (r.attempt_key == expected)) binding_mismatch
    pure r
