-- ===== src/Scope/Runtime.antt =====
-- The operations that record runtime authority of a scope: sandbox identity, Job and process,
-- runtime-read roots, Session-0 objects, and revocation.
use sentinelx_cloud_core.Base.{ℕ, String, Bool, true, false, not, ◌||◌, ◌==◌}
use sentinelx_cloud_core.Base.{Option, none, some, List, [], ◌∷◌, ◌++◌, if◌then◌else◌}
use sentinelx_cloud_core.Base.{nat_eq, string_eq, option_eq}
use sentinelx_cloud_core.Base.Lists.{is_empty, any, select}
use sentinelx_cloud_core.Base.Text.{is_blank, strip, decimal, sorted_set, sort_by}
use sentinelx_cloud_core.Errors.{value_error, not_current, scope_conflict, corrupt, still_active}
use sentinelx_cloud_core.Host.{Host}
use sentinelx_cloud_core.Scope.Record.{
  MutationScopeRecord, SessionObjectReadBinding, is_current, same_binding, binding_absent,
}
use sentinelx_cloud_core.Scope.Authority.{
  get_record, assert_index_binding, assert_no_competing_nonterminal,
}
use sentinelx_cloud_core.Scope.Transaction.{
  M, ◌>>=◌, ◌>>◌, pure, lift, throw_if, gets, load_state, read_back, put, write_state,
}

-- `value not in (None, wanted)`
abbrev pub bound_elsewhere : Option String → String → Bool
bound_elsewhere none wanted = false
bound_elsewhere (some x) wanted = not (x == wanted)

abbrev pub binding_is : Option SessionObjectReadBinding → SessionObjectReadBinding → Bool
binding_is none b = false
binding_is (some a) b = same_binding a b

-- `record.sandbox_identity != identity or not record.sandbox_write_authority_present`
abbrev pub not_sandbox : MutationScopeRecord → String → Bool
not_sandbox r identity =
    not (r.sandbox_identity == some identity) || not r.sandbox_write_authority_present

module _ (h : Host) where
  -- `state = self._load_state(); record = self._record(state, scope_id)`
  unfoldable pub open_scope : String → M MutationScopeRecord
  open_scope scope_id = do load_state; s ← gets (λ s. s); lift (get_record h s scope_id)

  -- The last lines of an operation: store the record, write the file, and read the record back.
  unfoldable pub commit : String → MutationScopeRecord → M MutationScopeRecord
  commit scope_id updated = do
    put updated
    write_state
    persisted ← read_back
    lift (get_record h persisted scope_id)

  unfoldable pub assert_indexed : MutationScopeRecord → M (Unit {0})
  assert_indexed r = do
    s ← gets (λ s. s)
    lift (assert_index_binding s r r.unique_lease_key)
    lift (assert_no_competing_nonterminal h s r)

  abbrev pub same_folded : String → String → Bool
  same_folded a b = h.casefold a == h.casefold b

  unfoldable pub reserve_sandbox_identity : String → ℕ → String → M MutationScopeRecord
  reserve_sandbox_identity scope_id generation given = do
    throw_if (is_blank (strip given)) value_error
    let identity = strip given
    r ← open_scope scope_id
    throw_if (not (r.generation == generation) || not (is_current r)) not_current
    assert_indexed r
    throw_if (bound_elsewhere r.sandbox_identity identity) scope_conflict
    confirmed ← commit scope_id (record r {
      state = "active";
      sandbox_identity = some identity;
      sandbox_write_authority_present = true;
    })
    throw_if (not_sandbox confirmed identity) corrupt
    pure confirmed

  unfoldable pub bind_runtime_process : String → ℕ → String → String → ℕ → M MutationScopeRecord
  bind_runtime_process scope_id generation identity job_id process_id = do
    throw_if (is_blank job_id || process_id == 0) value_error
    r ← open_scope scope_id
    throw_if (not (r.generation == generation) || not (is_current r)) not_current
    throw_if (not_sandbox r identity) scope_conflict
    assert_indexed r
    commit scope_id (record r {
      active_job_ids = sorted_set (job_id ∷ r.active_job_ids);
      active_process_ids = sorted_set (decimal process_id ∷ r.active_process_ids);
    })

  unfoldable pub release_runtime_process : String → ℕ → String → ℕ → M MutationScopeRecord
  release_runtime_process scope_id generation job_id process_id = do
    r ← open_scope scope_id
    throw_if (not (r.generation == generation)) not_current
    commit scope_id (record r {
      active_job_ids = select (λ v. not (v == job_id)) r.active_job_ids;
      active_process_ids = select (λ v. not (v == decimal process_id)) r.active_process_ids;
    })

  abbrev add_root : String → List String → List String
  add_root root roots = if any (λ v. same_folded v root) roots then roots else roots ++ root ∷ []

  unfoldable pub reserve_runtime_read_authority :
      String → ℕ → String → String → M MutationScopeRecord
  reserve_runtime_read_authority scope_id generation identity given = do
    throw_if (is_blank (strip given)) value_error
    let runtime_root = strip given
    r ← open_scope scope_id
    throw_if (not (r.generation == generation) || not (r.state == "active")) not_current
    throw_if (not_sandbox r identity) scope_conflict
    confirmed ← commit scope_id (record r {
      runtime_read_authority_roots =
          sort_by h.casefold (add_root runtime_root r.runtime_read_authority_roots);
    })
    throw_if (not (any (λ v. same_folded v runtime_root) confirmed.runtime_read_authority_roots))
        corrupt
    pure confirmed

  unfoldable pub clear_runtime_read_authority : String → ℕ → String → String → M MutationScopeRecord
  clear_runtime_read_authority scope_id generation identity given = do
    throw_if (is_blank (strip given)) value_error
    let runtime_root = strip given
    r ← open_scope scope_id
    throw_if (not (r.generation == generation)) not_current
    throw_if (r.state == "terminal") not_current
    throw_if (not (r.sandbox_identity == some identity)) scope_conflict
    confirmed ← commit scope_id (record r {
      runtime_read_authority_roots =
          select (λ v. not (same_folded v runtime_root)) r.runtime_read_authority_roots;
    })
    throw_if (any (λ v. same_folded v runtime_root) confirmed.runtime_read_authority_roots) corrupt
    pure confirmed

  unfoldable pub reserve_session_object_read_binding :
      String → ℕ → String → SessionObjectReadBinding → M MutationScopeRecord
  reserve_session_object_read_binding scope_id generation identity binding = do
    r ← open_scope scope_id
    throw_if (not (r.generation == generation) || not (r.state == "active")) not_current
    throw_if (not_sandbox r identity) scope_conflict
    throw_if
        (not (
          binding_absent r.session_object_read_binding
          || binding_is r.session_object_read_binding binding))
        scope_conflict
    confirmed ← commit scope_id (record r { session_object_read_binding = some binding })
    throw_if (not (binding_is confirmed.session_object_read_binding binding)) corrupt
    pure confirmed

  unfoldable pub clear_session_object_read_binding :
      String → ℕ → String → SessionObjectReadBinding → M MutationScopeRecord
  clear_session_object_read_binding scope_id generation identity binding = do
    r ← open_scope scope_id
    throw_if (not (r.generation == generation)) not_current
    throw_if (r.state == "terminal") not_current
    throw_if (not (r.sandbox_identity == some identity)) scope_conflict
    throw_if (not (binding_is r.session_object_read_binding binding)) scope_conflict
    confirmed ← commit scope_id (record r { session_object_read_binding = none })
    throw_if (not (binding_absent confirmed.session_object_read_binding)) corrupt
    pure confirmed

  unfoldable pub clear_sandbox_write_authority : String → ℕ → String → M MutationScopeRecord
  clear_sandbox_write_authority scope_id generation identity = do
    r ← open_scope scope_id
    throw_if (not (r.generation == generation)) not_current
    throw_if (not (r.sandbox_identity == some identity)) scope_conflict
    throw_if (not (is_empty r.active_job_ids) || not (is_empty r.active_process_ids)) still_active
    commit scope_id (record r { sandbox_write_authority_present = false })

  unfoldable pub revoke_scope : String → ℕ → M MutationScopeRecord
  revoke_scope scope_id generation = do
    r ← open_scope scope_id
    throw_if (not (r.generation == generation)) not_current
    if r.state == "terminal" then pure r else commit scope_id (record r { state = "revoked" })

  unfoldable pub read_scope : String → M MutationScopeRecord
  read_scope scope_id = open_scope scope_id
