-- ===== src/Scope/RuntimeSafe.antt =====
-- Every operation on the runtime authority of a scope keeps the file an advance of what it was.
use native.Mathlib.Nat.{le_refl}
use sentinelx_cloud_core.Base.{ℕ, ◌≤◌, String, ◌≡◌, refl, ◌==◌, nat_eq, string_eq, option_eq}
use sentinelx_cloud_core.Base.{Bool, true, false, Option, none, List, arith}
use sentinelx_cloud_core.Base.Result.{ok}
use sentinelx_cloud_core.Errors.{Error}
use sentinelx_cloud_core.Host.{Host}
use sentinelx_cloud_core.Scope.Record.{
  MutationScopeRecord, SessionObjectReadBinding, is_current, is_known_state, from_json,
  verify_digest, immutable_digest_payload, stored_binding_accepted, binding_accepted,
}
use sentinelx_cloud_core.Scope.Authority.{Authority, get_record}
use sentinelx_cloud_core.Scope.Transaction.{World, ◌>>=◌, ◌>>◌, pure, throw_if}
use sentinelx_cloud_core.Scope.Runtime.{
  reserve_sandbox_identity, bind_runtime_process, release_runtime_process,
  reserve_runtime_read_authority, clear_runtime_read_authority, reserve_session_object_read_binding,
  clear_session_object_read_binding, clear_sandbox_write_authority, revoke_scope, assert_indexed,
  commit,
}
use sentinelx_cloud_core.Scope.Stored.{IsAccepted, get_record-IsAccepted}
use sentinelx_cloud_core.Scope.Lifecycle.{stage}
use sentinelx_cloud_core.Scope.Safe.{
  IsSafe, IsSafeAt, IsSafe-bind, IsSafe-throw_if, IsSafe-pure, IsSafe-open_scope, IsSafe-reads,
  IsSafe-if,
}
use sentinelx_cloud_core.Scope.Update.{IsUpdate, IsSafe-commit}

-- The stages that the new states are compared with.
le-active : (r : MutationScopeRecord) → is_current r ≡ true → stage r.state ≤ stage "active"
unfolding stage is_current
le-active r live = ground arith

pub le-revoked :
    (r : MutationScopeRecord)
    → (r.state == "terminal") ≡ false
    → is_known_state r.state ≡ true
    → stage r.state ≤ stage "revoked"
unfolding stage is_known_state
le-revoked r live known = ground arith

module _ (h : Host) where
  -- An accepted record has a known state and a well-formed binding.
  pub IsAccepted-parts :
      (r : MutationScopeRecord)
      → IsAccepted h r
      → (stored_binding_accepted r.session_object_read_binding ≡ true)
        × (is_known_state r.state ≡ true)
  unfolding from_json verify_digest
  IsAccepted-parts r a = ground arith

  -- A change of the lifecycle and runtime fields.
  pub update :
      (r : MutationScopeRecord) {st : String} {identity : Option String} {jobs pids : List String}
      {flag : Bool} {roots : List String} {binding : Option SessionObjectReadBinding}
      {at : Option ℕ}
      → stage r.state ≤ stage st
      → is_known_state st ≡ true
      → stored_binding_accepted binding ≡ true
      → IsUpdate h r (record r {
        state = st;
        sandbox_identity = identity;
        active_job_ids = jobs;
        active_process_ids = pids;
        sandbox_write_authority_present = flag;
        runtime_read_authority_roots = roots;
        session_object_read_binding = binding;
        terminalized_at = at;
      })
  unfolding immutable_digest_payload
  update r le known b = record {
    advances = record { payload = refl; digest = refl; stages = le };
    same_id = refl;
    binding = b;
    known = known;
  }

  module _ (s : Authority) (scope_id : String) (r : MutationScopeRecord) where
    -- A change of the runtime fields alone.
    IsUpdate-runtime :
        get_record h s scope_id ≡ ok r
        → {identity : Option String} {jobs pids : List String} {flag : Bool} {roots : List String}
        → IsUpdate h r (record r {
          sandbox_identity = identity;
          active_job_ids = jobs;
          active_process_ids = pids;
          sandbox_write_authority_present = flag;
          runtime_read_authority_roots = roots;
        })
    IsUpdate-runtime g =
        let parts = IsAccepted-parts r (get_record-IsAccepted h s scope_id r g).0 in
        update r (le_refl _) parts.1 parts.0

  -- The checks of the indexes read only.
  assert_indexed-reads : (r : MutationScopeRecord) (w : World) → (assert_indexed h r w).1 ≡ w
  unfolding assert_indexed ◌>>=◌
  assert_indexed-reads r w = ground arith

  -- A read back of the committed record, a test and a return.
  IsSafe-confirm :
      (w : World) (scope_id : String) (r u : MutationScopeRecord)
      (test : MutationScopeRecord → Bool) (e : Error)
      → get_record h w.state scope_id ≡ ok r
      → IsUpdate h r u
      → IsSafeAt h w (commit h scope_id u >>= λ c. throw_if (test c) e >> pure c)
  IsSafe-confirm w scope_id r u test e g up =
      IsSafe-bind h w (commit h scope_id u) _ (IsSafe-commit h w scope_id r u g up)
        λ c v. IsSafe-throw_if h v (test c) e _ λ _. IsSafe-pure h v c

  pub reserve_sandbox_identity-IsSafe :
      (scope_id : String) (generation : ℕ) (given : String)
      → IsSafe h (reserve_sandbox_identity h scope_id generation given)
  unfolding reserve_sandbox_identity is_known_state
  reserve_sandbox_identity-IsSafe scope_id generation given w = IsSafe-throw_if h w _ _ _ λ _.
      IsSafe-open_scope h w scope_id _ λ s r l g. IsSafe-throw_if h _ _ _ _ λ live.
        IsSafe-reads h _ _ _ (assert_indexed-reads r _) λ _ _. IsSafe-throw_if h _ _ _ _ λ _.
          IsSafe-confirm _ scope_id r _ _ _ g (
            update r (le-active r (ground arith)) refl
              (IsAccepted-parts r (get_record-IsAccepted h s scope_id r g).0).0)

  pub bind_runtime_process-IsSafe :
      (scope_id : String) (generation : ℕ) (identity job_id : String) (process_id : ℕ)
      → IsSafe h (bind_runtime_process h scope_id generation identity job_id process_id)
  unfolding bind_runtime_process
  bind_runtime_process-IsSafe scope_id generation identity job_id process_id w =
      IsSafe-throw_if h w _ _ _ λ _. IsSafe-open_scope h w scope_id _ λ s r l g.
        IsSafe-throw_if h _ _ _ _ λ _. IsSafe-throw_if h _ _ _ _ λ _.
          IsSafe-reads h _ _ _ (assert_indexed-reads r _)
            λ _ _. IsSafe-commit h _ scope_id r _ g (IsUpdate-runtime s scope_id r g)

  pub release_runtime_process-IsSafe :
      (scope_id : String) (generation : ℕ) (job_id : String) (process_id : ℕ)
      → IsSafe h (release_runtime_process h scope_id generation job_id process_id)
  unfolding release_runtime_process
  release_runtime_process-IsSafe scope_id generation job_id process_id w =
      IsSafe-open_scope h w scope_id _ λ s r l g.
        IsSafe-throw_if h _ _ _ _
          λ _. IsSafe-commit h _ scope_id r _ g (IsUpdate-runtime s scope_id r g)

  pub reserve_runtime_read_authority-IsSafe :
      (scope_id : String) (generation : ℕ) (identity given : String)
      → IsSafe h (reserve_runtime_read_authority h scope_id generation identity given)
  unfolding reserve_runtime_read_authority
  reserve_runtime_read_authority-IsSafe scope_id generation identity given w =
      IsSafe-throw_if h w _ _ _ λ _. IsSafe-open_scope h w scope_id _ λ s r l g.
        IsSafe-throw_if h _ _ _ _ λ _.
          IsSafe-throw_if h _ _ _ _
            λ _. IsSafe-confirm _ scope_id r _ _ _ g (IsUpdate-runtime s scope_id r g)

  pub clear_runtime_read_authority-IsSafe :
      (scope_id : String) (generation : ℕ) (identity given : String)
      → IsSafe h (clear_runtime_read_authority h scope_id generation identity given)
  unfolding clear_runtime_read_authority
  clear_runtime_read_authority-IsSafe scope_id generation identity given w =
      IsSafe-throw_if h w _ _ _ λ _. IsSafe-open_scope h w scope_id _ λ s r l g.
        IsSafe-throw_if h _ _ _ _ λ _. IsSafe-throw_if h _ _ _ _ λ _.
          IsSafe-throw_if h _ _ _ _
            λ _. IsSafe-confirm _ scope_id r _ _ _ g (IsUpdate-runtime s scope_id r g)

  -- The binding is one that its constructor accepted.
  pub reserve_session_object_read_binding-IsSafe :
      (scope_id : String) (generation : ℕ) (identity : String) (binding : SessionObjectReadBinding)
      → binding_accepted binding ≡ true
      → IsSafe h (reserve_session_object_read_binding h scope_id generation identity binding)
  unfolding reserve_session_object_read_binding
  reserve_session_object_read_binding-IsSafe scope_id generation identity binding accepted w =
      IsSafe-open_scope h w scope_id _ λ s r l g. IsSafe-throw_if h _ _ _ _ λ _.
        IsSafe-throw_if h _ _ _ _ λ _. IsSafe-throw_if h _ _ _ _ λ _.
          IsSafe-confirm _ scope_id r _ _ _ g (
            update r (le_refl _) (IsAccepted-parts r (get_record-IsAccepted h s scope_id r g).0).1
              accepted)

  pub clear_session_object_read_binding-IsSafe :
      (scope_id : String) (generation : ℕ) (identity : String) (binding : SessionObjectReadBinding)
      → IsSafe h (clear_session_object_read_binding h scope_id generation identity binding)
  unfolding clear_session_object_read_binding
  clear_session_object_read_binding-IsSafe scope_id generation identity binding w =
      IsSafe-open_scope h w scope_id _ λ s r l g. IsSafe-throw_if h _ _ _ _ λ _.
        IsSafe-throw_if h _ _ _ _ λ _. IsSafe-throw_if h _ _ _ _ λ _. IsSafe-throw_if h _ _ _ _ λ _.
          IsSafe-confirm _ scope_id r _ _ _ g (
            update r {binding = none} (le_refl _)
              (IsAccepted-parts r (get_record-IsAccepted h s scope_id r g).0).1 refl)

  pub clear_sandbox_write_authority-IsSafe :
      (scope_id : String) (generation : ℕ) (identity : String)
      → IsSafe h (clear_sandbox_write_authority h scope_id generation identity)
  unfolding clear_sandbox_write_authority
  clear_sandbox_write_authority-IsSafe scope_id generation identity w =
      IsSafe-open_scope h w scope_id _ λ s r l g. IsSafe-throw_if h _ _ _ _ λ _.
        IsSafe-throw_if h _ _ _ _ λ _.
          IsSafe-throw_if h _ _ _ _
            λ _. IsSafe-commit h _ scope_id r _ g (IsUpdate-runtime s scope_id r g)

  pub revoke_scope-IsSafe :
      (scope_id : String) (generation : ℕ) → IsSafe h (revoke_scope h scope_id generation)
  unfolding revoke_scope is_known_state
  revoke_scope-IsSafe scope_id generation w = IsSafe-open_scope h w scope_id _ λ s r l g.
      IsSafe-throw_if h _ _ _ _ λ _.
        IsSafe-if h _ _ _ _ (λ _. IsSafe-pure h _ r)
          λ live. IsSafe-commit h _ scope_id r _ g (
            update r
              (le-revoked r live (IsAccepted-parts r (get_record-IsAccepted h s scope_id r g).0).1)
              refl (IsAccepted-parts r (get_record-IsAccepted h s scope_id r g).0).0)
