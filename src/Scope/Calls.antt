-- ===== src/Scope/Calls.antt =====
-- The store as its clients see it: a call is one operation of `MutationScopeStore`, and a
-- history is a sequence of calls, by any processes in any order, each under the file lock.
use sentinelx_cloud_core.Base.{ℕ, String, Option, none, some, List, true, ◌≡◌}
use sentinelx_cloud_core.Host.{Host, FilePath}
use sentinelx_cloud_core.Policy.{MutationExecutionPolicy}
use sentinelx_cloud_core.Placement.{RepositoryIdentity, SemanticIdentity}
use sentinelx_cloud_core.Scope.Record.{
  MutationScopeRecord, SessionObjectReadBinding, binding_accepted,
}
use sentinelx_cloud_core.Scope.Authority.{Document}
use sentinelx_cloud_core.Scope.Transaction.{M, start}
use sentinelx_cloud_core.Scope.Runtime.{
  reserve_sandbox_identity, bind_runtime_process, release_runtime_process,
  reserve_runtime_read_authority, clear_runtime_read_authority, reserve_session_object_read_binding,
  clear_session_object_read_binding, clear_sandbox_write_authority, revoke_scope, read_scope,
}
use sentinelx_cloud_core.Scope.Admission.{
  provision_scope, revalidate_scope, revalidate_scope_for_operation, read_bound_scope,
}
use sentinelx_cloud_core.Scope.Terminalize.{Cleanup, terminalize_scope}
use sentinelx_cloud_core.Scope.Lifecycle.{scope_of}
use sentinelx_cloud_core.Scope.Safe.{IsSafe}

-- The caller's own identity and policy, which most operations validate against.
pub record Caller : Type 0 where
  pub policy : MutationExecutionPolicy
  pub repository : RepositoryIdentity
  pub semantic : SemanticIdentity
  pub provider_roots : List FilePath

pub data Call : Type 0 where
  provision : FilePath → Caller → List String → ℕ → (scope_id workspace_id : String) → Call
  revalidate : String → ℕ → Caller → ℕ → Call
  revalidate_for : String → ℕ → Caller → (operation : String) → ℕ → Call
  read_bound : String → ℕ → Caller → Call
  read : String → Call
  reserve_sandbox : String → ℕ → (identity : String) → Call
  bind_process : String → ℕ → (identity job_id : String) → (process_id : ℕ) → Call
  release_process : String → ℕ → (job_id : String) → (process_id : ℕ) → Call
  reserve_read : String → ℕ → (identity root : String) → Call
  clear_read : String → ℕ → (identity root : String) → Call
  reserve_session : String → ℕ → (identity : String) → SessionObjectReadBinding → Call
  clear_session : String → ℕ → (identity : String) → SessionObjectReadBinding → Call
  clear_write : String → ℕ → (identity : String) → Call
  revoke : String → ℕ → Call
  terminalize : String → ℕ → Caller → Option Cleanup → ℕ → Call

module _ (h : Host) where
  unfoldable pub perform : Call → M MutationScopeRecord
  perform (provision root c classes now s w) =
      provision_scope h root c.policy c.repository c.semantic classes c.provider_roots now s w
  perform (revalidate s g c now) =
      revalidate_scope h s g c.policy c.repository c.semantic c.provider_roots now
  perform (revalidate_for s g c operation now) =
      revalidate_scope_for_operation h s g c.policy c.repository c.semantic operation
        c.provider_roots now
  perform (read_bound s g c) = read_bound_scope h s g c.repository c.semantic
  perform (read s) = read_scope h s
  perform (reserve_sandbox s g identity) = reserve_sandbox_identity h s g identity
  perform (bind_process s g identity job process) = bind_runtime_process h s g identity job process
  perform (release_process s g job process) = release_runtime_process h s g job process
  perform (reserve_read s g identity root) = reserve_runtime_read_authority h s g identity root
  perform (clear_read s g identity root) = clear_runtime_read_authority h s g identity root
  perform (reserve_session s g identity b) = reserve_session_object_read_binding h s g identity b
  perform (clear_session s g identity b) = clear_session_object_read_binding h s g identity b
  perform (clear_write s g identity) = clear_sandbox_write_authority h s g identity
  perform (revoke s g) = revoke_scope h s g
  perform (terminalize s g c cleanup now) =
      terminalize_scope h s g c.policy c.repository c.semantic cleanup now

  -- The file after a call, whether the call returns or raises.
  unfoldable pub after : Call → Document → Document
  after c d = (perform c (start d)).1.document

  -- What the callers owe the store: the identifier that `secrets` mints is not taken, a binding
  -- has passed its own constructor, and the cleanup goes through the store.
  abbrev pub IsAdmissible : Document → Call → Type 0
  IsAdmissible d (provision root c classes now s w) = scope_of h d s ≡ none
  IsAdmissible d (reserve_session s g identity b) = binding_accepted b ≡ true
  IsAdmissible d (terminalize s g c cleanup now) =
      (f : Cleanup) → cleanup ≡ some f → (r : MutationScopeRecord) → IsSafe h (f r)
  IsAdmissible d c = Unit

  -- Calls one after the other, from a file to a file.
  pub data Steps : Document → Document → Type 0 where
    here : {d : Document} → Steps d d
    next : {d e : Document} (c : Call) → IsAdmissible d c → Steps (after c d) e → Steps d e
