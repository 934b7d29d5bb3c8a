-- ===== src/Scope/TerminalizeSafe.antt =====
-- `terminalize_scope` keeps the file an advance of what it was, if its cleanup does.
use sentinelx_cloud_core.Base.{
  ℕ, ◌≤◌, String, ◌≡◌, refl, ◌∙◌, ◌==◌, string_eq, nat_eq, option_eq, arith,
}
use sentinelx_cloud_core.Base.{true, false, Option, none, some}
use sentinelx_cloud_core.Base.Lists.{is_empty}
use sentinelx_cloud_core.Base.Result.{ok}
use sentinelx_cloud_core.Host.{Host}
use sentinelx_cloud_core.Policy.{MutationExecutionPolicy}
use sentinelx_cloud_core.Placement.{RepositoryIdentity, SemanticIdentity}
use sentinelx_cloud_core.Scope.Record.{
  MutationScopeRecord, MutationRuntimeClosure, is_known_state, stored_binding_accepted,
}
use sentinelx_cloud_core.Scope.Authority.{get_record}
use sentinelx_cloud_core.Scope.Transaction.{World, ◌>>=◌, write_state}
use sentinelx_cloud_core.Scope.Terminalize.{
  Cleanup, accept_closure, validate_sealed_binding, close_directly, revoke_admission, close_revoked,
  close_runtime, terminalize_scope,
}
use sentinelx_cloud_core.Scope.Stored.{get_record-IsAccepted}
use sentinelx_cloud_core.Scope.Lifecycle.{stage}
use sentinelx_cloud_core.Scope.Safe.{
  IsSafe, IsSafeAt, IsSafe-bind, IsSafe-bind_at, IsSafe-throw_if, IsSafe-lift, IsSafe-if,
  IsSafe-pure, IsSafe-raise, IsSafe-open_scope, IsSafe-reads, IsSafe-when, IsSafe-write,
  IsSafe-read_back,
}
use sentinelx_cloud_core.Scope.Update.{IsSafe-put}
use sentinelx_cloud_core.Scope.RuntimeSafe.{IsAccepted-parts, update, le-revoked}
use sentinelx_cloud_core.Scope.AdmissionSafe.{
  placement_generation_state-IsSafe, get_record-advanced,
}

pub le-terminal : (s : String) → stage s ≤ stage "terminal"
unfolding stage
le-terminal s = ground arith

-- What the accepted closure lacks.
pub record IsClosed (c : MutationRuntimeClosure) : Type 0 where
  pub jobs : is_empty c.active_job_ids ≡ true
  pub processes : is_empty c.active_process_ids ≡ true
  pub no_write : c.sandbox_write_authority_present ≡ false
  pub no_roots : is_empty c.runtime_read_authority_roots ≡ true
  pub no_binding : c.session_object_read_binding ≡ none

-- A closure that `terminalize_scope` accepts from its cleanup holds no Job, no process, no sandbox
-- write authority, no runtime-read root and no Session-0 binding.
pub accept_closure-IsClosed :
    (r : MutationScopeRecord) (o : Option MutationRuntimeClosure) (c : MutationRuntimeClosure)
    (w : World)
    → (accept_closure r o w).0 ≡ ok c
    → IsClosed c
unfolding accept_closure ◌>>=◌
accept_closure-IsClosed r o c w e = ground arith

absent_accepted :
    (c : MutationRuntimeClosure)
    → IsClosed c
    → stored_binding_accepted c.session_object_read_binding ≡ true
absent_accepted c closed = rw closed.no_binding

accept_closure-reads :
    (r : MutationScopeRecord) (o : Option MutationRuntimeClosure) (w : World)
    → (accept_closure r o w).1 ≡ w
unfolding accept_closure ◌>>=◌
accept_closure-reads r o w = ground arith

module _ (h : Host) where
  pub validate_sealed_binding-reads :
      (r : MutationScopeRecord) (generation : ℕ) (q : RepositoryIdentity) (t : SemanticIdentity)
      (w : World)
      → (validate_sealed_binding h r generation q t w).1 ≡ w
  unfolding validate_sealed_binding ◌>>=◌
  validate_sealed_binding-reads r generation q t w = ground arith

  close_directly-IsSafeAt :
      (scope_id : String) (r : MutationScopeRecord) (lease : String) (now : ℕ) (w : World)
      → get_record h w.state scope_id ≡ ok r
      → IsSafeAt h w (close_directly h scope_id r lease now)
  unfolding close_directly is_known_state
  close_directly-IsSafeAt scope_id r lease now w g =
      IsSafe-bind h w _ _
        (IsSafe-put h w scope_id r _ g (
          update h r (le-terminal r.state) refl
            (IsAccepted-parts h r (get_record-IsAccepted h w.state scope_id r g).0).0))
        λ _ v. IsSafe-bind h v _ _ (IsSafe-write h v) λ _ x.
          IsSafe-bind h x _ _ (IsSafe-read_back h x) λ _ y.
            IsSafe-lift h y _ _
              λ c _. IsSafe-throw_if h y _ _ _ λ _. IsSafe-lift h y _ _ λ _ _. IsSafe-pure h y c

  revoke_admission-IsSafeAt :
      (scope_id : String) (r : MutationScopeRecord) (w : World)
      → get_record h w.state scope_id ≡ ok r
      → (r.state == "terminal") ≡ false
      → IsSafeAt h w (revoke_admission h scope_id r)
  unfolding revoke_admission is_known_state
  revoke_admission-IsSafeAt scope_id r w g live =
      let parts = IsAccepted-parts h r (get_record-IsAccepted h w.state scope_id r g).0 in
      IsSafe-bind h w _ _
        (IsSafe-put h w scope_id r _ g (update h r (le-revoked r live parts.1) refl parts.0))
        λ _ v. IsSafe-bind h v _ _ (IsSafe-write h v) λ _ x.
          IsSafe-bind h x _ _ (IsSafe-read_back h x)
            λ _ y. IsSafe-lift h y _ _ λ c _. IsSafe-throw_if h y _ _ _ λ _. IsSafe-pure h y c

  close_revoked-IsSafe :
      (scope_id : String) (generation : ℕ) (q : RepositoryIdentity) (t : SemanticIdentity) (now : ℕ)
      (revoked : MutationScopeRecord) (c : MutationRuntimeClosure)
      → IsClosed c
      → IsSafe h (close_revoked h scope_id generation q t now revoked c)
  unfolding close_revoked is_known_state
  close_revoked-IsSafe scope_id generation q t now revoked c closed w =
      IsSafe-open_scope h w scope_id _ λ s r l g.
        IsSafe-reads h _ _ _ (validate_sealed_binding-reads r generation q t _) λ _ _.
          IsSafe-throw_if h _ _ _ _ λ _. IsSafe-throw_if h _ _ _ _ λ _.
            IsSafe-bind h _ _ _
              (IsSafe-put h _ scope_id r _ g
                (update h r (le-terminal r.state) refl (absent_accepted c closed)))
              λ _ v. IsSafe-bind h v _ _ (IsSafe-write h v) λ _ x.
                IsSafe-bind h x _ _ (IsSafe-read_back h x) λ _ y. IsSafe-lift h y _ _ λ d _.
                  IsSafe-throw_if h y _ _ _
                    λ _. IsSafe-lift h y _ _ λ _ _. IsSafe-lift h y _ _ λ _ _. IsSafe-pure h y d

  validate_sealed_binding-live :
      (r : MutationScopeRecord) (generation : ℕ) (q : RepositoryIdentity) (t : SemanticIdentity)
      (w : World) (lease : String)
      → (validate_sealed_binding h r generation q t w).0 ≡ ok lease
      → (r.state == "terminal") ≡ false
  unfolding validate_sealed_binding ◌>>=◌
  validate_sealed_binding-live r generation q t w lease e = ground arith

  close_runtime-IsSafeAt :
      (scope_id : String) (generation : ℕ) (q : RepositoryIdentity) (t : SemanticIdentity) (now : ℕ)
      (cleanup : Option Cleanup) (r : MutationScopeRecord) (w : World)
      → ((f : Cleanup) → cleanup ≡ some f → (x : MutationScopeRecord) → IsSafe h (f x))
      → get_record h w.state scope_id ≡ ok r
      → (r.state == "terminal") ≡ false
      → IsSafeAt h w (close_runtime h scope_id generation q t now cleanup r)
  unfolding close_runtime
  close_runtime-IsSafeAt scope_id generation q t now none r w safe g live = IsSafe-raise h w _
  close_runtime-IsSafeAt scope_id generation q t now (some f) r w safe g live =
      IsSafe-bind h w _ _ (revoke_admission-IsSafeAt scope_id r w g live) λ revoked v.
        IsSafe-bind h v _ _ (safe f refl revoked v) λ o x.
          IsSafe-reads h x _ _ (accept_closure-reads revoked o x) λ c e.
            close_revoked-IsSafe scope_id generation q t now revoked c
              (accept_closure-IsClosed revoked o c x e) x

  pub terminalize_scope-IsSafe :
      (scope_id : String) (generation : ℕ) (p : MutationExecutionPolicy) (q : RepositoryIdentity)
      (t : SemanticIdentity) (cleanup : Option Cleanup) (now : ℕ)
      → ((f : Cleanup) → cleanup ≡ some f → (x : MutationScopeRecord) → IsSafe h (f x))
      → IsSafe h (terminalize_scope h scope_id generation p q t cleanup now)
  unfolding terminalize_scope
  terminalize_scope-IsSafe scope_id generation p q t cleanup now safe w =
      IsSafe-open_scope h w scope_id _ λ s r l g.
        IsSafe-bind_at h _ _ _ (placement_generation_state-IsSafe h p _) λ (c, moved) _.
          IsSafe-reads h _ _ _ (validate_sealed_binding-reads r generation q t _) λ lease e.
            IsSafe-bind_at h _ _ _ (IsSafe-when h moved write_state (IsSafe-write h) _) λ _ _.
              IsSafe-if h _ _ _ _
                (λ _.
                  close_runtime-IsSafeAt scope_id generation q t now cleanup r _ safe
                    (get_record-advanced h p _ moved scope_id ∙ g)
                    (validate_sealed_binding-live r generation q t _ lease e))
                λ _.
                  close_directly-IsSafeAt scope_id r lease now _
                    (get_record-advanced h p _ moved scope_id ∙ g)
