-- ===== src/Scope/Granted.antt =====
-- A revalidation grants a scope only while it is current and before its deadline.
use sentinelx_cloud_core.Base.{
  ℕ, String, ◌≡◌, refl, Bool, true, false, ◌&&◌, leb, List, contains, string_eq, arith,
}
use sentinelx_cloud_core.Base.{if◌then◌else◌, some}
use sentinelx_cloud_core.Base.Text.{strip}
use sentinelx_cloud_core.Base.Result.{Result, ok, err}
use sentinelx_cloud_core.Errors.{Error, not_current}
use sentinelx_cloud_core.Host.{Host, FilePath}
use sentinelx_cloud_core.Policy.{MutationExecutionPolicy}
use sentinelx_cloud_core.Placement.{RepositoryIdentity, SemanticIdentity}
use sentinelx_cloud_core.Scope.Record.{MutationScopeRecord, is_current}
use sentinelx_cloud_core.Scope.Transaction.{World, M, handle, on_not_current}
use sentinelx_cloud_core.Scope.Admission.{
  mark_expired_if_needed, revalidate_locked, revalidate_scope, revalidate_scope_for_operation,
}
use sentinelx_cloud_core.Scope.Returns.{
  ReturnsAt, Returns, Returns-pure, Returns-raise, Returns-rest, Returns-throw_if,
  Returns-lift_last, Returns-bind,
}

-- The scope is current, and its deadline is after `now`.
pub record IsLive (now : ℕ) (u : MutationScopeRecord) : Type 0 where
  pub current : is_current u ≡ true
  pub in_time : leb u.expires_at now ≡ false

mark_step :
    (late : Bool) (r : MutationScopeRecord) (now : ℕ)
    → (late ≡ false → is_current r ≡ true → leb r.expires_at now ≡ false)
    → is_current (if late then record r { state = "expired"; terminalized_at = some now } else r)
      ≡ true
    → IsLive now (if late then record r { state = "expired"; terminalized_at = some now } else r)
unfolding is_current
mark_step true r now k live = cc
mark_step false r now k live = record { current = live; in_time = k refl live }

second_false : (a b : Bool) → (a && b) ≡ false → a ≡ true → b ≡ false
second_false true b e f = e
second_false false b e f = cc

mark-IsLive :
    (r : MutationScopeRecord) (now : ℕ)
    → is_current (mark_expired_if_needed r now) ≡ true
    → IsLive now (mark_expired_if_needed r now)
unfolding mark_expired_if_needed
mark-IsLive r now live =
    mark_step (is_current r && leb r.expires_at now) r now
      (second_false (is_current r) (leb r.expires_at now)) live

module _ {B : Type 0} (P : B → World → Type 0) where
  handle-Returns :
      (r : Result Error B) (cleanup : M (Unit {0})) (w : World)
      → ((b : B) → r ≡ ok b → P b w)
      → ReturnsAt P w (handle r cleanup)
  handle-Returns (err not_current) cleanup w k =
      Returns-rest P cleanup _ (λ _ v. Returns-raise P v not_current) w
  handle-Returns r cleanup w k = Returns-lift_last P w r k

  -- A handler of `HostMutationScopeNotCurrent` raises again.
  Returns-on_not_current :
      (m : M B) (cleanup : M (Unit {0})) → Returns P m → Returns P (on_not_current m cleanup)
  unfolding on_not_current
  Returns-on_not_current m cleanup k w = record {
    at = λ b e. (handle-Returns (m w).0 cleanup (m w).1 (λ c q. (k w).at c q)).at b e;
  }

module _ (h : Host) (p : MutationExecutionPolicy) (q : RepositoryIdentity) (t : SemanticIdentity)
    (roots : List FilePath) (now : ℕ) where
  revalidate_locked-IsLive :
      (r : MutationScopeRecord)
      → Returns
          (λ (u : MutationScopeRecord × Bool) _. IsLive now u.0)
          (revalidate_locked h r p q t roots now)
  unfolding revalidate_locked
  revalidate_locked-IsLive r = Returns-rest _ _ _ λ _. Returns-rest _ _ _ λ _ w.
      Returns-throw_if _ w _ _ _ λ live.
        Returns-rest _ _ _
          (λ (c, moved). Returns-rest _ _ _ λ _. Returns-rest _ _ _ λ _.
            Returns-rest _ _ _ λ _ v. Returns-pure _ v _ (mark-IsLive r now (ground (arith, live))))
          w

  revalidate_scope-Returns :
      (scope_id : String) (generation : ℕ)
      → Returns (λ u _. IsLive now u) (revalidate_scope h scope_id generation p q t roots now)
  unfolding revalidate_scope
  revalidate_scope-Returns scope_id generation = Returns-rest _ _ _ λ r. Returns-rest _ _ _ λ _ w.
      Returns-bind _ w _ _ λ (u, changed) e.
        Returns-rest _ _ _
          (λ _ v.
            Returns-pure _ v u
              ((Returns-on_not_current _ _ _ (revalidate_locked-IsLive r) w).at (u, changed) e))
          _

  -- A scope that `revalidate_scope` returns is current, and its deadline is after the time of the
  -- call.
  pub revalidate_scope-IsLive :
      (scope_id : String) (generation : ℕ) (w : World) (u : MutationScopeRecord)
      → (revalidate_scope h scope_id generation p q t roots now w).0 ≡ ok u
      → IsLive now u
  revalidate_scope-IsLive scope_id generation w u e =
      (revalidate_scope-Returns scope_id generation w).at u e

  revalidate_scope_for_operation-Returns :
      (scope_id : String) (generation : ℕ) (required : String)
      → Returns
          (λ u _. IsLive now u × (contains u.allowed_operation_classes (strip required) ≡ true))
          (revalidate_scope_for_operation h scope_id generation p q t required roots now)
  unfolding revalidate_scope_for_operation
  revalidate_scope_for_operation-Returns scope_id generation required = Returns-rest _ _ _ λ _ w.
      Returns-bind _ w _ _ λ u e. Returns-throw_if _ _ _ _ _ λ passed.
        Returns-pure _ _ u
          (revalidate_scope-IsLive scope_id generation w u e, ground (arith, passed))

  -- A scope that `revalidate_scope_for_operation` returns is current, its deadline is after the
  -- time of the call, and the operation class that was asked for, stripped, is among those of
  -- the scope.
  pub revalidate_scope_for_operation-IsLive :
      (scope_id : String) (generation : ℕ) (required : String) (w : World) (u : MutationScopeRecord)
      → (revalidate_scope_for_operation h scope_id generation p q t required roots now w).0 ≡ ok u
      → IsLive now u × (contains u.allowed_operation_classes (strip required) ≡ true)
  revalidate_scope_for_operation-IsLive scope_id generation required w u e =
      (revalidate_scope_for_operation-Returns scope_id generation required w).at u e
