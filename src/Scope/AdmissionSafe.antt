-- ===== src/Scope/AdmissionSafe.antt =====
-- Admission and revalidation keep the file an advance of what it was.
use mathlib.Core.Path.{subst, fun_ext}
use native.Mathlib.Nat.{le_refl}
use sentinelx_cloud_core.Base.{ℕ, ◌≤◌, String, ◌≡◌, refl, sym, leb}
use sentinelx_cloud_core.Base.{nat_eq, string_eq, option_eq, list_eq, arith, ◌&&◌}
use sentinelx_cloud_core.Base.{Bool, true, false, List, Bool-cases, inl, inr}
use sentinelx_cloud_core.Base.Result.{ok}
use sentinelx_cloud_core.Host.{Host, FilePath}
use sentinelx_cloud_core.Policy.{MutationExecutionPolicy}
use sentinelx_cloud_core.Placement.{RepositoryIdentity, SemanticIdentity, PlacementEvidence, evolve}
use sentinelx_cloud_core.Scope.Record.{MutationScopeRecord, is_current, is_known_state}
use sentinelx_cloud_core.Scope.Authority.{Authority, get_record}
use sentinelx_cloud_core.Scope.Transaction.{World, ◌>>=◌, when, write_state}
use sentinelx_cloud_core.Scope.Admission.{
  mark_expired_if_needed, placement_generation_state, revalidate_binding, revalidate_locked,
  write_if_moved, revalidate_scope, revalidate_scope_for_operation, retry_attempt,
}
use sentinelx_cloud_core.Scope.Stored.{stored, IsWritable, get_record-IsAccepted}
use sentinelx_cloud_core.Scope.Lifecycle.{stage, Follows-refl, IsExclusiveAt}
use sentinelx_cloud_core.Scope.Safe.{
  IsSafe, IsSafeAt, IsSafe-bind, IsSafe-bind_at, IsSafe-throw_if, IsSafe-lift, IsSafe-gets,
  IsSafe-pure, IsSafe-open_scope, IsSafe-reads, IsSafe-when, IsSafe-when_at, IsSafe-write,
  IsSafe-on_not_current, when-write_state,
}
use sentinelx_cloud_core.Scope.Update.{IsUpdate, IsSafe-put}
use sentinelx_cloud_core.Scope.RuntimeSafe.{IsAccepted-parts, update}

le-expired : (r : MutationScopeRecord) → is_current r ≡ true → stage r.state ≤ stage "expired"
unfolding stage is_current
le-expired r live = ground arith

module _ (h : Host) where
  pub placement_generation_state-IsWritable :
      (p : MutationExecutionPolicy) (w : World)
      → IsWritable w.state.placement_generation
      → IsWritable (placement_generation_state h p w).1.state.placement_generation
  unfolding placement_generation_state evolve
  placement_generation_state-IsWritable p w g = ground arith

  -- The scopes are left alone.
  placement_generation_state-scopes :
      (p : MutationExecutionPolicy) (w : World)
      → (placement_generation_state h p w).1.state.scopes ≡ w.state.scopes
  unfolding placement_generation_state
  placement_generation_state-scopes p w = ground arith

  placement_generation_state-document :
      (p : MutationExecutionPolicy) (w : World)
      → (placement_generation_state h p w).1.document ≡ w.document
  unfolding placement_generation_state
  placement_generation_state-document p w = ground arith

  pub placement_generation_state-stored :
      (p : MutationExecutionPolicy) (w : World) (j : String)
      → stored h (placement_generation_state h p w).1.state j ≡ stored h w.state j
  unfolding get_record
  placement_generation_state-stored p w j = rw placement_generation_state-scopes

  -- The record in hand survives the bookkeeping of the placement generation.
  pub get_record-advanced :
      (p : MutationExecutionPolicy) (w : World) (moved : Bool) (j : String)
      → get_record h (when moved write_state (placement_generation_state h p w).1).1.state j
        ≡ get_record h w.state j
  unfolding get_record
  get_record-advanced p w moved j =
      rw (when-write_state h moved (placement_generation_state h p w).1)
        (rw placement_generation_state-scopes)

  pub placement_generation_state-IsSafe :
      (p : MutationExecutionPolicy) → IsSafe h (placement_generation_state h p)
  placement_generation_state-IsSafe p w = record {
    run = λ g. record {
      good = record {
        writable = placement_generation_state-IsWritable p w g.writable;
        follows = λ j.
            rw (placement_generation_state-stored p w j, placement_generation_state-document p w)
              (g.follows j);
        exclusive = rw (placement_generation_state-document p w) (λ x. record {
          at =
              subst (IsExclusiveAt h) (sym (fun_ext (placement_generation_state-stored p w)))
                (g.exclusive x).at;
        });
      };
      evolves = λ j. rw (placement_generation_state-document p w) (Follows-refl h _);
      keeps = rw (placement_generation_state-document p w) (λ x. x);
    };
  }

  -- `_mark_expired_if_needed` moves a current scope on, and leaves any other alone.
  pub mark-IsUpdate :
      (s : Authority) (j : String) (r : MutationScopeRecord) (now : ℕ)
      → get_record h s j ≡ ok r
      → IsUpdate h r (mark_expired_if_needed r now)
  unfolding mark_expired_if_needed is_known_state
  mark-IsUpdate s j r now g =
      let parts = IsAccepted-parts h r (get_record-IsAccepted h s j r g).0 in
      elim (Bool-cases (is_current r && leb r.expires_at now)) [
        | inl late ↦ rw late (update h r (le-expired r (ground arith)) refl parts.0)
        | inr soon ↦ rw soon (update h r (le_refl _) parts.1 parts.0)
      ]

  -- The checks of a binding read only.
  revalidate_binding-reads :
      (r : MutationScopeRecord) (p : MutationExecutionPolicy) (q : RepositoryIdentity)
      (t : SemanticIdentity) (roots : List FilePath) (w : World)
      → (revalidate_binding h r p q t roots w).1 ≡ w
  unfolding revalidate_binding ◌>>=◌
  revalidate_binding-reads r p q t roots w = ground arith

  pub revalidate_locked-IsSafe :
      (r : MutationScopeRecord) (p : MutationExecutionPolicy) (q : RepositoryIdentity)
      (t : SemanticIdentity) (roots : List FilePath) (now : ℕ) (w : World) (j : String)
      → get_record h w.state j ≡ ok r
      → IsSafeAt h w (revalidate_locked h r p q t roots now)
  unfolding revalidate_locked
  revalidate_locked-IsSafe r p q t roots now w j g = IsSafe-lift h w _ _ λ _ _.
      IsSafe-bind h w _ _
        (IsSafe-when_at h w _ _ (λ _. IsSafe-put h w j r _ g (mark-IsUpdate w.state j r now g)))
        λ _ v. IsSafe-throw_if h v _ _ _ λ _.
          IsSafe-bind h v _ _ (placement_generation_state-IsSafe p v) λ (c, moved) x.
            IsSafe-bind h x _ _ (IsSafe-when h moved write_state (IsSafe-write h) x) λ _ y.
              IsSafe-throw_if h y _ _ _ λ _.
                IsSafe-reads h y _ _ (revalidate_binding-reads _ p q t roots y)
                  λ _ _. IsSafe-pure h y _

  write_if_moved-IsSafe :
      (r : MutationScopeRecord) (moved : Bool) → IsSafe h (write_if_moved h r moved)
  unfolding write_if_moved
  write_if_moved-IsSafe r moved w =
      IsSafe-gets h w _ _ (IsSafe-when h _ write_state (IsSafe-write h) w)

  module _ (p : MutationExecutionPolicy) (q : RepositoryIdentity) (t : SemanticIdentity)
      (roots : List FilePath) (now : ℕ) where
    pub revalidate_scope-IsSafe :
        (scope_id : String) (generation : ℕ)
        → IsSafe h (revalidate_scope h scope_id generation p q t roots now)
    unfolding revalidate_scope
    revalidate_scope-IsSafe scope_id generation w = IsSafe-open_scope h w scope_id _ λ s r l g.
        IsSafe-throw_if h _ _ _ _ λ _.
          IsSafe-bind h _ _ _
            (IsSafe-on_not_current h _ _ _ (revalidate_locked-IsSafe r p q t roots now _ scope_id g)
              (write_if_moved-IsSafe r false))
            λ (c, changed) v.
              IsSafe-bind h v _ _ (IsSafe-when h changed write_state (IsSafe-write h) v)
                λ _ x. IsSafe-pure h x c

    pub revalidate_scope_for_operation-IsSafe :
        (scope_id : String) (generation : ℕ) (required : String)
        → IsSafe h (revalidate_scope_for_operation h scope_id generation p q t required roots now)
    unfolding revalidate_scope_for_operation
    revalidate_scope_for_operation-IsSafe scope_id generation required w =
        IsSafe-throw_if h w _ _ _ λ _.
          IsSafe-bind h w _ _ (revalidate_scope-IsSafe scope_id generation w)
            λ r v. IsSafe-throw_if h v _ _ _ λ _. IsSafe-pure h v r

    pub retry_attempt-IsSafe :
        (found : String) (operations : List String) (e : PlacementEvidence) (key lease : String)
        (moved : Bool)
        → IsSafe h (retry_attempt h found p q t operations roots now e key lease moved)
    unfolding retry_attempt
    retry_attempt-IsSafe found operations e key lease moved w = IsSafe-gets h w _ _ (
        IsSafe-lift h w _ _ λ r g. IsSafe-throw_if h w _ _ _ λ _.
          IsSafe-bind_at h w _ _ (IsSafe-when h _ write_state (IsSafe-write h) w) λ _ _.
            IsSafe-throw_if h _ _ _ _ λ _.
              IsSafe-bind h _ _ _
                (IsSafe-on_not_current h _ _ _
                  (revalidate_locked-IsSafe r p q t roots now _ found (
                    subst (λ (s : Authority). get_record h s found ≡ ok r)
                      (sym (when-write_state h _ w)) g))
                  (write_if_moved-IsSafe r moved))
                λ (c, changed) v. IsSafe-throw_if h v _ _ _ λ _.
                  IsSafe-bind h v _ _ (IsSafe-when h _ write_state (IsSafe-write h) v)
                    λ _ x. IsSafe-pure h x c)
