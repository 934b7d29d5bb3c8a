-- ===== src/Scope/ProvisionSafe.antt =====
-- `provision_scope` keeps the file an advance of what it was, if its new identifier is fresh.
use mathlib.Core.Path.{subst}
use sentinelx_cloud_core.Base.{ℕ, String, ◌≡◌, refl, sym, ap, ◌∙◌, ◌==◌, string_eq, eq_iff}
use sentinelx_cloud_core.Base.{Bool, Option, none, some, List, Bool-cases, inl, inr}
use sentinelx_cloud_core.Base.Result.{ok, Result-cases}
use sentinelx_cloud_core.Host.{Host, FilePath}
use sentinelx_cloud_core.Policy.{MutationExecutionPolicy}
use sentinelx_cloud_core.Placement.{RepositoryIdentity, SemanticIdentity, PlacementEvidence}
use sentinelx_cloud_core.Scope.Record.{MutationScopeRecord}
use sentinelx_cloud_core.Scope.Authority.{
  Authority, IndexValue, scope_ref, null_value, other_value, WorkspaceEntry, null_entry, no_mapping,
  bound, get_record, put_record, assert_index_binding, assert_no_competing_nonterminal,
}
use sentinelx_cloud_core.Scope.Transaction.{World, ◌>>=◌, write_state}
use sentinelx_cloud_core.Scope.Admission.{
  enter_scope, mint_scope, publish_scope, confirm_scope, reject_workspace, admit, provision_scope,
}
use sentinelx_cloud_core.Scope.Stored.{stored, stored-put_record_ne}
use sentinelx_cloud_core.Scope.Lifecycle.{
  Follows, Follows-refl, Follows-trans, scope_of, scope_of-loaded,
}
use sentinelx_cloud_core.Scope.Safe.{
  IsGood, IsSafe, IsSafe-bind, IsSafe-lift, IsSafe-pure, IsSafe-when, IsSafe-write,
  IsSafe-read_back, when-write_state,
}
use sentinelx_cloud_core.Scope.Exclusive.{entered-IsExclusive}
use sentinelx_cloud_core.Scope.Durable.{
  IsDurableAt, IsDurable-safe, IsDurable-same, IsDurable-raise, IsDurable-bind_at, same-durable,
  IsDurable-reads, IsDurable-throw_if, IsDurable-lift, IsDurable-gets, IsDurable-load_state,
}
use sentinelx_cloud_core.Scope.AdmissionSafe.{
  placement_generation_state-IsSafe, placement_generation_state-stored, retry_attempt-IsSafe,
}

module _ (h : Host) where
  -- A scope that was not there follows nothing.
  Follows-none : (a b : Option MutationScopeRecord) → a ≡ none → Follows h a b
  Follows-none a b e = subst (λ o. Follows h o b) (sym e) tt

  enter_scope-Follows :
      (s : Authority) (r : MutationScopeRecord)
      → stored h s r.scope_id ≡ none
      → (i : String) → Follows h (stored h s i) (stored h (enter_scope h r s) i)
  unfolding enter_scope get_record
  enter_scope-Follows s r fresh i = elim (Bool-cases (r.scope_id == i)) [
    | inl same ↦
        Follows-none _ _ (ap (λ k. stored h s k) (sym ((eq_iff r.scope_id i).0 same)) ∙ fresh)
    | inr other ↦
        subst (λ o. Follows h (stored h s i) o) (sym (stored-put_record_ne h s r i other))
          (Follows-refl h (stored h s i))
  ]

  -- Once no scope competes with the new one, the dictionary with its entry is an advance of the
  -- file, with the workspaces of the current scopes distinct.
  entered-IsGood :
      (w : World) (r : MutationScopeRecord)
      → stored h w.state r.scope_id ≡ none
      → assert_no_competing_nonterminal h (enter_scope h r w.state) r ≡ ok tt
      → IsGood h w
      → IsGood h (record w { state = enter_scope h r w.state })
  unfolding enter_scope assert_no_competing_nonterminal put_record get_record
  entered-IsGood w r fresh free g = record {
    writable = g.writable;
    follows = λ i.
        Follows-trans h (scope_of h w.document i) _ _ (g.follows i)
          (enter_scope-Follows w.state r fresh i);
    exclusive = λ x. record { at = (entered-IsExclusive h w.state r free (g.exclusive x)).at };
  }

  confirm_scope-IsSafe : (r : MutationScopeRecord) → IsSafe h (confirm_scope h r)
  unfolding confirm_scope
  confirm_scope-IsSafe r w = IsSafe-bind h w _ _ (IsSafe-write h w) λ _ x.
      IsSafe-bind h x _ _ (IsSafe-read_back h x)
        λ _ y. IsSafe-lift h y _ _ λ c _. IsSafe-lift h y _ _ λ _ _. IsSafe-pure h y c

  publish_scope-IsDurable :
      (r : MutationScopeRecord) (w : World)
      → stored h w.state r.scope_id ≡ none
      → IsDurableAt h w (publish_scope h r)
  unfolding publish_scope ◌>>=◌
  publish_scope-IsDurable r w fresh =
      elim (Result-cases (assert_index_binding (enter_scope h r w.state) r r.unique_lease_key)) [
        | inr (x, e) ↦ IsDurable-same h w _ (rw e)
        | inl (u, e) ↦
            elim (Result-cases (assert_no_competing_nonterminal h (enter_scope h r w.state) r)) [
              | inr (x, f) ↦ IsDurable-same h w _ (rw (e, f))
              | inl (v, f) ↦
                  same-durable h w (record w { state = enter_scope h r w.state }) _
                    (confirm_scope h r) (rw (e, f)) refl (entered-IsGood w r fresh f)
                    (IsDurable-safe h _ (confirm_scope h r) (confirm_scope-IsSafe r _))
            ]
      ]

  reject_workspace-reads : (o : Option WorkspaceEntry) (w : World) → (reject_workspace o w).1 ≡ w
  unfolding reject_workspace ◌>>=◌
  reject_workspace-reads none w = refl
  reject_workspace-reads (some null_entry) w = refl
  reject_workspace-reads (some no_mapping) w = refl
  reject_workspace-reads (some (bound l s)) w = refl

  mint_scope-IsDurable :
      (r : MutationScopeRecord) (moved : Bool) (w : World)
      → stored h w.state r.scope_id ≡ none
      → IsDurableAt h w (mint_scope h r moved)
  unfolding mint_scope
  mint_scope-IsDurable r moved w fresh = IsDurable-gets h w _ _ (
      IsDurable-bind_at h w _ _ (IsSafe-when h _ write_state (IsSafe-write h) w) λ _ _.
        IsDurable-throw_if h _ _ _ _ λ _.
          IsDurable-reads h _ _ _ (reject_workspace-reads _ _) λ _ _. publish_scope-IsDurable r _ (
            subst (λ (s : Authority). stored h s r.scope_id ≡ none) (sym (when-write_state h _ w))
              fresh))

  admit-IsDurable :
      (o : Option IndexValue) (p : MutationExecutionPolicy) (q : RepositoryIdentity)
      (t : SemanticIdentity) (operations : List String) (roots : List FilePath) (now : ℕ)
      (e : PlacementEvidence) (key lease : String) (moved : Bool) (r : MutationScopeRecord)
      (w : World)
      → stored h w.state r.scope_id ≡ none
      → IsDurableAt h w (admit h o p q t operations roots now e key lease moved r)
  unfolding admit
  admit-IsDurable none p q t operations roots now e key lease moved r w fresh =
      mint_scope-IsDurable r moved w fresh
  admit-IsDurable (some null_value) p q t operations roots now e key lease moved r w fresh =
      mint_scope-IsDurable r moved w fresh
  admit-IsDurable (some other_value) p q t operations roots now e key lease moved r w fresh =
      IsDurable-raise h w _
  admit-IsDurable (some (scope_ref found)) p q t operations roots now e key lease moved r w fresh =
      IsDurable-safe h w _
        (retry_attempt-IsSafe h p q t roots now found operations e key lease moved w)

  -- A file that can be read, and holds no scope of that name.
  abbrev pub IsFresh : World → String → Type 0
  IsFresh w scope_id = scope_of h w.document scope_id ≡ none

  pub provision_scope-IsDurable :
      (root : FilePath) (p : MutationExecutionPolicy) (q : RepositoryIdentity)
      (t : SemanticIdentity) (classes : List String) (roots : List FilePath) (now : ℕ)
      (scope_id workspace_id : String) (w : World)
      → IsFresh w scope_id
      → IsDurableAt h w (provision_scope h root p q t classes roots now scope_id workspace_id)
  unfolding provision_scope
  provision_scope-IsDurable root p q t classes roots now scope_id workspace_id w fresh =
      IsDurable-lift h w _ _ λ operations _. IsDurable-load_state h w _ λ s l.
        IsDurable-bind_at h _ _ _ (placement_generation_state-IsSafe h p _) λ (generation, moved) _.
          IsDurable-lift h _ _ _ λ e _. IsDurable-lift h _ _ _ λ key _.
            IsDurable-lift h _ _ _ λ lease _.
              IsDurable-bind_at h _ _ _ (IsSafe-when h _ write_state (IsSafe-write h) _) λ _ _.
                IsDurable-throw_if h _ _ _ _ λ _. IsDurable-gets h _ _ _ (
                  admit-IsDurable _ p q t operations roots now e key lease moved _ _ (
                    subst (λ (a : Authority). stored h a scope_id ≡ none)
                      (sym (when-write_state h _ _))
                      (placement_generation_state-stored h p _ scope_id
                        ∙ (sym (scope_of-loaded h w.document s scope_id l) ∙ fresh))))
