-- ===== src/Scope/Minted.antt =====
-- A newly minted scope is returned only after the file holds it with its indexes.
use sentinelx_cloud_core.Base.{
  ◌≡◌, Bool, true, ◌&&◌, ◌==◌, ap, ◌∙◌, Option, none, some, String, string_eq, option_eq, eq_iff,
  option_beq_iff, arith,
}
use sentinelx_cloud_core.Base.Dict.{lookup}
use sentinelx_cloud_core.Base.Result.{ok}
use sentinelx_cloud_core.Host.{Host}
use sentinelx_cloud_core.Scope.Record.{MutationScopeRecord}
use sentinelx_cloud_core.Scope.Authority.{
  Authority, loaded, assert_index_binding, IndexValue, scope_ref, null_value, other_value,
  WorkspaceEntry, null_entry, no_mapping, bound, index_is, workspace_is,
}
use sentinelx_cloud_core.Scope.Transaction.{World}
use sentinelx_cloud_core.Scope.Admission.{confirm_scope, publish_scope, mint_scope}
use sentinelx_cloud_core.Scope.Lifecycle.{scope_of}
use sentinelx_cloud_core.Scope.Returns.{
  Returns, Returns-pure, Returns-rest, Returns-lift, Returns-read_back,
}
use sentinelx_cloud_core.Scope.Outcome.{held}

index_is-scope_ref :
    (o : Option IndexValue) (id : String) → index_is o id ≡ true → o ≡ some (scope_ref id)
index_is-scope_ref none id e = cc
index_is-scope_ref (some null_value) id e = cc
index_is-scope_ref (some other_value) id e = cc
index_is-scope_ref (some (scope_ref x)) id e = ap (λ t. some (scope_ref t)) ((eq_iff x id).0 e)

both : (a b : Bool) → (a && b) ≡ true → (a ≡ true) × (b ≡ true)
both a b e = ground arith

workspace_is-bound :
    (o : Option WorkspaceEntry) (lease id : String)
    → workspace_is o lease id ≡ true
    → o ≡ some (bound (some lease) (some id))
workspace_is-bound none lease id e = cc
workspace_is-bound (some null_entry) lease id e = cc
workspace_is-bound (some no_mapping) lease id e = cc
workspace_is-bound (some (bound l s)) lease id e =
    let (scope, key) = both (s == some id) (l == some lease) e in
    ap (λ t. some (bound t s)) ((option_beq_iff l (some lease)).0 key)
    ∙ ap (λ t. some (bound (some lease) t)) ((option_beq_iff s (some id)).0 scope)

-- The checks of `_assert_index_binding`, as what the three indexes hold.
pub record IsIndexed (s : Authority) (u : MutationScopeRecord) (lease_key : String) : Type 0 where
  pub lease : lookup lease_key s.leases ≡ some (scope_ref u.scope_id)
  pub attempt : lookup u.attempt_key s.attempts ≡ some (scope_ref u.scope_id)
  pub workspace :
      lookup u.exact_workspace_digest s.workspaces ≡ some (bound (some lease_key) (some u.scope_id))

assert_index_binding-parts :
    (s : Authority) (u : MutationScopeRecord) (lease_key : String)
    → assert_index_binding s u lease_key ≡ ok tt
    → (index_is (lookup lease_key s.leases) u.scope_id ≡ true)
      × (index_is (lookup u.attempt_key s.attempts) u.scope_id ≡ true)
      × (workspace_is (lookup u.exact_workspace_digest s.workspaces) lease_key u.scope_id ≡ true)
unfolding assert_index_binding
assert_index_binding-parts s u lease_key e = ground arith

assert_index_binding-IsIndexed :
    (s : Authority) (u : MutationScopeRecord) (lease_key : String)
    → assert_index_binding s u lease_key ≡ ok tt
    → IsIndexed s u lease_key
assert_index_binding-IsIndexed s u lease_key e =
    let (a, b, c) = assert_index_binding-parts s u lease_key e in
    record {
      lease = index_is-scope_ref (lookup lease_key s.leases) u.scope_id a;
      attempt = index_is-scope_ref (lookup u.attempt_key s.attempts) u.scope_id b;
      workspace =
          workspace_is-bound (lookup u.exact_workspace_digest s.workspaces) lease_key u.scope_id c;
    }

module _ (h : Host) where
  -- What a new scope promises: the file holds it, and the lease, Attempt and workspace indexes of
  -- the file name it.
  pub record IsMinted (r u : MutationScopeRecord) (v : World) : Type 0 where
    pub state : Authority
    pub is_loaded : loaded v.document ≡ ok state
    pub is_held : scope_of h v.document r.scope_id ≡ some u
    pub is_indexed : IsIndexed state u r.unique_lease_key

  confirm_scope-IsMinted : (r : MutationScopeRecord) → Returns (IsMinted r) (confirm_scope h r)
  unfolding confirm_scope
  confirm_scope-IsMinted r = Returns-rest _ _ _ λ _ w. Returns-read_back _ w _ λ s l.
      Returns-lift _ w _ _ λ u g. Returns-lift _ w _ _ λ _ i. Returns-pure _ w u (record {
        state = s;
        is_loaded = l;
        is_held = held h w s r.scope_id u l g;
        is_indexed = assert_index_binding-IsIndexed s u r.unique_lease_key i;
      })

  mint_scope-Returns :
      (r : MutationScopeRecord) (moved : Bool) → Returns (IsMinted r) (mint_scope h r moved)
  unfolding mint_scope publish_scope
  mint_scope-Returns r moved = Returns-rest _ _ _ λ _. Returns-rest _ _ _ λ _.
      Returns-rest _ _ _ λ _. Returns-rest _ _ _ λ _. Returns-rest _ _ _ λ _.
        Returns-rest _ _ _
          λ _. Returns-rest _ _ _ λ _. Returns-rest _ _ _ λ _. confirm_scope-IsMinted r

  -- A record that `mint_scope` returns is in the file under the identifier of the new scope, and
  -- the indexes of the file name it: its lease key and its Attempt key are mapped to its identifier,
  -- and its workspace digest to its lease key and its identifier.
  pub mint_scope-IsMinted :
      (r : MutationScopeRecord) (moved : Bool) (w : World) (u : MutationScopeRecord)
      → (mint_scope h r moved w).0 ≡ ok u
      → IsMinted r u (mint_scope h r moved w).1
  mint_scope-IsMinted r moved w u e = (mint_scope-Returns r moved w).at u e
