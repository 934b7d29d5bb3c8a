-- ===== src/Scope/History.antt =====
-- What every history of store calls preserves.
use mathlib.Core.Path.{subst}
use sentinelx_cloud_core.Base.{ℕ, String, Bool-cases, ◌≡◌, refl, true, false, some, inl, inr}
use sentinelx_cloud_core.Base.Result.{Result, ok, err}
use sentinelx_cloud_core.Base.Dict.{lookup}
use sentinelx_cloud_core.Host.{Host}
use sentinelx_cloud_core.Placement.{RepositoryIdentity, SemanticIdentity}
use sentinelx_cloud_core.Scope.Record.{MutationScopeRecord, is_current}
use sentinelx_cloud_core.Scope.Authority.{Document, absent, loaded, empty_state, get_record}
use sentinelx_cloud_core.Scope.Transaction.{start, or_empty}
use sentinelx_cloud_core.Scope.Runtime.{open_scope, read_scope}
use sentinelx_cloud_core.Scope.Admission.{read_bound_scope}
use sentinelx_cloud_core.Scope.Lifecycle.{
  Advances-current, Follows, IsExclusiveFile, IsExclusiveFile-loaded, IsExclusive, scope_of,
}
use sentinelx_cloud_core.Scope.Safe.{
  IsGood, IsSafe, loaded-IsGood, IsSafe-open_scope, IsSafe-throw_if, IsSafe-lift, IsSafe-pure,
  IsSafe-load_state, IsSafe-gets, IsSafe-lift_last,
}
use sentinelx_cloud_core.Scope.Durable.{
  IsKept, IsKept-refl, IsKept-trans, IsDurableAt, IsDurable-safe,
}
use sentinelx_cloud_core.Scope.RuntimeSafe.{
  reserve_sandbox_identity-IsSafe, bind_runtime_process-IsSafe, release_runtime_process-IsSafe,
  reserve_runtime_read_authority-IsSafe, clear_runtime_read_authority-IsSafe,
  reserve_session_object_read_binding-IsSafe, clear_session_object_read_binding-IsSafe,
  clear_sandbox_write_authority-IsSafe, revoke_scope-IsSafe,
}
use sentinelx_cloud_core.Scope.AdmissionSafe.{
  revalidate_scope-IsSafe, revalidate_scope_for_operation-IsSafe,
}
use sentinelx_cloud_core.Scope.ProvisionSafe.{provision_scope-IsDurable}
use sentinelx_cloud_core.Scope.TerminalizeSafe.{terminalize_scope-IsSafe}
use sentinelx_cloud_core.Scope.Calls.{
  Call, provision, revalidate, revalidate_for, read_bound, read, reserve_sandbox, bind_process,
  release_process, reserve_read, clear_read, reserve_session, clear_session, clear_write, revoke,
  terminalize, perform, after, IsAdmissible, Steps, here, next,
}

module _ (h : Host) where
  read_scope-IsSafe : (s : String) → IsSafe h (read_scope h s)
  unfolding read_scope open_scope
  read_scope-IsSafe s w =
      IsSafe-load_state h w _ λ d l. IsSafe-gets h _ _ _ (IsSafe-lift_last h _ _)

  read_bound_scope-IsSafe :
      (s : String) (g : ℕ) (q : RepositoryIdentity) (t : SemanticIdentity)
      → IsSafe h (read_bound_scope h s g q t)
  unfolding read_bound_scope
  read_bound_scope-IsSafe s g q t w = IsSafe-open_scope h w s _ λ d r l e.
      IsSafe-throw_if h _ _ _ _ λ _. IsSafe-lift h _ _ _ λ c _. IsSafe-throw_if h _ _ _ _ λ _.
        IsSafe-lift h _ _ _ λ m _. IsSafe-throw_if h _ _ _ _ λ _.
          IsSafe-throw_if h _ _ _ _
            λ _. IsSafe-lift h _ _ _ λ k _. IsSafe-throw_if h _ _ _ _ λ _. IsSafe-pure h _ r

  empty-IsExclusive : IsExclusive h empty_state
  unfolding get_record lookup
  empty-IsExclusive = record { at = λ i j a b fa fb la lb same. cc }

  absent-loaded : loaded absent ≡ ok empty_state
  unfolding loaded
  absent-loaded = refl

  or_empty-IsGood :
      (d : Document) (r : Result _ _)
      → loaded d ≡ r
      → IsGood h (record { document = d; state = or_empty r })
  unfolding get_record scope_of
  or_empty-IsGood d (ok s) e = loaded-IsGood h (start d) s e
  or_empty-IsGood d (err x) e = record {
    writable = tt;
    follows = λ j. rw (scope_of, e) tt;
    exclusive = λ x. empty-IsExclusive;
  }

  start-IsGood : (d : Document) → IsGood h (start d)
  start-IsGood d = or_empty-IsGood d (loaded d) refl

  perform-IsDurable :
      (c : Call) (d : Document) → IsAdmissible h d c → IsDurableAt h (start d) (perform h c)
  unfolding perform
  perform-IsDurable (provision root c classes now s w) d a =
      provision_scope-IsDurable h root c.policy c.repository c.semantic classes c.provider_roots now
        s w (start d) a
  perform-IsDurable (revalidate s g c now) d a =
      IsDurable-safe h _ _
        (revalidate_scope-IsSafe h c.policy c.repository c.semantic c.provider_roots now s g _)
  perform-IsDurable (revalidate_for s g c operation now) d a = IsDurable-safe h _ _ (
      revalidate_scope_for_operation-IsSafe h c.policy c.repository c.semantic c.provider_roots now
        s g operation _)
  perform-IsDurable (read_bound s g c) d a =
      IsDurable-safe h _ _ (read_bound_scope-IsSafe s g c.repository c.semantic _)
  perform-IsDurable (read s) d a = IsDurable-safe h _ _ (read_scope-IsSafe s _)
  perform-IsDurable (reserve_sandbox s g i) d a =
      IsDurable-safe h _ _ (reserve_sandbox_identity-IsSafe h s g i _)
  perform-IsDurable (bind_process s g i j p) d a =
      IsDurable-safe h _ _ (bind_runtime_process-IsSafe h s g i j p _)
  perform-IsDurable (release_process s g j p) d a =
      IsDurable-safe h _ _ (release_runtime_process-IsSafe h s g j p _)
  perform-IsDurable (reserve_read s g i root) d a =
      IsDurable-safe h _ _ (reserve_runtime_read_authority-IsSafe h s g i root _)
  perform-IsDurable (clear_read s g i root) d a =
      IsDurable-safe h _ _ (clear_runtime_read_authority-IsSafe h s g i root _)
  perform-IsDurable (reserve_session s g i b) d a =
      IsDurable-safe h _ _ (reserve_session_object_read_binding-IsSafe h s g i b a _)
  perform-IsDurable (clear_session s g i b) d a =
      IsDurable-safe h _ _ (clear_session_object_read_binding-IsSafe h s g i b _)
  perform-IsDurable (clear_write s g i) d a =
      IsDurable-safe h _ _ (clear_sandbox_write_authority-IsSafe h s g i _)
  perform-IsDurable (revoke s g) d a = IsDurable-safe h _ _ (revoke_scope-IsSafe h s g _)
  perform-IsDurable (terminalize s g c cleanup now) d a =
      IsDurable-safe h _ _
        (terminalize_scope-IsSafe h s g c.policy c.repository c.semantic cleanup now a _)

  after-IsKept : (c : Call) (d : Document) → IsAdmissible h d c → IsKept h d (after h c d)
  unfolding after
  after-IsKept c d a = (perform-IsDurable c d a).run (start-IsGood d)

  Steps-IsKept : {d e : Document} → Steps h d e → IsKept h d e
  Steps-IsKept (here) = IsKept-refl h _
  Steps-IsKept (next {d} {e} c a rest) = IsKept-trans h (after-IsKept c d a) (Steps-IsKept rest)

  -- A scope that a read of the file finds is found after any calls on the store whose callers
  -- keep to `IsAdmissible`, with the same sealed fields and digest, and at the same stage of its
  -- lifecycle or a later one.
  pub Steps-Follows :
      {d e : Document} (j : String) (r : MutationScopeRecord)
      → Steps h d e
      → scope_of h d j ≡ some r
      → Follows h (some r) (scope_of h e j)
  Steps-Follows {d} {e} j r steps found =
      subst (λ o. Follows h o (scope_of h e j)) found ((Steps-IsKept steps).evolves j)

  -- A scope that is not current (expired, revoked or terminal) is not current after any calls on
  -- the store whose callers keep to `IsAdmissible`.
  pub no_reactivation :
      {d e : Document} (j : String) (r u : MutationScopeRecord)
      → Steps h d e
      → scope_of h d j ≡ some r
      → scope_of h e j ≡ some u
      → is_current r ≡ false
      → is_current u ≡ false
  no_reactivation {d} {e} j r u steps found later dead =
      let a = subst (λ o. Follows h (some r) o) later (Steps-Follows j r steps found) in
      elim (Bool-cases (is_current u)) [
        | inl live ↦ cc (dead, Advances-current h r u a live)
        | inr over ↦ over
      ]

  absent-IsExclusiveFile : IsExclusiveFile h absent
  absent-IsExclusiveFile =
      IsExclusiveFile-loaded h absent empty_state absent-loaded empty-IsExclusive

  -- In a file that calls on the store made, starting from no file and with callers that keep to
  -- `IsAdmissible`, two current scopes that are bound to the same workspace are the same scope.
  pub exclusive_workspaces :
      {d : Document} (i j : String) (a b : MutationScopeRecord)
      → Steps h absent d
      → scope_of h d i ≡ some a
      → scope_of h d j ≡ some b
      → is_current a ≡ true
      → is_current b ≡ true
      → a.exact_workspace_digest ≡ b.exact_workspace_digest
      → i ≡ j
  exclusive_workspaces i j a b steps fa fb la lb same =
      ((Steps-IsKept steps).keeps absent-IsExclusiveFile).at i j a b fa fb la lb same
