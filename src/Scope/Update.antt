-- ===== src/Scope/Update.antt =====
-- The replacement of one record by an advance of it keeps the file an advance of what it was.
use mathlib.Core.Path.{subst}
use mathlib.Core.Option.{some-injective}
use sentinelx_cloud_core.Base.{String, ◌≡◌, sym, ◌==◌, string_eq, true}
use sentinelx_cloud_core.Base.{some, eq_iff, Bool-cases, inl, inr, ap, ◌∙◌}
use sentinelx_cloud_core.Base.Result.{ok}
use sentinelx_cloud_core.Host.{Host}
use sentinelx_cloud_core.Scope.Record.{MutationScopeRecord, is_known_state, stored_binding_accepted}
use sentinelx_cloud_core.Scope.Authority.{Authority, put_record, get_record}
use sentinelx_cloud_core.Scope.Transaction.{World, read_back, put, write_state}
use sentinelx_cloud_core.Scope.Runtime.{commit}
use sentinelx_cloud_core.Scope.Stored.{
  stored, IsAccepted, stored-put_record, stored-put_record_ne, get_record-IsAccepted,
  update-IsAccepted, to_option,
}
use sentinelx_cloud_core.Scope.Lifecycle.{
  Advances, Advances-refl, Advances-current, Advances-workspace, Follows, Follows-refl,
  Follows-trans, scope_of, IsExclusive,
}
use sentinelx_cloud_core.Scope.Safe.{
  IsSafeAt, IsSafe-bind, IsSafe-write, IsSafe-read_back, IsSafe-lift_last,
}

module _ (h : Host) where
  -- `u` replaces `r`: the same scope, sealed alike, no earlier in its lifecycle and well formed.
  pub record IsUpdate (r u : MutationScopeRecord) : Type 0 where
    pub advances : Advances h r u
    pub same_id : u.scope_id ≡ r.scope_id
    pub binding : stored_binding_accepted u.session_object_read_binding ≡ true
    pub known : is_known_state u.state ≡ true

  module _ (s : Authority) (j : String) (r u : MutationScopeRecord) (e : get_record h s j ≡ ok r)
      (up : IsUpdate r u) where
    fits : IsAccepted h u
    fits =
        update-IsAccepted h r u (get_record-IsAccepted h s j r e).0 up.advances.payload
          up.advances.digest up.binding up.known

    replaced : (i : String) → (u.scope_id == i) ≡ true → stored h s i ≡ some r
    replaced i same =
        ap (λ k. stored h s k)
          (sym ((eq_iff u.scope_id i).0 same) ∙ (up.same_id ∙ (get_record-IsAccepted h s j r e).1))
        ∙ ap to_option e

    pub put_record-Follows : (i : String) → Follows h (stored h s i) (stored h (put_record s u) i)
    put_record-Follows i =
        rw (stored-put_record h s u i fits) (elim (Bool-cases (u.scope_id == i)) [
          | inl same ↦ rw (same, replaced i same) up.advances
          | inr other ↦ rw other (Follows-refl h (stored h s i))
        ])

    -- What is stored after the replacement advances what was stored before.
    put_record-back :
        (i : String) (a : MutationScopeRecord)
        → stored h (put_record s u) i ≡ some a
        → (b : MutationScopeRecord) × (stored h s i ≡ some b) × Advances h b a
    put_record-back i a found = elim (Bool-cases (u.scope_id == i)) [
      | inl same ↦ (
        r,
        replaced i same,
        subst (Advances h r)
            (some-injective u a (sym (stored-put_record h s u i fits ∙ (rw same)) ∙ found))
            up.advances,
      )
      | inr other ↦ (a, sym (stored-put_record_ne h s u i other) ∙ found, Advances-refl h a)
    ]

    pub put_record-IsExclusive : IsExclusive h s → IsExclusive h (put_record s u)
    put_record-IsExclusive x = record {
      at = λ i k a b fa fb la lb same.
          let (a', ga, ma) = put_record-back i a fa in
          let (b', gb, mb) = put_record-back k b fb in
          x.at i k a' b' ga gb (Advances-current h a' a ma la) (Advances-current h b' b mb lb)
            (sym (Advances-workspace h a' a ma) ∙ (same ∙ Advances-workspace h b' b mb));
    }

  pub IsSafe-put :
      (w : World) (j : String) (r u : MutationScopeRecord)
      → get_record h w.state j ≡ ok r
      → IsUpdate r u
      → IsSafeAt h w (put u)
  unfolding put_record put
  IsSafe-put w j r u e up = record {
    run = λ g. record {
      good = record {
        writable = g.writable;
        follows = λ i.
            Follows-trans h (scope_of h w.document i) _ _ (g.follows i)
              (put_record-Follows w.state j r u e up i);
        exclusive = λ x. put_record-IsExclusive w.state j r u e up (g.exclusive x);
      };
      evolves = λ i. Follows-refl h (scope_of h w.document i);
      keeps = λ x. x;
    };
  }

  pub IsSafe-commit :
      (w : World) (j : String) (r u : MutationScopeRecord)
      → get_record h w.state j ≡ ok r
      → IsUpdate r u
      → IsSafeAt h w (commit h j u)
  unfolding commit
  IsSafe-commit w j r u e up = IsSafe-bind h w (put u) _ (IsSafe-put w j r u e up) λ _ v.
      IsSafe-bind h v write_state _ (IsSafe-write h v) λ _ x.
        IsSafe-bind h x read_back _ (IsSafe-read_back h x)
          λ s y. IsSafe-lift_last h y (get_record h s j)
