-- ===== src/Scope/Reserved.antt =====
-- What a sandbox reservation and a revocation promise when they return.
use mathlib.Core.Path.{subst}
use sentinelx_cloud_core.Base.{ℕ, String, ◌≡◌, refl, sym, ◌==◌, string_eq, eq_iff, arith}
use sentinelx_cloud_core.Base.{option_eq, true, false, some}
use sentinelx_cloud_core.Base.Result.{ok}
use sentinelx_cloud_core.Base.Text.{strip}
use sentinelx_cloud_core.Errors.{corrupt}
use sentinelx_cloud_core.Host.{Host}
use sentinelx_cloud_core.Scope.Record.{MutationScopeRecord, is_current, is_known_state}
use sentinelx_cloud_core.Scope.Authority.{Authority, written, put_record, get_record}
use sentinelx_cloud_core.Scope.Transaction.{World, ◌>>=◌, pure, throw_if, put, write_state}
use sentinelx_cloud_core.Scope.Runtime.{commit, revoke_scope, reserve_sandbox_identity, not_sandbox}
use sentinelx_cloud_core.Scope.Stored.{
  IsAccepted, IsWritable, loaded-IsWritable, get_record-IsAccepted, update-IsAccepted,
}
use sentinelx_cloud_core.Scope.RuntimeSafe.{IsAccepted-parts, update, le-revoked}
use sentinelx_cloud_core.Scope.Returns.{
  ReturnsAt, Returns, Returns-pure, Returns-bind, Returns-rest, Returns-throw_if, Returns-read_back,
  Returns-if, Returns-lift_last, Returns-open_scope,
}
use sentinelx_cloud_core.Scope.Outcome.{IsHeld, held, read_back-put}

terminal-ended : (r : MutationScopeRecord) → (r.state == "terminal") ≡ true → is_current r ≡ false
unfolding is_current
terminal-ended r over = rw ((eq_iff r.state "terminal").0 over)

module _ (h : Host) where
  -- What a reservation of a sandbox identity promises of its result.
  pub record IsReserved (j identity : String) (u : MutationScopeRecord) (v : World) : Type 0 where
    pub bound : u.sandbox_identity ≡ some identity
    pub writes : u.sandbox_write_authority_present ≡ true
    pub is_held : IsHeld h j u v

  commit-IsHeld : (j : String) (u : MutationScopeRecord) → Returns (IsHeld h j) (commit h j u)
  unfolding commit
  commit-IsHeld j u = Returns-rest _ _ _ λ _.
      Returns-rest _ _ _
        λ _ w. Returns-read_back _ w _ λ s l. Returns-lift_last _ w _ λ c g. held h w s j c l g

  confirm-IsReserved :
      (j identity : String) (u : MutationScopeRecord)
      → Returns
          (IsReserved j identity)
          (commit h j u >>= λ c. throw_if (not_sandbox c identity) corrupt >>= λ _. pure c)
  confirm-IsReserved j identity u w = Returns-bind _ w _ _ λ c e.
      Returns-throw_if _ _ _ _ _ λ passed. Returns-pure _ _ c (record {
        bound =
            (option_eq.agrees_iff c.sandbox_identity (some identity)).0 (ground (arith, passed));
        writes = ground (arith, passed);
        is_held = (commit-IsHeld j u w).at c e;
      })

  reserve_sandbox_identity-Returns :
      (j : String) (generation : ℕ) (given : String)
      → Returns (IsReserved j (strip given)) (reserve_sandbox_identity h j generation given)
  unfolding reserve_sandbox_identity
  reserve_sandbox_identity-Returns j generation given = Returns-rest _ _ _ λ _.
      Returns-rest _ _ _ λ r.
        Returns-rest _ _ _
          λ _. Returns-rest _ _ _ λ _. Returns-rest _ _ _ λ _. confirm-IsReserved j (strip given) _

  -- A `reserve_sandbox_identity` that returns has bound the scope to the stripped identity with
  -- sandbox write authority, and the file holds the record that it returns.
  pub reserve_sandbox_identity-IsReserved :
      (j : String) (generation : ℕ) (given : String) (w : World) (u : MutationScopeRecord)
      → (reserve_sandbox_identity h j generation given w).0 ≡ ok u
      → IsReserved j (strip given) u (reserve_sandbox_identity h j generation given w).1
  reserve_sandbox_identity-IsReserved j generation given w u e =
      (reserve_sandbox_identity-Returns j generation given w).at u e

  -- What a revocation promises of its result.
  pub record IsRevoked (j : String) (u : MutationScopeRecord) (v : World) : Type 0 where
    pub ended : is_current u ≡ false
    pub is_held : IsHeld h j u v

  commit-IsExact :
      (j : String) (u : MutationScopeRecord) (w : World)
      → IsWritable w.state.placement_generation
      → IsAccepted h u
      → u.scope_id ≡ j
      → ReturnsAt (λ c _. c ≡ u) w (commit h j u)
  unfolding commit put write_state
  commit-IsExact j u w wr fits same =
      let v = record w {
        state = put_record w.state u;
        document = written (put_record w.state u);
      } in
      Returns-bind _ w _ _ λ _ _. Returns-bind _ _ _ _ λ _ _.
        Returns-read_back _ v _
          λ s l. Returns-lift_last _ v _ λ c g. read_back-put h w.state s j u c wr fits same l g

  revoke-IsAccepted :
      (s : Authority) (j : String) (r : MutationScopeRecord)
      → get_record h s j ≡ ok r
      → (r.state == "terminal") ≡ false
      → IsAccepted h (record r { state = "revoked" })
  unfolding is_known_state
  revoke-IsAccepted s j r found live =
      let fits = (get_record-IsAccepted h s j r found).0 in
      let parts = IsAccepted-parts h r fits in
      let up = update h r (le-revoked r live parts.1) refl parts.0 in
      update-IsAccepted h r _ fits up.advances.payload up.advances.digest up.binding up.known

  revoke_scope-Returns :
      (j : String) (generation : ℕ) → Returns (IsRevoked j) (revoke_scope h j generation)
  unfolding revoke_scope is_current
  revoke_scope-Returns j generation w = Returns-open_scope _ h w j _ λ s r l g.
      Returns-throw_if _ _ _ _ _ λ _.
        Returns-if _ _ _ _ _
          (λ over. Returns-pure _ _ r (record {
            ended = terminal-ended r over;
            is_held = held h (record w { state = s }) s j r l g;
          }))
          λ live. record {
            at = λ c e. record {
              ended =
                  subst (λ (x : MutationScopeRecord). is_current x ≡ false)
                    (sym (
                      (commit-IsExact j (record r { state = "revoked" }) (record w { state = s })
                          (loaded-IsWritable w.document s l) (revoke-IsAccepted s j r g live)
                          (get_record-IsAccepted h s j r g).1).at
                        c e))
                    refl;
              is_held = (commit-IsHeld j _ _).at c e;
            };
          }

  -- A `revoke_scope` that returns leaves in the file a scope that is not current: revoked, or
  -- terminal if it was terminal before.
  pub revoke_scope-IsRevoked :
      (j : String) (generation : ℕ) (w : World) (u : MutationScopeRecord)
      → (revoke_scope h j generation w).0 ≡ ok u
      → IsRevoked j u (revoke_scope h j generation w).1
  revoke_scope-IsRevoked j generation w u e = (revoke_scope-Returns j generation w).at u e
