-- ===== src/Scope/Outcome.antt =====
-- What a terminalization promises when it returns.
use mathlib.Core.Path.{subst}
use mathlib.Core.Option.{some-injective}
use sentinelx_cloud_core.Base.{ℕ, String, ◌≡◌, refl, sym, ap, ◌∙◌, ◌==◌, string_eq, eq_iff, arith}
use sentinelx_cloud_core.Base.{option_eq, true, false, Option, none, some}
use sentinelx_cloud_core.Base.Result.{Result, ok}
use sentinelx_cloud_core.Errors.{Error}
use sentinelx_cloud_core.Host.{Host}
use sentinelx_cloud_core.Policy.{MutationExecutionPolicy}
use sentinelx_cloud_core.Placement.{RepositoryIdentity, SemanticIdentity}
use sentinelx_cloud_core.Scope.Record.{
  MutationScopeRecord, MutationRuntimeClosure, is_known_state, has_runtime_authority,
}
use sentinelx_cloud_core.Scope.Authority.{Authority, loaded, written, put_record, get_record}
use sentinelx_cloud_core.Scope.Transaction.{World, put, write_state}
use sentinelx_cloud_core.Scope.Terminalize.{
  Cleanup, close_directly, close_revoked, close_runtime, terminalize_scope,
}
use sentinelx_cloud_core.Scope.Stored.{
  stored, IsAccepted, IsWritable, loaded-IsWritable, loaded-written, stored-put_record,
  get_record-IsAccepted, to_option, update-IsAccepted,
}
use sentinelx_cloud_core.Scope.Lifecycle.{scope_of, scope_of-loaded}
use sentinelx_cloud_core.Scope.Safe.{when-write_state}
use sentinelx_cloud_core.Scope.RuntimeSafe.{IsAccepted-parts, update}
use sentinelx_cloud_core.Scope.AdmissionSafe.{
  placement_generation_state-IsWritable, get_record-advanced,
}
use sentinelx_cloud_core.Scope.TerminalizeSafe.{le-terminal, validate_sealed_binding-reads}
use sentinelx_cloud_core.Scope.Returns.{
  ReturnsAt, Returns, Returns-pure, Returns-raise, Returns-bind, Returns-rest, Returns-throw_if,
  Returns-lift, Returns-read_back, Returns-if, Returns-reads, Returns-open_scope,
}

ok-injective : {A : Type 0} (a b : A) → ◌≡◌ {A = Result Error A} (ok a) (ok b) → a ≡ b
ok-injective a b e = some-injective a b (ap to_option e)

module _ (h : Host) where
  -- The file holds the record that a call returned.
  abbrev pub IsHeld : String → MutationScopeRecord → World → Type 0
  IsHeld j u v = scope_of h v.document j ≡ some u

  pub held :
      (v : World) (s : Authority) (j : String) (u : MutationScopeRecord)
      → loaded v.document ≡ ok s
      → get_record h s j ≡ ok u
      → IsHeld j u v
  held v s j u l g = scope_of-loaded h v.document s j l ∙ ap to_option g

  -- What a terminalization promises of its result.
  pub record IsTerminal (j : String) (u : MutationScopeRecord) (v : World) : Type 0 where
    pub state : (u.state == "terminal") ≡ true
    pub no_authority : has_runtime_authority u ≡ false
    pub is_held : IsHeld j u v

  close_revoked-IsTerminal :
      (j : String) (generation : ℕ) (q : RepositoryIdentity) (t : SemanticIdentity) (now : ℕ)
      (revoked : MutationScopeRecord) (c : MutationRuntimeClosure)
      → Returns (IsTerminal j) (close_revoked h j generation q t now revoked c)
  unfolding close_revoked
  close_revoked-IsTerminal j generation q t now revoked c = Returns-rest _ _ _ λ r.
      Returns-rest _ _ _ λ lease. Returns-rest _ _ _ λ _. Returns-rest _ _ _ λ _.
        Returns-rest _ _ _ λ _. Returns-rest _ _ _ λ _ w. Returns-read_back _ w _ λ s l.
          Returns-lift _ w _ _ λ u g. Returns-throw_if _ w _ _ _ λ passed.
            Returns-lift _ w _ _ λ _ _. Returns-lift _ w _ _ λ _ _. Returns-pure _ w u (record {
              state = ground (arith, passed);
              no_authority = ground (arith, passed);
              is_held = held w s j u l g;
            })

  -- What is read back after a record was put and the file written is that record.
  pub read_back-put :
      (s t : Authority) (j : String) (u c : MutationScopeRecord)
      → IsWritable s.placement_generation
      → IsAccepted h u
      → u.scope_id ≡ j
      → loaded (written (put_record s u)) ≡ ok t
      → get_record h t j ≡ ok c
      → c ≡ u
  unfolding put_record
  read_back-put s t j u c wr fits same l g =
      let put_back = ok-injective t (put_record s u) (sym l ∙ loaded-written (put_record s u) wr) in
      some-injective c u (
        sym (ap to_option g)
        ∙ (ap (λ x. stored h x j) put_back
            ∙ (stored-put_record h s u j fits ∙ (rw ((eq_iff u.scope_id j).1 same)))))

  -- A record of the store, moved to its last stage.
  close-IsAccepted :
      (s : Authority) (j : String) (r : MutationScopeRecord) (now : ℕ)
      → get_record h s j ≡ ok r
      → IsAccepted h (record r { state = "terminal"; terminalized_at = some now })
  unfolding is_known_state
  close-IsAccepted s j r now found =
      let fits = (get_record-IsAccepted h s j r found).0 in
      let up = update h r (le-terminal r.state) refl (IsAccepted-parts h r fits).0 in
      update-IsAccepted h r _ fits up.advances.payload up.advances.digest up.binding up.known

  close_directly-IsTerminal :
      (j : String) (r : MutationScopeRecord) (lease : String) (now : ℕ) (w : World)
      → IsWritable w.state.placement_generation
      → get_record h w.state j ≡ ok r
      → has_runtime_authority r ≡ false
      → ReturnsAt (IsTerminal j) w (close_directly h j r lease now)
  unfolding close_directly put write_state has_runtime_authority
  close_directly-IsTerminal j r lease now w wr found free =
      let closed = record r { state = "terminal"; terminalized_at = some now } in
      let v = record w {
        state = put_record w.state closed;
        document = written (put_record w.state closed);
      } in
      Returns-bind _ w _ _ λ _ _. Returns-bind _ _ _ _ λ _ _. Returns-read_back _ v _ λ s l.
        Returns-lift _ v _ _ λ u g. Returns-throw_if _ v _ _ _ λ passed. Returns-lift _ v _ _ λ _ _.
          Returns-pure _ v u (record {
            state = ground (arith, passed);
            no_authority =
                subst (λ (x : MutationScopeRecord). has_runtime_authority x ≡ false)
                  (sym (
                    read_back-put w.state s j closed u wr (close-IsAccepted w.state j r now found)
                      (get_record-IsAccepted h w.state j r found).1 l g))
                  free;
            is_held = held v s j u l g;
          })

  close_runtime-IsTerminal :
      (j : String) (generation : ℕ) (q : RepositoryIdentity) (t : SemanticIdentity) (now : ℕ)
      (cleanup : Option Cleanup) (r : MutationScopeRecord)
      → Returns (IsTerminal j) (close_runtime h j generation q t now cleanup r)
  unfolding close_runtime
  close_runtime-IsTerminal j generation q t now none r w = Returns-raise _ w _
  close_runtime-IsTerminal j generation q t now (some f) r w =
      (Returns-rest _ _ _ λ revoked.
          Returns-rest _ _ _
            λ o. Returns-rest _ _ _ λ c. close_revoked-IsTerminal j generation q t now revoked c)
        w

  terminalize_scope-Returns :
      (j : String) (generation : ℕ) (p : MutationExecutionPolicy) (q : RepositoryIdentity)
      (t : SemanticIdentity) (cleanup : Option Cleanup) (now : ℕ)
      → Returns (IsTerminal j) (terminalize_scope h j generation p q t cleanup now)
  unfolding terminalize_scope
  terminalize_scope-Returns j generation p q t cleanup now w =
      Returns-open_scope _ h w j _ λ s r l g. Returns-bind _ _ _ _ λ (current, moved) _.
        Returns-reads _ _ _ _ (validate_sealed_binding-reads h r generation q t _) λ lease _.
          Returns-bind _ _ _ _ λ _ _.
            Returns-if _ _ _ _ _ (λ _. close_runtime-IsTerminal j generation q t now cleanup r _)
              λ free.
                close_directly-IsTerminal j r lease now _
                  (subst (λ (a : Authority). IsWritable a.placement_generation)
                    (sym (when-write_state h moved _))
                    (placement_generation_state-IsWritable h p _
                      (loaded-IsWritable w.document s l)))
                  (get_record-advanced h p _ moved j ∙ g) free

  -- A `terminalize_scope` that returns has made the scope terminal: the record that it returns
  -- is terminal, has no runtime authority left, and is what the file holds for the scope.
  pub terminalize_scope-IsTerminal :
      (j : String) (generation : ℕ) (p : MutationExecutionPolicy) (q : RepositoryIdentity)
      (t : SemanticIdentity) (cleanup : Option Cleanup) (now : ℕ) (w : World)
      (u : MutationScopeRecord)
      → (terminalize_scope h j generation p q t cleanup now w).0 ≡ ok u
      → IsTerminal j u (terminalize_scope h j generation p q t cleanup now w).1
  terminalize_scope-IsTerminal j generation p q t cleanup now w u e =
      (terminalize_scope-Returns j generation p q t cleanup now w).at u e
