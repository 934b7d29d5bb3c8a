-- ===== src/Scope/CleanupOrder.antt =====
-- The cleanup of a terminalization runs only after the revocation is in the file.
use sentinelx_cloud_core.Base.{
  ap, ℕ, String, ◌≡◌, refl, eq_iff, string_eq, true, false, arith, Bool, some,
}
use sentinelx_cloud_core.Base.{if◌then◌else◌}
use sentinelx_cloud_core.Base.Result.{Result, ok, err}
use sentinelx_cloud_core.Errors.{Error}
use sentinelx_cloud_core.Host.{Host}
use sentinelx_cloud_core.Policy.{MutationExecutionPolicy}
use sentinelx_cloud_core.Placement.{RepositoryIdentity, SemanticIdentity}
use sentinelx_cloud_core.Scope.Record.{MutationScopeRecord, has_runtime_authority}
use sentinelx_cloud_core.Scope.Transaction.{World, M, ◌>>=◌, continue}
use sentinelx_cloud_core.Scope.Terminalize.{
  Cleanup, revoke_admission, close_runtime, close_directly, terminalize_scope,
}
use sentinelx_cloud_core.Scope.Lifecycle.{scope_of}
use sentinelx_cloud_core.Scope.Returns.{
  Returns, Returns-pure, Returns-rest, Returns-throw_if, Returns-lift, Returns-read_back,
}
use sentinelx_cloud_core.Scope.Outcome.{held}

continue_agree :
    {A B : Type 0} (r : Result Error A) (f g : A → M B) (w : World)
    → ((a : A) → r ≡ ok a → f a w ≡ g a w)
    → continue r f w ≡ continue r g w
continue_agree (ok a) f g w k = k a refl
continue_agree (err e) f g w k = refl

bind_agree :
    {A B : Type 0} (m : M A) (f g : A → M B) (w : World)
    → ((a : A) → (m w).0 ≡ ok a → f a (m w).1 ≡ g a (m w).1)
    → (m >>= f) w ≡ (m >>= g) w
unfolding ◌>>=◌
bind_agree m f g w k = continue_agree (m w).0 f g (m w).1 k

bind_first :
    {A B : Type 0} (m n : M A) (f : A → M B) (w : World) → m w ≡ n w → (m >>= f) w ≡ (n >>= f) w
unfolding ◌>>=◌
bind_first m n f w e = ap (λ (x : Result Error _ × World). continue x.0 f x.1) e

if_agree :
    {B : Type 0} (b : Bool) (m n k : M B) (w : World)
    → m w ≡ n w
    → (if b then m else k) w ≡ (if b then n else k) w
if_agree true m n k w e = e
if_agree false m n k w e = refl

module _ (h : Host) where
  -- The scope in hand is revoked, and so is the scope in the file.
  pub record IsRevocation (j : String) (x : MutationScopeRecord) (v : World) : Type 0 where
    pub state : x.state ≡ "revoked"
    pub is_held : scope_of h v.document j ≡ some x

  revoke_admission-IsRevocation :
      (j : String) (r : MutationScopeRecord) → Returns (IsRevocation j) (revoke_admission h j r)
  unfolding revoke_admission
  revoke_admission-IsRevocation j r = Returns-rest _ _ _ λ _. Returns-rest _ _ _ λ _ w.
      Returns-read_back _ w _ λ s l. Returns-lift _ w _ _ λ u g.
        Returns-throw_if _ w _ _ _ λ passed. Returns-pure _ w u (record {
          state = (eq_iff u.state "revoked").0 (ground (arith, passed));
          is_held = held h w s j u l g;
        })

  close_runtime-agree :
      (j : String) (generation : ℕ) (q : RepositoryIdentity) (t : SemanticIdentity) (now : ℕ)
      (f g : Cleanup) (r : MutationScopeRecord) (w : World)
      → ((x : MutationScopeRecord) (v : World) → IsRevocation j x v → f x v ≡ g x v)
      → close_runtime h j generation q t now (some f) r w
        ≡ close_runtime h j generation q t now (some g) r w
  unfolding close_runtime
  close_runtime-agree j generation q t now f g r w same =
      bind_agree _ _ _ w
        λ x e. bind_first _ _ _ _ (same x _ ((revoke_admission-IsRevocation j r w).at x e))

  -- Two cleanups that act alike wherever the file already holds the scope as revoked give the
  -- same terminalization: the cleanup never runs before admission is revoked in the file, and it is
  -- given the record that the file holds.
  pub terminalize_scope-cleanup :
      (j : String) (generation : ℕ) (p : MutationExecutionPolicy) (q : RepositoryIdentity)
      (t : SemanticIdentity) (f g : Cleanup) (now : ℕ) (w : World)
      → ((x : MutationScopeRecord) (v : World) → IsRevocation j x v → f x v ≡ g x v)
      → terminalize_scope h j generation p q t (some f) now w
        ≡ terminalize_scope h j generation p q t (some g) now w
  unfolding terminalize_scope
  terminalize_scope-cleanup j generation p q t f g now w same = bind_agree _ _ _ w λ r _.
      bind_agree _ _ _ _ λ (c, moved) _. bind_agree _ _ _ _ λ lease _. bind_agree _ _ _ _ λ _ _.
        if_agree (has_runtime_authority r) (close_runtime h j generation q t now (some f) r)
          (close_runtime h j generation q t now (some g) r) (close_directly h j r lease now) _
          (close_runtime-agree j generation q t now f g r _ same)
