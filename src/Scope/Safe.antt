-- ===== src/Scope/Safe.antt =====
-- Programs over the store that keep the file an advance of what it was. One rule for each way to
-- build a program.
use mathlib.Core.Path.{subst}
use sentinelx_cloud_core.Base.{String, ◌≡◌, refl, string_eq, if◌then◌else◌}
use sentinelx_cloud_core.Base.{Bool, true, false}
use sentinelx_cloud_core.Base.{inl, inr, sym}
use sentinelx_cloud_core.Base.Result.{Result, ok, err, Result-cases}
use sentinelx_cloud_core.Errors.{Error, not_current}
use sentinelx_cloud_core.Host.{Host}
use sentinelx_cloud_core.Scope.Record.{MutationScopeRecord}
use sentinelx_cloud_core.Scope.Authority.{Authority, loaded, written, get_record}
use sentinelx_cloud_core.Scope.Transaction.{
  World, M, ◌>>=◌, pure, raise, lift, throw_if, when, gets, load_state, read_back, write_state,
  on_not_current, continue, handle,
}
use sentinelx_cloud_core.Scope.Runtime.{open_scope}
use sentinelx_cloud_core.Scope.Stored.{stored, IsWritable, loaded-IsWritable, loaded-written}
use sentinelx_cloud_core.Scope.Lifecycle.{
  Follows, Follows-refl, Follows-trans, scope_of, Evolves, Follows-eq, IsExclusive, IsExclusiveFile,
  IsExclusive-loaded, IsExclusiveFile-loaded, scope_of-written, scope_of-loaded,
}

module _ (h : Host) where
  -- The dictionary in hand can be written, and is an advance of the file.
  pub record IsGood (w : World) : Type 0 where
    pub writable : IsWritable w.state.placement_generation
    pub follows : (j : String) → Follows h (scope_of h w.document j) (stored h w.state j)
    pub exclusive : IsExclusiveFile h w.document → IsExclusive h w.state

  -- From a good world, the program leaves a good one, the file has advanced, and current scopes
  -- have workspaces of their own if they had before.
  pub record IsSafeRun (w v : World) : Type 0 where
    pub good : IsGood v
    pub evolves : Evolves h w.document v.document
    pub keeps : IsExclusiveFile h w.document → IsExclusiveFile h v.document

  pub record IsSafeAt {A : Type 0} (w : World) (m : M A) : Type 0 where
    pub run : IsGood w → IsSafeRun w (m w).1

  abbrev pub IsSafe : {A : Type 0} → M A → Type 0
  IsSafe m = (w : World) → IsSafeAt w m

  pub here : (w : World) → IsGood w → IsSafeRun w w
  here w g = record { good = g; evolves = λ j. Follows-refl h _; keeps = λ x. x }

  pub onward : {u v w : World} → IsSafeRun u v → IsSafeRun v w → IsSafeRun u w
  onward a b = record {
    good = b.good;
    evolves = λ j. Follows-trans h _ _ _ (a.evolves j) (b.evolves j);
    keeps = λ x. b.keeps (a.keeps x);
  }

  pub still : {A : Type 0} (w : World) (m : M A) → (m w).1 ≡ w → IsSafeAt w m
  still w m e = record { run = λ g. subst (IsSafeRun w) (sym e) (here w g) }

  same-run_of : {A : Type 0} (w : World) {m n : M A} → IsSafeAt w n → m w ≡ n w → IsSafeAt w m
  same-run_of w k e = record {
    run = λ g. subst (λ (x : Result Error _ × World). IsSafeRun w x.1) (sym e) (k.run g);
  }

  pub IsSafe-write : IsSafe write_state
  unfolding write_state
  IsSafe-write w = record {
    run = λ g.
        let same = loaded-written w.state g.writable in
        record {
          good = record {
            writable = g.writable;
            follows = λ j. Follows-eq h _ _ (scope_of-written h w.state j g.writable);
            exclusive = IsExclusive-loaded h (written w.state) w.state same;
          };
          evolves = λ j.
              Follows-trans h _ _ _ (g.follows j)
                (Follows-eq h _ _ (sym (scope_of-written h w.state j g.writable)));
          keeps = λ x. IsExclusiveFile-loaded h (written w.state) w.state same (g.exclusive x);
        };
  }

  pub IsSafe-continue :
      {A B : Type 0} (r : Result Error A) (f : A → M B)
      → ((a : A) → IsSafe (f a))
      → IsSafe (continue r f)
  unfolding raise
  IsSafe-continue (ok a) f kf w = kf a w
  IsSafe-continue (err e) f kf w = still w (raise e) refl

  continue_at :
      {A B : Type 0} (r : Result Error A) (f : A → M B) (w : World)
      → ((a : A) → r ≡ ok a → IsSafeAt w (f a))
      → IsSafeAt w (continue r f)
  unfolding raise
  continue_at (ok a) f w kf = kf a refl
  continue_at (err e) f w kf = still w (raise e) refl

  pub IsSafe-bind :
      {A B : Type 0} (w : World) (m : M A) (f : A → M B)
      → IsSafeAt w m
      → ((a : A) → IsSafe (f a))
      → IsSafeAt w (m >>= f)
  unfolding ◌>>=◌
  IsSafe-bind w m f km kf = record {
    run = λ g. let a = km.run g in onward a ((IsSafe-continue (m w).0 f kf (m w).1).run a.good);
  }

  -- The rest of a program may use the world that the first part leaves.
  pub IsSafe-bind_at :
      {A B : Type 0} (w : World) (m : M A) (f : A → M B)
      → IsSafeAt w m
      → ((a : A) → (m w).0 ≡ ok a → IsSafeAt (m w).1 (f a))
      → IsSafeAt w (m >>= f)
  unfolding ◌>>=◌
  IsSafe-bind_at w m f km kf = record {
    run = λ g. let a = km.run g in onward a ((continue_at (m w).0 f (m w).1 kf).run a.good);
  }

  pub IsSafe-handle :
      {A : Type 0} (r : Result Error A) (cleanup : M (Unit {0}))
      → IsSafe cleanup
      → IsSafe (handle r cleanup)
  unfolding raise lift
  IsSafe-handle (err not_current) cleanup kc w =
      IsSafe-bind w cleanup _ (kc w) (λ a v. still v (raise not_current) refl)
  IsSafe-handle r cleanup kc w = still w (lift r) refl

  pub IsSafe-on_not_current :
      {A : Type 0} (w : World) (m : M A) (cleanup : M (Unit {0}))
      → IsSafeAt w m
      → IsSafe cleanup
      → IsSafeAt w (on_not_current m cleanup)
  unfolding on_not_current
  IsSafe-on_not_current w m cleanup km kc = record {
    run = λ g. let a = km.run g in onward a ((IsSafe-handle (m w).0 cleanup kc (m w).1).run a.good);
  }

  -- The programs that change nothing, before another one.
  pub IsSafe-throw_if :
      {B : Type 0} (w : World) (b : Bool) (e : Error) (f : Unit {0} → M B)
      → (b ≡ false → IsSafeAt w (f tt))
      → IsSafeAt w (throw_if b e >>= f)
  unfolding ◌>>=◌
  IsSafe-throw_if w true e f k = still w (raise e) refl
  IsSafe-throw_if w false e f k = k refl

  pub IsSafe-lift :
      {A B : Type 0} (w : World) (r : Result Error A) (f : A → M B)
      → ((a : A) → r ≡ ok a → IsSafeAt w (f a))
      → IsSafeAt w (lift r >>= f)
  unfolding ◌>>=◌
  IsSafe-lift w (ok a) f k = k a refl
  IsSafe-lift w (err e) f k = still w (raise e) refl

  -- A program that reads only, before another one.
  pub IsSafe-reads :
      {A B : Type 0} (w : World) (m : M A) (f : A → M B)
      → (m w).1 ≡ w
      → ((a : A) → (m w).0 ≡ ok a → IsSafeAt w (f a))
      → IsSafeAt w (m >>= f)
  unfolding ◌>>=◌
  IsSafe-reads w m f same k = elim (Result-cases (m w).0) [
    | inl (a, e) ↦ same-run_of w (k a e) (rw (e, same))
    | inr (x, e) ↦ still w _ (rw (e, same))
  ]

  pub IsSafe-gets :
      {A B : Type 0} (w : World) (g : Authority → A) (f : A → M B)
      → IsSafeAt w (f (g w.state))
      → IsSafeAt w (gets g >>= f)
  unfolding ◌>>=◌
  IsSafe-gets w g f k = record { run = k.run }

  pub IsSafe-pure : {A : Type 0} (w : World) (a : A) → IsSafeAt w (pure a)
  unfolding pure
  IsSafe-pure w a = still w _ refl

  pub IsSafe-raise : {A : Type 0} (w : World) (e : Error) → IsSafeAt w (raise {A = A} e)
  unfolding raise
  IsSafe-raise w e = still w _ refl

  pub IsSafe-lift_last : {A : Type 0} (w : World) (r : Result Error A) → IsSafeAt w (lift r)
  unfolding lift
  IsSafe-lift_last w r = still w _ refl

  pub IsSafe-read_back : IsSafe read_back
  unfolding read_back
  IsSafe-read_back w = still w _ refl

  pub IsSafe-when_at :
      (w : World) (b : Bool) (m : M (Unit {0})) → (b ≡ true → IsSafeAt w m) → IsSafeAt w (when b m)
  unfolding when
  IsSafe-when_at w true m k = record { run = (k refl).run }
  IsSafe-when_at w false m k = still w _ refl

  pub IsSafe-when : (b : Bool) (m : M (Unit {0})) → IsSafe m → IsSafe (when b m)
  unfolding when
  IsSafe-when true m k w = record { run = (k w).run }
  IsSafe-when false m k w = still w _ refl

  pub IsSafe-if :
      {A : Type 0} (w : World) (b : Bool) (m n : M A)
      → (b ≡ true → IsSafeAt w m)
      → (b ≡ false → IsSafeAt w n)
      → IsSafeAt w (if b then m else n)
  IsSafe-if w true m n km kn = km refl
  IsSafe-if w false m n km kn = kn refl

  -- A run from `w` that is a run of another program from a world with the same file.
  pub same-run :
      {A : Type 0} (w v : World) (m n : M A)
      → m w ≡ n v
      → v.document ≡ w.document
      → (IsGood w → IsGood v)
      → IsSafeAt v n
      → IsSafeAt w m
  same-run w v m n e d good k = record {
    run = λ g.
        let a = k.run (good g) in
        subst (λ (x : Result Error _ × World). IsSafeRun w x.1) (sym e)
          (record {
            good = a.good;
            evolves = subst (λ x. Evolves h x (n v).1.document) d a.evolves;
            keeps = subst (λ x. IsExclusiveFile h x → IsExclusiveFile h (n v).1.document) d a.keeps;
          });
  }

  pub loaded-IsGood :
      (w : World) (s : Authority) → loaded w.document ≡ ok s → IsGood (record w { state = s })
  loaded-IsGood w s e = record {
    writable = loaded-IsWritable w.document s e;
    follows = λ j. Follows-eq h _ _ (scope_of-loaded h w.document s j e);
    exclusive = IsExclusive-loaded h w.document s e;
  }

  -- The dictionary that an operation begins with.
  pub IsSafe-load_state :
      {B : Type 0} (w : World) (f : Unit {0} → M B)
      → ((s : Authority) → loaded w.document ≡ ok s → IsSafeAt (record w { state = s }) (f tt))
      → IsSafeAt w (load_state >>= f)
  unfolding ◌>>=◌
  IsSafe-load_state w f k = elim (Result-cases (loaded w.document)) [
    | inl (s, e) ↦
        same-run w (record w { state = s }) _ (f tt) (rw e) refl (λ _. loaded-IsGood w s e) (k s e)
    | inr (x, e) ↦ still w _ (rw e)
  ]

  -- The record that an operation begins with.
  pub IsSafe-open_scope :
      {B : Type 0} (w : World) (j : String) (f : MutationScopeRecord → M B)
      → ((s : Authority) (r : MutationScopeRecord)
          → loaded w.document ≡ ok s
          → get_record h s j ≡ ok r
          → IsSafeAt (record w { state = s }) (f r))
      → IsSafeAt w (open_scope h j >>= f)
  unfolding ◌>>=◌ open_scope
  IsSafe-open_scope w j f k = elim (Result-cases (loaded w.document)) [
    | inl (s, e) ↦
        same-run w (record w { state = s }) _ (lift (get_record h s j) >>= f) (rw e) refl
          (λ _. loaded-IsGood w s e) (IsSafe-lift _ _ f (λ r q. k s r e q))
    | inr (x, e) ↦ still w _ (rw e)
  ]

  pub when-write_state : (b : Bool) (w : World) → (when b write_state w).1.state ≡ w.state
  unfolding when write_state
  when-write_state true w = refl
  when-write_state false w = refl
