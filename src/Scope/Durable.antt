-- ===== src/Scope/Durable.antt =====
-- Programs over the store whose file is an advance of what it was, whatever the dictionary that a
-- raised error leaves in hand. One rule for each way to build a program.
use mathlib.Core.Path.{subst}
use sentinelx_cloud_core.Base.{Bool, true, false, ◌≡◌, refl, sym, inl, inr}
use sentinelx_cloud_core.Base.Result.{Result, ok, err, Result-cases}
use sentinelx_cloud_core.Errors.{Error}
use sentinelx_cloud_core.Host.{Host}
use sentinelx_cloud_core.Scope.Authority.{Authority, Document, loaded}
use sentinelx_cloud_core.Scope.Transaction.{
  World, M, ◌>>=◌, raise, lift, throw_if, gets, load_state, continue,
}
use sentinelx_cloud_core.Scope.Lifecycle.{Evolves, Follows-refl, Follows-trans, IsExclusiveFile}
use sentinelx_cloud_core.Scope.Safe.{IsGood, IsSafeAt, loaded-IsGood}

module _ (h : Host) where
  pub record IsKept (d e : Document) : Type 0 where
    pub evolves : Evolves h d e
    pub keeps : IsExclusiveFile h d → IsExclusiveFile h e

  pub IsKept-refl : (d : Document) → IsKept d d
  IsKept-refl d = record { evolves = λ j. Follows-refl h _; keeps = λ x. x }

  pub IsKept-trans : {c d e : Document} → IsKept c d → IsKept d e → IsKept c e
  IsKept-trans a b = record {
    evolves = λ j. Follows-trans h _ _ _ (a.evolves j) (b.evolves j);
    keeps = λ x. b.keeps (a.keeps x);
  }

  pub record IsDurableAt {A : Type 0} (w : World) (m : M A) : Type 0 where
    pub run : IsGood h w → IsKept w.document (m w).1.document

  pub IsDurable-safe : {A : Type 0} (w : World) (m : M A) → IsSafeAt h w m → IsDurableAt w m
  IsDurable-safe w m k = record {
    run = λ g. let a = k.run g in record { evolves = a.evolves; keeps = a.keeps };
  }

  pub IsDurable-same :
      {A : Type 0} (w : World) (m : M A) → (m w).1.document ≡ w.document → IsDurableAt w m
  IsDurable-same w m e = record {
    run = λ g. subst (IsKept w.document) (sym e) (IsKept-refl w.document);
  }

  pub IsDurable-raise : {A : Type 0} (w : World) (e : Error) → IsDurableAt w (raise {A = A} e)
  unfolding raise
  IsDurable-raise w e = IsDurable-same w _ refl

  continue_at :
      {A B : Type 0} (r : Result Error A) (f : A → M B) (w : World)
      → ((a : A) → r ≡ ok a → IsDurableAt w (f a))
      → IsDurableAt w (continue r f)
  unfolding raise
  continue_at (ok a) f w kf = kf a refl
  continue_at (err e) f w kf = IsDurable-raise w e

  pub IsDurable-bind_at :
      {A B : Type 0} (w : World) (m : M A) (f : A → M B)
      → IsSafeAt h w m
      → ((a : A) → (m w).0 ≡ ok a → IsDurableAt (m w).1 (f a))
      → IsDurableAt w (m >>= f)
  unfolding ◌>>=◌
  IsDurable-bind_at w m f km kf = record {
    run = λ g.
        let a = km.run g in
        IsKept-trans (record { evolves = a.evolves; keeps = a.keeps })
          ((continue_at (m w).0 f (m w).1 kf).run a.good);
  }

  -- A run from `w` that is a run of another program from a world with the same file.
  pub same-durable :
      {A : Type 0} (w v : World) (m n : M A)
      → m w ≡ n v
      → v.document ≡ w.document
      → (IsGood h w → IsGood h v)
      → IsDurableAt v n
      → IsDurableAt w m
  same-durable w v m n e d good k = record {
    run = λ g.
        subst (λ (x : Result Error _ × World). IsKept w.document x.1.document) (sym e)
          (subst (λ x. IsKept x (n v).1.document) d (k.run (good g)));
  }

  -- A program that reads only, before another one.
  pub IsDurable-reads :
      {A B : Type 0} (w : World) (m : M A) (f : A → M B)
      → (m w).1 ≡ w
      → ((a : A) → (m w).0 ≡ ok a → IsDurableAt w (f a))
      → IsDurableAt w (m >>= f)
  unfolding ◌>>=◌
  IsDurable-reads w m f same k = elim (Result-cases (m w).0) [
    | inl (a, e) ↦ same-durable w w _ (f a) (rw (e, same)) refl (λ g. g) (k a e)
    | inr (x, e) ↦ IsDurable-same w _ (rw (e, same))
  ]

  pub IsDurable-throw_if :
      {B : Type 0} (w : World) (b : Bool) (e : Error) (f : Unit {0} → M B)
      → (b ≡ false → IsDurableAt w (f tt))
      → IsDurableAt w (throw_if b e >>= f)
  unfolding ◌>>=◌
  IsDurable-throw_if w true e f k = IsDurable-same w _ refl
  IsDurable-throw_if w false e f k = record { run = (k refl).run }

  pub IsDurable-lift :
      {A B : Type 0} (w : World) (r : Result Error A) (f : A → M B)
      → ((a : A) → r ≡ ok a → IsDurableAt w (f a))
      → IsDurableAt w (lift r >>= f)
  unfolding ◌>>=◌
  IsDurable-lift w (ok a) f k = record { run = (k a refl).run }
  IsDurable-lift w (err e) f k = IsDurable-same w _ refl

  pub IsDurable-gets :
      {A B : Type 0} (w : World) (g : Authority → A) (f : A → M B)
      → IsDurableAt w (f (g w.state))
      → IsDurableAt w (gets g >>= f)
  unfolding ◌>>=◌
  IsDurable-gets w g f k = record { run = k.run }

  -- The dictionary that an operation begins with.
  pub IsDurable-load_state :
      {B : Type 0} (w : World) (f : Unit {0} → M B)
      → ((s : Authority) → loaded w.document ≡ ok s → IsDurableAt (record w { state = s }) (f tt))
      → IsDurableAt w (load_state >>= f)
  unfolding ◌>>=◌
  IsDurable-load_state w f k = elim (Result-cases (loaded w.document)) [
    | inl (s, e) ↦
        same-durable w (record w { state = s }) _ (f tt) (rw e) refl (λ _. loaded-IsGood h w s e)
          (k s e)
    | inr (x, e) ↦ IsDurable-same w _ (rw e)
  ]
