-- ===== src/Scope/Returns.antt =====
-- What holds of the result and of the world, when a program over the store returns. One rule for
-- each way to build a program.
use mathlib.Core.Path.{subst}
use mathlib.Core.Option.{some-injective}
use sentinelx_cloud_core.Base.{
  String, sym, ◌∙◌, inl, inr, Bool, true, false, ◌≡◌, refl, ap, if◌then◌else◌,
}
use sentinelx_cloud_core.Base.Result.{Result, ok, err, Result-cases}
use sentinelx_cloud_core.Errors.{Error}
use sentinelx_cloud_core.Scope.Authority.{Authority, loaded, get_record}
use sentinelx_cloud_core.Scope.Transaction.{
  World, M, ◌>>=◌, pure, raise, lift, throw_if, gets, read_back, continue,
}
use sentinelx_cloud_core.Host.{Host}
use sentinelx_cloud_core.Scope.Record.{MutationScopeRecord}
use sentinelx_cloud_core.Scope.Runtime.{open_scope}
use sentinelx_cloud_core.Scope.Stored.{to_option}

module _ {B : Type 0} (P : B → World → Type 0) where
  pub record ReturnsAt (w : World) (m : M B) : Type 0 where
    pub at : (b : B) → (m w).0 ≡ ok b → P b (m w).1

  abbrev pub Returns : M B → Type 0
  Returns m = (w : World) → ReturnsAt w m

  pub Returns-pure : (w : World) (b : B) → P b w → ReturnsAt w (pure b)
  unfolding pure
  Returns-pure w b p = record {
    at = λ c e. subst (λ x. P x w) (some-injective b c (ap to_option e)) p;
  }

  pub Returns-lift_last :
      (w : World) (r : Result Error B) → ((b : B) → r ≡ ok b → P b w) → ReturnsAt w (lift r)
  unfolding lift
  Returns-lift_last w r k = record { at = k }

  pub Returns-raise : (w : World) (e : Error) → ReturnsAt w (raise e)
  unfolding raise
  Returns-raise w e = record { at = λ c q. cc }

  continue_at :
      {A : Type 0} (r : Result Error A) (f : A → M B) (w : World)
      → ((a : A) → r ≡ ok a → ReturnsAt w (f a))
      → ReturnsAt w (continue r f)
  unfolding raise
  continue_at (ok a) f w k = record { at = (k a refl).at }
  continue_at (err e) f w k = record { at = (Returns-raise w e).at }

  pub Returns-bind :
      {A : Type 0} (w : World) (m : M A) (f : A → M B)
      → ((a : A) → (m w).0 ≡ ok a → ReturnsAt (m w).1 (f a))
      → ReturnsAt w (m >>= f)
  unfolding ◌>>=◌
  Returns-bind w m f k = record { at = (continue_at (m w).0 f (m w).1 k).at }

  -- The rest of the program alone settles the matter.
  pub Returns-rest :
      {A : Type 0} (m : M A) (f : A → M B) → ((a : A) → Returns (f a)) → Returns (m >>= f)
  Returns-rest m f k w = Returns-bind w m f λ a _. k a (m w).1

  pub Returns-throw_if :
      (w : World) (b : Bool) (e : Error) (f : Unit {0} → M B)
      → (b ≡ false → ReturnsAt w (f tt))
      → ReturnsAt w (throw_if b e >>= f)
  unfolding ◌>>=◌
  Returns-throw_if w true e f k = record { at = λ c q. cc }
  Returns-throw_if w false e f k = record { at = (k refl).at }

  pub Returns-lift :
      {A : Type 0} (w : World) (r : Result Error A) (f : A → M B)
      → ((a : A) → r ≡ ok a → ReturnsAt w (f a))
      → ReturnsAt w (lift r >>= f)
  unfolding ◌>>=◌
  Returns-lift w (ok a) f k = record { at = (k a refl).at }
  Returns-lift w (err e) f k = record { at = λ c q. cc }

  pub Returns-read_back :
      (w : World) (f : Authority → M B)
      → ((s : Authority) → loaded w.document ≡ ok s → ReturnsAt w (f s))
      → ReturnsAt w (read_back >>= f)
  unfolding ◌>>=◌
  Returns-read_back w f k = record { at = (Returns-lift w (loaded w.document) f k).at }

  pub Returns-gets :
      {A : Type 0} (w : World) (g : Authority → A) (f : A → M B)
      → ReturnsAt w (f (g w.state))
      → ReturnsAt w (gets g >>= f)
  unfolding ◌>>=◌
  Returns-gets w g f k = record { at = k.at }

  pub Returns-if :
      (w : World) (b : Bool) (m n : M B)
      → (b ≡ true → ReturnsAt w m)
      → (b ≡ false → ReturnsAt w n)
      → ReturnsAt w (if b then m else n)
  Returns-if w true m n km kn = km refl
  Returns-if w false m n km kn = kn refl

  same-returns : (w v : World) (m n : M B) → m w ≡ n v → ReturnsAt v n → ReturnsAt w m
  same-returns w v m n e k = record {
    at = λ b q.
        subst (λ (x : Result Error B × World). P b x.1) (sym e)
          (k.at b (sym (ap (λ (x : Result Error B × World). x.0) e) ∙ q));
  }

  -- A program that reads only, before another one.
  pub Returns-reads :
      {A : Type 0} (w : World) (m : M A) (f : A → M B)
      → (m w).1 ≡ w
      → ((a : A) → (m w).0 ≡ ok a → ReturnsAt w (f a))
      → ReturnsAt w (m >>= f)
  Returns-reads w m f same k =
      Returns-bind w m f λ a e. subst (λ v. ReturnsAt v (f a)) (sym same) (k a e)

  -- The record that an operation begins with.
  pub Returns-open_scope :
      (h : Host) (w : World) (j : String) (f : MutationScopeRecord → M B)
      → ((s : Authority) (r : MutationScopeRecord)
          → loaded w.document ≡ ok s
          → get_record h s j ≡ ok r
          → ReturnsAt (record w { state = s }) (f r))
      → ReturnsAt w (open_scope h j >>= f)
  unfolding ◌>>=◌ open_scope
  Returns-open_scope h w j f k = elim (Result-cases (loaded w.document)) [
    | inl (s, e) ↦
        same-returns w (record w { state = s }) _ (lift (get_record h s j) >>= f) (rw e)
          (Returns-lift _ (get_record h s j) f (λ r g. k s r e g))
    | inr (x, e) ↦ same-returns w w _ (raise x) (rw e) (Returns-raise w x)
  ]
