-- ===== src/Base/State.antt =====
-- Programs over a state that may raise, where a raise keeps the state of that moment; and what
-- holds when such a program ends, by a result or by a raise.
use mathlib.Core.Path.{◌≡◌, refl, ap, subst, sym}
use mathlib.Core.Bool.{Bool, true, false}
use sentinelx_cloud_core.Base.Result.{Result, ok, err}

abbrev pub M : Type 0 → Type 0 → Type 0 → Type 0
M W E A = W → Result E A × W

abbrev pub continue : {W E A B : Type 0} → Result E A → (A → M W E B) → M W E B
continue (ok a) f w = f a w
continue (err e) f w = (err e, w)

unfoldable pub pure : {W E A : Type 0} → A → M W E A
pure a w = (ok a, w)

-- `if test: raise e`
unfoldable pub throw_if : {W E : Type 0} → Bool → E → M W E (Unit {0})
throw_if true e w = (err e, w)
throw_if false e w = (ok tt, w)

infixl 5 ◌>>=◌ ◌>>◌
unfoldable pub ◌>>=◌ : {W E A B : Type 0} → M W E A → (A → M W E B) → M W E B
unfolding pure throw_if
◌>>=◌ m f w = let (r, w') = m w in continue r f w'

abbrev pub ◌>>◌ : {W E A B : Type 0} → M W E A → M W E B → M W E B
m >> k = m >>= λ _. k

abbrev rescued : {W E A : Type 0} → Result E A → M W E (Unit {0}) → M W E A
rescued (ok a) cleanup w = (ok a, w)
rescued (err e) cleanup w = let (r, w') = cleanup w in continue r (λ _ v. (err e, v)) w'

-- `try: m except Exception: cleanup(); raise`
unfoldable pub on_error : {W E A : Type 0} → M W E A → M W E (Unit {0}) → M W E A
on_error m cleanup w = let (r, w') = m w in rescued r cleanup w'

continue-fails :
    {W E A : Type 0} (r : Result E (Unit {0})) (e : E) (w : W) (a : A)
    → (continue r (λ _ v. (err e, v)) w).0 ≡ ok a
    → {B : Type 0} → B
continue-fails (ok _) e w a q = absurd cc
continue-fails (err _) e w a q = absurd cc

rescued-returns :
    {W E A : Type 0} (r : Result E A) (cleanup : M W E (Unit {0})) (w : W) (a : A)
    → (rescued r cleanup w).0 ≡ ok a
    → (r ≡ ok a) × ((rescued r cleanup w).1 ≡ w)
rescued-returns (ok b) cleanup w a q = (q, refl)
rescued-returns (err e) cleanup w a q = continue-fails (cleanup w).0 e (cleanup w).1 a q

-- A result comes from the body, and then the cleanup has not run.
pub on_error-returns :
    {W E A : Type 0} (m : M W E A) (cleanup : M W E (Unit {0})) (w : W) (a : A)
    → (on_error m cleanup w).0 ≡ ok a
    → ((m w).0 ≡ ok a) × ((on_error m cleanup w).1 ≡ (m w).1)
unfolding on_error
on_error-returns m cleanup w a q = rescued-returns (m w).0 cleanup (m w).1 a q

given : {E A : Type 0} → A → Result E A → A
given a (ok b) = b
given a (err e) = a

module _ {W E A : Type 0} (Q : A → W → Type 0) (X : W → Type 0) where
  pub record Ends (w : W) (m : M W E A) : Type 0 where
    pub returns : (a : A) → (m w).0 ≡ ok a → Q a (m w).1
    pub raises : (e : E) → (m w).0 ≡ err e → X (m w).1

  pub Ends-pure : (w : W) (a : A) → Q a w → Ends w (pure a)
  unfolding pure given
  Ends-pure w a k = record {
    returns = λ b e. subst (λ x. Q x w) (ap (given a) e) k;
    raises = λ b e. cc;
  }

  pub Ends-throw_if :
      (w : W) (b : Bool) (e : E) (f : Unit {0} → M W E A)
      → X w
      → (b ≡ false → Ends w (f tt))
      → Ends w (throw_if b e >>= f)
  unfolding ◌>>=◌
  Ends-throw_if w true e f x k = record { returns = λ c q. cc; raises = λ c q. x }
  Ends-throw_if w false e f x k = record { returns = (k refl).returns; raises = (k refl).raises }

  pub continue-Ends :
      {B : Type 0} (w : W) (r : Result E B) (f : B → M W E A)
      → ((b : B) → r ≡ ok b → Ends w (f b))
      → ((e : E) → r ≡ err e → X w)
      → Ends w (continue r f)
  continue-Ends w (ok b) f k x = record { returns = (k b refl).returns; raises = (k b refl).raises }
  continue-Ends w (err e) f k x = record { returns = λ b q. cc; raises = λ b q. x e refl }

  -- A program and the rest, which starts where the program ends.
  pub Ends-bind :
      {B : Type 0} (w : W) (m : M W E B) (f : B → M W E A)
      → ((b : B) → (m w).0 ≡ ok b → Ends (m w).1 (f b))
      → ((e : E) → (m w).0 ≡ err e → X (m w).1)
      → Ends w (m >>= f)
  unfolding ◌>>=◌
  Ends-bind w m f k x =
      let after = continue-Ends (m w).1 (m w).0 f k x in
      record { returns = after.returns; raises = after.raises }

  -- A program that leaves the state alone, and the rest.
  pub Ends-still :
      {B : Type 0} (w : W) (m : M W E B) (f : B → M W E A)
      → (m w).1 ≡ w
      → X w
      → ((b : B) → (m w).0 ≡ ok b → Ends w (f b))
      → Ends w (m >>= f)
  Ends-still w m f same x k =
      Ends-bind w m f (λ b e. subst (λ v. Ends v (f b)) (sym same) (k b e))
        (λ e r. subst X (sym same) x)
