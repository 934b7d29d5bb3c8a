-- ===== src/Codex/Ends.antt =====
-- What holds when a program ends, by a result or by a raise: one rule for each way to build a
-- program, and the programs that send no push and leave the journal file alone.
use sentinelx_cloud_core.Base.{
  Bool, true, false, ◌≡◌, refl, sym, ap, ◌∙◌, Option, inl, inr, if◌then◌else◌, ◌⊎◌, Bool-cases,
}
use mathlib.Core.Path.{subst}
use sentinelx_cloud_core.Base.Result.{Result, ok, err}
use sentinelx_cloud_core.Codex.Site.{Site, Failure, os_error, json_beq_refl}
use sentinelx_cloud_core.Codex.Journal.{PersistenceJournal, saved, to_dict}
use sentinelx_cloud_core.Codex.Program.{
  World, M, ◌>>=◌, continue, pure, raise, lift, throw_if, read_journal, read_file, write_journal,
}

given : {A : Type 0} → A → Result Failure A → A
given a (ok b) = b
given a (err e) = a

write_journal-cases :
    {R : Type 0} (S : Site R) (w : World R) (j : PersistenceJournal)
    → (write_journal S j w ≡ (err os_error, w))
      ⊎ (write_journal S j w ≡ (ok j, record w { journal = saved j }))
unfolding write_journal ◌>>=◌
write_journal-cases S w j = elim (Bool-cases (S.writable w.repo)) [
  | inl e ↦ inr (rw (e, json_beq_refl (to_dict j)) refl)
  | inr e ↦ inl (rw e refl)
]

rewritten :
    {R A : Type 0} (S : Site R) (w v : World R) (j : PersistenceJournal)
    (f : PersistenceJournal → M R A) (r : Result Failure PersistenceJournal)
    → write_journal S j w ≡ (r, v)
    → (write_journal S j >>= f) w ≡ continue r f v
unfolding ◌>>=◌
rewritten S w v j f r e =
    ap (λ (x : Result Failure PersistenceJournal × World _). continue x.0 f x.1) e

module _ {R A : Type 0} (Q : A → World R → Type 0) (X : World R → Type 0) where
  pub record Ends (w : World R) (m : M R A) : Type 0 where
    pub returns : (a : A) → (m w).0 ≡ ok a → Q a (m w).1
    pub raises : (e : Failure) → (m w).0 ≡ err e → X (m w).1

  pub Ends-pure : (w : World R) (a : A) → Q a w → Ends w (pure a)
  unfolding pure given
  Ends-pure w a k = record {
    returns = λ b e. subst (λ x. Q x w) (ap (given a) e) k;
    raises = λ b e. cc;
  }

  pub Ends-raise : (w : World R) (e : Failure) → X w → Ends w (raise e)
  unfolding raise
  Ends-raise w e k = record { returns = λ b q. cc; raises = λ b q. k }

  continue-Ends :
      {B : Type 0} (w : World R) (r : Result Failure B) (f : B → M R A)
      → ((b : B) → r ≡ ok b → Ends w (f b))
      → ((e : Failure) → r ≡ err e → X w)
      → Ends w (continue r f)
  continue-Ends w (ok b) f k x = record { returns = (k b refl).returns; raises = (k b refl).raises }
  continue-Ends w (err e) f k x = record { returns = λ b q. cc; raises = λ b q. x e refl }

  pub Ends-if :
      (w : World R) (b : Bool) (m n : M R A)
      → (b ≡ true → Ends w m)
      → (b ≡ false → Ends w n)
      → Ends w (if b then m else n)
  Ends-if w true m n km kn = km refl
  Ends-if w false m n km kn = kn refl

  pub Ends-throw_if :
      (w : World R) (b : Bool) (e : Failure) (f : Unit {0} → M R A)
      → X w
      → (b ≡ false → Ends w (f tt))
      → Ends w (throw_if b e >>= f)
  unfolding ◌>>=◌
  Ends-throw_if w true e f x k = record { returns = λ c q. cc; raises = λ c q. x }
  Ends-throw_if w false e f x k = record { returns = (k refl).returns; raises = (k refl).raises }

  pub Ends-lift :
      {B : Type 0} (w : World R) (r : Result Failure B) (f : B → M R A)
      → X w
      → ((b : B) → r ≡ ok b → Ends w (f b))
      → Ends w (lift r >>= f)
  unfolding ◌>>=◌
  Ends-lift w (ok b) f x k = record { returns = (k b refl).returns; raises = (k b refl).raises }
  Ends-lift w (err e) f x k = record { returns = λ c q. cc; raises = λ c q. x }

  pub Ends-read_journal :
      (w : World R) (f : Option PersistenceJournal → M R A)
      → X w
      → ((found : Option PersistenceJournal) → read_file w.journal ≡ ok found → Ends w (f found))
      → Ends w (read_journal >>= f)
  unfolding ◌>>=◌
  Ends-read_journal w f x k =
      let after = continue-Ends w (read_file w.journal) f k (λ e r. x) in
      record { returns = after.returns; raises = after.raises }

  pub same-Ends : (w v : World R) (m n : M R A) → m w ≡ n v → Ends v n → Ends w m
  same-Ends w v m n e k = record {
    returns = λ a h.
        subst (λ (x : Result Failure A × World R). Q a x.1) (sym e)
          (k.returns a (sym (ap (λ (x : Result Failure A × World R). x.0) e) ∙ h));
    raises = λ a h.
        subst (λ (x : Result Failure A × World R). X x.1) (sym e)
          (k.raises a (sym (ap (λ (x : Result Failure A × World R). x.0) e) ∙ h));
  }

  -- The journal is replaced as a whole, or an exception leaves it as it was.
  pub Ends-write :
      (S : Site R) (w : World R) (j : PersistenceJournal) (f : PersistenceJournal → M R A)
      → X w
      → Ends (record w { journal = saved j }) (f j)
      → Ends w (write_journal S j >>= f)
  unfolding ◌>>=◌ raise
  Ends-write S w j f x k = elim (write_journal-cases S w j) [
    | inl e ↦
        same-Ends w w _ (raise os_error) (rewritten S w w j f (err os_error) e)
          (Ends-raise w os_error x)
    | inr e ↦ same-Ends w _ _ (f j) (rewritten S w _ j f (ok j) e) k
  ]

module _ {R A B : Type 0} (Q : A → World R → Type 0) (X : World R → Type 0) where
  pub Ends-bind :
      (P : B → World R → Type 0) (w : World R) (m : M R B) (f : B → M R A)
      → Ends P X w m
      → ((b : B) (v : World R) → P b v → Ends Q X v (f b))
      → Ends Q X w (m >>= f)
  unfolding ◌>>=◌
  Ends-bind P w m f h k =
      let after =
        continue-Ends Q X (m w).1 (m w).0 f (λ b e. k b (m w).1 (h.returns b e)) h.raises in
      record { returns = after.returns; raises = after.raises }

  -- The rest starts in the very world where the first program ends.
  pub Ends-exact :
      (w : World R) (m : M R B) (f : B → M R A)
      → ((b : B) → (m w).0 ≡ ok b → Ends Q X (m w).1 (f b))
      → ((e : Failure) → (m w).0 ≡ err e → X (m w).1)
      → Ends Q X w (m >>= f)
  unfolding ◌>>=◌
  Ends-exact w m f k x =
      let after = continue-Ends Q X (m w).1 (m w).0 f k x in
      record { returns = after.returns; raises = after.raises }

module _ {R : Type 0} (Q : PersistenceJournal → World R → Type 0) (X : World R → Type 0) where
  pub Ends-write_last :
      (S : Site R) (w : World R) (j : PersistenceJournal)
      → X w
      → Q j (record w { journal = saved j })
      → Ends Q X w (write_journal S j)
  unfolding raise pure
  Ends-write_last S w j x k = elim (write_journal-cases S w j) [
    | inl e ↦ same-Ends Q X w w _ (raise os_error) e (Ends-raise Q X w os_error x)
    | inr e ↦ same-Ends Q X w _ _ (pure j) e (Ends-pure Q X _ j k)
  ]
