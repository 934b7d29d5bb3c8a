-- ===== src/Codex/Silent.antt =====
-- Programs that send no push and leave the journal file alone: all that the provider does before
-- it writes its journal, and all that it reads.
use sentinelx_cloud_core.Base.{
  String, Bool, true, false, ◌≡◌, refl, ◌∙◌, Option, none, some, List, [], ◌∷◌, if◌then◌else◌,
}
use sentinelx_cloud_core.Base.Result.{Result, ok, err}
use sentinelx_cloud_core.Codex.Site.{Site, Failure, CanonicalizationSnapshot}
use sentinelx_cloud_core.Codex.Command.{Command, push, ProviderState}
use sentinelx_cloud_core.Codex.Journal.{JournalFile}
use sentinelx_cloud_core.Codex.Program.{
  World, M, ◌>>=◌, continue, pure, raise, lift, throw_if, gets, unlink, removed, read_journal,
  transport_git,
}
use sentinelx_cloud_core.Codex.Ends.{Ends, Ends-bind}

-- A candidate, its branch, and the journal file when the push was sent.
abbrev pub Push : Type 0
Push = String × String × JournalFile

abbrev pub push_of : Command → JournalFile → List Push → List Push
push_of (push candidate branch) f rest = (candidate, branch, f) ∷ rest
push_of _ f rest = rest

unfoldable pub pushes : List (Command × JournalFile) → List Push
pushes [] = []
pushes ((c, f) ∷ sent) = push_of c f (pushes sent)

abbrev pub is_push : Command → Bool
is_push (push candidate branch) = true
is_push _ = false

push_of-same :
    (c : Command) (f : JournalFile) (rest : List Push) → is_push c ≡ false → push_of c f rest ≡ rest
push_of-same (push candidate branch) f rest e = cc
push_of-same _ f rest e = refl

module _ {R : Type 0} where
  pub record Quiet (w v : World R) : Type 0 where
    pub journal : v.journal ≡ w.journal
    pub pushes_same : pushes v.sent ≡ pushes w.sent

  pub Quiet-refl : (w : World R) → Quiet w w
  Quiet-refl w = record { journal = refl; pushes_same = refl }

  pub Quiet-trans : (u v w : World R) → Quiet u v → Quiet v w → Quiet u w
  Quiet-trans u v w a b = record {
    journal = b.journal ∙ a.journal;
    pushes_same = b.pushes_same ∙ a.pushes_same;
  }

  pub record Silent {A : Type 0} (m : M R A) : Type 0 where
    pub at : (w : World R) → Quiet w (m w).1

  pub Silent-pure : {A : Type 0} (a : A) → Silent (pure a)
  unfolding pure
  Silent-pure a = record { at = λ w. Quiet-refl w }

  pub Silent-raise : {A : Type 0} (e : Failure) → Silent {A = A} (raise e)
  unfolding raise
  Silent-raise e = record { at = λ w. Quiet-refl w }

  pub Silent-lift : {A : Type 0} (r : Result Failure A) → Silent (lift r)
  unfolding lift
  Silent-lift r = record { at = λ w. Quiet-refl w }

  pub Silent-throw_if : (b : Bool) (e : Failure) → Silent (throw_if b e)
  unfolding throw_if
  Silent-throw_if true e = record { at = λ w. Quiet-refl w }
  Silent-throw_if false e = record { at = λ w. Quiet-refl w }

  pub Silent-gets : {A : Type 0} (S : Site R) (f : R → A) → Silent (gets S f)
  unfolding gets
  Silent-gets S f = record { at = λ w. Quiet-refl w }

  pub Silent-read_journal : Silent read_journal
  unfolding read_journal
  Silent-read_journal = record { at = λ w. Quiet-refl w }

  removed-Quiet : (o : Option R) (w : World R) → Quiet w (removed o w).1
  removed-Quiet none w = Quiet-refl w
  removed-Quiet (some r) w = record { journal = refl; pushes_same = refl }

  pub Silent-unlink : (S : Site R) (path : String) → Silent (unlink S path)
  unfolding unlink
  Silent-unlink S path = record { at = λ w. removed-Quiet (S.unlink path w.repo) w }

  pub Silent-transport_git :
      (S : Site R) (state : ProviderState) (snapshot : Option CanonicalizationSnapshot)
      (c : Command)
      → is_push c ≡ false
      → Silent (transport_git S state snapshot c)
  unfolding transport_git pushes
  Silent-transport_git S state snapshot c e = record {
    at = λ w. record { journal = refl; pushes_same = push_of-same c w.journal (pushes w.sent) e };
  }

  continue-Quiet :
      {A B : Type 0} (r : Result Failure A) (f : A → M R B) (w v : World R)
      → Quiet w v
      → ((a : A) → Silent (f a))
      → Quiet w (continue r f v).1
  continue-Quiet (ok a) f w v q k = Quiet-trans w v _ q ((k a).at v)
  continue-Quiet (err e) f w v q k = q

  pub Silent-bind :
      {A B : Type 0} (m : M R A) (f : A → M R B)
      → Silent m
      → ((a : A) → Silent (f a))
      → Silent (m >>= f)
  unfolding ◌>>=◌
  Silent-bind m f h k = record { at = λ w. continue-Quiet (m w).0 f w (m w).1 (h.at w) k }

  pub Silent-if :
      {A : Type 0} (b : Bool) (m n : M R A) → Silent m → Silent n → Silent (if b then m else n)
  Silent-if true m n km kn = km
  Silent-if false m n km kn = kn

  -- A silent program, before another one.
  pub Ends-Silent :
      {A B : Type 0} (Q : A → World R → Type 0) (X : World R → Type 0) (w : World R) (m : M R B)
      (f : B → M R A)
      → Silent m
      → ((v : World R) → Quiet w v → X v)
      → ((b : B) (v : World R) → Quiet w v → Ends Q X v (f b))
      → Ends Q X w (m >>= f)
  Ends-Silent Q X w m f h x k =
      Ends-bind Q X (λ _ v. Quiet w v) w m f
        (record { returns = λ a e. h.at w; raises = λ e q. x _ (h.at w) }) (λ b v q. k b v q)

pub ruleset silence = (
  Silent-pure, Silent-raise, Silent-lift, Silent-throw_if, Silent-gets, Silent-read_journal,
  Silent-unlink, Silent-transport_git, Silent-bind, Silent-if,
)
