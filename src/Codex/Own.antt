-- ===== src/Codex/Own.antt =====
-- A run acts on a journal of its own attempt and transport only, and on none that it cannot read.
use sentinelx_cloud_core.Base.{
  not-false, String, Bool, true, ◌&&◌, ◌==◌, string_eq, nat_eq, option_eq, ◌≡◌, sym, ap, ◌∙◌, arith,
  Option, none, some, eq_iff, option_beq_iff, ◌≢◌,
}
use sentinelx_cloud_core.Base.Result.{Result, ok, err}
use mathlib.Core.Path.{subst}
use sentinelx_cloud_core.Errors.{Error}
use sentinelx_cloud_core.Placement.{canonical_repository}
use sentinelx_cloud_core.Codex.Site.{Site, CanonicalizationSnapshot}
use sentinelx_cloud_core.Codex.Command.{ProviderState}
use sentinelx_cloud_core.Codex.Journal.{
  PersistenceJournal, AttemptIdentity, JournalFile, missing, malformed, saved, same_attempt,
}
use sentinelx_cloud_core.Codex.Program.{World, M, read_file, or_given}
use sentinelx_cloud_core.Codex.Recover.{
  Request, PersistenceOutcome, canonical_name, journal_identity, journal_matches,
}
use sentinelx_cloud_core.Codex.Persist.{persist_from, persist_implementation}
use sentinelx_cloud_core.Codex.Ends.{
  Ends, Ends-bind, Ends-pure, Ends-lift, Ends-throw_if, Ends-read_journal,
}
use sentinelx_cloud_core.Codex.Silent.{Ends-Silent}
use sentinelx_cloud_core.Codex.Quietly.{open_state-Silent, open_snapshot-Silent}

-- The journal is of the attempt, the repository and the transport of the request.
pub record IsOwn {R : Type 0} (S : Site R) (q : Request) (j : PersistenceJournal) : Type 0 where
  pub repository : canonical_repository S.host q.repository ≡ ok j.identity.repository
  pub task : j.identity.task_id ≡ q.semantic.task_id
  pub run : j.identity.run_id ≡ q.semantic.run_id
  pub attempt : j.identity.attempt_id ≡ q.semantic.attempt_id
  pub slice : j.identity.slice_id ≡ q.semantic.slice_id
  pub pr : j.transport.canonical_pr ≡ some q.canonical_pr
  pub branch : j.transport.canonical_branch ≡ some q.branch
  pub base : j.transport.expected_remote_sha ≡ some q.expected_remote_sha

left : (a b : Bool) → (a && b) ≡ true → a ≡ true
left a b e = ground arith

right : (a b : Bool) → (a && b) ≡ true → b ≡ true
right a b e = ground arith

given : {E A : Type 0} → A → Result E A → A
given a (ok b) = b
given a (err e) = a

canonical-ok : (r : Result Error String) (name : String) → canonical_name r ≡ ok name → r ≡ ok name
unfolding given
canonical-ok (ok n) name e = ap (λ x. ok (given n x)) e
canonical-ok (err x) name e = cc

same_found : (j k : PersistenceJournal) → read_file (saved j) ≡ ok (some k) → k ≡ j
unfolding given
same_found j k e = ap (λ x. or_given j (given none x)) (sym e)

module _ {R : Type 0} (S : Site R) (q : Request) where
  abbrev matched : PersistenceJournal → AttemptIdentity → Bool
  matched j identity =
      same_attempt j.identity identity
      && (j.transport.canonical_pr == some q.canonical_pr
          && (j.transport.canonical_branch == some q.branch
              && j.transport.expected_remote_sha == some q.expected_remote_sha))

  Ends-always :
      {A : Type 0} {G : Type 0} (w : World R) (m : M R A) → G → Ends (λ _ _. G) (λ _. Unit {0}) w m
  Ends-always w m g = record { returns = λ a e. g; raises = λ x e. tt }

  abbrev Any : World R → Type 0
  Any v = Unit {0}

  IsOwn-from :
      (j : PersistenceJournal) (name : String)
      → canonical_repository S.host q.repository ≡ ok name
      → (same_attempt j.identity (record {
        repository = name;
        task_id = q.semantic.task_id;
        run_id = q.semantic.run_id;
        attempt_id = q.semantic.attempt_id;
        slice_id = q.semantic.slice_id;
      })
          && (j.transport.canonical_pr == some q.canonical_pr
              && (j.transport.canonical_branch == some q.branch
                  && j.transport.expected_remote_sha == some q.expected_remote_sha)))
        ≡ true
      → IsOwn S q j
  IsOwn-from j name c e =
      let a = left _ _ e in
      let b = right _ _ e in
      let a1 = right _ _ a in
      let a2 = right _ _ a1 in
      let a3 = right _ _ a2 in
      let b1 = right _ _ b in
      record {
        repository = c ∙ ap ok (sym ((eq_iff _ _).0 (left _ _ a)));
        task = (eq_iff _ _).0 (left _ _ a1);
        run = (eq_iff _ _).0 (left _ _ a2);
        attempt = (eq_iff _ _).0 (left _ _ a3);
        slice = (option_beq_iff _ _).0 (right _ _ a3);
        pr = (option_beq_iff _ _).0 (left _ _ b);
        branch = (option_beq_iff _ _).0 (left _ _ b1);
        base = (option_beq_iff _ _).0 (right _ _ b1);
      }

  journal_matches-IsOwn :
      (j : PersistenceJournal) (w : World R)
      → Ends (λ b _. b ≡ true → IsOwn S q j) Any w (journal_matches S q j)
  unfolding journal_matches journal_identity
  journal_matches-IsOwn j w =
      Ends-bind _ Any (λ identity _. matched j identity ≡ true → IsOwn S q j) w _ _
        (Ends-lift _ Any w _ _ tt λ name e.
          Ends-pure _ Any w _
            (IsOwn-from j name (canonical-ok (canonical_repository S.host q.repository) name e)))
        (λ identity v k. Ends-pure _ Any v _ k)

  persist_from-IsOwn :
      (state : ProviderState) (snapshot : CanonicalizationSnapshot) (j : PersistenceJournal)
      (w : World R)
      → Ends (λ _ _. IsOwn S q j) Any w (persist_from S q state snapshot (some j))
  unfolding persist_from
  persist_from-IsOwn state snapshot j w =
      Ends-bind _ Any _ w _ _ (journal_matches-IsOwn j w)
        λ b v k. Ends-throw_if _ Any v _ _ _ tt λ passed. Ends-always v _ (k (not-false b passed))

  -- A file that the run found, and what follows when the run returns.
  abbrev Found : JournalFile → Type 0
  Found missing = Unit {0}
  Found malformed = ⊥
  Found (saved j) = IsOwn S q j

  Found-Ends :
      (state : ProviderState) (snapshot : CanonicalizationSnapshot) (f : JournalFile)
      (found : Option PersistenceJournal) (w : World R)
      → read_file f ≡ ok found
      → Ends (λ _ _. Found f) Any w (persist_from S q state snapshot found)
  Found-Ends state snapshot missing found w e = Ends-always w _ tt
  Found-Ends state snapshot malformed found w e = cc
  Found-Ends state snapshot (saved j) none w e = cc
  Found-Ends state snapshot (saved j) (some k) w e =
      subst (λ i. Ends (λ _ _. IsOwn S q i) Any w (persist_from S q state snapshot (some k)))
        (same_found j k e) (persist_from-IsOwn state snapshot k w)

  run-Found : (w : World R) → Ends (λ _ _. Found w.journal) Any w (persist_implementation S q)
  unfolding persist_implementation
  run-Found w =
      Ends-Silent _ Any w _ _ (open_state-Silent S q q.bootstrap.state) (λ _ _. tt)
        λ state u s.
          Ends-Silent _ Any u _ _ (open_snapshot-Silent S q q.bootstrap.snapshot) (λ _ _. tt)
            λ snapshot v t. Ends-read_journal _ Any v _ tt λ found e.
              Found-Ends state snapshot w.journal found v
                (ap read_file (sym (t.journal ∙ s.journal)) ∙ e)

  -- When persist_implementation returns, a journal that the file held before is of the same
  -- repository, attempt, pull request, branch and expected head as the request; and the file was
  -- not malformed.
  pub persist_implementation-IsOwn :
      (w : World R) (outcome : PersistenceOutcome)
      → (persist_implementation S q w).0 ≡ ok outcome
      → (w.journal ≢ malformed) × ((j : PersistenceJournal) → w.journal ≡ saved j → IsOwn S q j)
  persist_implementation-IsOwn w outcome e =
      let held = (run-Found w).returns outcome e in
      (λ m. subst Found m held, λ j f. subst Found f held)
