-- ===== src/Codex/HeadMoved.antt =====
-- A run that has not pushed yet ends in an error when the head of the checkout has moved.
use sentinelx_cloud_core.Base.{
  not-false, true, false, not, ◌==◌, string_eq, nat_eq, nat_beq_iff, ◌≡◌, refl, sym, ap, Option,
  none, some, [], ◌∷◌, eq_iff, inl, inr, Bool-cases, Option-cases,
}
use mathlib.Core.Path.{subst}
use sentinelx_cloud_core.Base.Result.{Result, ok, err, Result-cases}
use sentinelx_cloud_core.Placement.{canonical_repository}
use sentinelx_cloud_core.Codex.Site.{Site, Answer, Failure, CanonicalizationSnapshot}
use sentinelx_cloud_core.Codex.Command.{rev_parse, ProviderState, argv, environ}
use sentinelx_cloud_core.Codex.Journal.{
  PersistenceJournal, State, prepared, tree_ready, candidate_ready, local_ref_ready, published,
  publish_intent, unknown,
}
use sentinelx_cloud_core.Codex.Program.{World, M, ◌>>=◌, pure, raise, answered, transport_git}
use sentinelx_cloud_core.Codex.Canonical.{output}
use sentinelx_cloud_core.Codex.Candidate.{resolve_revision}
use sentinelx_cloud_core.Codex.Recover.{
  Request, PersistenceOutcome, is_state, canonical_name, journal_identity, journal_matches,
}
use sentinelx_cloud_core.Codex.Persist.{
  open_state, open_snapshot, persist_fresh, resume, persist_from, persist_implementation,
}
use sentinelx_cloud_core.Codex.Ends.{
  Ends, Ends-bind, Ends-pure, Ends-if, Ends-throw_if, Ends-read_journal,
}
use sentinelx_cloud_core.Codex.Silent.{Quiet, Quiet-refl, Silent-transport_git}
use sentinelx_cloud_core.Codex.Advance.{is_pushed, file_pushed}
use sentinelx_cloud_core.Codex.Once.{file_of, read_file-file_of}

value : Answer → Result Failure Answer → Answer
value a (ok b) = b
value a (err x) = a

answered-some : (r : Option Answer) (a : Answer) → answered r ≡ ok a → r ≡ some a
unfolding value
answered-some none a e = cc
answered-some (some b) a e = ap (λ x. some (value b x)) e

unpushed_is :
    (s : State)
    → is_pushed s ≡ false
    → (is_state s published ≡ true → ⊥) × (is_state s publish_intent ≡ true → ⊥)
unfolding is_pushed
unpushed_is publish_intent u = cc
unpushed_is published u = cc
unpushed_is prepared u = (λ e. cc, λ e. cc)
unpushed_is tree_ready u = (λ e. cc, λ e. cc)
unpushed_is candidate_ready u = (λ e. cc, λ e. cc)
unpushed_is local_ref_ready u = (λ e. cc, λ e. cc)
unpushed_is (unknown t) u = (λ e. cc, λ e. cc)

-- A program that changes nothing at all.
record Still {R A : Type 0} (m : M R A) : Type 0 where
  at : (w : World R) → (m w).1 ≡ w

module _ {R : Type 0} (S : Site R) (q : Request) where
  -- `git rev-parse HEAD` fails, or prints something else than the admitted head.
  pub record HasHeadMoved (r : R) : Type 0 where
    pub never :
        (a : Answer)
        → (S.git ("rev-parse" ∷ "HEAD" ∷ []) [] r).0 ≡ some a
        → a.code ≡ 0
        → output S a ≡ q.expected_remote_sha
        → ⊥

  abbrev Never : PersistenceOutcome → World R → Type 0
  Never outcome v = ⊥

  Ends-Still :
      {B : Type 0} (X : World R → Type 0) (w : World R) (m : M R B) (f : B → M R PersistenceOutcome)
      → Still m
      → X w
      → ((b : B) → (m w).0 ≡ ok b → Ends Never X w (f b))
      → Ends Never X w (m >>= f)
  Ends-Still X w m f h x k =
      Ends-bind Never X (λ b v. Ends Never X v (f b)) w m f
        (record {
          returns = λ b e. subst (λ v. Ends Never X v (f b)) (sym (h.at w)) (k b e);
          raises = λ e r. subst X (sym (h.at w)) x;
        })
        (λ b v r. r)

  open_state-Still : (given : Option ProviderState) → Still (open_state S q given)
  unfolding open_state ◌>>=◌
  open_state-Still (some state) = record { at = λ w. refl }
  open_state-Still none = record {
    at = λ w. elim (Bool-cases (S.writable w.repo)) [ inl e ↦ rw e refl | inr e ↦ rw e refl ];
  }

  open_snapshot-Still : (given : Option CanonicalizationSnapshot) → Still (open_snapshot S q given)
  unfolding open_snapshot ◌>>=◌ raise pure
  open_snapshot-Still (some snapshot) = record { at = λ w. refl }
  open_snapshot-Still none = record {
    at = λ w. elim (Option-cases (S.snapshot_file w.repo)) [
      | inl e ↦ rw e refl
      | inr (snapshot, e) ↦ rw e refl
    ];
  }

  journal_matches-Still : (j : PersistenceJournal) → Still (journal_matches S q j)
  unfolding journal_matches journal_identity ◌>>=◌
  journal_matches-Still j = record {
    at = λ w. elim (Result-cases (canonical_name (canonical_repository S.host q.repository))) [
      | inl (name, e) ↦ rw e refl
      | inr (x, e) ↦ rw e refl
    ];
  }

  module _ (state : ProviderState) (snapshot : CanonicalizationSnapshot) where
    -- The reply to `git rev-parse HEAD`.
    head_reply :
        (w : World R)
        → Ends
            (λ a v. ((S.git ("rev-parse" ∷ "HEAD" ∷ []) [] w.repo).0 ≡ some a) × Quiet w v)
            (λ v. Quiet w v)
            w
            (transport_git S state (some snapshot) (rev_parse "HEAD"))
    unfolding transport_git argv environ
    head_reply w =
        let still = (Silent-transport_git S state (some snapshot) (rev_parse "HEAD") refl).at w in
        record { returns = λ a e. (answered-some _ a e, still); raises = λ x e. still }

    persist_fresh-raises :
        (given : Option PersistenceJournal) (w : World R)
        → HasHeadMoved w.repo
        → Ends Never (λ v. Quiet w v) w (persist_fresh S q state snapshot given)
    unfolding persist_fresh resolve_revision
    persist_fresh-raises given w moved =
        Ends-bind _ _ (λ head v. Quiet w v × (head ≡ q.expected_remote_sha → ⊥)) w _ _
          (Ends-bind _ _ _ w _ _ (head_reply w) λ a v r.
            Ends-throw_if _ _ v (not (a.code == 0)) _ _ r.1 λ c. Ends-pure _ _ v (output S a) (
              r.1,
              λ e. moved.never a r.0 ((nat_beq_iff a.code 0).0 (not-false (a.code == 0) c)) e,
            ))
          λ head v p.
            Ends-throw_if _ _ v (not (head == q.expected_remote_sha)) _ _ p.0
              λ c. absurd (p.1 ((eq_iff head _).0 (not-false (head == q.expected_remote_sha) c)))

    resume-raises :
        (j : PersistenceJournal) (w : World R)
        → is_pushed j.state ≡ false
        → HasHeadMoved w.repo
        → Ends Never (λ v. Quiet w v) w (resume S q state snapshot j)
    unfolding resume
    resume-raises j w u moved =
        Ends-if _ _ w (is_state j.state published) _ _ (λ x. absurd ((unpushed_is j.state u).0 x))
          (λ _.
            Ends-if _ _ w (is_state j.state publish_intent) _ _
              (λ x. absurd ((unpushed_is j.state u).1 x))
              (λ _. persist_fresh-raises (some j) w moved))

    persist_from-raises :
        (found : Option PersistenceJournal) (w : World R)
        → file_pushed (file_of found) ≡ false
        → HasHeadMoved w.repo
        → Ends Never (λ v. Quiet w v) w (persist_from S q state snapshot found)
    unfolding persist_from
    persist_from-raises none w u moved = persist_fresh-raises none w moved
    persist_from-raises (some j) w u moved =
        Ends-Still _ w _ _ (journal_matches-Still j) (Quiet-refl w)
          λ same e. Ends-throw_if _ _ w _ _ _ (Quiet-refl w) λ c. resume-raises j w u moved

  run-raises :
      (w : World R)
      → file_pushed w.journal ≡ false
      → HasHeadMoved w.repo
      → Ends Never (λ v. Quiet w v) w (persist_implementation S q)
  unfolding persist_implementation
  run-raises w u moved =
      Ends-Still _ w _ _ (open_state-Still q.bootstrap.state) (Quiet-refl w) λ state _.
        Ends-Still _ w _ _ (open_snapshot-Still q.bootstrap.snapshot) (Quiet-refl w) λ snapshot _.
          Ends-read_journal _ _ w _ (Quiet-refl w) λ found e.
            persist_from-raises state snapshot found w
              (subst (λ f. file_pushed f ≡ false) (read_file-file_of w.journal found e) u) moved

  -- When `git rev-parse HEAD` in the checkout does not give the admitted head, and the journal file
  -- is in no state after the intent to publish, persist_implementation raises, leaves the file as
  -- it was and sends no push. A journal in state `local_ref_ready` is no exception.
  pub persist_implementation-raises :
      (w : World R)
      → file_pushed w.journal ≡ false
      → HasHeadMoved w.repo
      → ((e : Failure) × ((persist_implementation S q w).0 ≡ err e))
        × Quiet w (persist_implementation S q w).1
  persist_implementation-raises w u moved = elim (Result-cases (persist_implementation S q w).0) [
    | inl (outcome, e) ↦ absurd ((run-raises w u moved).returns outcome e)
    | inr (x, e) ↦ ((x, e), (run-raises w u moved).raises x e)
  ]
