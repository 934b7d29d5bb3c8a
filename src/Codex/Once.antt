-- ===== src/Codex/Once.antt =====
-- Whole runs: what each leaves of the journal file and of the pushes.
use sentinelx_cloud_core.Base.{
  not-false, String, Bool, true, false, not, ◌&&◌, ◌==◌, string_eq, nat_eq, option_eq, ◌≡◌, refl,
  sym, ap, ◌∙◌, arith, Option, none, some, List, option_beq_iff,
}
use mathlib.Core.Path.{subst}
use sentinelx_cloud_core.Base.Text.{is_blank}
use sentinelx_cloud_core.Base.Result.{Result, ok, err}
use sentinelx_cloud_core.Codex.Site.{Site, Failure, CanonicalizationSnapshot}
use sentinelx_cloud_core.Codex.Command.{ProviderState}
use sentinelx_cloud_core.Codex.Journal.{
  PersistenceJournal, JournalFile, missing, malformed, saved, State, prepared, tree_ready,
  candidate_ready, local_ref_ready, publish_intent, published, unknown, same_attempt,
}
use sentinelx_cloud_core.Codex.Program.{World, M, ◌>>=◌, read_file}
use sentinelx_cloud_core.Codex.Recover.{
  Request, is_state, text_of, journal_matches, recover_publish_intent,
}
use sentinelx_cloud_core.Codex.Inventory.{WorktreeDelta, delta_count}
use sentinelx_cloud_core.Codex.Persist.{
  prepare, report_no_change, persist_fresh, resume, persist_from, persist_implementation,
}
use sentinelx_cloud_core.Codex.Ends.{
  Ends, Ends-bind, Ends-pure, Ends-raise, Ends-if, Ends-throw_if, Ends-write, Ends-write_last,
  Ends-read_journal,
}
use sentinelx_cloud_core.Codex.Silent.{Push, pushes, Quiet, Silent, Ends-Silent}
use sentinelx_cloud_core.Codex.Quietly.{
  remote_head-Silent, resolve_revision-Silent, branch_of_checkout-Silent,
  revalidate_canonicalization-Silent, inventory-Silent, journal_identity-Silent,
  recover_published-Silent, open_state-Silent, open_snapshot-Silent,
}
use sentinelx_cloud_core.Codex.Advance.{
  Succeeds, same, begin, confirm, Succeeds-from, is_pushed, file_pushed,
}
use sentinelx_cloud_core.Codex.Publishes.{Publishes, quiet}
use sentinelx_cloud_core.Codex.Phases.{
  Ended, Returned, Fit, Fit-Publishes, Fit-write, persist_changes-Ends,
}

and_third : (a b c d : Bool) → (a && (b && (c && d))) ≡ true → c ≡ true
and_third a b c d e = ground arith

abbrev pub file_of : Option PersistenceJournal → JournalFile
file_of none = missing
file_of (some j) = saved j

given : {A : Type 0} → A → Result Failure A → A
given a (ok b) = b
given a (err e) = a

pub read_file-file_of :
    (f : JournalFile) (found : Option PersistenceJournal)
    → read_file f ≡ ok found
    → f ≡ file_of found
unfolding given
read_file-file_of missing found e = ap (λ r. file_of (given none r)) e
read_file-file_of malformed found e = cc
read_file-file_of (saved j) found e = ap (λ r. file_of (given none r)) e

is_state-intent : (s : State) → is_state s publish_intent ≡ true → s ≡ publish_intent
is_state-intent publish_intent e = refl
is_state-intent prepared e = cc
is_state-intent tree_ready e = cc
is_state-intent candidate_ready e = cc
is_state-intent local_ref_ready e = cc
is_state-intent published e = cc
is_state-intent (unknown t) e = cc

is_state-unpushed :
    (s : State)
    → is_state s published ≡ false
    → is_state s publish_intent ≡ false
    → is_pushed s ≡ false
unfolding is_pushed
is_state-unpushed publish_intent x y = cc
is_state-unpushed published x y = cc
is_state-unpushed _ x y = refl

module _ {R : Type 0} (S : Site R) (q : Request) (o : JournalFile) (P : List Push) where
  -- The file and the pushes are those of the beginning.
  pub record Started (v : World R) : Type 0 where
    pub file : v.journal ≡ o
    pub sent : pushes v.sent ≡ P

  Started-Publishes : (v : World R) → Started v → Publishes o P v
  Started-Publishes v p = quiet p.sent (subst (λ f. Succeeds o f) (sym p.file) same)

  Started-Quiet : (u v : World R) → Started u → Quiet u v → Started v
  Started-Quiet u v p s = record { file = s.journal ∙ p.file; sent = s.pushes_same ∙ p.sent }

  Ends-Started :
      {A B : Type 0} (Q : A → World R → Type 0) (w : World R) (m : M R B) (f : B → M R A)
      → Silent m
      → Started w
      → ((b : B) (v : World R) → Started v → Ends Q (Ended S q o P) v (f b))
      → Ends Q (Ended S q o P) w (m >>= f)
  Ends-Started Q w m f h p k =
      Ends-Silent Q (Ended S q o P) w m f h (λ v s. Started-Publishes v (Started-Quiet w v p s))
        (λ b v s. k b v (Started-Quiet w v p s))

  Ends-all :
      {A : Type 0} (w : World R) (m : M R A)
      → Silent m
      → Started w
      → Ends (Returned S q o P) (Ended S q o P) w m
  Ends-all w m h p = record {
    returns = λ a e. Started-Publishes _ (Started-Quiet w _ p (h.at w));
    raises = λ x e. Started-Publishes _ (Started-Quiet w _ p (h.at w));
  }

  module _ (state : ProviderState) (snapshot : CanonicalizationSnapshot) where
    -- A run that has not pushed: the file is missing, or holds a journal of this attempt.
    abbrev Before : Option PersistenceJournal → Type 0
    Before none = o ≡ missing
    Before (some j) =
        (o ≡ saved j) × (is_pushed j.state ≡ false) × (j.transport.canonical_branch ≡ some q.branch)

    Before-fresh : (given : Option PersistenceJournal) → Before given → file_pushed o ≡ false
    Before-fresh none b = rw b refl
    Before-fresh (some j) b = rw b.0 b.1

    prepare-Ends :
        (given : Option PersistenceJournal) (d : WorktreeDelta) (w : World R)
        → Before given
        → Started w
        → Ends (Fit S q o P) (Ended S q o P) w (prepare S q state snapshot given d)
    unfolding prepare is_pushed
    prepare-Ends none d w b p =
        Ends-Started (Fit S q o P) w _ _ (journal_identity-Silent S q) p λ identity v r.
          Ends-write_last (Fit S q o P) (Ended S q o P) S v _ (Started-Publishes v r) (record {
            working = record { file = refl; sent = r.sent; since = Succeeds-from b begin };
            unpushed = refl;
            branch = refl;
          })
    prepare-Ends (some j) d w b p =
        Ends-throw_if (Fit S q o P) (Ended S q o P) w _ _ _ (Started-Publishes w p) λ passed.
          Ends-pure (Fit S q o P) (Ended S q o P) w j (record {
            working = record { file = p.file ∙ b.0; sent = p.sent; since = Succeeds-from b.0 same };
            unpushed = b.1;
            branch = b.2;
          })

    report_no_change-Ends :
        (j : PersistenceJournal) (d : WorktreeDelta) (remote actual head : String) (w : World R)
        → (Fit S q o P) j w
        → Ends
            (Returned S q o P)
            (Ended S q o P)
            w
            (report_no_change S q state snapshot j d remote actual head)
    unfolding report_no_change is_pushed
    report_no_change-Ends j d remote actual head w p =
        Ends-write (Returned S q o P) (Ended S q o P) S w _ _ (Fit-Publishes S q o P j w p) (
          Ends-pure (Returned S q o P) (Ended S q o P) _ _
            (Fit-Publishes S q o P _ _ (Fit-write S q o P j _ w p refl (search))))

    persist_fresh-Ends :
        (given : Option PersistenceJournal) (w : World R)
        → Before given
        → Started w
        → Ends (Returned S q o P) (Ended S q o P) w (persist_fresh S q state snapshot given)
    unfolding persist_fresh
    persist_fresh-Ends given w b p =
        Ends-Started _ w _ _ (resolve_revision-Silent S state snapshot "HEAD") p λ head w1 p1.
          Ends-throw_if _ (Ended S q o P) w1 _ _ _ (Started-Publishes w1 p1) λ _.
            Ends-Started _ w1 _ _ (branch_of_checkout-Silent S q state snapshot) p1 λ actual w2 p2.
              Ends-throw_if _ (Ended S q o P) w2 _ _ _ (Started-Publishes w2 p2) λ _.
                Ends-Started _ w2 _ _ (revalidate_canonicalization-Silent S state snapshot) p2
                  λ _ w3 p3.
                    Ends-Started _ w3 _ _ (remote_head-Silent S q state snapshot) p3 λ remote w4 p4.
                      Ends-throw_if _ (Ended S q o P) w4 _ _ _ (Started-Publishes w4 p4) λ _.
                        Ends-Started _ w4 _ _ (inventory-Silent S state q.expected_remote_sha) p4
                          λ d w5 p5.
                            Ends-bind _ (Ended S q o P) (Fit S q o P) w5 _ _
                              (prepare-Ends given d w5 b p5)
                              λ j v r.
                                Ends-throw_if _ (Ended S q o P) v _ _ _
                                  (Fit-Publishes S q o P j v r)
                                  λ _.
                                    Ends-if _ (Ended S q o P) v (delta_count d == 0) _ _
                                      (λ _. report_no_change-Ends j d remote actual head v r)
                                      (λ _.
                                        persist_changes-Ends S q o P state snapshot j d actual v
                                          (Before-fresh given b) r)

    recover_publish_intent-Ends :
        (j : PersistenceJournal) (w : World R)
        → o ≡ saved j
        → j.state ≡ publish_intent
        → Started w
        → Ends (Returned S q o P) (Ended S q o P) w (recover_publish_intent S q state snapshot j)
    unfolding recover_publish_intent
    recover_publish_intent-Ends j w e i p =
        let candidate = text_of j.candidate_commit_sha in
        Ends-Started _ w _ _ (remote_head-Silent S q state snapshot) p λ remote w1 p1.
          Ends-Started _ w1 _ _ (branch_of_checkout-Silent S q state snapshot) p1 λ actual v r.
            Ends-if _ (Ended S q o P) v (remote == candidate && not (is_blank candidate)) _ _
              (λ _. Ends-write (Returned S q o P) (Ended S q o P) S v _ _ (Started-Publishes v r) (
                Ends-pure (Returned S q o P) (Ended S q o P) _ _
                  (quiet r.sent (Succeeds-from e (confirm i)))))
              (λ _.
                Ends-if _ (Ended S q o P) v (remote == q.expected_remote_sha) _ _
                  (λ _. Ends-pure (Returned S q o P) (Ended S q o P) v _ (Started-Publishes v r))
                  (λ _. Ends-raise (Returned S q o P) (Ended S q o P) v _ (Started-Publishes v r)))

    resume-Ends :
        (j : PersistenceJournal) (w : World R)
        → o ≡ saved j
        → j.transport.canonical_branch ≡ some q.branch
        → Started w
        → Ends (Returned S q o P) (Ended S q o P) w (resume S q state snapshot j)
    unfolding resume
    resume-Ends j w e b p =
        Ends-if _ (Ended S q o P) w (is_state j.state published) _ _
          (λ _. Ends-all w _ (recover_published-Silent S q state snapshot j) p)
          (λ x.
            Ends-if _ (Ended S q o P) w (is_state j.state publish_intent) _ _
              (λ y. recover_publish_intent-Ends j w e (is_state-intent j.state y) p)
              (λ y. persist_fresh-Ends (some j) w (e, is_state-unpushed j.state x y, b) p))

    -- A journal that matches the run is for its branch.
    journal_matches-Ends :
        (j : PersistenceJournal) (w : World R)
        → Started w
        → Ends
            (λ b v. Started v × (b ≡ true → j.transport.canonical_branch ≡ some q.branch))
            (Ended S q o P)
            w
            (journal_matches S q j)
    unfolding journal_matches
    journal_matches-Ends j w p =
        Ends-Started _ w _ _ (journal_identity-Silent S q) p λ identity v r.
          Ends-pure _ (Ended S q o P) v _ (
            r,
            λ e. (option_beq_iff j.transport.canonical_branch (some q.branch)).0 (
                and_third (same_attempt j.identity identity)
                  (j.transport.canonical_pr == some q.canonical_pr)
                  (j.transport.canonical_branch == some q.branch) _ e),
          )

    persist_from-Ends :
        (found : Option PersistenceJournal) (w : World R)
        → o ≡ file_of found
        → Started w
        → Ends (Returned S q o P) (Ended S q o P) w (persist_from S q state snapshot found)
    unfolding persist_from
    persist_from-Ends none w e p = persist_fresh-Ends none w e p
    persist_from-Ends (some j) w e p =
        Ends-bind _ (Ended S q o P) _ w _ _ (journal_matches-Ends j w p) λ matches v r.
          Ends-throw_if _ (Ended S q o P) v _ _ _ (Started-Publishes v r.0)
            λ passed. resume-Ends j v e (r.1 (not-false matches passed)) r.0

  pub persist_implementation-Ends :
      (w : World R)
      → Started w
      → Ends (Returned S q o P) (Ended S q o P) w (persist_implementation S q)
  unfolding persist_implementation
  persist_implementation-Ends w p =
      Ends-Started _ w _ _ (open_state-Silent S q q.bootstrap.state) p λ state w1 p1.
        Ends-Started _ w1 _ _ (open_snapshot-Silent S q q.bootstrap.snapshot) p1 λ snapshot w2 p2.
          Ends-read_journal _ (Ended S q o P) w2 _ (Started-Publishes w2 p2) λ found e.
            persist_from-Ends state snapshot found w2
              (sym p2.file ∙ read_file-file_of w2.journal found e) p2
