-- ===== src/Codex/Turns.antt =====
-- Any number of runs, each on the journal file of its own state directory, with others at work on
-- the checkouts and on the remotes between them.
use mathlib.Core.Path.{subst}
use sentinelx_cloud_core.Host.{Host}
use sentinelx_cloud_core.Codex.Command.{
  Command, DirectCodexWorkspace, ProviderState, provider_state,
}
use sentinelx_cloud_core.Base.{
  Option, none, some, ◌==◌, string_eq, eq_iff, if◌then◌else◌, String, ◌≡◌, refl, sym, ◌∙◌, List, [],
  ◌∷◌, true, false,
}
use sentinelx_cloud_core.Codex.Site.{Site}
use sentinelx_cloud_core.Codex.Journal.{PersistenceJournal, JournalFile, saved, published}
use sentinelx_cloud_core.Codex.Program.{World}
use sentinelx_cloud_core.Codex.Recover.{Request}
use sentinelx_cloud_core.Codex.Persist.{persist_implementation}
use sentinelx_cloud_core.Base.Result.{Result-cases}
use sentinelx_cloud_core.Base.{inl, inr, ap, Bool-cases}
use sentinelx_cloud_core.Codex.Silent.{Push, pushes}
use sentinelx_cloud_core.Codex.Advance.{
  Succeeds, same, work, confirm, Succeeds-from, Succeeds-trans, Succeeds-pushed, Bound, Bound-refl,
  moves-Bound, is_pushed, file_pushed,
}
use sentinelx_cloud_core.Codex.Publishes.{Publishes, quiet, pushed, IsIntent}
use sentinelx_cloud_core.Codex.Once.{persist_implementation-Ends}

-- What others make of Git's state first, and then the arguments of a run.
pub record Turn (R : Type 0) : Type 0 where
  pub others : R → R
  pub request : Request

-- A push was sent with this very journal on disk.
pushed_conflict : (f : JournalFile) → file_pushed f ≡ true → file_pushed f ≡ false → ⊥
pushed_conflict f a b = cc

file_pushed-intent :
    (k : PersistenceJournal) (c b : String) → IsIntent k c b → file_pushed (saved k) ≡ true
unfolding is_pushed
file_pushed-intent k c b i = rw i.state refl

unpushed_before :
    {o : JournalFile} (f : JournalFile)
    → Succeeds o f
    → file_pushed f ≡ false
    → file_pushed o ≡ false
unpushed_before {o} f a e = elim (Bool-cases (file_pushed o)) [
  | inl t ↦ absurd (pushed_conflict f (Succeeds-pushed a t) e)
  | inr t ↦ t
]

confirmed-pushed : is_pushed published ≡ true
unfolding is_pushed
confirmed-pushed = refl

-- What stays of a journal that was written: the fields that bind it, and its candidate once that
-- may have been pushed.
pub record Keeps (j : PersistenceJournal) (f : JournalFile) : Type 0 where
  pub now : PersistenceJournal
  pub file : f ≡ saved now
  pub bound : Bound j now
  pub pushed_stays :
      is_pushed j.state ≡ true
      → (is_pushed now.state ≡ true) × (now.candidate_commit_sha ≡ j.candidate_commit_sha)

Succeeds-Keeps : (j : PersistenceJournal) {g : JournalFile} → Succeeds (saved j) g → Keeps j g
Succeeds-Keeps j same = record {
  now = j;
  file = refl;
  bound = Bound-refl j;
  pushed_stays = λ p. (p, refl);
}
Succeeds-Keeps j (work {k = k} u b) = record {
  now = k;
  file = refl;
  bound = b;
  pushed_stays = λ p. absurd (pushed_conflict (saved j) p u);
}
Succeeds-Keeps j (confirm e) = record {
  now = record j { state = published };
  file = refl;
  bound = moves-Bound j published;
  pushed_stays = λ p. (confirmed-pushed, refl);
}

-- One journal file, and the commands that the runs on it sent.
pub record Desk : Type 0 where
  pub journal : JournalFile
  pub sent : List (Command × JournalFile)

-- Everything that Git and the files are, and the journal files by their paths.
pub record Desks (R : Type 0) : Type 0 where
  pub repo : R
  pub at : String → Desk

-- `state.journal`, of the state that the bootstrap brings or of the workspace's own one.
abbrev state_of : Host → DirectCodexWorkspace → Option ProviderState → ProviderState
state_of h workspace none = provider_state h workspace
state_of h workspace (some state) = state

unfoldable pub journal_path : Host → Request → String
journal_path h q = (state_of h q.workspace q.bootstrap.state).journal

-- What a run sees of the desks.
abbrev pub world_at : {R : Type 0} → Desks R → String → World R
world_at d path = record { repo = d.repo; journal = (d.at path).journal; sent = (d.at path).sent }

abbrev put_back : {R : Type 0} → Desks R → String → World R → Desks R
put_back d path w = record {
  repo = w.repo;
  at = λ p. if p == path then record { journal = w.journal; sent = w.sent } else d.at p;
}

module _ {R : Type 0} where
  Publishes-trans :
      (o : JournalFile) (P : List Push) (u v : World R)
      → Publishes o P u
      → Publishes u.journal (pushes u.sent) v
      → Publishes o P v
  Publishes-trans o P u v (quiet p a) (quiet r b) = quiet (r ∙ p) (Succeeds-trans a b)
  Publishes-trans o P u v (quiet p a) (pushed {k = k} {c = c} {b = b} e r i m d) =
      pushed (unpushed_before u.journal a e) (r ∙ ap (λ l. (c, b, saved k) ∷ l) p) i
        (Succeeds-trans a m) d
  Publishes-trans o P u v (pushed e p i a c) (quiet r b) = pushed e (r ∙ p) i a (Succeeds-trans c b)
  Publishes-trans o P u v (pushed e p i a c) (pushed f r j b d) =
      absurd (pushed_conflict u.journal (Succeeds-pushed c (file_pushed-intent _ _ _ i)) f)

-- The site of a journal file: what the files beside it are may depend on its directory.
module _ {R : Type 0} (h : Host) (S : String → Site R) where
  -- The desks after a turn, whether its run returns or raises.
  unfoldable pub after_turn : Desks R → Turn R → Desks R
  unfolding journal_path
  after_turn d t =
      let path = journal_path h t.request in
      let there = record d { repo = t.others d.repo } in
      put_back d path (persist_implementation (S path) t.request (world_at there path)).1

  unfoldable pub after_turns : Desks R → List (Turn R) → Desks R
  unfolding after_turn
  after_turns d [] = d
  after_turns d (t ∷ turns) = after_turns (after_turn d t) turns

  run-Publishes :
      (path : String) (q : Request) (w : World R)
      → Publishes w.journal (pushes w.sent) (persist_implementation (S path) q w).1
  run-Publishes path q w =
      let ends =
        persist_implementation-Ends (S path) q w.journal (pushes w.sent) w
          (record { file = refl; sent = refl }) in
      elim (Result-cases (persist_implementation (S path) q w).0) [
        | inl (a, e) ↦ ends.returns a e
        | inr (x, e) ↦ ends.raises x e
      ]

  -- A world that went back to its desk, seen from one of the paths.
  put_back-Publishes :
      (d : Desks R) (path p : String) (w : World R)
      → Publishes (d.at path).journal (pushes (d.at path).sent) w
      → Publishes (d.at p).journal (pushes (d.at p).sent) (world_at (put_back d path w) p)
  put_back-Publishes d path p w k = elim (Bool-cases (p == path)) [
    | inl e ↦ rw e (
        subst (λ x. Publishes (d.at x).journal (pushes (d.at x).sent) w) (sym ((eq_iff p path).0 e))
          k)
    | inr e ↦ rw e (quiet refl same)
  ]

  after_turn-Publishes :
      (d : Desks R) (t : Turn R) (p : String)
      → Publishes (d.at p).journal (pushes (d.at p).sent) (world_at (after_turn d t) p)
  unfolding after_turn
  after_turn-Publishes d t p =
      let path = journal_path h t.request in
      let there = world_at (record d { repo = t.others d.repo }) path in
      put_back-Publishes d path p _ (run-Publishes path t.request there)

  -- Over any runs of persist_implementation for any requests, whether they return or raise, and
  -- whatever others do to Git between them, each journal file, the one of a state directory, only
  -- advances, and the runs on it send at most one push: never from a file that said `publish_intent`
  -- or `published`, and only while the file held a journal in state `publish_intent` that names the
  -- pushed candidate and branch.
  pub after_turns-Publishes :
      (turns : List (Turn R)) (d : Desks R) (path : String)
      → Publishes
          (d.at path).journal
          (pushes (d.at path).sent)
          (world_at (after_turns d turns) path)
  unfolding after_turns
  after_turns-Publishes [] d path = quiet refl same
  after_turns-Publishes (t ∷ turns) d path =
      Publishes-trans (d.at path).journal (pushes (d.at path).sent) (world_at (after_turn d t) path)
        _ (after_turn-Publishes d t path) (after_turns-Publishes turns (after_turn d t) path)

  Publishes-Succeeds :
      (o : JournalFile) (P : List Push) (v : World R) → Publishes o P v → Succeeds o v.journal
  Publishes-Succeeds o P v (quiet p a) = a
  Publishes-Succeeds o P v (pushed e p i a b) = Succeeds-trans a b

  -- Over any runs for any requests, whatever others do to Git between them, a journal that is in
  -- the journal file of a state directory keeps its identity, transport, clean semantics, commit
  -- identity, message and version; and once it is in state `publish_intent` or `published`, it stays
  -- in one of the two and keeps its candidate commit.
  pub after_turns-Keeps :
      (turns : List (Turn R)) (d : Desks R) (path : String) (j : PersistenceJournal)
      → (d.at path).journal ≡ saved j
      → Keeps j ((after_turns d turns).at path).journal
  after_turns-Keeps turns d path j e =
      Succeeds-Keeps j
        (Succeeds-from (sym e) (Publishes-Succeeds _ _ _ (after_turns-Publishes turns d path)))
