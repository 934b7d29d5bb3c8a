-- ===== src/Codex/Advance.antt =====
-- How the journal file may change: what a run binds stays, and nothing but the confirmation follows
-- the intent to publish.
use sentinelx_cloud_core.Base.{Bool, true, false, ◌≡◌, refl, ◌∙◌, sym}
use mathlib.Core.Path.{subst}
use sentinelx_cloud_core.Codex.Journal.{
  PersistenceJournal, JournalFile, missing, saved, State, published, publish_intent,
}

-- The states of a journal whose candidate may have been pushed.
unfoldable pub is_pushed : State → Bool
is_pushed publish_intent = true
is_pushed published = true
is_pushed _ = false

-- The fields that no run changes.
pub record Bound (j k : PersistenceJournal) : Type 0 where
  pub identity : k.identity ≡ j.identity
  pub transport : k.transport ≡ j.transport
  pub clean_semantics : k.clean_semantics ≡ j.clean_semantics
  pub commit_identity : k.commit_identity ≡ j.commit_identity
  pub message : k.message ≡ j.message
  pub version : k.version ≡ j.version

pub Bound-refl : (j : PersistenceJournal) → Bound j j
Bound-refl j = record {
  identity = refl;
  transport = refl;
  clean_semantics = refl;
  commit_identity = refl;
  message = refl;
  version = refl;
}

pub Bound-trans : (i j k : PersistenceJournal) → Bound i j → Bound j k → Bound i k
Bound-trans i j k a b = record {
  identity = b.identity ∙ a.identity;
  transport = b.transport ∙ a.transport;
  clean_semantics = b.clean_semantics ∙ a.clean_semantics;
  commit_identity = b.commit_identity ∙ a.commit_identity;
  message = b.message ∙ a.message;
  version = b.version ∙ a.version;
}

-- A journal file, and the one that runs may leave.
pub data Succeeds : JournalFile → JournalFile → Type 0 where
  same : {f : JournalFile} → Succeeds f f
  begin : {k : PersistenceJournal} → Succeeds missing (saved k)
  work :
      {j k : PersistenceJournal}
      → is_pushed j.state ≡ false
      → Bound j k
      → Succeeds (saved j) (saved k)
  confirm :
      {j : PersistenceJournal}
      → j.state ≡ publish_intent
      → Succeeds (saved j) (saved (record j { state = published }))

pub moves-Bound : (j : PersistenceJournal) (s : State) → Bound j (record j { state = s })
moves-Bound j s = search

pub Succeeds-trans : {f g h : JournalFile} → Succeeds f g → Succeeds g h → Succeeds f h
unfolding is_pushed
Succeeds-trans same b = b
Succeeds-trans a same = a
Succeeds-trans begin (work e p) = begin
Succeeds-trans begin (confirm e) = begin
Succeeds-trans (work {j = j} e p) (work d r) = work e (Bound-trans j _ _ p r)
Succeeds-trans (work {j = j} e p) (confirm {j = k} d) =
    work e (Bound-trans j k _ p (moves-Bound k published))
Succeeds-trans (confirm e) (work d r) = cc
Succeeds-trans (confirm e) (confirm d) = confirm e

abbrev pub file_pushed : JournalFile → Bool
file_pushed (saved j) = is_pushed j.state
file_pushed _ = false

-- Once a push may have been sent, the journal says so for good.
pub Succeeds-pushed :
    {f g : JournalFile} → Succeeds f g → file_pushed f ≡ true → file_pushed g ≡ true
unfolding is_pushed
Succeeds-pushed same h = h
Succeeds-pushed begin h = cc
Succeeds-pushed (work e p) h = cc
Succeeds-pushed (confirm e) h = refl

pub Succeeds-from : {f g h : JournalFile} → f ≡ g → Succeeds g h → Succeeds f h
Succeeds-from {h = h} e p = subst (λ x. Succeeds x h) (sym e) p
