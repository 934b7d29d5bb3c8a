-- ===== src/Codex/Persisted.antt =====
-- What a report of `persist_implementation` promises when it says `persisted`.
use sentinelx_cloud_core.Base.{
  String, Bool, true, false, not, ◌&&◌, string_eq, nat_eq, ◌≡◌, refl, arith, Option, none, some,
  if◌then◌else◌,
}
use sentinelx_cloud_core.Base.Text.{is_blank}
use sentinelx_cloud_core.Codex.Site.{Site, CanonicalizationSnapshot}
use sentinelx_cloud_core.Codex.Command.{ProviderState}
use sentinelx_cloud_core.Codex.Journal.{
  PersistenceJournal, saved, State, prepared, tree_ready, candidate_ready, local_ref_ready,
  published, publish_intent, unknown,
}
use sentinelx_cloud_core.Codex.Program.{World}
use sentinelx_cloud_core.Codex.Recover.{
  remote_head, Request, PersistenceOutcome, persisted, publication_uncertain, transport_drift,
  is_state, text_of,
}
use sentinelx_cloud_core.Codex.Silent.{pushes}
use sentinelx_cloud_core.Base.Result.{ok}

-- The outcome names one commit as the candidate and the head of the remote; that head is what a
-- reading of the remote answered, after which no push was sent; and the journal on disk says that
-- the candidate is published.
pub record IsPersisted {R : Type 0} (S : Site R) (q : Request) (outcome : PersistenceOutcome)
    (v : World R) : Type 0 where
  pub commit : String
  pub candidate : outcome.candidate_commit ≡ some commit
  pub remote : outcome.remote_head_readback ≡ commit
  pub provider : ProviderState
  pub snapshot : CanonicalizationSnapshot
  pub reading : World R
  pub answered : (remote_head S q provider snapshot reading).0 ≡ ok commit
  pub since : pushes v.sent ≡ pushes (remote_head S q provider snapshot reading).1.sent
  pub journal : PersistenceJournal
  pub file : v.journal ≡ saved journal
  pub state : journal.state ≡ published
  pub named : journal.candidate_commit_sha ≡ some commit

-- `persisted` and `published: True` are reported together, and only then.
pub record IsReported {R : Type 0} (S : Site R) (q : Request) (outcome : PersistenceOutcome)
    (v : World R) : Type 0 where
  pub told : outcome.is_published ≡ true → (outcome.status ≡ persisted) × IsPersisted S q outcome v
  pub only : outcome.is_published ≡ false → outcome.status ≡ persisted → ⊥

pub unconfirmed :
    (b : Bool) → (if b then publication_uncertain else transport_drift) ≡ persisted → ⊥
unconfirmed true e = cc
unconfirmed false e = cc

pub given_text : (t : Option String) → is_blank (text_of t) ≡ false → t ≡ some (text_of t)
given_text none e = cc
given_text (some t) e = refl

pub first : (a b : Bool) → (a && not b) ≡ true → a ≡ true
first a b e = ground arith

pub second : (a b : Bool) → (a && not b) ≡ true → b ≡ false
second a b e = ground arith

pub is_state-published : (s : State) → is_state s published ≡ true → s ≡ published
is_state-published published e = refl
is_state-published prepared e = cc
is_state-published tree_ready e = cc
is_state-published candidate_ready e = cc
is_state-published local_ref_ready e = cc
is_state-published publish_intent e = cc
is_state-published (unknown t) e = cc
