-- ===== src/Codex/Recover.antt =====
-- src/sentinelx_core/direct_codex_persistence.py: the outcome of a run, the match of a journal with
-- a run, and the two recoveries from a journal that an earlier run left after its push.
use sentinelx_cloud_core.Base.{
  ℕ, String, Bool, true, false, not, ◌&&◌, ◌==◌, string_eq, nat_eq, option_eq,
}
use sentinelx_cloud_core.Base.{Option, none, some, if◌then◌else◌}
use sentinelx_cloud_core.Base.Result.{Result, ok, err}
use sentinelx_cloud_core.Base.Text.{is_blank}
use sentinelx_cloud_core.Errors.{Error}
use sentinelx_cloud_core.Placement.{RepositoryIdentity, SemanticIdentity, canonical_repository}
use sentinelx_cloud_core.Codex.Site.{
  Site, Answer, CanonicalizationSnapshot, Failure, refused, value_error,
}
use sentinelx_cloud_core.Codex.Command.{
  Command, current_branch, ProviderState, DirectCodexWorkspace,
}
use sentinelx_cloud_core.Codex.Journal.{
  PersistenceJournal, AttemptIdentity, State, prepared, publish_intent, published,
  provenance_digest, same_attempt,
}
use sentinelx_cloud_core.Codex.Program.{
  M, ◌>>=◌, ◌>>◌, pure, raise, lift, throw_if, write_journal, transport_git,
}
use sentinelx_cloud_core.Codex.Canonical.{read_remote_head, output}

pub data Status : Type 0 where
  persisted : Status
  no_change : Status
  publication_failed : Status
  publication_uncertain : Status
  transport_drift : Status

-- `mode` is always "provider_owned_commit_on_publish", and `detail` is left out.
pub record PersistenceOutcome : Type 0 where
  pub status : Status
  pub base_head : String
  pub eligible_change_count : ℕ
  pub changed_paths_digest : String
  pub candidate_commit : Option String
  pub commit_provenance_digest : Option String
  pub is_published : Bool
  pub remote_head_readback : String
  pub consistent : Bool
  pub actual_branch : String
  pub local_head : String
  pub snapshot_digest : Option String
  pub state : Option State
  pub error_code : Option String

-- The part of TransportBootstrap that is read.
pub record TransportBootstrap : Type 0 where
  pub state : Option ProviderState
  pub snapshot : Option CanonicalizationSnapshot

-- The arguments of one run.
pub record Request : Type 0 where
  pub workspace : DirectCodexWorkspace
  pub bootstrap : TransportBootstrap
  pub repository : RepositoryIdentity
  pub semantic : SemanticIdentity
  pub canonical_pr : ℕ
  pub branch : String
  pub expected_remote_sha : String
  pub now : ℕ

abbrev pub text_of : Option String → String
text_of none = ""
text_of (some t) = t

-- `str(value)`, where None is "None"
abbrev printed : Option String → String
printed none = "None"
printed (some t) = t

abbrev count_of : Option ℕ → ℕ
count_of none = 0
count_of (some n) = n

abbrev pub is_state : State → State → Bool
is_state published published = true
is_state publish_intent publish_intent = true
is_state prepared prepared = true
is_state _ _ = false

abbrev pub canonical_name : Result Error String → Result Failure String
canonical_name (ok name) = ok name
canonical_name (err e) = err value_error

module _ {R : Type 0} (S : Site R) (q : Request) where
  -- `_journal_identity`
  unfoldable pub journal_identity : M R AttemptIdentity
  journal_identity = do
    name ← lift (canonical_name (canonical_repository S.host q.repository))
    pure (record {
      repository = name;
      task_id = q.semantic.task_id;
      run_id = q.semantic.run_id;
      attempt_id = q.semantic.attempt_id;
      slice_id = q.semantic.slice_id;
    })

  -- `_journal_matches`
  unfoldable pub journal_matches : PersistenceJournal → M R Bool
  journal_matches j = do
    identity ← journal_identity
    pure (
        same_attempt j.identity identity
        && (j.transport.canonical_pr == some q.canonical_pr
            && (j.transport.canonical_branch == some q.branch
                && j.transport.expected_remote_sha == some q.expected_remote_sha)))

  module _ (state : ProviderState) (snapshot : CanonicalizationSnapshot) where
    abbrev pub git : Command → M R Answer
    git = transport_git S state (some snapshot)

    abbrev pub remote_head : M R String
    remote_head = read_remote_head S state q.repository q.branch

    abbrev pub branch_of_checkout : M R String
    branch_of_checkout = do a ← git current_branch; pure (output S a)

    abbrev pub provenance : PersistenceJournal → String → String
    provenance j candidate =
        provenance_digest S j.commit_identity candidate j.message q.expected_remote_sha

    -- The outcome of both recoveries when the remote holds the candidate.
    abbrev pub recovered :
        PersistenceJournal → String → String → String → String → PersistenceOutcome
    recovered j base candidate remote actual = record {
      status = persisted;
      base_head = base;
      eligible_change_count = count_of j.eligible_change_count;
      changed_paths_digest = text_of j.eligible_paths_digest;
      candidate_commit = some candidate;
      commit_provenance_digest = some (provenance j candidate);
      is_published = true;
      remote_head_readback = remote;
      consistent = actual == q.branch;
      actual_branch = actual;
      local_head = candidate;
      snapshot_digest = some (printed j.clean_semantics.pre_checkout_snapshot_digest);
      state = some published;
      error_code = none;
    }

    -- `_recover_published`
    unfoldable pub recover_published : PersistenceJournal → M R PersistenceOutcome
    recover_published j = do
      let candidate = text_of j.candidate_commit_sha
      throw_if (is_blank candidate) (refused "direct_codex_recovery_journal_invalid")
      remote ← remote_head
      throw_if (not (remote == candidate)) (refused "direct_codex_transport_drift")
      actual ← branch_of_checkout
      pure (recovered j (printed j.transport.expected_remote_sha) candidate remote actual)

    abbrev pub unobserved : PersistenceJournal → String → String → String → PersistenceOutcome
    unobserved j candidate remote actual = record {
      status = publication_uncertain;
      base_head = q.expected_remote_sha;
      eligible_change_count = count_of j.eligible_change_count;
      changed_paths_digest = text_of j.eligible_paths_digest;
      candidate_commit = if is_blank candidate then none else some candidate;
      commit_provenance_digest = if is_blank candidate then none else some (provenance j candidate);
      is_published = false;
      remote_head_readback = remote;
      consistent = false;
      actual_branch = actual;
      local_head = candidate;
      snapshot_digest = some (printed j.clean_semantics.pre_checkout_snapshot_digest);
      state = some publish_intent;
      error_code = some "direct_codex_publication_uncertain";
    }

    abbrev pub confirm_published : PersistenceJournal → PersistenceOutcome → M R PersistenceOutcome
    confirm_published j outcome = do write_journal S (record j { state = published }); pure outcome

    -- `_recover_publish_intent`
    unfoldable pub recover_publish_intent : PersistenceJournal → M R PersistenceOutcome
    recover_publish_intent j = do
      let candidate = text_of j.candidate_commit_sha
      remote ← remote_head
      actual ← branch_of_checkout
      if remote == candidate && not (is_blank candidate)
          then confirm_published j (recovered j q.expected_remote_sha candidate remote actual)
          else if remote == q.expected_remote_sha
          then pure (unobserved j candidate remote actual)
          else raise (refused "direct_codex_transport_drift")
