-- ===== src/Codex/Persist.antt =====
-- `persist_implementation` of src/sentinelx_core/direct_codex_persistence.py, in the phases of its
-- body.
use sentinelx_cloud_core.Base.{
  String, Bool, true, false, not, ◌==◌, string_eq, nat_eq, option_eq, Option, none, some,
  if◌then◌else◌,
}
use sentinelx_cloud_core.Codex.Site.{Site, CanonicalizationSnapshot, refused, os_error}
use sentinelx_cloud_core.Codex.Command.{update_ref, push, ProviderState, provider_state}
use sentinelx_cloud_core.Codex.Journal.{
  PersistenceJournal, AttemptIdentity, prepared, tree_ready, candidate_ready, local_ref_ready,
  publish_intent, published, persistence_version, commit_message, new_identity,
}
use sentinelx_cloud_core.Codex.Program.{
  M, ◌>>=◌, ◌>>◌, pure, raise, throw_if, gets, read_journal, write_journal,
}
use sentinelx_cloud_core.Codex.Canonical.{revalidate_canonicalization}
use sentinelx_cloud_core.Codex.Inventory.{WorktreeDelta, delta_count, inventory}
use sentinelx_cloud_core.Codex.Candidate.{
  resolve_revision, build_tree, verify_candidate_tree, create_commit, verify_candidate_object,
}
use sentinelx_cloud_core.Codex.Recover.{
  Request, PersistenceOutcome, Status, persisted, no_change, publication_failed,
  publication_uncertain, transport_drift, is_state, journal_identity, journal_matches, git,
  remote_head, branch_of_checkout, provenance, confirm_published, recover_published,
  recover_publish_intent,
}

module _ {R : Type 0} (S : Site R) (q : Request) where
  -- `bootstrap.state or ensure_provider_state(workspace)`
  unfoldable pub open_state : Option ProviderState → M R ProviderState
  open_state (some state) = pure state
  open_state none = do
    writable ← gets S S.writable
    throw_if (not writable) os_error
    pure (provider_state S.host q.workspace)

  abbrev pub require_snapshot : Option CanonicalizationSnapshot → M R CanonicalizationSnapshot
  require_snapshot none = raise (refused "direct_codex_snapshot_missing")
  require_snapshot (some snapshot) = pure snapshot

  -- `bootstrap.snapshot or read_persisted_snapshot(state)`
  unfoldable pub open_snapshot : Option CanonicalizationSnapshot → M R CanonicalizationSnapshot
  open_snapshot (some snapshot) = pure snapshot
  open_snapshot none = do found ← gets S S.snapshot_file; require_snapshot found

  module _ (state : ProviderState) (snapshot : CanonicalizationSnapshot) where
    abbrev new_journal : AttemptIdentity → WorktreeDelta → PersistenceJournal
    new_journal identity delta = record {
      identity = identity;
      transport = record {
        canonical_pr = some q.canonical_pr;
        canonical_branch = some q.branch;
        expected_remote_sha = some q.expected_remote_sha;
      };
      clean_semantics = record {
        pre_checkout_snapshot_digest = some snapshot.digest;
        expected_attribute_snapshot_digest = snapshot.expected_attribute_digest;
        checkout_materialized_under_snapshot = true;
        info_attributes_empty = true;
        versioned_gitattributes_unchanged = true;
      };
      commit_identity = new_identity S q.semantic q.now;
      message = commit_message q.semantic;
      state = prepared;
      candidate_tree_sha = none;
      eligible_paths_digest = some delta.digest;
      eligible_change_count = some (delta_count delta);
      candidate_commit_sha = none;
      version = persistence_version;
    }

    -- The journal of the run: a new one is on disk before any object exists.
    unfoldable pub prepare : Option PersistenceJournal → WorktreeDelta → M R PersistenceJournal
    prepare none delta = do
      identity ← journal_identity S q
      write_journal S (new_journal identity delta)
    prepare (some j) delta = do
      throw_if (not (j.clean_semantics.pre_checkout_snapshot_digest == some snapshot.digest))
          (refused "direct_codex_snapshot_drift")
      pure j

    unfoldable pub report_no_change :
        PersistenceJournal → WorktreeDelta → String → String → String → M R PersistenceOutcome
    report_no_change j delta remote_before actual_branch local_head = do
      write_journal S (record j {
        state = prepared;
        eligible_change_count = some 0;
        eligible_paths_digest = some delta.digest;
      })
      pure (record {
        status = no_change;
        base_head = q.expected_remote_sha;
        eligible_change_count = 0;
        changed_paths_digest = delta.digest;
        candidate_commit = none;
        commit_provenance_digest = none;
        is_published = false;
        remote_head_readback = remote_before;
        consistent = false;
        actual_branch = actual_branch;
        local_head = local_head;
        snapshot_digest = some snapshot.digest;
        state = some prepared;
        error_code = none;
      })

    abbrev pub fresh_tree : PersistenceJournal → WorktreeDelta → M R (String × PersistenceJournal)
    fresh_tree j delta = do
      tree ← build_tree S state snapshot q.expected_remote_sha delta
      written ← write_journal S (record j {
        candidate_tree_sha = some tree;
        eligible_paths_digest = some delta.digest;
        eligible_change_count = some (delta_count delta);
        state = tree_ready;
      })
      pure (tree, written)

    abbrev pub kept_tree :
        PersistenceJournal → WorktreeDelta → Option String → M R (String × PersistenceJournal)
    kept_tree j delta none = fresh_tree j delta
    kept_tree j delta (some tree) = do
      verify_candidate_tree S state snapshot q.expected_remote_sha tree delta
      pure (tree, j)

    -- The candidate tree, built now or by an earlier run.
    unfoldable pub ready_tree :
        PersistenceJournal → WorktreeDelta → M R (String × PersistenceJournal)
    ready_tree j delta =
        if is_state j.state prepared
        then fresh_tree j delta
        else kept_tree j delta j.candidate_tree_sha

    abbrev pub commit_from :
        PersistenceJournal → String → Option String → M R (String × PersistenceJournal)
    commit_from j tree none = do
      candidate ←
          create_commit S state snapshot tree q.expected_remote_sha j.commit_identity j.message
      verify_candidate_object S state snapshot candidate tree q.expected_remote_sha
      written ←
          write_journal S
            (record j { candidate_commit_sha = some candidate; state = candidate_ready })
      pure (candidate, written)
    commit_from j tree (some candidate) = do
      verify_candidate_object S state snapshot candidate tree q.expected_remote_sha
      pure (candidate, j)

    -- The candidate commit, created now or by an earlier run.
    unfoldable pub ready_commit : PersistenceJournal → String → M R (String × PersistenceJournal)
    ready_commit j tree = commit_from j tree j.candidate_commit_sha

    -- The branch of the checkout moves from the admitted parent to the candidate.
    unfoldable pub move_local_ref : PersistenceJournal → String → M R PersistenceJournal
    move_local_ref j candidate = do
      a ← git S q state snapshot (update_ref q.branch candidate q.expected_remote_sha)
      throw_if (not (a.code == 0)) (refused "direct_codex_local_ref_failed")
      write_journal S (record j { state = local_ref_ready })

    abbrev pushed_outcome :
        PersistenceJournal
        → WorktreeDelta
        → String
        → String
        → Status
        → Bool
        → String
        → Option String
        → PersistenceOutcome
    pushed_outcome j delta actual_branch candidate status done remote code = record {
      status = status;
      base_head = q.expected_remote_sha;
      eligible_change_count = delta_count delta;
      changed_paths_digest = delta.digest;
      candidate_commit = some candidate;
      commit_provenance_digest = some (provenance S q state snapshot j candidate);
      is_published = done;
      remote_head_readback = remote;
      consistent = done;
      actual_branch = actual_branch;
      local_head = candidate;
      snapshot_digest = some snapshot.digest;
      state = some (if done then published else publish_intent);
      error_code = code;
    }

    -- After a push that Git reports as done: the remote is read back.
    unfoldable pub read_back_push :
        PersistenceJournal → WorktreeDelta → String → String → M R PersistenceOutcome
    read_back_push j delta actual_branch candidate = do
      remote_after ← remote_head S q state snapshot
      if not (remote_after == candidate)
          then pure (
              pushed_outcome j delta actual_branch candidate
                (if remote_after == q.expected_remote_sha
                  then publication_uncertain
                  else transport_drift)
                false remote_after (some "direct_codex_publication_uncertain"))
          else confirm_published S q state snapshot j
              (pushed_outcome j delta actual_branch candidate persisted true remote_after none)

    -- The push, the one that the journal in hand intends.
    unfoldable pub send_push :
        PersistenceJournal → WorktreeDelta → String → String → String → M R PersistenceOutcome
    send_push intent delta actual_branch candidate remote_now = do
      a ← git S q state snapshot (push candidate q.branch)
      if not (a.code == 0)
          then pure (
              pushed_outcome intent delta actual_branch candidate publication_failed false
                remote_now (some "direct_codex_publish_failed"))
          else read_back_push intent delta actual_branch candidate

    -- The journal says `publish_intent` on disk before the push.
    unfoldable pub publish :
        PersistenceJournal → WorktreeDelta → String → String → M R PersistenceOutcome
    publish j delta actual_branch candidate = do
      remote_now ← remote_head S q state snapshot
      throw_if (not (remote_now == q.expected_remote_sha)) (refused "direct_codex_transport_drift")
      intent ← write_journal S (record j { state = publish_intent })
      send_push intent delta actual_branch candidate remote_now

    unfoldable pub persist_changes :
        PersistenceJournal → WorktreeDelta → String → M R PersistenceOutcome
    persist_changes j delta actual_branch = do
      (tree, with_tree) ← ready_tree j delta
      (candidate, with_commit) ← ready_commit with_tree tree
      moved ← move_local_ref with_commit candidate
      publish moved delta actual_branch candidate

    -- A run without a journal, or with one from before its push.
    unfoldable pub persist_fresh : Option PersistenceJournal → M R PersistenceOutcome
    persist_fresh given = do
      local_head ← resolve_revision S state snapshot "HEAD"
      throw_if (not (local_head == q.expected_remote_sha))
          (refused "direct_codex_local_head_unexpected")
      actual_branch ← branch_of_checkout S q state snapshot
      throw_if (not (actual_branch == q.branch)) (refused "direct_codex_actual_branch_drift")
      revalidate_canonicalization S state snapshot
      remote_before ← remote_head S q state snapshot
      throw_if (not (remote_before == q.expected_remote_sha))
          (refused "direct_codex_transport_drift")
      delta ← inventory S state q.expected_remote_sha
      j ← prepare given delta
      throw_if (not (S.sha256 (S.encode j.message) == j.commit_identity.message_digest))
          (refused "direct_codex_recovery_journal_invalid")
      if delta_count delta == 0
          then report_no_change j delta remote_before actual_branch local_head
          else persist_changes j delta actual_branch

    unfoldable pub resume : PersistenceJournal → M R PersistenceOutcome
    resume j =
        if is_state j.state published
        then recover_published S q state snapshot j
        else if is_state j.state publish_intent
        then recover_publish_intent S q state snapshot j
        else persist_fresh (some j)

    unfoldable pub persist_from : Option PersistenceJournal → M R PersistenceOutcome
    persist_from none = persist_fresh none
    persist_from (some j) = do
      same ← journal_matches S q j
      throw_if (not same) (refused "direct_codex_recovery_journal_identity_mismatch")
      resume j

  unfoldable pub persist_implementation : M R PersistenceOutcome
  persist_implementation = do
    state ← open_state q.bootstrap.state
    snapshot ← open_snapshot q.bootstrap.snapshot
    found ← read_journal
    persist_from state snapshot found
