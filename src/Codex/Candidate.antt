-- ===== src/Codex/Candidate.antt =====
-- src/sentinelx_core/direct_codex_persistence.py: the candidate tree, built in the provider's own
-- index and compared with the inventory, and the candidate commit.
use sentinelx_cloud_core.Base.{ℕ, String, not, ◌==◌, string_eq, nat_eq, list_eq}
use sentinelx_cloud_core.Base.{some, List, [], ◌∷◌}
use sentinelx_cloud_core.Base.Lists.{select}
use sentinelx_cloud_core.Base.Text.{is_blank, sorted_set}
use sentinelx_cloud_core.Base.Split.{split_on, is_sha}
use Prim.Native.String.{◌++◌ as ◌<>◌}
use sentinelx_cloud_core.Codex.Site.{Site, Answer, CanonicalizationSnapshot, refused}
use sentinelx_cloud_core.Codex.Command.{
  Command, read_tree, stage, write_tree, diff_tree, commit_tree, rev_parse, ProviderState,
  CommitIdentity,
}
use sentinelx_cloud_core.Codex.Program.{M, ◌>>=◌, ◌>>◌, pure, throw_if, unlink, transport_git}
use sentinelx_cloud_core.Codex.Canonical.{chunks, output}
use sentinelx_cloud_core.Codex.Inventory.{WorktreeDelta, delta_paths}

-- `MAX_STAGE_PATHS_PER_CALL`
abbrev pub max_stage_paths_per_call : ℕ
max_stage_paths_per_call = 128

module _ {R : Type 0} (S : Site R) (state : ProviderState)
    (snapshot : CanonicalizationSnapshot) where
  abbrev git : Command → M R Answer
  git = transport_git S state (some snapshot)

  -- `_rev_parse`
  unfoldable pub resolve_revision : String → M R String
  resolve_revision revision = do
    a ← git (rev_parse revision)
    throw_if (not (a.code == 0)) (refused "direct_codex_revision_unavailable")
    pure (output S a)

  -- The loop that stages the paths, chunk by chunk.
  unfoldable pub stage_chunks : List (List String) → M R (Unit {0})
  stage_chunks [] = pure tt
  stage_chunks (chunk ∷ more) = do
    a ← git (stage chunk)
    throw_if (not (a.code == 0)) (refused "direct_codex_candidate_stage_failed")
    stage_chunks more

  unfoldable pub verify_candidate_tree : String → String → WorktreeDelta → M R (Unit {0})
  verify_candidate_tree expected_sha tree delta = do
    a ← git (diff_tree expected_sha tree)
    throw_if (not (a.code == 0)) (refused "direct_codex_candidate_verification_failed")
    let changed = sorted_set (select (λ path. not (is_blank path)) (split_on 0 (S.decode a.stdout)))
    throw_if (not (changed == delta_paths delta)) (refused "direct_codex_candidate_tree_mismatch")

  -- `_write_tree`
  unfoldable pub build_tree : String → WorktreeDelta → M R String
  build_tree expected_sha delta = do
    unlink S state.candidate_index
    a ← git (read_tree expected_sha)
    throw_if (not (a.code == 0)) (refused "direct_codex_candidate_index_failed")
    let paths = delta_paths delta
    stage_chunks (chunks max_stage_paths_per_call paths)
    b ← git write_tree
    throw_if (not (b.code == 0)) (refused "direct_codex_candidate_tree_failed")
    let tree = output S b
    throw_if (not (is_sha tree)) (refused "direct_codex_candidate_tree_failed")
    verify_candidate_tree expected_sha tree delta
    pure tree

  -- `_commit_tree`
  unfoldable pub create_commit : String → String → CommitIdentity → String → M R String
  create_commit tree parent identity message = do
    a ← git (commit_tree tree parent message identity)
    throw_if (not (a.code == 0)) (refused "direct_codex_commit_failed")
    let candidate = output S a
    throw_if (not (is_sha candidate)) (refused "direct_codex_commit_failed")
    pure candidate

  unfoldable pub verify_candidate_object : String → String → String → M R (Unit {0})
  verify_candidate_object candidate tree parent = do
    a ← git (rev_parse (candidate <> "^{tree}"))
    throw_if (not (a.code == 0)) (refused "direct_codex_candidate_object_mismatch")
    throw_if (not (output S a == tree)) (refused "direct_codex_candidate_object_mismatch")
    b ← git (rev_parse (candidate <> "^"))
    throw_if (not (b.code == 0)) (refused "direct_codex_candidate_object_mismatch")
    throw_if (not (output S b == parent)) (refused "direct_codex_candidate_object_mismatch")
