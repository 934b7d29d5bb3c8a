-- ===== src/Codex/Quietly.antt =====
-- The phases of a run that are silent: the inspection of the checkout, the inventory, the candidate
-- tree and commit, and the recovery of a published attempt.
use sentinelx_cloud_core.Base.{String, Option, none, some, List, [], ◌∷◌}
use sentinelx_cloud_core.Codex.Site.{Site, CanonicalizationSnapshot}
use sentinelx_cloud_core.Codex.Command.{ProviderState, CommitIdentity, update_ref}
use sentinelx_cloud_core.Codex.Journal.{PersistenceJournal}
use sentinelx_cloud_core.Placement.{RepositoryIdentity}
use sentinelx_cloud_core.Codex.Canonical.{
  read_remote_head, config_scalar, read_scalars, read_normalization_scalars, info_attributes_empty,
  seed_inspection_index, attribute_lines, inspect_effective_attributes, revalidate_canonicalization,
}
use sentinelx_cloud_core.Codex.Inventory.{inventory, WorktreeDelta}
use sentinelx_cloud_core.Codex.Candidate.{
  resolve_revision, stage_chunks, verify_candidate_tree, build_tree, create_commit,
  verify_candidate_object,
}
use sentinelx_cloud_core.Codex.Recover.{
  Request, journal_identity, journal_matches, git, remote_head, branch_of_checkout,
  recover_published,
}
use sentinelx_cloud_core.Codex.Persist.{open_state, open_snapshot, require_snapshot}
use sentinelx_cloud_core.Codex.Silent.{Silent, Silent-pure, Silent-bind, silence}

module _ {R : Type 0} (S : Site R) where
  module _ (state : ProviderState) where
    pub read_remote_head-Silent :
        (q : RepositoryIdentity) (b : String) → Silent (read_remote_head S state q b)
    unfolding read_remote_head
    read_remote_head-Silent q b = search silence depth 40

    config_scalar-Silent : (key : String) → Silent (config_scalar S state key)
    unfolding config_scalar
    config_scalar-Silent key = search silence depth 40

    read_scalars-Silent : (keys : List String) → Silent (read_scalars S state keys)
    unfolding read_scalars
    read_scalars-Silent [] = search silence depth 40
    read_scalars-Silent (key ∷ keys) =
        Silent-bind (config_scalar S state key) _ (config_scalar-Silent key) λ value.
          Silent-bind (read_scalars S state keys) _ (read_scalars-Silent keys) λ rest. Silent-pure _

    read_normalization_scalars-Silent : Silent (read_normalization_scalars S state)
    unfolding read_normalization_scalars
    read_normalization_scalars-Silent = search (silence, read_scalars-Silent) depth 40

    info_attributes_empty-Silent : Silent (info_attributes_empty S state)
    unfolding info_attributes_empty
    info_attributes_empty-Silent = search silence depth 40

    seed_inspection_index-Silent : (sha : String) → Silent (seed_inspection_index S state sha)
    unfolding seed_inspection_index
    seed_inspection_index-Silent sha = search silence depth 40

    attribute_lines-Silent : (chunks : List (List String)) → Silent (attribute_lines S state chunks)
    unfolding attribute_lines
    attribute_lines-Silent [] = search silence depth 40
    attribute_lines-Silent (chunk ∷ more) = Silent-bind _ _ (search silence) λ a.
        Silent-bind _ _ (search silence) λ _.
          Silent-bind (attribute_lines S state more) _ (attribute_lines-Silent more)
            λ rest. Silent-pure _

    inspect_effective_attributes-Silent : Silent (inspect_effective_attributes S state)
    unfolding inspect_effective_attributes
    inspect_effective_attributes-Silent = search (silence, attribute_lines-Silent) depth 40

    pub revalidate_canonicalization-Silent :
        (s : CanonicalizationSnapshot) → Silent (revalidate_canonicalization S state s)
    unfolding revalidate_canonicalization
    revalidate_canonicalization-Silent s =
        search
          (
            silence, info_attributes_empty-Silent, read_normalization_scalars-Silent,
            seed_inspection_index-Silent, inspect_effective_attributes-Silent,
          )
          depth 40

    pub inventory-Silent : (sha : String) → Silent (inventory S state sha)
    unfolding inventory
    inventory-Silent sha = search silence depth 40

  module _ (state : ProviderState) (snapshot : CanonicalizationSnapshot) where
    pub resolve_revision-Silent : (t : String) → Silent (resolve_revision S state snapshot t)
    unfolding resolve_revision
    resolve_revision-Silent t = search silence depth 40

    stage_chunks-Silent :
        (chunks : List (List String)) → Silent (stage_chunks S state snapshot chunks)
    unfolding stage_chunks
    stage_chunks-Silent [] = search silence depth 40
    stage_chunks-Silent (chunk ∷ more) =
        Silent-bind _ _ (search silence)
          λ a. Silent-bind _ _ (search silence) λ _. stage_chunks-Silent more

    pub verify_candidate_tree-Silent :
        (sha tree : String) (d : WorktreeDelta)
        → Silent (verify_candidate_tree S state snapshot sha tree d)
    unfolding verify_candidate_tree
    verify_candidate_tree-Silent sha tree d = search silence depth 40

    pub build_tree-Silent :
        (sha : String) (d : WorktreeDelta) → Silent (build_tree S state snapshot sha d)
    unfolding build_tree
    build_tree-Silent sha d =
        search (silence, stage_chunks-Silent, verify_candidate_tree-Silent) depth 40

    pub create_commit-Silent :
        (tree parent : String) (i : CommitIdentity) (message : String)
        → Silent (create_commit S state snapshot tree parent i message)
    unfolding create_commit
    create_commit-Silent tree parent i message = search silence depth 40

    pub verify_candidate_object-Silent :
        (candidate tree parent : String)
        → Silent (verify_candidate_object S state snapshot candidate tree parent)
    unfolding verify_candidate_object
    verify_candidate_object-Silent candidate tree parent = search silence depth 40

  module _ (q : Request) where
    pub journal_identity-Silent : Silent (journal_identity S q)
    unfolding journal_identity
    journal_identity-Silent = search silence depth 40

    pub journal_matches-Silent : (j : PersistenceJournal) → Silent (journal_matches S q j)
    unfolding journal_matches
    journal_matches-Silent j = search (silence, journal_identity-Silent) depth 40

    pub open_state-Silent : (given : Option ProviderState) → Silent (open_state S q given)
    unfolding open_state
    open_state-Silent none = search silence depth 40
    open_state-Silent (some state) = search silence depth 40

    require_snapshot-Silent :
        (found : Option CanonicalizationSnapshot) → Silent (require_snapshot S q found)
    require_snapshot-Silent none = search silence depth 40
    require_snapshot-Silent (some snapshot) = search silence depth 40

    pub open_snapshot-Silent :
        (given : Option CanonicalizationSnapshot) → Silent (open_snapshot S q given)
    unfolding open_snapshot
    open_snapshot-Silent none = search (silence, require_snapshot-Silent) depth 40
    open_snapshot-Silent (some snapshot) = search silence depth 40

    module _ (state : ProviderState) (snapshot : CanonicalizationSnapshot) where
      pub remote_head-Silent : Silent (remote_head S q state snapshot)
      remote_head-Silent = read_remote_head-Silent state q.repository q.branch

      pub branch_of_checkout-Silent : Silent (branch_of_checkout S q state snapshot)
      branch_of_checkout-Silent = search silence depth 40

      pub update_ref-Silent :
          (new old : String) → Silent (git S q state snapshot (update_ref q.branch new old))
      update_ref-Silent new old = search silence depth 40

      pub recover_published-Silent :
          (j : PersistenceJournal) → Silent (recover_published S q state snapshot j)
      unfolding recover_published
      recover_published-Silent j =
          search (silence, remote_head-Silent, branch_of_checkout-Silent) depth 40
