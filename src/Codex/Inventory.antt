-- ===== src/Codex/Inventory.antt =====
-- `_inventory` of src/sentinelx_core/direct_codex_persistence.py: the changes of the checkout that
-- a commit may hold, read from Git's listings and not from the index.
use sentinelx_cloud_core.Base.{ℕ, String, Bool, not, ◌||◌, ◌==◌, string_eq, nat_eq, contains}
use sentinelx_cloud_core.Base.{none, List, [], ◌∷◌, ◌++◌, if◌then◌else◌}
use sentinelx_cloud_core.Base.Lists.{select, length}
use sentinelx_cloud_core.Base.Result.{Result, ok, err}
use sentinelx_cloud_core.Base.Text.{
  is_blank, begins_with, split_slashes, sorted_set, sort_by, strip,
}
use sentinelx_cloud_core.Base.Split.{split_on, words, tail_of, join, strip_char}
use sentinelx_cloud_core.Codex.Site.{Site, Answer, Failure, refused}
use sentinelx_cloud_core.Codex.Command.{Command, unmerged, diff_index, untracked, ProviderState}
use sentinelx_cloud_core.Codex.Program.{M, ◌>>=◌, ◌>>◌, pure, lift, throw_if, transport_git}
use sentinelx_cloud_core.Codex.Canonical.{validate_relative_path}

pub record WorktreeDelta : Type 0 where
  pub modified : List String
  pub deleted : List String
  pub added : List String
  pub digest : String

-- `WorktreeDelta.paths`
unfoldable pub delta_paths : WorktreeDelta → List String
delta_paths d = sorted_set (d.modified ++ (d.deleted ++ d.added))

-- `WorktreeDelta.count`
abbrev pub delta_count : WorktreeDelta → ℕ
delta_count d = length (delta_paths d)

abbrev first_part : List String → String
first_part [] = ""
first_part (part ∷ parts) = part

abbrev last_part : List String → String
last_part [] = ""
last_part (part ∷ []) = part
last_part (part ∷ next ∷ parts) = last_part (next ∷ parts)

-- `_provider_owned`
unfoldable pub provider_owned : String → Bool
provider_owned path =
    contains (".devforge" ∷ ".devforge-state" ∷ []) (first_part (split_slashes path))

-- `path.split("/")[-1] == GITATTRIBUTES_NAME`
unfoldable pub names_gitattributes : String → Bool
names_gitattributes path = last_part (split_slashes path) == ".gitattributes"

abbrev allowed_mode : String → Bool
allowed_mode mode = contains ("100644" ∷ "100755" ∷ "120000" ∷ "000000" ∷ []) mode

unfoldable pub reject_unsupported_mode : String → String → String → Result Failure (Unit {0})
reject_unsupported_mode old_mode new_mode status =
    if old_mode == "160000" || new_mode == "160000"
    then err (refused "direct_codex_unsupported_gitlink_mutation")
    else if begins_with status "T" || (not (allowed_mode old_mode) || not (allowed_mode new_mode))
    then err (refused "direct_codex_unsupported_mode_change")
    else ok tt

-- The two lists of the loop over the tokens: changed paths, and deleted ones.
abbrev pub Changes : Type 0
Changes = List String × List String

abbrev classify : String → String → Result Failure Changes → Result Failure Changes
classify status path (err e) = err e
classify status path (ok (modified, deleted)) =
    if begins_with status "D" then ok (modified, path ∷ deleted) else ok (path ∷ modified, deleted)

abbrev when_supported : Result Failure (Unit {0}) → Result Failure Changes → Result Failure Changes
when_supported (err e) rest = err e
when_supported (ok _) rest = rest

-- One round of the loop, on the words of a header.
abbrev header_change : List String → String → Result Failure Changes → Result Failure Changes
header_change (old_mode ∷ new_mode ∷ old_sha ∷ new_sha ∷ status ∷ more) path rest =
    when_supported (reject_unsupported_mode old_mode new_mode status) (classify status path rest)
header_change _ path rest = rest

-- The loop over the tokens, two at a time; a last one alone is left.
unfoldable pub raw_changes : List String → Result Failure Changes
unfolding reject_unsupported_mode
raw_changes (header ∷ path ∷ tokens) =
    let rest = raw_changes tokens in
    if begins_with header ":" then header_change (words (tail_of header)) path rest else rest
raw_changes _ = ok ([], [])

abbrev pub keep : String → Result Failure (List String) → Result Failure (List String)
keep path (err e) = err e
keep path (ok kept) = ok (path ∷ kept)

abbrev pub when_clean :
    Result Failure (Unit {0}) → Result Failure (List String) → Result Failure (List String)
when_clean (err e) rest = err e
when_clean (ok _) rest = rest

-- The loop of `_eligible`.
unfoldable pub kept_paths : List String → Result Failure (List String)
unfolding provider_owned names_gitattributes
kept_paths [] = ok []
kept_paths (path ∷ paths) =
    let rest = kept_paths paths in
    when_clean (validate_relative_path path) (
      if provider_owned path
      then rest
      else if names_gitattributes path
      then err (refused "direct_codex_unsupported_attribute_mutation")
      else keep path rest)

abbrev pub sort_kept : Result Failure (List String) → Result Failure (List String)
sort_kept (err e) = err e
sort_kept (ok kept) = ok (sorted_set kept)

-- `_eligible`
unfoldable pub eligible : List String → Result Failure (List String)
unfolding kept_paths
eligible paths = sort_kept (kept_paths paths)

module _ {R : Type 0} (S : Site R) (state : ProviderState) where
  -- `_digest_lines`
  unfoldable pub digest_lines : List String → String
  digest_lines lines = S.sha256 (S.encode (join "\n" (sort_by (λ t. t) lines)))

  abbrev git : Command → M R Answer
  git = transport_git S state none

  unfoldable pub inventory : String → M R WorktreeDelta
  inventory expected_sha = do
    a ← git unmerged
    throw_if (not (a.code == 0)) (refused "direct_codex_inventory_failed")
    throw_if (not (is_blank (strip (strip_char 0 (S.decode a.stdout)))))
        (refused "direct_codex_unmerged_state")
    b ← git (diff_index expected_sha)
    throw_if (not (b.code == 0)) (refused "direct_codex_inventory_failed")
    (modified, deleted) ← lift (raw_changes (split_on 0 (S.decode b.stdout)))
    c ← git untracked
    throw_if (not (c.code == 0)) (refused "direct_codex_inventory_failed")
    let added = select (λ path. not (is_blank path)) (split_on 0 (S.decode c.stdout))
    eligible_modified ← lift (eligible modified)
    eligible_deleted ← lift (eligible deleted)
    eligible_added ← lift (eligible added)
    pure (record {
      modified = eligible_modified;
      deleted = eligible_deleted;
      added = eligible_added;
      digest =
          digest_lines (sorted_set (eligible_modified ++ (eligible_deleted ++ eligible_added)));
    })
