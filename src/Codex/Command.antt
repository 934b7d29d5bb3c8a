-- ===== src/Codex/Command.antt =====
-- The Git commands that the direct Codex provider issues, with their argument vectors and
-- environments, and the state directory of the provider.
use sentinelx_cloud_core.Base.{
  ℕ, String, List, [], ◌∷◌, ◌++◌, map, Option, none, some, if◌then◌else◌,
}
use sentinelx_cloud_core.Base.Dict.{lookup}
use sentinelx_cloud_core.Base.Text.{is_blank, decimal, sort_by}
use Prim.Native.String.{◌++◌ as ◌<>◌}
use sentinelx_cloud_core.Host.{Host, FilePath}
use sentinelx_cloud_core.Codex.Site.{Environ, CanonicalizationSnapshot}

-- The part of DirectCodexWorkspace that the two modules read.
pub record DirectCodexWorkspace : Type 0 where
  pub root : FilePath
  pub path : FilePath
  pub workspace_digest : String

-- The texts of the paths.
pub record ProviderState : Type 0 where
  pub directory : String
  pub empty_attributes : String
  pub empty_config : String
  pub hooks : String
  pub inspection_index : String
  pub snapshot : String
  pub journal : String
  pub candidate_index : String

abbrev state_dir_name : String
state_dir_name = ".devforge-state"

unfoldable pub provider_state : Host → DirectCodexWorkspace → ProviderState
provider_state h workspace =
    let directory = workspace.root ++ (state_dir_name ∷ workspace.workspace_digest ∷ []) in
    let below = λ (name : String). h.path_text (directory ++ name ∷ []) in
    record {
      directory = h.path_text directory;
      empty_attributes = below "attributes-empty";
      empty_config = below "empty-config";
      hooks = below "hooks";
      inspection_index = below "inspection-index";
      snapshot = below "canonicalization-snapshot.json";
      journal = below "persistence-journal.json";
      candidate_index = below "candidate-index";
    }

unfoldable pub materialization_env : ProviderState → Environ
materialization_env state =
    ("GIT_CONFIG_NOSYSTEM", "1")
    ∷ ("GIT_CONFIG_GLOBAL", state.empty_config)
    ∷ ("GIT_CONFIG_SYSTEM", state.empty_config)
    ∷ ("GIT_ATTR_NOSYSTEM", "1")
    ∷ ("GIT_LITERAL_PATHSPECS", "1")
    ∷ []

-- The loop over the sorted keys; a key without a value, or with an empty one, sets nothing.
abbrev clamp : String → Option String → List String → List String
clamp key none rest = rest
clamp key (some value) rest = if is_blank value then rest else "-c" ∷ (key <> ("=" <> value)) ∷ rest

abbrev scalar_clamps : List (String × String) → List String → List String
scalar_clamps scalars [] = []
scalar_clamps scalars (key ∷ keys) = clamp key (lookup key scalars) (scalar_clamps scalars keys)

abbrev snapshot_clamps : Option CanonicalizationSnapshot → List String
snapshot_clamps none = []
snapshot_clamps (some snapshot) =
    scalar_clamps snapshot.scalars
      (sort_by (λ t. t) (map (λ (entry : String × String). entry.0) snapshot.scalars))

unfoldable pub materialization_clamps :
    Option CanonicalizationSnapshot → ProviderState → List String
materialization_clamps snapshot state =
    ("-c"
      ∷ ("core.attributesFile=" <> state.empty_attributes)
      ∷ "-c"
      ∷ ("core.hooksPath=" <> state.hooks)
      ∷ "-c"
      ∷ "core.fsmonitor=false"
      ∷ "-c"
      ∷ "submodule.recurse=false"
      ∷ "-c"
      ∷ "commit.gpgsign=false"
      ∷ "-c"
      ∷ "tag.gpgsign=false"
      ∷ "-c"
      ∷ "core.pager=cat"
      ∷ [])
    ++ snapshot_clamps snapshot

pub record CommitIdentity : Type 0 where
  pub author_name : String
  pub author_email : String
  pub committer_name : String
  pub committer_email : String
  pub author_date_utc_seconds : ℕ
  pub committer_date_utc_seconds : ℕ
  pub timezone : String
  pub message_digest : String
  pub serialization_version : ℕ

-- `CommitIdentity.git_env`
unfoldable pub git_env : CommitIdentity → Environ
git_env i =
    ("GIT_AUTHOR_NAME", i.author_name)
    ∷ ("GIT_AUTHOR_EMAIL", i.author_email)
    ∷ ("GIT_COMMITTER_NAME", i.committer_name)
    ∷ ("GIT_COMMITTER_EMAIL", i.committer_email)
    ∷ ("GIT_AUTHOR_DATE", (decimal i.author_date_utc_seconds <> (" " <> i.timezone)))
    ∷ ("GIT_COMMITTER_DATE", decimal i.committer_date_utc_seconds <> (" " <> i.timezone))
    ∷ []

-- One constructor for each `transport_git` call.
pub data Command : Type 0 where
  rev_parse : String → Command
  current_branch : Command
  ls_remote : String → String → Command
  config_get : String → Command
  unmerged : Command
  diff_index : String → Command
  untracked : Command
  inspect_seed : String → Command
  inspect_list : Command
  inspect_paths : Command
  check_attr : List String → Command
  read_tree : String → Command
  stage : List String → Command
  write_tree : Command
  diff_tree : String → String → Command
  commit_tree : String → String → String → CommitIdentity → Command
  update_ref : String → String → String → Command
  push : String → String → Command

module _ (state : ProviderState) (snapshot : Option CanonicalizationSnapshot) where
  unfoldable pub argv : Command → List String
  argv (rev_parse revision) = "rev-parse" ∷ revision ∷ []
  argv current_branch = "rev-parse" ∷ "--abbrev-ref" ∷ "HEAD" ∷ []
  argv (ls_remote url branch) = "ls-remote" ∷ "--heads" ∷ url ∷ branch ∷ []
  argv (config_get key) = "config" ∷ "--get" ∷ key ∷ []
  argv unmerged = "--literal-pathspecs" ∷ "ls-files" ∷ "-u" ∷ "-z" ∷ "--" ∷ []
  argv (diff_index sha) =
      "--literal-pathspecs" ∷ "diff-index" ∷ "--raw" ∷ "-z" ∷ "--no-renames" ∷ sha ∷ "--" ∷ []
  argv untracked =
      "--literal-pathspecs" ∷ "ls-files" ∷ "--others" ∷ "--exclude-standard" ∷ "-z" ∷ "--" ∷ []
  argv (inspect_seed sha) = "read-tree" ∷ sha ∷ []
  argv inspect_list = "ls-files" ∷ "-s" ∷ "-z" ∷ []
  argv inspect_paths = "ls-files" ∷ "-z" ∷ []
  argv (check_attr paths) =
      materialization_clamps none state
      ++ (("check-attr" ∷ "--cached" ∷ "--all" ∷ "--" ∷ []) ++ paths)
  argv (read_tree sha) = "read-tree" ∷ sha ∷ []
  argv (stage paths) =
      materialization_clamps snapshot state ++ (("add" ∷ "-A" ∷ "--" ∷ []) ++ paths)
  argv write_tree = "write-tree" ∷ []
  argv (diff_tree sha tree) =
      "diff-tree" ∷ "-r" ∷ "--name-only" ∷ "-z" ∷ "--no-renames" ∷ sha ∷ tree ∷ []
  argv (commit_tree tree parent message identity) =
      materialization_clamps snapshot state
      ++ ("commit-tree" ∷ tree ∷ "-p" ∷ parent ∷ "-m" ∷ message ∷ [])
  argv (update_ref branch new old) = "update-ref" ∷ ("refs/heads/" <> branch) ∷ new ∷ old ∷ []
  argv (push candidate branch) =
      "-c"
      ∷ ("core.hooksPath=" <> state.hooks)
      ∷ "push"
      ∷ "origin"
      ∷ (candidate <> (":refs/heads/" <> branch))
      ∷ []

  abbrev inspection : Environ
  inspection = materialization_env state ++ (("GIT_INDEX_FILE", state.inspection_index) ∷ [])

  abbrev candidate : Environ
  candidate = materialization_env state ++ (("GIT_INDEX_FILE", state.candidate_index) ∷ [])

  -- The environment given with a command; none is given with most of them.
  unfoldable pub environ : Command → Environ
  environ (inspect_seed sha) = inspection
  environ inspect_list = inspection
  environ inspect_paths = inspection
  environ (check_attr paths) = inspection
  environ (read_tree sha) = candidate
  environ (stage paths) = candidate
  environ write_tree = candidate
  environ (commit_tree tree parent message identity) = materialization_env state ++ git_env identity
  environ _ = []
