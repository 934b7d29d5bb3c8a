-- ===== src/Policy/Paths.antt =====
-- `resolve_path` and `is_service_action_allowed` of src/sentinelx_core/policy.py: the allowlists of
-- paths and of service actions.
use sentinelx_cloud_core.Base.{
  String, Bool, false, not, ◌&&◌, ◌||◌, ◌==◌, Option, none, some, List, [], ◌∷◌, contains,
  string_eq, list_eq, if◌then◌else◌,
}
use sentinelx_cloud_core.Base.Dict.{Dict, lookup}
use sentinelx_cloud_core.Base.Lists.{is_empty}
use sentinelx_cloud_core.Base.Text.{is_blank}
use sentinelx_cloud_core.Host.{FilePath}
use sentinelx_cloud_core.Placement.{is_relative_to}

pub record FileOpsPath : Type 0 where
  pub path : String
  pub access : String

-- The part of ServiceSpec that is read.
pub record ServiceSpec : Type 0 where
  pub actions : List String

abbrev permits : Option ServiceSpec → String → Bool
permits none action = false
permits (some spec) action = contains spec.actions action

unfoldable pub is_service_action_allowed : Dict ServiceSpec → String → String → Bool
is_service_action_allowed services name action = permits (lookup name services) action

-- `resolve` is `Path(path).resolve(strict=False)`; none is an OSError or a RuntimeError.
module _ (resolve : String → Option FilePath) where
  abbrev pub under : FilePath → Option FilePath → Bool
  under candidate none = false
  under candidate (some allowed) = candidate == allowed || is_relative_to candidate allowed

  -- The loop over `file_ops_paths`.
  unfoldable pub first_grant : List FileOpsPath → Bool → FilePath → Option FilePath
  first_grant [] need_write candidate = none
  first_grant (entry ∷ entries) need_write candidate =
      let rest = first_grant entries need_write candidate in
      if need_write && not (entry.access == "rw")
      then rest
      else if under candidate (resolve entry.path)
      then some candidate
      else rest

  abbrev pub grant_for : List FileOpsPath → Bool → Option FilePath → Option FilePath
  grant_for entries need_write none = none
  grant_for entries need_write (some candidate) = first_grant entries need_write candidate

  unfoldable pub resolve_path : List FileOpsPath → String → Bool → Option FilePath
  unfolding first_grant
  resolve_path entries path need_write =
      if is_empty entries
      then none
      else if is_blank path
      then none
      else grant_for entries need_write (resolve path)
