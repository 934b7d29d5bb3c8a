-- ===== src/Policy/Tests.antt =====
-- An allowlist with a readable directory and a writable one below it.
use sentinelx_cloud_core.Base.{
  String, Bool, true, false, ◌≡◌, ◌↔◌, refl, Option, none, some, List, [], ◌∷◌,
}
use sentinelx_cloud_core.Base.Text.{is_blank, split_slashes}
use sentinelx_cloud_core.Host.{FilePath}
use sentinelx_cloud_core.Policy.Paths.{FileOpsPath, resolve_path, is_service_action_allowed}
use sentinelx_cloud_core.Policy.Granted.{Grants, resolve_path_iff, resolve_path-read}

abbrev resolve : String → Option FilePath
resolve s = some (split_slashes s)

abbrev entries : List FileOpsPath
entries =
    record { path = "/home"; access = "r" } ∷ record { path = "/home/carlos"; access = "rw" } ∷ []

abbrev notes : FilePath
notes = "" ∷ "home" ∷ "carlos" ∷ "notes" ∷ []

written : resolve_path resolve entries "/home/carlos/notes" true ≡ some notes
unfolding resolve_path split_slashes sentinelx_cloud_core.Placement.is_relative_to
written = refl

-- The readable directory is not writable.
refused : resolve_path resolve entries "/home/notes" true ≡ none
unfolding resolve_path split_slashes sentinelx_cloud_core.Placement.is_relative_to
refused = refl

service_runs :
    is_service_action_allowed (("web", record { actions = "restart" ∷ [] }) ∷ []) "web" "stop"
    ≡ false
unfolding is_service_action_allowed sentinelx_cloud_core.Base.Dict.lookup
service_runs = refl

resolve_path_iff_example : (resolve_path resolve entries "/home/carlos/notes" true ≡ some notes) ↔ (
    (is_blank "/home/carlos/notes" ≡ false)
    × (resolve "/home/carlos/notes" ≡ some notes)
    × Grants resolve true notes entries)
resolve_path_iff_example = resolve_path_iff resolve entries "/home/carlos/notes" true notes

resolve_path-read_example : resolve_path resolve entries "/home/carlos/notes" false ≡ some notes
resolve_path-read_example = resolve_path-read resolve entries "/home/carlos/notes" notes written
