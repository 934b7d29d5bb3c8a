-- ===== src/Policy.antt =====
-- `MutationExecutionPolicy` and `CanonicalRepositorySpec` of src/sentinelx_core/policy.py: the
-- fields that placement, scope lifecycle and the repository firewall read.
pub mod Paths
pub mod Granted
pub mod Tests
use sentinelx_cloud_core.Base.{ℕ, String, Bool, not, ◌&&◌, Option, List, ◌++◌, ◌∷◌, [], contains}
use sentinelx_cloud_core.Base.{string_eq, if◌then◌else◌}
use sentinelx_cloud_core.Base.Lists.{is_empty}
use sentinelx_cloud_core.Host.{FilePath}

pub record CanonicalRepositorySpec : Type 0 where
  pub repository_identity : String
  pub root : FilePath

pub record MutationExecutionPolicy : Type 0 where
  pub configured : Bool
  pub scoped_mutation_enabled : Bool
  pub workspace_root : Option FilePath
  pub protected_roots : List FilePath
  pub runtime_read_roots : List FilePath
  pub runtime_session_object_read_enabled : Bool
  pub runtime_acl_timeout_seconds : ℕ
  pub scope_ttl_seconds : ℕ
  pub canonical_repository_firewall_enabled : Bool
  pub canonical_repositories : List CanonicalRepositorySpec
  pub canonical_repository_inventory_valid : Bool
  pub canonical_repository_inventory_diagnostics : List String

unfoldable pub canonical_repository_inventory_ready : MutationExecutionPolicy → Bool
canonical_repository_inventory_ready p =
    p.configured
    && p.canonical_repository_firewall_enabled
    && p.canonical_repository_inventory_valid
    && not (is_empty p.canonical_repositories)

-- `tuple(dict.fromkeys(reasons))`: the first of equal texts stays.
unfoldable pub first_of_each : List String → List String → List String
first_of_each seen [] = []
first_of_each seen (x ∷ xs) =
    let again = first_of_each seen xs in
    let fresh = x ∷ first_of_each (x ∷ seen) xs in if contains seen x then again else fresh

abbrev reason_if : Bool → String → List String
reason_if b r = if b then r ∷ [] else []

unfoldable pub canonical_repository_inventory_readiness_reasons :
    MutationExecutionPolicy → List String
unfolding first_of_each
canonical_repository_inventory_readiness_reasons p = first_of_each [] (
    p.canonical_repository_inventory_diagnostics
    ++ (reason_if (not p.configured) "mutation_execution_not_configured"
        ++ (reason_if (not p.canonical_repository_firewall_enabled)
              "canonical_repository_firewall_disabled"
            ++ reason_if (is_empty p.canonical_repositories)
                "canonical_repository_inventory_empty")))
