-- ===== src/Firewall.antt =====
-- src/sentinelx_core/canonical_repository_firewall.py: the classification of a write target
-- against the inventory of canonical repositories. `Path.resolve` is a parameter that may fail.
pub mod Outside
pub mod Tests
use sentinelx_cloud_core.Base.{ℕ, String, Bool, true, false, not, ◌||◌, ◌==◌, string_eq, list_eq}
use sentinelx_cloud_core.Base.{Option, none, some, List, [], ◌∷◌, ◌++◌, if◌then◌else◌}
use sentinelx_cloud_core.Base.Lists.{length}
use sentinelx_cloud_core.Base.Result.{Result, ok, err}
use sentinelx_cloud_core.Host.{FilePath}
use sentinelx_cloud_core.Policy.{
  MutationExecutionPolicy, CanonicalRepositorySpec, canonical_repository_inventory_ready,
  canonical_repository_inventory_readiness_reasons,
}
use sentinelx_cloud_core.Placement.{is_relative_to}

pub data Disposition : Type 0 where
  allowed_non_canonical_target : Disposition
  canonical_repository_mutation_blocked : Disposition
  host_canonical_mutation_firewall_indeterminate : Disposition

pub record Decision : Type 0 where
  pub disposition : Disposition
  pub repository_identity : Option String
  pub reason : Option String

pub record Readiness : Type 0 where
  pub ready : Bool
  pub enabled : Bool
  pub inventory_valid : Bool
  pub inventory_count : ℕ
  pub reasons : List String

-- A target after `Path(target).expanduser()`, if that raises nothing.
pub data Target : Type 0 where
  no_path : Target
  relative : FilePath → Target
  absolute : FilePath → Target

pub data Refusal : Type 0 where
  unresolved : Refusal
  handler_error : Disposition → (reason repository_identity : Option String) → Refusal

unfoldable pub readiness : MutationExecutionPolicy → Readiness
readiness p = record {
  ready = canonical_repository_inventory_ready p;
  enabled = p.canonical_repository_firewall_enabled;
  inventory_valid = p.canonical_repository_inventory_valid;
  inventory_count = length p.canonical_repositories;
  reasons = canonical_repository_inventory_readiness_reasons p;
}

abbrev pub indeterminate : String → Decision
indeterminate reason = record {
  disposition = host_canonical_mutation_firewall_indeterminate;
  repository_identity = none;
  reason = some reason;
}

-- `readiness.reasons[0] if readiness.reasons else "inventory_not_ready"`
abbrev first_reason : List String → String
first_reason [] = "inventory_not_ready"
first_reason (r ∷ rs) = r

unfoldable pub intersects : FilePath → FilePath → Bool
intersects candidate root =
    candidate == root || is_relative_to candidate root || is_relative_to root candidate

-- The loop over the inventory.
unfoldable pub classify_resolved : FilePath → List CanonicalRepositorySpec → Decision
classify_resolved candidate [] = record {
  disposition = allowed_non_canonical_target;
  repository_identity = none;
  reason = some "target_outside_canonical_inventory";
}
classify_resolved candidate (r ∷ rs) =
    let rest = classify_resolved candidate rs in
    if intersects candidate r.root
    then record {
      disposition = canonical_repository_mutation_blocked;
      repository_identity = some r.repository_identity;
      reason = some "target_intersects_canonical_repository";
    }
    else rest

abbrev pub allowed : Decision → Bool
allowed d = elim d.disposition [ allowed_non_canonical_target ↦ true | _ ↦ false ]

module _ (resolve : FilePath → Option FilePath) (cwd : FilePath) where
  unfoldable pub classify_target : Target → List CanonicalRepositorySpec → Decision
  classify_target no_path repositories = indeterminate "target_invalid"
  classify_target (relative p) repositories = indeterminate "target_not_absolute"
  classify_target (absolute p) repositories = elim (resolve p) [
    | none ↦ indeterminate "target_canonicalization_failed"
    | some candidate ↦ classify_resolved candidate repositories
  ]

  unfoldable pub classify_write_target : MutationExecutionPolicy → Target → Decision
  classify_write_target p target =
      if not (readiness p).ready
      then indeterminate (first_reason (readiness p).reasons)
      else classify_target target p.canonical_repositories

  -- `Path(target).expanduser().resolve(strict=False)`
  unfoldable pub resolve_target : Target → Option FilePath
  resolve_target no_path = none
  resolve_target (relative p) = resolve (cwd ++ p)
  resolve_target (absolute p) = resolve p

  abbrev pub enforce_decision : FilePath → Decision → Result Refusal FilePath
  enforce_decision candidate d =
      if allowed d
      then ok candidate
      else err (handler_error d.disposition d.reason d.repository_identity)

  -- What happens after the target was resolved.
  abbrev pub enforce_resolved : MutationExecutionPolicy → Option FilePath → Result Refusal FilePath
  enforce_resolved p none = err unresolved
  enforce_resolved p (some candidate) =
      if not p.canonical_repository_firewall_enabled
      then ok candidate
      else enforce_decision candidate (classify_write_target p (absolute candidate))

  unfoldable pub enforce_material_write_target :
      MutationExecutionPolicy → Target → Result Refusal FilePath
  enforce_material_write_target p target = enforce_resolved p (resolve_target target)
