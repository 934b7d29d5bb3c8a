-- ===== src/Firewall/Outside.antt =====
-- A write that the enabled firewall lets through stays clear of every canonical repository.
use sentinelx_cloud_core.Base.{◌≡◌, refl, Bool, true, not, Option, none, some, List, [], ◌∷◌, arith}
use sentinelx_cloud_core.Base.Lists.{all}
use sentinelx_cloud_core.Base.Result.{ok}
use sentinelx_cloud_core.Host.{FilePath}
use sentinelx_cloud_core.Policy.{
  MutationExecutionPolicy, CanonicalRepositorySpec, canonical_repository_inventory_ready,
}
use sentinelx_cloud_core.Firewall.{
  Target, no_path, relative, absolute, enforce_resolved, intersects, classify_resolved, allowed,
  resolve_target, classify_write_target, classify_target, readiness, enforce_material_write_target,
}

-- Every repository of the inventory is clear of the path.
abbrev pub is_outside : FilePath → List CanonicalRepositorySpec → Bool
is_outside p repositories = all (λ r. not (intersects p r.root)) repositories

classify_resolved-allowed :
    (p : FilePath) (rs : List CanonicalRepositorySpec)
    → allowed (classify_resolved p rs) ≡ is_outside p rs
unfolding classify_resolved
classify_resolved-allowed p [] = refl
classify_resolved-allowed p (r ∷ rs) = ground (arith, classify_resolved-allowed p rs)

module _ (resolve : FilePath → Option FilePath) (cwd : FilePath) where
  resolved-fixed :
      (target : Target) (c : FilePath)
      → ((a b : FilePath) → resolve a ≡ some b → resolve b ≡ some b)
      → resolve_target resolve cwd target ≡ some c
      → resolve c ≡ some c
  unfolding resolve_target
  resolved-fixed no_path c idempotent e = cc
  resolved-fixed (relative p) c idempotent e = idempotent _ c e
  resolved-fixed (absolute p) c idempotent e = idempotent _ c e

  enforce_resolved-outside :
      (p : MutationExecutionPolicy) (o : Option FilePath) (c : FilePath)
      → ((d : FilePath) → o ≡ some d → resolve d ≡ some d)
      → p.canonical_repository_firewall_enabled ≡ true
      → enforce_resolved resolve cwd p o ≡ ok c
      → (o ≡ some c)
        × (canonical_repository_inventory_ready p ≡ true)
        × (is_outside c p.canonical_repositories ≡ true)
  unfolding classify_write_target classify_target readiness
  enforce_resolved-outside p none c fixed enabled found = cc
  enforce_resolved-outside p (some d) c fixed enabled found =
      ground (arith, fixed d refl, classify_resolved-allowed d p.canonical_repositories)

  -- With the firewall enabled, and a `Path.resolve` that leaves a resolved path as it is: a write
  -- target that is let through is the resolved target, the inventory is ready, and no canonical
  -- repository equals the path, contains it or lies below it.
  pub enforce-outside :
      (p : MutationExecutionPolicy) (target : Target) (c : FilePath)
      → ((a b : FilePath) → resolve a ≡ some b → resolve b ≡ some b)
      → p.canonical_repository_firewall_enabled ≡ true
      → enforce_material_write_target resolve cwd p target ≡ ok c
      → (resolve_target resolve cwd target ≡ some c)
        × (canonical_repository_inventory_ready p ≡ true)
        × (is_outside c p.canonical_repositories ≡ true)
  unfolding enforce_material_write_target
  enforce-outside p target c idempotent enabled found =
      enforce_resolved-outside p (resolve_target resolve cwd target) c
        (λ d e. resolved-fixed target d idempotent e) enabled found

  -- With the firewall enabled, the inventory ready, and a `Path.resolve` that leaves a resolved
  -- path as it is: a target that resolves to a path clear of every canonical repository is let
  -- through.
  pub enforce-passes :
      (p : MutationExecutionPolicy) (target : Target) (c : FilePath)
      → resolve c ≡ some c
      → canonical_repository_inventory_ready p ≡ true
      → resolve_target resolve cwd target ≡ some c
      → is_outside c p.canonical_repositories ≡ true
      → enforce_material_write_target resolve cwd p target ≡ ok c
  unfolding enforce_material_write_target classify_write_target classify_target readiness
  enforce-passes p target c fixed ready found clear =
      ground (arith, classify_resolved-allowed c p.canonical_repositories)
