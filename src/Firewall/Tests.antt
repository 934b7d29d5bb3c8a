-- ===== src/Firewall/Tests.antt =====
-- The firewall on a host whose paths are all resolved.
use sentinelx_cloud_core.Base.{true, false, ◌≡◌, refl, Option, some, [], ◌∷◌}
use sentinelx_cloud_core.Base.Result.{ok}
use sentinelx_cloud_core.Host.{FilePath}
use sentinelx_cloud_core.Policy.{MutationExecutionPolicy, canonical_repository_inventory_ready}
use sentinelx_cloud_core.Firewall.{
  absolute, relative, resolve_target, enforce_material_write_target,
}
use sentinelx_cloud_core.Firewall.Outside.{is_outside, enforce-outside, enforce-passes}

abbrev policy : MutationExecutionPolicy
policy = record {
  configured = true;
  scoped_mutation_enabled = true;
  workspace_root = some ("work" ∷ []);
  protected_roots = [];
  runtime_read_roots = [];
  runtime_session_object_read_enabled = false;
  runtime_acl_timeout_seconds = 5;
  scope_ttl_seconds = 60;
  canonical_repository_firewall_enabled = true;
  canonical_repositories =
      record { repository_identity = "git://example.org/a/b"; root = "srv" ∷ "repo" ∷ [] } ∷ [];
  canonical_repository_inventory_valid = true;
  canonical_repository_inventory_diagnostics = [];
}

abbrev scratch : FilePath
scratch = "tmp" ∷ "x" ∷ []

abbrev found : FilePath → Option FilePath
found p = some p

scratch-ok : enforce_material_write_target found [] policy (absolute scratch) ≡ ok scratch
unfolding enforce_material_write_target resolve_target
    sentinelx_cloud_core.Firewall.classify_write_target sentinelx_cloud_core.Firewall.readiness
    canonical_repository_inventory_ready sentinelx_cloud_core.Firewall.classify_target
    sentinelx_cloud_core.Firewall.classify_resolved sentinelx_cloud_core.Firewall.intersects
    sentinelx_cloud_core.Placement.is_relative_to
scratch-ok = refl

scratch-resolved : resolve_target found [] (relative scratch) ≡ some scratch
unfolding resolve_target
scratch-resolved = refl

policy_ready : canonical_repository_inventory_ready policy ≡ true
unfolding canonical_repository_inventory_ready
policy_ready = refl

scratch-outside : is_outside scratch policy.canonical_repositories ≡ true
unfolding sentinelx_cloud_core.Firewall.intersects sentinelx_cloud_core.Placement.is_relative_to
scratch-outside = refl

enforce-outside_example :
    (resolve_target found [] (absolute scratch) ≡ some scratch)
    × (canonical_repository_inventory_ready policy ≡ true)
    × (is_outside scratch policy.canonical_repositories ≡ true)
enforce-outside_example =
    enforce-outside found [] policy (absolute scratch) scratch (λ a b e. refl) refl scratch-ok

enforce-passes_example :
    enforce_material_write_target found [] policy (relative scratch) ≡ ok scratch
enforce-passes_example =
    enforce-passes found [] policy (relative scratch) scratch refl policy_ready scratch-resolved
      scratch-outside
