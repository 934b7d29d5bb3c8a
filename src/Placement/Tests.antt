-- ===== src/Placement/Tests.antt =====
-- A placement on a concrete host, whose digest is one constant.
use sentinelx_cloud_core.Base.{
  ℕ, String, Bool, true, false, ◌≡◌, refl, ◌==◌, list_eq, string_eq, Option, none, some, List, [],
  ◌∷◌,
}
use sentinelx_cloud_core.Base.Result.{ok}
use sentinelx_cloud_core.Host.{Host, no_port}
use sentinelx_cloud_core.Policy.{MutationExecutionPolicy}
use sentinelx_cloud_core.Placement.{
  RepositoryIdentity, SemanticIdentity, PlacementEvidence, is_relative_to, resolve_placement,
  revalidate_placement, placement_policy_digest,
}
use sentinelx_cloud_core.Placement.Confined.{
  resolve_placement-confined, revalidate_placement-sealed,
}

abbrev host : Host
host = record {
  digest = λ v. "d";
  resolve = λ p. p;
  path_text = λ p. "p";
  iso = λ n. "t";
  casefold = λ s. s;
  lower = λ s. s;
  urlsplit = λ s. record { hostname = some "example.org"; port_of = no_port };
}

abbrev policy : MutationExecutionPolicy
policy = record {
  configured = true;
  scoped_mutation_enabled = true;
  workspace_root = some ("work" ∷ []);
  protected_roots = [];
  runtime_read_roots = [];
  runtime_session_object_read_enabled = false;
  runtime_acl_timeout_seconds = 5;
  scope_ttl_seconds = 60;
  canonical_repository_firewall_enabled = false;
  canonical_repositories = [];
  canonical_repository_inventory_valid = true;
  canonical_repository_inventory_diagnostics = [];
}

abbrev repository : RepositoryIdentity
repository = record { vcs = "git"; authority = "example.org"; path = "a/b" }

abbrev attempt : SemanticIdentity
attempt = record {
  project_id = "project";
  task_id = "task";
  run_id = "run";
  attempt_id = "attempt";
  slice_id = none;
}

abbrev evidence : PlacementEvidence
evidence = record {
  placement_ref = "mutation-placement:d:d:g1";
  generation = 1;
  policy_digest = "d";
  exact_future_workspace = "work" ∷ "d" ∷ "d" ∷ [];
  exact_workspace_digest = "d";
  repository_identity_digest = "d";
  semantic_identity_digest = "d";
  protected_inventory_digest = "d";
}

resolved-ok : resolve_placement host policy repository attempt none [] ≡ ok evidence
unfolding resolve_placement sentinelx_cloud_core.Placement.canonical_repository
    sentinelx_cloud_core.Base.Text.strip sentinelx_cloud_core.Base.Text.slashes
    sentinelx_cloud_core.Base.Text.ends_with sentinelx_cloud_core.Base.Text.strip_slashes
    sentinelx_cloud_core.Base.Text.split_slashes sentinelx_cloud_core.Base.Text.join_slashes
    sentinelx_cloud_core.Placement.canonical_semantic is_relative_to
    sentinelx_cloud_core.Base.Text.take_chars placement_policy_digest
    sentinelx_cloud_core.Base.Text.decimal
resolved-ok = refl

revalidated-ok : revalidate_placement host evidence policy repository attempt [] ≡ ok evidence
unfolding revalidate_placement resolve_placement sentinelx_cloud_core.Placement.canonical_repository
    sentinelx_cloud_core.Base.Text.strip sentinelx_cloud_core.Base.Text.slashes
    sentinelx_cloud_core.Base.Text.ends_with sentinelx_cloud_core.Base.Text.strip_slashes
    sentinelx_cloud_core.Base.Text.split_slashes sentinelx_cloud_core.Base.Text.join_slashes
    sentinelx_cloud_core.Placement.canonical_semantic is_relative_to
    sentinelx_cloud_core.Placement.same_evidence sentinelx_cloud_core.Base.Text.take_chars
    sentinelx_cloud_core.Base.Text.decimal sentinelx_cloud_core.Placement.evolve
    placement_policy_digest
revalidated-ok = refl

resolve_placement-confined_example :
    (is_relative_to evidence.exact_future_workspace ("work" ∷ []) ≡ true)
    × ((evidence.exact_future_workspace == host.resolve ("work" ∷ [])) ≡ false)
resolve_placement-confined_example =
    resolve_placement-confined host policy repository attempt none [] ("work" ∷ []) evidence refl
      resolved-ok

revalidate_placement-sealed_example :
    (evidence ≡ evidence) × (evidence.policy_digest ≡ placement_policy_digest host policy)
revalidate_placement-sealed_example =
    revalidate_placement-sealed host evidence evidence policy repository attempt [] revalidated-ok
