-- ===== src/Placement.antt =====
-- src/sentinelx_core/mutation_placement.py: the identities of a repository and of an attempt, the
-- Host-wide placement generation, the workspace derived for an attempt and the lease key.
-- The proofs stand in the modules below.
pub mod Confined
pub mod Tests
use sentinelx_cloud_core.Base.{ℕ, ◌+◌, ◌-◌, String, Bool, true, false, not, ◌&&◌, ◌||◌, ◌==◌}
use sentinelx_cloud_core.Base.{Option, none, some, List, [], ◌∷◌, ◌++◌, map, if◌then◌else◌}
use sentinelx_cloud_core.Base.{nat_eq, string_eq, list_eq}
use sentinelx_cloud_core.Base.Lists.{any, select}
use sentinelx_cloud_core.Base.Result.{Result, ok, err, ◌>>=◌, ◌>>◌, raise_if}
use sentinelx_cloud_core.Base.Text.{
  is_blank, strip, slashes, strip_slashes, split_slashes, join_slashes, ends_with, has_text,
  char_count, take_chars, decimal, sort_by, sorted_set,
}
use Prim.Native.String.{◌++◌ as ◌<>◌}
use sentinelx_cloud_core.Errors.{Error, value_error, placement_unavailable, binding_mismatch}
use sentinelx_cloud_core.Host.{
  Host, Scalar, null, text, number, flag, texts, Value, scalar, mapping, FilePath, Port, no_port,
  port, invalid_port, UrlParts,
}
use sentinelx_cloud_core.Policy.{MutationExecutionPolicy}

abbrev pub placement_rules_version : ℕ
placement_rules_version = 1

-- `value[:16]`
abbrev pub short : String → String
short value = take_chars 16 value

abbrev pub opt_text : Option String → Scalar
opt_text none = null
opt_text (some t) = text t

-- `candidate.is_relative_to(root)`, on resolved paths
unfoldable pub is_relative_to : FilePath → FilePath → Bool
is_relative_to path [] = true
is_relative_to [] (r ∷ root) = false
is_relative_to (p ∷ path) (r ∷ root) = p == r && is_relative_to path root

-- `path.parent`: the parent of the root is the root.
unfoldable pub parent : FilePath → FilePath
parent [] = []
parent (p ∷ []) = []
parent (p ∷ q ∷ path) = p ∷ parent (q ∷ path)

pub record RepositoryIdentity : Type 0 where
  pub vcs : String
  pub authority : String
  pub path : String

pub record SemanticIdentity : Type 0 where
  pub project_id : String
  pub task_id : String
  pub run_id : String
  pub attempt_id : String
  pub slice_id : Option String

-- `slice_id.strip() if slice_id else ""`
abbrev pub slice_text : Option String → String
slice_text none = ""
slice_text (some s) = if is_blank s then "" else strip s

-- The five texts of `SemanticIdentity.canonical`.
pub record Lineage : Type 0 where
  pub project : String
  pub task : String
  pub run : String
  pub attempt : String
  pub slice : String

unfoldable pub canonical_semantic : SemanticIdentity → Result Error Lineage
canonical_semantic s = do
  raise_if
      (is_blank (strip s.project_id)
        || is_blank (strip s.task_id)
        || is_blank (strip s.run_id)
        || is_blank (strip s.attempt_id))
      value_error
  ok (record {
    project = strip s.project_id;
    task = strip s.task_id;
    run = strip s.run_id;
    attempt = strip s.attempt_id;
    slice = slice_text s.slice_id;
  })

abbrev pub lineage_value : Lineage → Value
lineage_value l = scalar (texts (l.project ∷ l.task ∷ l.run ∷ l.attempt ∷ l.slice ∷ []))

pub record PlacementGenerationState : Type 0 where
  pub policy_digest : String
  pub generation : ℕ

unfoldable pub evolve : PlacementGenerationState → String → PlacementGenerationState
evolve s current =
    if s.policy_digest == current
    then s
    else record { policy_digest = current; generation = s.generation + 1 }

pub record PlacementEvidence : Type 0 where
  pub placement_ref : String
  pub generation : ℕ
  pub policy_digest : String
  pub exact_future_workspace : FilePath
  pub exact_workspace_digest : String
  pub repository_identity_digest : String
  pub semantic_identity_digest : String
  pub protected_inventory_digest : String

abbrev pub generation_state : PlacementEvidence → PlacementGenerationState
generation_state e = record { policy_digest = e.policy_digest; generation = e.generation }

-- `any(getattr(current, field) != getattr(expected, field) for field in sealed)`
unfoldable pub same_evidence : PlacementEvidence → PlacementEvidence → Bool
same_evidence a b =
    a.placement_ref == b.placement_ref
    && a.generation == b.generation
    && a.policy_digest == b.policy_digest
    && a.exact_future_workspace == b.exact_future_workspace
    && a.exact_workspace_digest == b.exact_workspace_digest
    && a.repository_identity_digest == b.repository_identity_digest
    && a.semantic_identity_digest == b.semantic_identity_digest
    && a.protected_inventory_digest == b.protected_inventory_digest

-- `path[:-4]` of a path that ends in `.git`
abbrev without_suffix : String → String → String
without_suffix lowered path =
    if ends_with lowered ".git" then take_chars (char_count path - 4) path else path

module _ (h : Host) where
  -- `str(path.resolve(strict=False))`
  abbrev pub resolved_text : FilePath → String
  resolved_text p = h.path_text (h.resolve p)

  abbrev require_host : UrlParts → Result Error String
  require_host u = elim u.hostname [
    | none ↦ err value_error
    | some name ↦ if is_blank name then err value_error else ok name
  ]

  abbrev with_port : String → Port → Result Error String
  with_port host no_port = ok host
  with_port host (port n) = ok (host <> (":" <> decimal n))
  with_port host invalid_port = err value_error

  -- `RepositoryIdentity.canonical`
  unfoldable pub canonical_repository : RepositoryIdentity → Result Error String
  canonical_repository r = do
    let vcs = h.lower (strip r.vcs)
    let raw_authority = slashes (strip r.authority)
    let stripped = strip_slashes (slashes (strip r.path))
    let path = without_suffix (h.lower stripped) stripped
    raise_if (is_blank vcs || is_blank raw_authority || is_blank path) value_error
    let parsed =
        h.urlsplit (if has_text raw_authority "://" then raw_authority else "//" <> raw_authority)
    hostname ← require_host parsed
    let lowered = h.lower hostname
    let host = if has_text lowered ":" then "[" <> (lowered <> "]") else lowered
    authority ← with_port host parsed.port_of
    let parts = select (λ part. not (is_blank part)) (split_slashes path)
    raise_if (any (λ part. part == "." || part == "..") parts) value_error
    raise_if (is_blank (join_slashes parts)) value_error
    ok (vcs <> ("://" <> (authority <> ("/" <> join_slashes parts))))

  abbrev opt_path : Option FilePath → Scalar
  opt_path none = null
  opt_path (some p) = text (resolved_text p)

  unfoldable pub placement_policy_digest : MutationExecutionPolicy → String
  placement_policy_digest p = h.digest (
      mapping (
        ("rules_version", number placement_rules_version)
        ∷ ("workspace_root", opt_path p.workspace_root)
        ∷ ("protected_roots", texts (sort_by (λ t. t) (map resolved_text p.protected_roots)))
        ∷ ("runtime_read_roots", texts (sort_by (λ t. t) (map resolved_text p.runtime_read_roots)))
        ∷ ("runtime_session_object_read_enabled", flag p.runtime_session_object_read_enabled)
        ∷ ("runtime_acl_timeout_seconds", number p.runtime_acl_timeout_seconds)
        ∷ []))

  abbrev root_texts : Option FilePath → List String
  root_texts none = []
  root_texts (some w) =
      let root = h.resolve w in
      h.path_text root ∷ (if parent root == root then [] else h.path_text (parent root) ∷ [])

  unfoldable pub protected_inventory : MutationExecutionPolicy → List FilePath → List String
  protected_inventory p provider_roots = sorted_set (
      map resolved_text p.protected_roots
      ++ (map resolved_text provider_roots ++ root_texts p.workspace_root))

  abbrev require_workspace_root : Option FilePath → Result Error FilePath
  require_workspace_root none = err placement_unavailable
  require_workspace_root (some w) = ok w

  abbrev generation_for : Option PlacementGenerationState → String → PlacementGenerationState
  generation_for none digest = record { policy_digest = digest; generation = 1 }
  generation_for (some s) digest = evolve s digest

  unfoldable pub resolve_placement :
      MutationExecutionPolicy
      → RepositoryIdentity
      → SemanticIdentity
      → Option PlacementGenerationState
      → List FilePath
      → Result Error PlacementEvidence
  resolve_placement policy repository semantic given provider_roots = do
    raise_if (not policy.configured || not policy.scoped_mutation_enabled) placement_unavailable
    workspace_root ← require_workspace_root policy.workspace_root
    let policy_digest = placement_policy_digest policy
    let state = generation_for given policy_digest
    canonical ← canonical_repository repository
    let repo_digest = h.digest (scalar (text canonical))
    lineage ← canonical_semantic semantic
    let semantic_digest = h.digest (lineage_value lineage)
    let root = h.resolve workspace_root
    let workspace = h.resolve (root ++ (short repo_digest ∷ short semantic_digest ∷ []))
    raise_if (workspace == root || not (is_relative_to workspace root)) binding_mismatch
    ok (record {
      placement_ref =
          "mutation-placement:"
          <> (short repo_digest
              <> (":" <> (short semantic_digest <> (":g" <> decimal state.generation))));
      generation = state.generation;
      policy_digest = policy_digest;
      exact_future_workspace = workspace;
      exact_workspace_digest = h.digest (scalar (text (resolved_text workspace)));
      repository_identity_digest = repo_digest;
      semantic_identity_digest = semantic_digest;
      protected_inventory_digest =
          h.digest (scalar (texts (protected_inventory policy provider_roots)));
    })

  unfoldable pub revalidate_placement :
      PlacementEvidence
      → MutationExecutionPolicy
      → RepositoryIdentity
      → SemanticIdentity
      → List FilePath
      → Result Error PlacementEvidence
  revalidate_placement expected policy repository semantic provider_roots = do
    current ←
        resolve_placement policy repository semantic (some (generation_state expected))
          provider_roots
    raise_if (not (same_evidence current expected)) binding_mismatch
    ok current

  unfoldable pub unique_mutation_lease_key :
      String → SemanticIdentity → ℕ → String → Result Error String
  unique_mutation_lease_key repository_digest semantic placement_generation workspace_digest = do
    values ← canonical_semantic semantic
    raise_if (placement_generation == 0) value_error
    raise_if (is_blank repository_digest || is_blank workspace_digest) value_error
    ok (
        h.digest (
          mapping (
            ("repository_identity_digest", text repository_digest)
            ∷ ("run_id", text values.run)
            ∷ ("attempt_id", text values.attempt)
            ∷ ("slice_id", text values.slice)
            ∷ ("placement_generation", number placement_generation)
            ∷ ("exact_workspace_digest", text workspace_digest)
            ∷ [])))
