-- ===== src/Scope/Authority.antt =====
-- The authority file, its loading, and the checks on the loaded dictionaries.
use sentinelx_cloud_core.Base.{ℕ, String, Bool, false, not, ◌&&◌, ◌||◌, ◌==◌}
use sentinelx_cloud_core.Base.{Option, none, some, List, [], ◌∷◌, if◌then◌else◌}
use sentinelx_cloud_core.Base.{nat_eq, string_eq, option_eq}
use sentinelx_cloud_core.Base.Dict.{Dict, lookup, insert}
use sentinelx_cloud_core.Base.Result.{Result, ok, err, ◌>>=◌, ◌>>◌, raise_if}
use sentinelx_cloud_core.Base.Text.{is_blank, strip, sorted_set}
use sentinelx_cloud_core.Base.Lists.{select, is_empty}
use sentinelx_cloud_core.Base.{map}
use sentinelx_cloud_core.Errors.{Error, corrupt, not_current, scope_conflict, value_error}
use sentinelx_cloud_core.Host.{Host, text, mapping}
use sentinelx_cloud_core.Placement.{
  SemanticIdentity, PlacementGenerationState, canonical_semantic, slice_text,
}
use sentinelx_cloud_core.Scope.Record.{
  MutationScopeRecord, ScopeEntry, not_mapping, misfit, fields, to_json, from_json, is_current,
}

abbrev pub store_version : ℕ
store_version = 1

-- A value of the indexes `leases` and `attempts`.
pub data IndexValue : Type 0 where
  scope_ref : String → IndexValue
  null_value : IndexValue
  other_value : IndexValue

-- A value of the reverse index `workspaces`, with `none` for a key that is missing or no text.
pub data WorkspaceEntry : Type 0 where
  null_entry : WorkspaceEntry
  no_mapping : WorkspaceEntry
  bound : (lease_key scope_id : Option String) → WorkspaceEntry

pub record Authority : Type 0 where
  pub scopes : Dict ScopeEntry
  pub leases : Dict IndexValue
  pub attempts : Dict IndexValue
  pub workspaces : Dict WorkspaceEntry
  pub placement_generation : Option PlacementGenerationState

-- `none` stands for a value that is not of the type that the loader asks for.
pub data GenerationField : Type 0 where
  no_generation : GenerationField
  not_object : GenerationField
  generation_fields : Option String → Option ℕ → GenerationField

pub record Json : Type 0 where
  pub version : Option ℕ
  pub scopes : Option (Dict ScopeEntry)
  pub leases : Option (Dict IndexValue)
  pub attempts : Option (Dict IndexValue)
  pub workspaces : Option (Dict WorkspaceEntry)
  pub placement_generation : GenerationField

-- authority.json
pub data Document : Type 0 where
  absent : Document
  unreadable : Document
  no_object : Document
  parsed : Json → Document

abbrev pub empty_state : Authority
empty_state = record {
  scopes = [];
  leases = [];
  attempts = [];
  workspaces = [];
  placement_generation = none;
}

abbrev require_field {ℓ} : {V : Type ℓ} → Option V → Result Error V
require_field none = err corrupt
require_field (some d) = ok d

abbrev pub load_generation : GenerationField → Result Error (Option PlacementGenerationState)
load_generation no_generation = ok none
load_generation not_object = err corrupt
load_generation (generation_fields none n) = err corrupt
load_generation (generation_fields (some d) none) = err corrupt
load_generation (generation_fields (some d) (some n)) =
    if n == 0 then err corrupt else ok (some (record { policy_digest = d; generation = n }))

-- `_load_state`
unfoldable pub loaded : Document → Result Error Authority
loaded absent = ok empty_state
loaded unreadable = err corrupt
loaded no_object = err corrupt
loaded (parsed j) = do
  raise_if (not (j.version == some store_version)) corrupt
  scopes ← require_field j.scopes
  leases ← require_field j.leases
  attempts ← require_field j.attempts
  workspaces ← require_field j.workspaces
  generation ← load_generation j.placement_generation
  ok (record {
    scopes = scopes;
    leases = leases;
    attempts = attempts;
    workspaces = workspaces;
    placement_generation = generation;
  })

abbrev generation_json : Option PlacementGenerationState → GenerationField
generation_json none = no_generation
generation_json (some g) = generation_fields (some g.policy_digest) (some g.generation)

-- The document that `_durable_write_state` writes.
unfoldable pub written : Authority → Document
written s = parsed (record {
  version = some store_version;
  scopes = some s.scopes;
  leases = some s.leases;
  attempts = some s.attempts;
  workspaces = some s.workspaces;
  placement_generation = generation_json s.placement_generation;
})

-- `_put_record`
unfoldable pub put_record : Authority → MutationScopeRecord → Authority
put_record s r = record s { scopes = insert r.scope_id (to_json r) s.scopes }

-- `_normalize_operation_classes`
unfoldable pub normalize_operation_classes : List String → Result Error (List String)
normalize_operation_classes values = do
  let result = sorted_set (select (λ v. not (is_blank v)) (map strip values))
  raise_if (is_empty result) value_error
  ok result

abbrev pub slice_or_empty : Option String → String
slice_or_empty none = ""
slice_or_empty (some s) = s

-- The comparison of a record with the stripped fields of a semantic identity.
unfoldable pub lineage_differs : MutationScopeRecord → SemanticIdentity → Bool
lineage_differs r s =
    not (r.project_id == strip s.project_id)
    || not (r.task_id == strip s.task_id)
    || not (r.run_id == strip s.run_id)
    || not (r.attempt_id == strip s.attempt_id)
    || not (slice_or_empty r.slice_id == slice_text s.slice_id)

abbrev pub index_is : Option IndexValue → String → Bool
index_is none id = false
index_is (some null_value) id = false
index_is (some other_value) id = false
index_is (some (scope_ref x)) id = x == id

abbrev pub workspace_is : Option WorkspaceEntry → String → String → Bool
workspace_is none lease id = false
workspace_is (some null_entry) lease id = false
workspace_is (some no_mapping) lease id = false
workspace_is (some (bound l s)) lease id = s == some id && l == some lease

-- `_assert_index_binding`
unfoldable pub assert_index_binding :
    Authority → MutationScopeRecord → String → Result Error (Unit {0})
assert_index_binding s r expected_lease = do
  raise_if (not (index_is (lookup expected_lease s.leases) r.scope_id)) scope_conflict
  raise_if (not (index_is (lookup r.attempt_key s.attempts) r.scope_id)) scope_conflict
  raise_if
      (not (workspace_is (lookup r.exact_workspace_digest s.workspaces) expected_lease r.scope_id))
      scope_conflict

module _ (h : Host) where
  -- `_attempt_key`
  unfoldable pub attempt_key : String → SemanticIdentity → Result Error String
  attempt_key repository_digest semantic = do
    l ← canonical_semantic semantic
    ok (
        h.digest (
          mapping (
            ("repository_identity_digest", text repository_digest)
            ∷ ("project_id", text l.project)
            ∷ ("task_id", text l.task)
            ∷ ("run_id", text l.run)
            ∷ ("attempt_id", text l.attempt)
            ∷ ("slice_id", text l.slice)
            ∷ [])))

  pub record_at : String → Option ScopeEntry → Result Error MutationScopeRecord
  record_at scope_id none = err not_current
  record_at scope_id (some entry) = do
    r ← from_json h entry
    raise_if (not (r.scope_id == scope_id)) corrupt
    ok r

  -- `_record`
  unfoldable pub get_record : Authority → String → Result Error MutationScopeRecord
  unfolding record_at
  get_record s scope_id = record_at scope_id (lookup scope_id s.scopes)

  unfoldable pub competes : MutationScopeRecord → MutationScopeRecord → Result Error (Unit {0})
  competes current other =
      raise_if
        (is_current other
          && (other.unique_lease_key == current.unique_lease_key
              || other.exact_workspace_digest == current.exact_workspace_digest))
        scope_conflict

  unfoldable pub competing_entry :
      MutationScopeRecord → String → ScopeEntry → Result Error (Unit {0})
  competing_entry current scope_id not_mapping = ok tt
  competing_entry current scope_id misfit =
      if scope_id == current.scope_id then ok tt else err corrupt
  competing_entry current scope_id (fields r) =
      if scope_id == current.scope_id
      then ok tt
      else do other ← from_json h (fields r); competes current other

  unfoldable pub no_competing : MutationScopeRecord → Dict ScopeEntry → Result Error (Unit {0})
  no_competing current [] = ok tt
  no_competing current ((scope_id, raw) ∷ rest) =
      competing_entry current scope_id raw >> no_competing current rest

  -- `_assert_no_competing_nonterminal`
  unfoldable pub assert_no_competing_nonterminal :
      Authority → MutationScopeRecord → Result Error (Unit {0})
  unfolding competes competing_entry no_competing
  assert_no_competing_nonterminal s current = no_competing current s.scopes
