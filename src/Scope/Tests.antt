-- ===== src/Scope/Tests.antt =====
-- The store on a concrete host, whose digest is one constant.
use sentinelx_cloud_core.Base.{
  ℕ, String, Bool, true, false, ◌≡◌, refl, Option, none, some, List, [], ◌∷◌,
}
use sentinelx_cloud_core.Base.{◌==◌, string_eq, if◌then◌else◌}
use sentinelx_cloud_core.Base.Result.{ok, err}
use sentinelx_cloud_core.Base.Text.{strip}
use sentinelx_cloud_core.Errors.{not_current}
use sentinelx_cloud_core.Host.{Host, no_port}
use sentinelx_cloud_core.Placement.{RepositoryIdentity, SemanticIdentity}
use sentinelx_cloud_core.Scope.Record.{
  MutationScopeRecord, MutationRuntimeClosure, fields, is_current,
}
use sentinelx_cloud_core.Scope.Authority.{
  Authority, Document, absent, written, scope_ref, bound, loaded, assert_no_competing_nonterminal,
}
use sentinelx_cloud_core.Scope.Transaction.{World, start}
use sentinelx_cloud_core.Scope.Runtime.{revoke_scope, reserve_sandbox_identity}
use sentinelx_cloud_core.Scope.Terminalize.{Cleanup, accept_closure, terminalize_scope}
use sentinelx_cloud_core.Scope.Calls.{
  Caller, Call, provision, revoke, read, reserve_sandbox, after, Steps, here, next,
}
use sentinelx_cloud_core.Scope.Stored.{stored}
use sentinelx_cloud_core.Scope.Lifecycle.{scope_of, Follows}
use sentinelx_cloud_core.Scope.Exclusive.{competitor_not_current}
use sentinelx_cloud_core.Scope.History.{Steps-Follows, no_reactivation, exclusive_workspaces}
use sentinelx_cloud_core.Scope.Outcome.{IsTerminal, terminalize_scope-IsTerminal}
use sentinelx_cloud_core.Scope.Reserved.{
  IsReserved, reserve_sandbox_identity-IsReserved, IsRevoked, revoke_scope-IsRevoked,
}
use sentinelx_cloud_core.Scope.Minted.{IsMinted, mint_scope-IsMinted}
use sentinelx_cloud_core.Scope.Admission.{
  mint_scope, revalidate_scope, revalidate_scope_for_operation,
}
use sentinelx_cloud_core.Scope.Granted.{
  IsLive, revalidate_scope-IsLive, revalidate_scope_for_operation-IsLive,
}
use sentinelx_cloud_core.Base.{contains}
use sentinelx_cloud_core.Scope.CleanupOrder.{IsRevocation, terminalize_scope-cleanup}

abbrev host : Host
host = record {
  digest = λ v. "d";
  resolve = λ p. p;
  path_text = λ p. "p";
  iso = λ n. "t";
  casefold = λ s. s;
  lower = λ s. s;
  urlsplit = λ s. record { hostname = some "example.org"; port_of = no_port };
}

abbrev attempt : SemanticIdentity
attempt = record {
  project_id = "project";
  task_id = "task";
  run_id = "run";
  attempt_id = "attempt";
  slice_id = none;
}

abbrev caller : Caller
caller = record {
  policy = record {
    configured = true;
    scoped_mutation_enabled = true;
    workspace_root = some ("work" ∷ []);
    protected_roots = [];
    runtime_read_roots = [];
    runtime_session_object_read_enabled = false;
    runtime_acl_timeout_seconds = 5;
    scope_ttl_seconds = 60;
    canonical_repository_firewall_enabled = false;
    canonical_repositories = [];
    canonical_repository_inventory_valid = true;
    canonical_repository_inventory_diagnostics = [];
  };
  repository = record { vcs = "git"; authority = "example.org"; path = "a/b" };
  semantic = attempt;
  provider_roots = [];
}

abbrev scope : MutationScopeRecord
scope = record {
  workspace_id = "w";
  scope_id = "s";
  generation = 1;
  unique_lease_key = "d";
  attempt_key = "d";
  state = "provisioned";
  project_id = "project";
  task_id = "task";
  run_id = "run";
  attempt_id = "attempt";
  slice_id = none;
  semantic_identity_digest = "d";
  repository_identity_digest = "d";
  placement_ref = "mutation-placement:d:d:g1";
  placement_generation = 1;
  policy_digest = "d";
  exact_workspace = "work" ∷ "d" ∷ "d" ∷ [];
  exact_workspace_digest = "d";
  protected_inventory_digest = "d";
  allowed_operation_classes = "edit" ∷ [];
  issued_at = 5;
  expires_at = 60_000_005;
  scope_digest = "d";
  sandbox_identity = none;
  active_job_ids = [];
  active_process_ids = [];
  sandbox_write_authority_present = false;
  runtime_read_authority_roots = [];
  session_object_read_binding = none;
  terminalized_at = none;
}

abbrev store_of : MutationScopeRecord → Authority
store_of r = record {
  scopes = ("s", fields r) ∷ [];
  leases = ("d", scope_ref "s") ∷ [];
  attempts = ("d", scope_ref "s") ∷ [];
  workspaces = ("d", bound (some "d") (some "s")) ∷ [];
  placement_generation = some (record { policy_digest = "d"; generation = 1 });
}

abbrev file : Document
file = written (store_of scope)

abbrev revoked : MutationScopeRecord
revoked = record scope { state = "revoked" }

-- One revocation and one read.
two_calls : Steps host file (after host (read "s") (after host (revoke "s" 1) file))
two_calls = next (revoke "s" 1) tt (next (read "s") tt here)

file-scope : scope_of host file "s" ≡ some scope
unfolding scope_of loaded written sentinelx_cloud_core.Scope.Authority.get_record
    sentinelx_cloud_core.Base.Dict.lookup sentinelx_cloud_core.Scope.Record.from_json
    sentinelx_cloud_core.Scope.Record.verify_digest sentinelx_cloud_core.Scope.Record.is_known_state
file-scope = refl

Steps-Follows_example :
    Follows host
      (some scope)
      (scope_of host (after host (read "s") (after host (revoke "s" 1) file)) "s")
Steps-Follows_example = Steps-Follows host "s" scope two_calls file-scope

-- A reservation on a revoked scope.
abbrev revoked_file : Document
revoked_file = written (store_of revoked)

late_call : Steps host revoked_file (after host (reserve_sandbox "s" 1 "box") revoked_file)
late_call = next (reserve_sandbox "s" 1 "box") tt here

revoked_file-scope : scope_of host revoked_file "s" ≡ some revoked
unfolding scope_of loaded written sentinelx_cloud_core.Scope.Authority.get_record
    sentinelx_cloud_core.Base.Dict.lookup sentinelx_cloud_core.Scope.Record.from_json
    sentinelx_cloud_core.Scope.Record.verify_digest sentinelx_cloud_core.Scope.Record.is_known_state
revoked_file-scope = refl

late_call-scope :
    scope_of host (after host (reserve_sandbox "s" 1 "box") revoked_file) "s" ≡ some revoked
unfolding scope_of loaded after sentinelx_cloud_core.Scope.Calls.perform reserve_sandbox_identity
    sentinelx_cloud_core.Scope.Transaction.◌>>=◌ strip sentinelx_cloud_core.Scope.Runtime.open_scope
    written sentinelx_cloud_core.Scope.Authority.get_record sentinelx_cloud_core.Base.Dict.lookup
    sentinelx_cloud_core.Scope.Record.from_json sentinelx_cloud_core.Scope.Record.verify_digest
    sentinelx_cloud_core.Scope.Record.is_known_state is_current
late_call-scope = refl

revoked_over : is_current revoked ≡ false
unfolding is_current
revoked_over = refl

no_reactivation_example : is_current revoked ≡ false
no_reactivation_example =
    no_reactivation host "s" revoked revoked late_call revoked_file-scope late_call-scope
      revoked_over

-- The first call makes the file.
abbrev first : Call
first = provision ("store" ∷ []) caller ("edit" ∷ []) 5 "s" "w"

absent-fresh : scope_of host absent "s" ≡ none
unfolding scope_of loaded sentinelx_cloud_core.Scope.Authority.get_record
    sentinelx_cloud_core.Base.Dict.lookup
absent-fresh = refl

first_call : Steps host absent (after host first absent)
first_call = next first absent-fresh here

first_call-scope : scope_of host (after host first absent) "s" ≡ some scope
unfolding scope_of loaded after sentinelx_cloud_core.Scope.Calls.perform
    sentinelx_cloud_core.Scope.Admission.provision_scope
    sentinelx_cloud_core.Scope.Transaction.◌>>=◌
    sentinelx_cloud_core.Scope.Authority.normalize_operation_classes
    sentinelx_cloud_core.Base.Text.sorted_set strip
    sentinelx_cloud_core.Scope.Admission.placement_generation_state
    sentinelx_cloud_core.Placement.resolve_placement
    sentinelx_cloud_core.Placement.canonical_repository sentinelx_cloud_core.Base.Text.slashes
    sentinelx_cloud_core.Base.Text.ends_with sentinelx_cloud_core.Base.Text.strip_slashes
    sentinelx_cloud_core.Base.Text.split_slashes sentinelx_cloud_core.Base.Text.join_slashes
    sentinelx_cloud_core.Placement.canonical_semantic sentinelx_cloud_core.Placement.is_relative_to
    sentinelx_cloud_core.Scope.Authority.attempt_key
    sentinelx_cloud_core.Placement.unique_mutation_lease_key sentinelx_cloud_core.Placement.evolve
    sentinelx_cloud_core.Placement.placement_policy_digest
    sentinelx_cloud_core.Scope.Admission.admit sentinelx_cloud_core.Base.Dict.lookup
    sentinelx_cloud_core.Scope.Admission.mint_scope
    sentinelx_cloud_core.Scope.Admission.reject_workspace
    sentinelx_cloud_core.Scope.Admission.publish_scope
    sentinelx_cloud_core.Scope.Authority.assert_index_binding
    sentinelx_cloud_core.Scope.Admission.enter_scope sentinelx_cloud_core.Base.Dict.insert
    assert_no_competing_nonterminal sentinelx_cloud_core.Scope.Authority.put_record
    sentinelx_cloud_core.Scope.Admission.confirm_scope written
    sentinelx_cloud_core.Scope.Authority.get_record sentinelx_cloud_core.Scope.Record.from_json
    sentinelx_cloud_core.Scope.Record.verify_digest sentinelx_cloud_core.Scope.Record.is_known_state
    sentinelx_cloud_core.Scope.Record.is_current sentinelx_cloud_core.Base.Text.take_chars
    sentinelx_cloud_core.Base.Text.decimal
first_call-scope = refl

scope_current : is_current scope ≡ true
unfolding is_current
scope_current = refl

exclusive_workspaces_example : ◌≡◌ {A = String} "s" "s"
exclusive_workspaces_example =
    exclusive_workspaces host "s" "s" scope scope first_call first_call-scope first_call-scope
      scope_current scope_current refl

abbrev closed : MutationScopeRecord
closed = record scope { state = "terminal"; terminalized_at = some 9 }

terminalize-ok :
    (terminalize_scope host "s" 1 caller.policy caller.repository attempt none 9 (start file)).0
    ≡ ok closed
unfolding terminalize_scope sentinelx_cloud_core.Scope.Transaction.◌>>=◌
    sentinelx_cloud_core.Scope.Runtime.open_scope loaded written
    sentinelx_cloud_core.Scope.Authority.get_record sentinelx_cloud_core.Base.Dict.lookup
    sentinelx_cloud_core.Scope.Record.from_json sentinelx_cloud_core.Scope.Record.verify_digest
    sentinelx_cloud_core.Scope.Record.is_known_state
    sentinelx_cloud_core.Scope.Admission.placement_generation_state
    sentinelx_cloud_core.Placement.evolve sentinelx_cloud_core.Placement.placement_policy_digest
    sentinelx_cloud_core.Scope.Terminalize.validate_sealed_binding
    sentinelx_cloud_core.Placement.canonical_repository strip sentinelx_cloud_core.Base.Text.slashes
    sentinelx_cloud_core.Base.Text.ends_with sentinelx_cloud_core.Base.Text.strip_slashes
    sentinelx_cloud_core.Base.Text.split_slashes sentinelx_cloud_core.Base.Text.join_slashes
    sentinelx_cloud_core.Scope.Authority.attempt_key
    sentinelx_cloud_core.Placement.canonical_semantic
    sentinelx_cloud_core.Placement.unique_mutation_lease_key
    sentinelx_cloud_core.Scope.Authority.lineage_differs
    sentinelx_cloud_core.Scope.Authority.assert_index_binding assert_no_competing_nonterminal
    sentinelx_cloud_core.Scope.Record.has_runtime_authority
    sentinelx_cloud_core.Scope.Terminalize.close_directly
    sentinelx_cloud_core.Scope.Authority.put_record sentinelx_cloud_core.Base.Dict.insert
terminalize-ok = refl

terminalize_scope-IsTerminal_example :
    IsTerminal host "s" closed
      (terminalize_scope host "s" 1 caller.policy caller.repository attempt none 9 (start file)).1
terminalize_scope-IsTerminal_example =
    terminalize_scope-IsTerminal host "s" 1 caller.policy caller.repository attempt none 9
      (start file) closed terminalize-ok

revoke-ok : (revoke_scope host "s" 1 (start file)).0 ≡ ok revoked
unfolding revoke_scope sentinelx_cloud_core.Scope.Transaction.◌>>=◌
    sentinelx_cloud_core.Scope.Runtime.open_scope loaded written
    sentinelx_cloud_core.Scope.Authority.get_record sentinelx_cloud_core.Base.Dict.lookup
    sentinelx_cloud_core.Scope.Record.from_json sentinelx_cloud_core.Scope.Record.verify_digest
    sentinelx_cloud_core.Scope.Record.is_known_state sentinelx_cloud_core.Scope.Runtime.commit
    sentinelx_cloud_core.Scope.Authority.put_record sentinelx_cloud_core.Base.Dict.insert
revoke-ok = refl

revoke_scope-IsRevoked_example : IsRevoked host "s" revoked (revoke_scope host "s" 1 (start file)).1
revoke_scope-IsRevoked_example = revoke_scope-IsRevoked host "s" 1 (start file) revoked revoke-ok

abbrev boxed : MutationScopeRecord
boxed = record scope {
  state = "active";
  sandbox_identity = some "box";
  sandbox_write_authority_present = true;
}

reserve-ok : (reserve_sandbox_identity host "s" 1 " box" (start file)).0 ≡ ok boxed
unfolding reserve_sandbox_identity sentinelx_cloud_core.Scope.Transaction.◌>>=◌ strip
    sentinelx_cloud_core.Scope.Runtime.open_scope loaded written
    sentinelx_cloud_core.Scope.Authority.get_record sentinelx_cloud_core.Base.Dict.lookup
    sentinelx_cloud_core.Scope.Record.from_json sentinelx_cloud_core.Scope.Record.verify_digest
    sentinelx_cloud_core.Scope.Record.is_known_state is_current
    sentinelx_cloud_core.Scope.Runtime.assert_indexed
    sentinelx_cloud_core.Scope.Authority.assert_index_binding assert_no_competing_nonterminal
    sentinelx_cloud_core.Scope.Runtime.commit sentinelx_cloud_core.Scope.Authority.put_record
    sentinelx_cloud_core.Base.Dict.insert
reserve-ok = refl

reserve_sandbox_identity-IsReserved_example :
    IsReserved host "s"
      (strip " box")
      boxed
      (reserve_sandbox_identity host "s" 1 " box" (start file)).1
reserve_sandbox_identity-IsReserved_example =
    reserve_sandbox_identity-IsReserved host "s" 1 " box" (start file) boxed reserve-ok

abbrev closure : MutationRuntimeClosure
closure = record {
  sandbox_identity = some "box";
  active_job_ids = [];
  active_process_ids = [];
  sandbox_write_authority_present = false;
  runtime_read_authority_roots = [];
  session_object_read_binding = none;
}

-- A cleanup that closes the sandbox, and one that refuses a scope that is not revoked.
abbrev close_box : Cleanup
close_box r w = (ok (some closure), w)

abbrev guarded : Cleanup
guarded r w = if r.state == "revoked" then close_box r w else (err not_current, w)

guarded_alike :
    (x : MutationScopeRecord) (v : World) → IsRevocation host "s" x v → close_box x v ≡ guarded x v
guarded_alike x v p = rw p.state

terminalize_scope-cleanup_example :
    terminalize_scope host "s" 1 caller.policy caller.repository attempt
      (some close_box)
      9
      (start (written (store_of boxed)))
    ≡ terminalize_scope host "s" 1 caller.policy caller.repository attempt
        (some guarded)
        9
        (start (written (store_of boxed)))
terminalize_scope-cleanup_example =
    terminalize_scope-cleanup host "s" 1 caller.policy caller.repository attempt close_box guarded 9
      (start (written (store_of boxed))) guarded_alike

-- A terminal scope is no competitor.
abbrev with_old : Authority
with_old = record (store_of scope) {
  scopes =
      ("s", fields scope)
      ∷ ("old", fields (record scope { scope_id = "old"; state = "terminal" }))
      ∷ [];
}

with_old-free : assert_no_competing_nonterminal host with_old scope ≡ ok tt
unfolding assert_no_competing_nonterminal sentinelx_cloud_core.Scope.Record.from_json
    sentinelx_cloud_core.Scope.Record.verify_digest sentinelx_cloud_core.Scope.Record.is_known_state
    is_current
with_old-free = refl

with_old-stored :
    stored host with_old "old" ≡ some (record scope { scope_id = "old"; state = "terminal" })
unfolding sentinelx_cloud_core.Scope.Authority.get_record sentinelx_cloud_core.Base.Dict.lookup
    sentinelx_cloud_core.Scope.Record.from_json sentinelx_cloud_core.Scope.Record.verify_digest
    sentinelx_cloud_core.Scope.Record.is_known_state
with_old-stored = refl

names_differ : ◌==◌ {V = String} "s" "old" ≡ false
names_differ = refl

competitor_not_current_example :
    is_current (record scope { scope_id = "old"; state = "terminal" }) ≡ false
competitor_not_current_example =
    competitor_not_current host with_old scope
      (record scope { scope_id = "old"; state = "terminal" }) "old" with_old-free with_old-stored
      names_differ refl

revalidate-ok :
    (revalidate_scope host "s" 1 caller.policy caller.repository attempt [] 9 (start file)).0
    ≡ ok scope
unfolding revalidate_scope sentinelx_cloud_core.Scope.Transaction.◌>>=◌
    sentinelx_cloud_core.Scope.Runtime.open_scope loaded written
    sentinelx_cloud_core.Scope.Authority.get_record sentinelx_cloud_core.Base.Dict.lookup
    sentinelx_cloud_core.Scope.Record.from_json sentinelx_cloud_core.Scope.Record.verify_digest
    sentinelx_cloud_core.Scope.Record.is_known_state
    sentinelx_cloud_core.Scope.Transaction.on_not_current
    sentinelx_cloud_core.Scope.Admission.revalidate_locked
    sentinelx_cloud_core.Scope.Admission.mark_expired_if_needed is_current
    sentinelx_cloud_core.Scope.Admission.placement_generation_state
    sentinelx_cloud_core.Placement.evolve sentinelx_cloud_core.Placement.placement_policy_digest
    sentinelx_cloud_core.Scope.Admission.revalidate_binding
    sentinelx_cloud_core.Scope.Authority.attempt_key
    sentinelx_cloud_core.Placement.canonical_semantic strip assert_no_competing_nonterminal
    sentinelx_cloud_core.Placement.unique_mutation_lease_key
    sentinelx_cloud_core.Scope.Authority.assert_index_binding
    sentinelx_cloud_core.Scope.Authority.lineage_differs
    sentinelx_cloud_core.Placement.revalidate_placement
    sentinelx_cloud_core.Placement.resolve_placement
    sentinelx_cloud_core.Placement.canonical_repository sentinelx_cloud_core.Base.Text.slashes
    sentinelx_cloud_core.Base.Text.ends_with sentinelx_cloud_core.Base.Text.strip_slashes
    sentinelx_cloud_core.Base.Text.split_slashes sentinelx_cloud_core.Base.Text.join_slashes
    sentinelx_cloud_core.Placement.is_relative_to sentinelx_cloud_core.Base.Text.decimal
    sentinelx_cloud_core.Base.Text.take_chars sentinelx_cloud_core.Placement.same_evidence
    sentinelx_cloud_core.Base.Text.begins_with sentinelx_cloud_core.Base.Text.has_text
revalidate-ok = refl

revalidate_scope-IsLive_example : IsLive 9 scope
revalidate_scope-IsLive_example =
    revalidate_scope-IsLive host caller.policy caller.repository attempt [] 9 "s" 1 (start file)
      scope revalidate-ok

revalidate_edit-ok :
    (revalidate_scope_for_operation host "s" 1 caller.policy caller.repository attempt " edit" [] 9
      (start file)).0
    ≡ ok scope
unfolding revalidate_scope revalidate_scope_for_operation
    sentinelx_cloud_core.Scope.Transaction.◌>>=◌ sentinelx_cloud_core.Scope.Runtime.open_scope
    loaded written sentinelx_cloud_core.Scope.Authority.get_record
    sentinelx_cloud_core.Base.Dict.lookup sentinelx_cloud_core.Scope.Record.from_json
    sentinelx_cloud_core.Scope.Record.verify_digest sentinelx_cloud_core.Scope.Record.is_known_state
    sentinelx_cloud_core.Scope.Transaction.on_not_current
    sentinelx_cloud_core.Scope.Admission.revalidate_locked
    sentinelx_cloud_core.Scope.Admission.mark_expired_if_needed is_current
    sentinelx_cloud_core.Scope.Admission.placement_generation_state
    sentinelx_cloud_core.Placement.evolve sentinelx_cloud_core.Placement.placement_policy_digest
    sentinelx_cloud_core.Scope.Admission.revalidate_binding
    sentinelx_cloud_core.Scope.Authority.attempt_key
    sentinelx_cloud_core.Placement.canonical_semantic strip assert_no_competing_nonterminal
    sentinelx_cloud_core.Placement.unique_mutation_lease_key
    sentinelx_cloud_core.Scope.Authority.assert_index_binding
    sentinelx_cloud_core.Scope.Authority.lineage_differs
    sentinelx_cloud_core.Placement.revalidate_placement
    sentinelx_cloud_core.Placement.resolve_placement
    sentinelx_cloud_core.Placement.canonical_repository sentinelx_cloud_core.Base.Text.slashes
    sentinelx_cloud_core.Base.Text.ends_with sentinelx_cloud_core.Base.Text.strip_slashes
    sentinelx_cloud_core.Base.Text.split_slashes sentinelx_cloud_core.Base.Text.join_slashes
    sentinelx_cloud_core.Placement.is_relative_to sentinelx_cloud_core.Base.Text.decimal
    sentinelx_cloud_core.Base.Text.take_chars sentinelx_cloud_core.Placement.same_evidence
    sentinelx_cloud_core.Base.Text.begins_with sentinelx_cloud_core.Base.Text.has_text
revalidate_edit-ok = refl

revalidate_scope_for_operation-IsLive_example :
    IsLive 9 scope × (contains scope.allowed_operation_classes (strip " edit") ≡ true)
revalidate_scope_for_operation-IsLive_example =
    revalidate_scope_for_operation-IsLive host caller.policy caller.repository attempt [] 9 "s" 1
      " edit" (start file) scope revalidate_edit-ok

mint-ok : (mint_scope host scope true (start absent)).0 ≡ ok scope
unfolding mint_scope sentinelx_cloud_core.Scope.Transaction.◌>>=◌
    sentinelx_cloud_core.Base.Dict.lookup loaded
    sentinelx_cloud_core.Scope.Admission.reject_workspace
    sentinelx_cloud_core.Scope.Admission.publish_scope
    sentinelx_cloud_core.Scope.Authority.assert_index_binding
    sentinelx_cloud_core.Scope.Admission.enter_scope sentinelx_cloud_core.Base.Dict.insert
    assert_no_competing_nonterminal sentinelx_cloud_core.Scope.Authority.put_record
    sentinelx_cloud_core.Scope.Admission.confirm_scope written
    sentinelx_cloud_core.Scope.Authority.get_record sentinelx_cloud_core.Scope.Record.from_json
    sentinelx_cloud_core.Scope.Record.verify_digest sentinelx_cloud_core.Scope.Record.is_known_state
mint-ok = refl

mint_scope-IsMinted_example :
    IsMinted host scope scope (mint_scope host scope true (start absent)).1
mint_scope-IsMinted_example = mint_scope-IsMinted host scope true (start absent) scope mint-ok
