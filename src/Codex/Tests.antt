-- ===== src/Codex/Tests.antt =====
-- Runs on a small repository with one changed file, whose Git is a function of the arguments.
use sentinelx_cloud_core.Base.{
  ℕ, String, Bool, true, false, ◌≡◌, refl, Option, none, some, List, [], ◌∷◌, ◌==◌, string_eq,
  contains, nat_eq, if◌then◌else◌,
}
use sentinelx_cloud_core.Base.Result.{Result, ok, err}
use sentinelx_cloud_core.Host.{Host, no_port}
use sentinelx_cloud_core.Codex.Site.{
  Site, Answer, Bytes, Environ, Failure, CanonicalizationSnapshot, absent,
}
use sentinelx_cloud_core.Base.{◌≢◌, ap, ◌∙◌, eq_iff}
use sentinelx_cloud_core.Base.Lists.{select}
use sentinelx_cloud_core.Codex.Eligible.{own, IsClean, eligible-select}
use sentinelx_cloud_core.Base.Text.{sorted_set, strip, join_slashes}
use sentinelx_cloud_core.Codex.Journal.{
  PersistenceJournal, JournalFile, missing, malformed, saved, publish_intent, local_ref_ready,
  new_identity, commit_message,
}
use sentinelx_cloud_core.Codex.Program.{World}
use sentinelx_cloud_core.Codex.Canonical.{chunks, output}
use sentinelx_cloud_core.Codex.Inventory.{eligible}
use sentinelx_cloud_core.Codex.Recover.{Request, PersistenceOutcome, no_change}
use sentinelx_cloud_core.Codex.Persist.{persist_implementation}
use sentinelx_cloud_core.Codex.Silent.{Quiet, pushes}
use sentinelx_cloud_core.Codex.Advance.{is_pushed, file_pushed}
use sentinelx_cloud_core.Codex.Publishes.{Publishes}
use sentinelx_cloud_core.Codex.Turns.{
  journal_path, Turn, Desks, world_at, after_turns, after_turns-Publishes, Keeps, after_turns-Keeps,
}
use sentinelx_cloud_core.Codex.Own.{IsOwn, persist_implementation-IsOwn}
use sentinelx_cloud_core.Codex.HeadMoved.{HasHeadMoved, persist_implementation-raises}
use sentinelx_cloud_core.Codex.Staging.{IsStaged, build_tree-IsStaged}
use sentinelx_cloud_core.Codex.Candidate.{build_tree}
use sentinelx_cloud_core.Codex.Inventory.{WorktreeDelta}
use sentinelx_cloud_core.Codex.Command.{ProviderState}

abbrev base : String
base = "aaaaaaaaaaaaaaaaaaaaaaaaaaaaaaaaaaaaaaaa"

abbrev commit : String
commit = "bbbbbbbbbbbbbbbbbbbbbbbbbbbbbbbbbbbbbbbb"

abbrev tree : String
tree = "cccccccccccccccccccccccccccccccccccccccc"

-- Whether the checkout, and the remote, are at the new commit.
record Repo : Type 0 where
  head : Bool
  remote : Bool

-- The texts that Git prints, by number.
abbrev printed : ℕ → String
printed n =
    if n == 1
    then "main"
    else if n == 2
    then base
    else if n == 3
    then commit
    else if n == 4
    then tree
    else if n == 5
    then "aaaaaaaaaaaaaaaaaaaaaaaaaaaaaaaaaaaaaaaa refs/heads/main"
    else if n == 6
    then "bbbbbbbbbbbbbbbbbbbbbbbbbbbbbbbbbbbbbbbb refs/heads/main"
    else if n == 7
    then ":100644 100644 a b M\0f.py\0"
    else if n == 8
    then "f.py\0"
    else ""

abbrev decode : Bytes → String
decode [] = ""
decode (n ∷ _) = printed n

abbrev says : ℕ → Option Answer
says n = some (record { code = 0; stdout = n ∷ []; stderr = [] })

abbrev told : Bool → Option Answer
told at_commit = if at_commit then says 6 else says 5

abbrev headed : Bool → Option Answer
headed at_commit = if at_commit then says 3 else says 2

abbrev revision : String → Repo → Option Answer
revision name r =
    if name == "HEAD"
    then headed r.head
    else if name == "bbbbbbbbbbbbbbbbbbbbbbbbbbbbbbbbbbbbbbbb^"
    then says 2
    else says 4

-- Git, by the first words of its arguments.
abbrev git : List String → Environ → Repo → Option Answer × Repo
git (first ∷ second ∷ rest) env r =
    if first == "rev-parse"
    then (if second == "--abbrev-ref" then says 1 else revision second r, r)
    else if first == "ls-remote"
    then (told r.remote, r)
    else if second == "diff-index"
    then (says 7, r)
    else if first == "diff-tree"
    then (says 8, r)
    else if first == "update-ref"
    then (says 0, record r { head = true })
    else if contains rest "commit-tree"
    then (says 3, r)
    else if contains rest "push"
    then (says 0, record r { remote = true })
    else (says 0, r)
git (first ∷ []) env r = (says 4, r)
git [] env r = (none, r)

abbrev host : Host
host = record {
  digest = λ v. "d";
  resolve = λ p. p;
  path_text = join_slashes;
  iso = λ n. "t";
  casefold = λ s. s;
  lower = λ s. s;
  urlsplit = λ s. record { hostname = some "example.org"; port_of = no_port };
}

differs : false ≡ true → ⊥
differs e = cc

other : commit ≡ base → ⊥
other e = differs ((eq_iff commit base).1 e)

abbrev snapshot : CanonicalizationSnapshot
snapshot = record {
  version = 1;
  scalars =
      ("core.autocrlf", "")
      ∷ ("core.eol", "")
      ∷ ("core.safecrlf", "")
      ∷ ("core.checkroundtripencoding", "")
      ∷ [];
  info_attributes_empty = true;
  expected_attribute_digest = "x";
  versioned_gitattributes_digest = "x";
  expected_remote_sha = base;
  inspection_index_digest = "x";
  digest = "x";
}

abbrev site : Site Repo
site = record {
  git = git;
  writable = λ r. true;
  unlink = λ path r. some r;
  info_attributes = λ r. absent;
  snapshot_file = λ r. some snapshot;
  dumps = λ v. "{}";
  sha256 = λ b. "x";
  encode = λ s. [];
  decode = decode;
  host = host;
}

abbrev request : Request
request = record {
  workspace = record { root = "work" ∷ []; path = "work" ∷ "w" ∷ []; workspace_digest = "w" };
  bootstrap = record { state = none; snapshot = none };
  repository = record { vcs = "git"; authority = "example.org"; path = "a/b" };
  semantic = record {
    project_id = "project";
    task_id = "task";
    run_id = "run";
    attempt_id = "attempt";
    slice_id = none;
  };
  canonical_pr = 15;
  branch = "main";
  expected_remote_sha = base;
  now = 7;
}

abbrev start : World Repo
start = record { repo = record { head = false; remote = false }; journal = missing; sent = [] }

abbrev run : Result Failure PersistenceOutcome × World Repo
run = persist_implementation site request start

abbrev turn : Turn Repo
turn = record { others = λ r. r; request = request }

abbrev journal_file : String
journal_file = "work/.devforge-state/w/persistence-journal.json"

its_path : journal_path host request ≡ journal_file
unfolding journal_path sentinelx_cloud_core.Codex.Command.provider_state join_slashes
its_path = refl

-- No journal file yet, in any state directory.
abbrev desks : Desks Repo
desks = record { repo = start.repo; at = λ path. record { journal = missing; sent = [] } }

abbrev elsewhere : Turn Repo
elsewhere = record {
  others = λ r. r;
  request = record request {
    workspace = record { root = "work" ∷ []; path = "work" ∷ "v" ∷ []; workspace_digest = "v" };
  };
}

after_turns-Publishes_example :
    Publishes missing []
      (world_at (after_turns host (λ path. site) desks (turn ∷ elsewhere ∷ turn ∷ [])) journal_file)
unfolding pushes
after_turns-Publishes_example =
    after_turns-Publishes host (λ path. site) (turn ∷ elsewhere ∷ turn ∷ []) desks journal_file

abbrev unset : PersistenceOutcome
unset = record {
  status = no_change;
  base_head = "";
  eligible_change_count = 0;
  changed_paths_digest = "";
  candidate_commit = none;
  commit_provenance_digest = none;
  is_published = false;
  remote_head_readback = "";
  consistent = false;
  actual_branch = "";
  local_head = "";
  snapshot_digest = none;
  state = none;
  error_code = none;
}

abbrev returned : Result Failure PersistenceOutcome → PersistenceOutcome
returned (ok outcome) = outcome
returned (err e) = unset

run-published : (returned run.0).is_published ≡ true
unfolding sentinelx_cloud_core.Codex.Program.pure sentinelx_cloud_core.Codex.Program.raise
    sentinelx_cloud_core.Codex.Program.lift sentinelx_cloud_core.Codex.Program.throw_if
    sentinelx_cloud_core.Codex.Program.read_journal sentinelx_cloud_core.Codex.Program.transport_git
    sentinelx_cloud_core.Codex.Program.unlink sentinelx_cloud_core.Codex.Program.gets
    sentinelx_cloud_core.Codex.Program.replace sentinelx_cloud_core.Codex.Program.◌>>=◌
    sentinelx_cloud_core.Codex.Program.write_journal sentinelx_cloud_core.Codex.Persist.open_state
    sentinelx_cloud_core.Codex.Persist.open_snapshot sentinelx_cloud_core.Codex.Persist.prepare
    sentinelx_cloud_core.Codex.Persist.report_no_change
    sentinelx_cloud_core.Codex.Persist.ready_tree sentinelx_cloud_core.Codex.Persist.ready_commit
    sentinelx_cloud_core.Codex.Persist.move_local_ref
    sentinelx_cloud_core.Codex.Persist.read_back_push sentinelx_cloud_core.Codex.Persist.send_push
    sentinelx_cloud_core.Codex.Persist.publish sentinelx_cloud_core.Codex.Persist.persist_changes
    sentinelx_cloud_core.Codex.Persist.persist_fresh sentinelx_cloud_core.Codex.Persist.resume
    sentinelx_cloud_core.Codex.Persist.persist_from persist_implementation
    sentinelx_cloud_core.Codex.Candidate.resolve_revision
    sentinelx_cloud_core.Codex.Candidate.stage_chunks
    sentinelx_cloud_core.Codex.Candidate.verify_candidate_tree
    sentinelx_cloud_core.Codex.Candidate.build_tree
    sentinelx_cloud_core.Codex.Candidate.create_commit
    sentinelx_cloud_core.Codex.Candidate.verify_candidate_object
    sentinelx_cloud_core.Codex.Command.provider_state
    sentinelx_cloud_core.Codex.Command.materialization_env
    sentinelx_cloud_core.Codex.Command.materialization_clamps
    sentinelx_cloud_core.Codex.Command.argv sentinelx_cloud_core.Codex.Command.environ
    sentinelx_cloud_core.Codex.Canonical.validate_relative_path
    sentinelx_cloud_core.Codex.Canonical.parse_remote_head chunks
    sentinelx_cloud_core.Codex.Canonical.slices
    sentinelx_cloud_core.Codex.Canonical.reject_custom_filters
    sentinelx_cloud_core.Codex.Canonical.remote_url_for
    sentinelx_cloud_core.Codex.Canonical.normalize_scalars
    sentinelx_cloud_core.Codex.Canonical.read_remote_head
    sentinelx_cloud_core.Codex.Canonical.config_scalar
    sentinelx_cloud_core.Codex.Canonical.read_scalars
    sentinelx_cloud_core.Codex.Canonical.read_normalization_scalars
    sentinelx_cloud_core.Codex.Canonical.info_attributes_empty
    sentinelx_cloud_core.Codex.Canonical.seed_inspection_index
    sentinelx_cloud_core.Codex.Canonical.attribute_lines
    sentinelx_cloud_core.Codex.Canonical.inspect_effective_attributes
    sentinelx_cloud_core.Codex.Canonical.snapshot_digest
    sentinelx_cloud_core.Codex.Canonical.revalidate_canonicalization
    sentinelx_cloud_core.Codex.Inventory.delta_paths
    sentinelx_cloud_core.Codex.Inventory.provider_owned
    sentinelx_cloud_core.Codex.Inventory.names_gitattributes
    sentinelx_cloud_core.Codex.Inventory.reject_unsupported_mode
    sentinelx_cloud_core.Codex.Inventory.raw_changes sentinelx_cloud_core.Codex.Inventory.kept_paths
    eligible sentinelx_cloud_core.Codex.Inventory.digest_lines
    sentinelx_cloud_core.Codex.Inventory.inventory
    sentinelx_cloud_core.Codex.Recover.journal_identity
    sentinelx_cloud_core.Codex.Recover.journal_matches
    sentinelx_cloud_core.Codex.Recover.recover_published
    sentinelx_cloud_core.Codex.Recover.recover_publish_intent
    sentinelx_cloud_core.Codex.Journal.identity_to_dict sentinelx_cloud_core.Codex.Journal.to_dict
    commit_message new_identity sentinelx_cloud_core.Codex.Journal.provenance_digest
    sentinelx_cloud_core.Json.json_beq sentinelx_cloud_core.Json.fields_beq
    sentinelx_cloud_core.Base.Dict.lookup sentinelx_cloud_core.Base.Split.split_on
    sentinelx_cloud_core.Base.Split.words sentinelx_cloud_core.Base.Split.splitlines
    sentinelx_cloud_core.Base.Split.rsplit_two sentinelx_cloud_core.Base.Split.tail_of
    sentinelx_cloud_core.Base.Split.join sentinelx_cloud_core.Base.Split.is_sha
    sentinelx_cloud_core.Base.Split.strip_char strip sentinelx_cloud_core.Base.Text.slashes
    sentinelx_cloud_core.Base.Text.ends_with sentinelx_cloud_core.Base.Text.strip_slashes
    sentinelx_cloud_core.Base.Text.split_slashes sentinelx_cloud_core.Base.Text.join_slashes
    sentinelx_cloud_core.Base.Text.has_text sentinelx_cloud_core.Base.Text.begins_with sorted_set
    sentinelx_cloud_core.Base.Text.sort_by sentinelx_cloud_core.Base.Text.decimal
    sentinelx_cloud_core.Placement.canonical_repository
run-published = refl

-- A journal of the attempt, after its push.
abbrev journal : PersistenceJournal
journal = record {
  identity = record {
    repository = "git://example.org/a/b";
    task_id = "task";
    run_id = "run";
    attempt_id = "attempt";
    slice_id = none;
  };
  transport = record {
    canonical_pr = some 15;
    canonical_branch = some "main";
    expected_remote_sha = some base;
  };
  clean_semantics = record {
    pre_checkout_snapshot_digest = some "x";
    expected_attribute_snapshot_digest = "x";
    checkout_materialized_under_snapshot = true;
    info_attributes_empty = true;
    versioned_gitattributes_unchanged = true;
  };
  commit_identity = new_identity site request.semantic 7;
  message = commit_message request.semantic;
  state = publish_intent;
  candidate_tree_sha = some tree;
  eligible_paths_digest = some "x";
  eligible_change_count = some 1;
  candidate_commit_sha = some commit;
  version = 1;
}

-- The remote took the push, and the journal does not say so yet.
abbrev interrupted : World Repo
interrupted = record {
  repo = record { head = true; remote = true };
  journal = saved journal;
  sent = [];
}

abbrev interrupted_desks : Desks Repo
interrupted_desks = record {
  repo = interrupted.repo;
  at = λ path. record { journal = interrupted.journal; sent = interrupted.sent };
}

after_turns-Keeps_example :
    Keeps journal
      ((after_turns host (λ path. site) interrupted_desks (turn ∷ [])).at journal_file).journal
after_turns-Keeps_example =
    after_turns-Keeps host (λ path. site) (turn ∷ []) interrupted_desks journal_file journal refl

abbrev recovery : Result Failure PersistenceOutcome × World Repo
recovery = persist_implementation site request interrupted

recovery-ok : recovery.0 ≡ ok (returned recovery.0)
unfolding sentinelx_cloud_core.Codex.Program.pure sentinelx_cloud_core.Codex.Program.raise
    sentinelx_cloud_core.Codex.Program.lift sentinelx_cloud_core.Codex.Program.throw_if
    sentinelx_cloud_core.Codex.Program.read_journal sentinelx_cloud_core.Codex.Program.transport_git
    sentinelx_cloud_core.Codex.Program.unlink sentinelx_cloud_core.Codex.Program.gets
    sentinelx_cloud_core.Codex.Program.replace sentinelx_cloud_core.Codex.Program.◌>>=◌
    sentinelx_cloud_core.Codex.Program.write_journal sentinelx_cloud_core.Codex.Persist.open_state
    sentinelx_cloud_core.Codex.Persist.open_snapshot sentinelx_cloud_core.Codex.Persist.prepare
    sentinelx_cloud_core.Codex.Persist.report_no_change
    sentinelx_cloud_core.Codex.Persist.ready_tree sentinelx_cloud_core.Codex.Persist.ready_commit
    sentinelx_cloud_core.Codex.Persist.move_local_ref
    sentinelx_cloud_core.Codex.Persist.read_back_push sentinelx_cloud_core.Codex.Persist.send_push
    sentinelx_cloud_core.Codex.Persist.publish sentinelx_cloud_core.Codex.Persist.persist_changes
    sentinelx_cloud_core.Codex.Persist.persist_fresh sentinelx_cloud_core.Codex.Persist.resume
    sentinelx_cloud_core.Codex.Persist.persist_from persist_implementation
    sentinelx_cloud_core.Codex.Candidate.resolve_revision
    sentinelx_cloud_core.Codex.Candidate.stage_chunks
    sentinelx_cloud_core.Codex.Candidate.verify_candidate_tree
    sentinelx_cloud_core.Codex.Candidate.build_tree
    sentinelx_cloud_core.Codex.Candidate.create_commit
    sentinelx_cloud_core.Codex.Candidate.verify_candidate_object
    sentinelx_cloud_core.Codex.Command.provider_state
    sentinelx_cloud_core.Codex.Command.materialization_env
    sentinelx_cloud_core.Codex.Command.materialization_clamps
    sentinelx_cloud_core.Codex.Command.argv sentinelx_cloud_core.Codex.Command.environ
    sentinelx_cloud_core.Codex.Canonical.validate_relative_path
    sentinelx_cloud_core.Codex.Canonical.parse_remote_head chunks
    sentinelx_cloud_core.Codex.Canonical.slices
    sentinelx_cloud_core.Codex.Canonical.reject_custom_filters
    sentinelx_cloud_core.Codex.Canonical.remote_url_for
    sentinelx_cloud_core.Codex.Canonical.normalize_scalars
    sentinelx_cloud_core.Codex.Canonical.read_remote_head
    sentinelx_cloud_core.Codex.Canonical.config_scalar
    sentinelx_cloud_core.Codex.Canonical.read_scalars
    sentinelx_cloud_core.Codex.Canonical.read_normalization_scalars
    sentinelx_cloud_core.Codex.Canonical.info_attributes_empty
    sentinelx_cloud_core.Codex.Canonical.seed_inspection_index
    sentinelx_cloud_core.Codex.Canonical.attribute_lines
    sentinelx_cloud_core.Codex.Canonical.inspect_effective_attributes
    sentinelx_cloud_core.Codex.Canonical.snapshot_digest
    sentinelx_cloud_core.Codex.Canonical.revalidate_canonicalization
    sentinelx_cloud_core.Codex.Inventory.delta_paths
    sentinelx_cloud_core.Codex.Inventory.provider_owned
    sentinelx_cloud_core.Codex.Inventory.names_gitattributes
    sentinelx_cloud_core.Codex.Inventory.reject_unsupported_mode
    sentinelx_cloud_core.Codex.Inventory.raw_changes sentinelx_cloud_core.Codex.Inventory.kept_paths
    eligible sentinelx_cloud_core.Codex.Inventory.digest_lines
    sentinelx_cloud_core.Codex.Inventory.inventory
    sentinelx_cloud_core.Codex.Recover.journal_identity
    sentinelx_cloud_core.Codex.Recover.journal_matches
    sentinelx_cloud_core.Codex.Recover.recover_published
    sentinelx_cloud_core.Codex.Recover.recover_publish_intent
    sentinelx_cloud_core.Codex.Journal.identity_to_dict sentinelx_cloud_core.Codex.Journal.to_dict
    commit_message new_identity sentinelx_cloud_core.Codex.Journal.provenance_digest
    sentinelx_cloud_core.Json.json_beq sentinelx_cloud_core.Json.fields_beq
    sentinelx_cloud_core.Base.Dict.lookup sentinelx_cloud_core.Base.Split.split_on
    sentinelx_cloud_core.Base.Split.words sentinelx_cloud_core.Base.Split.splitlines
    sentinelx_cloud_core.Base.Split.rsplit_two sentinelx_cloud_core.Base.Split.tail_of
    sentinelx_cloud_core.Base.Split.join sentinelx_cloud_core.Base.Split.is_sha
    sentinelx_cloud_core.Base.Split.strip_char strip sentinelx_cloud_core.Base.Text.slashes
    sentinelx_cloud_core.Base.Text.ends_with sentinelx_cloud_core.Base.Text.strip_slashes
    sentinelx_cloud_core.Base.Text.split_slashes sentinelx_cloud_core.Base.Text.join_slashes
    sentinelx_cloud_core.Base.Text.has_text sentinelx_cloud_core.Base.Text.begins_with sorted_set
    sentinelx_cloud_core.Base.Text.sort_by sentinelx_cloud_core.Base.Text.decimal
    sentinelx_cloud_core.Placement.canonical_repository
recovery-ok = refl

persist_implementation-IsOwn_example :
    (interrupted.journal ≢ malformed)
    × ((j : PersistenceJournal) → interrupted.journal ≡ saved j → IsOwn site request j)
persist_implementation-IsOwn_example =
    persist_implementation-IsOwn site request interrupted (returned recovery.0) recovery-ok

-- The branch has moved to the candidate, and the run was interrupted before its push.
abbrev moved : World Repo
moved = record {
  repo = record { head = true; remote = false };
  journal = saved (record journal { state = local_ref_ready });
  sent = [];
}

abbrev unanswered : Answer
unanswered = record { code = 1; stdout = []; stderr = [] }

abbrev reply : Option Answer → Answer
reply none = unanswered
reply (some a) = a

moved-HasHeadMoved : HasHeadMoved site request moved.repo
unfolding strip
moved-HasHeadMoved = record { never = λ a e c o. other (ap (λ r. output site (reply r)) e ∙ o) }

moved-unpushed : file_pushed moved.journal ≡ false
unfolding is_pushed
moved-unpushed = refl

persist_implementation-raises_example :
    ((e : Failure) × ((persist_implementation site request moved).0 ≡ err e))
    × Quiet moved (persist_implementation site request moved).1
persist_implementation-raises_example =
    persist_implementation-raises site request moved moved-unpushed moved-HasHeadMoved

abbrev delta : WorktreeDelta
delta = record { modified = "f.py" ∷ []; deleted = []; added = []; digest = "x" }

abbrev provider : ProviderState
provider = record {
  directory = "d";
  empty_attributes = "d/attributes-empty";
  empty_config = "d/empty-config";
  hooks = "d/hooks";
  inspection_index = "d/inspection-index";
  snapshot = "d/canonicalization-snapshot.json";
  journal = "d/persistence-journal.json";
  candidate_index = "d/candidate-index";
}

abbrev built : Result Failure String × World Repo
built = build_tree site provider snapshot base delta start

abbrev text_of : Result Failure String → String
text_of (ok t) = t
text_of (err e) = ""

built-ok : built.0 ≡ ok (text_of built.0)
unfolding build_tree sentinelx_cloud_core.Codex.Program.◌>>=◌
    sentinelx_cloud_core.Codex.Command.argv sentinelx_cloud_core.Codex.Candidate.stage_chunks chunks
    sentinelx_cloud_core.Codex.Inventory.delta_paths sorted_set
    sentinelx_cloud_core.Codex.Command.materialization_clamps sentinelx_cloud_core.Base.Text.sort_by
    sentinelx_cloud_core.Base.Dict.lookup sentinelx_cloud_core.Base.Split.is_sha strip
    sentinelx_cloud_core.Codex.Candidate.verify_candidate_tree
    sentinelx_cloud_core.Base.Split.split_on
built-ok = refl

build_tree-IsStaged_example : IsStaged site provider snapshot delta start built.1
build_tree-IsStaged_example =
    build_tree-IsStaged site provider snapshot base delta start (text_of built.0) built-ok

abbrev listed : List String
listed = "src/b.py" ∷ ".devforge/handoff.md" ∷ "a.py" ∷ "src/b.py" ∷ []

listed-eligible : eligible listed ≡ ok ("a.py" ∷ "src/b.py" ∷ [])
unfolding eligible sentinelx_cloud_core.Codex.Canonical.validate_relative_path
    sentinelx_cloud_core.Base.Text.begins_with sentinelx_cloud_core.Base.Text.has_text
    sentinelx_cloud_core.Base.Text.split_slashes sorted_set
listed-eligible = refl

eligible-select_example :
    (("a.py" ∷ "src/b.py" ∷ []) ≡ sorted_set (select own listed)) × IsClean listed
eligible-select_example = eligible-select listed ("a.py" ∷ "src/b.py" ∷ []) listed-eligible
