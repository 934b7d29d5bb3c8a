-- ===== src/Audit/Tests.antt =====
-- One operation, from its start to its end.
use sentinelx_cloud_core.Base.{
  ℕ, String, Bool, true, false, ◌==◌, string_eq, list_eq, ◌≡◌, refl, sym, ap, ◌⊎◌, Option, none,
  some, List, [], ◌∷◌, ◌++◌, if◌then◌else◌,
}
use sentinelx_cloud_core.Base.Text.{codes}
use sentinelx_cloud_core.Base.Result.{Result, ok, err}
use sentinelx_cloud_core.Base.State.{M, pure, throw_if, Ends}
use sentinelx_cloud_core.Host.{FilePath}
use sentinelx_cloud_core.Json.{object, end, Json, null, text}
use sentinelx_cloud_core.Audit.{
  MutationAuditStart, MutationAuditSpawn, MutationSpawnEvidence, MutationFinishClosureEvidence,
  MutationAuditBinding, ForensicScriptEvidence, MutationAuthorityEvidence,
  RequestedMutationIdentity, MutationProcessIntent,
}
use sentinelx_cloud_core.Audit.Journal.{
  evidence_error, read_verified, AuditHost, Broker, appends, fails_after, durability, Event,
  process_spawned, Failure, Bytes, callback_error, begin, record_spawn, spawn_event,
  commit_spawn_before_resume, finish, finish_event, durable_append,
}
use sentinelx_cloud_core.Audit.Reading.{read_events}
use sentinelx_cloud_core.Audit.Evidence.{Write, done, retain, materialize_verified}
use sentinelx_cloud_core.Audit.Retained.{
  retain-read_verified, IsMaterialized, materialize_verified-IsMaterialized,
}
use sentinelx_cloud_core.Audit.Appended.{Adds, MayAdd, IsIntended, record_spawn-IsIntended}
use sentinelx_cloud_core.Audit.Committed.{
  commit_spawn_before_resume_order, append_only, finish-IsClosed, IsClosed,
}

abbrev fingerprint : Bytes → String
fingerprint [] = "e3b0"
fingerprint (b ∷ bytes) = "9f86"

abbrev printed : Json → String
printed (text t) = t
printed other = "{}"

abbrev parsed : String → Option Json
parsed t = if t == "{}" then some (object end) else none

abbrev host : AuditHost
host = record {
  dumps = printed;
  sha256 = fingerprint;
  loads = parsed;
  encode = codes;
  casefold = λ t. t;
  evidence_root = "state" ∷ "evidence" ∷ [];
}

abbrev binding : MutationAuditBinding
binding = record {
  request_id = "r1";
  op = "exec";
  opaque_ref = none;
  lineage = null;
  scope_id = "ms_1";
  scope_generation = 1;
  workspace_id = "w1";
  unique_lease_key = "k1";
  job_id = none;
}

abbrev artifact : FilePath
artifact = "state" ∷ "evidence" ∷ "a1.script" ∷ []

abbrev evidence : ForensicScriptEvidence
evidence = record {
  artifact_ref = "a1";
  sha256 = "9f86";
  size_bytes = 2;
  created_at = "2026-01-01";
  retained_until = "2026-02-01";
  artifact_path = artifact;
}

abbrev authority : MutationAuthorityEvidence
authority = record {
  scope_digest = "s1";
  exact_workspace_digest = "x1";
  protected_inventory_digest = "p1";
  policy_digest = "q1";
  repository_identity_digest = "i1";
  semantic_identity_digest = "m1";
}

abbrev process_intent : MutationProcessIntent
process_intent = record {
  interpreter = "python";
  argv = "python" ∷ "fix.py" ∷ [];
  executable_final_path = "c:/python.exe";
  cwd_final_path = "c:/work";
}

abbrev requested_identity : RequestedMutationIdentity
requested_identity = record {
  host_platform = "windows";
  host_user_sid = "S-1-5-21";
  sandbox_kind = "appcontainer";
  sandbox_profile = "material";
  sandbox_identity = "S-1-15-2";
}

abbrev broker : Broker
broker = record {
  journal = "\n";
  artifacts = λ path. if path == artifact then some (7 ∷ 8 ∷ []) else none;
  disk = appends;
}

abbrev begun_with : String → Broker
begun_with journal = record broker { journal = journal }

abbrev started : Result Failure MutationAuditStart × Broker
started =
    begin host binding evidence authority process_intent requested_identity none "01" "2026-01-01"
      broker

abbrev start : MutationAuditStart
start = record {
  operation_id = "mao_01";
  event_ref = "mutation-audit:mao_01:start";
  binding = binding;
  binding_digest = "9f86";
  evidence = evidence;
  authority = authority;
  process_intent = process_intent;
  requested_identity = requested_identity;
  verification_intent = none;
  start_evidence_digest = "9f86";
  started_at = "2026-01-01";
}

begun : started.0 ≡ ok start
unfolding begin sentinelx_cloud_core.Base.State.◌>>=◌
    sentinelx_cloud_core.Audit.Journal.read_verified sentinelx_cloud_core.Placement.is_relative_to
    sentinelx_cloud_core.Audit.Journal.read_bytes durable_append
    sentinelx_cloud_core.Audit.Journal.digest_of sentinelx_cloud_core.Audit.Journal.canonical_digest
    sentinelx_cloud_core.Audit.binding_dict
begun = refl

abbrev spawned : MutationSpawnEvidence
spawned = record {
  pid = 40;
  ppid = 4;
  executable_final_path = "c:/python.exe";
  cwd_final_path = "c:/work";
  os_identity = record {
    process_user_sid = "S-1-5-21";
    appcontainer_sid = "S-1-15-2";
    is_appcontainer = true;
  };
  containment = record {
    job_binding = "job-1";
    contained = true;
    breakaway_allowed = false;
    active_process_count = 1;
  };
}

abbrev closure : MutationFinishClosureEvidence
closure = record {
  scope_state = "terminal";
  scope_digest = "s1";
  protected_inventory_digest = "p1";
  sandbox_identity = none;
  job_binding = some "job-1";
  root_pid = some 40;
  job_handle_closed = true;
  job_active_process_count = 0;
  active_job_ids = [];
  active_process_ids = [];
  sandbox_write_authority_present = false;
  process_tree_quiescent = true;
  terminalized_at = "2026-01-01";
}

abbrev spawn : MutationAuditSpawn
spawn = record {
  operation_id = "mao_01";
  event_ref = "mutation-audit:mao_01:spawn";
  pid = 40;
  job_binding = "job-1";
  recorded_at = "2026-01-01";
}

recorded : (record_spawn host start spawned "2026-01-01" broker).0 ≡ ok spawn
unfolding record_spawn sentinelx_cloud_core.Base.State.◌>>=◌
    sentinelx_cloud_core.Audit.Journal.assert_start_identity
    sentinelx_cloud_core.Audit.Journal.digest_of sentinelx_cloud_core.Audit.binding_dict
    sentinelx_cloud_core.Audit.Journal.read_verified sentinelx_cloud_core.Placement.is_relative_to
    sentinelx_cloud_core.Audit.Journal.read_bytes sentinelx_cloud_core.Base.Text.strip
    durable_append
recorded = refl

record_spawn-IsIntended_example :
    Adds host broker
      (spawn_event host start spawned "2026-01-01")
      (record_spawn host start spawned "2026-01-01" broker).1
    × IsIntended host start spawned
record_spawn-IsIntended_example =
    record_spawn-IsIntended host start spawned "2026-01-01" broker spawn recorded

abbrev when_line : String → Result Failure (Unit {0})
when_line journal = if journal == "\n{}\n" then ok tt else err callback_error

abbrev resume_always : M Broker Failure (Unit {0})
resume_always w = (ok tt, w)

abbrev resume_when_line : M Broker Failure (Unit {0})
resume_when_line w = (when_line w.journal, w)

same_resume :
    (v : Broker)
    → Adds host broker (spawn_event host start spawned "2026-01-01") v
    → IsIntended host start spawned
    → resume_always v ≡ resume_when_line v
unfolding sentinelx_cloud_core.Audit.Journal.line_of
same_resume v adds intended = sym (ap (λ journal. (when_line journal, v)) adds)

commit_spawn_before_resume_order_example :
    commit_spawn_before_resume host start spawned "2026-01-01" resume_always resume_always broker
    ≡ commit_spawn_before_resume host start spawned "2026-01-01" resume_always resume_when_line
        broker
commit_spawn_before_resume_order_example =
    commit_spawn_before_resume_order host start spawned "2026-01-01" resume_always resume_always
      resume_when_line broker same_resume

-- The line was written but its durability is unknown: the process is terminated, not resumed.
abbrev doubtful : Broker
doubtful = record broker { disk = fails_after 1 }

abbrev quit : M Broker Failure (Unit {0})
quit w = (err callback_error, w)

doubted :
    (commit_spawn_before_resume host start spawned "2026-01-01" resume_always quit doubtful).0
    ≡ err durability
unfolding commit_spawn_before_resume sentinelx_cloud_core.Base.State.◌>>=◌
    sentinelx_cloud_core.Base.State.on_error record_spawn
    sentinelx_cloud_core.Audit.Journal.assert_start_identity
    sentinelx_cloud_core.Audit.Journal.digest_of sentinelx_cloud_core.Audit.binding_dict
    sentinelx_cloud_core.Audit.Journal.read_verified sentinelx_cloud_core.Placement.is_relative_to
    sentinelx_cloud_core.Audit.Journal.read_bytes sentinelx_cloud_core.Base.Text.strip
    durable_append
doubted = refl

finished :
    (finish host start "succeeded" closure (some 0) none "02" "2026-01-02" broker).0
    ≡ ok "mutation-audit:mao_01:finish:02"
unfolding finish sentinelx_cloud_core.Base.State.◌>>=◌
    sentinelx_cloud_core.Audit.Journal.assert_start_identity
    sentinelx_cloud_core.Audit.Journal.digest_of sentinelx_cloud_core.Audit.binding_dict
    sentinelx_cloud_core.Audit.Journal.read_verified sentinelx_cloud_core.Placement.is_relative_to
    sentinelx_cloud_core.Audit.Journal.read_bytes sentinelx_cloud_core.Audit.Journal.is_open
    durable_append sentinelx_cloud_core.Audit.Journal.finish_ref
finished = refl

finish-IsClosed_example :
    Adds host broker
      (finish_event host start "succeeded" closure (some 0) none "02" "2026-01-02")
      (finish host start "succeeded" closure (some 0) none "02" "2026-01-02" broker).1
    × IsClosed host start closure
finish-IsClosed_example =
    finish-IsClosed host start "succeeded" closure (some 0) none "02" "2026-01-02" broker
      "mutation-audit:mao_01:finish:02" finished

refused : (record_spawn host start spawned "2026-01-02" doubtful).0 ≡ err durability
unfolding record_spawn sentinelx_cloud_core.Base.State.◌>>=◌
    sentinelx_cloud_core.Audit.Journal.assert_start_identity
    sentinelx_cloud_core.Audit.Journal.digest_of sentinelx_cloud_core.Audit.binding_dict
    sentinelx_cloud_core.Audit.Journal.read_verified sentinelx_cloud_core.Placement.is_relative_to
    sentinelx_cloud_core.Audit.Journal.read_bytes sentinelx_cloud_core.Base.Text.strip
    durable_append
refused = refl

unfinished :
    (finish host start "succeeded" closure (some 0) none "02" "2026-01-02" doubtful).0
    ≡ err durability
unfolding finish sentinelx_cloud_core.Base.State.◌>>=◌
    sentinelx_cloud_core.Audit.Journal.assert_start_identity
    sentinelx_cloud_core.Audit.Journal.digest_of sentinelx_cloud_core.Audit.binding_dict
    sentinelx_cloud_core.Audit.Journal.read_verified sentinelx_cloud_core.Placement.is_relative_to
    sentinelx_cloud_core.Audit.Journal.read_bytes sentinelx_cloud_core.Audit.Journal.is_open
    durable_append
unfinished = refl

append_only_example :
    MayAdd host doubtful
      (spawn_event host start spawned "2026-01-02")
      (record_spawn host start spawned "2026-01-02" doubtful).1
    × MayAdd host doubtful
        (finish_event host start "succeeded" closure (some 0) none "02" "2026-01-02")
        (finish host start "succeeded" closure (some 0) none "02" "2026-01-02" doubtful).1
unfolding record_spawn spawn_event pure durable_append sentinelx_cloud_core.Base.State.◌>>=◌
    sentinelx_cloud_core.Base.Text.strip sentinelx_cloud_core.Audit.Journal.assert_start_identity
    sentinelx_cloud_core.Audit.Journal.digest_of sentinelx_cloud_core.Audit.binding_dict
    sentinelx_cloud_core.Audit.Journal.read_verified sentinelx_cloud_core.Placement.is_relative_to
    sentinelx_cloud_core.Audit.Journal.read_bytes finish finish_event
append_only_example =
    append_only host start spawned "succeeded" closure (some 0) none "02" "2026-01-02" doubtful

-- A cut line is no event, and the reading fails.
torn : read_events host none (begun_with "{") ≡ err durability
unfolding read_events sentinelx_cloud_core.Base.Split.splitlines
    sentinelx_cloud_core.Base.Text.strip
torn = refl

read_back : read_events host (some "mao_01") (begun_with "\n{}\n") ≡ ok []
unfolding read_events sentinelx_cloud_core.Base.Split.splitlines
    sentinelx_cloud_core.Base.Text.strip sentinelx_cloud_core.Json.json_beq
read_back = refl

abbrev script : Bytes
script = 7 ∷ 8 ∷ 9 ∷ []

abbrev iso : ℕ → String
iso now = "2026-01-01"

abbrev retained : ForensicScriptEvidence
retained = record {
  artifact_ref = "mutation-evidence:9f86-t1.script";
  sha256 = "9f86";
  size_bytes = 3;
  created_at = "2026-01-01";
  retained_until = "2026-01-01";
  artifact_path = "state" ∷ "evidence" ∷ "9f86-t1.script" ∷ [];
}

kept : (retain host iso 30 script "t1" 100 (done script) broker).0 ≡ ok retained
unfolding retain sentinelx_cloud_core.Base.State.◌>>=◌ sentinelx_cloud_core.Audit.Evidence.put_file
    sentinelx_cloud_core.Audit.Journal.read_bytes sentinelx_cloud_core.Audit.Evidence.place
    sentinelx_cloud_core.Audit.Evidence.artifact_path
    sentinelx_cloud_core.Audit.Evidence.artifact_name sentinelx_cloud_core.Base.Text.take_chars
kept = refl

-- A write that loses a byte is noticed.
lost : (retain host iso 30 script "t1" 100 (done (7 ∷ 8 ∷ [])) broker).0 ≡ err evidence_error
unfolding retain sentinelx_cloud_core.Base.State.◌>>=◌ sentinelx_cloud_core.Audit.Evidence.put_file
    sentinelx_cloud_core.Audit.Journal.read_bytes sentinelx_cloud_core.Audit.Evidence.place
    sentinelx_cloud_core.Audit.Evidence.artifact_path
    sentinelx_cloud_core.Audit.Evidence.artifact_name sentinelx_cloud_core.Base.Text.take_chars
lost = refl

retain-read_verified_example :
    (let v = (retain host iso 30 script "t1" 100 (done script) broker).1 in
      read_verified host retained v ≡ (ok script, v))
retain-read_verified_example =
    retain-read_verified host iso 30 script "t1" 100 (done script) broker retained kept

abbrev target : FilePath
target = "work" ∷ "fix.py" ∷ []

copied : (materialize_verified host true done evidence target broker).0 ≡ ok "9f86"
unfolding materialize_verified sentinelx_cloud_core.Base.State.◌>>=◌ read_verified
    sentinelx_cloud_core.Placement.is_relative_to sentinelx_cloud_core.Audit.Journal.read_bytes
    sentinelx_cloud_core.Audit.Evidence.create_file sentinelx_cloud_core.Audit.Evidence.put_file
    sentinelx_cloud_core.Audit.Evidence.place
copied = refl

materialize_verified-IsMaterialized_example :
    IsMaterialized host evidence target broker
      (materialize_verified host true done evidence target broker).1
materialize_verified-IsMaterialized_example =
    materialize_verified-IsMaterialized host true done evidence target broker "9f86" copied
