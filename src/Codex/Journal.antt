-- ===== src/Codex/Journal.antt =====
-- src/sentinelx_core/direct_codex_persistence.py: the recovery journal and the evidence that a run
-- returns. A file that `from_dict` accepts stands as the journal that it returns.
use sentinelx_cloud_core.Base.{
  ℕ, String, Bool, ◌&&◌, ◌==◌, string_eq, nat_eq, option_eq, Option, none, some,
}
use sentinelx_cloud_core.Base.Split.{join}
use sentinelx_cloud_core.Base.{[], ◌∷◌}
use Prim.Native.String.{◌++◌ as ◌<>◌}
use sentinelx_cloud_core.Placement.{SemanticIdentity}
use sentinelx_cloud_core.Codex.Site.{Json, null, text, number, flag, object, end, field, Site}
use sentinelx_cloud_core.Codex.Command.{CommitIdentity}

abbrev pub persistence_version : ℕ
persistence_version = 1

abbrev serialization_version : ℕ
serialization_version = 1

pub data State : Type 0 where
  prepared : State
  tree_ready : State
  candidate_ready : State
  local_ref_ready : State
  publish_intent : State
  published : State
  -- any other text
  unknown : String → State

abbrev pub state_text : State → String
state_text prepared = "prepared"
state_text tree_ready = "tree_ready"
state_text candidate_ready = "candidate_ready"
state_text local_ref_ready = "local_ref_ready"
state_text publish_intent = "publish_intent"
state_text published = "published"
state_text (unknown t) = t

pub record AttemptIdentity : Type 0 where
  pub repository : String
  pub task_id : String
  pub run_id : String
  pub attempt_id : String
  pub slice_id : Option String

-- What `transport.get` returns for its keys.
pub record Transport : Type 0 where
  pub canonical_pr : Option ℕ
  pub canonical_branch : Option String
  pub expected_remote_sha : Option String

pub record CleanSemantics : Type 0 where
  pub pre_checkout_snapshot_digest : Option String
  pub expected_attribute_snapshot_digest : String
  pub checkout_materialized_under_snapshot : Bool
  pub info_attributes_empty : Bool
  pub versioned_gitattributes_unchanged : Bool

pub record PersistenceJournal : Type 0 where
  pub identity : AttemptIdentity
  pub transport : Transport
  pub clean_semantics : CleanSemantics
  pub commit_identity : CommitIdentity
  pub message : String
  pub state : State
  pub candidate_tree_sha : Option String
  pub eligible_paths_digest : Option String
  pub eligible_change_count : Option ℕ
  pub candidate_commit_sha : Option String
  pub version : ℕ

-- persistence-journal.json
pub data JournalFile : Type 0 where
  missing : JournalFile
  malformed : JournalFile
  saved : PersistenceJournal → JournalFile

abbrev opt_text : Option String → Json
opt_text none = null
opt_text (some t) = text t

abbrev opt_number : Option ℕ → Json
opt_number none = null
opt_number (some n) = number n

-- `CommitIdentity.to_dict`
unfoldable pub identity_to_dict : CommitIdentity → Json
identity_to_dict i = object (
    field "author_name" (text i.author_name) (
      field "author_email" (text i.author_email) (
        field "committer_name" (text i.committer_name) (
          field "committer_email" (text i.committer_email) (
            field "author_date_utc_seconds" (number i.author_date_utc_seconds) (
              field "committer_date_utc_seconds" (number i.committer_date_utc_seconds) (
                field "timezone" (text i.timezone) (
                  field "message_digest" (text i.message_digest)
                    (field "serialization_version" (number i.serialization_version) end)))))))))

abbrev attempt_json : AttemptIdentity → Json
attempt_json a = object (
    field "repository" (text a.repository) (
      field "task_id" (text a.task_id) (
        field "run_id" (text a.run_id)
          (field "attempt_id" (text a.attempt_id) (field "slice_id" (opt_text a.slice_id) end)))))

abbrev transport_json : Transport → Json
transport_json t = object (
    field "canonical_pr" (opt_number t.canonical_pr) (
      field "canonical_branch" (opt_text t.canonical_branch)
        (field "expected_remote_sha" (opt_text t.expected_remote_sha) end)))

abbrev clean_json : CleanSemantics → Json
clean_json c = object (
    field "pre_checkout_snapshot_digest" (opt_text c.pre_checkout_snapshot_digest) (
      field "expected_attribute_snapshot_digest" (text c.expected_attribute_snapshot_digest) (
        field "checkout_materialized_under_snapshot" (flag c.checkout_materialized_under_snapshot) (
          field "info_attributes_empty" (flag c.info_attributes_empty) (
            field "versioned_gitattributes_unchanged" (flag c.versioned_gitattributes_unchanged)
              end)))))

-- `PersistenceJournal.to_dict`
unfoldable pub to_dict : PersistenceJournal → Json
unfolding identity_to_dict
to_dict j = object (
    field "version" (number j.version) (
      field "state" (text (state_text j.state)) (
        field "identity" (attempt_json j.identity) (
          field "transport" (transport_json j.transport) (
            field "clean_semantics" (clean_json j.clean_semantics) (
              field "commit_identity" (identity_to_dict j.commit_identity) (
                field "message" (text j.message) (
                  field "candidate_tree_sha" (opt_text j.candidate_tree_sha) (
                    field "eligible_paths_digest" (opt_text j.eligible_paths_digest) (
                      field "eligible_change_count" (opt_number j.eligible_change_count) (
                        field "candidate_commit_sha" (opt_text j.candidate_commit_sha)
                          end)))))))))))

abbrev slice_of : Option String → String
slice_of none = ""
slice_of (some t) = t

-- `commit_message`
unfoldable pub commit_message : SemanticIdentity → String
commit_message s =
    join "\n" (
      "SentinelX direct/Codex provider-owned implementation persistence"
      ∷ ""
      ∷ ("task_id: " <> s.task_id)
      ∷ ("run_id: " <> s.run_id)
      ∷ ("attempt_id: " <> s.attempt_id)
      ∷ ("slice_id: " <> slice_of s.slice_id)
      ∷ ""
      ∷ "provider: direct"
      ∷ "adapter: codex"
      ∷ [])
    <> "\n"

abbrev pub same_attempt : AttemptIdentity → AttemptIdentity → Bool
same_attempt a b =
    a.repository == b.repository
    && (a.task_id == b.task_id
        && (a.run_id == b.run_id && (a.attempt_id == b.attempt_id && a.slice_id == b.slice_id)))

module _ {R : Type 0} (S : Site R) where
  -- `_new_identity`
  unfoldable pub new_identity : SemanticIdentity → ℕ → CommitIdentity
  new_identity s now = record {
    author_name = "SentinelX Direct Codex";
    author_email = "direct-codex@sentinelx.invalid";
    committer_name = "SentinelX Direct Codex";
    committer_email = "direct-codex@sentinelx.invalid";
    author_date_utc_seconds = now;
    committer_date_utc_seconds = now;
    timezone = "+0000";
    message_digest = S.sha256 (S.encode (commit_message s));
    serialization_version = serialization_version;
  }

  -- `_provenance_digest`
  unfoldable pub provenance_digest : CommitIdentity → String → String → String → String
  provenance_digest i candidate message base_head = S.sha256 (
      S.encode (
        S.dumps (
          object (
            field "candidate" (text candidate) (
              field "base_head" (text base_head) (
                field "commit_identity" (identity_to_dict i)
                  (field "message" (text message) end)))))))
