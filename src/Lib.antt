-- ===== src/Lib.antt =====
-- sentinelx-cloud-core: the agent that runs commands and material edits on a host for remote
-- callers. This library models the parts of the agent that decide whether something may run or
-- be written, and the durable store of the authority that it grants.
--
-- Scope (src/sentinelx_core/mutation_scope.py): the store of mutation scopes. Scope/Record holds
-- MutationScopeRecord with its sealed fields, Scope/Authority the file authority.json, its loader
-- (_load_state) and the checks of its indexes, Scope/Transaction the programs over the file and the
-- dictionary in hand, Scope/Runtime the operations on runtime authority, Scope/Admission
-- provision_scope, its child Revalidate the revalidation, and Scope/Terminalize terminalize_scope.
-- Scope/Calls puts all public operations of MutationScopeStore into one type of calls. The
-- operations keep the source's names, without a leading underscore. The other modules of Scope hold
-- proofs: Stored, Lifecycle, Safe, Update, RuntimeSafe, Exclusive, Durable, AdmissionSafe,
-- ProvisionSafe and TerminalizeSafe lead up to History; Returns leads up to Outcome, Reserved,
-- Granted, Minted and CleanupOrder. Tests, here as elsewhere, runs the definitions on concrete
-- inputs.
-- Placement (src/sentinelx_core/mutation_placement.py): identities, placement generation, the
-- derived workspace and the lease key, which the store calls.
-- Policy (src/sentinelx_core/policy.py): the fields that placement and the firewall read.
-- Firewall (src/sentinelx_core/canonical_repository_firewall.py): classification of write targets.
-- Exec (src/sentinelx_core/segment_check.py, src/sentinelx_core/handlers/exec.py and
-- is_command_allowed of src/sentinelx_core/policy.py): the admission of shell commands.
-- Codex (src/sentinelx_core/direct_codex_persistence.py and, of
-- src/sentinelx_core/direct_codex_transport.py, paths, the remote head, scalars, attributes and the
-- revalidation of the canonicalization snapshot): the commit and the one push of an implementation.
-- Codex/Site holds what the code calls: Git, the state directory, json.dumps, sha256, the decoding
-- of bytes, and a type R of what these change. Codex/Program holds the programs, whose world is
-- that R with the journal file and the commands sent, each with the journal file of the moment.
-- Codex/Command is the Git calls, Journal the recovery journal, Canonical the snapshot, Inventory
-- the changed paths, Candidate the tree and commit, Recover the recovery from an earlier run,
-- Persist persist_implementation. The other modules of Codex hold proofs: Ends, Silent, Quietly,
-- Advance, Publishes, Phases, Once and Turns on the states of the journal and the pushes over
-- repeated runs, Persisted, Reports, Own, Staging, Eligible and HeadMoved on a single run.
-- Pending (src/sentinelx_core/pending_results.py): the results kept for a client that is away. The
-- directory is a dictionary from file names, of which some cannot be removed; times are whole
-- seconds.
-- Policy/Paths: resolve_path, the path allowlist, and is_service_action_allowed.
-- Audit (src/sentinelx_core/mutation_audit.py): the write-ahead journal of a mutation. Audit holds
-- the records and their dictionaries, Audit/Journal the operations of MutationAuditJournal with the
-- verification of the retained evidence, Audit/Reading read_events, Audit/Evidence the retention of
-- evidence, with the outcome of the write of a file as an argument; Appended, Committed and
-- Retained hold proofs. The journal is a text, and an append may be cut off after any number of
-- characters.
-- Json is the JSON values that the journals write. Host stands for the interpreter and the operating
-- system, as a record that the definitions take: digests, path resolution, Unicode tables and URL
-- parsing. Errors names the exceptions, without their messages. Base holds the shared helpers: tests,
-- equality, lists, dictionaries, the methods of str, texts cut at a separator (Split) and programs
-- over a state that may raise (State).
--
-- The store, placement and the firewall decide who may write where; the audit journal records each
-- process that does, before it runs; persistence carries the result of a Direct Codex run to the
-- remote; exec decides which commands of a caller run at all, with the path and service tests of the
-- policy beside it; and pending results keep what such a command returned.
--
-- A call of the store holds the file lock throughout, so a call is one step; a terminalization
-- takes the lock twice, and its cleanup may change the file in between. What a call is owed: the
-- identifier that provision_scope mints (secrets.token_urlsafe) is not taken, a Session-0 binding
-- has passed its constructor, and a cleanup leaves the file an advance of what it was, as the
-- store's operations do (IsSafe of Scope/Safe). An instant is a number of microseconds; a path is
-- the list of its parts; a finite timeout is whole seconds. All functions recurse on lists, texts or the
-- number of rounds of a range; the one fuel is that of decimal, the number plus one, which is enough
-- since each round divides by ten.
-- A file that from_dict accepts stands as the record that it returns.
--
-- A file of authority.json is the value that json.loads gives for it, so the round trip of json.dumps
-- and json.loads is taken as documented; the audit journal keeps its text, with both as parameters. A
-- turn of Codex/Turns works on the journal file of its own state directory.
--
-- Not modelled: file locks and fsync, crashes within the replacement of a whole file, the start of
-- processes, the operating system calls of the sandbox, the handlers for files, Git and services,
-- the payloads of background jobs, the bootstrap of the execution checkout and the capture of its
-- snapshot, the pruning of audit evidence, the client and its protocol, and the parsing of the
-- configuration and of journals.
pub mod Base
pub mod Errors
pub mod Host
pub mod Policy
pub mod Placement
pub mod Scope
pub mod Firewall
pub mod Exec
pub mod Codex
pub mod Pending
pub mod Json
pub mod Audit
