-- ===== src/Codex/Reports.antt =====
-- What a run reports: success only for a candidate that the remote holds and the journal names.
use sentinelx_cloud_core.Base.{String, string_eq, nat_eq, ◌≡◌, some}
use sentinelx_cloud_core.Codex.Site.{Site, CanonicalizationSnapshot}
use sentinelx_cloud_core.Codex.Command.{ProviderState}
use sentinelx_cloud_core.Codex.Journal.{PersistenceJournal}
use sentinelx_cloud_core.Codex.Program.{World}
use sentinelx_cloud_core.Codex.Recover.{remote_head, Request}
use sentinelx_cloud_core.Codex.Ends.{Ends}
use sentinelx_cloud_core.Codex.Silent.{pushes}
use sentinelx_cloud_core.Base.Result.{ok}

module _ {R : Type 0} (S : Site R) (q : Request) where
  abbrev Any : World R → Type 0
  Any v = Unit {0}

  module _ (state : ProviderState) (snapshot : CanonicalizationSnapshot) where
    abbrev Named : String × PersistenceJournal → World R → Type 0
    Named y v = y.1.candidate_commit_sha ≡ some y.0

    -- A reading of the remote that answered a commit, with no push sent since.
    record IsRead (c : String) (w : World R) : Type 0 where
      reading : World R
      answered : (remote_head S q state snapshot reading).0 ≡ ok c
      since : pushes w.sent ≡ pushes (remote_head S q state snapshot reading).1.sent
