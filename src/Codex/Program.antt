-- ===== src/Codex/Program.antt =====
-- Programs of the direct Codex modules: they send Git commands, read and replace the journal file
-- and may raise. The world keeps, beside the state of Git and the files, every command that was
-- sent, newest first, with the journal file of that moment.
use sentinelx_cloud_core.Base.{String, Bool, true, false, not, Option, none, some, List, ◌∷◌}
use sentinelx_cloud_core.Base.{if◌then◌else◌}
use sentinelx_cloud_core.Base.Result.{Result, ok, err}
use sentinelx_cloud_core.Codex.Site.{
  Site, Answer, Failure, refused, os_error, json_beq, CanonicalizationSnapshot,
}
use sentinelx_cloud_core.Codex.Command.{Command, ProviderState, argv, environ}
use sentinelx_cloud_core.Codex.Journal.{
  PersistenceJournal, JournalFile, missing, malformed, saved, to_dict,
}

pub record World (R : Type 0) : Type 0 where
  pub repo : R
  pub journal : JournalFile
  pub sent : List (Command × JournalFile)

abbrev pub M : Type 0 → Type 0 → Type 0
M R A = World R → Result Failure A × World R

abbrev pub continue : {R A B : Type 0} → Result Failure A → (A → M R B) → M R B
continue (ok a) f w = f a w
continue (err e) f w = (err e, w)

unfoldable pub pure : {R A : Type 0} → A → M R A
pure a w = (ok a, w)

unfoldable pub raise : {R A : Type 0} → Failure → M R A
raise e w = (err e, w)

unfoldable pub lift : {R A : Type 0} → Result Failure A → M R A
lift r w = (r, w)

-- `if test: raise e`
unfoldable pub throw_if : {R : Type 0} → Bool → Failure → M R (Unit {0})
throw_if true e w = (err e, w)
throw_if false e w = (ok tt, w)

abbrev pub answered : Option Answer → Result Failure Answer
answered none = err (refused "direct_codex_git_context_unavailable")
answered (some a) = ok a

abbrev pub removed : {R : Type 0} → Option R → M R (Unit {0})
removed none w = (err os_error, w)
removed (some r) w = (ok tt, record w { repo = r })

abbrev pub read_file : JournalFile → Result Failure (Option PersistenceJournal)
read_file missing = ok none
read_file malformed = err (refused "direct_codex_recovery_journal_invalid")
read_file (saved j) = ok (some j)

abbrev readback_differs : PersistenceJournal → Option PersistenceJournal → Bool
readback_differs j none = true
readback_differs j (some k) = not (json_beq (to_dict k) (to_dict j))

abbrev pub or_given : PersistenceJournal → Option PersistenceJournal → PersistenceJournal
or_given j none = j
or_given j (some k) = k

-- `_read_journal`, of `state.journal`: a run has one state, and the world of a run its journal file.
unfoldable pub read_journal : {R : Type 0} → M R (Option PersistenceJournal)
read_journal w = (read_file w.journal, w)

module _ {R : Type 0} (S : Site R) where
  module _ (state : ProviderState) (snapshot : Option CanonicalizationSnapshot) where
    -- `transport_git`
    unfoldable pub transport_git : Command → M R Answer
    transport_git c w =
        let (reply, repo) = S.git (argv state snapshot c) (environ state snapshot c) w.repo in
        (answered reply, record w { repo = repo; sent = (c, w.journal) ∷ w.sent })

  -- `if path.exists(): path.unlink()`
  unfoldable pub unlink : String → M R (Unit {0})
  unlink path w = removed (S.unlink path w.repo) w

  unfoldable pub gets : {A : Type 0} → (R → A) → M R A
  gets f w = (ok (f w.repo), w)

  -- The replacement of the whole journal file, which the state directory may refuse.
  unfoldable pub replace : PersistenceJournal → M R (Unit {0})
  replace j w =
      if S.writable w.repo then (ok tt, record w { journal = saved j }) else (err os_error, w)

infixl 5 ◌>>=◌ ◌>>◌
unfoldable pub ◌>>=◌ : {R A B : Type 0} → M R A → (A → M R B) → M R B
unfolding pure raise lift throw_if read_journal transport_git unlink gets replace
◌>>=◌ m f w = let (r, w') = m w in continue r f w'

abbrev pub ◌>>◌ : {R A B : Type 0} → M R A → M R B → M R B
m >> k = m >>= λ _. k

-- `_write_journal`
unfoldable pub write_journal : {R : Type 0} → Site R → PersistenceJournal → M R PersistenceJournal
write_journal S j = do
  replace S j
  readback ← read_journal
  throw_if (readback_differs j readback) (refused "direct_codex_recovery_journal_readback_mismatch")
  pure (or_given j readback)
