-- ===== src/Codex/Publishes.antt =====
-- One run sends at most one push, and only after the journal on disk says so.
use sentinelx_cloud_core.Base.{
  String, false, not, ◌==◌, string_eq, nat_eq, ◌≡◌, refl, sym, ◌∙◌, some, List, ◌∷◌,
}
use mathlib.Core.Path.{subst}
use sentinelx_cloud_core.Codex.Site.{Site, CanonicalizationSnapshot}
use sentinelx_cloud_core.Codex.Command.{push, ProviderState}
use sentinelx_cloud_core.Codex.Journal.{PersistenceJournal, JournalFile, saved, publish_intent}
use sentinelx_cloud_core.Codex.Program.{World, transport_git}
use sentinelx_cloud_core.Codex.Recover.{Request, PersistenceOutcome, confirm_published, git}
use sentinelx_cloud_core.Codex.Inventory.{WorktreeDelta}
use sentinelx_cloud_core.Codex.Persist.{publish, send_push, read_back_push}
use sentinelx_cloud_core.Codex.Ends.{Ends, Ends-bind, Ends-pure, Ends-if, Ends-throw_if, Ends-write}
use sentinelx_cloud_core.Codex.Silent.{Push, pushes, Quiet, Ends-Silent}
use sentinelx_cloud_core.Codex.Quietly.{remote_head-Silent}
use sentinelx_cloud_core.Codex.Advance.{
  Succeeds, same, work, confirm, Succeeds-trans, Bound, moves-Bound, is_pushed, file_pushed,
}

-- The journal that stands on disk when its candidate `c` is pushed to the branch `b`.
pub record IsIntent (k : PersistenceJournal) (c b : String) : Type 0 where
  pub state : k.state ≡ publish_intent
  pub candidate : k.candidate_commit_sha ≡ some c
  pub branch : k.transport.canonical_branch ≡ some b

-- What runs may do to a journal file `o` and to the pushes sent before, `P`: either no push, or
-- one, from a file that had none.
pub data Publishes {R : Type 0} (o : JournalFile) (P : List Push) (v : World R) : Type 0 where
  quiet : pushes v.sent ≡ P → Succeeds o v.journal → Publishes o P v
  pushed :
      {k : PersistenceJournal} {c b : String}
      → file_pushed o ≡ false
      → pushes v.sent ≡ (c, b, saved k) ∷ P
      → IsIntent k c b
      → Succeeds o (saved k)
      → Succeeds (saved k) v.journal
      → Publishes o P v

module _ {R : Type 0} (S : Site R) (q : Request) (o : JournalFile) (P : List Push) where
  abbrev Ended : World R → Type 0
  Ended v = Publishes o P v

  abbrev Returned : PersistenceOutcome → World R → Type 0
  Returned outcome v = Publishes o P v

  -- A run in progress: `j` is on disk, and no push was sent.
  pub record Working (j : PersistenceJournal) (v : World R) : Type 0 where
    pub file : v.journal ≡ saved j
    pub sent : pushes v.sent ≡ P
    pub since : Succeeds o (saved j)

  pub Working-Publishes : (j : PersistenceJournal) (v : World R) → Working j v → Publishes o P v
  Working-Publishes j v p = quiet p.sent (subst (λ f. Succeeds o f) (sym p.file) p.since)

  pub Working-Quiet :
      (j : PersistenceJournal) (u v : World R) → Working j u → Quiet u v → Working j v
  Working-Quiet j u v p s = record {
    file = s.journal ∙ p.file;
    sent = s.pushes_same ∙ p.sent;
    since = p.since;
  }

  pub Working-write :
      (j k : PersistenceJournal) (v : World R)
      → Working j v
      → is_pushed j.state ≡ false
      → Bound j k
      → Working k (record v { journal = saved k })
  Working-write j k v p e b = record {
    file = refl;
    sent = p.sent;
    since = Succeeds-trans p.since (work e b);
  }

  module _ (state : ProviderState) (snapshot : CanonicalizationSnapshot) where
    confirm_published-Ends :
        (k : PersistenceJournal) (outcome : PersistenceOutcome) (c b : String) (v : World R)
        → file_pushed o ≡ false
        → pushes v.sent ≡ (c, b, saved k) ∷ P
        → IsIntent k c b
        → Succeeds o (saved k)
        → v.journal ≡ saved k
        → Ends Returned Ended v (confirm_published S q state snapshot k outcome)
    confirm_published-Ends k outcome c b v fresh sent intent since file =
        Ends-write Returned Ended S v _ _
          (pushed fresh sent intent since (subst (λ f. Succeeds (saved k) f) (sym file) same))
          (Ends-pure Returned Ended _ outcome
            (pushed fresh sent intent since (confirm intent.state)))

    read_back_push-Ends :
        (k : PersistenceJournal) (d : WorktreeDelta) (actual c : String) (v : World R)
        → file_pushed o ≡ false
        → pushes v.sent ≡ (c, q.branch, saved k) ∷ P
        → IsIntent k c q.branch
        → Succeeds o (saved k)
        → v.journal ≡ saved k
        → Ends Returned Ended v (read_back_push S q state snapshot k d actual c)
    unfolding read_back_push
    read_back_push-Ends k d actual c v fresh sent intent since file =
        let still = λ (u : World R) (s : Quiet v u).
          pushed fresh (s.pushes_same ∙ sent) intent since
            (subst (λ f. Succeeds (saved k) f) (sym (s.journal ∙ file)) same) in
        Ends-Silent Returned Ended v _ _ (remote_head-Silent S q state snapshot) still λ remote u s.
          Ends-if Returned Ended u (not (remote == c)) _ _
            (λ e. Ends-pure Returned Ended u _ (still u s))
            (λ e.
              confirm_published-Ends k _ c q.branch u fresh (s.pushes_same ∙ sent) intent since
                (s.journal ∙ file))

    -- The push of `c` is on its way, and `k` stands on disk.
    record Sent (k : PersistenceJournal) (c : String) (v : World R) : Type 0 where
      sent : pushes v.sent ≡ (c, q.branch, saved k) ∷ P
      file : v.journal ≡ saved k

    push-Sent :
        (k : PersistenceJournal) (c : String) (v : World R)
        → Working k v
        → Sent k c (git S q state snapshot (push c q.branch) v).1
    unfolding transport_git pushes
    push-Sent k c v t = record { sent = rw (t.file, t.sent) refl; file = t.file }

    send_push-Ends :
        (k : PersistenceJournal) (d : WorktreeDelta) (actual c now : String) (v : World R)
        → file_pushed o ≡ false
        → IsIntent k c q.branch
        → Working k v
        → Ends Returned Ended v (send_push S q state snapshot k d actual c now)
    unfolding send_push
    send_push-Ends k d actual c now v fresh intent t =
        let gone = push-Sent k c v t in
        let after = λ (u : World R) (s : Sent k c u).
          pushed fresh s.sent intent t.since
            (subst (λ f. Succeeds (saved k) f) (sym s.file) same) in
        Ends-bind Returned Ended (λ _ u. Sent k c u) v _ _
          (record { returns = λ a e. gone; raises = λ e r. after _ gone })
          λ a u s.
            Ends-if Returned Ended u (not (a.code == 0)) _ _
              (λ e. Ends-pure Returned Ended u _ (after u s))
              (λ e. read_back_push-Ends k d actual c u fresh s.sent intent t.since s.file)

    pub publish-Ends :
        (j : PersistenceJournal) (d : WorktreeDelta) (actual c : String) (w : World R)
        → file_pushed o ≡ false
        → is_pushed j.state ≡ false
        → j.candidate_commit_sha ≡ some c
        → j.transport.canonical_branch ≡ some q.branch
        → Working j w
        → Ends Returned Ended w (publish S q state snapshot j d actual c)
    unfolding publish
    publish-Ends j d actual c w fresh e commit branch p =
        let k : PersistenceJournal = record j { state = publish_intent } in
        let intent : IsIntent k c q.branch = record {
          state = refl;
          candidate = commit;
          branch = branch;
        } in
        Ends-Silent Returned Ended w _ _ (remote_head-Silent S q state snapshot)
          (λ u s. Working-Publishes j u (Working-Quiet j w u p s))
          λ now u s.
            let r = Working-Quiet j w u p s in
            let t = Working-write j k u r e (moves-Bound j publish_intent) in
            Ends-throw_if Returned Ended u _ _ _ (Working-Publishes j u r) λ passed.
              Ends-write Returned Ended S u k _ (Working-Publishes j u r)
                (send_push-Ends k d actual c now (record u { journal = saved k }) fresh intent t)
