-- ===== src/Codex/Phases.antt =====
-- The phases of a run between its inventory and its push.
use sentinelx_cloud_core.Base.{
  String, false, string_eq, nat_eq, option_eq, ◌≡◌, refl, ap, ◌∙◌, Option, none, some, List,
}
use sentinelx_cloud_core.Codex.Site.{Site, CanonicalizationSnapshot}
use sentinelx_cloud_core.Codex.Command.{ProviderState}
use sentinelx_cloud_core.Codex.Journal.{PersistenceJournal, JournalFile, saved, prepared}
use sentinelx_cloud_core.Codex.Program.{World, M, ◌>>=◌}
use sentinelx_cloud_core.Codex.Recover.{Request, is_state}
use sentinelx_cloud_core.Codex.Inventory.{WorktreeDelta}
use sentinelx_cloud_core.Codex.Persist.{
  fresh_tree, kept_tree, commit_from, ready_tree, ready_commit, move_local_ref, persist_changes,
}
use sentinelx_cloud_core.Codex.Ends.{
  Ends, Ends-bind, Ends-pure, Ends-if, Ends-throw_if, Ends-write, Ends-write_last,
}
use sentinelx_cloud_core.Codex.Silent.{Push, Quiet, Silent, Ends-Silent}
use sentinelx_cloud_core.Codex.Quietly.{
  verify_candidate_tree-Silent, build_tree-Silent, create_commit-Silent,
  verify_candidate_object-Silent, update_ref-Silent,
}
use sentinelx_cloud_core.Codex.Advance.{Bound, is_pushed, file_pushed}
use sentinelx_cloud_core.Codex.Publishes.{
  Publishes, Working, Working-Publishes, Working-Quiet, Working-write, publish-Ends,
}

module _ {R : Type 0} (S : Site R) (q : Request) (o : JournalFile) (P : List Push) where
  abbrev pub Ended : World R → Type 0
  Ended v = Publishes o P v

  abbrev pub Returned : {A : Type 0} → A → World R → Type 0
  Returned a v = Publishes o P v

  -- `j` is on disk, for this branch, and says that nothing was pushed.
  pub record Fit (j : PersistenceJournal) (v : World R) : Type 0 where
    pub working : Working S q o P j v
    pub unpushed : is_pushed j.state ≡ false
    pub branch : j.transport.canonical_branch ≡ some q.branch

  pub Fit-Publishes : (j : PersistenceJournal) (v : World R) → Fit j v → Publishes o P v
  Fit-Publishes j v p = Working-Publishes S q o P j v p.working

  Fit-Quiet : (j : PersistenceJournal) (u v : World R) → Fit j u → Quiet u v → Fit j v
  Fit-Quiet j u v p s = record {
    working = Working-Quiet S q o P j u v p.working s;
    unpushed = p.unpushed;
    branch = p.branch;
  }

  pub Fit-write :
      (j k : PersistenceJournal) (v : World R)
      → Fit j v
      → is_pushed k.state ≡ false
      → Bound j k
      → Fit k (record v { journal = saved k })
  Fit-write j k v p e b = record {
    working = Working-write S q o P j k v p.working p.unpushed b;
    unpushed = e;
    branch = ap (λ t. t.canonical_branch) b.transport ∙ p.branch;
  }

  -- A silent program, with the journal on disk.
  Ends-quiet :
      {A B : Type 0} (Q : A → World R → Type 0) (j : PersistenceJournal) (w : World R) (m : M R B)
      (f : B → M R A)
      → Silent m
      → Fit j w
      → ((b : B) (v : World R) → Fit j v → Ends Q Ended v (f b))
      → Ends Q Ended w (m >>= f)
  Ends-quiet Q j w m f h p k =
      Ends-Silent Q Ended w m f h (λ v s. Fit-Publishes j v (Fit-Quiet j w v p s))
        (λ b v s. k b v (Fit-Quiet j w v p s))

  module _ (state : ProviderState) (snapshot : CanonicalizationSnapshot) where
    abbrev With : String × PersistenceJournal → World R → Type 0
    With x v = Fit x.1 v

    fresh_tree-Ends :
        (j : PersistenceJournal) (d : WorktreeDelta) (w : World R)
        → Fit j w
        → Ends With Ended w (fresh_tree S q state snapshot j d)
    unfolding is_pushed
    fresh_tree-Ends j d w p =
        Ends-quiet _ j w _ _ (build_tree-Silent S state snapshot q.expected_remote_sha d) p
          λ tree v r.
            Ends-write With Ended S v _ _ (Fit-Publishes j v r)
              (Ends-pure With Ended _ _ (Fit-write j _ v r refl (search)))

    kept_tree-Ends :
        (j : PersistenceJournal) (d : WorktreeDelta) (tree : Option String) (w : World R)
        → Fit j w
        → Ends With Ended w (kept_tree S q state snapshot j d tree)
    kept_tree-Ends j d none w p = fresh_tree-Ends j d w p
    kept_tree-Ends j d (some tree) w p =
        Ends-quiet _ j w _ _
          (verify_candidate_tree-Silent S state snapshot q.expected_remote_sha tree d) p
          λ _ v r. Ends-pure With Ended v _ r

    ready_tree-Ends :
        (j : PersistenceJournal) (d : WorktreeDelta) (w : World R)
        → Fit j w
        → Ends With Ended w (ready_tree S q state snapshot j d)
    unfolding ready_tree
    ready_tree-Ends j d w p =
        Ends-if With Ended w (is_state j.state prepared) _ _ (λ e. fresh_tree-Ends j d w p)
          (λ e. kept_tree-Ends j d j.candidate_tree_sha w p)

    -- The candidate that the journal names.
    record Ready (x : String × PersistenceJournal) (v : World R) : Type 0 where
      fit : Fit x.1 v
      candidate : x.1.candidate_commit_sha ≡ some x.0

    commit_from-Ends :
        (j : PersistenceJournal) (tree : String) (given : Option String) (w : World R)
        → j.candidate_commit_sha ≡ given
        → Fit j w
        → Ends Ready Ended w (commit_from S q state snapshot j tree given)
    unfolding is_pushed
    commit_from-Ends j tree none w g p =
        Ends-quiet _ j w _ _
          (create_commit-Silent S state snapshot tree q.expected_remote_sha j.commit_identity
            j.message)
          p
          λ c v r.
            Ends-quiet _ j v _ _
              (verify_candidate_object-Silent S state snapshot c tree q.expected_remote_sha) r
              λ _ u t. Ends-write Ready Ended S u _ _ (Fit-Publishes j u t) (
                Ends-pure Ready Ended _ _
                  (record { fit = Fit-write j _ u t refl (search); candidate = refl }))
    commit_from-Ends j tree (some c) w g p =
        Ends-quiet _ j w _ _
          (verify_candidate_object-Silent S state snapshot c tree q.expected_remote_sha) p
          λ _ v r. Ends-pure Ready Ended v _ (record { fit = r; candidate = g })

    move_local_ref-Ends :
        (y : String × PersistenceJournal) (w : World R)
        → Ready y w
        → Ends (λ k v. Ready (y.0, k) v) Ended w (move_local_ref S q state snapshot y.1 y.0)
    unfolding move_local_ref is_pushed
    move_local_ref-Ends y w p =
        Ends-quiet _ y.1 w _ _ (update_ref-Silent S q state snapshot y.0 q.expected_remote_sha)
          p.fit
          λ a v r. Ends-throw_if _ Ended v _ _ _ (Fit-Publishes y.1 v r) λ passed.
            Ends-write_last _ Ended S v _ (Fit-Publishes y.1 v r)
              (record { fit = Fit-write y.1 _ v r refl (search); candidate = p.candidate })

    pub persist_changes-Ends :
        (j : PersistenceJournal) (d : WorktreeDelta) (actual : String) (w : World R)
        → file_pushed o ≡ false
        → Fit j w
        → Ends Returned Ended w (persist_changes S q state snapshot j d actual)
    unfolding persist_changes ready_commit
    persist_changes-Ends j d actual w fresh p =
        Ends-bind Returned Ended With w _ _ (ready_tree-Ends j d w p) λ x v r.
          Ends-bind Returned Ended Ready v _ _
            (commit_from-Ends x.1 x.0 x.1.candidate_commit_sha v refl r)
            λ y u t.
              Ends-bind Returned Ended (λ k z. Ready (y.0, k) z) u _ _ (move_local_ref-Ends y u t)
                λ k z m.
                  publish-Ends S q o P state snapshot k d actual y.0 z fresh m.fit.unpushed
                    m.candidate m.fit.branch m.fit.working
