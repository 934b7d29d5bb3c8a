-- ===== src/Audit/Committed.antt =====
-- When a suspended process is resumed, and when an operation is closed.
use sentinelx_cloud_core.Base.{
  ℕ, String, true, false, string_eq, nat_eq, nat_beq_iff, ◌≡◌, refl, ap, ◌∙◌, Option, eq_iff, inl,
  inr, not-false,
}
use sentinelx_cloud_core.Base.Lists.{is_empty}
use sentinelx_cloud_core.Base.Result.{Result, Result-cases, ok, err}
use sentinelx_cloud_core.Base.State.{
  M, ◌>>=◌, pure, on_error, continue, on_error-returns, Ends, Ends-throw_if, Ends-still,
}
use sentinelx_cloud_core.Audit.{
  MutationAuditStart, MutationSpawnEvidence, MutationFinishClosureEvidence,
}
use sentinelx_cloud_core.Audit.Journal.{
  Event, AuditHost, Broker, Failure, record_spawn, spawn_event, commit_spawn_before_resume, is_open,
  finish, finish_event,
}
use sentinelx_cloud_core.Audit.Appended.{
  nothing, Adds-MayAdd, Adds, MayAdd, IsIntended, record_spawn-Ends, Ends-append, assert_still,
  neither,
}

continue_agree :
    {A B : Type 0} (r : Result Failure A) (f g : A → M Broker Failure B) (v : Broker)
    → ((a : A) → r ≡ ok a → f a v ≡ g a v)
    → continue r f v ≡ continue r g v
continue_agree (ok a) f g v k = k a refl
continue_agree (err e) f g v k = refl

bind_agree :
    {A B : Type 0} (m : M Broker Failure A) (f g : A → M Broker Failure B) (w : Broker)
    → ((a : A) → (m w).0 ≡ ok a → f a (m w).1 ≡ g a (m w).1)
    → (m >>= f) w ≡ (m >>= g) w
unfolding ◌>>=◌
bind_agree m f g w k = continue_agree (m w).0 f g (m w).1 k

resumed_agree :
    {A : Type 0} (m n : M Broker Failure (Unit {0})) (a : A) (v : Broker)
    → m v ≡ n v
    → (m >>= λ _. pure a) v ≡ (n >>= λ _. pure a) v
unfolding ◌>>=◌
resumed_agree m n a v k = ap (λ p. continue p.0 (λ _. pure a) p.1) k

module _ (h : AuditHost) where
  ended :
      {A G : Type 0} (e : Event) (w : Broker) (m : M Broker Failure A)
      → Ends (λ _ v. Adds h w e v × G) (MayAdd h w e) w m
      → MayAdd h w e (m w).1
  ended e w m k = elim (Result-cases (m w).0) [
    | inl (a, r) ↦ Adds-MayAdd h w (m w).1 e (k.returns a r).0
    | inr (x, r) ↦ k.raises x r
  ]

  -- The process is resumed only when its spawn is journaled: what commit_spawn_before_resume does
  -- depends on the resume callback only for states whose journal has the PROCESS_SPAWNED line, of a
  -- process that is the intended one. The termination callback is any program.
  pub commit_spawn_before_resume_order :
      (s : MutationAuditStart) (e : MutationSpawnEvidence) (now : String)
      (terminate resume resume' : M Broker Failure (Unit {0})) (w : Broker)
      → ((v : Broker)
          → Adds h w (spawn_event h s e now) v
          → IsIntended h s e
          → resume v ≡ resume' v)
      → commit_spawn_before_resume h s e now terminate resume w
        ≡ commit_spawn_before_resume h s e now terminate resume' w
  unfolding commit_spawn_before_resume
  commit_spawn_before_resume_order s e now terminate resume resume' w k =
      bind_agree (on_error (record_spawn h s e now) terminate) _ _ w λ spawn r.
        let (recorded, same) = on_error-returns (record_spawn h s e now) terminate w spawn r in
        let (adds, intended) = (record_spawn-Ends h s e now w).returns spawn recorded in
        resumed_agree resume resume' spawn _ (k _ (ap (λ v. v.journal) same ∙ adds) intended)

  -- Nothing of the operation is left that could still write.
  pub record IsClosed (s : MutationAuditStart) (c : MutationFinishClosureEvidence) : Type 0 where
    pub terminal : c.scope_state ≡ "terminal"
    pub scope : c.scope_digest ≡ s.authority.scope_digest
    pub inventory : c.protected_inventory_digest ≡ s.authority.protected_inventory_digest
    pub job_closed : c.job_handle_closed ≡ true
    pub no_processes : c.job_active_process_count ≡ 0
    pub no_jobs : is_empty c.active_job_ids ≡ true
    pub no_process_ids : is_empty c.active_process_ids ≡ true
    pub no_authority : c.sandbox_write_authority_present ≡ false
    pub quiescent : c.process_tree_quiescent ≡ true

  is_open-IsClosed :
      (s : MutationAuditStart) (c : MutationFinishClosureEvidence)
      → is_open h s c ≡ false
      → IsClosed s c
  unfolding is_open
  is_open-IsClosed s c q =
      let (a, r1) = neither _ _ q in
      let (b, r2) = neither _ _ r1 in
      let (d, r3) = neither _ _ r2 in
      let (e, r4) = neither _ _ r3 in
      let (f, r5) = neither _ _ r4 in
      let (g, r6) = neither _ _ r5 in
      let (i, r7) = neither _ _ r6 in
      let (j, r8) = neither _ _ r7 in
      let (l, r9) = neither _ _ r8 in
      record {
        terminal = (eq_iff _ _).0 (not-false _ a);
        scope = (eq_iff _ _).0 (not-false _ b);
        inventory = (eq_iff _ _).0 (not-false _ d);
        job_closed = not-false _ e;
        no_processes = (nat_beq_iff _ _).0 (not-false _ f);
        no_jobs = not-false _ g;
        no_process_ids = not-false _ i;
        no_authority = j;
        quiescent = not-false _ l;
      }

  finish-Ends :
      (s : MutationAuditStart) (status : String) (c : MutationFinishClosureEvidence)
      (returncode : Option ℕ) (error_code : Option String) (token now : String) (w : Broker)
      → Ends
          (λ _ v.
            Adds h w (finish_event h s status c returncode error_code token now) v × IsClosed s c)
          (MayAdd h w (finish_event h s status c returncode error_code token now))
          w
          (finish h s status c returncode error_code token now)
  unfolding finish
  finish-Ends s status c returncode error_code token now w =
      let still = nothing h w (finish_event h s status c returncode error_code token now) in
      Ends-still _ _ w _ _ (assert_still h s w) still λ _ _. Ends-throw_if _ _ w _ _ _ still λ _.
        Ends-throw_if _ _ w _ _ _ still λ closed.
          Ends-append h w (finish_event h s status c returncode error_code token now) _
            (is_open-IsClosed s c closed)

  -- When finish returns, the journal has the OPERATION_FINISHED line of the operation besides, and
  -- the closure is of a terminal scope with START's digests, with a closed job, no jobs or processes,
  -- no write authority and a quiescent process tree.
  pub finish-IsClosed :
      (s : MutationAuditStart) (status : String) (c : MutationFinishClosureEvidence)
      (returncode : Option ℕ) (error_code : Option String) (token now : String) (w : Broker)
      (ref : String)
      → (finish h s status c returncode error_code token now w).0 ≡ ok ref
      → Adds h w
          (finish_event h s status c returncode error_code token now)
          (finish h s status c returncode error_code token now w).1
        × IsClosed s c
  finish-IsClosed s status c returncode error_code token now w =
      (finish-Ends s status c returncode error_code token now w).returns

  -- However record_spawn and finish end, whichever check fails and wherever a write is cut off, the
  -- journal keeps all the text that it had, and what follows is a beginning of the line of that very
  -- operation: nothing, a part of it, or the whole line.
  pub append_only :
      (s : MutationAuditStart) (e : MutationSpawnEvidence) (status : String)
      (c : MutationFinishClosureEvidence) (returncode : Option ℕ) (error_code : Option String)
      (token now : String) (w : Broker)
      → MayAdd h w (spawn_event h s e now) (record_spawn h s e now w).1
        × MayAdd h w
            (finish_event h s status c returncode error_code token now)
            (finish h s status c returncode error_code token now w).1
  append_only s e status c returncode error_code token now w = (
    ended (spawn_event h s e now) w _ (record_spawn-Ends h s e now w),
    ended (finish_event h s status c returncode error_code token now) w _
        (finish-Ends s status c returncode error_code token now w),
  )
