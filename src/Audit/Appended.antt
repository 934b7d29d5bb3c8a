-- ===== src/Audit/Appended.antt =====
-- What the operations of the journal append, and after which checks.
use sentinelx_cloud_core.Base.{
  ℕ, suc, sym, not-false, String, Bool, true, false, not, ◌||◌, ◌==◌, string_eq, nat_eq, ◌≡◌, refl,
  ap, ◌∙◌, arith, eq_iff, inl, inr,
}
use sentinelx_cloud_core.Base.Result.{ok, Result-cases}
use sentinelx_cloud_core.Base.State.{
  M, ◌>>=◌, pure, throw_if, Ends, Ends-pure, Ends-throw_if, Ends-bind, Ends-still,
}
use Prim.Native.String.{◌++◌ as ◌<>◌}
use text.Mathlib.TextLemmas.{append-nil}
use sentinelx_cloud_core.Base.Text.{take_chars}
use sentinelx_cloud_core.Host.{FilePath}
use sentinelx_cloud_core.Audit.{
  MutationAuditStart, MutationAuditSpawn, MutationSpawnEvidence, ForensicScriptEvidence,
}
use sentinelx_cloud_core.Audit.Journal.{
  AuditHost, Broker, Disk, appends, fails_after, Event, line_of, identity_mismatch, appended,
  durable_append, read_bytes, read_verified, assert_start_identity, spawn_event, record_spawn,
}

Ends-both :
    {W E A : Type 0} (P : W → Type 0) (w : W) (m : M W E A) → Ends (λ _ v. P v) P w m → P (m w).1
Ends-both P w m k = elim (Result-cases (m w).0) [
  | inl (a, e) ↦ k.returns a e
  | inr (x, e) ↦ k.raises x e
]

pub neither : (a b : Bool) → (a || b) ≡ false → (a ≡ false) × (b ≡ false)
neither a b e = ground arith

-- The process that was spawned is the one that START intends, and it is contained.
pub record IsIntended (h : AuditHost) (s : MutationAuditStart) (e : MutationSpawnEvidence)
    : Type 0 where
  pub contained : e.containment.contained ≡ true
  pub no_breakaway : e.containment.breakaway_allowed ≡ false
  pub executable :
      h.casefold e.executable_final_path ≡ h.casefold s.process_intent.executable_final_path
  pub directory : h.casefold e.cwd_final_path ≡ h.casefold s.process_intent.cwd_final_path
  pub user : e.os_identity.process_user_sid ≡ s.requested_identity.host_user_sid
  pub sandbox : e.os_identity.appcontainer_sid ≡ s.requested_identity.sandbox_identity
  pub appcontainer : e.os_identity.is_appcontainer ≡ true

-- The journal holds the line of the event besides.
abbrev pub Adds : AuditHost → Broker → Event → Broker → Type 0
Adds h w e v = v.journal ≡ w.journal <> line_of h e

pub read_bytes_still : (path : FilePath) (w : Broker) → (read_bytes path w).1 ≡ w
unfolding read_bytes
read_bytes_still path w = refl

throw_if_still : {W E : Type 0} (b : Bool) (e : E) (w : W) → (throw_if b e w).1 ≡ w
unfolding throw_if
throw_if_still true e w = refl
throw_if_still false e w = refl

Ends-same :
    {W E A : Type 0} (w : W) (m : M W E A) → (m w).1 ≡ w → Ends (λ _ v. v ≡ w) (λ v. v ≡ w) w m
Ends-same w m same = record { returns = λ a e. same; raises = λ x e. same }

-- What was in the journal is there, with a beginning of the line, which may be empty or all of it.
abbrev pub MayAdd : AuditHost → Broker → Event → Broker → Type 0
MayAdd h w e v = (n : ℕ) × (v.journal ≡ w.journal <> take_chars n (line_of h e))

take_chars-all : (s : String) → (n : ℕ) × (take_chars n s ≡ s)
unfolding take_chars
take_chars-all String.[] = (0, refl)
take_chars-all (String.◌∷◌ c s) =
    let (n, e) = take_chars-all s in (suc n, ap (λ t. String.◌∷◌ c t) e)

appended-Ends :
    (h : AuditHost) (d : Disk) (e : Event) (w : Broker)
    → Ends (λ _ v. Adds h w e v) (MayAdd h w e) w (appended d (line_of h e))
appended-Ends h appends e w = record { returns = λ a r. refl; raises = λ x r. cc }
appended-Ends h (fails_after n) e w = record { returns = λ a r. cc; raises = λ x r. (n, refl) }

module _ (h : AuditHost) where
  pub Adds-MayAdd : (w v : Broker) (e : Event) → Adds h w e v → MayAdd h w e v
  Adds-MayAdd w v e k =
      let (n, all) = take_chars-all (line_of h e) in (n, k ∙ ap (λ t. w.journal <> t) (sym all))

  pub nothing : (w : Broker) (e : Event) → MayAdd h w e w
  unfolding take_chars
  nothing w e = (0, sym (append-nil w.journal))

  durable_append-Ends :
      (e : Event) (w : Broker) → Ends (λ _ v. Adds h w e v) (MayAdd h w e) w (durable_append h e)
  unfolding durable_append
  durable_append-Ends e w =
      let k = appended-Ends h w.disk e w in record { returns = k.returns; raises = k.raises }

  -- The append that ends an operation, after its checks.
  pub Ends-append :
      {A G : Type 0} (w : Broker) (e : Event) (a : A)
      → G
      → Ends (λ _ v. Adds h w e v × G) (MayAdd h w e) w (durable_append h e >>= λ _. pure a)
  Ends-append w e a g =
      let k = durable_append-Ends e w in
      Ends-bind _ _ w (durable_append h e) _ (λ b r. Ends-pure _ _ _ a (k.returns b r, g)) k.raises

  pub read_verified_still : (e : ForensicScriptEvidence) (w : Broker) → (read_verified h e w).1 ≡ w
  unfolding read_verified
  read_verified_still e w =
      Ends-both (λ v. v ≡ w) w (read_verified h e)
        (Ends-throw_if _ _ w _ _ _ refl λ _.
          Ends-still _ _ w _ _ (read_bytes_still e.artifact_path w) refl
            λ bytes _. Ends-throw_if _ _ w _ _ _ refl λ _. Ends-pure _ _ w bytes refl)

  pub assert_still : (s : MutationAuditStart) (w : Broker) → (assert_start_identity h s w).1 ≡ w
  unfolding assert_start_identity
  assert_still s w =
      Ends-both (λ v. v ≡ w) w (assert_start_identity h s)
        (Ends-throw_if _ _ w _ _ _ refl λ _.
          Ends-still _ _ w _ _ (read_verified_still s.evidence w) refl λ bytes _.
            Ends-throw_if _ _ w _ _ _ refl
              λ _. Ends-same w _ (throw_if_still _ identity_mismatch w))

  pub record_spawn-Ends :
      (s : MutationAuditStart) (e : MutationSpawnEvidence) (now : String) (w : Broker)
      → Ends
          (λ _ v. Adds h w (spawn_event h s e now) v × IsIntended h s e)
          (MayAdd h w (spawn_event h s e now))
          w
          (record_spawn h s e now)
  unfolding record_spawn
  record_spawn-Ends s e now w =
      let still = nothing w (spawn_event h s e now) in
      Ends-still _ _ w _ _ (assert_still s w) still λ _ _. Ends-throw_if _ _ w _ _ _ still λ _.
        Ends-throw_if _ _ w _ _ _ still λ _. Ends-throw_if _ _ w _ _ _ still λ c.
          Ends-throw_if _ _ w _ _ _ still λ p. Ends-throw_if _ _ w _ _ _ still λ u.
            Ends-throw_if _ _ w _ _ _ still λ b. Ends-throw_if _ _ w _ _ _ still λ a.
              let (contained, no_breakaway) = neither (not e.containment.contained) _ c in
              let (executable, directory) =
                neither
                  (not (
                    h.casefold e.executable_final_path
                    == h.casefold s.process_intent.executable_final_path))
                  _ p in
              Ends-append w (spawn_event h s e now) _ (record {
                contained = not-false _ contained;
                no_breakaway = no_breakaway;
                executable = (eq_iff _ _).0 (not-false _ executable);
                directory = (eq_iff _ _).0 (not-false _ directory);
                user = (eq_iff _ _).0 (not-false _ u);
                sandbox = (eq_iff _ _).0 (not-false _ b);
                appcontainer = not-false _ a;
              })

  -- When record_spawn returns, the journal has the line besides that says PROCESS_SPAWNED for the
  -- operation, and the process is contained, without breakaway, an AppContainer, and has the paths,
  -- the user and the sandbox identity that START intends.
  pub record_spawn-IsIntended :
      (s : MutationAuditStart) (e : MutationSpawnEvidence) (now : String) (w : Broker)
      (spawn : MutationAuditSpawn)
      → (record_spawn h s e now w).0 ≡ ok spawn
      → Adds h w (spawn_event h s e now) (record_spawn h s e now w).1 × IsIntended h s e
  record_spawn-IsIntended s e now w = (record_spawn-Ends s e now w).returns
