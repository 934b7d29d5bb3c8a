-- ===== src/Audit/Retained.antt =====
-- What retained and materialized evidence is worth when it is read again.
use sentinelx_cloud_core.Base.{
  ℕ, String, Bool, true, false, not, ◌&&◌, ◌||◌, string_eq, nat_eq, list_eq, list_beq_iff, eq_iff,
  nat_beq_iff, ◌≡◌, refl, ap, ◌∙◌, arith, Option, none, some, [], ◌∷◌, ◌++◌, not-false,
}
use sentinelx_cloud_core.Base.Lists.{length}
use sentinelx_cloud_core.Base.Result.{ok}
use sentinelx_cloud_core.Base.State.{
  M, ◌>>=◌, pure, throw_if, continue, Ends, Ends-pure, Ends-throw_if, Ends-bind, Ends-still,
}
use sentinelx_cloud_core.Host.{FilePath}
use sentinelx_cloud_core.Placement.{is_relative_to}
use sentinelx_cloud_core.Audit.{ForensicScriptEvidence}
use sentinelx_cloud_core.Audit.Journal.{
  AuditHost, Broker, Bytes, Failure, present, read_bytes, read_verified,
}
use sentinelx_cloud_core.Audit.Appended.{neither, read_bytes_still, read_verified_still}
use sentinelx_cloud_core.Audit.Evidence.{
  Write, put_file, create_file, created, artifact_path, retain, materialize_verified,
}

is_relative_to-under : (root path : FilePath) → is_relative_to (root ++ path) root ≡ true
unfolding is_relative_to
is_relative_to-under [] path = refl
is_relative_to-under (r ∷ root) path =
    ap (λ b. b && is_relative_to (root ++ path) root) ((eq_iff r r).1 refl)
    ∙ is_relative_to-under root path

bind-passed :
    {A : Type 0} (b : Bool) (e : Failure) (f : Unit {0} → M Broker Failure A) (w : Broker)
    → b ≡ false
    → (throw_if b e >>= f) w ≡ f tt w
unfolding ◌>>=◌ throw_if
bind-passed true e f w k = cc
bind-passed false e f w k = refl

bind-read :
    {A : Type 0} (path : FilePath) (bytes : Bytes) (f : Bytes → M Broker Failure A) (w : Broker)
    → (read_bytes path w).0 ≡ ok bytes
    → (read_bytes path >>= f) w ≡ f bytes w
unfolding ◌>>=◌ read_bytes
bind-read path bytes f w k = ap (λ r. continue r f w) k

both_pass : (a b : Bool) → a ≡ true → b ≡ true → (not a || not b) ≡ false
both_pass a b p q = ground arith

present-ok : (o : Option Bytes) (bytes : Bytes) → present o ≡ ok bytes → o ≡ some bytes
present-ok none bytes k = cc
present-ok (some b) bytes k = cc

read_holds :
    (path : FilePath) (bytes : Bytes) (w : Broker)
    → (read_bytes path w).0 ≡ ok bytes
    → w.artifacts path ≡ some bytes
unfolding read_bytes
read_holds path bytes w k = present-ok (w.artifacts path) bytes k

module _ (h : AuditHost) where
  read_verified-ok :
      (e : ForensicScriptEvidence) (bytes : Bytes) (w : Broker)
      → is_relative_to e.artifact_path h.evidence_root ≡ true
      → (read_bytes e.artifact_path w).0 ≡ ok bytes
      → length bytes ≡ e.size_bytes
      → h.sha256 bytes ≡ e.sha256
      → read_verified h e w ≡ (ok bytes, w)
  unfolding read_verified pure
  read_verified-ok e bytes w inside held size sha =
      bind-passed _ _ _ w (ap not inside)
      ∙ bind-read e.artifact_path bytes _ w held
      ∙ bind-passed _ _ _ w (both_pass _ _ ((nat_beq_iff _ _).1 size) ((eq_iff _ _).1 sha))

  retain-Ends :
      (iso : ℕ → String) (retention_days : ℕ) (exact_bytes : Bytes) (token : String) (now : ℕ)
      (write : Write) (w : Broker)
      → Ends
          (λ e v. read_verified h e v ≡ (ok exact_bytes, v))
          (λ _. Unit {0})
          w
          (retain h iso retention_days exact_bytes token now write)
  unfolding retain artifact_path
  retain-Ends iso retention_days exact_bytes token now write w =
      let path = artifact_path h exact_bytes token in
      Ends-throw_if _ _ w _ _ _ tt λ _.
        Ends-bind _ _ w (put_file path write) _
          (λ _ _.
            let v = (put_file path write w).1 in
            Ends-still _ _ v (read_bytes path) _ (read_bytes_still path v) tt λ persisted held.
              Ends-throw_if _ _ v _ _ _ tt λ c.
                let same = (list_beq_iff persisted exact_bytes).0 (not-false _ (neither _ _ c).1) in
                Ends-pure _ _ v _ (
                  read_verified-ok _ exact_bytes v (is_relative_to-under h.evidence_root _)
                    (held ∙ ap ok same) refl refl))
          (λ _ _. tt)

  -- When retain returns, whatever its write did, the evidence that it returns is verified: reading it
  -- gives exactly the bytes that were retained, and leaves the store as it is.
  pub retain-read_verified :
      (iso : ℕ → String) (retention_days : ℕ) (exact_bytes : Bytes) (token : String) (now : ℕ)
      (write : Write) (w : Broker) (e : ForensicScriptEvidence)
      → (retain h iso retention_days exact_bytes token now write w).0 ≡ ok e
      → (let v = (retain h iso retention_days exact_bytes token now write w).1 in
          read_verified h e v ≡ (ok exact_bytes, v))
  retain-read_verified iso retention_days exact_bytes token now write w =
      (retain-Ends iso retention_days exact_bytes token now write w).returns

  -- The destination was not there before, and what it holds now has the sealed hash.
  pub record IsMaterialized (e : ForensicScriptEvidence) (destination : FilePath) (w v : Broker)
      : Type 0 where
    pub absent : w.artifacts destination ≡ none
    pub bytes : Bytes
    pub holds : v.artifacts destination ≡ some bytes
    pub sealed : h.sha256 bytes ≡ e.sha256

  created-absent :
      (o : Option Bytes) (path : FilePath) (write : Write) (w : Broker)
      → (created o path write w).0 ≡ ok tt
      → o ≡ none
  created-absent none path write w q = refl
  created-absent (some b) path write w q = cc

  materialize-Ends :
      (parent_exists : Bool) (write : Bytes → Write) (e : ForensicScriptEvidence)
      (destination : FilePath) (w : Broker)
      → Ends
          (λ _ v. IsMaterialized e destination w v)
          (λ _. Unit {0})
          w
          (materialize_verified h parent_exists write e destination)
  unfolding materialize_verified create_file
  materialize-Ends parent_exists write e destination w =
      Ends-still _ _ w _ _ (read_verified_still h e w) tt λ data_read _.
        Ends-throw_if _ _ w _ _ _ tt λ _.
          Ends-bind _ _ w (create_file destination (write data_read)) _
            (λ _ made.
              let v = (create_file destination (write data_read) w).1 in
              Ends-still _ _ v (read_bytes destination) _ (read_bytes_still destination v) tt
                λ bytes held. Ends-throw_if _ _ v _ _ _ tt λ c. Ends-pure _ _ v _ (record {
                  absent =
                      created-absent (w.artifacts destination) destination (write data_read) w made;
                  bytes = bytes;
                  holds = read_holds destination bytes v held;
                  sealed = (eq_iff _ _).0 (not-false _ c);
                }))
            (λ _ _. tt)

  -- materialize_verified returns only when it created the destination, which was not there before,
  -- and the file there, as read back, has the sealed hash.
  pub materialize_verified-IsMaterialized :
      (parent_exists : Bool) (write : Bytes → Write) (e : ForensicScriptEvidence)
      (destination : FilePath) (w : Broker) (digest : String)
      → (materialize_verified h parent_exists write e destination w).0 ≡ ok digest
      → IsMaterialized e destination w
          (materialize_verified h parent_exists write e destination w).1
  materialize_verified-IsMaterialized parent_exists write e destination w =
      (materialize-Ends parent_exists write e destination w).returns
