-- ===== src/Scope/Lifecycle.antt =====
-- The lifecycle of a scope, as a specification: the stages that its state goes through, and what
-- a later record of a scope may differ in.
use mathlib.Core.Path.{subst, fun_ext}
use sentinelx_cloud_core.Base.{
  ℕ, ◌≤◌, String, ◌≡◌, refl, sym, ◌∙◌, ◌↔◌, ◌==◌, string_eq, if◌then◌else◌,
}
use sentinelx_cloud_core.Base.{true, Option, none, some, arith}
use sentinelx_cloud_core.Host.{Host}
use sentinelx_cloud_core.Scope.Record.{MutationScopeRecord, immutable_digest_payload, is_current}
use sentinelx_cloud_core.Scope.Authority.{Authority, Document, loaded, written}
use sentinelx_cloud_core.Base.Result.{ok, err}
use sentinelx_cloud_core.Scope.Stored.{stored, IsWritable, loaded-written}

-- provisioned, active, expired, revoked, terminal
unfoldable pub stage : String → ℕ
stage s =
    if s == "provisioned"
    then 0
    else if s == "active"
    then 1
    else if s == "expired"
    then 2
    else if s == "revoked"
    then 3
    else 4

-- The current scopes are those of the first two stages.
pub is_current-stage : (r : MutationScopeRecord) → (is_current r ≡ true) ↔ (stage r.state ≤ 1)
unfolding stage is_current
is_current-stage r = ground arith

module _ (h : Host) where
  -- A later record `u` of the scope `r`: its sealed fields are the same, and it is no earlier in
  -- its lifecycle.
  pub record Advances (r u : MutationScopeRecord) : Type 0 where
    pub payload : immutable_digest_payload h u ≡ immutable_digest_payload h r
    pub digest : u.scope_digest ≡ r.scope_digest
    pub stages : stage r.state ≤ stage u.state

  pub Advances-refl : (r : MutationScopeRecord) → Advances r r
  Advances-refl r = record { payload = refl; digest = refl; stages = omega arith }

  pub Advances-trans : {r s t : MutationScopeRecord} → Advances r s → Advances s t → Advances r t
  Advances-trans a b = record {
    payload = b.payload ∙ a.payload;
    digest = b.digest ∙ a.digest;
    stages = omega arith;
  }

  -- A scope once stored stays stored, and advances.
  abbrev pub Follows : Option MutationScopeRecord → Option MutationScopeRecord → Type 0
  Follows none o = Unit
  Follows (some r) none = ⊥
  Follows (some r) (some u) = Advances r u

  pub Follows-refl : (o : Option MutationScopeRecord) → Follows o o
  Follows-refl none = tt
  Follows-refl (some r) = Advances-refl r

  pub Follows-trans : (a b c : Option MutationScopeRecord) → Follows a b → Follows b c → Follows a c
  Follows-trans none b c p q = tt
  Follows-trans (some r) none c p q = absurd p
  Follows-trans (some r) (some s) none p q = absurd q
  Follows-trans (some r) (some s) (some t) p q = Advances-trans p q

  -- The scope that a read of the file finds.
  unfoldable pub scope_of : Document → String → Option MutationScopeRecord
  scope_of d j = elim (loaded d) [ ok s ↦ stored h s j | err e ↦ none ]

  pub scope_of-loaded :
      (d : Document) (s : Authority) (j : String) → loaded d ≡ ok s → scope_of d j ≡ stored h s j
  unfolding scope_of
  scope_of-loaded d s j e = rw (e, scope_of)

  pub scope_of-written :
      (s : Authority) (j : String)
      → IsWritable s.placement_generation
      → scope_of (written s) j ≡ stored h s j
  scope_of-written s j wr = scope_of-loaded (written s) s j (loaded-written s wr)

  pub Follows-eq : (a b : Option MutationScopeRecord) → a ≡ b → Follows a b
  Follows-eq a b e = subst (λ o. Follows a o) e (Follows-refl a)

  abbrev pub Evolves : Document → Document → Type 0
  Evolves d e = (j : String) → Follows (scope_of d j) (scope_of e j)

  -- No two current scopes of the store are bound to one workspace.
  abbrev pub IsExclusiveAt : (String → Option MutationScopeRecord) → Type 0
  IsExclusiveAt find =
      (i j : String) (a b : MutationScopeRecord)
      → find i ≡ some a
      → find j ≡ some b
      → is_current a ≡ true
      → is_current b ≡ true
      → a.exact_workspace_digest ≡ b.exact_workspace_digest
      → i ≡ j

  pub record IsExclusive (s : Authority) : Type 0 where
    pub at : IsExclusiveAt (stored h s)

  pub record IsExclusiveFile (d : Document) : Type 0 where
    pub at : IsExclusiveAt (scope_of d)

  pub IsExclusive-loaded :
      (d : Document) (s : Authority) → loaded d ≡ ok s → IsExclusiveFile d → IsExclusive s
  IsExclusive-loaded d s e x = record {
    at = subst IsExclusiveAt (fun_ext λ j. scope_of-loaded d s j e) x.at;
  }

  pub IsExclusiveFile-loaded :
      (d : Document) (s : Authority) → loaded d ≡ ok s → IsExclusive s → IsExclusiveFile d
  IsExclusiveFile-loaded d s e x = record {
    at = subst IsExclusiveAt (sym (fun_ext λ j. scope_of-loaded d s j e)) x.at;
  }

  -- The workspace is among the sealed fields.
  pub Advances-workspace :
      (r u : MutationScopeRecord)
      → Advances r u
      → u.exact_workspace_digest ≡ r.exact_workspace_digest
  unfolding immutable_digest_payload
  Advances-workspace r u a = ground (arith, a.payload)

  pub Advances-current :
      (r u : MutationScopeRecord) → Advances r u → is_current u ≡ true → is_current r ≡ true
  Advances-current r u a live =
      let low = (is_current-stage u).0 live in (is_current-stage r).1 (omega (arith, a.stages))
