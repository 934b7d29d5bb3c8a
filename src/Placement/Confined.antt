-- ===== src/Placement/Confined.antt =====
-- What `resolve_placement` and `revalidate_placement` promise of the evidence that they return.
use sentinelx_cloud_core.Base.{String, ◌≡◌, sym, ap, ◌∙◌, ◌==◌, true, false, not, arith}
use sentinelx_cloud_core.Base.{nat_eq, string_eq, list_eq, list_beq_iff, eq_iff, Option, some, List}
use sentinelx_cloud_core.Base.Result.{Result, ok, err, ◌>>=◌, ◌>>◌, raise_if}
use sentinelx_cloud_core.Errors.{Error, binding_mismatch}
use sentinelx_cloud_core.Host.{Host, FilePath}
use sentinelx_cloud_core.Policy.{MutationExecutionPolicy}
use sentinelx_cloud_core.Placement.{
  RepositoryIdentity, SemanticIdentity, PlacementGenerationState, PlacementEvidence, evolve,
  same_evidence, is_relative_to, resolve_placement, revalidate_placement, placement_policy_digest,
  generation_state,
}

-- Evidence that agrees in each sealed field is the same evidence.
same_evidence-eq : (a b : PlacementEvidence) → same_evidence a b ≡ true → a ≡ b
unfolding same_evidence
same_evidence-eq a b e = ground (
  arith,
  eq_iff a.placement_ref b.placement_ref,
  eq_iff a.policy_digest b.policy_digest,
  nat_eq.agrees_iff a.generation b.generation,
  list_beq_iff {A = String} ⦃e = string_eq⦄ a.exact_future_workspace b.exact_future_workspace,
  eq_iff a.exact_workspace_digest b.exact_workspace_digest,
  eq_iff a.repository_identity_digest b.repository_identity_digest,
  eq_iff a.semantic_identity_digest b.semantic_identity_digest,
  eq_iff a.protected_inventory_digest b.protected_inventory_digest,
)

checked :
    (e c : PlacementEvidence) (x : Result Error PlacementEvidence)
    → (x >>= λ current. raise_if (not (same_evidence current e)) binding_mismatch >> ok current)
      ≡ ok c
    → (x ≡ ok c) × (same_evidence c e ≡ true)
checked e c (ok a) found = ground (arith, found)
checked e c (err y) found = cc

module _ (h : Host) where
  -- The workspace that a resolved placement names is a proper descendant of the resolved
  -- workspace root of the policy, whatever the repository and the Attempt are called.
  pub resolve_placement-confined :
      (p : MutationExecutionPolicy) (q : RepositoryIdentity) (t : SemanticIdentity)
      (g : Option PlacementGenerationState) (roots : List FilePath) (root : FilePath)
      (e : PlacementEvidence)
      → p.workspace_root ≡ some root
      → resolve_placement h p q t g roots ≡ ok e
      → (is_relative_to e.exact_future_workspace (h.resolve root) ≡ true)
        × ((e.exact_future_workspace == h.resolve root) ≡ false)
  unfolding resolve_placement
  resolve_placement-confined p q t g roots root e given found = ground (arith, given)

  resolve_placement-digest :
      (p : MutationExecutionPolicy) (q : RepositoryIdentity) (t : SemanticIdentity)
      (g : Option PlacementGenerationState) (roots : List FilePath) (e : PlacementEvidence)
      → resolve_placement h p q t g roots ≡ ok e
      → e.policy_digest ≡ placement_policy_digest h p
  unfolding resolve_placement evolve
  resolve_placement-digest p q t g roots e found = ground arith

  -- A placement that is confirmed is the sealed one in every field, and it was sealed under the
  -- present policy: evidence that was sealed under a policy with another digest is refused.
  pub revalidate_placement-sealed :
      (e c : PlacementEvidence) (p : MutationExecutionPolicy) (q : RepositoryIdentity)
      (t : SemanticIdentity) (roots : List FilePath)
      → revalidate_placement h e p q t roots ≡ ok c
      → (c ≡ e) × (e.policy_digest ≡ placement_policy_digest h p)
  unfolding revalidate_placement
  revalidate_placement-sealed e c p q t roots found =
      let (resolved, same) = checked e c _ found in
      let eq = same_evidence-eq c e same in
      (
        eq,
        sym (ap (λ (x : PlacementEvidence). x.policy_digest) eq)
            ∙ resolve_placement-digest p q t (some (generation_state e)) roots c resolved,
      )
