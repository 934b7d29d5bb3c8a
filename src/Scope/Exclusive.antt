-- ===== src/Scope/Exclusive.antt =====
-- What `_assert_no_competing_nonterminal` rules out.
use mathlib.Core.Path.{subst}
use mathlib.Core.Option.{some-injective}
use sentinelx_cloud_core.Base.{String, ◌≡◌, refl, sym, ◌∙◌, ap, ◌==◌, string_eq, eq_iff, arith}
use sentinelx_cloud_core.Base.{true, false, Option, none, some, [], ◌∷◌, Bool-cases, inl, inr}
use sentinelx_cloud_core.Base.Dict.{Dict, lookup, lookup-insert}
use sentinelx_cloud_core.Base.Result.{Result, ok, err, ◌>>◌}
use sentinelx_cloud_core.Errors.{Error}
use sentinelx_cloud_core.Host.{Host}
use sentinelx_cloud_core.Scope.Record.{
  MutationScopeRecord, ScopeEntry, not_mapping, misfit, fields, from_json, is_current,
}
use sentinelx_cloud_core.Scope.Authority.{
  Authority, assert_no_competing_nonterminal, no_competing, competing_entry, competes, get_record,
  record_at, put_record,
}
use sentinelx_cloud_core.Scope.Stored.{stored, from_json-fields, to_option, stored-put_record_ne}
use sentinelx_cloud_core.Scope.Lifecycle.{IsExclusive}

module _ (h : Host) where
  competing_entry-excludes :
      (r b : MutationScopeRecord) (x : ScopeEntry) (i : String)
      → competing_entry h r i x ≡ ok tt
      → from_json h x ≡ ok b
      → (r.scope_id == i) ≡ false
      → is_current b ≡ true
      → b.exact_workspace_digest ≡ r.exact_workspace_digest
      → ⊥
  unfolding competing_entry competes from_json
  competing_entry-excludes r b not_mapping i pass p other live same = cc
  competing_entry-excludes r b misfit i pass p other live same = cc
  competing_entry-excludes r b (fields x) i pass p other live same = ground (
    arith,
    eq_iff i r.scope_id,
    eq_iff r.scope_id i,
    eq_iff b.exact_workspace_digest r.exact_workspace_digest,
    p,
  )

  bound-ok :
      (x : Result Error (Unit {0})) (y : Result Error (Unit {0}))
      → (x >> y) ≡ ok tt
      → (x ≡ ok tt) × (y ≡ ok tt)
  bound-ok (ok u) y e = (refl, e)
  bound-ok (err x) y e = cc

  no_competing-excludes :
      (r b : MutationScopeRecord) (e : ScopeEntry) (i : String) (d : Dict ScopeEntry)
      → no_competing h r d ≡ ok tt
      → lookup i d ≡ some e
      → from_json h e ≡ ok b
      → (r.scope_id == i) ≡ false
      → is_current b ≡ true
      → b.exact_workspace_digest ≡ r.exact_workspace_digest
      → ⊥
  unfolding no_competing lookup
  no_competing-excludes r b e i [] free found p other live same = cc
  no_competing-excludes r b e i ((j, x) ∷ d) free found p other live same =
      let (first, rest) = bound-ok (competing_entry h r j x) (no_competing h r d) free in
      elim (Bool-cases (j == i)) [
        | inl here ↦
            competing_entry-excludes r b x i
              (subst (λ k. competing_entry h r k x ≡ ok tt) ((eq_iff j i).0 here) first)
              (subst (λ y. from_json h y ≡ ok b) (sym (some-injective x e (sym (rw here) ∙ found)))
                p)
              other live same
        | inr there ↦
            no_competing-excludes r b e i d rest (sym (rw there) ∙ found) p other live same
      ]

  record_at-parses :
      (i : String) (x : ScopeEntry) (b : MutationScopeRecord)
      → to_option (record_at h i (some x)) ≡ some b
      → from_json h x ≡ ok b
  unfolding get_record
  record_at-parses i x b p = ground arith

  stored-lookup :
      (s : Authority) (i : String) (b : MutationScopeRecord)
      → stored h s i ≡ some b
      → (e : ScopeEntry) × (lookup i s.scopes ≡ some e) × (from_json h e ≡ ok b)
  unfolding get_record
  stored-lookup s i b found = go (lookup i s.scopes) refl found
    where
      go :
          (o : Option ScopeEntry)
          → lookup i s.scopes ≡ o
          → to_option (record_at h i o) ≡ some b
          → (e : ScopeEntry) × (lookup i s.scopes ≡ some e) × (from_json h e ≡ ok b)
      go none q p = cc
      go (some x) q p = (x, q, record_at-parses i x b p)

  no_competing-stored :
      (s : Authority) (r b : MutationScopeRecord) (i : String)
      → assert_no_competing_nonterminal h s r ≡ ok tt
      → stored h s i ≡ some b
      → (r.scope_id == i) ≡ false
      → is_current b ≡ true
      → b.exact_workspace_digest ≡ r.exact_workspace_digest
      → ⊥
  unfolding assert_no_competing_nonterminal
  no_competing-stored s r b i free found other live same =
      let (e, at, parses) = stored-lookup s i b found in
      no_competing-excludes r b e i s.scopes free at parses other live same

  put_back :
      (r a : MutationScopeRecord) (i : String)
      → to_option (record_at h i (some (fields r))) ≡ some a
      → a ≡ r
  unfolding get_record from_json
  put_back r a i p = ground (arith, from_json-fields h (fields r) a)

  -- What is stored under the name of a record just put is that record.
  put_record-same :
      (s : Authority) (r a : MutationScopeRecord) (i : String)
      → (r.scope_id == i) ≡ true
      → stored h (put_record s r) i ≡ some a
      → a ≡ r
  unfolding get_record put_record from_json
  put_record-same s r a i same found = put_back r a i (sym (rw (lookup-insert, same)) ∙ found)

  pub entered-IsExclusive :
      (s : Authority) (r : MutationScopeRecord)
      → assert_no_competing_nonterminal h (put_record s r) r ≡ ok tt
      → IsExclusive h s
      → IsExclusive h (put_record s r)
  entered-IsExclusive s r free x = record {
    at = λ i k a b fa fb la lb same. elim (Bool-cases (r.scope_id == i)) [
      | inl ei ↦ elim (Bool-cases (r.scope_id == k)) [
        | inl ek ↦ sym ((eq_iff r.scope_id i).0 ei) ∙ (eq_iff r.scope_id k).0 ek
        | inr nk ↦ absurd (
            no_competing-stored (put_record s r) r b k free fb nk lb (
              sym same
              ∙ ap (λ (u : MutationScopeRecord). u.exact_workspace_digest)
                  (put_record-same s r a i ei fa)))
      ]
      | inr ni ↦ elim (Bool-cases (r.scope_id == k)) [
        | inl ek ↦ absurd (
            no_competing-stored (put_record s r) r a i free fa ni la (
              same
              ∙ ap (λ (u : MutationScopeRecord). u.exact_workspace_digest)
                  (put_record-same s r b k ek fb)))
        | inr nk ↦
            x.at i k a b (sym (stored-put_record_ne h s r i ni) ∙ fa)
              (sym (stored-put_record_ne h s r k nk) ∙ fb) la lb same
      ]
    ];
  }

  -- If the check of the store for competing scopes passes for a record, then every other scope of
  -- the store that is bound to the same workspace is not current.
  pub competitor_not_current :
      (s : Authority) (r b : MutationScopeRecord) (i : String)
      → assert_no_competing_nonterminal h s r ≡ ok tt
      → stored h s i ≡ some b
      → (r.scope_id == i) ≡ false
      → b.exact_workspace_digest ≡ r.exact_workspace_digest
      → is_current b ≡ false
  competitor_not_current s r b i free found other same = elim (Bool-cases (is_current b)) [
    | inl live ↦ absurd (no_competing-stored s r b i free found other live same)
    | inr over ↦ over
  ]
