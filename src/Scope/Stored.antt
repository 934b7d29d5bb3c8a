-- ===== src/Scope/Stored.antt =====
-- What `_record` finds after `_put_record` and after a write of the file.
use sentinelx_cloud_core.Base.{◌≤◌, String, ◌≡◌, true, false}
use sentinelx_cloud_core.Base.{Option, none, some, arith, eq_iff, Bool-cases, inl, inr}
use sentinelx_cloud_core.Base.{◌==◌, nat_eq, string_eq, option_eq, if◌then◌else◌}
use sentinelx_cloud_core.Base.Dict.{lookup, lookup-insert}
use sentinelx_cloud_core.Base.Result.{Result, ok, err}
use sentinelx_cloud_core.Errors.{Error}
use sentinelx_cloud_core.Host.{Host}
use sentinelx_cloud_core.Placement.{PlacementGenerationState}
use sentinelx_cloud_core.Scope.Record.{
  MutationScopeRecord, ScopeEntry, not_mapping, misfit, fields, is_known_state, from_json,
  verify_digest, immutable_digest_payload, stored_binding_accepted,
}
use sentinelx_cloud_core.Scope.Authority.{
  Authority, Document, absent, unreadable, no_object, parsed, loaded, written, put_record,
  get_record, record_at, GenerationField, no_generation, not_object, generation_fields,
  load_generation,
}

abbrev pub to_option : {A : Type 0} → Result Error A → Option A
to_option (ok a) = some a
to_option (err e) = none

-- The generation is positive, as the loader demands.
abbrev pub IsWritable : Option PlacementGenerationState → Type 0
IsWritable none = Unit
IsWritable (some g) = 1 ≤ g.generation

-- Loading the document that was written for a dictionary gives the dictionary back, if its
-- placement generation, where it has one, is positive.
pub loaded-written : (s : Authority) → IsWritable s.placement_generation → loaded (written s) ≡ ok s
unfolding loaded written
loaded-written s h = ground arith

load_generation-IsWritable :
    (f : GenerationField) (o : Option PlacementGenerationState)
    → load_generation f ≡ ok o
    → IsWritable o
load_generation-IsWritable f none e = tt
load_generation-IsWritable no_generation (some g) e = ground arith
load_generation-IsWritable not_object (some g) e = ground arith
load_generation-IsWritable (generation_fields none n) (some g) e = ground arith
load_generation-IsWritable (generation_fields (some d) none) (some g) e = ground arith
load_generation-IsWritable (generation_fields (some d) (some n)) (some g) e = ground arith

pub loaded-IsWritable :
    (d : Document) (s : Authority) → loaded d ≡ ok s → IsWritable s.placement_generation
unfolding loaded
loaded-IsWritable absent s e = load_generation-IsWritable no_generation s.placement_generation (cc)
loaded-IsWritable unreadable s e = cc
loaded-IsWritable no_object s e = cc
loaded-IsWritable (parsed j) s e =
    ground (arith, load_generation-IsWritable j.placement_generation s.placement_generation)

module _ (h : Host) where
  -- The scope that `_record` returns, if any.
  abbrev pub stored : Authority → String → Option MutationScopeRecord
  stored s j = to_option (get_record h s j)

  -- What `from_json` returns unchanged.
  abbrev pub IsAccepted : MutationScopeRecord → Type 0
  IsAccepted r = from_json h (fields r) ≡ ok r

  pub from_json-fields :
      (e : ScopeEntry) (r : MutationScopeRecord) → from_json h e ≡ ok r → e ≡ fields r
  unfolding from_json verify_digest
  from_json-fields not_mapping r p = cc
  from_json-fields misfit r p = cc
  from_json-fields (fields x) r p = ground arith

  pub stored-put_record :
      (s : Authority) (u : MutationScopeRecord) (j : String)
      → IsAccepted u
      → stored (put_record s u) j ≡ (if u.scope_id == j then some u else stored s j)
  unfolding get_record put_record
  stored-put_record s u j accepted =
      rw lookup-insert
        (elim (Bool-cases (u.scope_id == j)) [ inl e ↦ rw (e, accepted, e) | inr e ↦ rw e ])

  pub stored-put_record_ne :
      (s : Authority) (u : MutationScopeRecord) (j : String)
      → (u.scope_id == j) ≡ false
      → stored (put_record s u) j ≡ stored s j
  unfolding get_record put_record
  stored-put_record_ne s u j e = rw lookup-insert (rw e)

  pub get_record-IsAccepted :
      (s : Authority) (j : String) (r : MutationScopeRecord)
      → get_record h s j ≡ ok r
      → IsAccepted r × (r.scope_id ≡ j)
  unfolding get_record
  get_record-IsAccepted s j r e = go (lookup j s.scopes) e
    where
      go : (o : Option ScopeEntry) → record_at h j o ≡ ok r → IsAccepted r × (r.scope_id ≡ j)
      go none p = cc
      go (some x) p = ground (arith, from_json-fields x r, eq_iff r.scope_id j)

  pub update-IsAccepted :
      (r u : MutationScopeRecord)
      → IsAccepted r
      → immutable_digest_payload h u ≡ immutable_digest_payload h r
      → u.scope_digest ≡ r.scope_digest
      → stored_binding_accepted u.session_object_read_binding ≡ true
      → is_known_state u.state ≡ true
      → IsAccepted u
  unfolding from_json verify_digest
  update-IsAccepted r u accepted payload digest binding known = ground arith
