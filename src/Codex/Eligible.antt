-- ===== src/Codex/Eligible.antt =====
-- The paths that a commit may hold.
use sentinelx_cloud_core.Base.{
  String, Bool, true, false, not, ◌≡◌, refl, sym, ap, ◌∙◌, List, [], ◌∷◌, if◌then◌else◌,
}
use sentinelx_cloud_core.Base.Lists.{select}
use sentinelx_cloud_core.Base.Text.{sorted_set}
use sentinelx_cloud_core.Base.Result.{Result, ok, err}
use sentinelx_cloud_core.Codex.Site.{Failure, refused}
use sentinelx_cloud_core.Codex.Canonical.{validate_relative_path}
use sentinelx_cloud_core.Codex.Inventory.{
  eligible, kept_paths, when_clean, keep, sort_kept, provider_owned, names_gitattributes,
}

-- Every path is clean, and one that is not the provider's is no .gitattributes file.
pub data IsClean : List String → Type 0 where
  none_left : IsClean []
  clean :
      {path : String} {paths : List String}
      → validate_relative_path path ≡ ok tt
      → (provider_owned path ≡ false → names_gitattributes path ≡ false)
      → IsClean paths
      → IsClean (path ∷ paths)

abbrev pub own : String → Bool
own path = not (provider_owned path)

given : {A : Type 0} → A → Result Failure A → A
given a (ok b) = b
given a (err e) = a

-- What one round of the loop did, when all rounds end well.
record Round (path : String) (v : Result Failure (Unit {0})) (o n : Bool)
    (rest : Result Failure (List String)) (kept : List String) : Type 0 where
  valid : v ≡ ok tt
  attributes : o ≡ false → n ≡ false
  more : List String
  rest_ok : rest ≡ ok more
  kept_is : kept ≡ (if not o then path ∷ more else more)

round :
    (path : String) (v : Result Failure (Unit {0})) (o n : Bool)
    (rest : Result Failure (List String)) (kept : List String)
    → when_clean v (
        if o
        then rest
        else if n
        then err (refused "direct_codex_unsupported_attribute_mutation")
        else keep path rest)
      ≡ ok kept
    → Round path v o n rest kept
unfolding given
round path (err x) o n rest kept e = cc
round path (ok tt) true n rest kept e = record {
  valid = refl;
  attributes = λ c. cc;
  more = kept;
  rest_ok = e;
  kept_is = refl;
}
round path (ok tt) false true rest kept e = cc
round path (ok tt) false false (err x) kept e = cc
round path (ok tt) false false (ok more) kept e = record {
  valid = refl;
  attributes = λ _. refl;
  more = more;
  rest_ok = refl;
  kept_is = ap (given kept) (sym e);
}

kept_paths-select :
    (paths kept : List String)
    → kept_paths paths ≡ ok kept
    → (kept ≡ select own paths) × IsClean paths
unfolding kept_paths given
kept_paths-select [] kept e = (ap (given kept) (sym e), none_left)
kept_paths-select (path ∷ paths) kept e =
    let r =
      round path (validate_relative_path path) (provider_owned path) (names_gitattributes path)
        (kept_paths paths) kept e in
    let (same, rest) = kept_paths-select paths r.more r.rest_ok in
    (r.kept_is ∙ ap (λ t. if own path then path ∷ t else t) same, clean r.valid r.attributes rest)

sort_kept-ok :
    (r : Result Failure (List String)) (sorted : List String)
    → sort_kept r ≡ ok sorted
    → (kept : List String) × (r ≡ ok kept) × (sorted ≡ sorted_set kept)
unfolding given
sort_kept-ok (ok kept) sorted e = (kept, refl, ap (given sorted) (sym e))
sort_kept-ok (err x) sorted e = cc

-- When `_eligible` accepts a list of paths, it returns the sorted set of those outside the
-- provider's own directories, no more and no fewer; every path of the list is a clean relative
-- path, and none outside those directories is a .gitattributes file.
pub eligible-select :
    (paths sorted : List String)
    → eligible paths ≡ ok sorted
    → (sorted ≡ sorted_set (select own paths)) × IsClean paths
unfolding eligible
eligible-select paths sorted e =
    let (kept, k, s) = sort_kept-ok (kept_paths paths) sorted e in
    let (same, rest) = kept_paths-select paths kept k in (s ∙ ap sorted_set same, rest)
