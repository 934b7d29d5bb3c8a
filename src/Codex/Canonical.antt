-- ===== src/Codex/Canonical.antt =====
-- src/sentinelx_core/direct_codex_transport.py: the paths that a commit may name, the head of the
-- remote branch, and the proof that the frozen canonicalization snapshot still holds.
use sentinelx_cloud_core.Base.{◌+◌, ◌-◌, ◌/◌}
use sentinelx_cloud_core.Base.{
  ℕ, String, Bool, true, false, not, ◌&&◌, ◌||◌, ◌==◌, string_eq, nat_eq, list_eq, contains,
}
use sentinelx_cloud_core.Base.{Option, none, some, List, [], ◌∷◌, ◌++◌, map, if◌then◌else◌}
use sentinelx_cloud_core.Base.Lists.{any, all, select, length, take, drop}
use sentinelx_cloud_core.Base.Result.{Result, ok, err}
use sentinelx_cloud_core.Base.{leb, zero, suc, option_eq}
use sentinelx_cloud_core.Base.Dict.{lookup}
use sentinelx_cloud_core.Base.Text.{
  strip, is_blank, begins_with, has_text, split_slashes, sorted_set, codes,
}
use sentinelx_cloud_core.Base.Split.{split_on, words, splitlines, rsplit_two, tail_of, join, is_sha}
use Prim.Native.String.{◌++◌ as ◌<>◌}
use sentinelx_cloud_core.Errors.{Error}
use sentinelx_cloud_core.Placement.{RepositoryIdentity, canonical_repository}
use sentinelx_cloud_core.Codex.Site.{
  Site, Answer, AttributesFile, absent, unreadable, holds, CanonicalizationSnapshot, Failure,
  refused, value_error, text, number, flag, object, Fields, end, field,
}
use sentinelx_cloud_core.Codex.Command.{
  Command, ls_remote, config_get, inspect_seed, inspect_list, inspect_paths, check_attr,
  ProviderState,
}
use sentinelx_cloud_core.Codex.Program.{
  M, ◌>>=◌, ◌>>◌, pure, lift, throw_if, gets, unlink, transport_git,
}

abbrev unsafe_part : String → Bool
unsafe_part part = is_blank part || part == "." || part == ".."

-- `validate_relative_path`
unfoldable pub validate_relative_path : String → Result Failure (Unit {0})
validate_relative_path path =
    if is_blank path || begins_with path "/" || has_text path "\\"
    then err (refused "direct_codex_path_escape")
    else if any unsafe_part (split_slashes path)
    then err (refused "direct_codex_path_escape")
    else if contains (split_slashes path) ".git"
    then err (refused "direct_codex_repository_metadata_mutation")
    else ok tt

-- `_parse_remote_head`
abbrev line_head : String → List String → Option String → Option String
line_head branch (sha ∷ name ∷ more) rest =
    if (name == ("refs/heads/" <> branch) || name == branch) && is_sha (strip sha)
    then some (strip sha)
    else rest
line_head branch _ rest = rest

abbrev lines_head : String → List String → Option String
lines_head branch [] = none
lines_head branch (line ∷ lines) = line_head branch (words line) (lines_head branch lines)

unfoldable pub parse_remote_head : String → String → Option String
parse_remote_head stdout branch = lines_head branch (splitlines stdout)

-- The slices `paths[start : start + size]` of so many rounds.
unfoldable pub slices : ℕ → ℕ → ℕ → List String → List (List String)
slices zero start size paths = []
slices (suc rounds) start size paths =
    take size (drop start paths) ∷ slices rounds (start + size) size paths

-- `for start in range(0, len(paths), size)`
unfoldable pub chunks : ℕ → List String → List (List String)
unfolding slices
chunks size paths = slices ((length paths + (size - 1)) / size) 0 size paths

abbrev wte_char : ℕ → Bool
wte_char c =
    leb 0x30 c && leb c 0x3a
    || leb 0x41 c && leb c 0x5a
    || leb 0x61 c && leb c 0x7a
    || c == 0x5f
    || c == 0x2e
    || c == 0x2d

abbrev wte_first : ℕ → Bool
wte_first c = leb 0x30 c && leb c 0x39 || leb 0x41 c && leb c 0x5a || leb 0x61 c && leb c 0x7a

-- `_WTE_TOKEN_RE.match(token)`
abbrev wte_token : List ℕ → Bool
wte_token [] = false
wte_token (c ∷ cs) = wte_first c && all wte_char cs

-- `_SCALAR_SCHEMA`
abbrev scalar_schema : List (String × List String)
scalar_schema =
    ("core.autocrlf", "" ∷ "true" ∷ "false" ∷ "input" ∷ [])
    ∷ ("core.eol", "" ∷ "native" ∷ "lf" ∷ "crlf" ∷ [])
    ∷ ("core.safecrlf", "" ∷ "true" ∷ "false" ∷ "warn" ∷ [])
    ∷ []

abbrev roundtrip_encoding : String
roundtrip_encoding = "core.checkroundtripencoding"

abbrev or_blank : Option String → String
or_blank none = ""
or_blank (some t) = t

abbrev unsupported_value : Failure
unsupported_value = refused "direct_codex_unsupported_normalization_value"

abbrev extend :
    String × String
    → Result Failure (List (String × String))
    → Result Failure (List (String × String))
extend entry (err e) = err e
extend entry (ok entries) = ok (entry ∷ entries)

abbrev then_wte :
    String
    → Bool
    → Result Failure (List (String × String))
    → Result Failure (List (String × String))
then_wte wte bad (err e) = err e
then_wte wte true (ok entries) = err unsupported_value
then_wte wte false (ok entries) = ok (entries ++ (roundtrip_encoding, wte) ∷ [])

abbrev present : Option String → Result Failure String
present none = err (refused "direct_codex_remote_branch_missing")
present (some head) = ok head

-- `reject_custom_filters`
abbrev is_custom_filter : Option (String × String × String) → Bool
is_custom_filter none = false
is_custom_filter (some (front, attr, value)) =
    attr == "filter" && not (value == "unset" || value == "unspecified")

unfoldable pub reject_custom_filters : List String → Result Failure (Unit {0})
reject_custom_filters lines =
    if any (λ line. is_custom_filter (rsplit_two line)) lines
    then err (refused "direct_codex_unsupported_filter_attribute")
    else ok tt

-- `==` of two dictionaries
abbrev same_scalars : List (String × String) → List (String × String) → Bool
same_scalars a b =
    length a == length b && all (λ (entry : String × String). lookup entry.0 b == some entry.1) a

module _ {R : Type 0} (S : Site R) where
  -- `remote_url_for`: the part of the canonical name after its `://`.
  abbrev after_scheme : String → String
  after_scheme String.[] = String.[]
  after_scheme (String.◌∷◌ c s) =
      if begins_with (String.◌∷◌ c s) "://" then tail_of (tail_of s) else after_scheme s

  abbrev url_of : Result Error String → Result Failure String
  url_of (ok canonical) = ok ("https://" <> (after_scheme canonical <> ".git"))
  url_of (err e) = err value_error

  unfoldable pub remote_url_for : RepositoryIdentity → Result Failure String
  remote_url_for repository = url_of (canonical_repository S.host repository)

  -- `_decode(stdout).strip()`
  abbrev pub output : Answer → String
  output a = strip (S.decode a.stdout)

  -- `_normalize_scalars`
  abbrev normalize_schema :
      List (String × List String) → List (String × String) → Result Failure (List (String × String))
  normalize_schema [] raw = ok []
  normalize_schema ((key, allowed) ∷ schema) raw =
      let value = S.host.lower (strip (or_blank (lookup key raw))) in
      let rest = normalize_schema schema raw in
      if contains allowed value then extend (key, value) rest else err unsupported_value

  unfoldable pub normalize_scalars :
      List (String × String) → Result Failure (List (String × String))
  normalize_scalars raw =
      let wte = strip (or_blank (lookup roundtrip_encoding raw)) in
      then_wte wte
        (any (λ token. not (is_blank token) && not (wte_token (codes token)))
          (map strip (split_on 0x2c wte)))
        (normalize_schema scalar_schema raw)

  module _ (state : ProviderState) where
    abbrev git : Command → M R Answer
    git = transport_git S state none

    -- `read_remote_head`
    unfoldable pub read_remote_head : RepositoryIdentity → String → M R String
    read_remote_head repository branch = do
      url ← lift (remote_url_for repository)
      a ← git (ls_remote url branch)
      throw_if (not (a.code == 0)) (refused "direct_codex_remote_read_failed")
      lift (present (parse_remote_head (S.decode a.stdout) branch))

    unfoldable pub config_scalar : String → M R String
    config_scalar key = do a ← git (config_get key); pure (if a.code == 0 then output a else "")

    unfoldable pub read_scalars : List String → M R (List (String × String))
    unfolding config_scalar
    read_scalars [] = pure []
    read_scalars (key ∷ keys) = do
      value ← config_scalar key
      rest ← read_scalars keys
      pure ((key, value) ∷ rest)

    -- `read_normalization_scalars`
    unfoldable pub read_normalization_scalars : M R (List (String × String))
    read_normalization_scalars = do
      raw ←
          read_scalars (
            map (λ (entry : String × List String). entry.0) scalar_schema
            ++ roundtrip_encoding ∷ [])
      lift (normalize_scalars raw)

    abbrev attributes_empty : AttributesFile → Bool
    attributes_empty absent = true
    attributes_empty unreadable = false
    attributes_empty (holds t) = is_blank (strip t)

    -- `info_attributes_empty`
    unfoldable pub info_attributes_empty : M R Bool
    info_attributes_empty = gets S (λ r. attributes_empty (S.info_attributes r))

    unfoldable pub seed_inspection_index : String → M R String
    seed_inspection_index sha = do
      unlink S state.inspection_index
      a ← git (inspect_seed sha)
      throw_if (not (a.code == 0)) (refused "direct_codex_inspection_index_failed")
      b ← git inspect_list
      throw_if (not (b.code == 0)) (refused "direct_codex_inspection_index_failed")
      pure (S.sha256 b.stdout)

    -- The loop over the chunks of `inspect_effective_attributes`.
    unfoldable pub attribute_lines : List (List String) → M R (List String)
    attribute_lines [] = pure []
    attribute_lines (chunk ∷ more) = do
      a ← git (check_attr chunk)
      throw_if (not (a.code == 0)) (refused "direct_codex_attribute_inspection_failed")
      rest ← attribute_lines more
      pure (
          select (λ line. not (is_blank line)) (map strip (splitlines (S.decode a.stdout))) ++ rest)

    unfoldable pub inspect_effective_attributes : M R (List String × String)
    inspect_effective_attributes = do
      a ← git inspect_paths
      throw_if (not (a.code == 0)) (refused "direct_codex_attribute_inspection_failed")
      let paths = select (λ path. not (is_blank path)) (split_on 0 (S.decode a.stdout))
      lines ← attribute_lines (chunks 128 paths)
      let normalized = sorted_set lines
      pure (normalized, S.sha256 (S.encode (join "\n" normalized)))

    abbrev pairs_json : List (String × String) → Fields
    pairs_json [] = end
    pairs_json ((k, v) ∷ rest) = field k (text v) (pairs_json rest)

    -- `snapshot_digest(snapshot.body())`
    unfoldable pub snapshot_digest : CanonicalizationSnapshot → String
    snapshot_digest s = S.sha256 (
        S.encode (
          S.dumps (
            object (
              field "version" (number s.version) (
                field "scalars" (object (pairs_json s.scalars)) (
                  field "info_attributes_empty" (flag s.info_attributes_empty) (
                    field "expected_attribute_digest" (text s.expected_attribute_digest) (
                      field "versioned_gitattributes_digest" (text s.versioned_gitattributes_digest)
                        (field "expected_remote_sha" (text s.expected_remote_sha) (
                          field "inspection_index_digest" (text s.inspection_index_digest)
                            end))))))))))

    unfoldable pub revalidate_canonicalization : CanonicalizationSnapshot → M R (Unit {0})
    revalidate_canonicalization persisted = do
      throw_if (not (persisted.digest == snapshot_digest persisted))
          (refused "direct_codex_snapshot_readback_mismatch")
      empty ← info_attributes_empty
      throw_if (not empty) (refused "direct_codex_info_attributes_not_empty")
      scalars ← read_normalization_scalars
      throw_if (not (same_scalars scalars persisted.scalars))
          (refused "direct_codex_snapshot_drift")
      index_digest ← seed_inspection_index persisted.expected_remote_sha
      throw_if (not (index_digest == persisted.inspection_index_digest))
          (refused "direct_codex_snapshot_drift")
      (lines, attribute_digest) ← inspect_effective_attributes
      lift (reject_custom_filters lines)
      throw_if (not (attribute_digest == persisted.expected_attribute_digest))
          (refused "direct_codex_snapshot_drift")
