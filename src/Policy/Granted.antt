-- ===== src/Policy/Granted.antt =====
-- Which paths the allowlist resolves.
use mathlib.Core.Path.{subst}
use mathlib.Core.Option.{some-injective}
use sentinelx_cloud_core.Base.{
  String, Bool, true, false, not, ◌&&◌, ◌||◌, ◌==◌, ◌≡◌, ◌↔◌, ◌⊎◌, refl, sym, ap, ◌∙◌, arith,
  Option, none, some, List, [], ◌∷◌, string_eq, list_eq, list_beq_iff, eq_iff, if◌then◌else◌, inl,
  inr, Bool-cases,
}
use sentinelx_cloud_core.Base.Text.{is_blank}
use sentinelx_cloud_core.Host.{FilePath}
use sentinelx_cloud_core.Placement.{is_relative_to}
use sentinelx_cloud_core.Policy.Paths.{FileOpsPath, under, first_grant, grant_for, resolve_path}

is_relative_to_self : (p : FilePath) → is_relative_to p p ≡ true
unfolding is_relative_to
is_relative_to_self [] = refl
is_relative_to_self (x ∷ p) = rw ((eq_iff x x).1 refl) (is_relative_to_self p)

-- One round of the loop grants the candidate, or leaves it to the rest.
granted :
    (skip fits : Bool) (rest : Option FilePath) (c d : FilePath)
    → (if skip then rest else if fits then some c else rest) ≡ some d
    → ((skip ≡ false) × (fits ≡ true) × (d ≡ c)) ⊎ (rest ≡ some d)
granted true fits rest c d h = inr h
granted false true rest c d h = inl (refl, refl, sym (some-injective c d h))
granted false false rest c d h = inr h

left_to_rest :
    (skip fits : Bool) (rest : Option FilePath) (c : FilePath)
    → rest ≡ some c
    → (if skip then rest else if fits then some c else rest) ≡ some c
left_to_rest true fits rest c h = h
left_to_rest false true rest c h = refl
left_to_rest false false rest c h = h

access_fits : (w : Bool) (s : String) → (w ≡ true → s ≡ "rw") → (w && not (s == "rw")) ≡ false
access_fits true s k = rw ((eq_iff s "rw").1 (k refl)) refl
access_fits false s k = refl

fits_access : (w : Bool) (s : String) → (w && not (s == "rw")) ≡ false → w ≡ true → s ≡ "rw"
fits_access true s e t = (eq_iff s "rw").0 (ground (arith, e))
fits_access false s e t = cc

named :
    (b : Bool) (o : Option FilePath) (c : FilePath) → (if b then none else o) ≡ some c → o ≡ some c
named true o c h = cc
named false o c h = h

either : (a b : Bool) → b ≡ true → (a || b) ≡ true
either a b e = ground arith

module _ (resolve : String → Option FilePath) where
  -- Some entry, with the access that is needed, resolves to a prefix of the path.
  pub data Grants (need_write : Bool) (c : FilePath) : List FileOpsPath → Type 0 where
    here :
        {e : FileOpsPath} {es : List FileOpsPath} {root : FilePath}
        → (need_write ≡ true → e.access ≡ "rw")
        → resolve e.path ≡ some root
        → is_relative_to c root ≡ true
        → Grants need_write c (e ∷ es)
    there :
        {e : FileOpsPath} {es : List FileOpsPath}
        → Grants need_write c es
        → Grants need_write c (e ∷ es)

  under-root :
      (c : FilePath) (o : Option FilePath)
      → under resolve c o ≡ true
      → (root : FilePath) × (o ≡ some root) × (is_relative_to c root ≡ true)
  under-root c none h = cc
  under-root c (some root) h = elim (Bool-cases (c == root)) [
    | inl e ↦ (
      root,
      refl,
      ap (λ r. is_relative_to c r) (sym ((list_beq_iff c root).0 e)) ∙ is_relative_to_self c,
    )
    | inr e ↦ (root, refl, ground (arith, e, h))
  ]

  first_grant-Grants :
      (es : List FileOpsPath) (w : Bool) (c d : FilePath)
      → first_grant resolve es w c ≡ some d
      → (d ≡ c) × Grants w c es
  unfolding first_grant
  first_grant-Grants [] w c d h = cc
  first_grant-Grants (e ∷ es) w c d h =
      elim (granted (w && not (e.access == "rw")) (under resolve c (resolve e.path)) _ c d h) [
        | inl (access, fits, same) ↦
            let (root, found, below) = under-root c (resolve e.path) fits in
            (same, here (fits_access w e.access access) found below)
        | inr rest ↦ let (same, grant) = first_grant-Grants es w c d rest in (same, there grant)
      ]

  Grants-first_grant :
      (es : List FileOpsPath) (w : Bool) (c : FilePath)
      → Grants w c es
      → first_grant resolve es w c ≡ some c
  unfolding first_grant
  Grants-first_grant [] w c g = elim g [ ]
  Grants-first_grant (e ∷ es) w c (here {root = root} a r p) =
      rw (access_fits w e.access a, r, either (c == root) (is_relative_to c root) p) refl
  Grants-first_grant (e ∷ es) w c (there g) =
      left_to_rest (w && not (e.access == "rw")) (under resolve c (resolve e.path))
        (first_grant resolve es w c) c (Grants-first_grant es w c g)

  grant_for-some :
      (es : List FileOpsPath) (w : Bool) (o : Option FilePath) (c : FilePath)
      → grant_for resolve es w o ≡ some c
      → (o ≡ some c) × Grants w c es
  grant_for-some es w none c h = cc
  grant_for-some es w (some d) c h =
      let (same, grant) = first_grant-Grants es w d c h in
      (ap some (sym same), subst (λ x. Grants w x es) (sym same) grant)

  resolved :
      (es : List FileOpsPath) (path : String) (w : Bool) (c : FilePath)
      → resolve_path resolve es path w ≡ some c
      → (is_blank path ≡ false) × (resolve path ≡ some c) × Grants w c es
  unfolding resolve_path
  resolved [] path w c h = cc
  resolved (e ∷ es) path w c h = elim (Bool-cases (is_blank path)) [
    | inl b ↦ cc
    | inr b ↦
        let (r, g) = grant_for-some (e ∷ es) w (resolve path) c (named (is_blank path) _ c h) in
        (b, r, g)
  ]

  resolves :
      (es : List FileOpsPath) (path : String) (w : Bool) (c : FilePath)
      → (is_blank path ≡ false) × (resolve path ≡ some c) × Grants w c es
      → resolve_path resolve es path w ≡ some c
  unfolding resolve_path
  resolves [] path w c (b, r, g) = elim g [ ]
  resolves (e ∷ es) path w c (b, r, g) = rw (b, r) (Grants-first_grant (e ∷ es) w c g)

  -- `resolve_path` returns `c` exactly when the path is not empty, resolves to `c`, and some entry
  -- of the allowlist, with access "rw" when a write is needed, resolves to a prefix of `c`: no
  -- other entry, before or after that one, takes the access away.
  pub resolve_path_iff :
      (es : List FileOpsPath) (path : String) (w : Bool) (c : FilePath)
      → (resolve_path resolve es path w ≡ some c)
        ↔ ((is_blank path ≡ false) × (resolve path ≡ some c) × Grants w c es)
  resolve_path_iff es path w c = (resolved es path w c, resolves es path w c)

  Grants-read : (es : List FileOpsPath) (c : FilePath) → Grants true c es → Grants false c es
  Grants-read [] c g = elim g [ ]
  Grants-read (e ∷ es) c (here a r p) = here (λ t. cc) r p
  Grants-read (e ∷ es) c (there g) = there (Grants-read es c g)

  -- A path that may be written may be read, at the same place.
  pub resolve_path-read :
      (es : List FileOpsPath) (path : String) (c : FilePath)
      → resolve_path resolve es path true ≡ some c
      → resolve_path resolve es path false ≡ some c
  resolve_path-read es path c h =
      let (b, r, g) = resolved es path true c h in
      resolves es path false c (b, r, Grants-read es c g)
