-- ===== src/Pending/Replayed.antt =====
-- A recorded result is yielded by the next drain, unless it has expired or the drain raises before.
use sentinelx_cloud_core.Base.{
  ℕ, ◌+◌, String, Bool, true, false, ◌==◌, ◌≡◌, refl, sym, ap, ◌∙◌, arith, Option, none, some, List,
  [], ◌∷◌, contains, string_eq, eq_iff, ltb, if◌then◌else◌, inl, inr, ◌⊎◌, Bool-cases,
}
use sentinelx_cloud_core.Base.Dict.{lookup, lookup-insert}
use sentinelx_cloud_core.Base.Text.{insert_by, sort_by}
use sentinelx_cloud_core.Pending.{
  Drained, Disk, no_directory, no_write, write_event, PendingFile, holds, unreadable, Directory,
  names, unlink, listing, writes, pending_ttl_seconds, drain_step, drain_loop, drain,
}
use mathlib.Core.Option.{some-injective}

contains-insert_by :
    (x y : String) (ys : List String) → contains (insert_by (λ t. t) x ys) y ≡ contains (x ∷ ys) y
unfolding insert_by
contains-insert_by x y [] = refl
contains-insert_by x y (z ∷ ys) = ground (arith, contains-insert_by x y ys)

contains-sort_by :
    (y : String) (xs : List String) → contains (sort_by (λ t. t) xs) y ≡ contains xs y
unfolding sort_by
contains-sort_by y [] = refl
contains-sort_by y (x ∷ xs) =
    ground (arith, contains-insert_by x y (sort_by (λ t. t) xs), contains-sort_by y xs)

contains-rest :
    (t name : String) (ts : List String)
    → t == name ≡ false
    → contains (t ∷ ts) name ≡ true
    → contains ts name ≡ true
contains-rest t name ts e c = ground (arith, eq_iff t name, eq_iff name t)

module _ {E : Type 0} (removable : String → Bool) where
  written :
      (disk : Disk) (at : ℕ) (name found : String) (event : E) (room : Bool × Directory E)
      (d' : Directory E)
      → write_event removable disk at name event room ≡ (some found, d')
      → lookup found d' ≡ some (holds at event)
  written no_directory at name found event (b, d) d' e = cc
  written no_write at name found event (b, d) d' e = cc
  written writes at name found event (false, d) d' e = cc
  written writes at name found event (true, d) d' e =
      let same = (eq_iff name found).1 (some-injective name found (ap (λ r. r.0) e)) in
      ap (λ r. lookup found r) (sym (ap (λ r. r.1) e))
      ∙ (lookup-insert name found (holds at event) d
          ∙ ap (λ b. if b then some (holds at event) else lookup found d) same)

  lookup-unlink :
      (t name : String) (d : Directory E)
      → t == name ≡ false
      → lookup name (unlink t d) ≡ lookup name d
  unfolding unlink lookup
  lookup-unlink t name [] h = refl
  lookup-unlink t name ((j, v) ∷ d) h =
      ground (arith, lookup-unlink t name d, eq_iff j t, eq_iff j name, eq_iff t name)

  contains-names :
      (name : String) (v : PendingFile E) (d : Directory E)
      → lookup name d ≡ some v
      → contains (names d) name ≡ true
  unfolding lookup
  contains-names name v [] h = cc
  contains-names name v ((j, w) ∷ d) h =
      ground (arith, contains-names name v d, eq_iff j name, eq_iff name j)

  module _ (now at : ℕ) (name : String) (event : E)
      (fresh : ltb (at + pending_ttl_seconds) now ≡ false) where
    abbrev Waits : Directory E → Type 0
    Waits d = lookup name d ≡ some (holds at event)

    abbrev Yields : Drained E → Type 0
    Yields r = (lookup name r.events ≡ some event) ⊎ (r.finished ≡ false)

    -- The step of a file that waits.
    step-own :
        (removed kept : Drained E)
        → drain_step removable now name (some (holds at event)) removed kept
          ≡ record kept { events = (name, event) ∷ kept.events }
    step-own removed kept = rw fresh refl

    -- Of two ways to go on after another file, one is taken.
    step-Waits :
        (t : String) (o : Option (PendingFile E)) (removed kept : Drained E)
        → Waits removed.directory
        → Waits kept.directory
        → Waits (drain_step removable now t o removed kept).directory
    step-Waits t none removed kept r k = r
    step-Waits t (some unreadable) removed kept r k = r
    step-Waits t (some (holds a e)) removed kept r k =
        elim (Bool-cases (ltb (a + pending_ttl_seconds) now)) [ inl b ↦ rw b r | inr b ↦ rw b k ]

    later :
        (t : String) (e : E) (kept : Drained E)
        → t == name ≡ false
        → Yields kept
        → Yields (record kept { events = (t, e) ∷ kept.events })
    unfolding lookup
    later t e kept n (inl y) = inl (rw n y)
    later t e kept n (inr y) = inr y

    step-Yields :
        (t : String) (o : Option (PendingFile E)) (removed kept : Drained E)
        → t == name ≡ false
        → Yields removed
        → Yields kept
        → Yields (drain_step removable now t o removed kept)
    step-Yields t none removed kept n r k = r
    step-Yields t (some unreadable) removed kept n r k = r
    step-Yields t (some (holds a e)) removed kept n r k =
        elim (Bool-cases (ltb (a + pending_ttl_seconds) now)) [
          | inl b ↦ rw b r
          | inr b ↦ rw b (later t e kept n k)
        ]

    own_file :
        (t : String) (d : Directory E)
        → t == name ≡ true
        → Waits d
        → lookup t d ≡ some (holds at event)
    own_file t d e w = ap (λ x. lookup x d) ((eq_iff t name).0 e) ∙ w

    removal-Waits :
        (b : Bool) (rest : Drained E) (d : Directory E)
        → Waits rest.directory
        → Waits d
        → Waits
            (if b then rest else record { events = []; finished = false; directory = d }).directory
    removal-Waits true rest d r w = r
    removal-Waits false rest d r w = w

    removal-Yields :
        (b : Bool) (rest : Drained E) (d : Directory E)
        → Yields rest
        → Yields (if b then rest else record { events = []; finished = false; directory = d })
    removal-Yields true rest d r = r
    removal-Yields false rest d r = inr refl

    loop-Waits :
        (ts : List String) (d : Directory E)
        → Waits d
        → Waits (drain_loop removable now ts d).directory
    unfolding drain_loop
    loop-Waits [] d w = w
    loop-Waits (t ∷ ts) d w = elim (Bool-cases (t == name)) [
      | inl e ↦ rw (own_file t d e w, fresh) (loop-Waits ts d w)
      | inr e ↦
          step-Waits t (lookup t d) _ _
            (removal-Waits (removable t) _ d
              (loop-Waits ts (unlink t d) (lookup-unlink t name d e ∙ w)) w)
            (loop-Waits ts d w)
    ]

    loop-Yields :
        (ts : List String) (d : Directory E)
        → Waits d
        → contains ts name ≡ true
        → Yields (drain_loop removable now ts d)
    unfolding drain_loop lookup
    loop-Yields [] d w c = cc
    loop-Yields (t ∷ ts) d w c = elim (Bool-cases (t == name)) [
      | inl e ↦ inl (rw (own_file t d e w, fresh, e) refl)
      | inr e ↦
          let more = contains-rest t name ts e c in
          step-Yields t (lookup t d) _ _ e
            (removal-Yields (removable t) _ d
              (loop-Yields ts (unlink t d) (lookup-unlink t name d e ∙ w) more))
            (loop-Yields ts d w more)
    ]

    pub drain-Waits :
        (d : Directory E)
        → Waits d
        → Yields (drain removable now d) × Waits (drain removable now d).directory
    unfolding drain listing
    drain-Waits d w = (
      loop-Yields (sort_by (λ t. t) (names d)) d w
          (contains-sort_by name (names d) ∙ contains-names name (holds at event) d w),
      loop-Waits (sort_by (λ t. t) (names d)) d w,
    )
