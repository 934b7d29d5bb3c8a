-- ===== src/Pending/Bounded.antt =====
-- The directory of pending results is within its bound when a result is recorded.
use sentinelx_cloud_core.Base.{
  ℕ, zero, suc, ◌+◌, ◌-◌, ◌≤◌, ◌<◌, String, Bool, true, false, not, ◌==◌, ◌≡◌, refl, sym, ap, ◌∙◌,
  arith, List, [], ◌∷◌, contains, string_eq, eq_iff, leb, leb→le, inl, inr, ◌⊎◌, Option, none,
  Bool-cases,
}
use sentinelx_cloud_core.Base.Dict.{insert}
use sentinelx_cloud_core.Base.Lists.{length, take, drop, select, all}
use sentinelx_cloud_core.Base.Text.{insert_by, sort_by}
use Prim.Native.String.{◌++◌ as ◌<>◌}
use sentinelx_cloud_core.Pending.{
  safe_name, PendingFile, Directory, names, unlink, unlink_all, listing, make_room, record_event,
  Disk, write_event, no_directory, no_write, writes, holds, max_pending_files,
}

-- Insertion and sorting keep how many elements pass a test.
count-insert_by :
    (p : String → Bool) (x : String) (ys : List String)
    → length (select p (insert_by (λ t. t) x ys)) ≡ length (select p (x ∷ ys))
unfolding insert_by
count-insert_by p x [] = refl
count-insert_by p x (y ∷ ys) = ground (arith, count-insert_by p x ys)

count-sort_by :
    (p : String → Bool) (xs : List String)
    → length (select p (sort_by (λ t. t) xs)) ≡ length (select p xs)
unfolding sort_by
count-sort_by p [] = refl
count-sort_by p (x ∷ xs) =
    ground (arith, count-insert_by p x (sort_by (λ t. t) xs), count-sort_by p xs)

leb-false : (n : ℕ) → leb max_pending_files n ≡ false → n < max_pending_files
leb-false n e = ground arith

count-all : (p : String → Bool) (xs : List String) → length (select p xs) ≤ length xs
count-all p [] = omega arith
count-all p (x ∷ xs) = ground (arith, count-all p xs)

length-drop : (n : ℕ) (xs : List String) → length (drop n xs) ≡ length xs - n
length-drop zero xs = omega arith
length-drop (suc n) [] = omega arith
length-drop (suc n) (x ∷ xs) = omega (arith, length-drop n xs)

-- The names that are not in a list.
abbrev outside : List String → String → Bool
outside t x = not (contains t x)

contains-more :
    (t : String) (ts xs : List String)
    → all (contains ts) xs ≡ true
    → all (contains (t ∷ ts)) xs ≡ true
contains-more t ts [] h = refl
contains-more t ts (x ∷ xs) h = ground (arith, contains-more t ts xs)

contains_self : (xs : List String) → all (contains xs) xs ≡ true
contains_self [] = refl
contains_self (x ∷ xs) = ground (arith, eq_iff x x, contains-more x xs xs (contains_self xs))

count-outside :
    (t : List String) (n : ℕ) (xs : List String)
    → all (contains t) (take n xs) ≡ true
    → length (select (outside t) xs) ≤ length (drop n xs)
count-outside t zero xs h = count-all (outside t) xs
count-outside t (suc n) [] h = omega arith
count-outside t (suc n) (x ∷ xs) h = ground (arith, count-outside t n xs)

contains-take : (n : ℕ) (xs : List String) → all (contains (take n xs)) (take n xs) ≡ true
contains-take n xs = contains_self (take n xs)

select-twice :
    (t : String) (ts xs : List String)
    → select (outside ts) (select (λ x. not (x == t)) xs) ≡ select (outside (t ∷ ts)) xs
select-twice t ts [] = refl
select-twice t ts (x ∷ xs) = elim (Bool-cases (x == t)) [
  | inl a ↦ rw a (select-twice t ts xs)
  | inr a ↦ elim (Bool-cases (contains ts x)) [
    | inl b ↦ rw (a, b) (select-twice t ts xs)
    | inr b ↦ rw (a, b) (ap (λ l. x ∷ l) (select-twice t ts xs))
  ]
]

select-all : (xs : List String) → select (outside []) xs ≡ xs
select-all [] = refl
select-all (x ∷ xs) = ap (λ l. x ∷ l) (select-all xs)

length-listing : {E : Type 0} (d : Directory E) → length (listing d) ≡ length (names d)
unfolding listing
length-listing d =
    ap length (sym (select-all (sort_by (λ t. t) (names d))))
    ∙ (count-sort_by (outside []) (names d) ∙ ap length (select-all (names d)))

module _ {E : Type 0} where
  length-names : (d : Directory E) → length (names d) ≡ length d
  length-names [] = refl
  length-names ((name, file) ∷ d) = omega (arith, length-names d)

  names-unlink :
      (t : String) (d : Directory E) → names (unlink t d) ≡ select (λ x. not (x == t)) (names d)
  unfolding unlink
  names-unlink t [] = refl
  names-unlink t ((name, file) ∷ d) = elim (Bool-cases (name == t)) [
    | inl e ↦ rw e (names-unlink t d)
    | inr e ↦ rw e (ap (λ l. name ∷ l) (names-unlink t d))
  ]

  -- The directory without the files of a list.
  abbrev without : List String → Directory E → Directory E
  without [] d = d
  without (t ∷ ts) d = without ts (unlink t d)

  names-without :
      (ts : List String) (d : Directory E) → names (without ts d) ≡ select (outside ts) (names d)
  names-without [] d = sym (select-all (names d))
  names-without (t ∷ ts) d =
      names-without ts (unlink t d)
      ∙ (ap (select (outside ts)) (names-unlink t d) ∙ select-twice t ts (names d))

  length-unlinked :
      (n : ℕ) (d : Directory E) → length (without (take n (listing d)) d) ≤ length (listing d) - n
  unfolding listing
  length-unlinked n d =
      let s = sort_by (λ t. t) (names d) in
      let t = take n s in
      omega (
        arith,
        length-names (without t d),
        ap length (names-without t d),
        count-sort_by (outside t) (names d),
        count-outside t n s (contains-take n s),
        length-drop n s,
      )

  length-unlink : (t : String) (d : Directory E) → length (unlink t d) ≤ length d
  unfolding unlink
  length-unlink t [] = omega arith
  length-unlink t ((name, file) ∷ d) = ground (arith, length-unlink t d)

  module _ (removable : String → Bool) where
    -- Removals that all succeed, or a directory that has not grown.
    unlink_all-without :
        (ts : List String) (d : Directory E)
        → (unlink_all removable ts d ≡ (true, without ts d))
          ⊎ (((unlink_all removable ts d).0 ≡ false)
              × (length (unlink_all removable ts d).1 ≤ length d))
    unfolding unlink_all
    unlink_all-without [] d = inl refl
    unlink_all-without (t ∷ ts) d = elim (Bool-cases (removable t)) [
      | inr e ↦ inr (rw e (refl, omega arith))
      | inl e ↦ elim (unlink_all-without ts (unlink t d)) [
        | inl k ↦ inl (rw e k)
        | inr (k, l) ↦ inr (rw e (k, omega (arith, l, length-unlink t d)))
      ]
    ]

    abbrev Roomy : Bool × Directory E → Directory E → Type 0
    Roomy room d =
        (length room.1 < max_pending_files) ⊎ ((room.0 ≡ false) × (length room.1 ≤ length d))

    make_room-Roomy : (d : Directory E) → Roomy (make_room removable d) d
    unfolding make_room
    make_room-Roomy d = elim (Bool-cases (leb max_pending_files (length (listing d)))) [
      | inl e ↦
          rw e
            (elim (unlink_all-without
              (take (length (listing d) - max_pending_files + 1) (listing d)) d) [
                | inl k ↦ inl (
                    rw k (
                      omega (
                        arith,
                        leb→le max_pending_files (length (listing d)) e,
                        length-unlinked (length (listing d) - max_pending_files + 1) d,
                      )))
                | inr k ↦ inr k
              ])
      | inr e ↦
          inl (
            rw e
              (omega (arith, leb-false (length (listing d)) e, length-listing d, length-names d)))
    ]

  length-insert :
      (k : String) (v : PendingFile E) (d : Directory E) → length (insert k v d) ≤ suc (length d)
  unfolding insert
  length-insert k v [] = omega arith
  length-insert k v ((j, w) ∷ d) = ground (arith, length-insert k v d)

  -- Either the directory is within its bound, or nothing was written and it has not grown.
  abbrev pub IsBounded : Option String × Directory E → Directory E → Type 0
  IsBounded after d =
      (length after.1 ≤ max_pending_files) ⊎ ((after.0 ≡ none) × (length after.1 ≤ length d))

  written-IsBounded :
      (removable : String → Bool) (disk : Disk) (now : ℕ) (name : String) (event : E)
      (room : Bool × Directory E) (d : Directory E)
      → Roomy removable room d
      → IsBounded (write_event removable disk now name event room) d
  written-IsBounded removable no_directory now name event (b, r) d (inl k) = inl (omega (arith, k))
  written-IsBounded removable no_directory now name event (b, r) d (inr (e, k)) = inr (refl, k)
  written-IsBounded removable no_write now name event (b, r) d (inl k) = inl (omega (arith, k))
  written-IsBounded removable no_write now name event (b, r) d (inr (e, k)) = inr (refl, k)
  written-IsBounded removable writes now name event (false, r) d (inl k) = inl (omega (arith, k))
  written-IsBounded removable writes now name event (false, r) d (inr (e, k)) = inr (refl, k)
  written-IsBounded removable writes now name event (true, r) d (inl k) =
      inl (omega (arith, k, length-insert name (holds now event) r))
  written-IsBounded removable writes now name event (true, r) d (inr (e, k)) = cc

  -- However many results the directory holds before, whichever files cannot be removed, and whether
  -- the result can be written or not, after `record` the directory holds at most MAX_PENDING_FILES
  -- results, unless `record` returned None: then it may hold more, but not more than before.
  pub record_event-IsBounded :
      (removable : String → Bool) (is_alnum : ℕ → Bool) (disk : Disk) (now : ℕ) (job_id : String)
      (event : E) (d : Directory E)
      → IsBounded (record_event removable is_alnum disk now job_id event d) d
  unfolding record_event
  record_event-IsBounded removable is_alnum no_directory now job_id event d =
      inr (refl, omega arith)
  record_event-IsBounded removable is_alnum no_write now job_id event d =
      written-IsBounded removable no_write now (safe_name is_alnum job_id <> ".json") event _ d
        (make_room-Roomy removable d)
  record_event-IsBounded removable is_alnum writes now job_id event d =
      written-IsBounded removable writes now (safe_name is_alnum job_id <> ".json") event _ d
        (make_room-Roomy removable d)
