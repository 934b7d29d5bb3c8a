-- ===== src/Pending/Named.antt =====
-- The file name that a job's identifier gives.
use sentinelx_cloud_core.Base.{
  ℕ, zero, suc, ◌≤◌, String, Bool, true, false, ◌||◌, ◌==◌, ◌≡◌, refl, arith, inl, inr, Bool-cases,
  nat_eq,
}
use sentinelx_cloud_core.Base.Lists.{all}
use sentinelx_cloud_core.Base.Text.{char_count, take_chars, codes, is_blank}
use Prim.Native.Char.{code}
use sentinelx_cloud_core.Pending.{kept_chars, safe_name}

char_count-take_chars : (n : ℕ) (s : String) → char_count (take_chars n s) ≤ n
unfolding char_count take_chars
char_count-take_chars zero s = omega arith
char_count-take_chars (suc n) String.[] = omega arith
char_count-take_chars (suc n) (String.◌∷◌ c s) = omega (arith, char_count-take_chars n s)

all-take_chars :
    (p : ℕ → Bool) (n : ℕ) (s : String)
    → all p (codes s) ≡ true
    → all p (codes (take_chars n s)) ≡ true
unfolding take_chars
all-take_chars p zero s h = refl
all-take_chars p (suc n) String.[] h = refl
all-take_chars p (suc n) (String.◌∷◌ c s) h = ground (arith, all-take_chars p n s)

unnamed-count : char_count "unnamed" ≤ 64
unfolding char_count
unnamed-count = omega arith

module _ (is_alnum : ℕ → Bool) where
  -- A character that may stand in a file name.
  abbrev pub is_safe : ℕ → Bool
  is_safe c = is_alnum c || (c == 0x2d || c == 0x5f)

  kept_chars-all : (s : String) → all is_safe (codes (kept_chars is_alnum s)) ≡ true
  unfolding kept_chars
  kept_chars-all String.[] = refl
  kept_chars-all (String.◌∷◌ c s) = elim (Bool-cases (is_safe (code c))) [
    | inl e ↦ rw (e, e) (kept_chars-all s)
    | inr e ↦ rw e (kept_chars-all s)
  ]

  unnamed-all :
      ((c : ℕ) → 0x61 ≤ c → c ≤ 0x7a → is_alnum c ≡ true) → all is_safe (codes "unnamed") ≡ true
  unnamed-all letters =
      let u = letters 0x75 (omega arith) (omega arith) in
      let n = letters 0x6e (omega arith) (omega arith) in
      let a = letters 0x61 (omega arith) (omega arith) in
      let m = letters 0x6d (omega arith) (omega arith) in
      let e = letters 0x65 (omega arith) (omega arith) in
      let d = letters 0x64 (omega arith) (omega arith) in rw (u, n, a, m, e, d) refl

  -- Where the small letters count as alphanumeric, the name that `_safe_name` gives any identifier
  -- holds at most 64 characters, all of them alphanumeric, `-` or `_`, and at least one.
  pub safe_name-all :
      (letters : (c : ℕ) → 0x61 ≤ c → c ≤ 0x7a → is_alnum c ≡ true) (job_id : String)
      → (all is_safe (codes (safe_name is_alnum job_id)) ≡ true)
        × (char_count (safe_name is_alnum job_id) ≤ 64)
        × (is_blank (safe_name is_alnum job_id) ≡ false)
  unfolding safe_name
  safe_name-all letters job_id =
      let keep = take_chars 64 (kept_chars is_alnum job_id) in
      elim (Bool-cases (is_blank keep)) [
        | inl e ↦ rw e (unnamed-all letters, unnamed-count, refl)
        | inr e ↦ rw e (
          all-take_chars is_safe 64 (kept_chars is_alnum job_id) (kept_chars-all job_id),
          char_count-take_chars 64 (kept_chars is_alnum job_id),
          e,
        )
      ]
