-- ===== src/Exec/Segments.antt =====
-- The segments of a command hold all of its text, in order.
use sentinelx_cloud_core.Base.{
  ℕ, Bool, true, false, not, ◌&&◌, ◌||◌, ◌==◌, nat_eq, ◌≡◌, refl, sym, ap, ◌∙◌, arith,
}
use sentinelx_cloud_core.Base.{
  Option, none, some, List, [], ◌∷◌, ◌++◌, map, if◌then◌else◌, Bool-cases, inl, inr,
}
use sentinelx_cloud_core.Base.Lists.{select, is_empty}
use sentinelx_cloud_core.Base.Text.{is_space}
use sentinelx_cloud_core.Exec.{
  Text, lstrip, rstrip, strip, Move, push, push_two, cut, cut_two, split_move, split_from,
  split_top_level,
}

-- `;`, `|`, `&` and white space.
abbrev pub is_separator : ℕ → Bool
is_separator c = is_space c || c == 0x3b || c == 0x7c || c == 0x26

-- The characters that are neither separators nor white space.
unfoldable pub letters : Text → Text
letters [] = []
letters (c ∷ s) = let rest = letters s in if is_separator c then rest else c ∷ rest

-- The letters of the segments, one segment after the other.
unfoldable pub segment_letters : List Text → Text
segment_letters [] = []
segment_letters (s ∷ rest) = letters s ++ segment_letters rest

++-assoc : (xs ys zs : Text) → (xs ++ ys) ++ zs ≡ xs ++ (ys ++ zs)
++-assoc [] ys zs = refl
++-assoc (x ∷ xs) ys zs = ap (λ t. x ∷ t) (++-assoc xs ys zs)

++-nil : (xs : Text) → xs ++ [] ≡ xs
++-nil [] = refl
++-nil (x ∷ xs) = ap (λ t. x ∷ t) (++-nil xs)

letters-append : (xs ys : Text) → letters (xs ++ ys) ≡ letters xs ++ letters ys
unfolding letters
letters-append [] ys = refl
letters-append (x ∷ xs) ys = elim (Bool-cases (is_separator x)) [
  | inl e ↦ rw e (letters-append xs ys)
  | inr e ↦ rw e (ap (λ t. x ∷ t) (letters-append xs ys))
]

letters-separator : (c : ℕ) (s : Text) → is_separator c ≡ true → letters (c ∷ s) ≡ letters s
unfolding letters
letters-separator c s e = rw e

-- Where the loop cuts, it drops separators alone.
split_move-cut : (q next : Option ℕ) (c : ℕ) → split_move q c next ≡ cut → is_separator c ≡ true
unfolding split_move is_space
split_move-cut q next c e = ground arith

split_move-cut_two :
    (q : Option ℕ) (c d : ℕ)
    → split_move q c (some d) ≡ cut_two
    → (is_separator c ≡ true) × (is_separator d ≡ true)
unfolding split_move is_space
split_move-cut_two q c d e = ground arith

Move-cases :
    (P : Type 0) (m : Move)
    → ((q : Option ℕ) → m ≡ push q → P)
    → (m ≡ push_two → P)
    → (m ≡ cut → P)
    → (m ≡ cut_two → P)
    → P
Move-cases P (push q) a b c d = a q refl
Move-cases P push_two a b c d = b refl
Move-cases P cut a b c d = c refl
Move-cases P cut_two a b c d = d refl

split_move-last : (q : Option ℕ) (c : ℕ) → (split_move q c none ≡ cut_two) → ⊥
unfolding split_move
split_move-last q c e = ground arith

buffered :
    (buf s rest : Text) → letters (buf ++ s) ++ letters rest ≡ letters buf ++ letters (s ++ rest)
buffered buf s rest =
    ap (λ t. t ++ letters rest) (letters-append buf s)
    ∙ (++-assoc (letters buf) (letters s) (letters rest)
        ∙ ap (λ t. letters buf ++ t) (sym (letters-append s rest)))

split_from-letters :
    (q : Option ℕ) (buf cs : Text)
    → segment_letters (split_from q buf cs) ≡ letters buf ++ letters cs
unfolding split_from segment_letters letters
split_from-letters q buf [] = refl
split_from-letters q buf (c ∷ []) =
    Move-cases _ (split_move q c none)
      (λ q' e. rw (e, segment_letters) (++-nil _ ∙ letters-append buf (c ∷ [])))
      (λ e. rw (e, segment_letters) (++-nil _ ∙ letters-append buf (c ∷ [])))
      (λ e.
        rw (e, segment_letters)
          (ap (λ t. letters buf ++ t) (sym (letters-separator c [] (split_move-cut q none c e)))))
      (λ e. absurd (split_move-last q c e))
split_from-letters q buf (c ∷ d ∷ rest) =
    Move-cases _ (split_move q c (some d))
      (λ q' e.
        rw (e, segment_letters)
          (split_from-letters q' (buf ++ c ∷ []) (d ∷ rest) ∙ buffered buf (c ∷ []) (d ∷ rest)))
      (λ e.
        rw (e, segment_letters)
          (split_from-letters q (buf ++ c ∷ d ∷ []) rest ∙ buffered buf (c ∷ d ∷ []) rest))
      (λ e.
        rw (e, segment_letters)
          (ap (λ t. letters buf ++ t)
            (split_from-letters none [] (d ∷ rest)
              ∙ sym (letters-separator c (d ∷ rest) (split_move-cut q (some d) c e)))))
      (λ e.
        let (sc, sd) = split_move-cut_two q c d e in
        rw (e, segment_letters)
          (ap (λ t. letters buf ++ t)
            (split_from-letters none [] rest
              ∙ (sym (letters-separator d rest sd) ∙ sym (letters-separator c (d ∷ rest) sc)))))

empty-letters : (s : Text) → is_empty s ≡ true → letters s ≡ []
unfolding letters
empty-letters [] e = refl
empty-letters (c ∷ s) e = cc

space-separator : (c : ℕ) → is_space c ≡ true → is_separator c ≡ true
space-separator c e = rw e refl

lstrip_step :
    (b : Bool) (c : ℕ) (s : Text)
    → letters (lstrip s) ≡ letters s
    → (b ≡ true → is_separator c ≡ true)
    → letters (if b then lstrip s else c ∷ s) ≡ letters (c ∷ s)
lstrip_step true c s e k = e ∙ sym (letters-separator c s (k refl))
lstrip_step false c s e k = refl

lstrip-letters : (s : Text) → letters (lstrip s) ≡ letters s
unfolding lstrip
lstrip-letters [] = refl
lstrip-letters (c ∷ s) = lstrip_step (is_space c) c s (lstrip-letters s) (space-separator c)

rstrip_step :
    (b : Bool) (c : ℕ) (s : Text)
    → letters (rstrip s) ≡ letters s
    → (b ≡ true → (is_empty (rstrip s) ≡ true) × (is_separator c ≡ true))
    → letters (if b then [] else c ∷ rstrip s) ≡ letters (c ∷ s)
unfolding letters
rstrip_step true c s e k =
    sym (empty-letters (rstrip s) (k refl).0) ∙ (e ∙ sym (letters-separator c s (k refl).1))
rstrip_step false c s e k = ap (λ t. if is_separator c then t else c ∷ t) e

both_true : (a b : Bool) → (a && b) ≡ true → (a ≡ true) × (b ≡ true)
both_true true true e = (refl, refl)
both_true true false e = cc
both_true false b e = cc

rstrip-letters : (s : Text) → letters (rstrip s) ≡ letters s
unfolding rstrip
rstrip-letters [] = refl
rstrip-letters (c ∷ s) = rstrip_step (is_empty (rstrip s) && is_space c) c s (rstrip-letters s) λ e.
    let (empty, space) = both_true (is_empty (rstrip s)) (is_space c) e in
    (empty, space-separator c space)

strip-letters : (s : Text) → letters (strip s) ≡ letters s
unfolding strip
strip-letters s = rstrip-letters (lstrip s) ∙ lstrip-letters s

-- Empty segments are dropped, and white space around the others.
stripped-letters :
    (pieces : List Text)
    → segment_letters (select (λ s. not (is_empty s)) (map strip pieces)) ≡ segment_letters pieces
unfolding segment_letters
stripped-letters [] = refl
stripped-letters (p ∷ pieces) = elim (Bool-cases (is_empty (strip p))) [
  | inl e ↦
      rw (e, segment_letters)
        (stripped-letters pieces
          ∙ ap (λ t. t ++ segment_letters pieces)
              (sym (empty-letters (strip p) e) ∙ strip-letters p))
  | inr e ↦
      rw (e, segment_letters)
        (ap (λ t. letters (strip p) ++ t) (stripped-letters pieces)
          ∙ ap (λ t. t ++ segment_letters pieces) (strip-letters p))
]

-- The segments that `split_top_level` returns hold, in order, every character of the command that
-- is neither white space nor one of `;`, `|` and `&`.
pub split_top_level-letters :
    (command : Text) → segment_letters (split_top_level command) ≡ letters command
unfolding split_top_level letters
split_top_level-letters command =
    stripped-letters (split_from none [] command) ∙ split_from-letters none [] command
