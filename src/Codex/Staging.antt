-- ===== src/Codex/Staging.antt =====
-- What the staging loop of `_write_tree` hands to `git add`: all paths, in order, by chunks.
use sentinelx_cloud_core.Base.{
  ℕ, zero, suc, ◌+◌, ◌*◌, ◌/◌, ◌≤◌, ◌<◌, String, ◌≡◌, refl, sym, ap, ◌∙◌, List, [], ◌∷◌, ◌++◌,
  arith, Bool, true, false, Option, none, some, nat_eq,
}
use sentinelx_cloud_core.Base.Lists.{length, take, drop}
use sentinelx_cloud_core.Base.Result.{ok}
use sentinelx_cloud_core.Codex.Site.{Failure, Site, Answer, CanonicalizationSnapshot}
use sentinelx_cloud_core.Codex.Command.{
  Command, ProviderState, stage, read_tree, write_tree, diff_tree,
}
use sentinelx_cloud_core.Codex.Journal.{JournalFile}
use sentinelx_cloud_core.Codex.Program.{removed, throw_if, World, M, ◌>>=◌, transport_git, unlink}
use sentinelx_cloud_core.Codex.Inventory.{WorktreeDelta, delta_paths}
use sentinelx_cloud_core.Codex.Canonical.{slices, chunks}
use sentinelx_cloud_core.Codex.Candidate.{
  max_stage_paths_per_call, stage_chunks, verify_candidate_tree, build_tree,
}
use sentinelx_cloud_core.Codex.Ends.{Ends, Ends-bind, Ends-exact, Ends-pure, Ends-throw_if}

-- The chunks, one after the other.
unfoldable pub concat : List (List String) → List String
concat [] = []
concat (chunk ∷ more) = chunk ++ concat more

take-drop : (n : ℕ) (xs : List String) → take n xs ++ drop n xs ≡ xs
take-drop zero xs = refl
take-drop (suc n) [] = refl
take-drop (suc n) (x ∷ xs) = ap (λ t. x ∷ t) (take-drop n xs)

drop-all : (n : ℕ) (xs : List String) → length xs ≤ n → drop n xs ≡ []
drop-all zero [] h = refl
drop-all zero (x ∷ xs) h = absurd (omega arith)
drop-all (suc n) [] h = refl
drop-all (suc n) (x ∷ xs) h = drop-all n xs (omega arith)

shifted : (m n : ℕ) → suc m + n ≡ suc (m + n)
shifted m n = omega arith

drop_nothing : (n : ℕ) → drop {A = String} n [] ≡ []
drop_nothing zero = refl
drop_nothing (suc n) = refl

drop-drop : (m n : ℕ) (xs : List String) → drop (m + n) xs ≡ drop n (drop m xs)
drop-drop zero n xs = ap (λ k. drop k xs) (omega arith)
drop-drop (suc m) n [] = drop_nothing (suc m + n) ∙ sym (drop_nothing n)
drop-drop (suc m) n (x ∷ xs) = ap (λ k. drop k (x ∷ xs)) (shifted m n) ∙ drop-drop m n xs

length-take : (n : ℕ) (xs : List String) → length (take n xs) ≤ n
length-take zero xs = omega arith
length-take (suc n) [] = omega arith
length-take (suc n) (x ∷ xs) = omega (arith, length-take n xs)

slice-filled :
    (n start : ℕ) (xs : List String) → start < length xs → 1 ≤ length (take (suc n) (drop start xs))
slice-filled n zero [] h = absurd (omega arith)
slice-filled n zero (x ∷ xs) h = omega arith
slice-filled n (suc start) [] h = absurd (omega arith)
slice-filled n (suc start) (x ∷ xs) h = slice-filled n start xs (omega arith)

-- Neither empty nor longer than a call of Git takes.
pub data AreChunks : List (List String) → Type 0 where
  done : AreChunks []
  chunk :
      {c : List String} {more : List (List String)}
      → 1 ≤ length c
      → length c ≤ max_stage_paths_per_call
      → AreChunks more
      → AreChunks (c ∷ more)

slices-concat :
    (rounds start : ℕ) (paths : List String)
    → length paths ≤ start + rounds * 128
    → concat (slices rounds start 128 paths) ≡ drop start paths
unfolding slices concat
slices-concat zero start paths h = sym (drop-all start paths (omega arith))
slices-concat (suc rounds) start paths h =
    ap (λ t. take 128 (drop start paths) ++ t)
      (slices-concat rounds (start + 128) paths (omega arith) ∙ drop-drop start 128 paths)
    ∙ take-drop 128 (drop start paths)

slices-AreChunks :
    (rounds start : ℕ) (paths : List String)
    → start + rounds * 128 < length paths + 128
    → AreChunks (slices rounds start 128 paths)
unfolding slices
slices-AreChunks zero start paths h = done
slices-AreChunks (suc rounds) start paths h =
    chunk (slice-filled 127 start paths (omega arith)) (length-take 128 (drop start paths))
      (slices-AreChunks rounds (start + 128) paths (omega arith))

-- The path lists of the `git add` calls, oldest first.
abbrev staged_by : Command → List (List String) → List (List String)
staged_by (stage paths) before = before ++ paths ∷ []
staged_by _ before = before

unfoldable pub stagings : List (Command × JournalFile) → List (List String)
stagings [] = []
stagings ((c, f) ∷ sent) = staged_by c (stagings sent)

append_nil : (xs : List (List String)) → xs ++ [] ≡ xs
append_nil [] = refl
append_nil (x ∷ xs) = ap (λ t. x ∷ t) (append_nil xs)

append_shift :
    (xs : List (List String)) (y : List String) (zs : List (List String))
    → (xs ++ y ∷ []) ++ zs ≡ xs ++ y ∷ zs
append_shift [] y zs = refl
append_shift (x ∷ xs) y zs = ap (λ t. x ∷ t) (append_shift xs y zs)

module _ {R : Type 0} (S : Site R) (state : ProviderState)
    (snapshot : CanonicalizationSnapshot) where
  abbrev Any : World R → Type 0
  Any v = Unit {0}

  -- After the program, such path lists were staged.
  abbrev Staged : List (List String) → {A : Type 0} → A → World R → Type 0
  Staged calls a v = stagings v.sent ≡ calls

  abbrev git : Command → M R Answer
  git = transport_git S state (some snapshot)

  removed-same : (o : Option R) (w : World R) → stagings (removed o w).1.sent ≡ stagings w.sent
  removed-same none w = refl
  removed-same (some r) w = refl

  -- A Git command, and the rest in the world that it leaves.
  after_git :
      {A : Type 0} (calls : List (List String)) (w : World R) (c : Command) (f : Answer → M R A)
      → ((a : Answer) (v : World R)
          → stagings v.sent ≡ staged_by c (stagings w.sent)
          → Ends (Staged calls) Any v (f a))
      → Ends (Staged calls) Any w (git c >>= f)
  unfolding transport_git stagings
  after_git calls w c f k =
      Ends-exact (Staged calls) Any w (git c) f (λ a _. k a (git c w).1 refl) (λ _ _. tt)

  throw_last-Staged :
      (calls : List (List String)) (w : World R) (b : Bool) (e : Failure)
      → stagings w.sent ≡ calls
      → Ends (Staged calls) Any w (throw_if b e)
  unfolding throw_if
  throw_last-Staged calls w true e k = record { returns = λ a q. k; raises = λ x q. tt }
  throw_last-Staged calls w false e k = record { returns = λ a q. k; raises = λ x q. tt }

  unlink-Staged :
      (path : String) (w : World R) → Ends (Staged (stagings w.sent)) Any w (unlink S path)
  unfolding unlink
  unlink-Staged path w = record {
    returns = λ a q. removed-same (S.unlink path w.repo) w;
    raises = λ x q. tt;
  }

  stage_chunks-Staged :
      (more : List (List String)) (calls : List (List String)) (w : World R)
      → stagings w.sent ++ more ≡ calls
      → Ends (Staged calls) Any w (stage_chunks S state snapshot more)
  unfolding stage_chunks
  stage_chunks-Staged [] calls w e =
      Ends-pure (Staged calls) Any w tt (sym (append_nil (stagings w.sent)) ∙ e)
  stage_chunks-Staged (paths ∷ more) calls w e = after_git calls w (stage paths) _ λ a v sent.
      Ends-throw_if (Staged calls) Any v _ _ _ tt λ _.
        stage_chunks-Staged more calls v
          (ap (λ t. t ++ more) sent ∙ (append_shift (stagings w.sent) paths more ∙ e))

  verify-Staged :
      (sha tree : String) (delta : WorktreeDelta) (calls : List (List String)) (w : World R)
      → stagings w.sent ≡ calls
      → Ends (Staged calls) Any w (verify_candidate_tree S state snapshot sha tree delta)
  unfolding verify_candidate_tree
  verify-Staged sha tree delta calls w e = after_git calls w (diff_tree sha tree) _ λ a v sent.
      Ends-throw_if (Staged calls) Any v _ _ _ tt λ _. throw_last-Staged calls v _ _ (sent ∙ e)

  build_tree-Ends :
      (sha : String) (delta : WorktreeDelta) (w : World R)
      → Ends
          (Staged (stagings w.sent ++ chunks max_stage_paths_per_call (delta_paths delta)))
          Any
          w
          (build_tree S state snapshot sha delta)
  unfolding build_tree
  build_tree-Ends sha delta w =
      let calls = stagings w.sent ++ chunks max_stage_paths_per_call (delta_paths delta) in
      Ends-bind (Staged calls) Any (Staged (stagings w.sent)) w (unlink S state.candidate_index) _
        (unlink-Staged state.candidate_index w)
        λ _ w1 s1. after_git calls w1 (read_tree sha) _ λ a w2 s2.
          Ends-throw_if (Staged calls) Any w2 _ _ _ tt λ _.
            Ends-bind (Staged calls) Any (Staged calls) w2 _ _
              (stage_chunks-Staged _ calls w2
                (ap (λ t. t ++ chunks max_stage_paths_per_call (delta_paths delta)) (s2 ∙ s1)))
              λ _ w3 s3. after_git calls w3 write_tree _ λ b w4 s4.
                Ends-throw_if (Staged calls) Any w4 _ _ _ tt λ _.
                  Ends-throw_if (Staged calls) Any w4 _ _ _ tt λ _.
                    Ends-bind (Staged calls) Any (Staged calls) w4 _ _
                      (verify-Staged sha _ delta calls w4 (s4 ∙ s3))
                      λ _ w5 s5. Ends-pure (Staged calls) Any w5 _ s5

  -- What the staging of a tree hands to `git add`.
  pub record IsStaged (delta : WorktreeDelta) (w v : World R) : Type 0 where
    pub calls : List (List String)
    pub sent : stagings v.sent ≡ stagings w.sent ++ calls
    pub every_path : concat calls ≡ delta_paths delta
    pub sizes : AreChunks calls

  -- When build_tree returns, the `git add` calls that it sent are handed the paths of the inventory:
  -- all of them, each once and in order, and every call has at least one path and at most
  -- MAX_STAGE_PATHS_PER_CALL.
  pub build_tree-IsStaged :
      (sha : String) (delta : WorktreeDelta) (w : World R) (tree : String)
      → (build_tree S state snapshot sha delta w).0 ≡ ok tree
      → IsStaged delta w (build_tree S state snapshot sha delta w).1
  unfolding chunks
  build_tree-IsStaged sha delta w tree e =
      let paths = delta_paths delta in
      record {
        calls = chunks max_stage_paths_per_call paths;
        sent = (build_tree-Ends sha delta w).returns tree e;
        every_path = slices-concat ((length paths + 127) / 128) 0 paths (omega arith);
        sizes = slices-AreChunks ((length paths + 127) / 128) 0 paths (omega arith);
      }
