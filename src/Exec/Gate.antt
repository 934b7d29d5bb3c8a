-- ===== src/Exec/Gate.antt =====
-- What the exec gate lets through.
use mathlib.Core.Path.{subst}
use sentinelx_cloud_core.Base.{
  ℕ, Bool, true, false, not, ◌&&◌, ◌==◌, nat_eq, ◌≡◌, refl, sym, ap, ◌∙◌, arith,
}
use sentinelx_cloud_core.Base.{
  Option, none, some, List, [], ◌∷◌, contains, option_beq, Option-cases, inl, inr, ◌⊎◌, leb,
  option_eq,
}
use sentinelx_cloud_core.Base.Lists.{all}
use sentinelx_cloud_core.Base.Result.{ok, Result-cases}
use sentinelx_cloud_core.Exec.{
  Text, Policy, Payload, ShellRun, covered, first_uncovered, unauthorised_segment,
  is_command_allowed, split_top_level, handle_exec, handle_command, Seconds, nan, infinite,
  negative, seconds, Timeout, reads, unreadable, minimum, requested, strict_check, timeout_ceiling,
  has_substitution, substitution_from, scan, Scan, onward, skip_two, found,
}

-- The first segment answers as a leading one, and every other one as one that follows.
abbrev pub all_covered : Policy → List Text → Bool
all_covered p [] = true
all_covered p (s ∷ rest) = covered p true s && all (λ t. covered p false t) rest

first_uncovered-all :
    (p : Policy) (segments : List Text)
    → first_uncovered p false segments ≡ none
    → all (λ t. covered p false t) segments ≡ true
unfolding first_uncovered
first_uncovered-all p [] e = refl
first_uncovered-all p (s ∷ rest) e = ground (arith, first_uncovered-all p rest)

unauthorised_segment-covered :
    (p : Policy) (command : Text)
    → unauthorised_segment p command ≡ none
    → all_covered p (split_top_level command) ≡ true
unfolding unauthorised_segment first_uncovered
unauthorised_segment-covered p command e = go (split_top_level command) e
  where
    go :
        (segments : List Text)
        → first_uncovered p true segments ≡ none
        → all_covered p segments ≡ true
    go [] e = refl
    go (s ∷ rest) e = ground (arith, first_uncovered-all p rest)

-- The timeout is at most the ceiling, unless the caller asks for a NaN.
abbrev pub within : Seconds → ℕ → Bool
within nan ceiling = false
within infinite ceiling = false
within (negative t) ceiling = true
within (seconds t) ceiling = leb t ceiling

abbrev pub IsBounded : Policy → Payload → ShellRun → Type 0
IsBounded p payload run =
    (payload.timeout ≡ some (reads nan)) × (run.timeout ≡ nan)
    ⊎ (within run.timeout (timeout_ceiling p payload) ≡ true)

minimum-within : (t : Seconds) (c : ℕ) → (t ≡ nan) ⊎ (within (minimum t c) c ≡ true)
minimum-within nan c = inl refl
minimum-within infinite c = inr (ground arith)
minimum-within (negative t) c = inr refl
minimum-within (seconds t) c = inr (ground arith)

requested-nan :
    (t : Option Timeout) (d : ℕ) (asked : Seconds)
    → requested t d ≡ ok asked
    → asked ≡ nan
    → t ≡ some (reads nan)
requested-nan none d asked e n = cc
requested-nan (some (reads t)) d asked e n = cc
requested-nan (some unreadable) d asked e n = cc

-- What the gate promises of a command that reaches the shell.
pub record IsAdmitted (p : Policy) (payload : Payload) (run : ShellRun) : Type 0 where
  pub given : payload.command ≡ some run.command
  pub allowed : is_command_allowed p run.command ≡ true
  pub bounded : IsBounded p payload run

-- What strict mode promises besides.
pub record IsStrictlyAdmitted (p : Policy) (payload : Payload) (run : ShellRun) : Type 0 where
  pub admitted : IsAdmitted p payload run
  pub no_substitution : has_substitution run.command ≡ none
  pub every_segment : all_covered p (split_top_level run.command) ≡ true

handle_command-parts :
    (p : Policy) (payload : Payload) (asked : Seconds) (command : Text) (run : ShellRun)
    → handle_command p payload asked command ≡ ok run
    → (run.command ≡ command)
      × (is_command_allowed p command ≡ true)
      × (run.timeout ≡ minimum asked (timeout_ceiling p payload))
      × (strict_check p command ≡ ok tt)
unfolding handle_command
handle_command-parts p payload asked command run e = ground arith

handle_exec-given :
    (p : Policy) (payload : Payload) (run : ShellRun)
    → handle_exec p payload ≡ ok run
    → (asked : Seconds) × (command : Text) × (requested payload.timeout p.exec_timeout_default
        ≡ ok asked)
      × (payload.command ≡ some command)
      × (handle_command p payload asked command ≡ ok run)
unfolding handle_exec
handle_exec-given p payload run e =
    elim (Result-cases (requested payload.timeout p.exec_timeout_default)) [
      | inr (x, failed) ↦ cc (e, failed)
      | inl (asked, read) ↦ elim (Option-cases payload.command) [
        | inl none_given ↦ cc (e, read, none_given)
        | inr (command, given) ↦ (asked, command, read, given, sym (rw (read, given) refl) ∙ e)
      ]
    ]

IsBounded-by :
    (p : Policy) (payload : Payload) (asked : Seconds) (run : ShellRun)
    → requested payload.timeout p.exec_timeout_default ≡ ok asked
    → run.timeout ≡ minimum asked (timeout_ceiling p payload)
    → IsBounded p payload run
IsBounded-by p payload asked run read least =
    elim (minimum-within asked (timeout_ceiling p payload)) [
      | inl n ↦ inl (
        requested-nan payload.timeout p.exec_timeout_default asked read n,
        least ∙ ap (λ t. minimum t (timeout_ceiling p payload)) n,
      )
      | inr k ↦ inr (ap (λ t. within t (timeout_ceiling p payload)) least ∙ k)
    ]

-- A command that `handle_exec` sends to the shell is the given one, starts with an allowed prefix
-- after white space, and its timeout is at most the ceiling of the call, unless the caller asked for a
-- NaN: then the run has that NaN.
pub handle_exec-IsAdmitted :
    (p : Policy) (payload : Payload) (run : ShellRun)
    → handle_exec p payload ≡ ok run
    → IsAdmitted p payload run
handle_exec-IsAdmitted p payload run e =
    let (asked, command, read, given, passed) = handle_exec-given p payload run e in
    let (same, allowed, least, checked) = handle_command-parts p payload asked command run passed in
    record {
      given = given ∙ ap some (sym same);
      allowed = subst (λ c. is_command_allowed p c ≡ true) (sym same) allowed;
      bounded = IsBounded-by p payload asked run read least;
    }

strict_check-parts :
    (p : Policy) (command : Text)
    → p.exec_strict ≡ true
    → strict_check p command ≡ ok tt
    → (has_substitution command ≡ none) × (unauthorised_segment p command ≡ none)
unfolding strict_check
strict_check-parts p command strict passed = ground arith

-- In strict mode, `has_substitution` finds nothing in a command that `handle_exec` sends to the
-- shell, what `handle_exec-IsAdmitted` states holds, and
-- each of its top-level segments is covered at its place: by the allowlist, as `cd`, or, after the
-- first segment, as a read-only filter.
pub handle_exec-IsStrictlyAdmitted :
    (p : Policy) (payload : Payload) (run : ShellRun)
    → p.exec_strict ≡ true
    → handle_exec p payload ≡ ok run
    → IsStrictlyAdmitted p payload run
handle_exec-IsStrictlyAdmitted p payload run strict e =
    let (asked, command, read, given, passed) = handle_exec-given p payload run e in
    let (same, allowed, least, checked) = handle_command-parts p payload asked command run passed in
    let (clean, covered_all) = strict_check-parts p command strict checked in
    record {
      admitted = handle_exec-IsAdmitted p payload run e;
      no_substitution = subst (λ c. has_substitution c ≡ none) (sym same) clean;
      every_segment =
          subst (λ c. all_covered p (split_top_level c) ≡ true) (sym same)
            (unauthorised_segment-covered p command covered_all);
    }

-- A round that neither skips a character nor enters single quotes, for a character that is no
-- backtick unless something was found.
abbrev tame : ℕ → Scan → Bool
tame x (onward q) = not (option_beq q (some 0x27)) && not (x == 0x60)
tame x skip_two = false
tame x (found s) = true

scan-tame :
    (q next : Option ℕ) (x : ℕ)
    → option_beq q (some 0x27) ≡ false
    → (x == 0x27) ≡ false
    → (x == 0x5c) ≡ false
    → tame x (scan q x next) ≡ true
unfolding scan
scan-tame q next x a b c = ground arith

tame-onward :
    (m : Scan) (x y : ℕ) (q : Option ℕ) (rest : Text)
    → tame x m ≡ true
    → elim m [
      | onward q ↦ substitution_from q (y ∷ rest)
      | skip_two ↦ substitution_from q rest
      | found s ↦ some s
    ]
      ≡ none
    → (p : Option ℕ) × (option_beq p (some 0x27) ≡ false)
      × ((x == 0x60) ≡ false)
      × (substitution_from p (y ∷ rest) ≡ none)
tame-onward (onward p) x y q rest t e = (p, ground (arith, t), ground (arith, t), e)
tame-onward skip_two x y q rest t e = cc
tame-onward (found s) x y q rest t e = cc

substitution_from-backtick :
    (q : Option ℕ) (command : Text)
    → option_beq q (some 0x27) ≡ false
    → contains command 0x27 ≡ false
    → contains command 0x5c ≡ false
    → substitution_from q command ≡ none
    → contains command 0x60 ≡ false
unfolding substitution_from scan
substitution_from-backtick q [] a b c e = refl
substitution_from-backtick q (x ∷ []) a b c e = ground arith
substitution_from-backtick q (x ∷ y ∷ rest) a b c e =
    let t = scan-tame q (some y) x a (ground (arith, b)) (ground (arith, c)) in
    let (p, unquoted, plain, later) = tame-onward (scan q x (some y)) x y q rest t e in
    let ih =
      substitution_from-backtick p (y ∷ rest) unquoted (ground (arith, b)) (ground (arith, c))
        later in
    ground (arith, plain, ih)

-- In a command that has neither a single quote nor a backslash, `has_substitution` misses no
-- backtick, inside double quotes or outside.
pub has_substitution-backtick :
    (command : Text)
    → contains command 0x27 ≡ false
    → contains command 0x5c ≡ false
    → has_substitution command ≡ none
    → contains command 0x60 ≡ false
unfolding has_substitution
has_substitution-backtick command b c e = substitution_from-backtick none command refl b c e
