-- ===== src/Exec.antt =====
-- The admission of a shell command: src/sentinelx_core/segment_check.py, `is_command_allowed` of
-- src/sentinelx_core/policy.py and the handler of src/sentinelx_core/handlers/exec.py. A command
-- is the list of its code points. `run_shell` is outside the model: the handler's result says
-- with which command and timeout it is called. A timeout that is a finite number is a whole number of seconds.
pub mod Segments
pub mod Gate
pub mod Tests
use sentinelx_cloud_core.Base.{ℕ, String, Bool, true, false, not, ◌&&◌, ◌||◌, ◌==◌}
use sentinelx_cloud_core.Base.{nat_eq, list_eq, option_eq, contains, leb, map, if◌then◌else◌}
use sentinelx_cloud_core.Base.{Option, none, some, List, [], ◌∷◌, ◌++◌}
use sentinelx_cloud_core.Base.Lists.{any, select, is_empty}
use sentinelx_cloud_core.Base.Result.{Result, ok, err, ◌>>=◌, ◌>>◌, raise_if}
use sentinelx_cloud_core.Base.Text.{codes, is_space}

abbrev pub Text : Type 0
Text = List ℕ

abbrev read_only_filters : List Text
read_only_filters = map codes (
    "head" ∷ "tail" ∷ "sort" ∷ "uniq" ∷ "wc" ∷ "cut" ∷ "tr" ∷ "grep" ∷ "egrep" ∷ "fgrep" ∷ "awk"
    ∷ "sed" ∷ "jq" ∷ "rg" ∷ "cat" ∷ "tee" ∷ "column" ∷ "rev" ∷ "tac" ∷ "nl" ∷ "fold" ∷ "paste"
    ∷ "join" ∷ "comm" ∷ "xxd" ∷ "base64" ∷ "md5sum" ∷ "sha256sum" ∷ "echo" ∷ "printf" ∷ "true"
    ∷ "false" ∷ "seq" ∷ "basename" ∷ "dirname" ∷ "realpath" ∷ "readlink" ∷ "date" ∷ [])

abbrev position_free : List Text
position_free = codes "cd" ∷ []

-- `s.lstrip()`, `s.rstrip()` and `s.strip()`
unfoldable pub lstrip : Text → Text
lstrip [] = []
lstrip (c ∷ s) = let rest = lstrip s in if is_space c then rest else c ∷ s

unfoldable pub rstrip : Text → Text
rstrip [] = []
rstrip (c ∷ s) = let rest = rstrip s in if is_empty rest && is_space c then [] else c ∷ rest

unfoldable pub strip : Text → Text
strip s = rstrip (lstrip s)

unfoldable pub startswith : Text → Text → Bool
startswith s [] = true
startswith [] (d ∷ t) = false
startswith (c ∷ s) (d ∷ t) = c == d && startswith s t

-- `t in s`
unfoldable pub occurs : Text → Text → Bool
occurs t [] = is_empty t
occurs t (c ∷ s) = startswith (c ∷ s) t || occurs t s

unfoldable pub word_prefix : Text → Text
word_prefix [] = []
word_prefix (c ∷ s) = let rest = word_prefix s in if is_space c then [] else c ∷ rest

unfoldable pub first_word : Text → Text
first_word segment = word_prefix (lstrip segment)

-- The characters that matter: `"`, `&`, `'`, `;`, `\`, `` ` ``, `|`.
abbrev pub is_quote : ℕ → Bool
is_quote c = c == 0x22 || c == 0x27

abbrev pub is_escape : ℕ → Bool
is_escape c = c == 0x5c

abbrev pub is_cut : ℕ → Bool
is_cut c = c == 0x3b || c == 0x7c

-- What one round of the loop of `split_top_level` does with the character at hand.
pub data Move : Type 0 where
  push : (quote : Option ℕ) → Move
  push_two : Move
  cut : Move
  cut_two : Move

abbrev pub after_quoted : ℕ → ℕ → Option ℕ
after_quoted q c = if c == q then none else some q

-- `i + 1 < n` is `not last`; `next` is the character after, where there is one.
abbrev pub double : ℕ → Option ℕ → Bool
double c none = false
double c (some d) = (c == 0x26 || c == 0x7c) && d == c

abbrev has_next : Option ℕ → Bool
has_next none = false
has_next (some d) = true

unfoldable pub split_move : Option ℕ → ℕ → Option ℕ → Move
split_move (some q) c next =
    if is_escape c && has_next next then push_two else push (after_quoted q c)
split_move none c next =
    if is_quote c
    then push (some c)
    else if is_escape c && has_next next
    then push_two
    else if double c next
    then cut_two
    else if is_cut c
    then cut
    else push none

-- The loop, with the quote that is open and the buffer.
unfoldable pub split_from : Option ℕ → Text → Text → List Text
split_from quote buf [] = buf ∷ []
split_from quote buf (c ∷ []) = elim (split_move quote c none) [
  | cut ↦ buf ∷ [] ∷ []
  | _ ↦ (buf ++ c ∷ []) ∷ []
]
split_from quote buf (c ∷ d ∷ rest) = elim (split_move quote c (some d)) [
  | push q ↦ split_from q (buf ++ c ∷ []) (d ∷ rest)
  | push_two ↦ split_from quote (buf ++ c ∷ d ∷ []) rest
  | cut ↦ buf ∷ split_from none [] (d ∷ rest)
  | cut_two ↦ buf ∷ split_from none [] rest
]

unfoldable pub split_top_level : Text → List Text
split_top_level command = select (λ s. not (is_empty s)) (map strip (split_from none [] command))

pub data Substitution : Type 0 where
  dollar_paren : Substitution
  backtick : Substitution

-- What one round of the loop of `has_substitution` does.
pub data Scan : Type 0 where
  onward : (quote : Option ℕ) → Scan
  skip_two : Scan
  found : Substitution → Scan

abbrev opens_paren : ℕ → Option ℕ → Bool
opens_paren c none = false
opens_paren c (some d) = c == 0x24 && d == 0x28

unfoldable pub scan : Option ℕ → ℕ → Option ℕ → Scan
scan quote c next =
    if quote == some 0x27
    then onward (if c == 0x27 then none else quote)
    else if is_escape c && has_next next
    then skip_two
    else if quote == some 0x22 && c == 0x22
    then onward none
    else if not (quote == some 0x22) && is_quote c
    then onward (some c)
    else if opens_paren c next
    then found dollar_paren
    else if c == 0x60
    then found backtick
    else onward quote

unfoldable pub substitution_from : Option ℕ → Text → Option Substitution
substitution_from quote [] = none
substitution_from quote (c ∷ []) = elim (scan quote c none) [ found s ↦ some s | _ ↦ none ]
substitution_from quote (c ∷ d ∷ rest) = elim (scan quote c (some d)) [
  | onward q ↦ substitution_from q (d ∷ rest)
  | skip_two ↦ substitution_from quote rest
  | found s ↦ some s
]

unfoldable pub has_substitution : Text → Option Substitution
has_substitution command = substitution_from none command

-- The fields of `Policy` that the gate reads.
pub record Policy : Type 0 where
  pub allowed_commands : List Text
  pub exec_strict : Bool
  pub exec_timeout_default : ℕ
  pub exec_timeout_max : ℕ

unfoldable pub is_command_allowed : Policy → Text → Bool
is_command_allowed p cmd =
    not (is_empty (strip cmd)) && any (λ a. startswith (strip cmd) a) p.allowed_commands

-- A segment is covered at its place: `leading` is `index == 0`.
unfoldable pub covered : Policy → Bool → Text → Bool
covered p leading segment =
    is_command_allowed p segment
    || contains position_free (first_word segment)
    || not leading && contains read_only_filters (first_word segment)

unfoldable pub first_uncovered : Policy → Bool → List Text → Option Text
first_uncovered p leading [] = none
first_uncovered p leading (segment ∷ rest) =
    let later = first_uncovered p false rest in
    if covered p leading segment then later else some segment

unfoldable pub unauthorised_segment : Policy → Text → Option Text
unauthorised_segment p command = first_uncovered p true (split_top_level command)

abbrev background_timeout_max : ℕ
background_timeout_max = 3600

-- The floats that `float(timeout)` gives; `negative` is a number below zero by its absolute value.
pub data Seconds : Type 0 where
  nan : Seconds
  infinite : Seconds
  negative : ℕ → Seconds
  seconds : ℕ → Seconds

-- The timeout of a payload, as `float` reads it: a number, or a ValueError or TypeError.
pub data Timeout : Type 0 where
  reads : Seconds → Timeout
  unreadable : Timeout

pub record Payload : Type 0 where
  pub command : Option Text
  pub timeout : Option Timeout
  pub background : Bool

pub record ShellRun : Type 0 where
  pub command : Text
  pub timeout : Seconds

pub data Rejection : Type 0 where
  invalid_payload : Rejection
  bad_timeout : Rejection
  uses_substitution : Substitution → Rejection
  offending : Text → Rejection
  command_not_allowed : Rejection

-- `min(timeout, ceiling)`: the ceiling when it is less, and a NaN is never more.
abbrev pub minimum : Seconds → ℕ → Seconds
minimum nan ceiling = nan
minimum infinite ceiling = seconds ceiling
minimum (negative t) ceiling = negative t
minimum (seconds t) ceiling = if leb t ceiling then seconds t else seconds ceiling

abbrev maximum : ℕ → ℕ → ℕ
maximum a b = if leb a b then b else a

-- `float(payload.get("timeout", default))`
abbrev pub requested : Option Timeout → ℕ → Result Rejection Seconds
requested none default = ok (seconds default)
requested (some (reads t)) default = ok t
requested (some unreadable) default = err bad_timeout

unfoldable pub timeout_ceiling : Policy → Payload → ℕ
timeout_ceiling p payload =
    if payload.background
    then maximum p.exec_timeout_max background_timeout_max
    else p.exec_timeout_max

abbrev refuse_substitution : Option Substitution → Result Rejection (Unit {0})
refuse_substitution none = ok tt
refuse_substitution (some s) = err (uses_substitution s)

abbrev refuse_segment : Option Text → Result Rejection (Unit {0})
refuse_segment none = ok tt
refuse_segment (some s) = err (offending s)

unfoldable pub strict_check : Policy → Text → Result Rejection (Unit {0})
strict_check p command =
    if p.exec_strict
    then (refuse_substitution (has_substitution command)
        >> refuse_segment (unauthorised_segment p command))
    else ok tt

unfoldable pub handle_command : Policy → Payload → Seconds → Text → Result Rejection ShellRun
handle_command p payload asked command = do
  raise_if (is_empty command) invalid_payload
  strict_check p command
  raise_if (not (is_command_allowed p command)) command_not_allowed
  ok (record { command = command; timeout = minimum asked (timeout_ceiling p payload) })

abbrev with_command : Policy → Payload → Seconds → Option Text → Result Rejection ShellRun
with_command p payload asked none = err invalid_payload
with_command p payload asked (some command) = handle_command p payload asked command

abbrev with_timeout : Policy → Payload → Result Rejection Seconds → Result Rejection ShellRun
with_timeout p payload (err e) = err e
with_timeout p payload (ok asked) = with_command p payload asked payload.command

-- `handle_exec`
unfoldable pub handle_exec : Policy → Payload → Result Rejection ShellRun
handle_exec p payload = with_timeout p payload (requested payload.timeout p.exec_timeout_default)
