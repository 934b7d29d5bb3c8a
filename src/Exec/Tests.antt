-- ===== src/Exec/Tests.antt =====
-- The exec gate on concrete commands.
use sentinelx_cloud_core.Base.{
  ℕ, Bool, true, false, ◌≡◌, refl, Option, none, some, List, [], ◌∷◌, contains, nat_eq, map,
}
use sentinelx_cloud_core.Base.Result.{ok, err}
use sentinelx_cloud_core.Base.Text.{codes}
use sentinelx_cloud_core.Exec.{
  seconds, nan, reads, Text, Policy, Payload, ShellRun, split_top_level, has_substitution,
  dollar_paren, handle_exec, uses_substitution, offending,
}
use sentinelx_cloud_core.Exec.Segments.{letters, segment_letters, split_top_level-letters}
use sentinelx_cloud_core.Exec.Gate.{
  IsAdmitted, IsStrictlyAdmitted, handle_exec-IsAdmitted, handle_exec-IsStrictlyAdmitted,
  has_substitution-backtick,
}

abbrev strict : Policy
strict = record {
  allowed_commands = codes "probe" ∷ [];
  exec_strict = true;
  exec_timeout_default = 30;
  exec_timeout_max = 60;
}

abbrev payload_of : Text → Payload
payload_of command = record {
  command = some command;
  timeout = some (reads (seconds 90));
  background = false;
}

abbrev run_of : Text → ShellRun
run_of command = record { command = command; timeout = seconds 60 }

abbrev pipeline : Text
pipeline = codes "cd /srv && probe 'a;b' | head"

pipeline-split : split_top_level pipeline ≡ map codes ("cd /srv" ∷ "probe 'a;b'" ∷ "head" ∷ [])
unfolding split_top_level sentinelx_cloud_core.Exec.split_from sentinelx_cloud_core.Exec.split_move
    sentinelx_cloud_core.Exec.strip sentinelx_cloud_core.Exec.rstrip
    sentinelx_cloud_core.Exec.lstrip sentinelx_cloud_core.Base.Text.is_space
pipeline-split = refl

-- The gate proper asks for an allowed prefix too, so a leading `cd` does not pass.
pipeline-refused :
    handle_exec strict (payload_of (codes "probe; id")) ≡ err (offending (codes "id"))
unfolding handle_exec sentinelx_cloud_core.Exec.handle_command
    sentinelx_cloud_core.Exec.strict_check has_substitution
    sentinelx_cloud_core.Exec.substitution_from sentinelx_cloud_core.Exec.scan
    sentinelx_cloud_core.Exec.unauthorised_segment sentinelx_cloud_core.Exec.first_uncovered
    split_top_level sentinelx_cloud_core.Exec.split_from sentinelx_cloud_core.Exec.split_move
    sentinelx_cloud_core.Exec.strip sentinelx_cloud_core.Exec.rstrip
    sentinelx_cloud_core.Exec.lstrip sentinelx_cloud_core.Base.Text.is_space
    sentinelx_cloud_core.Exec.covered sentinelx_cloud_core.Exec.is_command_allowed
    sentinelx_cloud_core.Exec.startswith sentinelx_cloud_core.Exec.first_word
    sentinelx_cloud_core.Exec.word_prefix
pipeline-refused = refl

substitution-refused :
    handle_exec strict (payload_of (codes "probe \"$(id)\"")) ≡ err (uses_substitution dollar_paren)
unfolding handle_exec sentinelx_cloud_core.Exec.handle_command
    sentinelx_cloud_core.Exec.strict_check has_substitution
    sentinelx_cloud_core.Exec.substitution_from sentinelx_cloud_core.Exec.scan
substitution-refused = refl

-- A single `&` and a line feed start another command in the shell, and are no separators here.
background-passes :
    handle_exec strict (payload_of (codes "probe & id")) ≡ ok (run_of (codes "probe & id"))
unfolding handle_exec sentinelx_cloud_core.Exec.handle_command
    sentinelx_cloud_core.Exec.strict_check has_substitution
    sentinelx_cloud_core.Exec.substitution_from sentinelx_cloud_core.Exec.scan
    sentinelx_cloud_core.Exec.unauthorised_segment sentinelx_cloud_core.Exec.first_uncovered
    split_top_level sentinelx_cloud_core.Exec.split_from sentinelx_cloud_core.Exec.split_move
    sentinelx_cloud_core.Exec.strip sentinelx_cloud_core.Exec.rstrip
    sentinelx_cloud_core.Exec.lstrip sentinelx_cloud_core.Base.Text.is_space
    sentinelx_cloud_core.Exec.covered sentinelx_cloud_core.Exec.is_command_allowed
    sentinelx_cloud_core.Exec.startswith sentinelx_cloud_core.Exec.timeout_ceiling
background-passes = refl

line-passes : handle_exec strict (payload_of (codes "probe\nid")) ≡ ok (run_of (codes "probe\nid"))
unfolding handle_exec sentinelx_cloud_core.Exec.handle_command
    sentinelx_cloud_core.Exec.strict_check has_substitution
    sentinelx_cloud_core.Exec.substitution_from sentinelx_cloud_core.Exec.scan
    sentinelx_cloud_core.Exec.unauthorised_segment sentinelx_cloud_core.Exec.first_uncovered
    split_top_level sentinelx_cloud_core.Exec.split_from sentinelx_cloud_core.Exec.split_move
    sentinelx_cloud_core.Exec.strip sentinelx_cloud_core.Exec.rstrip
    sentinelx_cloud_core.Exec.lstrip sentinelx_cloud_core.Base.Text.is_space
    sentinelx_cloud_core.Exec.covered sentinelx_cloud_core.Exec.is_command_allowed
    sentinelx_cloud_core.Exec.startswith sentinelx_cloud_core.Exec.timeout_ceiling
line-passes = refl

-- A timeout of "nan" reaches the shell as it is.
abbrev nan_payload : Text → Payload
nan_payload command = record {
  command = some command;
  timeout = some (reads nan);
  background = false;
}

nan-passes :
    handle_exec strict (nan_payload (codes "probe"))
    ≡ ok (record { command = codes "probe"; timeout = nan })
unfolding handle_exec sentinelx_cloud_core.Exec.handle_command
    sentinelx_cloud_core.Exec.strict_check has_substitution
    sentinelx_cloud_core.Exec.substitution_from sentinelx_cloud_core.Exec.scan
    sentinelx_cloud_core.Exec.unauthorised_segment sentinelx_cloud_core.Exec.first_uncovered
    split_top_level sentinelx_cloud_core.Exec.split_from sentinelx_cloud_core.Exec.split_move
    sentinelx_cloud_core.Exec.strip sentinelx_cloud_core.Exec.rstrip
    sentinelx_cloud_core.Exec.lstrip sentinelx_cloud_core.Base.Text.is_space
    sentinelx_cloud_core.Exec.covered sentinelx_cloud_core.Exec.is_command_allowed
    sentinelx_cloud_core.Exec.startswith
nan-passes = refl

abbrev filtered : Text
filtered = codes "probe x | head -3"

filtered-ok : handle_exec strict (payload_of filtered) ≡ ok (run_of filtered)
unfolding handle_exec sentinelx_cloud_core.Exec.handle_command
    sentinelx_cloud_core.Exec.strict_check has_substitution
    sentinelx_cloud_core.Exec.substitution_from sentinelx_cloud_core.Exec.scan
    sentinelx_cloud_core.Exec.unauthorised_segment sentinelx_cloud_core.Exec.first_uncovered
    split_top_level sentinelx_cloud_core.Exec.split_from sentinelx_cloud_core.Exec.split_move
    sentinelx_cloud_core.Exec.strip sentinelx_cloud_core.Exec.rstrip
    sentinelx_cloud_core.Exec.lstrip sentinelx_cloud_core.Base.Text.is_space
    sentinelx_cloud_core.Exec.covered sentinelx_cloud_core.Exec.is_command_allowed
    sentinelx_cloud_core.Exec.startswith sentinelx_cloud_core.Exec.first_word
    sentinelx_cloud_core.Exec.word_prefix sentinelx_cloud_core.Exec.timeout_ceiling
filtered-ok = refl

handle_exec-IsAdmitted_example : IsAdmitted strict (payload_of filtered) (run_of filtered)
handle_exec-IsAdmitted_example =
    handle_exec-IsAdmitted strict (payload_of filtered) (run_of filtered) filtered-ok

handle_exec-IsStrictlyAdmitted_example :
    IsStrictlyAdmitted strict (payload_of filtered) (run_of filtered)
handle_exec-IsStrictlyAdmitted_example =
    handle_exec-IsStrictlyAdmitted strict (payload_of filtered) (run_of filtered) refl filtered-ok

filtered-clean : has_substitution filtered ≡ none
unfolding has_substitution sentinelx_cloud_core.Exec.substitution_from
    sentinelx_cloud_core.Exec.scan
filtered-clean = refl

has_substitution-backtick_example : contains filtered 0x60 ≡ false
has_substitution-backtick_example = has_substitution-backtick filtered refl refl filtered-clean

split_top_level-letters_example : segment_letters (split_top_level pipeline) ≡ letters pipeline
split_top_level-letters_example = split_top_level-letters pipeline
