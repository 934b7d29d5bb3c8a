-- ===== src/Base/Split.antt =====
-- `str.split`, `splitlines`, `partition` and their like, on native texts.
use Prim.Native.Nat.{ℕ}
use Prim.Native.Char.{Char, code}
use Prim.Native.String.{String, ◌++◌}
use mathlib.Core.Path.{◌≡◌, refl}
use mathlib.Core.Bool.{Bool, true, false, ◌&&◌, ◌||◌}
use mathlib.Core.Option.{Option, none, some}
use mathlib.Core.List.{List, [], ◌∷◌}
use sentinelx_cloud_core.Base.Tests.{leb, nat_beq, if◌then◌else◌}
use sentinelx_cloud_core.Base.Text.{is_space, is_blank, begins_with, char_count}

abbrev first_longer : Char → List String → List String
first_longer c [] = String.◌∷◌ c String.[] ∷ []
first_longer c (p ∷ ps) = String.◌∷◌ c p ∷ ps

-- `s.split(c)`, for one character given by its code
unfoldable pub split_on : ℕ → String → List String
split_on sep String.[] = String.[] ∷ []
split_on sep (String.◌∷◌ c s) =
    let rest = split_on sep s in
    if nat_beq (code c) sep then String.[] ∷ rest else first_longer c rest

-- The words from a text, the first of them begun already.
words_from : String → String → List String
unfolding is_space
words_from word String.[] = if is_blank word then [] else word ∷ []
words_from word (String.◌∷◌ c s) = elim (is_space (code c)) [
  | true ↦ let next = words_from String.[] s in if is_blank word then next else word ∷ next
  | false ↦ words_from (word ++ String.◌∷◌ c String.[]) s
]

-- `s.split()`
unfoldable pub words : String → List String
unfolding words_from
words s = words_from String.[] s

-- The characters that end a line for `str.splitlines`; a carriage return before a line feed ends
-- one line with it.
abbrev ends_line : ℕ → Bool
ends_line c =
    leb 0x0a c && leb c 0x0d
    || leb 0x1c c && leb c 0x1e
    || nat_beq c 0x85
    || nat_beq c 0x2028
    || nat_beq c 0x2029

pub data LineMove : Type 0 where
  skip : LineMove
  stop : LineMove
  stay : LineMove

abbrev line_move : ℕ → String → LineMove
line_move c s =
    if nat_beq c 0x0d && begins_with s "\n" then skip else if ends_line c then stop else stay

lines_from : String → String → List String
lines_from line String.[] = if is_blank line then [] else line ∷ []
lines_from line (String.◌∷◌ c s) = elim (line_move (code c) s) [
  | skip ↦ lines_from line s
  | stop ↦ line ∷ lines_from String.[] s
  | stay ↦ lines_from (line ++ String.◌∷◌ c String.[]) s
]

-- `s.splitlines()`
unfoldable pub splitlines : String → List String
unfolding lines_from
splitlines s = lines_from String.[] s

abbrev drop_two : String → String
drop_two (String.◌∷◌ c (String.◌∷◌ d s)) = s
drop_two s = String.[]

abbrev after_last : Char → String → Bool → Option (String × String) → Option (String × String)
after_last c s here (some (head, tail)) = some (String.◌∷◌ c head, tail)
after_last c s true none = some (String.[], drop_two (String.◌∷◌ c s))
after_last c s false none = none

-- The text before and after its last `": "`.
last_colon : String → Option (String × String)
last_colon String.[] = none
last_colon (String.◌∷◌ c s) = after_last c s (begins_with (String.◌∷◌ c s) ": ") (last_colon s)

abbrev twice : Option (String × String) → Option (String × String × String)
twice none = none
twice (some (head, value)) = elim (last_colon head) [
  | none ↦ none
  | some (front, attr) ↦ some (front, attr, value)
]

-- `s.rsplit(": ", 2)`, when it has three parts
unfoldable pub rsplit_two : String → Option (String × String × String)
unfolding last_colon
rsplit_two s = twice (last_colon s)

lstrip_char : ℕ → String → String
lstrip_char sep String.[] = String.[]
lstrip_char sep (String.◌∷◌ c s) =
    if nat_beq (code c) sep then lstrip_char sep s else String.◌∷◌ c s

rstrip_char : ℕ → String → String
rstrip_char sep String.[] = String.[]
rstrip_char sep (String.◌∷◌ c s) =
    let rest = rstrip_char sep s in
    if is_blank rest && nat_beq (code c) sep then String.[] else String.◌∷◌ c rest

-- `s.strip(c)`, for one character given by its code
unfoldable pub strip_char : ℕ → String → String
unfolding lstrip_char rstrip_char
strip_char sep s = rstrip_char sep (lstrip_char sep s)

-- `s[1:]`
unfoldable pub tail_of : String → String
tail_of String.[] = String.[]
tail_of (String.◌∷◌ c s) = s

-- `sep.join(parts)`
unfoldable pub join : String → List String → String
join sep [] = String.[]
join sep (p ∷ []) = p
join sep (p ∷ q ∷ ps) = p ++ (sep ++ join sep (q ∷ ps))

abbrev all_chars : (ℕ → Bool) → String → Bool
all_chars p String.[] = true
all_chars p (String.◌∷◌ c s) = p (code c) && all_chars p s

-- `re.compile(r"^[0-9a-f]{40}$").match(s)`, for a text that ends in no line feed
unfoldable pub is_sha : String → Bool
unfolding char_count
is_sha s =
    nat_beq (char_count s) 40
    && all_chars (λ c. leb 0x30 c && leb c 0x39 || leb 0x61 c && leb c 0x66) s

split_on_runs : split_on 0 "a\0\0b" ≡ "a" ∷ "" ∷ "b" ∷ []
unfolding split_on
split_on_runs = refl

words_runs : words "  ab  c " ≡ "ab" ∷ "c" ∷ []
unfolding words
words_runs = refl

splitlines_runs : splitlines "a\r\nb\n" ≡ "a" ∷ "b" ∷ []
unfolding splitlines begins_with
splitlines_runs = refl

rsplit_two_runs : rsplit_two "a: b: filter: lfs" ≡ some ("a: b", "filter", "lfs")
unfolding rsplit_two begins_with
rsplit_two_runs = refl
