-- ===== src/Base/Text.antt =====
-- The methods of `str` that the program uses, on native texts.
use Prim.Native.Nat.{ℕ, zero, suc, ◌/◌, ◌%◌, compare, Ordering}
use Prim.Native.Char.{Char, code}
use Prim.Native.String.{String, ◌++◌}
use mathlib.Core.Path.{◌≡◌, refl}
use mathlib.Core.Bool.{Bool, true, false, ◌&&◌, ◌||◌}
use mathlib.Core.List.{List, [], ◌∷◌}
use text.Mathlib.Text.{◌==◌}
use sentinelx_cloud_core.Base.Tests.{leb, ltb, nat_beq, if◌then◌else◌}

-- The code points of a text.
abbrev pub codes : String → List ℕ
codes String.[] = []
codes (String.◌∷◌ c s) = code c ∷ codes s

-- `str.isspace` on one character: the white space of Unicode that `str.strip` removes.
unfoldable pub is_space : ℕ → Bool
is_space c =
    leb 9 c && leb c 13
    || leb 28 c && leb c 32
    || nat_beq c 0x85
    || nat_beq c 0xa0
    || nat_beq c 0x1680
    || leb 0x2000 c && leb c 0x200a
    || nat_beq c 0x2028
    || nat_beq c 0x2029
    || nat_beq c 0x202f
    || nat_beq c 0x205f
    || nat_beq c 0x3000

abbrev pub is_blank : String → Bool
is_blank String.[] = true
is_blank (String.◌∷◌ c s) = false

unfoldable pub lstrip : String → String
unfolding is_space
lstrip String.[] = String.[]
lstrip (String.◌∷◌ c s) = if is_space (code c) then lstrip s else String.◌∷◌ c s

unfoldable pub rstrip : String → String
unfolding is_space
rstrip String.[] = String.[]
rstrip (String.◌∷◌ c s) =
    let rest = rstrip s in
    if is_blank rest && is_space (code c) then String.[] else String.◌∷◌ c rest

-- `s.strip()`
unfoldable pub strip : String → String
unfolding lstrip rstrip
strip s = rstrip (lstrip s)

-- `s[:n]`
unfoldable pub take_chars : ℕ → String → String
take_chars zero s = String.[]
take_chars (suc n) String.[] = String.[]
take_chars (suc n) (String.◌∷◌ c s) = String.◌∷◌ c (take_chars n s)

-- `a < b`, by code points
unfoldable pub text_lt : String → String → Bool
text_lt String.[] String.[] = false
text_lt String.[] (String.◌∷◌ d t) = true
text_lt (String.◌∷◌ c s) String.[] = false
text_lt (String.◌∷◌ c s) (String.◌∷◌ d t) =
    let rest = text_lt s t in
    elim (compare (code c) (code d)) [
      | Ordering.lt ↦ true
      | Ordering.eq ↦ rest
      | Ordering.gt ↦ false
    ]

-- `sorted(set(xs) | {x})`, for `xs` sorted and without repetition
unfoldable pub insert_sorted : String → List String → List String
unfolding text_lt
insert_sorted x [] = x ∷ []
insert_sorted x (y ∷ ys) =
    let rest = y ∷ insert_sorted x ys in
    if text_lt x y then x ∷ y ∷ ys else if text_lt y x then rest else y ∷ ys

-- `sorted(set(xs))`
unfoldable pub sorted_set : List String → List String
unfolding insert_sorted
sorted_set [] = []
sorted_set (x ∷ xs) = insert_sorted x (sorted_set xs)

-- `sorted(xs, key=key)`, which is stable
unfoldable pub insert_by : (String → String) → String → List String → List String
unfolding text_lt
insert_by key x [] = x ∷ []
insert_by key x (y ∷ ys) =
    let rest = y ∷ insert_by key x ys in if text_lt (key y) (key x) then rest else x ∷ y ∷ ys

unfoldable pub sort_by : (String → String) → List String → List String
unfolding insert_by
sort_by key [] = []
sort_by key (x ∷ xs) = insert_by key x (sort_by key xs)

-- `len(s)`
unfoldable pub char_count : String → ℕ
char_count String.[] = 0
char_count (String.◌∷◌ c s) = suc (char_count s)

-- `s.startswith(t)`
unfoldable pub begins_with : String → String → Bool
begins_with s String.[] = true
begins_with String.[] (String.◌∷◌ d t) = false
begins_with (String.◌∷◌ c s) (String.◌∷◌ d t) = nat_beq (code c) (code d) && begins_with s t

-- `t in s`
unfoldable pub has_text : String → String → Bool
unfolding begins_with
has_text String.[] t = begins_with String.[] t
has_text (String.◌∷◌ c s) t = begins_with (String.◌∷◌ c s) t || has_text s t

-- `s.endswith(t)`
unfoldable pub ends_with : String → String → Bool
ends_with String.[] t = String.[] == t
ends_with (String.◌∷◌ c s) t = String.◌∷◌ c s == t || ends_with s t

-- `s.replace("\\", "/")`
unfoldable pub slashes : String → String
slashes String.[] = String.[]
slashes (String.◌∷◌ c s) =
    if nat_beq (code c) 0x5c then "/" ++ slashes s else String.◌∷◌ c (slashes s)

-- `s.strip("/")`
unfoldable pub strip_slashes_left : String → String
strip_slashes_left String.[] = String.[]
strip_slashes_left (String.◌∷◌ c s) =
    if nat_beq (code c) 0x2f then strip_slashes_left s else String.◌∷◌ c s

unfoldable pub strip_slashes_right : String → String
strip_slashes_right String.[] = String.[]
strip_slashes_right (String.◌∷◌ c s) =
    let rest = strip_slashes_right s in
    if is_blank rest && nat_beq (code c) 0x2f then String.[] else String.◌∷◌ c rest

unfoldable pub strip_slashes : String → String
unfolding strip_slashes_left strip_slashes_right
strip_slashes s = strip_slashes_right (strip_slashes_left s)

abbrev onto_head : Char → List String → List String
onto_head c [] = []
onto_head c (p ∷ ps) = String.◌∷◌ c p ∷ ps

-- `s.split("/")`
unfoldable pub split_slashes : String → List String
split_slashes String.[] = String.[] ∷ []
split_slashes (String.◌∷◌ c s) =
    let rest = split_slashes s in
    if nat_beq (code c) 0x2f then String.[] ∷ rest else onto_head c rest

-- `"/".join(parts)`
unfoldable pub join_slashes : List String → String
join_slashes [] = String.[]
join_slashes (p ∷ []) = p
join_slashes (p ∷ q ∷ ps) = p ++ ("/" ++ join_slashes (q ∷ ps))

abbrev digit : ℕ → String
digit d =
    if nat_beq d 0
    then "0"
    else if nat_beq d 1
    then "1"
    else if nat_beq d 2
    then "2"
    else if nat_beq d 3
    then "3"
    else if nat_beq d 4
    then "4"
    else if nat_beq d 5
    then "5"
    else if nat_beq d 6
    then "6"
    else if nat_beq d 7
    then "7"
    else if nat_beq d 8
    then "8"
    else "9"

-- The fuel is the number itself plus one, and each round divides by ten.
decimal_loop : ℕ → ℕ → String
decimal_loop zero n = String.[]
decimal_loop (suc fuel) n =
    let more = decimal_loop fuel (n / 10) ++ digit (n % 10) in if ltb n 10 then digit n else more

-- `str(n)`
unfoldable pub decimal : ℕ → String
unfolding decimal_loop
decimal n = decimal_loop (suc n) n

strip_runs : strip "  ab c \n" ≡ "ab c"
unfolding strip
strip_runs = refl

sorted_set_runs : sorted_set ("b" ∷ "a" ∷ "b" ∷ "ab" ∷ []) ≡ "a" ∷ "ab" ∷ "b" ∷ []
unfolding sorted_set
sorted_set_runs = refl

decimal_runs : decimal 4070 ≡ "4070"
unfolding decimal
decimal_runs = refl

split_runs : split_slashes "/a//b" ≡ "" ∷ "a" ∷ "" ∷ "b" ∷ []
unfolding split_slashes
split_runs = refl
