-- ===== src/Pending/Tests.antt =====
-- Two recorded results, drained.
use sentinelx_cloud_core.Base.{
  ℕ, String, Bool, true, false, ◌&&◌, ◌≡◌, ◌≢◌, ◌≤◌, ◌+◌, refl, arith, leb, leb→le, not, ◌==◌,
  string_eq, Option, List, [], ◌∷◌, ltb, ◌||◌,
}
use sentinelx_cloud_core.Base.Dict.{lookup}
use sentinelx_cloud_core.Base.Lists.{all}
use sentinelx_cloud_core.Base.Text.{codes, char_count, is_blank}
use sentinelx_cloud_core.Pending.{
  Directory, holds, unreadable, writes, no_directory, record_event, drain, safe_name,
  max_pending_files,
}
use sentinelx_cloud_core.Pending.Bounded.{IsBounded, record_event-IsBounded}
use sentinelx_cloud_core.Pending.Named.{is_safe, safe_name-all}

abbrev alnum : ℕ → Bool
alnum c = leb 0x61 c && leb c 0x7a || leb 0x30 c && leb c 0x39

-- Every file but one can be removed.
abbrev can_remove : String → Bool
can_remove name = not (name == "b.json")

abbrev before : Directory String
before = ("a.json", holds 10 "first") ∷ ("b.json", unreadable) ∷ []

abbrev after : Directory String
after = ("a.json", holds 10 "first") ∷ ("b.json", unreadable) ∷ ("c7.json", holds 20 "second") ∷ []

-- The expired result goes, and so would the unreadable file; but that cannot be removed.
drained : (drain can_remove 86420 after).events ≡ []
unfolding drain sentinelx_cloud_core.Base.Text.sort_by lookup
drained = refl

drained-finished : (drain can_remove 86420 after).finished ≡ false
unfolding drain sentinelx_cloud_core.Base.Text.sort_by lookup
drained-finished = refl

-- With every file removable, the second is yielded.
drained-all : (drain (λ name. true) 86420 after).events ≡ ("c7.json", "second") ∷ []
unfolding drain sentinelx_cloud_core.Base.Text.sort_by lookup
drained-all = refl

record_event-IsBounded_example :
    IsBounded (record_event can_remove alnum writes 20 "c/7" "second" before) before
record_event-IsBounded_example =
    record_event-IsBounded can_remove alnum writes 20 "c/7" "second" before

letters : (c : ℕ) → 0x61 ≤ c → c ≤ 0x7a → alnum c ≡ true
letters c a b = ground arith

safe_name-all_example :
    (all (is_safe alnum) (codes (safe_name alnum "../c")) ≡ true)
    × (char_count (safe_name alnum "../c") ≤ 64)
    × (is_blank (safe_name alnum "../c") ≡ false)
safe_name-all_example = safe_name-all alnum letters "../c"
