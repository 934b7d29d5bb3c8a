-- ===== src/Pending.antt =====
-- src/sentinelx_core/pending_results.py: the results of background jobs, kept on disk until they
-- are sent. The directory is a dictionary from the names of its `*.json` files; times are seconds.
pub mod Bounded
pub mod Named
pub mod Replayed
pub mod Tests
use sentinelx_cloud_core.Base.{
  ℕ, ◌+◌, ◌-◌, ◌*◌, String, Bool, true, false, ◌||◌, ◌==◌, Option, none, some, List, [], ◌∷◌,
  string_eq, nat_eq, ltb, leb, if◌then◌else◌,
}
use sentinelx_cloud_core.Base.Dict.{Dict, lookup, insert}
use sentinelx_cloud_core.Base.Lists.{length, take}
use sentinelx_cloud_core.Base.Text.{is_blank, take_chars, sort_by}
use Prim.Native.Char.{Char, code}
use Prim.Native.String.{◌++◌ as ◌<>◌}

abbrev pub pending_ttl_seconds : ℕ
pending_ttl_seconds = 24 * 3600

abbrev pub max_pending_files : ℕ
max_pending_files = 500

-- What a file holds; `E` is the type of the event objects.
pub data PendingFile (E : Type 0) : Type 0 where
  holds : ℕ → E → PendingFile E
  -- not JSON, without an event object, or with a time that is no number
  unreadable : PendingFile E

module _ (is_alnum : ℕ → Bool) where
  -- The characters of `"".join(c for c in job_id if c.isalnum() or c in "-_")`.
  unfoldable pub kept_chars : String → String
  kept_chars String.[] = String.[]
  kept_chars (String.◌∷◌ c s) =
      let rest = kept_chars s in
      if is_alnum (code c) || (code c == 0x2d || code c == 0x5f) then String.◌∷◌ c rest else rest

  -- `_safe_name`
  unfoldable pub safe_name : String → String
  unfolding kept_chars
  safe_name job_id =
      let keep = take_chars 64 (kept_chars job_id) in if is_blank keep then "unnamed" else keep

-- What becomes of the write: the directory cannot be made, the file cannot be written, or it is.
pub data Disk : Type 0 where
  no_directory : Disk
  no_write : Disk
  writes : Disk

abbrev pub Directory : Type 0 → Type 0
Directory E = Dict (PendingFile E)

-- What `drain` does: the results that it yields, in order, whether it comes to its end or raises,
-- and the directory that it leaves.
pub record Drained (E : Type 0) : Type 0 where
  pub events : List (String × E)
  pub finished : Bool
  pub directory : Directory E

module _ {E : Type 0} where
  abbrev pub names : Directory E → List String
  names [] = []
  names ((name, file) ∷ d) = name ∷ names d

  -- `path.unlink(missing_ok=True)`
  unfoldable pub unlink : String → Directory E → Directory E
  unlink name [] = []
  unlink name ((other, file) ∷ d) =
      let rest = unlink name d in if other == name then rest else (other, file) ∷ rest

  -- `sorted(d.glob("*.json"))`
  unfoldable pub listing : Directory E → List String
  listing d = sort_by (λ t. t) (names d)

  -- `unlink` raises for the files that are not `removable`.
  module _ (removable : String → Bool) where
    -- The loop of removals, and whether it came to its end.
    unfoldable pub unlink_all : List String → Directory E → Bool × Directory E
    unfolding unlink
    unlink_all [] d = (true, d)
    unlink_all (name ∷ more) d =
        let rest = unlink_all more (unlink name d) in if removable name then rest else (false, d)

    -- The files that make room for a new one, when the directory is full.
    unfoldable pub make_room : Directory E → Bool × Directory E
    unfolding listing unlink_all
    make_room d =
        let existing = listing d in
        if leb max_pending_files (length existing)
        then unlink_all (take (length existing - max_pending_files + 1) existing) d
        else (true, d)

    -- The write of a file of that name, once the directory is there and there is room.
    abbrev pub write_event :
        Disk → ℕ → String → E → Bool × Directory E → Option String × Directory E
    write_event no_directory now name event (room, d) = (none, d)
    write_event no_write now name event (room, d) = (none, d)
    write_event writes now name event (false, d) = (none, d)
    write_event writes now name event (true, d) = (some name, insert name (holds now event) d)

    abbrev pub room_on : Disk → Directory E → Bool × Directory E
    room_on no_directory d = (false, d)
    room_on no_write d = make_room d
    room_on writes d = make_room d

    module _ (is_alnum : ℕ → Bool) where
      -- `record`: the path that it returns, and the directory that it leaves.
      unfoldable pub record_event :
          Disk → ℕ → String → E → Directory E → Option String × Directory E
      record_event disk now job_id event d =
          write_event disk now (safe_name is_alnum job_id <> ".json") event (room_on disk d)

    -- `clear`: a removal that fails is logged.
    unfoldable pub clear : Option String → Directory E → Directory E
    unfolding unlink
    clear none d = d
    clear (some name) d = if removable name then unlink name d else d

    -- What one file adds to the rest of the loop: nothing, or its event.
    abbrev pub drain_step : ℕ → String → Option (PendingFile E) → Drained E → Drained E → Drained E
    drain_step now name none removed kept = removed
    drain_step now name (some unreadable) removed kept = removed
    drain_step now name (some (holds at event)) removed kept =
        if ltb (at + pending_ttl_seconds) now
        then removed
        else record kept { events = (name, event) ∷ kept.events }

    -- A removal that fails raises again in the handler, and ends the loop.
    unfoldable pub drain_loop : ℕ → List String → Directory E → Drained E
    unfolding unlink
    drain_loop now [] d = record { events = []; finished = true; directory = d }
    drain_loop now (name ∷ more) d =
        let rest = drain_loop now more (unlink name d) in
        let kept = drain_loop now more d in
        let removed =
          if removable name
          then rest
          else record { events = []; finished = false; directory = d } in
        drain_step now name (lookup name d) removed kept

    unfoldable pub drain : ℕ → Directory E → Drained E
    unfolding drain_loop listing
    drain now d = drain_loop now (listing d) d
