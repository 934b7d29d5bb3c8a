-- ===== src/Audit/Reading.antt =====
-- `read_events` of MutationAuditJournal, in src/sentinelx_core/mutation_audit.py.
use sentinelx_cloud_core.Base.{
  if◌then◌else◌, String, Bool, true, false, ◌==◌, string_eq, nat_eq, list_eq, Option, none, some,
  List, [], ◌∷◌,
}
use sentinelx_cloud_core.Base.Text.{is_blank, strip}
use sentinelx_cloud_core.Base.Split.{splitlines}
use sentinelx_cloud_core.Base.Result.{Result, ok, err}
use sentinelx_cloud_core.Json.{json_beq, null, Json, text, object, Fields, end, field}
use sentinelx_cloud_core.Audit.Journal.{AuditHost, Broker, Failure, durability, attribute_error}

-- `event.get(key)`: none when a value is no dictionary, which has no `get`.
abbrev field_of : String → Fields → Json
field_of key end = null
field_of key (field name value more) =
    let later = field_of key more in if name == key then value else later

-- Whether the caller asks for the event.
unfoldable pub wanted : Option String → Json → Result Failure Bool
wanted none event = ok true
wanted (some id) (object fields) = ok (json_beq (field_of "operation_id" fields) (text id))
wanted (some id) other = err attribute_error

abbrev pub with_event :
    Result Failure Bool → Json → Result Failure (List Json) → Result Failure (List Json)
with_event (err x) event rest = err x
with_event (ok keep) event (err x) = err x
with_event (ok true) event (ok events) = ok (event ∷ events)
with_event (ok false) event (ok events) = ok events

-- What a parsed line adds to the rest.
abbrev pub with_line :
    Option String → Option Json → Result Failure (List Json) → Result Failure (List Json)
with_line id none rest = err durability
with_line id (some event) rest = with_event (wanted id event) event rest

module _ (h : AuditHost) where
  unfoldable pub events_in : Option String → List String → Result Failure (List Json)
  unfolding wanted
  events_in id [] = ok []
  events_in id (line ∷ lines) =
      let rest = events_in id lines in
      if is_blank (strip line) then rest else with_line id (h.loads line) rest

  -- `read_events`
  unfoldable pub read_events : Option String → Broker → Result Failure (List Json)
  unfolding events_in
  read_events id w = events_in id (splitlines w.journal)
