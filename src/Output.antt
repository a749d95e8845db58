-- ===== src/Output.antt =====
-- internal/output/jsonlines.go: the structured events that the collector writes, one call of Encode
-- of package encoding/json for each. A call that fails leaves no entry in the log.
pub mod Metrics
pub mod Prometheus
use dhcp_lease_observer.Prelude.{
  ℕ, suc, Bool, not, ◌&&◌, ◌||◌, List, [], ◌∷◌, ◌++◌, Validation, ok, err, ◌>>=◌, ◌>>◌, reject_if,
  wrap_err, leb, ltb, length, ℤ, pos, eqb_ℤ, differ, ◌==◌, if◌then◌else◌,
}
use dhcp_lease_observer.Text.{
  Bytes, codes, is_empty, is_label_byte, one_or_more, is_failure_class, bytes_eq,
}
use dhcp_lease_observer.Clock.{Time, is_zero_time}
use dhcp_lease_observer.State.{is_utc}
use dhcp_lease_observer.State.Event.{Event, EventError, validate_events}

abbrev pub max_events : ℕ
max_events = 4096

abbrev pub max_label_id_bytes : ℕ
max_label_id_bytes = 128

-- `validLabelID`; a text of ASCII bytes is valid UTF-8.
unfoldable pub valid_label_id : Bytes → Bool
valid_label_id value =
    not (is_empty value) && leb (length value) max_label_id_bytes && one_or_more is_label_byte value

-- The fields that a transition event shares with the event of the state are kept together.
pub record TransitionEvent : Type 0 where
  pub event : Event
  pub severity : Bytes
  pub source : Bytes
  pub source_instance : Bytes

pub record StatusEvent : Type 0 where
  pub version : ℤ
  pub observed_at : Time
  pub event : Bytes
  pub severity : Bytes
  pub source : Bytes
  pub source_instance : Bytes
  pub status : Bytes
  pub failure_class : Bytes
  pub retryable : Bool
  pub command : Bytes

pub record StartupFailureEvent : Type 0 where
  pub version : ℤ
  pub observed_at : Time
  pub event : Bytes
  pub severity : Bytes
  pub source : Bytes
  pub source_instance : Bytes
  pub failure_class : Bytes
  pub retryable : Bool

pub data Entry : Type 0 where
  transition_entry : TransitionEvent → Entry
  status_entry : StatusEvent → Entry
  startup_entry : StartupFailureEvent → Entry

-- What was written, and how often Encode was called.
pub record Log : Type 0 where
  pub entries : List Entry
  pub calls : ℕ

pub data OutputError : Type 0 where
  event_limit source_invalid encode_failed status_invalid severity_invalid : OutputError
  command_invalid startup_invalid source_incomplete : OutputError
  bad_event : EventError → OutputError

-- Whether the nth call of Encode succeeds.
abbrev pub Sink : Type 0
Sink = ℕ → Bool

unfoldable pub encode : Sink → Entry → Log → Validation OutputError × Log
encode sink entry log =
    if sink log.calls
    then (ok tt, record { entries = log.entries ++ entry ∷ []; calls = suc log.calls })
    else (err encode_failed, record log { calls = suc log.calls })

abbrev pub transition_event : Bytes → Bytes → Event → TransitionEvent
transition_event source instance_name event = record {
  event = event;
  severity = codes "info";
  source = source;
  source_instance = instance_name;
}

-- The next call, if the call before it succeeded.
abbrev pub and_then :
    Validation OutputError × Log
    → (Log → Validation OutputError × Log)
    → Validation OutputError × Log
and_then (ok _, log) next = next log
and_then (err e, log) next = (err e, log)

-- The second loop of `WriteEvents`.
unfoldable pub encode_events :
    Sink → Bytes → Bytes → List Event → Log → Validation OutputError × Log
encode_events sink source instance_name [] log = (ok tt, log)
encode_events sink source instance_name (event ∷ events) log =
    and_then (encode sink (transition_entry (transition_event source instance_name event)) log)
      (encode_events sink source instance_name events)

-- The guards of `WriteEvents`.
unfoldable pub check_events : Bytes → Bytes → List Event → Validation OutputError
check_events source instance_name events = do
  reject_if (ltb max_events (length events)) event_limit
  reject_if (not (valid_label_id source) || not (valid_label_id instance_name)) source_invalid
  wrap_err bad_event (validate_events events)

-- What is behind guards runs only if they pass.
abbrev pub guarded :
    Validation OutputError
    → (Log → Validation OutputError × Log)
    → Log
    → Validation OutputError × Log
guarded (ok _) action log = action log
guarded (err e) action log = (err e, log)

-- `WriteEvents`
unfoldable pub write_events : Sink → Bytes → Bytes → List Event → Log → Validation OutputError × Log
write_events sink source instance_name events =
    guarded (check_events source instance_name events)
      (encode_events sink source instance_name events)

unfoldable pub valid_fixed_command : Bytes → Bool
valid_fixed_command command =
    command == codes "configure"
    || command == codes "terminal length 0"
    || command == codes "show ip dhcp lease"
    || command == codes "show arp entry"
    || command == codes "exit"

unfoldable pub is_authorization : Bytes → Bool
is_authorization class =
    class == codes "authorization_failed" || class == codes "arp_authorization_failed"

-- The switch over the status.
abbrev pub check_status : Bytes → Bytes → Validation OutputError
check_status status severity =
    if status == codes "degraded"
    then reject_if (not (severity == codes "warn")) severity_invalid
    else if status == codes "failed"
    then reject_if (not (severity == codes "error")) severity_invalid
    else err status_invalid

-- The guards of `WriteStatusEvent`.
unfoldable pub status_validate : StatusEvent → Validation OutputError
status_validate e = do
  reject_if
      (not (eqb_ℤ e.version (pos 1))
        || not (e.event == codes "collector_status")
        || is_zero_time e.observed_at
        || not (is_utc e.observed_at)
        || not (valid_label_id e.source)
        || not (valid_label_id e.source_instance)
        || not (is_failure_class e.failure_class))
      status_invalid
  check_status e.status e.severity
  reject_if (differ (is_authorization e.failure_class) (valid_fixed_command e.command))
      command_invalid

-- `WriteStatusEvent`
unfoldable pub write_status_event : Sink → StatusEvent → Log → Validation OutputError × Log
write_status_event sink event = guarded (status_validate event) (encode sink (status_entry event))

-- The guards of `WriteStartupFailureEvent`.
unfoldable pub startup_validate : StartupFailureEvent → Validation OutputError
startup_validate e = do
  reject_if
      (not (eqb_ℤ e.version (pos 1))
        || not (e.event == codes "collector_start_failed")
        || not (e.severity == codes "error")
        || is_zero_time e.observed_at
        || not (is_utc e.observed_at)
        || not (is_failure_class e.failure_class)
        || e.retryable)
      startup_invalid
  reject_if (differ (is_empty e.source) (is_empty e.source_instance)) source_incomplete
  reject_if
      (not (is_empty e.source)
        && (not (valid_label_id e.source) || not (valid_label_id e.source_instance)))
      source_invalid

-- `WriteStartupFailureEvent`
unfoldable pub write_startup_failure_event :
    Sink → StartupFailureEvent → Log → Validation OutputError × Log
write_startup_failure_event sink event =
    guarded (startup_validate event) (encode sink (startup_entry event))
