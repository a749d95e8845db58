-- ===== src/Collector.antt =====
-- internal/collector/collector.go: one collection attempt. What a run meets outside of the program
-- (the previous state file, the source's answer, the clock, the log's writer, the two file writes)
-- is the record Env; what it changes is the record World.
pub mod Prepare
pub mod Run
pub mod Extends
pub mod Logged
pub mod Commit
pub mod Unwritten
pub mod Reported
pub mod Files
pub mod Source
pub mod Reportable
pub mod Done
pub mod Announced
use dhcp_lease_observer.Prelude.{
  ℕ, suc, Bool, true, false, ◌&&◌, Option, none, some, [], ◌++◌, map, Result, Validation, ok, err,
  leb, length, ℤ, pos, ltb_ℤ, if◌then◌else◌,
}
use dhcp_lease_observer.Text.{Bytes, codes, is_label_byte, one_or_more}
use dhcp_lease_observer.Clock.{Time, zero_time, utc, sub_time}
use dhcp_lease_observer.Identity.{Generator}
use dhcp_lease_observer.State.{Snapshot, validate}
use dhcp_lease_observer.Session
use dhcp_lease_observer.Output.{Sink, Log, StatusEvent, OutputError, write_status_event}
use dhcp_lease_observer.Output.Metrics.{Metrics, metrics_validate}

-- An error of the source: a session failure, a transport error with its kind, or another one.
pub data CollectError : Type 0 where
  session_error : Session.Failure → CollectError
  transport_error : Bytes → Bool → CollectError
  other_error : CollectError

-- `transport.CommandBodies`
pub record CommandBodies : Type 0 where
  pub lease_observed_at : Time
  pub lease : Bytes
  pub arp : Bytes
  pub arp_failure : Option CollectError

-- The state file: absent, not to be read, or with a valid state.
pub data Loaded : Type 0 where
  absent unreadable : Loaded
  found : Snapshot → Loaded

-- An atomic write: the file is replaced and the call succeeds, the call fails and the file stays,
-- or the file is replaced and the sync of its directory fails.
pub data WriteOutcome : Type 0 where
  replaced unchanged replaced_unsynced : WriteOutcome

pub record Env : Type 0 where
  pub load : Loaded
  pub collected : Result CollectError CommandBodies
  pub now : ℕ → Time
  pub sink : Sink
  pub state_write : WriteOutcome
  pub metrics_write : WriteOutcome

-- The two files, the log, and how often the clock was read.
pub record World : Type 0 where
  pub store : Option Snapshot
  pub metrics : Option Metrics
  pub log : Log
  pub readings : ℕ

pub record Runner : Type 0 where
  pub complete : Bool
  pub identity : Option Generator
  pub source_name : Bytes
  pub source_instance : Bytes
  pub scope : Bytes

pub record Failure : Type 0 where
  pub kind : Bytes
  pub retryable : Bool
  pub command : Bytes

-- `failure.Error()`
unfoldable pub failure_text : Failure → Bytes
failure_text f = codes "collector attempt failed: " ++ f.kind

pub record RunResult : Type 0 where
  pub events : ℕ
  pub arp_available : Bool

abbrev pub new_failure : Bytes → Bool → Failure
new_failure kind retryable = record { kind = kind; retryable = retryable; command = [] }

-- `^[A-Za-z0-9._-]{1,128}$`
unfoldable pub is_label : Bytes → Bool
is_label s = one_or_more is_label_byte s && leb (length s) 128

unfoldable pub classify_error : CollectError → Failure
classify_error (session_error f) = record {
  kind = Session.kind_text f.kind;
  retryable = f.retryable;
  command = f.command;
}
classify_error (transport_error kind retryable) = new_failure kind retryable
classify_error other_error = new_failure (codes "acquisition_failed") true

abbrev pub non_negative_duration : ℤ → ℤ
non_negative_duration value = if ltb_ℤ value (pos 0) then pos 0 else value

-- `runner.Now().UTC()`
abbrev pub read_clock : Env → World → Time × World
read_clock env w = (utc (env.now w.readings), record w { readings = suc w.readings })

-- `runner.metrics`
unfoldable pub metrics_of : Runner → Bool → Time → ℤ → Option Snapshot → Metrics
metrics_of runner up last_attempt duration none = record {
  source_instance = runner.source_instance;
  up = up;
  last_attempt = last_attempt;
  last_success = zero_time;
  collection_duration = duration;
  leases = [];
}
metrics_of runner up last_attempt duration (some snapshot) = record {
  source_instance = runner.source_instance;
  up = up;
  last_attempt = last_attempt;
  last_success = snapshot.observed_at;
  collection_duration = duration;
  leases =
      map
        (λ l. record { device_id = l.device_id; ip = l.ip; scope = runner.scope; state = l.state })
        snapshot.leases;
}

abbrev pub write_file {ℓ} : {A : Type ℓ} → WriteOutcome → A → Option A → Bool × Option A
write_file replaced new old = (true, some new)
write_file unchanged new old = (false, old)
write_file replaced_unsynced new old = (false, some new)

-- `output.SavePrometheus`: metrics that are not valid leave the file as it is.
unfoldable pub save_prometheus : Env → Metrics → World → Bool × World
save_prometheus env m w = elim (metrics_validate m) [
  | err _ ↦ (false, w)
  | ok _ ↦
      let (done, file) = write_file env.metrics_write m w.metrics in
      (done, record w { metrics = file })
]

-- `state.Save`
unfoldable pub save_state : Env → Snapshot → World → Bool × World
save_state env s w = elim (validate s) [
  | err _ ↦ (false, w)
  | ok _ ↦
      let (done, file) = write_file env.state_write s w.store in (done, record w { store = file })
]

abbrev pub succeeded : Validation OutputError → Bool
succeeded (ok _) = true
succeeded (err _) = false

abbrev pub log_status : Env → StatusEvent → World → Bool × World
log_status env event w =
    let (result, log) = write_status_event env.sink event w.log in
    (succeeded result, record w { log = log })

abbrev pub failure_status : Runner → Time → Failure → StatusEvent
failure_status runner observed_at f = record {
  version = pos 1;
  observed_at = observed_at;
  event = codes "collector_status";
  severity = codes "error";
  source = runner.source_name;
  source_instance = runner.source_instance;
  status = codes "failed";
  failure_class = f.kind;
  retryable = f.retryable;
  command = f.command;
}

-- `runner.writeFailureStatus`, and the failure that is returned after it.
unfoldable pub report : Env → Runner → Time → Failure → World → Failure × World
report env runner observed_at f w =
    let (done, w') = log_status env (failure_status runner observed_at f) w in
    (if done then f else new_failure (codes "event_output_failed") true, w')

-- `runner.fail`
unfoldable pub fail : Env → Runner → Time → Option Snapshot → Failure → World → Failure × World
fail env runner started_at previous f w =
    let (observed_at, w₁) = read_clock env w in
    let duration = non_negative_duration (sub_time observed_at started_at) in
    let (done, w₂) =
      save_prometheus env (metrics_of runner false started_at duration previous) w₁ in
    report env runner observed_at
      (if done then f else new_failure (codes "metrics_write_failed") true) w₂
