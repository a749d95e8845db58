-- ===== src/Collector/Run.antt =====
-- `Run` of internal/collector/collector.go: the order of its writes.
use dhcp_lease_observer.Prelude.{
  Bool, true, false, not, ◌&&◌, Option, none, some, Result, Validation, ok, err, length, pos,
  if◌then◌else◌,
}
use dhcp_lease_observer.Text.{Bytes, codes}
use dhcp_lease_observer.Clock.{Time, sub_time}
use dhcp_lease_observer.State.{Snapshot}
use dhcp_lease_observer.Output.{Log, StatusEvent, OutputError, write_events}
use dhcp_lease_observer.Collector.{
  Loaded, absent, unreadable, found, Env, World, Runner, Failure, RunResult, new_failure, is_label,
  non_negative_duration, read_clock, metrics_of, save_prometheus, save_state, log_status, report,
  fail,
}
use dhcp_lease_observer.Collector.Prepare.{Plan, prepare}

abbrev pub degraded_status : Runner → Plan → StatusEvent
degraded_status runner plan = record {
  version = pos 1;
  observed_at = plan.observed_at;
  event = codes "collector_status";
  severity = codes "warn";
  source = runner.source_name;
  source_instance = runner.source_instance;
  status = codes "degraded";
  failure_class = plan.arp_failure_class;
  retryable = plan.arp_failure_retryable;
  command = plan.arp_failure_command;
}

-- What follows the events: the status of a run without an ARP table.
abbrev pub log_degraded : Env → Runner → Plan → World → Validation OutputError × Log → Bool × World
log_degraded env runner plan w (err _, log) = (false, record w { log = log })
log_degraded env runner plan w (ok _, log) =
    if plan.arp_available
    then (true, record w { log = log })
    else log_status env (degraded_status runner plan) (record w { log = log })

-- The events of a run and its status.
unfoldable pub log_plan : Env → Runner → Plan → World → Bool × World
log_plan env runner plan w =
    log_degraded env runner plan w
      (write_events env.sink runner.source_name runner.source_instance plan.events w.log)

abbrev pub failed {ℓ} : {A : Type ℓ} → Failure × World → Result Failure A × World
failed (f, w) = (err f, w)

-- The end of `Run`, behind the write of the state.
unfoldable pub publish : Env → Runner → Time → Plan → World → Result Failure RunResult × World
publish env runner started_at plan w =
    let (read_at, w₁) = read_clock env w in
    let duration = non_negative_duration (sub_time read_at started_at) in
    let (done, w₂) =
      save_prometheus env (metrics_of runner true started_at duration (some plan.current)) w₁ in
    if done
    then (ok (record { events = length plan.events; arp_available = plan.arp_available }), w₂)
    else let (now, w₃) = read_clock env w₂ in
      failed (report env runner now (new_failure (codes "metrics_write_failed") true) w₃)

-- `Run` from the write of the state on.
unfoldable pub store_plan :
    Env → Runner → Time → Option Snapshot → Plan → World → Result Failure RunResult × World
store_plan env runner started_at previous plan w =
    let (saved, w₁) = save_state env plan.current w in
    if not saved
    then failed
        (fail env runner started_at previous (new_failure (codes "state_save_failed") true) w₁)
    else publish env runner started_at plan w₁

-- The part of `Run` that writes.
unfoldable pub commit :
    Env → Runner → Time → Option Snapshot → Plan → World → Result Failure RunResult × World
commit env runner started_at previous plan w =
    let (logged, w₁) = log_plan env runner plan w in
    if not logged
    then (err (new_failure (codes "event_output_failed") true), w₁)
    else store_plan env runner started_at previous plan w₁

abbrev has_identity : Runner → Bool
has_identity runner = elim runner.identity [ none ↦ false | some _ ↦ true ]

-- The guard of `Run`; `complete` stands for the source, the writer, the clock and the two paths.
unfoldable pub runner_valid : Runner → Bool
runner_valid runner =
    runner.complete
    && has_identity runner
    && is_label runner.source_name
    && is_label runner.source_instance
    && is_label runner.scope

-- `Run` behind its guard and the load of the state.
unfoldable pub attempt :
    (Bytes → Bytes → Bytes)
    → Env
    → Runner
    → Time
    → Option Snapshot
    → World
    → Result Failure RunResult × World
attempt hmac env runner started_at previous w = elim (prepare hmac runner previous env.collected) [
  | err f ↦ failed (fail env runner started_at previous f w)
  | ok plan ↦ commit env runner started_at previous plan w
]

-- `Run` behind its guard, on what the load of the state gave.
abbrev pub run_from :
    (Bytes → Bytes → Bytes)
    → Env
    → Runner
    → Loaded
    → Time
    → World
    → Result Failure RunResult × World
run_from hmac env runner unreadable started_at w =
    failed (fail env runner started_at none (new_failure (codes "state_load_failed") false) w)
run_from hmac env runner absent started_at w = attempt hmac env runner started_at none w
run_from hmac env runner (found previous) started_at w =
    attempt hmac env runner started_at (some previous) w

-- `runner.Run`
unfoldable pub run :
    (Bytes → Bytes → Bytes) → Env → Runner → World → Result Failure RunResult × World
run hmac env runner w =
    if not (runner_valid runner)
    then (err (new_failure (codes "invalid_runner") false), w)
    else let (started_at, w₁) = read_clock env w in run_from hmac env runner env.load started_at w₁
