-- ===== src/Collector/Reported/Ways.antt =====
-- The ways in which a run ends, for each failure of `Run` of internal/collector/collector.go.
use dhcp_lease_observer.Prelude.{
  ℕ, suc, ◌≡◌, ◌≢◌, ◌≤◌, Bool, true, false, Option, some, [], ◌∷◌, ◌++◌, Result, ok, err,
}
use dhcp_lease_observer.Text.{Bytes, codes}
use dhcp_lease_observer.Clock.{Time, utc, sub_time}
use dhcp_lease_observer.State.{Snapshot}
use dhcp_lease_observer.Output.{Log, StatusEvent, OutputError, status_entry, status_validate}
use dhcp_lease_observer.Output.Metrics.{Metrics}
use dhcp_lease_observer.Collector.{
  unreadable, Env, World, Runner, Failure, RunResult, new_failure, failure_status, save_prometheus,
  save_state, metrics_of, non_negative_duration,
}
use dhcp_lease_observer.Collector.Logged.{event_entries}
use dhcp_lease_observer.Collector.Commit.{previous_of}
use dhcp_lease_observer.Collector.Done.Writes.{status_entries}
use dhcp_lease_observer.Collector.Prepare.{Plan, prepare}
use dhcp_lease_observer.Collector.Run.{runner_valid}
use dhcp_lease_observer.Collector.Unwritten.{FailsAt, PlanUnwritten}

abbrev pub metrics_failure : Failure
metrics_failure = new_failure (codes "metrics_write_failed") true

abbrev pub output_failure : Failure
output_failure = new_failure (codes "event_output_failed") true

module _ (hmac : Bytes → Bytes → Bytes) (env : Env) (runner : Runner) (w : World) where
  abbrev pub started : Time
  started = utc (env.now w.readings)

  -- The metrics at the second reading of the clock.
  abbrev pub metrics : Bool → Option Snapshot → Metrics
  metrics up snapshot =
      metrics_of runner up started
        (non_negative_duration (sub_time (utc (env.now (suc w.readings))) started)) snapshot

  -- Whether they can be saved.
  abbrev pub measures : Bool → Option Snapshot → Bool
  measures up snapshot = (save_prometheus env (metrics up snapshot) w).0

  -- The source's answer gives a plan.
  abbrev pub IsPrepared : Plan → Type 0
  IsPrepared plan = prepare hmac runner (previous_of env.load) env.collected ≡ ok plan

  -- The events of a plan and its status are in the log.
  pub record IsWritten (plan : Plan) (log : Log) : Type 0 where
    pub prepared : IsPrepared plan
    pub entries :
        log.entries
        ≡ w.log.entries ++ (event_entries runner plan.events ++ status_entries runner plan)
    pub grows : w.log.calls ≤ log.calls

  -- What ends a run with the failure `f` while the log is `log`: the state file, the source's
  -- answer, or the write of the state.
  pub data Cause (f : Failure) (log : Log) : Type 0 where
    load_failed :
        env.load ≡ unreadable
        → f ≡ new_failure (codes "state_load_failed") false
        → log ≡ w.log
        → Cause f log
    not_prepared :
        env.load ≢ unreadable
        → prepare hmac runner (previous_of env.load) env.collected ≡ err f
        → log ≡ w.log
        → Cause f log
    save_failed :
        (plan : Plan)
        → IsWritten plan log
        → (save_state env plan.current w).0 ≡ false
        → f ≡ new_failure (codes "state_save_failed") true
        → Cause f log

  -- The failure that is to be told, with the number of the reading of the clock: the one that ends
  -- the run, or that the metrics of that failure, or those of the new state, cannot be saved.
  pub data Told (f : Failure) (n : ℕ) (log : Log) : Type 0 where
    told :
        Cause f log
        → n ≡ suc w.readings
        → measures false (previous_of env.load) ≡ true
        → Told f n log
    unmeasured :
        (g : Failure)
        → Cause g log
        → f ≡ metrics_failure
        → n ≡ suc w.readings
        → measures false (previous_of env.load) ≡ false
        → Told f n log
    unpublished :
        (plan : Plan)
        → IsWritten plan log
        → (save_state env plan.current w).0 ≡ true
        → f ≡ metrics_failure
        → n ≡ suc (suc w.readings)
        → measures true (some plan.current) ≡ false
        → Told f n log

  abbrev pub status : Failure → ℕ → StatusEvent
  status f n = failure_status runner (utc (env.now n)) f

  -- Why a status is not in the log, which is then `log`: its guards or its call of Encode.
  pub data Unwritten (event : StatusEvent) (log : Log) : Type 0 where
    refused : (e : OutputError) → status_validate event ≡ err e → Unwritten event log
    lost : FailsAt env.sink w.log.calls log → Unwritten event log

  -- The end of a run: it succeeds; its arguments are refused and nothing is done; its failure is
  -- told by the last entry of the log; or the log could not be written, for the status of the
  -- failure or for the plan.
  pub data IsReported (out : Result Failure RunResult × World) : Type 0 where
    done : (r : RunResult) → out.0 ≡ ok r → IsReported out
    rejected :
        runner_valid runner ≡ false
        → out ≡ (err (new_failure (codes "invalid_runner") false), w)
        → IsReported out
    logged :
        (f : Failure) (n : ℕ) (log : Log)
        → Told f n log
        → out.0 ≡ err f
        → out.1.log.entries ≡ log.entries ++ status_entry (status f n) ∷ []
        → IsReported out
    unlogged :
        (f : Failure) (n : ℕ) (log : Log)
        → Told f n log
        → out.0 ≡ err output_failure
        → out.1.log.entries ≡ log.entries
        → Unwritten (status f n) out.1.log
        → IsReported out
    plan_unlogged :
        (plan : Plan)
        → IsPrepared plan
        → out.0 ≡ err output_failure
        → PlanUnwritten env runner plan w.log.calls out.1.log
        → IsReported out
