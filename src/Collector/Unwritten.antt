-- ===== src/Collector/Unwritten.antt =====
-- What keeps the events and the status of a run out of the log: `WriteEvents` and `WriteStatusEvent`
-- of internal/output/jsonlines.go as internal/collector/collector.go calls them.
use dhcp_lease_observer.Prelude.{
  ℕ, suc, ◌≡◌, ◌≤◌, ◌⊎◌, refl, inl, inr, Bool, true, false, List, [], ◌∷◌, arith, Validation, ok,
  err, Result-cases, Bool-cases, if◌then◌else◌,
}
use dhcp_lease_observer.State.Event.{Event}
use dhcp_lease_observer.Output.{
  Sink, Log, Entry, OutputError, StatusEvent, status_entry, status_validate, write_status_event,
  transition_entry, transition_event, check_events, encode, encode_events, encode_failed,
  write_events,
}
use dhcp_lease_observer.Collector.{Env, World, Runner, log_status}
use dhcp_lease_observer.Collector.Prepare.{Plan}
use dhcp_lease_observer.Collector.Run.{degraded_status, log_degraded, log_plan}
use dhcp_lease_observer.Collector.Logged.{appended}

-- The last call of Encode, which is the nth or a later one, failed.
pub record FailsAt (sink : Sink) (n : ℕ) (log : Log) : Type 0 where
  pub call : ℕ
  pub later : n ≤ call
  pub last : log.calls ≡ suc call
  pub failed : sink call ≡ false

abbrev pub missed : Log → Log
missed log = record log { calls = suc log.calls }

pub missed-FailsAt :
    (sink : Sink) (n : ℕ) (log : Log)
    → n ≤ log.calls
    → sink log.calls ≡ false
    → FailsAt sink n (missed log)
missed-FailsAt sink n log l f = record { call = log.calls; later = l; last = refl; failed = f }

encode-ways :
    (sink : Sink) (entry : Entry) (log : Log)
    → (encode sink entry log ≡ (ok tt, appended entry log))
      ⊎ ((encode sink entry log ≡ (err encode_failed, missed log)) × (sink log.calls ≡ false))
unfolding encode
encode-ways sink entry log = elim (Bool-cases (sink log.calls)) [
  | inl b ↦ inl (rw b)
  | inr b ↦ inr (rw b, b)
]

-- A status is refused, written, or lost as its call of Encode fails.
pub write_status-ways :
    (sink : Sink) (event : StatusEvent) (log : Log)
    → ((e : OutputError) × ((status_validate event ≡ err e)
          × (write_status_event sink event log ≡ (err e, log))))
      ⊎ ((write_status_event sink event log ≡ (ok tt, appended (status_entry event) log))
          ⊎ ((write_status_event sink event log ≡ (err encode_failed, missed log))
              × (sink log.calls ≡ false)))
unfolding write_status_event
write_status-ways sink event log = elim (Result-cases (status_validate event)) [
  | inr (e, h) ↦ inl (e, (h, rw (h, write_status_event)))
  | inl (u, h) ↦ elim (encode-ways sink (status_entry event) log) [
    | inl b ↦ inr (inl (rw (h, write_status_event) b))
    | inr (b, f) ↦ inr (inr (rw (h, write_status_event) b, f))
  ]
]

module _ (sink : Sink) (runner : Runner) where
  abbrev written : List Event → Log → Validation OutputError × Log
  written = encode_events sink runner.source_name runner.source_instance

  encode_events-grows : (events : List Event) (log : Log) → log.calls ≤ (written events log).1.calls
  unfolding encode_events
  encode_events-grows [] log = omega arith
  encode_events-grows (e ∷ es) log =
      let entry = transition_entry (transition_event runner.source_name runner.source_instance e) in
      elim (encode-ways sink entry log) [
        | inr (b, f) ↦ rw (b, encode_events) (omega arith)
        | inl b ↦
            let h = encode_events-grows es (appended entry log) in
            rw (b, encode_events) (omega arith)
      ]

  encode_events-FailsAt :
      (n : ℕ) (events : List Event) (log : Log) (e : OutputError)
      → n ≤ log.calls
      → (written events log).0 ≡ err e
      → FailsAt sink n (written events log).1
  unfolding encode_events
  encode_events-FailsAt n [] log e l h = absurd (cc)
  encode_events-FailsAt n (a ∷ es) log e l h =
      let entry = transition_entry (transition_event runner.source_name runner.source_instance a) in
      elim (encode-ways sink entry log) [
        | inr (b, f) ↦ rw (b, encode_events) (missed-FailsAt sink n log l f)
        | inl b ↦
            rw (b, encode_events)
              (encode_events-FailsAt n es (appended entry log) e (omega arith)
                (rw (b, encode_events) at h))
      ]

-- Why the events of a plan and its status are not all in the log, which is then `log`.
pub data PlanUnwritten (env : Env) (runner : Runner) (plan : Plan) (n : ℕ) (log : Log)
    : Type 0 where
  events_refused :
      (e : OutputError)
      → check_events runner.source_name runner.source_instance plan.events ≡ err e
      → PlanUnwritten env runner plan n log
  degraded_refused :
      (e : OutputError)
      → plan.arp_available ≡ false
      → status_validate (degraded_status runner plan) ≡ err e
      → PlanUnwritten env runner plan n log
  write_failed : FailsAt env.sink n log → PlanUnwritten env runner plan n log

-- What the write of a plan does to the clock and the number of calls, and why it fails.
pub record Writes (env : Env) (runner : Runner) (plan : Plan) (w : World) (out : Bool × World)
    : Type 0 where
  pub readings : out.1.readings ≡ w.readings
  pub grows : w.log.calls ≤ out.1.log.calls
  pub unwritten : out.0 ≡ false → PlanUnwritten env runner plan w.log.calls out.1.log

log_degraded-Writes :
    (env : Env) (runner : Runner) (plan : Plan) (w : World) (log : Log)
    → w.log.calls ≤ log.calls
    → Writes env runner plan w (log_degraded env runner plan w (ok tt, log))
log_degraded-Writes env runner plan w log l = by_arp plan.arp_available refl
  where
    status : Bool × World
    status = log_status env (degraded_status runner plan) (record w { log = log })

    by_status : plan.arp_available ≡ false → Writes env runner plan w status
    by_status a = elim (write_status-ways env.sink (degraded_status runner plan) log) [
      | inl (e, (h, k)) ↦
          rw k (record { readings = refl; grows = l; unwritten = λ _. degraded_refused e a h })
      | inr (inl k) ↦
          rw k (record { readings = refl; grows = omega arith; unwritten = λ h. absurd (cc) })
      | inr (inr (k, f)) ↦ rw k (record {
        readings = refl;
        grows = omega arith;
        unwritten = λ _. write_failed (missed-FailsAt env.sink w.log.calls log l f);
      })
    ]

    by_arp :
        (b : Bool)
        → plan.arp_available ≡ b
        → Writes env runner plan w (if b then (true, record w { log = log }) else status)
    by_arp true a = record { readings = refl; grows = l; unwritten = λ h. absurd (cc) }
    by_arp false a = by_status a

pub log_plan-Writes :
    (env : Env) (runner : Runner) (plan : Plan) (w : World)
    → Writes env runner plan w (log_plan env runner plan w)
unfolding log_plan write_events
log_plan-Writes env runner plan w =
    elim (Result-cases (check_events runner.source_name runner.source_instance plan.events)) [
      | inr (e, h) ↦
          rw (h, log_plan, write_events)
            (record { readings = refl; grows = omega arith; unwritten = λ _. events_refused e h })
      | inl (u, h) ↦
          rw (h, log_plan, write_events)
            (encoded (written env.sink runner plan.events w.log)
              (encode_events-grows env.sink runner plan.events w.log)
              (λ e.
                encode_events-FailsAt env.sink runner w.log.calls plan.events w.log e
                  (omega arith)))
    ]
  where
    encoded :
        (out : Validation OutputError × Log)
        → w.log.calls ≤ out.1.calls
        → ((e : OutputError) → out.0 ≡ err e → FailsAt env.sink w.log.calls out.1)
        → Writes env runner plan w (log_degraded env runner plan w out)
    encoded (ok tt, log) l f = log_degraded-Writes env runner plan w log l
    encoded (err e, log) l f = record {
      readings = refl;
      grows = l;
      unwritten = λ _. write_failed (f e refl);
    }
