-- ===== src/Collector/Done/Writes.antt =====
-- What the writes of a run leave when they succeed.
use dhcp_lease_observer.Prelude.{
  ◌≡◌, ◌∙◌, refl, sym, ap, inl, inr, true, Option, some, List, [], ◌∷◌, ◌++◌, arith, ok,
  Result-cases, Bool-cases, if◌then◌else◌,
}
use mathlib.Core.List.{append-nil, append_assoc}
use dhcp_lease_observer.State.{Snapshot, validate}
use dhcp_lease_observer.Output.{
  Log, Entry, StatusEvent, status_entry, status_validate, write_status_event,
}
use dhcp_lease_observer.Output.Metrics.{Metrics, metrics_validate}
use dhcp_lease_observer.Collector.{
  WriteOutcome, replaced, unchanged, replaced_unsynced, write_file, Env, World, Runner, save_state,
  save_prometheus, log_status,
}
use dhcp_lease_observer.Collector.Prepare.{Plan}
use dhcp_lease_observer.Collector.Run.{log_plan, log_degraded, degraded_status}
use dhcp_lease_observer.Collector.Logged.{event_entries, write_events-ok, encode-cases}

-- The status entry of a run without an ARP table, and none with one.
abbrev pub status_entries : Runner → Plan → List Entry
status_entries runner plan =
    if plan.arp_available then [] else status_entry (degraded_status runner plan) ∷ []

write_file-true {ℓ} :
    {A : Type ℓ} (o : WriteOutcome) (new : A) (old : Option A)
    → (write_file o new old).0 ≡ true
    → (write_file o new old).1 ≡ some new
write_file-true replaced new old h = refl
write_file-true unchanged new old h = absurd (cc)
write_file-true replaced_unsynced new old h = absurd (cc)

pub save_state-true :
    (env : Env) (s : Snapshot) (w : World)
    → (save_state env s w).0 ≡ true
    → (save_state env s w).1 ≡ record w { store = some s }
unfolding save_state
save_state-true env s w h = elim (Result-cases (validate s)) [
  | inr (e, k) ↦ absurd (ground (arith, k))
  | inl (u, k) ↦
      rw (k, save_state)
        (ap (λ x. record w { store = x })
          (write_file-true env.state_write s w.store (rw (k, save_state) at h)))
]

pub save_prometheus-true :
    (env : Env) (m : Metrics) (w : World)
    → (save_prometheus env m w).0 ≡ true
    → (save_prometheus env m w).1 ≡ record w { metrics = some m }
unfolding save_prometheus
save_prometheus-true env m w h = elim (Result-cases (metrics_validate m)) [
  | inr (e, k) ↦ absurd (ground (arith, k))
  | inl (u, k) ↦
      rw (k, save_prometheus)
        (ap (λ x. record w { metrics = x })
          (write_file-true env.metrics_write m w.metrics (rw (k, save_prometheus) at h)))
]

log_status-true :
    (env : Env) (event : StatusEvent) (w : World)
    → (log_status env event w).0 ≡ true
    → (log_status env event w).1.log.entries ≡ w.log.entries ++ status_entry event ∷ []
unfolding write_status_event
log_status-true env event w h = elim (Result-cases (status_validate event)) [
  | inr (e, k) ↦ absurd (ground (arith, k))
  | inl (u, k) ↦ elim (encode-cases env.sink (status_entry event) w.log) [
    | inl b ↦ rw (k, b, log_status) refl
    | inr b ↦ absurd (ground (arith, k, b))
  ]
]

log_degraded-true :
    (env : Env) (runner : Runner) (plan : Plan) (w : World) (log : Log)
    → (log_degraded env runner plan w (ok tt, log)).0 ≡ true
    → (log_degraded env runner plan w (ok tt, log)).1.log.entries
      ≡ log.entries ++ status_entries runner plan
log_degraded-true env runner plan w log h = elim (Bool-cases plan.arp_available) [
  | inl a ↦ rw (a, log_degraded) (sym (append-nil log.entries))
  | inr a ↦
      rw (a, log_degraded)
        (log_status-true env (degraded_status runner plan) (record w { log = log })
          (rw (a, log_degraded) at h))
]

pub log_plan-true :
    (env : Env) (runner : Runner) (plan : Plan) (w : World)
    → (log_plan env runner plan w).0 ≡ true
    → (log_plan env runner plan w).1.log.entries
      ≡ w.log.entries ++ (event_entries runner plan.events ++ status_entries runner plan)
unfolding log_plan
log_plan-true env runner plan w h = elim (write_events-ok env.sink runner plan.events w.log) [
  | inl (e, log, k) ↦ absurd (ground (arith, k))
  | inr (log, k, g) ↦
      rw (k, log_plan)
        (log_degraded-true env runner plan w log (rw (k, log_plan) at h)
          ∙ ap (λ x. x ++ status_entries runner plan) g
          ∙ append_assoc w.log.entries (event_entries runner plan.events)
              (status_entries runner plan))
]
