-- ===== src/Collector/Logged.antt =====
-- The events of a run in the log.
use dhcp_lease_observer.Prelude.{
  ◌≡◌, refl, sym, ap, ◌∙◌, ◌⊎◌, inl, inr, Bool, true, false, some, List, [], ◌∷◌, ◌++◌, arith, ok,
  err, Result-cases, Bool-cases, suc, if◌then◌else◌,
}
use mathlib.Core.List.{append-nil, append_assoc}
use dhcp_lease_observer.State.{Snapshot, validate}
use dhcp_lease_observer.State.Event.{Event}
use dhcp_lease_observer.Output.{
  Sink, Log, Entry, transition_entry, transition_event, encode, encode_events, check_events,
  write_events, encode_failed, OutputError,
}
use dhcp_lease_observer.Collector.{
  WriteOutcome, replaced, unchanged, replaced_unsynced, write_file, Env, World, Runner, save_state,
}
use dhcp_lease_observer.Collector.Prepare.{Plan}
use dhcp_lease_observer.Collector.Run.{log_plan, log_degraded}
use dhcp_lease_observer.Collector.Extends.{Extends, log_status-Extends}

-- The log entries of the events of a run.
abbrev pub event_entries : Runner → List Event → List Entry
event_entries runner [] = []
event_entries runner (e ∷ es) =
    transition_entry (transition_event runner.source_name runner.source_instance e)
    ∷ event_entries runner es

abbrev pub appended : Entry → Log → Log
appended entry log = record { entries = log.entries ++ entry ∷ []; calls = suc log.calls }

pub encode-cases :
    (sink : Sink) (entry : Entry) (log : Log)
    → (encode sink entry log ≡ (ok tt, appended entry log))
      ⊎ (encode sink entry log ≡ (err encode_failed, record log { calls = suc log.calls }))
unfolding encode
encode-cases sink entry log = elim (Bool-cases (sink log.calls)) [
  | inl b ↦ inl (rw b)
  | inr b ↦ inr (rw b)
]

pub encode_events-ok :
    (sink : Sink) (runner : Runner) (events : List Event) (log : Log)
    → (encode_events sink runner.source_name runner.source_instance events log).0 ≡ ok tt
    → (encode_events sink runner.source_name runner.source_instance events log).1.entries
      ≡ log.entries ++ event_entries runner events
unfolding encode_events
encode_events-ok sink runner [] log h = sym (append-nil _)
encode_events-ok sink runner (e ∷ es) log h =
    let entry = transition_entry (transition_event runner.source_name runner.source_instance e) in
    elim (encode-cases sink entry log) [
      | inr b ↦ absurd (ground (arith, b))
      | inl b ↦
          rw (b, encode_events)
            (encode_events-ok sink runner es (appended entry log) (rw (b, encode_events) at h)
              ∙ append_assoc log.entries (entry ∷ []) (event_entries runner es))
    ]

pub save_state-cases :
    (env : Env) (s : Snapshot) (w : World)
    → ((save_state env s w).1 ≡ w) ⊎ ((save_state env s w).1 ≡ record w { store = some s })
unfolding save_state
save_state-cases env s w = elim (Result-cases (validate s)) [
  | inr (e, h) ↦ inl (rw (h, save_state))
  | inl (u, h) ↦ rw (h, save_state) (written env.state_write)
]
  where
    written :
        (o : WriteOutcome)
        → ((record w { store = (write_file o s w.store).1 }) ≡ w)
          ⊎ ((record w { store = (write_file o s w.store).1 }) ≡ record w { store = some s })
    written replaced = inr refl
    written unchanged = inl refl
    written replaced_unsynced = inr refl

-- The world after the events of a run: they are in the log, in their order, and the state file is
-- as before.
pub record Logged (runner : Runner) (plan : Plan) (w w' : World) : Type 0 where
  pub kept : w'.store ≡ w.store
  pub rest : List Entry
  pub grown : w'.log.entries ≡ w.log.entries ++ (event_entries runner plan.events ++ rest)

pub Logged-Extends :
    {runner : Runner} {plan : Plan} {u v w : World}
    → Logged runner plan u v
    → Extends v w
    → Logged runner plan u w
Logged-Extends {runner} {plan} {u} {v} {w} l e = record {
  kept = e.kept ∙ l.kept;
  rest = l.rest ++ e.rest;
  grown =
      e.grown
      ∙ ap (λ k. k ++ e.rest) l.grown
      ∙ append_assoc u.log.entries (event_entries runner plan.events ++ l.rest) e.rest
      ∙ ap (λ k. u.log.entries ++ k)
          (append_assoc (event_entries runner plan.events) l.rest e.rest);
}

pub if-Logged :
    {A : Type 0} {runner : Runner} {plan : Plan} {w : World} (test : Bool) (x y : A × World)
    → Logged runner plan w x.1
    → Logged runner plan w y.1
    → Logged runner plan w (if test then x else y).1
if-Logged true x y e f = e
if-Logged false x y e f = f

pub log_degraded-Logged :
    (env : Env) (runner : Runner) (plan : Plan) (w : World) (log : Log)
    → log.entries ≡ w.log.entries ++ event_entries runner plan.events
    → Logged runner plan w (log_degraded env runner plan w (ok tt, log)).1
log_degraded-Logged env runner plan w log h =
    let base : Logged runner plan w (record w { log = log }) = record {
      kept = refl;
      rest = [];
      grown = h ∙ ap (λ k. w.log.entries ++ k) (sym (append-nil _));
    } in
    if-Logged plan.arp_available _ _ base (Logged-Extends base (log_status-Extends env _ _))

pub write_events-ok :
    (sink : Sink) (runner : Runner) (events : List Event) (log : Log)
    → ((e : OutputError) × (log' : Log) × (write_events sink runner.source_name
            runner.source_instance events log
          ≡ (err e, log')))
      ⊎ ((log' : Log) × (write_events sink runner.source_name runner.source_instance events log
            ≡ (ok tt, log'))
          × (log'.entries ≡ log.entries ++ event_entries runner events))
unfolding write_events
write_events-ok sink runner events log =
    let checks = check_events runner.source_name runner.source_instance events in
    let out = encode_events sink runner.source_name runner.source_instance events log in
    elim (Result-cases checks) [
      | inr (e, h) ↦ inl (e, log, rw (h, write_events))
      | inl (u, h) ↦ elim (Result-cases out.0) [
        | inl (u', k) ↦ inr (
          out.1,
          rw (h, write_events) (ap (λ r. (r, out.1)) k),
          encode_events-ok sink runner events log k,
        )
        | inr (e, k) ↦ inl (e, out.1, rw (h, write_events) (ap (λ r. (r, out.1)) k))
      ]
    ]

pub log_plan-cases :
    (env : Env) (runner : Runner) (plan : Plan) (w : World)
    → (((log_plan env runner plan w).0 ≡ false) × ((log_plan env runner plan w).1.store ≡ w.store))
      ⊎ Logged runner plan w (log_plan env runner plan w).1
unfolding log_plan
log_plan-cases env runner plan w = elim (write_events-ok env.sink runner plan.events w.log) [
  | inl (e, log', h) ↦ inl (rw (h, log_plan), rw (h, log_plan))
  | inr (log', h, g) ↦ inr (rw (h, log_plan) (log_degraded-Logged env runner plan w log' g))
]
