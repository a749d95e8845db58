-- ===== src/Collector/Done.antt =====
-- What a run that succeeds has done.
pub mod Writes
use dhcp_lease_observer.Prelude.{
  ℕ, suc, ℤ, ◌≡◌, ◌≢◌, ◌∙◌, refl, sym, ap, inl, inr, true, Option, none, some, ◌++◌, arith, ok,
  ok-injective, Result-cases, Bool-cases, length,
}
use dhcp_lease_observer.Text.{Bytes}
use dhcp_lease_observer.Clock.{Time, utc, sub_time}
use dhcp_lease_observer.State.{Snapshot}
use dhcp_lease_observer.Collector.{
  Loaded, absent, unreadable, found, Env, World, Runner, RunResult, save_state, save_prometheus,
  metrics_of, non_negative_duration,
}
use dhcp_lease_observer.Collector.Prepare.{Plan, prepare}
use dhcp_lease_observer.Collector.Run.{
  log_plan, publish, store_plan, commit, runner_valid, attempt, run_from, run,
}
use dhcp_lease_observer.Collector.Logged.{event_entries}
use dhcp_lease_observer.Collector.Commit.{previous_of}
use Writes.{status_entries, save_state-true, save_prometheus-true, log_plan-true}

-- The log has the plan's events and its status, the state file its state, the metrics file metrics
-- that the collector is up with that state, and the result its numbers.
pub record IsDone (runner : Runner) (plan : Plan) (r : RunResult) (w w' : World) : Type 0 where
  pub logged :
      w'.log.entries
      ≡ w.log.entries ++ (event_entries runner plan.events ++ status_entries runner plan)
  pub stored : w'.store ≡ some plan.current
  pub attempted : Time
  pub duration : ℤ
  pub measured : w'.metrics ≡ some (metrics_of runner true attempted duration (some plan.current))
  pub counted : r.events ≡ length plan.events
  pub arp : r.arp_available ≡ plan.arp_available

-- The end of a run that succeeds.
record IsPublished (runner : Runner) (t : Time) (plan : Plan) (r : RunResult) (w w' : World)
    : Type 0 where
  pub kept : w'.store ≡ w.store
  pub log : w'.log ≡ w.log
  pub duration : ℤ
  pub measured : w'.metrics ≡ some (metrics_of runner true t duration (some plan.current))
  pub result : r ≡ record { events = length plan.events; arp_available = plan.arp_available }

publish-IsPublished :
    (env : Env) (runner : Runner) (t : Time) (plan : Plan) (w : World) (r : RunResult)
    → (publish env runner t plan w).0 ≡ ok r
    → IsPublished runner t plan r w (publish env runner t plan w).1
unfolding publish
publish-IsPublished env runner t plan w r h =
    let w₁ : World = record w { readings = suc w.readings } in
    let d = non_negative_duration (sub_time (utc (env.now w.readings)) t) in
    let m = metrics_of runner true t d (some plan.current) in
    elim (Bool-cases (save_prometheus env m w₁).0) [
      | inr f ↦ absurd (ground (arith, f))
      | inl k ↦
          let s = save_prometheus-true env m w₁ k in
          rw (k, s)
            (record {
              kept = refl;
              log = refl;
              duration = d;
              measured = refl;
              result = sym (ok-injective (rw k at h));
            })
    ]

IsPublished-IsDone :
    (runner : Runner) (t : Time) (plan : Plan) (r : RunResult) (w v u w' : World)
    → v.log.entries
      ≡ w.log.entries ++ (event_entries runner plan.events ++ status_entries runner plan)
    → u ≡ record v { store = some plan.current }
    → IsPublished runner t plan r u w'
    → IsDone runner plan r w w'
IsPublished-IsDone runner t plan r w v u w' l e p = record {
  logged = ap (λ x. x.entries) p.log ∙ ap (λ x. x.log.entries) e ∙ l;
  stored = p.kept ∙ ap (λ x. x.store) e;
  attempted = t;
  duration = p.duration;
  measured = p.measured;
  counted = ap (λ x. x.events) p.result;
  arp = ap (λ x. x.arp_available) p.result;
}

commit-IsDone :
    (env : Env) (runner : Runner) (t : Time) (previous : Option Snapshot) (plan : Plan) (w : World)
    (r : RunResult)
    → (commit env runner t previous plan w).0 ≡ ok r
    → IsDone runner plan r w (commit env runner t previous plan w).1
unfolding commit store_plan
commit-IsDone env runner t previous plan w r h =
    let w₁ = (log_plan env runner plan w).1 in
    elim (Bool-cases (log_plan env runner plan w).0) [
      | inr f ↦ absurd (ground (arith, f))
      | inl k ↦ elim (Bool-cases (save_state env plan.current w₁).0) [
        | inr f ↦ absurd (ground (arith, k, f))
        | inl s ↦
            rw (k, s)
              (IsPublished-IsDone runner t plan r w w₁ (save_state env plan.current w₁).1 _
                (log_plan-true env runner plan w k) (save_state-true env plan.current w₁ s)
                (publish-IsPublished env runner t plan (save_state env plan.current w₁).1 r
                  (rw (k, s) at h)))
      ]
    ]

-- A plan came of the source's answer, and the run has done what it says.
pub record IsSuccess (hmac : Bytes → Bytes → Bytes) (env : Env) (runner : Runner) (r : RunResult)
    (w w' : World) : Type 0 where
  pub valid : runner_valid runner ≡ true
  pub readable : env.load ≢ unreadable
  pub plan : Plan
  pub prepared : prepare hmac runner (previous_of env.load) env.collected ≡ ok plan
  pub done : IsDone runner plan r w w'

-- The end of a run behind the load of the state.
record IsAttempted (hmac : Bytes → Bytes → Bytes) (env : Env) (runner : Runner)
    (previous : Option Snapshot) (r : RunResult) (w w' : World) : Type 0 where
  pub plan : Plan
  pub prepared : prepare hmac runner previous env.collected ≡ ok plan
  pub done : IsDone runner plan r w w'

attempt-IsAttempted :
    (hmac : Bytes → Bytes → Bytes) (env : Env) (runner : Runner) (t : Time)
    (previous : Option Snapshot) (w : World) (r : RunResult)
    → (attempt hmac env runner t previous w).0 ≡ ok r
    → IsAttempted hmac env runner previous r w (attempt hmac env runner t previous w).1
unfolding attempt
attempt-IsAttempted hmac env runner t previous w r h =
    elim (Result-cases (prepare hmac runner previous env.collected)) [
      | inr (f, e) ↦ absurd (ground (arith, e))
      | inl (plan, e) ↦
          rw (e, attempt)
            (record {
              plan = plan;
              prepared = e;
              done = commit-IsDone env runner t previous plan w r (rw (e, attempt) at h);
            })
    ]

-- A reading of the clock leaves files and log alone.
later-IsDone :
    {runner : Runner} {plan : Plan} {r : RunResult} (w : World) (n : ℕ) {w' : World}
    → IsDone runner plan r (record w { readings = n }) w'
    → IsDone runner plan r w w'
later-IsDone w n d = record {
  logged = d.logged;
  stored = d.stored;
  attempted = d.attempted;
  duration = d.duration;
  measured = d.measured;
  counted = d.counted;
  arp = d.arp;
}

-- A run that succeeds had a valid runner and a state file that was absent or valid; the source's
-- answer gave a plan, and just the plan is done: behind what was in the log stand its events, in
-- order, and then, if it has no ARP table, the degraded status; the state file holds its state, the
-- metrics file the metrics of a collector that is up with that state, and the result tells the
-- number of its events and whether there is an ARP table.
pub run-IsSuccess :
    (hmac : Bytes → Bytes → Bytes) (env : Env) (runner : Runner) (w : World) (r : RunResult)
    → (run hmac env runner w).0 ≡ ok r
    → IsSuccess hmac env runner r w (run hmac env runner w).1
unfolding run
run-IsSuccess hmac env runner w r h = elim (Bool-cases (runner_valid runner)) [
  | inr f ↦ absurd (ground (arith, f))
  | inl v ↦ rw v (succeeded v env.load refl (rw v at h))
]
  where
    w₁ : World
    w₁ = record w { readings = suc w.readings }

    t : Time
    t = utc (env.now w.readings)

    attempted :
        (v : runner_valid runner ≡ true) (l : Loaded)
        → env.load ≡ l
        → l ≢ unreadable
        → IsAttempted hmac env runner
            (previous_of l)
            r
            w₁
            (attempt hmac env runner t (previous_of l) w₁).1
        → IsSuccess hmac env runner r w (attempt hmac env runner t (previous_of l) w₁).1
    attempted v l e n a = record {
      valid = v;
      readable = λ k. n (sym e ∙ k);
      plan = a.plan;
      prepared = ap (λ x. prepare hmac runner (previous_of x) env.collected) e ∙ a.prepared;
      done = later-IsDone w (suc w.readings) a.done;
    }

    succeeded :
        (v : runner_valid runner ≡ true) (l : Loaded)
        → env.load ≡ l
        → (run_from hmac env runner l t w₁).0 ≡ ok r
        → IsSuccess hmac env runner r w (run_from hmac env runner l t w₁).1
    succeeded v unreadable e k = absurd (cc)
    succeeded v absent e k =
        attempted v absent e (λ n. cc) (attempt-IsAttempted hmac env runner t none w₁ r k)
    succeeded v (found s) e k =
        attempted v (found s) e (λ n. cc) (attempt-IsAttempted hmac env runner t (some s) w₁ r k)
