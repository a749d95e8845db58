-- ===== src/Collector/Commit.antt =====
-- The order of a run's writes: the state follows the events.
use dhcp_lease_observer.Prelude.{
  ◌≡◌, refl, ap, ◌∙◌, ◌⊎◌, inl, inr, Bool, true, false, not, Option, none, some, List, ◌++◌, Result,
  ok, err, Result-cases, suc, ℕ, if◌then◌else◌,
}
use mathlib.Core.List.{append_assoc}
use dhcp_lease_observer.Text.{Bytes, codes}
use dhcp_lease_observer.Clock.{Time, utc}
use dhcp_lease_observer.State.{Snapshot}
use dhcp_lease_observer.Output.{Entry}
use dhcp_lease_observer.Collector.{
  Loaded, absent, unreadable, found, Env, World, Runner, Failure, RunResult, new_failure,
  save_state, fail,
}
use dhcp_lease_observer.Collector.Prepare.{Plan, prepare}
use dhcp_lease_observer.Collector.Run.{
  log_plan, publish, failed, store_plan, commit, runner_valid, attempt, run_from, run,
}
use dhcp_lease_observer.Collector.Extends.{Extends, if-Extends, fail-Extends, publish-Extends}
use dhcp_lease_observer.Collector.Logged.{event_entries, save_state-cases, Logged, log_plan-cases}

-- The state file is as before, or it holds the state of the plan, whose events are then in the log
-- behind what was there.
pub data IsCommit (runner : Runner) (prepared : Result Failure Plan) (w w' : World) : Type 0 where
  untouched : w'.store ≡ w.store → IsCommit runner prepared w w'
  committed :
      (plan : Plan)
      → prepared ≡ ok plan
      → w'.store ≡ some plan.current
      → (rest : List Entry)
      → w'.log.entries ≡ w.log.entries ++ (event_entries runner plan.events ++ rest)
      → IsCommit runner prepared w w'

if-IsCommit :
    {A : Type 0} {runner : Runner} {p : Result Failure Plan} {w : World} (test : Bool)
    (x y : A × World)
    → IsCommit runner p w x.1
    → IsCommit runner p w y.1
    → IsCommit runner p w (if test then x else y).1
if-IsCommit true x y e f = e
if-IsCommit false x y e f = f

saved-IsCommit :
    (runner : Runner) (plan : Plan) (u v w x : World)
    → Logged runner plan u v
    → (w ≡ v) ⊎ (w ≡ record v { store = some plan.current })
    → Extends w x
    → IsCommit runner (ok plan) u x
saved-IsCommit runner plan u v w x l (inl e) f =
    untouched (f.kept ∙ ap (λ (k : World). k.store) e ∙ l.kept)
saved-IsCommit runner plan u v w x l (inr e) f =
    committed plan refl (f.kept ∙ ap (λ (k : World). k.store) e) (l.rest ++ f.rest) (
      f.grown
      ∙ ap (λ (k : World). k.log.entries ++ f.rest) e
      ∙ ap (λ k. k ++ f.rest) l.grown
      ∙ append_assoc u.log.entries (event_entries runner plan.events ++ l.rest) f.rest
      ∙ ap (λ k. u.log.entries ++ k)
          (append_assoc (event_entries runner plan.events) l.rest f.rest))

store_plan-Extends :
    (env : Env) (runner : Runner) (t : Time) (previous : Option Snapshot) (plan : Plan) (w : World)
    → Extends (save_state env plan.current w).1 (store_plan env runner t previous plan w).1
unfolding store_plan
store_plan-Extends env runner t previous plan w =
    let (saved, w₁) = save_state env plan.current w in
    let f = new_failure (codes "state_save_failed") true in
    if-Extends {A = Result Failure RunResult} (not saved) (failed (fail env runner t previous f w₁))
      (publish env runner t plan w₁) (fail-Extends env runner t previous f w₁)
      (publish-Extends env runner t plan w₁)

commit-IsCommit :
    (env : Env) (runner : Runner) (t : Time) (previous : Option Snapshot) (plan : Plan) (w : World)
    → IsCommit runner (ok plan) w (commit env runner t previous plan w).1
unfolding commit
commit-IsCommit env runner t previous plan w =
    let (logged, w₁) = log_plan env runner plan w in
    elim (log_plan-cases env runner plan w) [
      | inl (h, k) ↦ rw (h, commit) (untouched k)
      | inr l ↦
          if-IsCommit {A = Result Failure RunResult} (not logged)
            (err (new_failure (codes "event_output_failed") true), w₁)
            (store_plan env runner t previous plan w₁) (untouched l.kept)
            (saved-IsCommit runner plan w w₁ (save_state env plan.current w₁).1
              (store_plan env runner t previous plan w₁).1 l (save_state-cases env plan.current w₁)
              (store_plan-Extends env runner t previous plan w₁))
    ]

abbrev pub previous_of : Loaded → Option Snapshot
previous_of (found s) = some s
previous_of _ = none

attempt-IsCommit :
    (hmac : Bytes → Bytes → Bytes) (env : Env) (runner : Runner) (t : Time)
    (previous : Option Snapshot) (w : World)
    → IsCommit runner
        (prepare hmac runner previous env.collected)
        w
        (attempt hmac env runner t previous w).1
unfolding attempt
attempt-IsCommit hmac env runner t previous w =
    elim (Result-cases (prepare hmac runner previous env.collected)) [
      | inr (f, h) ↦ rw (h, attempt) (untouched (fail-Extends env runner t previous f w).kept)
      | inl (plan, h) ↦ rw (h, attempt) (commit-IsCommit env runner t previous plan w)
    ]

-- A reading of the clock leaves files and log alone.
later-IsCommit :
    (runner : Runner) (p : Result Failure Plan) (w : World) (n : ℕ) (w' : World)
    → IsCommit runner p (record w { readings = n }) w'
    → IsCommit runner p w w'
later-IsCommit runner p w n w' (untouched k) = untouched k
later-IsCommit runner p w n w' (committed plan h k rest g) = committed plan h k rest g

-- Whatever a run meets, it leaves the state file as it was, or the source's answer gave a plan, the
-- file holds exactly the plan's state, and every event of the plan is in the log, in order, behind
-- what was there before.
pub run-IsCommit :
    (hmac : Bytes → Bytes → Bytes) (env : Env) (runner : Runner) (w : World)
    → IsCommit runner
        (prepare hmac runner (previous_of env.load) env.collected)
        w
        (run hmac env runner w).1
unfolding run
run-IsCommit hmac env runner w =
    let w₁ : World = record w { readings = suc w.readings } in
    let t = utc (env.now w.readings) in
    if-IsCommit {A = Result Failure RunResult} (not (runner_valid runner))
      (err (new_failure (codes "invalid_runner") false), w) (run_from hmac env runner env.load t w₁)
      (untouched refl) (later-IsCommit runner _ w (suc w.readings) _ (loaded env.load))
  where
    loaded :
        (l : Loaded)
        → IsCommit runner
            (prepare hmac runner (previous_of l) env.collected)
            (record w { readings = suc w.readings })
            (run_from hmac env runner l
              (utc (env.now w.readings))
              (record w { readings = suc w.readings })).1
    loaded unreadable = untouched (fail-Extends env runner _ none _ _).kept
    loaded absent = attempt-IsCommit hmac env runner _ none _
    loaded (found previous) = attempt-IsCommit hmac env runner _ (some previous) _
