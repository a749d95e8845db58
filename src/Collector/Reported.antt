-- ===== src/Collector/Reported.antt =====
-- A run that fails says so in the log, and why it failed.
pub mod Ways
use dhcp_lease_observer.Prelude.{
  ℕ, suc, ◌≡◌, ◌≢◌, ◌≤◌, ◌∙◌, refl, sym, ap, subst, inl, inr, Bool, true, false, Option, none, some,
  arith, Result, Result-cases, Bool-cases, if◌then◌else◌,
}
use dhcp_lease_observer.Text.{Bytes, codes}
use dhcp_lease_observer.Clock.{utc}
use dhcp_lease_observer.State.{Snapshot, validate}
use dhcp_lease_observer.Output.{Log}
use dhcp_lease_observer.Output.Metrics.{Metrics, metrics_validate}
use dhcp_lease_observer.Collector.{
  Loaded, absent, unreadable, found, WriteOutcome, replaced, unchanged, replaced_unsynced,
  write_file, Env, World, Runner, Failure, RunResult, new_failure, report, fail, save_prometheus,
  save_state,
}
use dhcp_lease_observer.Collector.Commit.{previous_of}
use dhcp_lease_observer.Collector.Done.Writes.{log_plan-true}
use dhcp_lease_observer.Collector.Prepare.{Plan, prepare}
use dhcp_lease_observer.Collector.Run.{
  log_plan, publish, failed, store_plan, commit, runner_valid, attempt, run_from, run,
}
use dhcp_lease_observer.Collector.Unwritten.{missed-FailsAt, write_status-ways, log_plan-Writes}
use Ways.{
  metrics_failure, started, metrics, measures, IsPrepared, IsWritten, Cause, load_failed,
  not_prepared, save_failed, Told, told, unmeasured, unpublished, status, refused, lost, IsReported,
  done, rejected, logged, unlogged, plan_unlogged,
}

-- Whether a write succeeds does not depend on what the file holds.
write_file-result {ℓ} :
    {A : Type ℓ} (o : WriteOutcome) (new : A) (x y : Option A)
    → (write_file o new x).0 ≡ (write_file o new y).0
write_file-result replaced new x y = refl
write_file-result unchanged new x y = refl
write_file-result replaced_unsynced new x y = refl

save_state-result :
    (env : Env) (s : Snapshot) (u v : World) → (save_state env s u).0 ≡ (save_state env s v).0
unfolding save_state
save_state-result env s u v = elim (Result-cases (validate s)) [
  | inr (e, h) ↦ rw (h, save_state) refl
  | inl (k, h) ↦ rw (h, save_state) (write_file-result env.state_write s u.store v.store)
]

save_prometheus-result :
    (env : Env) (m : Metrics) (u v : World)
    → (save_prometheus env m u).0 ≡ (save_prometheus env m v).0
unfolding save_prometheus
save_prometheus-result env m u v = elim (Result-cases (metrics_validate m)) [
  | inr (e, h) ↦ rw (h, save_prometheus) refl
  | inl (k, h) ↦ rw (h, save_prometheus) (write_file-result env.metrics_write m u.metrics v.metrics)
]

save_prometheus-log :
    (env : Env) (m : Metrics) (w : World) → (save_prometheus env m w).1.log ≡ w.log
unfolding save_prometheus
save_prometheus-log env m w = ground arith

save_prometheus-readings :
    (env : Env) (m : Metrics) (w : World) → (save_prometheus env m w).1.readings ≡ w.readings
unfolding save_prometheus
save_prometheus-readings env m w = ground arith

save_state-log : (env : Env) (s : Snapshot) (w : World) → (save_state env s w).1.log ≡ w.log
unfolding save_state
save_state-log env s w = ground arith

save_state-readings :
    (env : Env) (s : Snapshot) (w : World) → (save_state env s w).1.readings ≡ w.readings
unfolding save_state
save_state-readings env s w = ground arith

module _ (hmac : Bytes → Bytes → Bytes) (env : Env) (runner : Runner) (w : World) where
  abbrev Reports : Result Failure RunResult × World → Type 0
  Reports = IsReported hmac env runner w

  Cause-grows : {f : Failure} {log : Log} → Cause hmac env runner w f log → w.log.calls ≤ log.calls
  Cause-grows (load_failed e f l) = ground (arith, l)
  Cause-grows (not_prepared e f l) = ground (arith, l)
  Cause-grows (save_failed plan i s f) = i.grows

  Told-grows :
      {f : Failure} {n : ℕ} {log : Log} → Told hmac env runner w f n log → w.log.calls ≤ log.calls
  Told-grows (told c n m) = Cause-grows c
  Told-grows (unmeasured g c f n m) = Cause-grows c
  Told-grows (unpublished plan i s f n m) = i.grows

  report-IsReported :
      (f : Failure) (n : ℕ) (u : World)
      → Told hmac env runner w f n u.log
      → Reports (failed (report env runner (utc (env.now n)) f u))
  unfolding report
  report-IsReported f n u t =
      elim (write_status-ways env.sink (status hmac env runner w f n) u.log) [
        | inl (e, (h, k)) ↦ rw (k, report) (unlogged f n u.log t refl refl (refused e h))
        | inr (inl k) ↦ rw (k, report) (logged f n u.log t refl refl)
        | inr (inr (k, h)) ↦
            rw (k, report)
              (unlogged f n u.log t refl refl
                (lost (missed-FailsAt env.sink w.log.calls u.log (Told-grows t) h)))
      ]

  fail-Told :
      (b : Bool) (f : Failure) (log : Log)
      → Cause hmac env runner w f log
      → measures hmac env runner w false (previous_of env.load) ≡ b
      → Told hmac env runner w (if b then f else metrics_failure) (suc w.readings) log
  fail-Told true f log c m = told c refl m
  fail-Told false f log c m = unmeasured f c refl refl m

  fail-IsReported :
      (previous : Option Snapshot) (f : Failure) (u : World)
      → previous_of env.load ≡ previous
      → u.readings ≡ suc w.readings
      → Cause hmac env runner w f u.log
      → Reports (failed (fail env runner (started hmac env runner w) previous f u))
  unfolding fail
  fail-IsReported previous f u p r c =
      let u₁ : World = record u { readings = suc (suc w.readings) } in
      let saved = save_prometheus env (metrics hmac env runner w false previous) u₁ in
      let m =
        ap (λ x. measures hmac env runner w false x) p
        ∙ save_prometheus-result env (metrics hmac env runner w false previous) w u₁ in
      rw r (
        report-IsReported (if saved.0 then f else metrics_failure) (suc w.readings) saved.1 (
          subst (Told hmac env runner w (if saved.0 then f else metrics_failure) (suc w.readings))
            (sym (save_prometheus-log env (metrics hmac env runner w false previous) u₁))
            (fail-Told saved.0 f u.log c m)))

  publish-IsReported :
      (plan : Plan) (u : World)
      → u.readings ≡ suc w.readings
      → IsWritten hmac env runner w plan u.log
      → (save_state env plan.current w).0 ≡ true
      → Reports (publish env runner (started hmac env runner w) plan u)
  unfolding publish
  publish-IsReported plan u r i s =
      let m = metrics hmac env runner w true (some plan.current) in
      let u₁ : World = record u { readings = suc (suc w.readings) } in
      let u₂ = (save_prometheus env m u₁).1 in
      let u₃ : World = record u₂ { readings = suc (suc (suc w.readings)) } in
      elim (Bool-cases (save_prometheus env m u₁).0) [
        | inl k ↦ rw (r, k) (done _ refl)
        | inr k ↦
            rw (r, k, save_prometheus-readings env m u₁)
              (report-IsReported metrics_failure (suc (suc w.readings)) u₃ (
                unpublished plan
                  (subst (IsWritten hmac env runner w plan) (sym (save_prometheus-log env m u₁)) i)
                  s refl refl (save_prometheus-result env m w u₁ ∙ k)))
      ]

  store_plan-IsReported :
      (previous : Option Snapshot) (plan : Plan) (u : World)
      → previous_of env.load ≡ previous
      → u.readings ≡ suc w.readings
      → IsWritten hmac env runner w plan u.log
      → Reports (store_plan env runner (started hmac env runner w) previous plan u)
  unfolding store_plan
  store_plan-IsReported previous plan u p r i =
      let s = save_state env plan.current u in
      let r₁ = save_state-readings env plan.current u ∙ r in
      let i₁ =
        subst (IsWritten hmac env runner w plan) (sym (save_state-log env plan.current u)) i in
      let e = save_state-result env plan.current w u in
      elim (Bool-cases s.0) [
        | inl k ↦ rw k (publish-IsReported plan s.1 r₁ i₁ (e ∙ k))
        | inr k ↦ rw k (
            fail-IsReported previous (new_failure (codes "state_save_failed") true) s.1 p r₁
              (save_failed plan i₁ (e ∙ k) refl))
      ]

  abbrev started_world : World
  started_world = record w { readings = suc w.readings }

  commit-IsReported :
      (previous : Option Snapshot) (plan : Plan)
      → previous_of env.load ≡ previous
      → IsPrepared hmac env runner w plan
      → Reports (commit env runner (started hmac env runner w) previous plan started_world)
  unfolding commit
  commit-IsReported previous plan p h =
      let out = log_plan env runner plan started_world in
      let writes = log_plan-Writes env runner plan started_world in
      elim (Bool-cases out.0) [
        | inr k ↦ rw k (plan_unlogged plan h refl (writes.unwritten k))
        | inl k ↦ rw k (
            store_plan-IsReported previous plan out.1 p writes.readings (record {
              prepared = h;
              entries = log_plan-true env runner plan started_world k;
              grows = writes.grows;
            }))
      ]

  attempt-IsReported :
      (previous : Option Snapshot)
      → previous_of env.load ≡ previous
      → env.load ≢ unreadable
      → Reports (attempt hmac env runner (started hmac env runner w) previous started_world)
  unfolding attempt
  attempt-IsReported previous p n =
      let same = ap (λ x. prepare hmac runner x env.collected) p in
      elim (Result-cases (prepare hmac runner previous env.collected)) [
        | inr (f, h) ↦
            rw (h, attempt)
              (fail-IsReported previous f started_world p refl (not_prepared n (same ∙ h) refl))
        | inl (plan, h) ↦ rw (h, attempt) (commit-IsReported previous plan p (same ∙ h))
      ]

  run_from-IsReported :
      (l : Loaded)
      → env.load ≡ l
      → Reports (run_from hmac env runner l (started hmac env runner w) started_world)
  run_from-IsReported unreadable e =
      fail-IsReported none _ started_world (ap previous_of e) refl (load_failed e refl refl)
  run_from-IsReported absent e = attempt-IsReported none (ap previous_of e) (λ h. cc)
  run_from-IsReported (found s) e = attempt-IsReported (some s) (ap previous_of e) (λ h. cc)

-- Whatever a run meets, it succeeds, or its arguments are refused and it does nothing, or it ends in
-- one of two ways. First, there is a failure to be told: the state file could not be read, or the
-- source's answer gave no plan, or the state could not be saved once the plan was in the log; or, in
-- its place, the metrics could not be saved. Then it returns that failure, and the log has one more
-- entry behind what it was (or, for a plan in the log, behind its events and status): the status of
-- that failure, at the time that was read for it; or it returns that the log could not be written,
-- as the guards of that status refuse it or the last call of Encode failed. Second, there is a plan,
-- it returns that the log could not be written, and the guards refuse the plan's events or its
-- degraded status, or the last call of Encode failed.
pub run-IsReported :
    (hmac : Bytes → Bytes → Bytes) (env : Env) (runner : Runner) (w : World)
    → IsReported hmac env runner w (run hmac env runner w)
unfolding run
run-IsReported hmac env runner w = elim (Bool-cases (runner_valid runner)) [
  | inr v ↦ rw v (rejected v refl)
  | inl v ↦ rw v (run_from-IsReported hmac env runner w env.load refl)
]
