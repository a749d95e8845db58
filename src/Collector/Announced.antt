-- ===== src/Collector/Announced.antt =====
-- A failed collection and the attempt around it: the SSH transport as the source of a run.
use dhcp_lease_observer.Prelude.{
  ℕ, suc, ◌≡◌, ◌≢◌, ◌⊎◌, ◌∙◌, refl, subst, ap, inl, inr, Bool, true, false, Option, none, some, [],
  ◌∷◌, ◌++◌, arith, Result, err, differ, if◌then◌else◌,
}
use dhcp_lease_observer.Text.{Bytes, codes, is_failure_class, bytes_beq}
use dhcp_lease_observer.Clock.{Time, sub_time, utc, is_zero_time}
use dhcp_lease_observer.State.{Snapshot}
use dhcp_lease_observer.Output.{
  status_entry, write_status_event, encode, valid_fixed_command, is_authorization,
}
use dhcp_lease_observer.Output.Metrics.{Metrics}
use dhcp_lease_observer.Transport.{Config}
use dhcp_lease_observer.Transport.Dial.{CallError, ClientConfig, Handshake, DialCalls}
use dhcp_lease_observer.Transport.Collect.{SessionCalls, collect}
use dhcp_lease_observer.Transport.Collect.Failures.{IsKnown, IsKnownOutcome, fails, collect-IsKnown}
use dhcp_lease_observer.Collector.{
  CollectError, Loaded, absent, unreadable, found, Env, World, Runner, Failure, RunResult,
  new_failure, classify_error, failure_status, is_label, report, fail, save_prometheus, metrics_of,
  non_negative_duration,
}
use dhcp_lease_observer.Collector.Prepare.{prepare}
use dhcp_lease_observer.Collector.Run.{runner_valid, failed, attempt, run_from, run}
use dhcp_lease_observer.Collector.Source.{collect_error, source_result}
use dhcp_lease_observer.Collector.Reportable.{IsKnown-IsReportable, failure_status-valid}

-- The run returns the failure `f`, or that the metrics could not be written; its log has one more
-- entry, the status of what it returns; the state file is as it was.
pub record IsAnnounced (runner : Runner) (f : Failure) (w : World)
    (out : Result Failure RunResult × World) : Type 0 where
  pub failure : Failure
  pub returned : out.0 ≡ err failure
  pub which : (failure ≡ f) ⊎ (failure ≡ new_failure (codes "metrics_write_failed") true)
  pub at : Time
  pub logged :
      out.1.log.entries ≡ w.log.entries ++ status_entry (failure_status runner at failure) ∷ []
  pub kept : out.1.store ≡ w.store

-- What the failures of a run need to be told.
record IsTellable (f : Failure) : Type 0 where
  pub class : is_failure_class f.kind ≡ true
  pub command : differ (is_authorization f.kind) (valid_fixed_command f.command) ≡ false

metrics-IsTellable : IsTellable (new_failure (codes "metrics_write_failed") true)
unfolding is_failure_class is_authorization valid_fixed_command bytes_beq
metrics-IsTellable = record { class = refl; command = refl }

if-IsTellable :
    (b : Bool) {f g : Failure} → IsTellable f → IsTellable g → IsTellable (if b then f else g)
if-IsTellable true t u = t
if-IsTellable false t u = u

save_prometheus-log :
    (env : Env) (m : Metrics) (w : World) → (save_prometheus env m w).1.log ≡ w.log
unfolding save_prometheus
save_prometheus-log env m w = ground arith

save_prometheus-store :
    (env : Env) (m : Metrics) (w : World) → (save_prometheus env m w).1.store ≡ w.store
unfolding save_prometheus
save_prometheus-store env m w = ground arith

same-IsAnnounced :
    {runner : Runner} {f : Failure} {v w : World} {out : Result Failure RunResult × World}
    → v.log ≡ w.log
    → v.store ≡ w.store
    → IsAnnounced runner f v out
    → IsAnnounced runner f w out
same-IsAnnounced {runner} l s a = record {
  failure = a.failure;
  returned = a.returned;
  which = a.which;
  at = a.at;
  logged =
      a.logged ∙ ap (λ x. x.entries ++ status_entry (failure_status runner a.at a.failure) ∷ []) l;
  kept = a.kept ∙ s;
}

which_of :
    (done : Bool) (f g : Failure) → ((if done then f else g) ≡ f) ⊎ ((if done then f else g) ≡ g)
which_of true f g = inl refl
which_of false f g = inr refl

prepare-err :
    (hmac : Bytes → Bytes → Bytes) (env : Env) (runner : Runner) (previous : Option Snapshot)
    (e : CollectError)
    → env.collected ≡ err e
    → prepare hmac runner previous env.collected ≡ err (classify_error e)
unfolding prepare
prepare-err hmac env runner previous e h = ap (prepare hmac runner previous) h

module _ (env : Env) (runner : Runner) (valid : runner_valid runner ≡ true)
    (accepting : (n : ℕ) → env.sink n ≡ true)
    (started : (n : ℕ) → is_zero_time (env.now n) ≡ false) where
  source_valid : is_label runner.source_name ≡ true
  unfolding runner_valid
  source_valid = ground (arith, valid)

  instance_valid : is_label runner.source_instance ≡ true
  unfolding runner_valid
  instance_valid = ground (arith, valid)

  report-IsAnnounced :
      (n : ℕ) (f g : Failure) (w : World)
      → IsTellable f
      → (f ≡ g) ⊎ (f ≡ new_failure (codes "metrics_write_failed") true)
      → IsAnnounced runner g w (failed (report env runner (utc (env.now n)) f w))
  unfolding report write_status_event encode
  report-IsAnnounced n f g w t h =
      rw
        (
          failure_status-valid runner (env.now n) f source_valid instance_valid (started n) t.class
              t.command,
          accepting w.log.calls,
        )
        (record {
          failure = f;
          returned = refl;
          which = h;
          at = utc (env.now n);
          logged = refl;
          kept = refl;
        })

  fail-IsAnnounced :
      (t : Time) (previous : Option Snapshot) (f : Failure) (w : World)
      → IsTellable f
      → IsAnnounced runner f w (failed (fail env runner t previous f w))
  unfolding fail
  fail-IsAnnounced t previous f w tells =
      let w₁ : World = record w { readings = suc w.readings } in
      let m =
        metrics_of runner false t (non_negative_duration (sub_time (utc (env.now w.readings)) t))
          previous in
      let missing = new_failure (codes "metrics_write_failed") true in
      let done = (save_prometheus env m w₁).0 in
      same-IsAnnounced {v = (save_prometheus env m w₁).1} (save_prometheus-log env m w₁)
        (save_prometheus-store env m w₁)
        (report-IsAnnounced w.readings (if done then f else missing) f (save_prometheus env m w₁).1
          (if-IsTellable done tells metrics-IsTellable) (which_of done f missing))

  attempt-IsAnnounced :
      (hmac : Bytes → Bytes → Bytes) (e : CallError) (t : Time) (previous : Option Snapshot)
      (w : World)
      → IsKnown e
      → env.collected ≡ err (collect_error e)
      → IsAnnounced runner
          (classify_error (collect_error e))
          w
          (attempt hmac env runner t previous w)
  unfolding attempt
  attempt-IsAnnounced hmac e t previous w k c =
      let r = IsKnown-IsReportable e k in
      let h = prepare-err hmac env runner previous (collect_error e) c in
      rw (h, attempt)
        (fail-IsAnnounced t previous (classify_error (collect_error e)) w
          (record { class = r.class_valid; command = r.command_valid }))

  -- A collection over SSH that fails is told: with a valid runner, a state file that is absent or
  -- valid, a clock that is not at its zero and a log that accepts its entries, a run whose source
  -- is a failed collection returns the failure that its error is classified as, or that the
  -- metrics could not be written; the log has one more entry, the status of the failure returned;
  -- and the state file is as it was.
  pub run-IsAnnounced :
      (hmac : Bytes → Bytes → Bytes) (rsa : Bytes) (handshake : ClientConfig → Handshake)
      (dial_calls : DialCalls) (calls : SessionCalls) (config : Config) (password : Bytes)
      (e : CallError) (w : World)
      → (collect rsa handshake dial_calls calls config password).0 ≡ err e
      → env.collected ≡ source_result (collect rsa handshake dial_calls calls config password).0
      → env.load ≢ unreadable
      → IsAnnounced runner (classify_error (collect_error e)) w (run hmac env runner w)
  unfolding run
  run-IsAnnounced hmac rsa handshake dial_calls calls config password e w failed_with c readable =
      rw valid (same-IsAnnounced refl refl (from env.load readable))
    where
      known : IsKnownOutcome (err e) → IsKnown e
      known (fails k) = k

      k : IsKnown e
      k = known (
          subst IsKnownOutcome failed_with
            (collect-IsKnown rsa handshake dial_calls calls config password))

      from :
          (l : Loaded)
          → l ≢ unreadable
          → IsAnnounced runner
              (classify_error (collect_error e))
              (record w { readings = suc w.readings })
              (run_from hmac env runner l
                (utc (env.now w.readings))
                (record w { readings = suc w.readings }))
      from absent n = attempt-IsAnnounced hmac e _ none _ k (c ∙ ap source_result failed_with)
      from unreadable n = absurd (n refl)
      from (found s) n =
          attempt-IsAnnounced hmac e _ (some s) _ k (c ∙ ap source_result failed_with)
