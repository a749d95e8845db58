-- ===== src/Collector/Extends.antt =====
-- What metrics, status entries and failures do to the state file and to the log.
use dhcp_lease_observer.Prelude.{
  ◌≡◌, refl, sym, ap, ◌∙◌, inl, inr, Bool, true, false, Option, List, [], ◌∷◌, ◌++◌, Result-cases,
  Bool-cases, suc, ℕ, if◌then◌else◌,
}
use mathlib.Core.List.{append-nil, append_assoc}
use dhcp_lease_observer.Clock.{Time}
use dhcp_lease_observer.State.{Snapshot}
use dhcp_lease_observer.Output.{
  Entry, StatusEvent, encode, write_status_event, status_validate, status_entry,
}
use dhcp_lease_observer.Output.Metrics.{Metrics, metrics_validate}
use dhcp_lease_observer.Collector.{
  Env, World, Runner, Failure, save_prometheus, log_status, report, fail,
}
use dhcp_lease_observer.Collector.Prepare.{Plan}
use dhcp_lease_observer.Collector.Run.{publish}

-- The state file is as before, and the log at most longer.
pub record Extends (w w' : World) : Type 0 where
  pub kept : w'.store ≡ w.store
  pub rest : List Entry
  pub grown : w'.log.entries ≡ w.log.entries ++ rest

pub Extends-refl : (w : World) → Extends w w
Extends-refl w = record { kept = refl; rest = []; grown = sym (append-nil _) }

pub Extends_trans : {u v w : World} → Extends u v → Extends v w → Extends u w
Extends_trans {u} {v} {w} e f = record {
  kept = f.kept ∙ e.kept;
  rest = e.rest ++ f.rest;
  grown = f.grown ∙ ap (λ l. l ++ f.rest) e.grown ∙ append_assoc u.log.entries e.rest f.rest;
}

-- A reading of the clock leaves files and log alone.
pub later : (w : World) (n : ℕ) {w' : World} → Extends (record w { readings = n }) w' → Extends w w'
later w n e = record { kept = e.kept; rest = e.rest; grown = e.grown }

pub if-Extends :
    {A : Type 0} {w : World} (test : Bool) (x y : A × World)
    → Extends w x.1
    → Extends w y.1
    → Extends w (if test then x else y).1
if-Extends true x y e f = e
if-Extends false x y e f = f

pub save_prometheus-Extends :
    (env : Env) (m : Metrics) (w : World) → Extends w (save_prometheus env m w).1
unfolding save_prometheus
save_prometheus-Extends env m w = elim (Result-cases (metrics_validate m)) [
  | inr (e, h) ↦ rw (h, save_prometheus) (Extends-refl w)
  | inl (u, h) ↦
      rw (h, save_prometheus) (record { kept = refl; rest = []; grown = sym (append-nil _) })
]

pub log_status-Extends :
    (env : Env) (event : StatusEvent) (w : World) → Extends w (log_status env event w).1
unfolding write_status_event encode
log_status-Extends env event w = elim (Result-cases (status_validate event)) [
  | inr (e, h) ↦ rw (h, log_status) (record { kept = refl; rest = []; grown = sym (append-nil _) })
  | inl (u, h) ↦ elim (Bool-cases (env.sink w.log.calls)) [
    | inl b ↦
        rw (h, b, log_status) (record { kept = refl; rest = status_entry event ∷ []; grown = refl })
    | inr b ↦ rw (h, b, log_status) (record { kept = refl; rest = []; grown = sym (append-nil _) })
  ]
]

pub report-Extends :
    (env : Env) (runner : Runner) (t : Time) (f : Failure) (w : World)
    → Extends w (report env runner t f w).1
unfolding report
report-Extends env runner t f w = log_status-Extends env _ w

pub fail-Extends :
    (env : Env) (runner : Runner) (t : Time) (previous : Option Snapshot) (f : Failure) (w : World)
    → Extends w (fail env runner t previous f w).1
unfolding fail
fail-Extends env runner t previous f w = later w (suc w.readings) (
    Extends_trans (save_prometheus-Extends env _ (record w { readings = suc w.readings }))
      (report-Extends env runner _ _ _))

pub publish-Extends :
    (env : Env) (runner : Runner) (t : Time) (plan : Plan) (w : World)
    → Extends w (publish env runner t plan w).1
unfolding publish
publish-Extends env runner t plan w =
    let saved = save_prometheus-Extends env _ (record w { readings = suc w.readings }) in
    later w (suc w.readings)
      (if-Extends _ _ _ saved (Extends_trans saved (later _ _ (report-Extends env runner _ _ _))))
