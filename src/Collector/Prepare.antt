-- ===== src/Collector/Prepare.antt =====
-- `Run` of internal/collector/collector.go from the source's answer to the events: nothing is written.
use dhcp_lease_observer.Prelude.{
  Bool, true, false, Option, none, some, List, [], ◌++◌, Result, ok, err, ◌>>=◌, ◌>>◌, ltb, length,
  pos, if◌then◌else◌,
}
use dhcp_lease_observer.Text.{Bytes, codes}
use dhcp_lease_observer.Clock.{Time, utc}
use dhcp_lease_observer.Model.{ArpTable, LeaseSnapshot}
use dhcp_lease_observer.State.{Snapshot, validate}
use dhcp_lease_observer.State.Normalize.{normalize}
use dhcp_lease_observer.State.Event.{Event}
use dhcp_lease_observer.State.Diff.{DiffError, diff, identity_key_changed}
use dhcp_lease_observer.Parser.Transcript.{Reader}
use dhcp_lease_observer.Parser.Lease.{parse_lease}
use dhcp_lease_observer.Parser.Arp.{parse_arp}
use dhcp_lease_observer.Collector.{
  CollectError, CommandBodies, Runner, Failure, new_failure, classify_error,
}

-- What a run has to write once the source's answer is accepted.
pub record Plan : Type 0 where
  pub current : Snapshot
  pub events : List Event
  pub observed_at : Time
  pub arp_available : Bool
  pub arp_failure_class : Bytes
  pub arp_failure_retryable : Bool
  pub arp_failure_command : Bytes

abbrev bytes_reader : Bytes → Reader
bytes_reader content = record { content = content; fails = false }

abbrev pub empty_arp : ArpTable
empty_arp = record {
  reported_dynamic = pos 0;
  free = pos 0;
  garbage = pos 0;
  static = pos 0;
  auto_refresh = false;
  neighbors = [];
}

-- The ARP table, or an empty one and the failure in its place.
unfoldable pub read_arp : CommandBodies → ArpTable × Option Failure
read_arp bodies = elim bodies.arp_failure [
  | none ↦ elim (parse_arp (bytes_reader bodies.arp)) [
    | ok arp ↦ (arp, none)
    | err _ ↦ (empty_arp, some (new_failure (codes "arp_parse_failed") false))
  ]
  | some error ↦
      let f = classify_error error in
      let class = codes "arp_" ++ f.kind in
      (
        empty_arp,
        some (record f {
          kind = (if ltb 64 (length class) then codes "arp_acquisition_failed" else class);
        }),
      )
]

abbrev plan_of : Snapshot → List Event → Time → Option Failure → Plan
plan_of current events observed_at none = record {
  current = current;
  events = events;
  observed_at = observed_at;
  arp_available = true;
  arp_failure_class = [];
  arp_failure_retryable = false;
  arp_failure_command = [];
}
plan_of current events observed_at (some f) = record {
  current = current;
  events = events;
  observed_at = observed_at;
  arp_available = false;
  arp_failure_class = f.kind;
  arp_failure_retryable = f.retryable;
  arp_failure_command = f.command;
}

abbrev with_arp : Snapshot → Option Failure → Snapshot
with_arp s none = record s { arp_available = true; arp_failure_class = [] }
with_arp s (some f) = record s { arp_available = false; arp_failure_class = f.kind }

abbrev diff_failure : DiffError → Failure
diff_failure identity_key_changed = new_failure (codes "identity_key_changed") false
diff_failure _ = new_failure (codes "diff_failed") false

abbrev pub or_fail {ℓ κ} : {E : Type ℓ} {A : Type κ} → (E → Failure) → Result E A → Result Failure A
or_fail f (ok a) = ok a
or_fail f (err e) = err (f e)

module _ (hmac : Bytes → Bytes → Bytes) where
  -- The part of `Run` that writes nothing, from the source's answer to the events.
  unfoldable pub prepare :
      Runner → Option Snapshot → Result CollectError CommandBodies → Result Failure Plan
  prepare runner previous collected = do
    bodies ← or_fail classify_error collected
    leases ←
        or_fail (λ _. new_failure (codes "parse_failed") false)
          (parse_lease (bytes_reader bodies.lease))
    let (arp, arp_failure) = read_arp bodies
    let observed_at = utc bodies.lease_observed_at
    let source : LeaseSnapshot = record { version = pos 1; leases = leases; arp = arp }
    normalized ←
        or_fail (λ _. new_failure (codes "normalize_failed") false)
          (normalize hmac runner.identity source observed_at)
    let current = with_arp normalized arp_failure
    or_fail (λ _. new_failure (codes "normalize_failed") false) (validate current)
    events ← or_fail diff_failure (diff previous current)
    ok (plan_of current events observed_at arp_failure)
