-- ===== src/Tests/Collector.antt =====
-- Two runs of the collector, and the theorems on them.
use dhcp_lease_observer.Prelude.{true, none, some, [], ok, err}
use dhcp_lease_observer.Text.{codes}
use dhcp_lease_observer.Collector.{
  CommandBodies, absent, other_error, Env, World, Runner, replaced, unchanged,
}
use dhcp_lease_observer.Collector.Prepare.{prepare}
use dhcp_lease_observer.Collector.Run.{run}
use dhcp_lease_observer.Collector.Commit.{IsCommit, previous_of, run-IsCommit}
use dhcp_lease_observer.Collector.Reported.{run-IsReported}
use dhcp_lease_observer.Collector.Reported.Ways.{IsReported}
use dhcp_lease_observer.Tests.Samples.{checksum, generator, noon}

abbrev answer : CommandBodies
answer = record {
  lease_observed_at = noon;
  lease =
      codes
        "Leased to 1 clients\nCodes : D - Dynamic assignments, F - Fixed assignments\nIP Address      MAC Address       BoundTime LeaseTime State     Profile\nD 192.0.2.10 02:00:00:ab:cd:01 60 3600 Bound lan\n";
  arp = [];
  arp_failure = some other_error;
}

abbrev pub env : Env
env = record {
  load = absent;
  collected = ok answer;
  now = λ _. noon;
  sink = λ _. true;
  state_write = replaced;
  metrics_write = unchanged;
}

abbrev pub runner : Runner
runner = record {
  complete = true;
  identity = some generator;
  source_name = codes "ix2106_cli";
  source_instance = codes "router";
  scope = codes "lan";
}

abbrev pub world : World
world = record {
  store = none;
  metrics = none;
  log = record { entries = []; calls = 0 };
  readings = 0;
}

run-IsCommit_example :
    IsCommit runner
      (prepare checksum runner (previous_of env.load) env.collected)
      world
      (run checksum env runner world).1
run-IsCommit_example = run-IsCommit checksum env runner world

-- A run whose source fails.
abbrev failing : Env
failing = record env { collected = err other_error }

run-IsReported_example :
    IsReported checksum failing runner world (run checksum failing runner world)
run-IsReported_example = run-IsReported checksum failing runner world
