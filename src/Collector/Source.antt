-- ===== src/Collector/Source.antt =====
-- The SSH transport as the collector's source: what classifyError and the collector read of the
-- transport's errors and bodies.
use dhcp_lease_observer.Prelude.{Option, none, some, Result, ok, err}
use dhcp_lease_observer.Transport.{error_text}
use dhcp_lease_observer.Transport.Dial.{
  CallError, session_failure, transport_error, plain_error, nil_failure,
}
use dhcp_lease_observer.Transport.Collect.{Bodies}
use dhcp_lease_observer.Collector
use dhcp_lease_observer.Collector.{CollectError, CommandBodies}

-- A transport error is seen by its kind. No collection returns `nil_failure`.
unfoldable pub collect_error : CallError → CollectError
collect_error (session_failure f) = Collector.session_error f
collect_error (transport_error e) = Collector.transport_error (error_text e.kind) e.retryable
collect_error (plain_error e) = Collector.other_error
collect_error nil_failure = Collector.other_error

abbrev pub arp_error : Option CallError → Option CollectError
arp_error none = none
arp_error (some e) = some (collect_error e)

abbrev pub command_bodies : Bodies → CommandBodies
command_bodies b = record {
  lease_observed_at = b.lease_observed_at;
  lease = b.lease;
  arp = b.arp;
  arp_failure = arp_error b.arp_failure;
}

abbrev pub source_result : Result CallError Bodies → Result CollectError CommandBodies
source_result (ok b) = ok (command_bodies b)
source_result (err e) = err (collect_error e)
