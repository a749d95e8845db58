-- ===== src/Tests/Metrics.antt =====
-- The text of the metrics of one lease.
use dhcp_lease_observer.Prelude.{◌≡◌, refl, true, [], ◌∷◌, ok, pos, arith, check_each, seen}
use dhcp_lease_observer.Text
use dhcp_lease_observer.Text.{codes, has_prefix, is_id_byte}
use dhcp_lease_observer.Net.{v4}
use dhcp_lease_observer.Model.{bound}
use dhcp_lease_observer.Output.{valid_label_id}
use dhcp_lease_observer.Output.Metrics.{LeaseMetric, Metrics, metrics_validate, device_id_pattern}
use dhcp_lease_observer.Output.Prometheus.{Formats, address_text, digits, lease_line, escape_label}
use dhcp_lease_observer.Output.Prometheus.Lines.{IsShort}
use dhcp_lease_observer.Output.Prometheus.Size.{Fits, write_prometheus-Fits}
use dhcp_lease_observer.Tests.Samples.{noon}

abbrev formats : Formats
formats = record { seconds = λ _. codes "1"; duration = λ _. codes "2"; other_address = λ _. [] }

formats-IsShort : IsShort formats
formats-IsShort = record { seconds = λ t. omega arith; duration = λ d. omega arith }

abbrev lease : LeaseMetric
lease = record {
  device_id = codes "d1_0123456789abcdefghijkl";
  ip = v4 3221225985;
  scope = codes "lan";
  state = bound;
}

abbrev metrics : Metrics
metrics = record {
  source_instance = codes "router";
  up = true;
  last_attempt = noon;
  last_success = noon;
  collection_duration = pos 1;
  leases = lease ∷ [];
}

accepted : metrics_validate metrics ≡ ok tt
unfolding metrics_validate valid_label_id device_id_pattern check_each seen has_prefix is_id_byte
    Text.is_label_byte Text.is_alnum
accepted = refl

line_run :
    lease_line formats (codes "router") lease
    ≡ codes
        "dhcp_lease_observer_lease_info{source_instance=\"router\",device_id=\"d1_0123456789abcdefghijkl\",ip=\"192.0.2.1\",scope=\"lan\",state=\"bound\"} 1"
unfolding lease_line escape_label address_text digits
line_run = refl

write_prometheus-Fits_example : Fits formats metrics
write_prometheus-Fits_example = write_prometheus-Fits formats metrics formats-IsShort accepted
