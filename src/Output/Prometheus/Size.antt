-- ===== src/Output/Prometheus/Size.antt =====
-- The size of the text of valid metrics.
use dhcp_lease_observer.Prelude.{
  ℕ, suc, ◌∙◌, Checked, check_each-Passes, insert_sorted, pos, ltb_ℤ, ◌≤◌, ◌≡◌, refl, ap, not, ◌&&◌,
  ◌||◌, List, [], ◌∷◌, ◌++◌, map, arith, length, length-append, length-map, ltb, ok, reject-eq-ok,
  All, All-append, All-sort_slice, sort_slice, if_rule,
}
use dhcp_lease_observer.Text.{Bytes, bytes_eq}
use dhcp_lease_observer.Clock.{is_zero_time}
use dhcp_lease_observer.Net.{addr_eq}
use dhcp_lease_observer.Output.{valid_label_id}
use dhcp_lease_observer.Output.Metrics.{
  LeaseMetric, Metrics, metrics_validate, max_lease_metrics, check_metric, instance_invalid,
  timing_invalid, success_required, metric_limit, metric_device, metric_ip,
}
use dhcp_lease_observer.Output.Prometheus.{
  Formats, escape_label, with_ends, health_lines, lease_line, metric_less, metric_lines,
  write_prometheus, max_prometheus_bytes,
}
use dhcp_lease_observer.Output.Prometheus.Lines.{
  IsShort, IsLine, IsSmall, length-escape_label, length-with_ends, health_lines-IsLine,
  length-health_lines, check_metric-IsSmall, lease_line-IsLine,
}

Checked-IsSmall :
    (index : ℕ) (leases : List LeaseMetric) → Checked check_metric index leases → All IsSmall leases
Checked-IsSmall index [] h = tt
Checked-IsSmall index (l ∷ leases) h =
    (check_metric-IsSmall index l h.0, Checked-IsSmall (suc index) leases h.1)

All-lease_line :
    (formats : Formats) (instance_label : Bytes) (leases : List LeaseMetric)
    → length instance_label ≤ 256
    → All IsSmall leases
    → All IsLine (map (lease_line formats instance_label) leases)
All-lease_line formats instance_label [] i h = tt
All-lease_line formats instance_label (l ∷ leases) i h = (
  lease_line-IsLine formats instance_label l i h.0,
  All-lease_line formats instance_label leases i h.1,
)

length-insert_sorted :
    (l : LeaseMetric) (leases : List LeaseMetric)
    → length (insert_sorted metric_less l leases) ≡ suc (length leases)
unfolding insert_sorted
length-insert_sorted l [] = refl
length-insert_sorted l (k ∷ leases) =
    if_rule (λ (x : List LeaseMetric). length x ≡ suc (suc (length leases))) (metric_less l k)
      (λ _. refl) (λ _. ap suc (length-insert_sorted l leases))

length-sort_slice :
    (leases : List LeaseMetric) → length (sort_slice metric_less leases) ≡ length leases
unfolding sort_slice
length-sort_slice [] = refl
length-sort_slice (l ∷ leases) =
    length-insert_sorted l (sort_slice metric_less leases) ∙ ap suc (length-sort_slice leases)

-- What valid metrics hold, as far as the size of their text needs it.
record IsBounded (m : Metrics) : Type 0 where
  pub instance_length : length m.source_instance ≤ 128
  pub count : length m.leases ≤ 2048
  pub small : All IsSmall m.leases

metrics_validate-IsBounded : (m : Metrics) → metrics_validate m ≡ ok tt → IsBounded m
unfolding metrics_validate valid_label_id
metrics_validate-IsBounded m h =
    let (i, h₁) = reject-eq-ok (not (valid_label_id m.source_instance)) instance_invalid _ h in
    let (t, h₂) =
      reject-eq-ok (is_zero_time m.last_attempt || ltb_ℤ m.collection_duration (pos 0))
        timing_invalid _ h₁ in
    let (u, h₃) = reject-eq-ok (m.up && is_zero_time m.last_success) success_required _ h₂ in
    let (n, h₄) = reject-eq-ok (ltb max_lease_metrics (length m.leases)) metric_limit _ h₃ in
    let p =
      check_each-Passes check_metric (λ l. l.device_id) metric_device (λ l. l.ip) metric_ip 0 [] []
        m.leases h₄ in
    record {
      instance_length = ground (arith, i);
      count = ground (arith, n);
      small = Checked-IsSmall 0 m.leases p.checked;
    }

-- The text is written, and fits into the file that SavePrometheus allows.
pub record Fits (formats : Formats) (m : Metrics) : Type 0 where
  pub text : Bytes
  pub written : write_prometheus formats m ≡ ok text
  pub fits : length text ≤ max_prometheus_bytes

-- If FormatFloat gives at most 500 bytes, WritePrometheus writes a text for metrics that Validate
-- accepts, and the text of even 2048 leases is within MaxPrometheusBytes, the limit of
-- SavePrometheus.
pub write_prometheus-Fits :
    (formats : Formats) (m : Metrics)
    → IsShort formats
    → metrics_validate m ≡ ok tt
    → Fits formats m
unfolding write_prometheus metric_lines
write_prometheus-Fits formats m s h =
    let b = metrics_validate-IsBounded m h in
    let label = escape_label m.source_instance in
    let i : length label ≤ 256 =
      omega (arith, b.instance_length, length-escape_label m.source_instance) in
    let sorted = sort_slice metric_less m.leases in
    let rows = map (lease_line formats label) sorted in
    let lines =
      All-append IsLine (health_lines formats label m) rows
        (health_lines-IsLine formats label m s i)
        (All-lease_line formats label sorted i
          (All-sort_slice metric_less IsSmall m.leases b.small)) in
    record {
      text = with_ends (metric_lines formats m);
      written = rw (h, write_prometheus) refl;
      fits = omega (
        arith,
        b.count,
        length-with_ends 1023 (health_lines formats label m ++ rows) lines,
        length-append (health_lines formats label m) rows,
        length-map (lease_line formats label) sorted,
        length-sort_slice m.leases,
        length-health_lines formats label m,
      );
    }
