-- ===== src/Output/Metrics.antt =====
-- internal/output/prometheus.go: the metrics of an attempt and their validation.
use dhcp_lease_observer.Prelude.{
  ℕ, Bool, not, ◌&&◌, ◌||◌, List, [], drop, all, Validation, ◌>>◌, reject_if, check_each, ltb,
  length, nat_beq, ℤ, pos, ltb_ℤ,
}
use dhcp_lease_observer.Text.{Bytes, codes, has_prefix, is_id_byte, bytes_eq}
use dhcp_lease_observer.Net.{Addr, addr_eq}
use dhcp_lease_observer.Clock.{Time, is_zero_time}
use dhcp_lease_observer.Model.{LeaseState, is_bound, not_ipv4}
use dhcp_lease_observer.Output.{valid_label_id}

abbrev pub max_lease_metrics : ℕ
max_lease_metrics = 2048

pub record LeaseMetric : Type 0 where
  pub device_id : Bytes
  pub ip : Addr
  pub scope : Bytes
  pub state : LeaseState

pub record Metrics : Type 0 where
  pub source_instance : Bytes
  pub up : Bool
  pub last_attempt : Time
  pub last_success : Time
  pub collection_duration : ℤ
  pub leases : List LeaseMetric

pub data MetricsError : Type 0 where
  instance_invalid timing_invalid success_required metric_limit : MetricsError
  metric_invalid metric_device metric_ip : ℕ → MetricsError

-- `^d1_[A-Za-z0-9_-]{22}$`
unfoldable pub device_id_pattern : Bytes → Bool
device_id_pattern s =
    has_prefix s (codes "d1_") && nat_beq (length s) 25 && all is_id_byte (drop 3 s)

abbrev pub check_metric : ℕ → LeaseMetric → Validation MetricsError
check_metric index m =
    reject_if
      (not (device_id_pattern m.device_id)
        || not_ipv4 m.ip
        || not (valid_label_id m.scope)
        || not (is_bound m.state))
      (metric_invalid index)

-- `metrics.Validate()`
unfoldable pub metrics_validate : Metrics → Validation MetricsError
metrics_validate m = do
  reject_if (not (valid_label_id m.source_instance)) instance_invalid
  reject_if (is_zero_time m.last_attempt || ltb_ℤ m.collection_duration (pos 0)) timing_invalid
  reject_if (m.up && is_zero_time m.last_success) success_required
  reject_if (ltb max_lease_metrics (length m.leases)) metric_limit
  check_each check_metric (λ l. l.device_id) metric_device (λ l. l.ip) metric_ip 0 [] [] m.leases
