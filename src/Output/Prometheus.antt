-- ===== src/Output/Prometheus.antt =====
-- The text of the metrics in internal/output/prometheus.go. What strconv.FormatFloat gives for the
-- float64 of a time or of a duration, and the text of an address that is not IPv4, are parameters.
pub mod Lines
pub mod Size
use dhcp_lease_observer.Prelude.{
  ℕ, zero, suc, ◌+◌, ◌*◌, ◌/◌, ◌%◌, ◌^◌, Bool, true, false, List, [], ◌∷◌, ◌++◌, map, length, ltb,
  nat_beq, Result, ok, err, ◌>>=◌, ◌>>◌, ℤ, sort_slice, if◌then◌else◌,
}
use dhcp_lease_observer.Text.{Bytes, codes, bytes_less}
use dhcp_lease_observer.Net.{Addr, v4}
use dhcp_lease_observer.Clock.{Time, is_zero_time}
use dhcp_lease_observer.Files.{Disk}
use dhcp_lease_observer.AtomicFile.{Calls, Callback, Exit, write}
use dhcp_lease_observer.Output.Metrics.{LeaseMetric, Metrics, MetricsError, metrics_validate}

abbrev pub max_prometheus_bytes : ℕ
max_prometheus_bytes = 4 * 2 ^ 20

pub record Formats : Type 0 where
  pub seconds : Time → Bytes
  pub duration : ℤ → Bytes
  pub other_address : Addr → Bytes

-- `%d` of a number with at most `fuel` digits.
unfoldable pub digits : ℕ → ℕ → Bytes
digits zero n = []
digits (suc fuel) n =
    let before = digits fuel (n / 10) in
    if ltb n 10 then (48 + n) ∷ [] else before ++ (48 + n % 10) ∷ []

-- Pieces of a text, one behind the other.
abbrev pub joined : List Bytes → Bytes
joined [] = []
joined (piece ∷ pieces) = piece ++ joined pieces

abbrev pub quad_pieces : ℕ → List Bytes
quad_pieces a =
    digits 3 (a / 2 ^ 24 % 256)
    ∷ codes "."
    ∷ digits 3 (a / 2 ^ 16 % 256)
    ∷ codes "."
    ∷ digits 3 (a / 2 ^ 8 % 256)
    ∷ codes "."
    ∷ digits 3 (a % 256)
    ∷ []

-- The text of an address: four numbers of at most three digits.
unfoldable pub address_text : Formats → Addr → Bytes
address_text formats (v4 a) = joined (quad_pieces a)
address_text formats other = formats.other_address other

-- `escapeLabel`
unfoldable pub escape_label : Bytes → Bytes
escape_label [] = []
escape_label (c ∷ value) =
    let rest = escape_label value in
    if nat_beq c b'\\'
    then b'\\' ∷ b'\\' ∷ rest
    else if nat_beq c b'\n'
    then b'\\' ∷ b'n' ∷ rest
    else if nat_beq c b'"'
    then b'\\' ∷ b'"' ∷ rest
    else c ∷ rest

-- Lines with their ends.
unfoldable pub with_ends : List Bytes → Bytes
with_ends [] = []
with_ends (line ∷ lines) = line ++ (b'\n' ∷ with_ends lines)

-- A sample of one of the metrics about the collection.
abbrev pub sample : Bytes → Bytes → Bytes → Bytes
sample name instance_label value =
    joined (name ∷ codes "{source_instance=\"" ∷ instance_label ∷ codes "\"} " ∷ value ∷ [])

abbrev pub up_text : Bool → Bytes
up_text up = if up then codes "1" else codes "0"

abbrev pub last_success_text : Formats → Time → Bytes
last_success_text formats t = if is_zero_time t then codes "0" else formats.seconds t

abbrev pub count_pieces : Bytes → ℕ → List Bytes
count_pieces instance_label count =
    codes "dhcp_lease_observer_leases{source_instance=\""
    ∷ instance_label
    ∷ codes "\",state=\"bound\"} "
    ∷ digits 20 count
    ∷ []

-- The lines about the collection.
unfoldable pub health_lines : Formats → Bytes → Metrics → List Bytes
health_lines formats instance_label m =
    codes "# HELP dhcp_lease_observer_up Whether the latest collection succeeded."
    ∷ codes "# TYPE dhcp_lease_observer_up gauge"
    ∷ sample (codes "dhcp_lease_observer_up") instance_label (up_text m.up)
    ∷ codes
        "# HELP dhcp_lease_observer_last_attempt_timestamp_seconds Unix time of the latest collection attempt."
    ∷ codes "# TYPE dhcp_lease_observer_last_attempt_timestamp_seconds gauge"
    ∷ sample (codes "dhcp_lease_observer_last_attempt_timestamp_seconds") instance_label
        (formats.seconds m.last_attempt)
    ∷ codes
        "# HELP dhcp_lease_observer_last_success_timestamp_seconds Unix time of the latest successful collection."
    ∷ codes "# TYPE dhcp_lease_observer_last_success_timestamp_seconds gauge"
    ∷ sample (codes "dhcp_lease_observer_last_success_timestamp_seconds") instance_label
        (last_success_text formats m.last_success)
    ∷ codes
        "# HELP dhcp_lease_observer_collection_duration_seconds Duration of the latest collection attempt."
    ∷ codes "# TYPE dhcp_lease_observer_collection_duration_seconds gauge"
    ∷ sample (codes "dhcp_lease_observer_collection_duration_seconds") instance_label
        (formats.duration m.collection_duration)
    ∷ codes "# HELP dhcp_lease_observer_leases Number of leases in the last-good snapshot."
    ∷ codes "# TYPE dhcp_lease_observer_leases gauge"
    ∷ joined (count_pieces instance_label (length m.leases))
    ∷ codes "# HELP dhcp_lease_observer_lease_info Current last-good lease mapping."
    ∷ codes "# TYPE dhcp_lease_observer_lease_info gauge"
    ∷ []

-- The pieces of the line of a lease.
abbrev pub lease_pieces : Formats → Bytes → LeaseMetric → List Bytes
lease_pieces formats instance_label l =
    codes "dhcp_lease_observer_lease_info{source_instance=\""
    ∷ instance_label
    ∷ codes "\",device_id=\""
    ∷ escape_label l.device_id
    ∷ codes "\",ip=\""
    ∷ escape_label (address_text formats l.ip)
    ∷ codes "\",scope=\""
    ∷ escape_label l.scope
    ∷ codes "\",state=\"bound\"} 1"
    ∷ []

unfoldable pub lease_line : Formats → Bytes → LeaseMetric → Bytes
lease_line formats instance_label l = joined (lease_pieces formats instance_label l)

abbrev pub metric_less : LeaseMetric → LeaseMetric → Bool
metric_less l r = bytes_less l.device_id r.device_id

-- The lines of `WritePrometheus`.
unfoldable pub metric_lines : Formats → Metrics → List Bytes
metric_lines formats m =
    let instance_label = escape_label m.source_instance in
    health_lines formats instance_label m
    ++ map (lease_line formats instance_label) (sort_slice metric_less m.leases)

-- `WritePrometheus`: the text that it writes at once.
unfoldable pub write_prometheus : Formats → Metrics → Result MetricsError Bytes
write_prometheus formats m = do metrics_validate m; ok (with_ends (metric_lines formats m))

abbrev pub metrics_callback : Result MetricsError Bytes → Callback
metrics_callback (ok text) = record { chunks = text ∷ []; ends_well = true }
metrics_callback (err e) = record { chunks = []; ends_well = false }

-- `SavePrometheus`, with mode 0o644.
unfoldable pub save_metrics : Formats → Calls → Bytes → Metrics → Disk → Exit × Disk
save_metrics formats calls path m disk =
    write calls path 420 max_prometheus_bytes (metrics_callback (write_prometheus formats m)) disk
