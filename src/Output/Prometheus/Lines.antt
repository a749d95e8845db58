-- ===== src/Output/Prometheus/Lines.antt =====
-- The sizes of the lines of the metrics.
use dhcp_lease_observer.Prelude.{
  ℕ, zero, suc, ◌+◌, ◌*◌, ◌/◌, ◌%◌, ◌^◌, ◌≤◌, ◌≡◌, refl, Bool, true, false, List, [], ◌∷◌, arith,
  length, length-append, ok, ℤ, All, if_rule,
}
use dhcp_lease_observer.Text.{Bytes, codes, bytes_eq}
use dhcp_lease_observer.Clock.{Time, is_zero_time}
use dhcp_lease_observer.Net.{Addr, addr_eq, zero_addr, v4, v6}
use dhcp_lease_observer.Model.{not_ipv4}
use dhcp_lease_observer.Output.{valid_label_id}
use dhcp_lease_observer.Output.Metrics.{LeaseMetric, Metrics, device_id_pattern, check_metric}
use dhcp_lease_observer.Output.Prometheus.{
  Formats, digits, quad_pieces, count_pieces, lease_pieces, up_text, last_success_text,
  address_text, escape_label, joined, with_ends, sample, health_lines, lease_line,
}

length-digits : (fuel n : ℕ) → length (digits fuel n) ≤ fuel
unfolding digits
length-digits zero n = omega arith
length-digits (suc zero) n = ground arith
length-digits (suc (suc fuel)) n = ground (
  arith,
  length-digits (suc fuel) (n / 10),
  length-append (digits (suc fuel) (n / 10)) ((48 + n % 10) ∷ []),
)

-- Every byte grows to two at most.
pub length-escape_label : (s : Bytes) → length (escape_label s) ≤ 2 * length s
unfolding escape_label
length-escape_label [] = omega arith
length-escape_label (c ∷ s) = ground (arith, length-escape_label s)

abbrev total : List Bytes → ℕ
total [] = 0
total (piece ∷ pieces) = length piece + total pieces

length-joined : (pieces : List Bytes) → length (joined pieces) ≡ total pieces
length-joined [] = refl
length-joined (piece ∷ pieces) =
    omega (arith, length-append piece (joined pieces), length-joined pieces)

pub length-with_ends :
    (bound : ℕ) (lines : List Bytes)
    → All (λ line. length line ≤ bound) lines
    → length (with_ends lines) ≤ length lines * suc bound
unfolding with_ends
length-with_ends bound [] h = omega arith
length-with_ends bound (line ∷ lines) h =
    omega
      (arith, h.0, length-append line (b'\n' ∷ with_ends lines), length-with_ends bound lines h.1)

-- What FormatFloat gives for a time or a duration is short.
pub record IsShort (formats : Formats) : Type 0 where
  pub seconds : (t : Time) → length (formats.seconds t) ≤ 500
  pub duration : (d : ℤ) → length (formats.duration d) ≤ 500

abbrev pub IsLine : Bytes → Type 0
IsLine line = length line ≤ 1023

sample-IsLine :
    (name instance_label value : Bytes)
    → length name ≤ 100
    → length instance_label ≤ 256
    → length value ≤ 500
    → IsLine (sample name instance_label value)
sample-IsLine name instance_label value n i v = omega (
  arith,
  length-joined (name ∷ codes "{source_instance=\"" ∷ instance_label ∷ codes "\"} " ∷ value ∷ []),
)

count-IsLine :
    (instance_label : Bytes) (count : ℕ)
    → length instance_label ≤ 256
    → IsLine (joined (count_pieces instance_label count))
count-IsLine instance_label count i =
    omega (arith, length-joined (count_pieces instance_label count), length-digits 20 count)

length-up_text : (up : Bool) → length (up_text up) ≤ 500
length-up_text true = omega arith
length-up_text false = omega arith

length-last_success_text :
    (formats : Formats) (t : Time) → IsShort formats → length (last_success_text formats t) ≤ 500
length-last_success_text formats t s =
    if_rule (λ x. length x ≤ 500) (is_zero_time t) (λ _. omega arith) (λ _. s.seconds t)

pub health_lines-IsLine :
    (formats : Formats) (instance_label : Bytes) (m : Metrics)
    → IsShort formats
    → length instance_label ≤ 256
    → All IsLine (health_lines formats instance_label m)
unfolding health_lines
health_lines-IsLine formats instance_label m s i =
    let up =
      sample-IsLine (codes "dhcp_lease_observer_up") instance_label (up_text m.up) (omega arith) i
        (length-up_text m.up) in
    let attempt =
      sample-IsLine (codes "dhcp_lease_observer_last_attempt_timestamp_seconds") instance_label
        (formats.seconds m.last_attempt) (omega arith) i (s.seconds m.last_attempt) in
    let success =
      sample-IsLine (codes "dhcp_lease_observer_last_success_timestamp_seconds") instance_label
        (last_success_text formats m.last_success) (omega arith) i
        (length-last_success_text formats m.last_success s) in
    let duration =
      sample-IsLine (codes "dhcp_lease_observer_collection_duration_seconds") instance_label
        (formats.duration m.collection_duration) (omega arith) i
        (s.duration m.collection_duration) in
    let count = count-IsLine instance_label (length m.leases) i in
    (
      omega arith,
      (
        omega arith,
        (
          up,
          (
            omega arith,
            (
              omega arith,
              (
                attempt,
                (
                  omega arith,
                  (
                    omega arith,
                    (
                      success,
                      (
                        omega arith,
                        (
                          omega arith,
                          (
                            duration,
                            (omega arith, (omega arith, (count, (omega arith, (omega arith, tt))))),
                          ),
                        ),
                      ),
                    ),
                  ),
                ),
              ),
            ),
          ),
        ),
      ),
    )

pub length-health_lines :
    (formats : Formats) (instance_label : Bytes) (m : Metrics)
    → length (health_lines formats instance_label m) ≡ 17
unfolding health_lines
length-health_lines formats instance_label m = refl

length-address_text :
    (formats : Formats) (a : Addr) → not_ipv4 a ≡ false → length (address_text formats a) ≤ 15
unfolding address_text
length-address_text formats zero_addr h = absurd (cc)
length-address_text formats (v6 a z) h = absurd (cc)
length-address_text formats (v4 a) h = omega (
  arith,
  length-joined (quad_pieces a),
  length-digits 3 (a / 2 ^ 24 % 256),
  length-digits 3 (a / 2 ^ 16 % 256),
  length-digits 3 (a / 2 ^ 8 % 256),
  length-digits 3 (a % 256),
)

pub record IsSmall (l : LeaseMetric) : Type 0 where
  pub device : length l.device_id ≤ 25
  pub scope : length l.scope ≤ 128
  pub ip : not_ipv4 l.ip ≡ false

pub check_metric-IsSmall : (index : ℕ) (l : LeaseMetric) → check_metric index l ≡ ok tt → IsSmall l
unfolding device_id_pattern valid_label_id
check_metric-IsSmall index l h = record {
  device = ground arith;
  scope = ground arith;
  ip = ground arith;
}

pub lease_line-IsLine :
    (formats : Formats) (instance_label : Bytes) (l : LeaseMetric)
    → length instance_label ≤ 256
    → IsSmall l
    → IsLine (lease_line formats instance_label l)
unfolding lease_line
lease_line-IsLine formats instance_label l i s = omega (
  arith,
  length-joined (lease_pieces formats instance_label l),
  i,
  s.device,
  s.scope,
  length-escape_label l.device_id,
  length-escape_label l.scope,
  length-escape_label (address_text formats l.ip),
  length-address_text formats l.ip s.ip,
)
