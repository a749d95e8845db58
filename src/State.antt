-- ===== src/State.antt =====
-- internal/state/snapshot.go: the last-good state and its validation.
pub mod OpaqueId
pub mod Valid
pub mod Normalize
pub mod Event
pub mod Diff
pub mod Store
use dhcp_lease_observer.Prelude.{
  ℕ, Bool, not, ◌||◌, List, [], Validation, ◌>>=◌, ◌>>◌, reject_if, wrap_err, check_each, ℤ, pos,
  eqb_ℤ, true, false,
}
use dhcp_lease_observer.Text.{Bytes, is_empty, is_failure_class, bytes_eq}
use dhcp_lease_observer.Net.{Addr, addr_eq}
use dhcp_lease_observer.Clock.{Time, is_zero_time, before, after}
use dhcp_lease_observer.Model.{Assignment, LeaseState, is_assignment, is_bound, not_ipv4}
use OpaqueId.{valid_opaque_id}

abbrev pub schema_version : ℤ
schema_version = pos 1

pub record Lease : Type 0 where
  pub device_id : Bytes
  pub ip : Addr
  pub assignment : Assignment
  pub state : LeaseState
  pub profile : Bytes
  pub bound_at : Time
  pub expires_at : Time

pub record Snapshot : Type 0 where
  pub version : ℤ
  pub observed_at : Time
  pub identity_key_id : Bytes
  pub arp_available : Bool
  pub arp_failure_class : Bytes
  pub leases : List Lease

pub data LeaseError : Type 0 where
  device_id_invalid lease_ip_not_ipv4 assignment_invalid state_invalid : LeaseError
  times_not_utc bound_after_observation expiry_unreasonable : LeaseError

pub data StateError : Type 0 where
  unsupported_schema : ℤ → StateError
  observation_not_utc key_id_invalid available_with_class unavailable_without_class : StateError
  bad_lease : ℕ → LeaseError → StateError
  duplicate_device duplicate_ip : ℕ → StateError

abbrev pub is_utc : Time → Bool
is_utc t = eqb_ℤ t.offset (pos 0)

unfoldable pub lease_validate : Time → Lease → Validation LeaseError
lease_validate observed_at l = do
  reject_if (not (valid_opaque_id l.device_id b'd')) device_id_invalid
  reject_if (not_ipv4 l.ip) lease_ip_not_ipv4
  reject_if (not (is_assignment l.assignment)) assignment_invalid
  reject_if (not (is_bound l.state)) state_invalid
  reject_if
      (is_zero_time l.bound_at
        || is_zero_time l.expires_at
        || not (is_utc l.bound_at)
        || not (is_utc l.expires_at))
      times_not_utc
  reject_if (after l.bound_at observed_at) bound_after_observation
  reject_if (before l.expires_at observed_at || not (after l.expires_at l.bound_at))
      expiry_unreasonable

abbrev pub check_lease : Time → ℕ → Lease → Validation StateError
check_lease observed_at index l = wrap_err (bad_lease index) (lease_validate observed_at l)

unfoldable pub arp_validate : Bool → Bytes → Validation StateError
arp_validate true class = reject_if (not (is_empty class)) available_with_class
arp_validate false class = reject_if (not (is_failure_class class)) unavailable_without_class

unfoldable pub validate : Snapshot → Validation StateError
validate s = do
  reject_if (not (eqb_ℤ s.version schema_version)) (unsupported_schema s.version)
  reject_if (is_zero_time s.observed_at || not (is_utc s.observed_at)) observation_not_utc
  reject_if (not (valid_opaque_id s.identity_key_id b'k')) key_id_invalid
  arp_validate s.arp_available s.arp_failure_class
  check_each (check_lease s.observed_at) (λ l. l.device_id) duplicate_device (λ l. l.ip)
      duplicate_ip 0 [] [] s.leases
