-- ===== src/State/Event.antt =====
-- The transition events of internal/state/diff.go and their validation.
pub mod Order
pub mod Valid
use dhcp_lease_observer.Prelude.{
  Bool, not, ◌||◌, Option, none, some, List, [], ◌∷◌, Validation, ok, err, ◌>>=◌, ◌>>◌, reject_if,
  ℤ, eqb_ℤ, ◌==◌, if◌then◌else◌,
}
use dhcp_lease_observer.Text.{Bytes, codes, bytes_less, bytes_eq}
use dhcp_lease_observer.Net.{Addr}
use dhcp_lease_observer.Clock.{Time, is_zero_time}
use dhcp_lease_observer.Model.{Assignment, LeaseState, is_assignment, is_bound, not_ipv4}
use dhcp_lease_observer.State.{Lease, schema_version, is_utc}
use dhcp_lease_observer.State.OpaqueId.{valid_opaque_id}

-- `other` stands for a string that is none of the constants.
pub data EventType : Type 0 where
  lease_bound lease_renewed lease_moved lease_removed : EventType
  other : Bytes → EventType

abbrev pub type_text : EventType → Bytes
type_text lease_bound = codes "lease_bound"
type_text lease_renewed = codes "lease_renewed"
type_text lease_moved = codes "lease_moved"
type_text lease_removed = codes "lease_removed"
type_text (other text) = text

pub record Event : Type 0 where
  pub version : ℤ
  pub type : EventType
  pub observed_at : Time
  pub device_id : Bytes
  pub ip : Addr
  pub previous_ip : Option Addr
  pub assignment : Assignment
  pub state : LeaseState
  pub profile : Bytes

pub data EventError : Type 0 where
  event_version_invalid previous_ip_unexpected previous_ip_required event_type_invalid : EventError
  observation_not_utc event_device_id_invalid event_ip_not_ipv4 : EventError
  event_assignment_invalid event_state_invalid : EventError

abbrev pub no_previous : Option Addr → Validation EventError
no_previous none = ok tt
no_previous (some _) = err previous_ip_unexpected

-- The switch over the event's type.
unfoldable pub type_validate : EventType → Option Addr → Validation EventError
type_validate lease_bound previous = no_previous previous
type_validate lease_renewed previous = no_previous previous
type_validate lease_removed previous = no_previous previous
type_validate lease_moved none = err previous_ip_required
type_validate lease_moved (some ip) = reject_if (not_ipv4 ip) previous_ip_required
type_validate (other _) previous = err event_type_invalid

unfoldable pub event_validate : Event → Validation EventError
event_validate e = do
  reject_if (not (eqb_ℤ e.version schema_version)) event_version_invalid
  type_validate e.type e.previous_ip
  reject_if (is_zero_time e.observed_at || not (is_utc e.observed_at)) observation_not_utc
  reject_if (not (valid_opaque_id e.device_id b'd')) event_device_id_invalid
  reject_if (not_ipv4 e.ip) event_ip_not_ipv4
  reject_if (not (is_assignment e.assignment)) event_assignment_invalid
  reject_if (not (is_bound e.state)) event_state_invalid

unfoldable pub event_from_lease : EventType → Time → Lease → Event
event_from_lease type observed_at l = record {
  version = schema_version;
  type = type;
  observed_at = observed_at;
  device_id = l.device_id;
  ip = l.ip;
  previous_ip = none;
  assignment = l.assignment;
  state = l.state;
  profile = l.profile;
}

-- The order of `sortEvents`: by device, then by type.
unfoldable pub event_less : Event → Event → Bool
event_less a b =
    if a.device_id == b.device_id
    then bytes_less (type_text a.type) (type_text b.type)
    else bytes_less a.device_id b.device_id

unfoldable pub validate_events : List Event → Validation EventError
validate_events [] = ok tt
validate_events (e ∷ es) = do event_validate e; validate_events es
