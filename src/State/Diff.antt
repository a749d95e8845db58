-- ===== src/State/Diff.antt =====
-- `Diff` of internal/state/diff.go: the transition events from one state to the next.
pub mod Events
pub mod Exact
pub mod Expected
pub mod Replay
use dhcp_lease_observer.Prelude.{
  ◌*◌, not, Option, none, some, List, [], ◌∷◌, ◌++◌, Result, ok, ◌>>=◌, ◌>>◌, reject_if, wrap_err,
  ℤ, pos, ◌==◌, if◌then◌else◌, sort_slice,
}
use dhcp_lease_observer.Text.{Bytes, bytes_eq}
use dhcp_lease_observer.Net.{addr_eq}
use dhcp_lease_observer.Clock.{Time, before, after, add_time, nanoseconds}
use dhcp_lease_observer.State.{Lease, Snapshot, StateError, validate}
use dhcp_lease_observer.State.Event.{
  Event, EventError, lease_bound, lease_renewed, lease_moved, lease_removed, event_from_lease,
  event_less, validate_events,
}

pub data DiffError : Type 0 where
  current_invalid previous_invalid : StateError → DiffError
  identity_key_changed observation_precedes : DiffError
  event_invalid : EventError → DiffError

-- 5 * time.Second
abbrev pub renewal_tolerance : ℤ
renewal_tolerance = pos (5 * nanoseconds)

-- `map[string]Lease`, as a function from device IDs.
abbrev pub LeaseMap : Type 0
LeaseMap = Bytes → Option Lease

abbrev pub put_lease : LeaseMap → Lease → LeaseMap
put_lease m l device = if l.device_id == device then some l else m device

-- The loop that fills a map from a list of leases.
unfoldable pub by_device : LeaseMap → List Lease → LeaseMap
by_device m [] = m
by_device m (l ∷ ls) = by_device (put_lease m l) ls

abbrev pub moved_event : Time → Lease → Lease → Event
moved_event t old l = record (event_from_lease lease_moved t l) { previous_ip = some old.ip }

-- The switch of the first loop, on the lease that the device had before.
unfoldable pub transition : Time → Option Lease → Lease → Option Event
transition t none l = some (event_from_lease lease_bound t l)
transition t (some old) l =
    if not (old.ip == l.ip)
    then some (moved_event t old l)
    else if after l.bound_at (add_time old.bound_at renewal_tolerance)
    then some (event_from_lease lease_renewed t l)
    else none

abbrev pub append_event : Option Event → List Event → List Event
append_event none es = es
append_event (some e) es = e ∷ es

unfoldable pub current_events : Time → LeaseMap → List Lease → List Event
current_events t previous [] = []
current_events t previous (l ∷ ls) =
    append_event (transition t (previous l.device_id) l) (current_events t previous ls)

-- The second loop: a device that is gone.
abbrev pub removal : Time → Option Lease → Lease → Option Event
removal t none old = some (event_from_lease lease_removed t old)
removal t (some _) old = none

unfoldable pub removed_events : Time → LeaseMap → List Lease → List Event
removed_events t current [] = []
removed_events t current (l ∷ ls) =
    append_event (removal t (current l.device_id) l) (removed_events t current ls)

unfoldable pub bound_events : Time → List Lease → List Event
bound_events t [] = []
bound_events t (l ∷ ls) = event_from_lease lease_bound t l ∷ bound_events t ls

-- `sortEvents`, then `validateEvents`.
unfoldable pub finish : List Event → Result DiffError (List Event)
finish events =
    let sorted = sort_slice event_less events in
    (do wrap_err event_invalid (validate_events sorted); ok sorted)

unfoldable pub diff : Option Snapshot → Snapshot → Result DiffError (List Event)
diff none current = do
  wrap_err current_invalid (validate current)
  finish (bound_events current.observed_at current.leases)
diff (some previous) current = do
  wrap_err current_invalid (validate current)
  wrap_err previous_invalid (validate previous)
  reject_if (not (previous.identity_key_id == current.identity_key_id)) identity_key_changed
  reject_if (before current.observed_at previous.observed_at) observation_precedes
  let previous_by_device = by_device (λ _. none) previous.leases
  let current_by_device = by_device (λ _. none) current.leases
  finish (
      current_events current.observed_at previous_by_device current.leases
      ++ removed_events current.observed_at current_by_device previous.leases)
