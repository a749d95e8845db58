-- ===== src/State/Diff/Expected.antt =====
-- What a poll should say of each device, and that the events of `Diff` are valid ones.
use dhcp_lease_observer.Prelude.{
  ◌≡◌, refl, inl, inr, Option, none, some, some-injective, subst, List, All, ok, ◌==◌,
  if◌then◌else◌, Distinct, find_by, Bool-cases, All-sort_slice, sort_slice, IsSorted,
}
use dhcp_lease_observer.Text.{Bytes, bytes_eq}
use dhcp_lease_observer.Net.{addr_eq}
use dhcp_lease_observer.Clock.{Time, after, add_time}
use dhcp_lease_observer.Model.Valid.{IsIpv4, not_ipv4_iff}
use dhcp_lease_observer.State.{Lease}
use dhcp_lease_observer.State.Valid.{IsLease, IsUtc}
use dhcp_lease_observer.State.Event.{
  Event, lease_bound, lease_renewed, lease_moved, lease_removed, event_from_lease, type_validate,
  event_less,
}
use dhcp_lease_observer.State.Event.Valid.{IsEvent, event_from_lease-IsEvent, validate_events-All}
use dhcp_lease_observer.State.Diff.Events.{device, lease_device}
use dhcp_lease_observer.State.Diff.{moved_event, transition, removal, finish, renewal_tolerance}

-- The event that a device calls for, from its lease before and its lease now.
unfoldable pub expected : Time → Option Lease → Option Lease → Option Event
expected t none none = none
expected t none (some l) = some (event_from_lease lease_bound t l)
expected t (some old) none = some (event_from_lease lease_removed t old)
expected t (some old) (some l) =
    if old.ip == l.ip
    then if after l.bound_at (add_time old.bound_at renewal_tolerance)
      then some (event_from_lease lease_renewed t l)
      else none
    else some (moved_event t old l)

-- A list of events that says of each device what it calls for, in the order of devices, no device
-- twice, and each event valid.
pub record IsDiff (t : Time) (before_ after_ : List Lease) (events : List Event) : Type 0 where
  pub events_of :
      (d : Bytes)
      → find_by device d events
        ≡ expected t (find_by lease_device d before_) (find_by lease_device d after_)
  pub devices : Distinct device events
  pub sorted : IsSorted event_less events
  pub valid : All IsEvent events

same-IsEvent : {a e : Event} → some a ≡ some e → IsEvent a → IsEvent e
same-IsEvent {a} {e} h v = subst IsEvent (some-injective a e h) v

module _ (t : Time) (u : IsUtc t) where
  pub transition-IsEvent :
      (s : Time) (o : Option Lease) (l : Lease) (e : Event)
      → IsLease s l
      → ((old : Lease) → o ≡ some old → IsIpv4 old.ip)
      → transition t o l ≡ some e
      → IsEvent e
  unfolding transition event_from_lease type_validate
  transition-IsEvent s none l e v w h =
      same-IsEvent h (event_from_lease-IsEvent t s l u v lease_bound none refl)
  transition-IsEvent s (some old) l e v w h = elim (Bool-cases (old.ip == l.ip)) [
    | inl same ↦ elim (Bool-cases (after l.bound_at (add_time old.bound_at renewal_tolerance))) [
      | inl late ↦
          same-IsEvent (rw (same, late) at h)
            (event_from_lease-IsEvent t s l u v lease_renewed none refl)
      | inr early ↦ cc (rw (same, early) at h)
    ]
    | inr moved ↦ same-IsEvent (rw moved at h) (
        event_from_lease-IsEvent t s l u v lease_moved (some old.ip)
          (rw ((not_ipv4_iff old.ip).1 (w old refl))))
  ]

  pub removal-IsEvent :
      (s : Time) (o : Option Lease) (l : Lease) (e : Event)
      → IsLease s l
      → removal t o l ≡ some e
      → IsEvent e
  unfolding event_from_lease type_validate
  removal-IsEvent s none l e v h =
      same-IsEvent h (event_from_lease-IsEvent t s l u v lease_removed none refl)
  removal-IsEvent s (some _) l e v h = cc

pub finish-sorted : (es : List Event) → All IsEvent es → finish es ≡ ok (sort_slice event_less es)
unfolding finish
finish-sorted es h =
    rw (validate_events-All (sort_slice event_less es) (All-sort_slice event_less IsEvent es h))
