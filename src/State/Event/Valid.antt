-- ===== src/State/Event/Valid.antt =====
-- The events that `Diff` builds from valid leases pass their own validation.
use dhcp_lease_observer.Prelude.{◌≡◌, refl, inl, Option, List, [], ◌∷◌, arith, All, ok}
use dhcp_lease_observer.Text.{bytes_eq}
use dhcp_lease_observer.Net.{Addr}
use dhcp_lease_observer.Clock.{Time}
use dhcp_lease_observer.Model.Valid.{not_ipv4_iff}
use dhcp_lease_observer.State.{Lease}
use dhcp_lease_observer.State.OpaqueId.{valid_opaque_id_iff}
use dhcp_lease_observer.State.Valid.{IsLease, IsUtc, is_utc_iff}
use dhcp_lease_observer.State.Event.{
  Event, EventType, type_validate, event_validate, event_from_lease, validate_events,
}

abbrev pub IsEvent : Event → Type 0
IsEvent e = event_validate e ≡ ok tt

module _ (t s : Time) (l : Lease) (u : IsUtc t) (v : IsLease s l) where
  -- A lease gives a valid event of every type, if the type admits the previous address.
  pub event_from_lease-IsEvent :
      (type : EventType) (previous : Option Addr)
      → type_validate type previous ≡ ok tt
      → IsEvent (record (event_from_lease type t l) { previous_ip = previous })
  unfolding event_validate event_from_lease
  event_from_lease-IsEvent type previous h =
      rw
        (
          h,
          (is_utc_iff t).1 u,
          (valid_opaque_id_iff l.device_id b'd' (inl refl)).1 v.identified,
          (not_ipv4_iff l.ip).1 v.ipv4,
        )
        (ground (arith, v.assigned, v.is_bound))

pub validate_events-All : (es : List Event) → All IsEvent es → validate_events es ≡ ok tt
unfolding validate_events
validate_events-All [] h = refl
validate_events-All (e ∷ es) h = rw (h.0) (validate_events-All es h.1)
