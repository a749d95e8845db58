-- ===== src/State/Diff/Exact.antt =====
-- The events of `Diff` are exactly the transitions between the two states, one for each device.
use dhcp_lease_observer.Prelude.{
  ◌≡◌, refl, sym, ap, ◌≢◌, ◌∙◌, true, false, Option, none, some, Distinct-append, All-swap, ap₂,
  List, ◌++◌, arith, All, All-imp, All-append, ok, ◌==◌, Distinct, find_by, or_else, find_by-append,
  All-of-find_by, find_by-All, find_by-key, find_by-sort_slice, Distinct-sort_slice, All-sort_slice,
  sort_slice, sort_slice-IsSorted, ◌≤ℤ◌,
}
use dhcp_lease_observer.Text.{Bytes, bytes_eq, bytes_beq_iff}
use dhcp_lease_observer.Net.{addr_eq}
use dhcp_lease_observer.Clock.{before}
use dhcp_lease_observer.Model.Valid.{IsIpv4}
use dhcp_lease_observer.State.{Lease, Snapshot}
use dhcp_lease_observer.State.Valid.{IsLease, IsState, validate_iff}
use dhcp_lease_observer.State.Event.{Event, event_less}
use dhcp_lease_observer.State.Event.Valid.{IsEvent}
use dhcp_lease_observer.State.Diff.Events.{
  device, lease_device, by_device-find_by, collect, event_of, Keeps, current_events-collect,
  removed_events-collect, collect-All, collect-ne, collect-Distinct, find_by-collect,
  transition-device, removal-device, removal-none,
}
use dhcp_lease_observer.State.Event.Order.{event_less-IsOrder}
use dhcp_lease_observer.State.Diff.Expected.{
  expected, IsDiff, transition-IsEvent, removal-IsEvent, finish-sorted,
}
use dhcp_lease_observer.State.Diff.{LeaseMap, by_device, transition, removal, diff}

module _ (p c : Snapshot) (valid_p : IsState p) (valid_c : IsState c) where
  abbrev before_map : LeaseMap
  before_map = by_device (λ _. none) p.leases

  abbrev now_map : LeaseMap
  now_map = by_device (λ _. none) c.leases

  abbrev on_current : Lease → Option Event
  on_current l = transition c.observed_at (before_map l.device_id) l

  abbrev on_previous : Lease → Option Event
  on_previous l = removal c.observed_at (now_map l.device_id) l

  or_none : (o : Option Lease) → or_else o none ≡ o
  or_none none = refl
  or_none (some l) = refl

  before_map_lem : (d : Bytes) → before_map d ≡ find_by lease_device d p.leases
  before_map_lem d = by_device-find_by p.leases (λ _. none) d valid_p.devices ∙ or_none _

  now_map_lem : (d : Bytes) → now_map d ≡ find_by lease_device d c.leases
  now_map_lem d = by_device-find_by c.leases (λ _. none) d valid_c.devices ∙ or_none _

  on_current-Keeps : Keeps on_current
  on_current-Keeps l = transition-device c.observed_at (before_map l.device_id) l

  on_previous-Keeps : Keeps on_previous
  on_previous-Keeps l = removal-device c.observed_at (now_map l.device_id) l

  abbrev unsorted : List Event
  unsorted = collect on_current c.leases ++ collect on_previous p.leases

  unsorted-IsEvent : All IsEvent unsorted
  unsorted-IsEvent =
      All-append IsEvent (collect on_current c.leases) (collect on_previous p.leases)
        (collect-All on_current (IsLease c.observed_at) IsEvent
          (λ l e v h.
            transition-IsEvent c.observed_at valid_c.observed c.observed_at (before_map l.device_id)
              l e v (old_ipv4 l.device_id) h)
          c.leases valid_c.valid)
        (collect-All on_previous (IsLease p.observed_at) IsEvent
          (λ l e v h.
            removal-IsEvent c.observed_at valid_c.observed p.observed_at (now_map l.device_id) l e v
              h)
          p.leases valid_p.valid)
    where
      old_ipv4 : (d : Bytes) (old : Lease) → before_map d ≡ some old → IsIpv4 old.ip
      old_ipv4 d old h =
          (find_by-All lease_device (IsLease p.observed_at) d p.leases valid_p.valid
            (sym (before_map_lem d) ∙ h)).ipv4

  unsorted-Distinct : Distinct device unsorted
  unsorted-Distinct =
      Distinct-append device cur rem
        (collect-Distinct on_current on_current-Keeps c.leases valid_c.devices)
        (collect-Distinct on_previous on_previous-Keeps p.leases valid_p.devices)
        (All-swap (λ x y. y.device_id ≢ x.device_id) cur rem
          (collect-All on_previous (IsLease p.observed_at)
            (λ y. All (λ x. y.device_id ≢ x.device_id) cur) apart p.leases valid_p.valid))
    where
      cur : List Event
      cur = collect on_current c.leases

      rem : List Event
      rem = collect on_previous p.leases

      apart :
          (l : Lease) (e : Event)
          → IsLease p.observed_at l
          → on_previous l ≡ some e
          → All (λ x. e.device_id ≢ x.device_id) cur
      apart l e v h =
          let absent =
            sym (now_map_lem l.device_id)
            ∙ removal-none c.observed_at (now_map l.device_id) l e h in
          All-imp (λ x. x.device_id ≢ l.device_id) (λ x. e.device_id ≢ x.device_id)
            (λ x n q. n (sym q ∙ on_previous-Keeps l e h)) cur
            (collect-ne on_current on_current-Keeps l.device_id c.leases
              (All-of-find_by lease_device l.device_id c.leases absent))

  -- The two loops together give each device the event that it calls for.
  combined :
      (d : Bytes) (o n : Option Lease)
      → find_by lease_device d p.leases ≡ o
      → find_by lease_device d c.leases ≡ n
      → or_else (event_of on_current n) (event_of on_previous o) ≡ expected c.observed_at o n
  unfolding expected transition
  combined d none none ho hn = refl
  combined d none (some l) ho hn =
      let same = find_by-key lease_device d c.leases hn in
      rw (before_map_lem l.device_id ∙ ap (λ k. find_by lease_device k p.leases) same ∙ ho)
  combined d (some old) none ho hn =
      let same = find_by-key lease_device d p.leases ho in
      rw (now_map_lem old.device_id ∙ ap (λ k. find_by lease_device k c.leases) same ∙ hn)
  combined d (some old) (some l) ho hn =
      let same = find_by-key lease_device d c.leases hn in
      let same' = find_by-key lease_device d p.leases ho in
      rw
        (
          before_map_lem l.device_id ∙ ap (λ k. find_by lease_device k p.leases) same ∙ ho,
          now_map_lem old.device_id ∙ ap (λ k. find_by lease_device k c.leases) same' ∙ hn,
        )
        (ground arith)

  find_by-unsorted :
      (d : Bytes)
      → find_by device d unsorted
        ≡ expected c.observed_at (find_by lease_device d p.leases) (find_by lease_device d c.leases)
  find_by-unsorted d =
      find_by-append device d (collect on_current c.leases) (collect on_previous p.leases)
      ∙ ap₂ or_else (find_by-collect on_current on_current-Keeps d c.leases valid_c.devices)
          (find_by-collect on_previous on_previous-Keeps d p.leases valid_p.devices)
      ∙ combined d _ _ refl refl

  -- From one valid state to a later valid state under the same identity key `Diff` succeeds. Its
  -- events are valid and sorted, no device has two, and each device has the event that its leases
  -- before and after call for: bound if new, removed if gone, moved if its address changed, renewed
  -- if only its bound time rose by more than five seconds, and none otherwise.
  pub diff_exact :
      p.identity_key_id ≡ c.identity_key_id
      → p.observed_at.instant ≤ℤ c.observed_at.instant
      → (events : List Event) × (diff (some p) c ≡ ok events)
        × IsDiff c.observed_at p.leases c.leases events
  unfolding diff
  diff_exact key later = (
    sort_slice event_less unsorted,
    rw
        (
          (validate_iff c).1 valid_c,
          (validate_iff p).1 valid_p,
          same_key,
          in_order,
          current_events-collect c.observed_at before_map c.leases,
          removed_events-collect c.observed_at now_map p.leases,
        )
        (finish-sorted unsorted unsorted-IsEvent),
    record {
      events_of = λ d.
          find_by-sort_slice device event_less d unsorted unsorted-Distinct ∙ find_by-unsorted d;
      devices = Distinct-sort_slice event_less device unsorted unsorted-Distinct;
      sorted = sort_slice-IsSorted event_less event_less-IsOrder unsorted;
      valid = All-sort_slice event_less IsEvent unsorted unsorted-IsEvent;
    },
  )
    where
      same_key : (p.identity_key_id == c.identity_key_id) ≡ true
      same_key = (bytes_beq_iff p.identity_key_id c.identity_key_id).1 key

      in_order : before c.observed_at p.observed_at ≡ false
      in_order = ground arith
