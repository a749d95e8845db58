-- ===== src/Tests/States.antt =====
-- Validation of states, and the events between them.
use dhcp_lease_observer.Prelude.{
  ◌≡◌, refl, ◌↔◌, ok, err, some, List, arith, [], ◌∷◌, inr, Option, Bool, true, false, check_each,
  ne_of_eq_false, seen, sort_slice, insert_sorted, ◌+ℤ◌,
}
use dhcp_lease_observer.Net.{v4, addr_beq}
use dhcp_lease_observer.Text.{codes, bytes_beq, bytes_eq, bytes_less, is_id_byte, is_alnum}
use dhcp_lease_observer.Clock.{add_time}
use dhcp_lease_observer.Base64.{decode, url_value}
use dhcp_lease_observer.State.OpaqueId.{valid_opaque_id, valid_opaque_id_iff, IsOpaqueId}
use dhcp_lease_observer.State.{Snapshot, validate, lease_validate, arp_validate}
use dhcp_lease_observer.State.Valid.{IsState, validate_iff}
use dhcp_lease_observer.State.Event.{
  Event, event_less, event_validate, validate_events, event_from_lease, type_validate, lease_moved,
  lease_removed, lease_bound,
}
use dhcp_lease_observer.State.Diff.{
  diff, identity_key_changed, by_device, current_events, removed_events, transition, finish,
}
use dhcp_lease_observer.State.Diff.Expected.{IsDiff}
use dhcp_lease_observer.State.Diff.Exact.{diff_exact}
use dhcp_lease_observer.State.Diff.Replay.{view, replay, replay-diff, diff_same, diff_key_changed}
use dhcp_lease_observer.Tests.Samples.{
  first, second, noon, at_second, lease, device_a, key_b, device_b, device_c,
}

-- What a run of `Validate` computes with.
validate_run : Snapshot → Bool
unfolding validate lease_validate arp_validate valid_opaque_id decode check_each seen bytes_beq
    addr_beq is_id_byte is_alnum url_value
validate_run s = elim (validate s) [ ok _ ↦ true | err _ ↦ false ]

first-IsState : IsState first
unfolding validate_run
first-IsState = (validate_iff first).0 refl

second-IsState : IsState second
unfolding validate_run
second-IsState = (validate_iff second).0 refl

-- The three events: the order is by device.
run_events : Option Snapshot → Snapshot → List Event
unfolding diff validate_run by_device current_events removed_events transition finish sort_slice
    insert_sorted event_less bytes_less validate_events event_validate type_validate
    event_from_lease add_time ◌+ℤ◌
run_events p c = elim (diff p c) [ ok es ↦ es | err _ ↦ [] ]

abbrev events : List Event
events =
    record (event_from_lease lease_moved (at_second 60) (lease device_a 3 noon)) {
      previous_ip = some (v4 3221225985);
    }
    ∷ event_from_lease lease_removed (at_second 60) (lease device_b 2 noon)
    ∷ event_from_lease lease_bound (at_second 60) (lease device_c 2 (at_second 30))
    ∷ []

diff_run : diff (some first) second ≡ ok events
unfolding run_events
diff_run = refl

valid_opaque_id_iff_example :
    (valid_opaque_id (codes key_b) b'k' ≡ true) ↔ IsOpaqueId b'k' (codes key_b)
valid_opaque_id_iff_example = valid_opaque_id_iff (codes key_b) b'k' (inr refl)

validate_iff_example : (validate second ≡ ok tt) ↔ IsState second
validate_iff_example = validate_iff second

diff_exact_example :
    (es : List Event) × (diff (some first) second ≡ ok es)
    × IsDiff (at_second 60) first.leases second.leases es
diff_exact_example = diff_exact first second first-IsState second-IsState refl (omega arith)

replay-diff_example : replay (view first) events (codes device_a) ≡ view second (codes device_a)
replay-diff_example = replay-diff first second events diff_run (codes device_a)

abbrev later : Snapshot
later = record first { observed_at = at_second 300 }

later-IsState : IsState later
unfolding validate_run
later-IsState = (validate_iff later).0 refl

diff_same_example : diff (some first) later ≡ ok []
diff_same_example = diff_same first later first-IsState later-IsState refl (omega arith) refl

abbrev rekeyed : Snapshot
rekeyed = record first { identity_key_id = codes key_b }

rekeyed-IsState : IsState rekeyed
unfolding validate_run
rekeyed-IsState = (validate_iff rekeyed).0 refl

rekeyed_refused : diff (some first) rekeyed ≡ err identity_key_changed
unfolding bytes_beq
rekeyed_refused =
    diff_key_changed first rekeyed first-IsState rekeyed-IsState
      (ne_of_eq_false first.identity_key_id rekeyed.identity_key_id refl)
