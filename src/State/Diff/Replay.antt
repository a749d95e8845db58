-- ===== src/State/Diff/Replay.antt =====
-- The abstract view of a state is the address of each device. Applying the events of `Diff` to the
-- view of the state before gives the view of the state after.
use dhcp_lease_observer.Prelude.{
  ◌≡◌, refl, sym, ap, ◌≢◌, ◌∙◌, inl, inr, not, Option, none, some, List, [], ◌∷◌, arith, ok, err,
  ◌==◌, if◌then◌else◌, Distinct, find_by, find_by-eq-none, Bool-cases, eq_self, eq_false, ◌≤ℤ◌,
  reject-eq-ok, wrap-eq-ok, ok-injective, subst, +ℤ_parts, then-eq-ok, wrap_err,
}
use dhcp_lease_observer.Text.{Bytes, bytes_eq, bytes_beq_iff}
use dhcp_lease_observer.Net.{Addr, addr_eq, addr_beq_iff}
use dhcp_lease_observer.Clock.{Time, before, add_time}
use dhcp_lease_observer.State.{Lease, Snapshot, validate}
use dhcp_lease_observer.State.Valid.{IsState, validate_iff}
use dhcp_lease_observer.State.Event.{Event, EventType, lease_removed, event_from_lease}
use dhcp_lease_observer.State.Diff.Events.{device, lease_device}
use dhcp_lease_observer.State.Diff.Expected.{expected, IsDiff}
use dhcp_lease_observer.State.Diff.Exact.{diff_exact}
use dhcp_lease_observer.State.Diff.{
  diff, current_invalid, previous_invalid, identity_key_changed, renewal_tolerance,
}

-- The address of each device.
abbrev pub View : Type 0
View = Bytes → Option Addr

abbrev pub address : Option Lease → Option Addr
address none = none
address (some l) = some l.ip

pub view : Snapshot → View
view s d = address (find_by lease_device d s.leases)

abbrev pub address_after : EventType → Addr → Option Addr
address_after lease_removed ip = none
address_after _ ip = some ip

-- What an event tells a reader who keeps a view.
pub apply_event : View → Event → View
apply_event v e d = if e.device_id == d then address_after e.type e.ip else v d

pub replay : View → List Event → View
replay v [] = v
replay v (e ∷ es) = replay (apply_event v e) es

abbrev told : Option Event → Option Addr → Option Addr
told none a = a
told (some e) a = address_after e.type e.ip

replay-find_by :
    (es : List Event) (v : View) (d : Bytes)
    → Distinct device es
    → replay v es d ≡ told (find_by device d es) (v d)
unfolding replay apply_event find_by
replay-find_by [] v d h = refl
replay-find_by (e ∷ es) v d h = elim (Bool-cases (e.device_id == d)) [
  | inl t ↦
      let same = (bytes_beq_iff e.device_id d).0 t in
      let gone : find_by device d es ≡ none =
        rw (← same) (find_by-eq-none device e.device_id es h.0) in
      replay-find_by es (apply_event v e) d h.1 ∙ rw (gone, t)
  | inr f ↦ replay-find_by es (apply_event v e) d h.1 ∙ rw f
]

told-expected : (t : Time) (o n : Option Lease) → told (expected t o n) (address o) ≡ address n
unfolding expected event_from_lease
told-expected t none none = refl
told-expected t none (some l) = refl
told-expected t (some old) none = refl
told-expected t (some old) (some l) = ground (arith, addr_beq_iff old.ip l.ip)

-- What a successful `Diff` has checked of its two states.
pub record Compared (p c : Snapshot) : Type 0 where
  pub previous_valid : IsState p
  pub current_valid : IsState c
  pub same_key : p.identity_key_id ≡ c.identity_key_id
  pub in_order : p.observed_at.instant ≤ℤ c.observed_at.instant

pub diff-Compared :
    (p c : Snapshot) {events : List Event} → diff (some p) c ≡ ok events → Compared p c
unfolding diff
diff-Compared p c h =
    let (v, h₁) = then-eq-ok (wrap_err current_invalid (validate c)) _ h in
    let (w, h₂) = then-eq-ok (wrap_err previous_invalid (validate p)) _ h₁ in
    let (k, h₃) = reject-eq-ok (not (p.identity_key_id == c.identity_key_id)) _ _ h₂ in
    let (b, h₄) = reject-eq-ok (before c.observed_at p.observed_at) _ _ h₃ in
    record {
      previous_valid = (validate_iff p).0 (wrap-eq-ok previous_invalid _ w);
      current_valid = (validate_iff c).0 (wrap-eq-ok current_invalid _ v);
      same_key = ground (arith, bytes_beq_iff p.identity_key_id c.identity_key_id);
      in_order = ground arith;
    }

pub diff-IsDiff :
    (p c : Snapshot) (events : List Event)
    → diff (some p) c ≡ ok events
    → IsDiff c.observed_at p.leases c.leases events
diff-IsDiff p c events h =
    let v = diff-Compared p c h in
    let (es, e, d) = diff_exact p c v.previous_valid v.current_valid v.same_key v.in_order in
    subst (IsDiff c.observed_at p.leases c.leases) (ok-injective (sym e ∙ h)) d

-- Whenever `Diff` of two states succeeds, a reader who knew the address of each device in the first
-- and applies the events in order knows the address of each device in the second.
pub replay-diff :
    (p c : Snapshot) (events : List Event)
    → diff (some p) c ≡ ok events
    → (d : Bytes) → replay (view p) events d ≡ view c d
unfolding view
replay-diff p c events h d =
    let v = diff-IsDiff p c events h in
    replay-find_by events (view p) d v.devices
    ∙ ap (λ e. told e (view p d)) (v.events_of d)
    ∙ told-expected c.observed_at _ _

empty_of_find_by : (es : List Event) → ((d : Bytes) → find_by device d es ≡ none) → es ≡ []
unfolding find_by
empty_of_find_by [] h = refl
empty_of_find_by (e ∷ es) h = cc (rw (eq_self e.device_id) at (h e.device_id))

expected_same : (t : Time) (o : Option Lease) → expected t o o ≡ none
unfolding expected add_time
expected_same t none = refl
expected_same t (some l) =
    rw ((addr_beq_iff l.ip l.ip).1 refl)
      (ground (arith, +ℤ_parts l.bound_at.instant renewal_tolerance))

-- Between two valid states with the same leases, the same identity key and no step back in time,
-- `Diff` succeeds and has no event.
pub diff_same :
    (p c : Snapshot)
    → IsState p
    → IsState c
    → p.identity_key_id ≡ c.identity_key_id
    → p.observed_at.instant ≤ℤ c.observed_at.instant
    → p.leases ≡ c.leases
    → diff (some p) c ≡ ok []
diff_same p c vp vc k o same =
    let (es, e, d) = diff_exact p c vp vc k o in
    e ∙ ap ok (empty_of_find_by es (λ d'. d.events_of d' ∙ rw same (expected_same c.observed_at _)))

-- Of two valid states with different identity keys `Diff` reports the change of key, and no event.
pub diff_key_changed :
    (p c : Snapshot)
    → IsState p
    → IsState c
    → p.identity_key_id ≢ c.identity_key_id
    → diff (some p) c ≡ err identity_key_changed
unfolding diff
diff_key_changed p c vp vc h =
    rw
      ((validate_iff c).1 vc, (validate_iff p).1 vp, eq_false p.identity_key_id c.identity_key_id h)
