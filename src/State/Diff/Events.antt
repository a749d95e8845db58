-- ===== src/State/Diff/Events.antt =====
-- The lists of events that the loops of `Diff` build: all valid, and no device twice.
use dhcp_lease_observer.Prelude.{
  ◌≡◌, refl, sym, ap, ◌≢◌, ◌∙◌, inl, inr, true, false, Option, none, some, List, [], ◌∷◌, arith,
  All, Option-cases, ◌==◌, Distinct, find_by, or_else, find_by-eq-none, Bool-cases,
}
use dhcp_lease_observer.Text.{Bytes, bytes_eq, bytes_beq_iff}
use dhcp_lease_observer.Net.{addr_eq}
use dhcp_lease_observer.Clock.{Time}
use dhcp_lease_observer.State.{Lease}
use dhcp_lease_observer.State.Event.{Event, lease_bound, event_from_lease}
use dhcp_lease_observer.State.Diff.{
  LeaseMap, put_lease, by_device, append_event, transition, current_events, removal, removed_events,
  bound_events,
}

abbrev pub device : Event → Bytes
device e = e.device_id

abbrev pub lease_device : Lease → Bytes
lease_device l = l.device_id

-- With distinct devices the map holds the list.
pub by_device-find_by :
    (ls : List Lease) (m : LeaseMap) (d : Bytes)
    → Distinct lease_device ls
    → by_device m ls d ≡ or_else (find_by lease_device d ls) (m d)
unfolding by_device find_by
by_device-find_by [] m d h = refl
by_device-find_by (l ∷ ls) m d h = elim (Bool-cases (l.device_id == d)) [
  | inl t ↦
      let same = (bytes_beq_iff l.device_id d).0 t in
      let gone : find_by lease_device d ls ≡ none =
        rw (← same) (find_by-eq-none lease_device l.device_id ls h.0) in
      by_device-find_by ls (put_lease m l) d h.1 ∙ rw (gone, t)
  | inr f ↦ by_device-find_by ls (put_lease m l) d h.1 ∙ rw f
]

-- Both loops of `Diff` collect the event, if there is one, of each lease.
abbrev pub collect : (Lease → Option Event) → List Lease → List Event
collect f [] = []
collect f (l ∷ ls) = append_event (f l) (collect f ls)

pub current_events-collect :
    (t : Time) (m : LeaseMap) (ls : List Lease)
    → current_events t m ls ≡ collect (λ l. transition t (m l.device_id) l) ls
unfolding current_events
current_events-collect t m [] = refl
current_events-collect t m (l ∷ ls) =
    ap (append_event (transition t (m l.device_id) l)) (current_events-collect t m ls)

pub removed_events-collect :
    (t : Time) (m : LeaseMap) (ls : List Lease)
    → removed_events t m ls ≡ collect (λ l. removal t (m l.device_id) l) ls
unfolding removed_events
removed_events-collect t m [] = refl
removed_events-collect t m (l ∷ ls) =
    ap (append_event (removal t (m l.device_id) l)) (removed_events-collect t m ls)

pub bound_events-collect :
    (t : Time) (ls : List Lease)
    → bound_events t ls ≡ collect (λ l. some (event_from_lease lease_bound t l)) ls
unfolding bound_events
bound_events-collect t [] = refl
bound_events-collect t (l ∷ ls) =
    ap (◌∷◌ (event_from_lease lease_bound t l)) (bound_events-collect t ls)

-- An event keeps the device of its lease.
abbrev pub Keeps : (Lease → Option Event) → Type 0
Keeps f = (l : Lease) (e : Event) → f l ≡ some e → e.device_id ≡ l.device_id

-- The event of a lease that may be there.
abbrev pub event_of : (Lease → Option Event) → Option Lease → Option Event
event_of f none = none
event_of f (some l) = f l

module _ (f : Lease → Option Event) where
  pub collect-All :
      (P : Lease → Type 0) (Q : Event → Type 0)
      → ((l : Lease) (e : Event) → P l → f l ≡ some e → Q e)
      → (ls : List Lease) → All P ls
      → All Q (collect f ls)
  collect-All P Q h [] a = tt
  collect-All P Q h (l ∷ ls) a = elim (Option-cases (f l)) [
    | inl n ↦ rw (n, append_event) (collect-All P Q h ls a.1)
    | inr (e, s) ↦ rw (s, append_event) (h l e a.0 s, collect-All P Q h ls a.1)
  ]

  module _ (keeps : Keeps f) where
    pub collect-ne :
        (d : Bytes) (ls : List Lease)
        → All (λ l. l.device_id ≢ d) ls
        → All (λ e. e.device_id ≢ d) (collect f ls)
    collect-ne d =
        collect-All (λ l. l.device_id ≢ d) (λ e. e.device_id ≢ d)
          (λ l e n s p. n (sym (keeps l e s) ∙ p))

    pub collect-Distinct :
        (ls : List Lease) → Distinct lease_device ls → Distinct device (collect f ls)
    collect-Distinct [] h = tt
    collect-Distinct (l ∷ ls) h = elim (Option-cases (f l)) [
      | inl n ↦ rw (n, append_event) (collect-Distinct ls h.1)
      | inr (e, s) ↦
          rw (s, append_event)
            (rw (keeps l e s) (collect-ne l.device_id ls h.0), collect-Distinct ls h.1)
    ]

    -- Of a device's lease, the list has its event.
    pub find_by-collect :
        (d : Bytes) (ls : List Lease)
        → Distinct lease_device ls
        → find_by device d (collect f ls) ≡ event_of f (find_by lease_device d ls)
    unfolding find_by
    find_by-collect d [] h = refl
    find_by-collect d (l ∷ ls) h =
        let rest = find_by-collect d ls h.1 in
        let gone : l.device_id ≡ d → find_by lease_device d ls ≡ none =
          λ same. rw (← same) (find_by-eq-none lease_device l.device_id ls h.0) in
        elim (Bool-cases (l.device_id == d)) [
          | inl t ↦
              let empty = gone ((bytes_beq_iff l.device_id d).0 t) in
              elim (Option-cases (f l)) [
                | inl n ↦ rw (n, t) (rest ∙ rw (empty, n))
                | inr (e, s) ↦
                    let here : (e.device_id == d) ≡ true = rw (keeps l e s) t in
                    rw (s, t, here) (sym s)
              ]
          | inr g ↦ elim (Option-cases (f l)) [
            | inl n ↦ rw (n, g) rest
            | inr (e, s) ↦
                let other : (e.device_id == d) ≡ false = rw (keeps l e s) g in rw (s, g, other) rest
          ]
        ]

pub transition-device :
    (t : Time) (o : Option Lease) (l : Lease) (e : Event)
    → transition t o l ≡ some e
    → e.device_id ≡ l.device_id
unfolding transition event_from_lease
transition-device t none l e h = ground arith
transition-device t (some old) l e h = ground arith

pub removal-device :
    (t : Time) (o : Option Lease) (l : Lease) (e : Event)
    → removal t o l ≡ some e
    → e.device_id ≡ l.device_id
unfolding event_from_lease
removal-device t none l e h = ground arith
removal-device t (some old) l e h = ground arith

pub removal-none :
    (t : Time) (o : Option Lease) (l : Lease) (e : Event) → removal t o l ≡ some e → o ≡ none
removal-none t none l e h = refl
removal-none t (some old) l e h = cc
