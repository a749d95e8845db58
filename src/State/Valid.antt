-- ===== src/State/Valid.antt =====
-- What a valid last-good state is, said without the code, and that `Validate` accepts just these.
use dhcp_lease_observer.Prelude.{
  ℕ, suc, ◌≡◌, refl, ◌≢◌, ◌↔◌, ◌⊎◌, inl, inr, Bool, true, false, not, ◌||◌, List, [], ◌∷◌, arith,
  All, ok, then-eq-ok, reject-eq-ok, wrap-eq-ok, check_each-Passes, Passes-check_each, Checked,
  Avoids-nil, Distinct, ℤ, pos, ◌≤ℤ◌, ◌<ℤ◌, eqb_ℤ,
}
use dhcp_lease_observer.Text.{Bytes, is_empty, is_failure_class, bytes_eq}
use dhcp_lease_observer.Net.{addr_eq}
use dhcp_lease_observer.Clock.{Time, is_zero_time, after}
use dhcp_lease_observer.Model.{dynamic, fixed, bound, not_ipv4, is_assignment}
use dhcp_lease_observer.Model
use dhcp_lease_observer.Model.Valid.{IsIpv4, not_ipv4_iff}
use dhcp_lease_observer.State.OpaqueId.{valid_opaque_id, IsOpaqueId, valid_opaque_id_iff}
use dhcp_lease_observer.State.{
  Lease, Snapshot, lease_validate, check_lease, arp_validate, validate, schema_version, bad_lease,
  duplicate_device, duplicate_ip, is_utc,
}

-- A time that is set, and in UTC.
pub record IsUtc (t : Time) : Type 0 where
  pub set : t.instant ≢ pos 0
  pub utc : t.offset ≡ pos 0

-- A lease as it stood at the time of an observation.
pub record IsLease (observed_at : Time) (l : Lease) : Type 0 where
  pub identified : IsOpaqueId b'd' l.device_id
  pub ipv4 : IsIpv4 l.ip
  pub assigned : (l.assignment ≡ dynamic) ⊎ (l.assignment ≡ fixed)
  pub is_bound : l.state ≡ bound
  pub bound_time : IsUtc l.bound_at
  pub expiry_time : IsUtc l.expires_at
  pub was_bound : l.bound_at.instant ≤ℤ observed_at.instant
  pub not_expired : observed_at.instant ≤ℤ l.expires_at.instant
  pub lasts : l.bound_at.instant <ℤ l.expires_at.instant

eqb_ℤ_iff : (a b : ℤ) → (eqb_ℤ a b ≡ true) ↔ (a ≡ b)
eqb_ℤ_iff a b = (λ h. ground arith, λ h. ground arith)

pub is_utc_iff : (t : Time) → ((is_zero_time t || not (is_utc t)) ≡ false) ↔ IsUtc t
is_utc_iff t = (
  λ h. record {
    set = λ e. ground (arith, eqb_ℤ_iff t.instant (pos 0));
    utc = ground (arith, eqb_ℤ_iff t.offset (pos 0));
  },
  λ v. ground (arith, eqb_ℤ_iff t.instant (pos 0), eqb_ℤ_iff t.offset (pos 0), v.set, v.utc),
)

pub lease_validate-IsLease : (t : Time) (l : Lease) → lease_validate t l ≡ ok tt → IsLease t l
unfolding lease_validate
lease_validate-IsLease t l h =
    let (d, h₁) = reject-eq-ok (not (valid_opaque_id l.device_id b'd')) _ _ h in
    let (i, h₂) = reject-eq-ok (not_ipv4 l.ip) _ _ h₁ in
    let (a, h₃) = reject-eq-ok (not (is_assignment l.assignment)) _ _ h₂ in
    let (s, h₄) = reject-eq-ok (not (Model.is_bound l.state)) _ _ h₃ in
    let (u, h₅) =
      reject-eq-ok
        (is_zero_time l.bound_at
          || is_zero_time l.expires_at
          || not (is_utc l.bound_at)
          || not (is_utc l.expires_at))
        _ _ h₄ in
    let (b, h₆) = reject-eq-ok (after l.bound_at t) _ _ h₅ in
    record {
      identified = (valid_opaque_id_iff l.device_id b'd' (inl refl)).0 (ground arith);
      ipv4 = (not_ipv4_iff l.ip).0 i;
      assigned = ground arith;
      is_bound = ground arith;
      bound_time = (is_utc_iff l.bound_at).0 (ground arith);
      expiry_time = (is_utc_iff l.expires_at).0 (ground arith);
      was_bound = ground arith;
      not_expired = ground arith;
      lasts = ground arith;
    }

pub IsLease-lease_validate : (t : Time) (l : Lease) → IsLease t l → lease_validate t l ≡ ok tt
unfolding lease_validate
IsLease-lease_validate t l v =
    let d : valid_opaque_id l.device_id b'd' ≡ true =
      (valid_opaque_id_iff l.device_id b'd' (inl refl)).1 v.identified in
    let i : not_ipv4 l.ip ≡ false = (not_ipv4_iff l.ip).1 v.ipv4 in
    let b = (is_utc_iff l.bound_at).1 v.bound_time in
    let e = (is_utc_iff l.expires_at).1 v.expiry_time in
    let w : l.bound_at.instant ≤ℤ t.instant = v.was_bound in
    ground (arith, d, i, b, e, v.was_bound, v.not_expired, v.lasts, v.is_bound, v.assigned)

-- A valid last-good state. The ARP table was read, or the class of the failure is named.
pub record IsState (s : Snapshot) : Type 0 where
  pub versioned : s.version ≡ schema_version
  pub observed : IsUtc s.observed_at
  pub keyed : IsOpaqueId b'k' s.identity_key_id
  pub arp :
      ((s.arp_available ≡ true) × (s.arp_failure_class ≡ []))
      ⊎ ((s.arp_available ≡ false) × (is_failure_class s.arp_failure_class ≡ true))
  pub valid : All (IsLease s.observed_at) s.leases
  pub devices : Distinct (λ l. l.device_id) s.leases
  pub ips : Distinct (λ l. l.ip) s.leases

Checked-IsLease :
    (t : Time) (i : ℕ) (ls : List Lease) → Checked (check_lease t) i ls → All (IsLease t) ls
Checked-IsLease t i [] c = tt
Checked-IsLease t i (l ∷ ls) c = (
  lease_validate-IsLease t l (wrap-eq-ok (bad_lease i) (lease_validate t l) c.0),
  Checked-IsLease t (suc i) ls c.1,
)

IsLease-Checked :
    (t : Time) (i : ℕ) (ls : List Lease) → All (IsLease t) ls → Checked (check_lease t) i ls
IsLease-Checked t i [] v = tt
IsLease-Checked t i (l ∷ ls) v =
    (rw (IsLease-lease_validate t l v.0), IsLease-Checked t (suc i) ls v.1)

is_empty_iff : (s : Bytes) → (is_empty s ≡ true) ↔ (s ≡ [])
is_empty_iff [] = (λ _. refl, λ _. refl)
is_empty_iff (c ∷ s) = (λ h. cc, λ h. cc)

arp_validate_iff :
    (available : Bool) (class : Bytes)
    → (arp_validate available class ≡ ok tt) ↔ (
        ((available ≡ true) × (class ≡ []))
        ⊎ ((available ≡ false) × (is_failure_class class ≡ true)))
unfolding arp_validate
arp_validate_iff true class = (
  λ h. inl (refl, ground (arith, is_empty_iff class)),
  λ v. ground (arith, is_empty_iff class, v),
)
arp_validate_iff false class = (λ h. inr (refl, ground arith), λ v. ground (arith, v))

-- `Snapshot.Validate` accepts exactly the valid states: version 1, a set UTC observation time, a
-- key ID, a class exactly for a failed ARP read, valid leases, and no device or address twice.
pub validate_iff : (s : Snapshot) → (validate s ≡ ok tt) ↔ IsState s
unfolding validate
validate_iff s = (to, from)
  where
    to : validate s ≡ ok tt → IsState s
    to h =
        let (v, h₁) = reject-eq-ok (not (eqb_ℤ s.version schema_version)) _ _ h in
        let (u, h₂) =
          reject-eq-ok (is_zero_time s.observed_at || not (is_utc s.observed_at)) _ _ h₁ in
        let (k, h₃) = reject-eq-ok (not (valid_opaque_id s.identity_key_id b'k')) _ _ h₂ in
        let (a, h₄) = then-eq-ok (arp_validate s.arp_available s.arp_failure_class) _ h₃ in
        let p =
          check_each-Passes (check_lease s.observed_at) (λ l. l.device_id) duplicate_device
            (λ l. l.ip) duplicate_ip 0 [] [] s.leases h₄ in
        record {
          versioned = (eqb_ℤ_iff s.version schema_version).0 (ground arith);
          observed = (is_utc_iff s.observed_at).0 u;
          keyed = (valid_opaque_id_iff s.identity_key_id b'k' (inr refl)).0 (ground arith);
          arp = (arp_validate_iff s.arp_available s.arp_failure_class).0 a;
          valid = Checked-IsLease s.observed_at 0 s.leases p.checked;
          devices = p.distinct₁;
          ips = p.distinct₂;
        }

    from : IsState s → validate s ≡ ok tt
    from v =
        rw
          (
            v.versioned,
            (is_utc_iff s.observed_at).1 v.observed,
            (valid_opaque_id_iff s.identity_key_id b'k' (inr refl)).1 v.keyed,
            (arp_validate_iff s.arp_available s.arp_failure_class).1 v.arp,
          )
          (Passes-check_each (check_lease s.observed_at) (λ l. l.device_id) duplicate_device
            (λ l. l.ip) duplicate_ip 0 [] [] s.leases
            (record {
              checked = IsLease-Checked s.observed_at 0 s.leases v.valid;
              avoids₁ = Avoids-nil (λ l. l.device_id) s.leases;
              distinct₁ = v.devices;
              avoids₂ = Avoids-nil (λ l. l.ip) s.leases;
              distinct₂ = v.ips;
            }))
