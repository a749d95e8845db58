-- ===== src/Model/Valid.antt =====
-- What a valid snapshot is, said without the code, and that `Validate` accepts just these.
use dhcp_lease_observer.Prelude.{
  ℕ, suc, ◌≡◌, refl, ◌≢◌, ◌↔◌, ◌⊎◌, true, false, not, ◌||◌, List, [], ◌∷◌, arith, All, length, ok,
  wrap_err, then-eq-ok, reject-eq-ok, wrap-eq-ok, check_each-Passes, Passes-check_each, Checked,
  Avoids, Avoids-nil, Avoids-cons, Avoids-uncons, Distinct, seen, ℤ, pos, ◌≤ℤ◌, ◌<ℤ◌, ltb_ℤ, eqb_ℤ,
}
use dhcp_lease_observer.Net.{Addr, v4, v6, zero_addr, addr_eq}
use dhcp_lease_observer.Text.{Bytes, is_empty}
use dhcp_lease_observer.Model.Mac.{MacAddress, mac_eq, is_zero, mac_beq_iff}
use dhcp_lease_observer.Model.{
  dynamic, fixed, bound, LeaseRecord, LeaseTable, ArpNeighbor, ArpTable, LeaseSnapshot,
  record_validate, check_record, lease_table_validate, neighbor_validate, check_neighbors,
  arp_table_validate, snapshot_validate, bad_record, duplicate_ip, duplicate_mac, not_ipv4,
  bad_neighbor, bad_leases, bad_arp, schema_version,
}

abbrev pub zero_mac : MacAddress
zero_mac = record { b0 = 0; b1 = 0; b2 = 0; b3 = 0; b4 = 0; b5 = 0 }

abbrev pub IsIpv4 : Addr → Type 0
IsIpv4 ip = (a : ℕ) × (ip ≡ v4 a)

pub record IsLease (r : LeaseRecord) : Type 0 where
  pub assigned : (r.assignment ≡ dynamic) ⊎ (r.assignment ≡ fixed)
  pub ipv4 : IsIpv4 r.ip
  pub mac_set : r.hardware_address ≢ zero_mac
  pub bound_nonneg : pos 0 ≤ℤ r.bound_time_seconds
  pub lease_positive : pos 0 <ℤ r.lease_time_seconds
  pub is_bound : r.state ≡ bound

pub is_zero_iff : (a : MacAddress) → (is_zero a ≡ true) ↔ (a ≡ zero_mac)
unfolding is_zero
is_zero_iff a = mac_beq_iff a zero_mac

pub not_ipv4_iff : (ip : Addr) → (not_ipv4 ip ≡ false) ↔ IsIpv4 ip
not_ipv4_iff zero_addr = (λ h. cc, λ (a, e). cc)
not_ipv4_iff (v4 a) = (λ h. (a, refl), λ _. refl)
not_ipv4_iff (v6 a z) = (λ h. cc, λ (b, e). cc)

pub record_validate-IsLease : (r : LeaseRecord) → record_validate r ≡ ok tt → IsLease r
unfolding record_validate
record_validate-IsLease r h = record {
  assigned = ground arith;
  ipv4 = (not_ipv4_iff r.ip).0 (ground arith);
  mac_set = ground (arith, is_zero_iff r.hardware_address);
  bound_nonneg = ground arith;
  lease_positive = ground arith;
  is_bound = ground arith;
}

pub IsLease-record_validate : (r : LeaseRecord) → IsLease r → record_validate r ≡ ok tt
unfolding record_validate
IsLease-record_validate r v =
    let ip : not_ipv4 r.ip ≡ false = (not_ipv4_iff r.ip).1 v.ipv4 in
    ground (arith, is_zero_iff r.hardware_address, ip)

-- A table that reports its own count, of valid records with distinct addresses of both kinds.
pub record IsTable (t : LeaseTable) : Type 0 where
  pub counted : t.reported_count ≡ pos (length t.records)
  pub valid : All IsLease t.records
  pub ips : Distinct (λ r. r.ip) t.records
  pub macs : Distinct (λ r. r.hardware_address) t.records

Checked-IsLease : (i : ℕ) (rs : List LeaseRecord) → Checked check_record i rs → All IsLease rs
Checked-IsLease i [] c = tt
Checked-IsLease i (r ∷ rs) c = (
  record_validate-IsLease r (wrap-eq-ok (bad_record i) (record_validate r) c.0),
  Checked-IsLease (suc i) rs c.1,
)

IsLease-Checked : (i : ℕ) (rs : List LeaseRecord) → All IsLease rs → Checked check_record i rs
IsLease-Checked i [] v = tt
IsLease-Checked i (r ∷ rs) v = (rw (IsLease-record_validate r v.0), IsLease-Checked (suc i) rs v.1)

count_test : (c : ℤ) (n : ℕ) → ((ltb_ℤ c (pos 0) || not (eqb_ℤ c (pos n))) ≡ false) ↔ (c ≡ pos n)
count_test c n = (λ h. ground arith, λ h. ground arith)

pub lease_table_validate_iff : (t : LeaseTable) → (lease_table_validate t ≡ ok tt) ↔ IsTable t
unfolding lease_table_validate
lease_table_validate_iff t = (to, from)
  where
    to : lease_table_validate t ≡ ok tt → IsTable t
    to h =
        let (c, h') = reject-eq-ok _ _ _ h in
        let p =
          check_each-Passes check_record (λ r. r.ip) duplicate_ip (λ r. r.hardware_address)
            duplicate_mac 0 [] [] t.records h' in
        record {
          counted = (count_test t.reported_count (length t.records)).0 c;
          valid = Checked-IsLease 0 t.records p.checked;
          ips = p.distinct₁;
          macs = p.distinct₂;
        }

    from : IsTable t → lease_table_validate t ≡ ok tt
    from v = rw ((count_test t.reported_count (length t.records)).1 v.counted) (
        Passes-check_each check_record (λ r. r.ip) duplicate_ip (λ r. r.hardware_address)
          duplicate_mac 0 [] [] t.records
          (record {
            checked = IsLease-Checked 0 t.records v.valid;
            avoids₁ = Avoids-nil (λ r. r.ip) t.records;
            distinct₁ = v.ips;
            avoids₂ = Avoids-nil (λ r. r.hardware_address) t.records;
            distinct₂ = v.macs;
          }))

pub record IsNeighbor (n : ArpNeighbor) : Type 0 where
  pub ipv4 : IsIpv4 n.ip
  pub mac_set : n.hardware_address ≢ zero_mac
  pub interface_named : n.interface ≢ []

pub record IsArpTable (t : ArpTable) : Type 0 where
  pub counted : t.reported_dynamic ≡ pos (length t.neighbors)
  pub free_nonneg : pos 0 ≤ℤ t.free
  pub garbage_nonneg : pos 0 ≤ℤ t.garbage
  pub static_nonneg : pos 0 ≤ℤ t.static
  pub valid : All IsNeighbor t.neighbors
  pub ips : Distinct (λ n. n.ip) t.neighbors

is_empty_iff : (s : Bytes) → (is_empty s ≡ true) ↔ (s ≡ [])
is_empty_iff [] = (λ _. refl, λ _. refl)
is_empty_iff (c ∷ s) = (λ h. cc, λ h. cc)

neighbor_validate_iff : (n : ArpNeighbor) → (neighbor_validate n ≡ ok tt) ↔ IsNeighbor n
unfolding neighbor_validate
neighbor_validate_iff n = (
  λ h. record {
    ipv4 = (not_ipv4_iff n.ip).0 (ground arith);
    mac_set = ground (arith, is_zero_iff n.hardware_address);
    interface_named = ground (arith, is_empty_iff n.interface);
  },
  λ v.
      let ip : not_ipv4 n.ip ≡ false = (not_ipv4_iff n.ip).1 v.ipv4 in
      ground (
        arith,
        is_zero_iff n.hardware_address,
        is_empty_iff n.interface,
        ip,
        v.mac_set,
        v.interface_named,
      ),
)

check_neighbors_ok :
    (i : ℕ) (ips : List Addr) (ns : List ArpNeighbor)
    → check_neighbors i ips ns ≡ ok tt
    → All IsNeighbor ns × Avoids (λ n. n.ip) ips ns × Distinct (λ n. n.ip) ns
unfolding check_neighbors
check_neighbors_ok i ips [] h = (tt, tt, tt)
check_neighbors_ok i ips (n ∷ ns) h =
    let (c, h₁) = then-eq-ok (wrap_err (bad_neighbor i) (neighbor_validate n)) _ h in
    let (f, h₂) = reject-eq-ok (seen n.ip ips) _ _ h₁ in
    let (v, a, d) = check_neighbors_ok (suc i) (n.ip ∷ ips) ns h₂ in
    let (d', a') = Avoids-uncons (λ m. m.ip) n.ip ips ns a in
    (
      ((neighbor_validate_iff n).0 (wrap-eq-ok (bad_neighbor i) (neighbor_validate n) c), v),
      (f, a'),
      (d', d),
    )

ok_check_neighbors :
    (i : ℕ) (ips : List Addr) (ns : List ArpNeighbor)
    → All IsNeighbor ns
    → Avoids (λ n. n.ip) ips ns
    → Distinct (λ n. n.ip) ns
    → check_neighbors i ips ns ≡ ok tt
unfolding check_neighbors
ok_check_neighbors i ips [] v a d = refl
ok_check_neighbors i ips (n ∷ ns) v a d =
    rw ((neighbor_validate_iff n).1 v.0, a.0)
      (ok_check_neighbors (suc i) (n.ip ∷ ips) ns v.1 (Avoids-cons (λ m. m.ip) n.ip ips ns d.0 a.1)
        d.1)

nonneg :
    (t : ArpTable)
    → IsArpTable t
    → (ltb_ℤ t.free (pos 0) || ltb_ℤ t.garbage (pos 0) || ltb_ℤ t.static (pos 0)) ≡ false
nonneg t v = ground arith

pub arp_table_validate_iff : (t : ArpTable) → (arp_table_validate t ≡ ok tt) ↔ IsArpTable t
unfolding arp_table_validate
arp_table_validate_iff t = (to, from)
  where
    to : arp_table_validate t ≡ ok tt → IsArpTable t
    to h =
        let (c, h₁) = reject-eq-ok _ _ _ h in
        let (s, h₂) = reject-eq-ok _ _ _ h₁ in
        let (v, a, d) = check_neighbors_ok 0 [] t.neighbors h₂ in
        record {
          counted = (count_test t.reported_dynamic (length t.neighbors)).0 c;
          free_nonneg = ground arith;
          garbage_nonneg = ground arith;
          static_nonneg = ground arith;
          valid = v;
          ips = d;
        }

    from : IsArpTable t → arp_table_validate t ≡ ok tt
    from v = rw ((count_test t.reported_dynamic (length t.neighbors)).1 v.counted) (
        rw (nonneg t v)
          (ok_check_neighbors 0 [] t.neighbors v.valid (Avoids-nil (λ n. n.ip) t.neighbors) v.ips))

pub record IsSnapshot (s : LeaseSnapshot) : Type 0 where
  pub versioned : s.version ≡ schema_version
  pub leases : IsTable s.leases
  pub arp : IsArpTable s.arp

-- `LeaseSnapshot.Validate` accepts exactly the valid snapshots: version 1, a lease table and an ARP
-- table that each report their own number of rows, every row valid, and no address twice.
pub snapshot_validate_iff : (s : LeaseSnapshot) → (snapshot_validate s ≡ ok tt) ↔ IsSnapshot s
unfolding snapshot_validate
snapshot_validate_iff s = (
  λ h.
      let (c, h₁) = reject-eq-ok (not (eqb_ℤ s.version schema_version)) _ _ h in
      let (l, h₂) = then-eq-ok (wrap_err bad_leases (lease_table_validate s.leases)) _ h₁ in
      record {
        versioned = ground arith;
        leases = (lease_table_validate_iff s.leases).0 (wrap-eq-ok bad_leases _ l);
        arp = (arp_table_validate_iff s.arp).0 (wrap-eq-ok bad_arp _ h₂);
      },
  λ v.
      rw (v.versioned, (lease_table_validate_iff s.leases).1 v.leases)
        (rw ((arp_table_validate_iff s.arp).1 v.arp)),
)
