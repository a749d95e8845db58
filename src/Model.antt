-- ===== src/Model.antt =====
-- internal/model/snapshot.go: the source-neutral lease snapshot and its validation.
pub mod Mac
pub mod Valid
use dhcp_lease_observer.Prelude.{
  ℕ, Bool, true, false, not, ◌||◌, List, [], ◌∷◌, length, Validation, ok, ◌>>=◌, ◌>>◌, reject_if,
  wrap_err, check_each, ℤ, pos, leb_ℤ, ltb_ℤ, eqb_ℤ, seen, suc,
}
use dhcp_lease_observer.Text.{Bytes, is_empty}
use dhcp_lease_observer.Net.{Addr, addr_eq, is_valid, is4}
use Mac.{MacAddress, mac_eq, is_zero}

abbrev pub schema_version : ℤ
schema_version = pos 1

-- `other` stands for a string that is none of the constants.
pub data Assignment : Type 0 where
  dynamic fixed : Assignment
  other : Bytes → Assignment

pub data LeaseState : Type 0 where
  bound : LeaseState
  other : Bytes → LeaseState

abbrev pub is_assignment : Assignment → Bool
is_assignment dynamic = true
is_assignment fixed = true
is_assignment (Assignment.other _) = false

abbrev pub is_bound : LeaseState → Bool
is_bound bound = true
is_bound (LeaseState.other _) = false

pub record LeaseRecord : Type 0 where
  pub assignment : Assignment
  pub ip : Addr
  pub hardware_address : MacAddress
  pub bound_time_seconds : ℤ
  pub lease_time_seconds : ℤ
  pub state : LeaseState
  pub profile : Bytes

pub record LeaseTable : Type 0 where
  pub reported_count : ℤ
  pub records : List LeaseRecord

pub record ArpNeighbor : Type 0 where
  pub ip : Addr
  pub hardware_address : MacAddress
  pub ttl : Bytes
  pub uptime : Bytes
  pub interface : Bytes

pub record ArpTable : Type 0 where
  pub reported_dynamic : ℤ
  pub free : ℤ
  pub garbage : ℤ
  pub static : ℤ
  pub auto_refresh : Bool
  pub neighbors : List ArpNeighbor

pub record LeaseSnapshot : Type 0 where
  pub version : ℤ
  pub leases : LeaseTable
  pub arp : ArpTable

pub data RecordError : Type 0 where
  unsupported_assignment record_ip_not_ipv4 record_mac_empty bound_time_negative : RecordError
  lease_time_not_positive unsupported_state : RecordError

pub data TableError : Type 0 where
  count_mismatch : TableError
  bad_record : ℕ → RecordError → TableError
  duplicate_ip duplicate_mac : ℕ → TableError

pub data NeighborError : Type 0 where
  neighbor_ip_not_ipv4 neighbor_mac_empty interface_empty : NeighborError

pub data ArpError : Type 0 where
  dynamic_count_mismatch summary_count_negative : ArpError
  bad_neighbor : ℕ → NeighborError → ArpError
  duplicate_neighbor_ip : ℕ → ArpError

pub data SnapshotError : Type 0 where
  unsupported_schema : ℤ → SnapshotError
  bad_leases : TableError → SnapshotError
  bad_arp : ArpError → SnapshotError

abbrev pub not_ipv4 : Addr → Bool
not_ipv4 ip = not (is_valid ip) || not (is4 ip)

unfoldable pub record_validate : LeaseRecord → Validation RecordError
record_validate r = do
  reject_if (not (is_assignment r.assignment)) unsupported_assignment
  reject_if (not_ipv4 r.ip) record_ip_not_ipv4
  reject_if (is_zero r.hardware_address) record_mac_empty
  reject_if (ltb_ℤ r.bound_time_seconds (pos 0)) bound_time_negative
  reject_if (leb_ℤ r.lease_time_seconds (pos 0)) lease_time_not_positive
  reject_if (not (is_bound r.state)) unsupported_state

abbrev pub check_record : ℕ → LeaseRecord → Validation TableError
check_record index r = wrap_err (bad_record index) (record_validate r)

unfoldable pub lease_table_validate : LeaseTable → Validation TableError
lease_table_validate table = do
  reject_if
      (ltb_ℤ table.reported_count (pos 0)
        || not (eqb_ℤ table.reported_count (pos (length table.records))))
      count_mismatch
  check_each check_record (λ r. r.ip) duplicate_ip (λ r. r.hardware_address) duplicate_mac 0 [] []
      table.records

unfoldable pub neighbor_validate : ArpNeighbor → Validation NeighborError
neighbor_validate n = do
  reject_if (not_ipv4 n.ip) neighbor_ip_not_ipv4
  reject_if (is_zero n.hardware_address) neighbor_mac_empty
  reject_if (is_empty n.interface) interface_empty

unfoldable pub check_neighbors : ℕ → List Addr → List ArpNeighbor → Validation ArpError
check_neighbors index ips [] = ok tt
check_neighbors index ips (n ∷ ns) = do
  wrap_err (bad_neighbor index) (neighbor_validate n)
  reject_if (seen n.ip ips) (duplicate_neighbor_ip index)
  check_neighbors (suc index) (n.ip ∷ ips) ns

unfoldable pub arp_table_validate : ArpTable → Validation ArpError
arp_table_validate table = do
  reject_if
      (ltb_ℤ table.reported_dynamic (pos 0)
        || not (eqb_ℤ table.reported_dynamic (pos (length table.neighbors))))
      dynamic_count_mismatch
  reject_if (ltb_ℤ table.free (pos 0) || ltb_ℤ table.garbage (pos 0) || ltb_ℤ table.static (pos 0))
      summary_count_negative
  check_neighbors 0 [] table.neighbors

unfoldable pub snapshot_validate : LeaseSnapshot → Validation SnapshotError
snapshot_validate snapshot = do
  reject_if (not (eqb_ℤ snapshot.version schema_version)) (unsupported_schema snapshot.version)
  wrap_err bad_leases (lease_table_validate snapshot.leases)
  wrap_err bad_arp (arp_table_validate snapshot.arp)
