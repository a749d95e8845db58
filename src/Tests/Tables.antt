-- ===== src/Tests/Tables.antt =====
-- Validation and normalisation of a router's table.
use dhcp_lease_observer.Prelude.{
  some-injective, none, ap, sym, ◌≡◌, refl, ◌↔◌, ok, err, Result, ap, ne_of_eq_false, some,
  Distinct, arith, [], ◌∷◌, check_each, seen, All, ◌<◌,
}
use dhcp_lease_observer.Net.{addr_beq}
use dhcp_lease_observer.Text.{Bytes, bytes_beq, bytes_eq}
use dhcp_lease_observer.Model.Mac.Json.{
  JsonStrings, marshal_mac, unmarshal_mac, unmarshal_mac-marshal_mac,
}
use dhcp_lease_observer.Model.Mac.{mac_beq, is_zero, mac_string, hex_digit, MacAddress}
use dhcp_lease_observer.Model.{
  lease_table_validate, snapshot_validate, record_validate, arp_table_validate, neighbor_validate,
  check_neighbors,
}
use dhcp_lease_observer.Model.Valid.{IsSnapshot, snapshot_validate_iff}
use dhcp_lease_observer.Identity.Valid.{device_id-IsOpaqueId}
use dhcp_lease_observer.Identity.{IdentityError, device_id, initialized, sum}
use dhcp_lease_observer.Base64.{encode_url, url_digit}
use dhcp_lease_observer.State.OpaqueId.{IsOpaqueId}
use dhcp_lease_observer.State.{Snapshot}
use dhcp_lease_observer.State.Normalize.{normalize}
use dhcp_lease_observer.State.Normalize.Total.{normalize_total, IsNormalized}
use dhcp_lease_observer.Tests.Samples.{source, row, mac, checksum, checksum-IsHmac, generator, noon}

source_valid : snapshot_validate source ≡ ok tt
unfolding snapshot_validate lease_table_validate record_validate arp_table_validate
    neighbor_validate check_neighbors is_zero mac_beq addr_beq check_each seen
source_valid = refl

source-IsSnapshot : IsSnapshot source
source-IsSnapshot = (snapshot_validate_iff source).0 source_valid

snapshot_validate_iff_example : (snapshot_validate source ≡ ok tt) ↔ IsSnapshot source
snapshot_validate_iff_example = snapshot_validate_iff source

-- Strings that are written behind a quotation mark.
abbrev json : JsonStrings
json = record {
  marshal = λ value. some (b'"' ∷ value);
  unmarshal = λ text. elim text [ [] ↦ none | c ∷ value ↦ some value ];
}

read_back :
    (value text : Bytes)
    → All (λ c. c < 128) value
    → json.marshal value ≡ some text
    → json.unmarshal text ≡ some value
read_back value text a h = ap json.unmarshal (sym (some-injective (b'"' ∷ value) text h))

unmarshal_mac-marshal_mac_example :
    unmarshal_mac json (b'"' ∷ mac_string (mac 17)) (mac 1) ≡ (none, mac 17)
unfolding marshal_mac
unmarshal_mac-marshal_mac_example =
    unmarshal_mac-marshal_mac json read_back (mac 17) (mac 1) (b'"' ∷ mac_string (mac 17))
      (omega arith) refl

device_id-IsOpaqueId_example :
    (value : Bytes) × (device_id checksum (some generator) (mac 1) ≡ ok value)
    × IsOpaqueId b'd' value
unfolding is_zero mac_beq
device_id-IsOpaqueId_example =
    device_id-IsOpaqueId checksum checksum-IsHmac generator (mac 1) (omega arith) refl

device : MacAddress → Result IdentityError Bytes
unfolding device_id initialized sum mac_string hex_digit encode_url url_digit is_zero mac_beq
    bytes_beq
device = device_id checksum (some generator)

text : Result IdentityError Bytes → Bytes
text (ok value) = value
text (err _) = []

devices_differ :
    Distinct
      (λ r. device_id checksum (some generator) r.hardware_address)
      (row 1 60 ∷ row 2 3600 ∷ [])
unfolding device text
devices_differ = (
  (λ e. ne_of_eq_false (text (device (mac 2))) (text (device (mac 1))) refl (ap text e), tt),
  (tt, tt),
)

normalize_total_example :
    (s : Snapshot) × (normalize checksum (some generator) source noon ≡ ok s)
    × IsNormalized checksum generator source noon s
normalize_total_example =
    normalize_total checksum checksum-IsHmac generator (omega arith) source noon source-IsSnapshot
      (omega arith) devices_differ (omega arith)
