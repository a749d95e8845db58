-- ===== src/Tests/Parser.antt =====
-- Transcripts of the two tables, and the theorems on them.
use dhcp_lease_observer.Prelude.{
  ◌≡◌, ◌↔◌, refl, ok, true, false, List, [], ◌∷◌, pos, check_each, seen,
}
use dhcp_lease_observer.Text
use dhcp_lease_observer.Text.Space
use dhcp_lease_observer.Text.{Bytes, codes, bytes_beq}
use dhcp_lease_observer.Net.{v4, parse_addr4, addr_beq}
use dhcp_lease_observer.Model.{
  dynamic, bound, LeaseTable, ArpTable, lease_table_validate, record_validate, arp_table_validate,
  neighbor_validate, check_neighbors,
}
use dhcp_lease_observer.Model.Mac.{
  MacAddress, hex_value, hex_pair, parse_pairs, parse_mac_address, mac_beq, is_zero,
}
use dhcp_lease_observer.Parser.Numbers.{decimal, magnitude, parse_int}
use dhcp_lease_observer.Parser.Fields.{
  split_at, squeeze, row_fields, span_digits, is_address_field, is_mac_field, after_prefix,
  number_after,
}
use dhcp_lease_observer.Parser.Transcript.{
  Reader, limit_reader, drop_empty_end, drop_return, read_lines, read_transcript_lines,
}
use dhcp_lease_observer.Parser.Transcript.Bounds.{IsRead, read_transcript_lines-IsRead}
use dhcp_lease_observer.Parser.Lease.{
  lease_codes, lease_columns, match_row, classify_row, parse_lease_row, scan_rows, match_count,
  reported, lease_table, lease_lines,
}
use dhcp_lease_observer.Parser.Lease.Exact.{IsReport, lease_lines_iff}
use dhcp_lease_observer.Parser.Arp.{
  arp_columns, parse_arp_row, match_summary, parse_arp_counts, match_refresh, scan_neighbors,
  arp_table, counted_table, arp_lines,
}
use dhcp_lease_observer.Parser.Arp.Exact.{IsArpReport, arp_lines_iff}

abbrev address : MacAddress
address = record { b0 = 2; b1 = 0; b2 = 0; b3 = 0xab; b4 = 0xcd; b5 = 1 }

abbrev summary : Bytes
summary = codes "Leased to 1 clients"

abbrev rows : List Bytes
rows =
    codes "D 192.0.2.10  02:00:00:ab:CD:01  60  3600  Bound  lan"
    ∷ codes "D 192.0.2.11  02:00:00:00:00:02  N/A  N/A  Offered  lan"
    ∷ []

abbrev leases : LeaseTable
leases = record {
  reported_count = pos 1;
  records =
      (record {
        assignment = dynamic;
        ip = v4 0xc000020a;
        hardware_address = address;
        bound_time_seconds = pos 60;
        lease_time_seconds = pos 3600;
        state = bound;
        profile = codes "lan";
      })
      ∷ [];
}

lines_accepted : lease_lines (summary ∷ lease_codes ∷ lease_columns ∷ rows) ≡ ok leases
unfolding lease_lines match_count number_after span_digits after_prefix reported parse_int magnitude
    decimal lease_table scan_rows parse_lease_row match_row row_fields split_at squeeze
    is_address_field is_mac_field classify_row parse_addr4 parse_mac_address parse_pairs hex_pair
    hex_value bytes_beq lease_table_validate record_validate is_zero mac_beq addr_beq check_each
    seen Text.is_digit
lines_accepted = refl

lease_lines_iff_example :
    (lease_lines (summary ∷ lease_codes ∷ lease_columns ∷ rows) ≡ ok leases)
    ↔ IsReport summary lease_codes lease_columns rows leases
lease_lines_iff_example = lease_lines_iff summary lease_codes lease_columns rows leases

abbrev reader : Reader
reader = record { content = codes "first\r\n\n  second \nend"; fails = false }

lines_read : read_transcript_lines reader ≡ ok (codes "first" ∷ codes "second" ∷ codes "end" ∷ [])
unfolding read_transcript_lines limit_reader read_lines drop_empty_end drop_return Space.split_lines
    Space.trim_space Space.to_lower Text.contains Text.has_prefix
lines_read = refl

read_transcript_lines-IsRead_example :
    IsRead (limit_reader reader).fails 0 (codes "first" ∷ codes "second" ∷ codes "end" ∷ [])
read_transcript_lines-IsRead_example =
    read_transcript_lines-IsRead reader (codes "first" ∷ codes "second" ∷ codes "end" ∷ [])
      lines_read

abbrev arp_summary : Bytes
arp_summary = codes "ARP Neighbor Cache - 1 dynamic, 2047 free, 0 garbage, 0 static"

abbrev refresh : Bytes
refresh = codes "ARP neighbor cache auto refresh is enabled"

abbrev arp_rows : List Bytes
arp_rows = codes "192.0.2.10 02:00:00:ab:cd:01 600 0:01:00 GigaEthernet1.0" ∷ []

abbrev neighbors : ArpTable
neighbors = record {
  reported_dynamic = pos 1;
  free = pos 2047;
  garbage = pos 0;
  static = pos 0;
  auto_refresh = true;
  neighbors =
      (record {
        ip = v4 0xc000020a;
        hardware_address = address;
        ttl = codes "600";
        uptime = codes "0:01:00";
        interface = codes "GigaEthernet1.0";
      })
      ∷ [];
}

neighbors_accepted : arp_lines (arp_summary ∷ refresh ∷ arp_columns ∷ arp_rows) ≡ ok neighbors
unfolding arp_lines match_summary number_after span_digits after_prefix parse_arp_counts parse_int
    magnitude decimal counted_table arp_table match_refresh scan_neighbors parse_arp_row row_fields
    split_at squeeze is_address_field is_mac_field parse_addr4 parse_mac_address parse_pairs
    hex_pair hex_value bytes_beq arp_table_validate neighbor_validate check_neighbors is_zero
    mac_beq addr_beq seen Text.is_digit
neighbors_accepted = refl

arp_lines_iff_example :
    (arp_lines (arp_summary ∷ refresh ∷ arp_columns ∷ arp_rows) ≡ ok neighbors)
    ↔ IsArpReport arp_summary refresh arp_columns arp_rows neighbors
arp_lines_iff_example = arp_lines_iff arp_summary refresh arp_columns arp_rows neighbors
