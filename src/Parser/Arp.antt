-- ===== src/Parser/Arp.antt =====
-- `ParseARP` of internal/parser/ix2106/arp.go.
pub mod Exact
use dhcp_lease_observer.Prelude.{
  ℕ, suc, ◌+◌, Bool, true, false, not, ◌&&◌, ◌||◌, Option, none, some, List, [], ◌∷◌, ◌++◌, leb,
  length, Result, ok, err, ◌>>=◌, ◌>>◌, reject_if, wrap_err, if◌then◌else◌, ◌==◌, ℤ, pos, ltb_ℤ,
}
use dhcp_lease_observer.Text.{Bytes, codes, is_empty, bytes_eq}
use dhcp_lease_observer.Net.{is4, parse_addr4}
use dhcp_lease_observer.Model.{ArpNeighbor, ArpTable, arp_table_validate}
use dhcp_lease_observer.Model.Mac.{parse_mac_address}
use dhcp_lease_observer.Parser.Numbers.{parse_int}
use dhcp_lease_observer.Parser.Fields.{row_fields, is_address_field, is_mac_field, number_after}
use dhcp_lease_observer.Parser.Transcript.{
  Reader, ParserError, missing_headers, unsupported_summary, count_out_of_range, unsupported_header,
  record_limit, validation_failed, row_unsupported, read_transcript_lines,
}
use dhcp_lease_observer.Parser.Lease.{drop_prompt}

abbrev pub max_arp_records : ℕ
max_arp_records = 2048

abbrev pub arp_columns : Bytes
arp_columns = codes "Protocol Address  Hardware Address   TTL       Uptime       Interface"

-- `parseARPRow`; none stands for its one error.
unfoldable pub parse_arp_row : Bytes → Option ArpNeighbor
parse_arp_row line = elim (row_fields line) [
  | ip ∷ mac ∷ ttl ∷ uptime ∷ interface ∷ [] ↦
      if not (is_address_field ip && is_mac_field mac) || is_empty interface
      then none
      else elim (parse_addr4 ip) [
        | none ↦ none
        | some addr ↦ if not (is4 addr) then none else elim (parse_mac_address mac) [
          | none ↦ none
          | some hardware_address ↦ some (record {
            ip = addr;
            hardware_address = hardware_address;
            ttl = ttl;
            uptime = uptime;
            interface = interface;
          })
        ]
      ]
  | _ ↦ none
]

-- The four numbers of `arpSummaryPattern`.
unfoldable pub match_summary : Bytes → Option (List Bytes)
match_summary line = elim (number_after (codes "ARP Neighbor Cache - ") line) [
  | none ↦ none
  | some (dynamic, rest) ↦ elim (number_after (codes " dynamic, ") rest) [
    | none ↦ none
    | some (free, rest') ↦ elim (number_after (codes " free, ") rest') [
      | none ↦ none
      | some (garbage, rest'') ↦ elim (number_after (codes " garbage, ") rest'') [
        | none ↦ none
        | some (static, end) ↦
            if end == codes " static" then some (dynamic ∷ free ∷ garbage ∷ static ∷ []) else none
      ]
    ]
  ]
]

-- `parseARPCounts`
unfoldable pub parse_arp_counts : List Bytes → Option (List ℤ)
parse_arp_counts [] = some []
parse_arp_counts (value ∷ values) = elim (parse_int value) [
  | none ↦ none
  | some count ↦ elim (parse_arp_counts values) [
    | none ↦ none
    | some counts ↦ some (count ∷ counts)
  ]
]

-- `arpRefreshPattern`, and whether the refresh is enabled.
unfoldable pub match_refresh : Bytes → Option Bool
match_refresh line =
    if line == codes "ARP neighbor cache auto refresh is enabled"
    then some true
    else if line == codes "ARP neighbor cache auto refresh is disabled"
    then some false
    else none

-- The loop of `ParseARP`: from the index of a row and the neighbors so far.
unfoldable pub scan_neighbors :
    ℕ → List ArpNeighbor → List Bytes → Result ParserError (List ArpNeighbor)
scan_neighbors index neighbors [] = ok neighbors
scan_neighbors index neighbors (line ∷ lines) =
    reject_if (leb max_arp_records (length neighbors)) record_limit
    >> elim (parse_arp_row line) as (λ _. Result ParserError (List ArpNeighbor)) [
      | none ↦ err (row_unsupported (index + 4))
      | some neighbor ↦ scan_neighbors (suc index) (neighbors ++ neighbor ∷ []) lines
    ]

-- `ParseARP` behind the checks of the summary.
unfoldable pub arp_table : ℤ → ℤ → ℤ → ℤ → Bytes → Bytes → List Bytes → Result ParserError ArpTable
arp_table dynamic free garbage static refresh columns rows = elim (match_refresh refresh) [
  | none ↦ err unsupported_header
  | some enabled ↦ do
    reject_if (not (columns == arp_columns)) unsupported_header
    neighbors ← scan_neighbors 0 [] rows
    let table : ArpTable = record {
      reported_dynamic = dynamic;
      free = free;
      garbage = garbage;
      static = static;
      auto_refresh = enabled;
      neighbors = neighbors;
    }
    wrap_err (λ _. validation_failed) (arp_table_validate table)
    ok table
]

-- `ParseARP` from the check of the four counts on.
unfoldable pub counted_table :
    Option (List ℤ) → Bytes → Bytes → List Bytes → Result ParserError ArpTable
counted_table (some (dynamic ∷ free ∷ garbage ∷ static ∷ [])) refresh columns rows =
    if ltb_ℤ (pos max_arp_records) dynamic
    then err count_out_of_range
    else arp_table dynamic free garbage static refresh columns rows
counted_table _ refresh columns rows = err count_out_of_range

-- `ParseARP` behind the count of the lines.
unfoldable pub arp_lines : List Bytes → Result ParserError ArpTable
arp_lines (summary ∷ refresh ∷ columns ∷ rows) = elim (match_summary summary) [
  | none ↦ err unsupported_summary
  | some values ↦ counted_table (parse_arp_counts values) refresh columns rows
]
arp_lines _ = err missing_headers

-- `ParseARP`
unfoldable pub parse_arp : Reader → Result ParserError ArpTable
parse_arp reader = do lines ← read_transcript_lines reader; arp_lines (drop_prompt lines)
