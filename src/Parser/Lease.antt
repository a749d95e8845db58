-- ===== src/Parser/Lease.antt =====
-- `ParseLease` of internal/parser/ix2106/lease.go.
pub mod Rows
pub mod Exact
use dhcp_lease_observer.Prelude.{
  ℕ, suc, ◌+◌, not, ◌&&◌, ◌||◌, Option, none, some, List, [], ◌∷◌, ◌++◌, leb, length, Result, ok,
  err, ◌>>=◌, ◌>>◌, reject_if, wrap_err, if◌then◌else◌, ◌==◌, ℤ, pos, ltb_ℤ, eqb_ℤ,
}
use dhcp_lease_observer.Text.{Bytes, codes, is_empty, bytes_eq}
use dhcp_lease_observer.Net.{Addr, is4, parse_addr4}
use dhcp_lease_observer.Model.{
  Assignment, dynamic, fixed, bound, LeaseRecord, LeaseTable, lease_table_validate,
}
use dhcp_lease_observer.Model.Mac.{MacAddress, parse_mac_address}
use dhcp_lease_observer.Session.Prompt.{is_config_prompt}
use dhcp_lease_observer.Parser.Numbers.{parse_int}
use dhcp_lease_observer.Parser.Fields.{row_fields, is_address_field, is_mac_field, number_after}
use dhcp_lease_observer.Parser.Transcript.{
  Reader, ParserError, missing_headers, unsupported_summary, count_out_of_range, unsupported_header,
  record_limit, count_mismatch, validation_failed, row_unsupported, read_transcript_lines,
}

abbrev pub max_lease_records : ℕ
max_lease_records = 2048

abbrev pub lease_codes : Bytes
lease_codes = codes "Codes : D - Dynamic assignments, F - Fixed assignments"

abbrev pub lease_columns : Bytes
lease_columns = codes "IP Address      MAC Address       BoundTime LeaseTime State     Profile"

-- A row with its disposition.
pub data LeaseRow : Type 0 where
  bound_row : LeaseRecord → LeaseRow
  offered_row abandoned_row : LeaseRow

-- The seven groups of `leaseRowPattern`.
pub record RowMatch : Type 0 where
  pub assignment : Assignment
  pub ip : Bytes
  pub mac : Bytes
  pub bound_time : Bytes
  pub lease_time : Bytes
  pub state : Bytes
  pub profile : Bytes

abbrev match_assignment : Bytes → Option Assignment
match_assignment code =
    if code == codes "D" then some dynamic else if code == codes "F" then some fixed else none

unfoldable pub match_row : Bytes → Option RowMatch
match_row line = elim (row_fields line) [
  | code ∷ ip ∷ mac ∷ bound_time ∷ lease_time ∷ state ∷ profile ∷ [] ↦
      elim (match_assignment code) [
        | none ↦ none
        | some assignment ↦
            if is_address_field ip && is_mac_field mac && not (is_empty profile)
            then some (record {
              assignment = assignment;
              ip = ip;
              mac = mac;
              bound_time = bound_time;
              lease_time = lease_time;
              state = state;
              profile = profile;
            })
            else none
      ]
  | _ ↦ none
]

-- The end of `parseLeaseRow`, behind the two addresses.
unfoldable pub classify_row : RowMatch → Addr → MacAddress → Option LeaseRow
classify_row r ip mac =
    if r.state == codes "Offered" || r.state == codes "Abandoned"
    then if not (r.bound_time == codes "N/A") || not (r.lease_time == codes "N/A")
      then none
      else if r.state == codes "Offered"
      then some offered_row
      else some abandoned_row
    else if not (r.state == codes "Bound")
    then none
    else elim (parse_int r.bound_time) [
      | none ↦ none
      | some bound_time ↦ elim (parse_int r.lease_time) [
        | none ↦ none
        | some lease_time ↦ some (
            bound_row (record {
              assignment = r.assignment;
              ip = ip;
              hardware_address = mac;
              bound_time_seconds = bound_time;
              lease_time_seconds = lease_time;
              state = bound;
              profile = r.profile;
            }))
      ]
    ]

-- `parseLeaseRow`; none stands for its one error.
unfoldable pub parse_lease_row : Bytes → Option LeaseRow
parse_lease_row line = elim (match_row line) [
  | none ↦ none
  | some r ↦ elim (parse_addr4 r.ip) [
    | none ↦ none
    | some ip ↦
        if not (is4 ip)
        then none
        else elim (parse_mac_address r.mac) [ none ↦ none | some mac ↦ classify_row r ip mac ]
  ]
]

-- The loop of `ParseLease`: from the index of a row, the count of bound rows and the records so far.
unfoldable pub scan_rows :
    ℕ → ℕ → List LeaseRecord → List Bytes → Result ParserError (ℕ × List LeaseRecord)
scan_rows index bound_rows records [] = ok (bound_rows, records)
scan_rows index bound_rows records (line ∷ lines) =
    reject_if (leb max_lease_records index) record_limit
    >> elim (parse_lease_row line) as (λ _. Result ParserError (ℕ × List LeaseRecord)) [
      | none ↦ err (row_unsupported (index + 4))
      | some (bound_row record') ↦
          scan_rows (suc index) (suc bound_rows) (records ++ record' ∷ []) lines
      | some offered_row ↦ scan_rows (suc index) bound_rows records lines
      | some abandoned_row ↦ scan_rows (suc index) bound_rows records lines
    ]

-- The lines without the config prompt at their end.
unfoldable pub drop_prompt : List Bytes → List Bytes
drop_prompt [] = []
drop_prompt (l ∷ []) = if is_config_prompt l then [] else l ∷ []
drop_prompt (l ∷ m ∷ ls) = l ∷ drop_prompt (m ∷ ls)

-- `leaseCountPattern`, and the number in it.
unfoldable pub match_count : Bytes → Option Bytes
match_count line = elim (number_after (codes "Leased to ") line) [
  | none ↦ none
  | some (digits, rest) ↦ if rest == codes " clients" then some digits else none
]

-- `strconv.Atoi` of the count, up to the limit of records.
unfoldable pub reported : Bytes → Result ParserError ℤ
reported digits = elim (parse_int digits) [
  | none ↦ err count_out_of_range
  | some count ↦ if ltb_ℤ (pos max_lease_records) count then err count_out_of_range else ok count
]

-- `ParseLease` behind the summary line.
unfoldable pub lease_table : ℤ → Bytes → Bytes → List Bytes → Result ParserError LeaseTable
lease_table count codes_line columns rows = do
  reject_if (not (codes_line == lease_codes) || not (columns == lease_columns)) unsupported_header
  (bound_rows, records) ← scan_rows 0 0 [] rows
  reject_if (not (eqb_ℤ (pos bound_rows) count)) count_mismatch
  let table : LeaseTable = record { reported_count = pos (length records); records = records }
  wrap_err (λ _. validation_failed) (lease_table_validate table)
  ok table

unfoldable pub lease_lines : List Bytes → Result ParserError LeaseTable
lease_lines (summary ∷ codes_line ∷ columns ∷ rows) = elim (match_count summary) [
  | none ↦ err unsupported_summary
  | some digits ↦ do count ← reported digits; lease_table count codes_line columns rows
]
lease_lines _ = err missing_headers

-- `ParseLease`
unfoldable pub parse_lease : Reader → Result ParserError LeaseTable
parse_lease reader = do lines ← read_transcript_lines reader; lease_lines (drop_prompt lines)
