-- ===== src/Parser/Lease/Exact.antt =====
-- Which lease transcripts are accepted, and with which table.
use dhcp_lease_observer.Prelude.{
  ℕ, ◌+◌, ◌≤◌, ◌≡◌, refl, sym, ap, ◌∙◌, ◌≢◌, ◌↔◌, true, false, not, none, some, List, [], ◌∷◌,
  arith, length, All, Result, ok, ◌>>◌, ◌>>=◌, reject_if, wrap_err, reject-eq-ok, then-eq-ok,
  wrap-eq-ok, ok-injective, Option-cases, Result-cases, inl, inr, pos, eqb_ℤ, eq_of_parts, subst,
  ltb_ℤ, ℤ,
}
use dhcp_lease_observer.Text.{Bytes, bytes_eq, bytes_beq, bytes_beq_iff}
use dhcp_lease_observer.Model.{LeaseRecord, LeaseTable, lease_table_validate}
use dhcp_lease_observer.Model.Valid.{IsTable, lease_table_validate_iff}
use dhcp_lease_observer.Parser.Transcript.{ParserError, count_mismatch, validation_failed}
use dhcp_lease_observer.Parser.Numbers.{parse_int}
use dhcp_lease_observer.Parser.Lease.Rows.{
  bound_records, scan_rows_lem, scan_rows-ok, length-bound_records,
}
use dhcp_lease_observer.Parser.Lease.{
  parse_lease_row, scan_rows, max_lease_records, lease_codes, lease_columns, match_count, reported,
  lease_table, lease_lines,
}

-- A summary that counts the bound rows, the two header lines, and rows that all parse.
pub record IsReport (summary codes_line columns : Bytes) (rows : List Bytes) (t : LeaseTable)
    : Type 0 where
  pub digits : Bytes
  pub summarised : match_count summary ≡ some digits
  pub counted : parse_int digits ≡ some t.reported_count
  pub codes_header : codes_line ≡ lease_codes
  pub columns_header : columns ≡ lease_columns
  pub limited : length rows ≤ max_lease_records
  pub known : All (λ l. parse_lease_row l ≢ none) rows
  pub records : t.records ≡ bound_records rows
  pub table : IsTable t

-- What `ParseLease` makes of the rows and headers that it accepts.
record IsBody (count : ℤ) (codes_line columns : Bytes) (rows : List Bytes) (t : LeaseTable)
    : Type 0 where
  pub codes_header : codes_line ≡ lease_codes
  pub columns_header : columns ≡ lease_columns
  pub limited : length rows ≤ max_lease_records
  pub known : All (λ l. parse_lease_row l ≢ none) rows
  pub counted : count ≡ t.reported_count
  pub records : t.records ≡ bound_records rows
  pub table : IsTable t

abbrev built : List LeaseRecord → LeaseTable
built records = record { reported_count = pos (length records); records = records }

-- The end of `ParseLease`, behind the loop.
abbrev conclude : ℤ → ℕ × List LeaseRecord → Result ParserError LeaseTable
conclude count (bound_rows, records) = do
  reject_if (not (eqb_ℤ (pos bound_rows) count)) count_mismatch
  wrap_err (λ _. validation_failed) (lease_table_validate (built records))
  ok (built records)

built_table :
    {records : List LeaseRecord} {t : LeaseTable}
    → t.records ≡ records
    → t.reported_count ≡ pos (length t.records)
    → built records ≡ t
built_table h k = ground arith

reported-ok :
    (digits : Bytes) (count : ℤ)
    → parse_int digits ≡ some count
    → ltb_ℤ (pos max_lease_records) count ≡ false
    → reported digits ≡ ok count
unfolding reported
reported-ok digits count h k = ground (arith, h, k)

lease_table_lem :
    (count : ℤ) (rows : List Bytes)
    → length rows ≤ max_lease_records
    → All (λ l. parse_lease_row l ≢ none) rows
    → lease_table count lease_codes lease_columns rows
      ≡ conclude count (0 + length (bound_records rows), bound_records rows)
unfolding lease_table bytes_beq
lease_table_lem count rows h k = rw (scan_rows_lem 0 0 [] rows (omega arith) k) refl

lease_table-IsBody :
    (count : ℤ) (codes_line columns : Bytes) (rows : List Bytes) (t : LeaseTable)
    → lease_table count codes_line columns rows ≡ ok t
    → IsBody count codes_line columns rows t
unfolding lease_table
lease_table-IsBody count codes_line columns rows t h =
    let (c, d) = headers in
    let (l, k) = scanned in
    let r : conclude count (0 + length (bound_records rows), bound_records rows) ≡ ok t =
      sym (lease_table_lem count rows l k) ∙ (rw (c, d) at h) in
    let (n, h₂) =
      reject-eq-ok (not (eqb_ℤ (pos (0 + length (bound_records rows))) count)) count_mismatch _ r in
    let (v, e) =
      then-eq-ok
        (wrap_err (λ _. validation_failed) (lease_table_validate (built (bound_records rows)))) _
        h₂ in
    let t_built : built (bound_records rows) ≡ t = ok-injective e in
    record {
      codes_header = c;
      columns_header = d;
      limited = l;
      known = k;
      counted =
          ground (arith, n, t_built, eq_of_parts count (pos (0 + length (bound_records rows))));
      records = sym (ap (λ t. t.records) t_built);
      table = subst IsTable t_built ((lease_table_validate_iff _).0 (wrap-eq-ok _ _ v));
    }
  where
    headers : (codes_line ≡ lease_codes) × (columns ≡ lease_columns)
    headers =
        ground (arith, bytes_beq_iff codes_line lease_codes, bytes_beq_iff columns lease_columns)

    scanned : (length rows ≤ max_lease_records) × All (λ l. parse_lease_row l ≢ none) rows
    scanned = elim (Result-cases (scan_rows 0 0 [] rows)) [
      | inl (out, s) ↦ let (l, k) = scan_rows-ok 0 0 [] rows s (omega arith) in (omega arith, k)
      | inr (f, s) ↦ absurd (ground (arith, s))
    ]

lease_lines_lem :
    (summary codes_line columns : Bytes) (rows : List Bytes) (digits : Bytes)
    → match_count summary ≡ some digits
    → lease_lines (summary ∷ codes_line ∷ columns ∷ rows)
      ≡ (reported digits >>= λ count. lease_table count codes_line columns rows)
unfolding lease_lines
lease_lines_lem summary codes_line columns rows digits e = ground (arith, e)

-- The lines of a lease table are accepted with a table exactly when they are a report of it: the
-- summary counts its records, the header is the known one, at most 2048 rows follow, every row
-- parses, the records are those of the bound rows in their order, and the table is valid.
pub lease_lines_iff :
    (summary codes_line columns : Bytes) (rows : List Bytes) (t : LeaseTable)
    → (lease_lines (summary ∷ codes_line ∷ columns ∷ rows) ≡ ok t)
      ↔ IsReport summary codes_line columns rows t
unfolding lease_lines
lease_lines_iff summary codes_line columns rows t = (to, from)
  where
    to :
        lease_lines (summary ∷ codes_line ∷ columns ∷ rows) ≡ ok t
        → IsReport summary codes_line columns rows t
    to h = elim (Option-cases (match_count summary)) [
      | inl e ↦ absurd (ground (arith, e))
      | inr (digits, e) ↦ elim (Result-cases (reported digits)) [
        | inr (f, c) ↦ absurd (ground (arith, e, c))
        | inl (count, c) ↦
            let b =
              lease_table-IsBody count codes_line columns rows t
                (rw c at (sym (lease_lines_lem summary codes_line columns rows digits e) ∙ h)) in
            record {
              digits = digits;
              summarised = e;
              counted = unfold reported in ground (arith, b.counted);
              codes_header = b.codes_header;
              columns_header = b.columns_header;
              limited = b.limited;
              known = b.known;
              records = b.records;
              table = b.table;
            }
      ]
    ]

    from :
        IsReport summary codes_line columns rows t
        → lease_lines (summary ∷ codes_line ∷ columns ∷ rows) ≡ ok t
    from r =
        let t_built : built (bound_records rows) ≡ t = built_table r.records r.table.counted in
        let v : lease_table_validate (built (bound_records rows)) ≡ ok tt =
          (lease_table_validate_iff _).1 (subst IsTable (sym t_built) r.table) in
        let few : length t.records ≤ max_lease_records =
          ground (arith, r.records, length-bound_records rows, r.limited) in
        let within : ltb_ℤ (pos max_lease_records) t.reported_count ≡ false =
          ground (arith, few, r.table.counted) in
        let counted : eqb_ℤ (pos (0 + length (bound_records rows))) t.reported_count ≡ true =
          ground (arith, r.table.counted, r.records) in
        lease_lines_lem summary codes_line columns rows r.digits r.summarised
        ∙ rw
            (
              reported-ok r.digits t.reported_count r.counted within,
              r.codes_header,
              r.columns_header,
              lease_table_lem t.reported_count rows r.limited r.known,
              counted,
              v,
            )
            (ap ok t_built)
