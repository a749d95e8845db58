-- ===== src/Parser/Arp/Exact.antt =====
-- Which ARP transcripts are accepted, and with which table.
use dhcp_lease_observer.Prelude.{
  ℕ, suc, ◌+◌, ◌≤◌, ◌≡◌, refl, sym, ap, ◌∙◌, ◌↔◌, false, not, Option, none, some, List, [], ◌∷◌,
  ◌++◌, arith, length, leb, Result, ok, ◌>>◌, wrap_err, reject-eq-ok, then-eq-ok, wrap-eq-ok,
  ok-injective, Option-cases, Result-cases, inl, inr, ◌==◌, pos, ltb_ℤ, ℤ, subst,
}
use mathlib.Core.List.{append-nil, append_assoc}
use dhcp_lease_observer.Text.{Bytes, bytes_eq, bytes_beq, bytes_beq_iff}
use dhcp_lease_observer.Model.{ArpNeighbor, ArpTable, arp_table_validate}
use dhcp_lease_observer.Model.Valid.{IsArpTable, arp_table_validate_iff}
use dhcp_lease_observer.Parser.Transcript.{
  ParserError, record_limit, unsupported_header, validation_failed,
}
use dhcp_lease_observer.Parser.Arp.{
  parse_arp_row, scan_neighbors, max_arp_records, arp_columns, match_summary, match_refresh,
  parse_arp_counts, arp_table, counted_table, arp_lines,
}

-- One neighbor for each row, in their order.
pub data AreRows : List Bytes → List ArpNeighbor → Type 0 where
  no_rows : AreRows [] []
  row :
      {l : Bytes} {ls : List Bytes} {n : ArpNeighbor} {ns : List ArpNeighbor}
      → parse_arp_row l ≡ some n
      → AreRows ls ns
      → AreRows (l ∷ ls) (n ∷ ns)

length-snoc :
    {A : Type 0} (before : List A) (a : A) → length (before ++ a ∷ []) ≡ suc (length before)
length-snoc [] a = refl
length-snoc (b ∷ before) a = ap suc (length-snoc before a)

scan_neighbors_lem :
    (index : ℕ) (before ns : List ArpNeighbor) (lines : List Bytes)
    → length before + length lines ≤ max_arp_records
    → AreRows lines ns
    → scan_neighbors index before lines ≡ ok (before ++ ns)
unfolding scan_neighbors
scan_neighbors_lem index before _ [] h no_rows = rw (append-nil, scan_neighbors) refl
scan_neighbors_lem index before _ (line ∷ lines) h (row {n = n} {ns = ns} e rs) =
    let grown = length-snoc before n in
    ground (
      arith,
      e,
      scan_neighbors_lem (suc index) (before ++ n ∷ []) ns lines (ground (arith, grown)) rs,
      append_assoc before (n ∷ []) ns,
    )

scan_neighbors-AreRows :
    (index : ℕ) (before : List ArpNeighbor) (lines : List Bytes) {out : List ArpNeighbor}
    → scan_neighbors index before lines ≡ ok out
    → length before ≤ max_arp_records
    → (length before + length lines ≤ max_arp_records)
      × ((ns : List ArpNeighbor) × AreRows lines ns)
unfolding scan_neighbors
scan_neighbors-AreRows index before [] h k = (ground arith, ([], no_rows))
scan_neighbors-AreRows index before (line ∷ lines) {out} h k =
    elim (Option-cases (parse_arp_row line)) [
      | inl e ↦ absurd (ground (arith, e))
      | inr (n, e) ↦
          let (m, h₁) =
            reject-eq-ok (leb max_arp_records (length before)) record_limit
              (scan_neighbors (suc index) (before ++ n ∷ []) lines) (rw e at h) in
          let grown = length-snoc before n in
          let (l, (ns, rs)) =
            scan_neighbors-AreRows (suc index) (before ++ n ∷ []) lines h₁
              (ground (arith, grown)) in
          (ground (arith, grown), (n ∷ ns, row e rs))
    ]

length-AreRows :
    {lines : List Bytes} {ns : List ArpNeighbor} → AreRows lines ns → length ns ≡ length lines
length-AreRows no_rows = refl
length-AreRows (row e rs) = ap suc (length-AreRows rs)

-- A summary whose four numbers are those of the table, the refresh line and the header, and one
-- row for each neighbor.
pub record IsArpReport (summary refresh columns : Bytes) (rows : List Bytes) (t : ArpTable)
    : Type 0 where
  pub values : List Bytes
  pub summarised : match_summary summary ≡ some values
  pub counted :
      parse_arp_counts values ≡ some (t.reported_dynamic ∷ t.free ∷ t.garbage ∷ t.static ∷ [])
  pub refreshed : match_refresh refresh ≡ some t.auto_refresh
  pub header : columns ≡ arp_columns
  pub limited : length rows ≤ max_arp_records
  pub parsed : AreRows rows t.neighbors
  pub table : IsArpTable t

-- The end of `ParseARP`, behind the loop.
abbrev conclude : ArpTable → Result ParserError ArpTable
conclude table = wrap_err (λ _. validation_failed) (arp_table_validate table) >> ok table

arp_table_lem :
    (t : ArpTable) (refresh : Bytes) (rows : List Bytes)
    → match_refresh refresh ≡ some t.auto_refresh
    → length rows ≤ max_arp_records
    → AreRows rows t.neighbors
    → arp_table t.reported_dynamic t.free t.garbage t.static refresh arp_columns rows ≡ conclude t
unfolding arp_table bytes_beq
arp_table_lem t refresh rows e l rs =
    rw (e, arp_table, scan_neighbors_lem 0 [] t.neighbors rows (omega arith) rs) refl

-- What follows the counts, when it is accepted.
record IsCounted (counts : Option (List ℤ)) (refresh columns : Bytes) (rows : List Bytes)
    (t : ArpTable) : Type 0 where
  pub counted : counts ≡ some (t.reported_dynamic ∷ t.free ∷ t.garbage ∷ t.static ∷ [])
  pub refreshed : match_refresh refresh ≡ some t.auto_refresh
  pub header : columns ≡ arp_columns
  pub limited : length rows ≤ max_arp_records
  pub parsed : AreRows rows t.neighbors
  pub table : IsArpTable t

arp_table-IsCounted :
    (d f g s : ℤ) (refresh columns : Bytes) (rows : List Bytes) (t : ArpTable)
    → arp_table d f g s refresh columns rows ≡ ok t
    → IsCounted (some (d ∷ f ∷ g ∷ s ∷ [])) refresh columns rows t
unfolding arp_table
arp_table-IsCounted d f g s refresh columns rows t h = elim (Option-cases (match_refresh refresh)) [
  | inl e ↦ absurd (ground (arith, e))
  | inr (enabled, e) ↦
      let (c, h₁) =
        reject-eq-ok (not (columns == arp_columns)) unsupported_header _ (rw (e, arp_table) at h) in
      elim (Result-cases (scan_neighbors 0 [] rows)) [
        | inr (x, q) ↦ absurd (ground (arith, e, q))
        | inl (out, q) ↦
            let (l, (ns, rs)) = scan_neighbors-AreRows 0 [] rows q (omega arith) in
            let same : out ≡ ns = ok-injective (sym q ∙ scan_neighbors_lem 0 [] ns rows l rs) in
            let u : ArpTable = record {
              reported_dynamic = d;
              free = f;
              garbage = g;
              static = s;
              auto_refresh = enabled;
              neighbors = ns;
            } in
            let w : conclude u ≡ ok t = rw (same) at (rw q at h₁) in
            let (v, r) =
              then-eq-ok (wrap_err (λ _. validation_failed) (arp_table_validate u)) _ w in
            let u_t : u ≡ t = ok-injective r in
            subst (IsCounted (some (d ∷ f ∷ g ∷ s ∷ [])) refresh columns rows) u_t (record {
              counted = refl;
              refreshed = e;
              header = ground (arith, bytes_beq_iff columns arp_columns);
              limited = ground (arith, l);
              parsed = rs;
              table = (arp_table_validate_iff u).0 (wrap-eq-ok _ _ v);
            })
      ]
]

counted_table-IsCounted :
    (counts : Option (List ℤ)) (refresh columns : Bytes) (rows : List Bytes) (t : ArpTable)
    → counted_table counts refresh columns rows ≡ ok t
    → IsCounted counts refresh columns rows t
unfolding counted_table
counted_table-IsCounted (some (d ∷ f ∷ g ∷ s ∷ [])) refresh columns rows t h =
    arp_table-IsCounted d f g s refresh columns rows t (ground arith)
counted_table-IsCounted none refresh columns rows t h = absurd (cc)
counted_table-IsCounted (some []) refresh columns rows t h = absurd (cc)
counted_table-IsCounted (some (_ ∷ [])) refresh columns rows t h = absurd (cc)
counted_table-IsCounted (some (_ ∷ _ ∷ [])) refresh columns rows t h = absurd (cc)
counted_table-IsCounted (some (_ ∷ _ ∷ _ ∷ [])) refresh columns rows t h = absurd (cc)
counted_table-IsCounted (some (_ ∷ _ ∷ _ ∷ _ ∷ _ ∷ _)) refresh columns rows t h = absurd (cc)

arp_lines_lem :
    (summary refresh columns : Bytes) (rows : List Bytes) (values : List Bytes)
    → match_summary summary ≡ some values
    → arp_lines (summary ∷ refresh ∷ columns ∷ rows)
      ≡ counted_table (parse_arp_counts values) refresh columns rows
unfolding arp_lines
arp_lines_lem summary refresh columns rows values e = rw (e, arp_lines) refl

counted_table_lem :
    (t : ArpTable) (refresh : Bytes) (rows : List Bytes)
    → t.reported_dynamic ≡ pos (length t.neighbors)
    → length t.neighbors ≤ max_arp_records
    → counted_table
        (some (t.reported_dynamic ∷ t.free ∷ t.garbage ∷ t.static ∷ []))
        refresh
        arp_columns
        rows
      ≡ arp_table t.reported_dynamic t.free t.garbage t.static refresh arp_columns rows
unfolding counted_table
counted_table_lem t refresh rows c l =
    let within : ltb_ℤ (pos max_arp_records) t.reported_dynamic ≡ false = ground arith in rw within

-- The lines of an ARP table are accepted with a table exactly when they are a report of it: the
-- four numbers of the summary are those of the table, the refresh line and the header are the known
-- ones, there are at most 2048 rows, each row parses to the neighbor at its place, and the table is
-- valid.
pub arp_lines_iff :
    (summary refresh columns : Bytes) (rows : List Bytes) (t : ArpTable)
    → (arp_lines (summary ∷ refresh ∷ columns ∷ rows) ≡ ok t)
      ↔ IsArpReport summary refresh columns rows t
unfolding arp_lines
arp_lines_iff summary refresh columns rows t = (to, from)
  where
    to :
        arp_lines (summary ∷ refresh ∷ columns ∷ rows) ≡ ok t
        → IsArpReport summary refresh columns rows t
    to h = elim (Option-cases (match_summary summary)) [
      | inl e ↦ absurd (ground (arith, e))
      | inr (values, e) ↦
          let c =
            counted_table-IsCounted (parse_arp_counts values) refresh columns rows t
              (sym (arp_lines_lem summary refresh columns rows values e) ∙ h) in
          record {
            values = values;
            summarised = e;
            counted = c.counted;
            refreshed = c.refreshed;
            header = c.header;
            limited = c.limited;
            parsed = c.parsed;
            table = c.table;
          }
    ]

    from :
        IsArpReport summary refresh columns rows t
        → arp_lines (summary ∷ refresh ∷ columns ∷ rows) ≡ ok t
    from r =
        let few : length t.neighbors ≤ max_arp_records =
          ground (arith, length-AreRows r.parsed, r.limited) in
        arp_lines_lem summary refresh columns rows r.values r.summarised
        ∙ rw (
          r.counted,
          r.header,
          counted_table_lem t refresh rows r.table.counted few,
          arp_table_lem t refresh rows r.refreshed r.limited r.parsed,
          (arp_table_validate_iff t).1 r.table,
        )
