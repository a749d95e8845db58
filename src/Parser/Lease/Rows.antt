-- ===== src/Parser/Lease/Rows.antt =====
-- Which rows the loop of `ParseLease` accepts, and with which records.
use dhcp_lease_observer.Prelude.{
  ℕ, suc, ◌+◌, ◌≤◌, ◌≡◌, refl, ◌≢◌, Option, none, some, List, [], ◌∷◌, ◌++◌, arith, length, leb,
  ◌⊎◌, All, ok, ◌>>◌, reject_if, reject-eq-ok, inl, inr,
}
use mathlib.Core.List.{append-nil, append_assoc}
use dhcp_lease_observer.Text.{Bytes, bytes_eq}
use dhcp_lease_observer.Model.{LeaseRecord}
use dhcp_lease_observer.Parser.Transcript.{record_limit}
use dhcp_lease_observer.Parser.Lease.{
  LeaseRow, bound_row, offered_row, abandoned_row, parse_lease_row, scan_rows, max_lease_records,
}

-- The records of the bound rows, in their order.
abbrev pub bound_records : List Bytes → List LeaseRecord
bound_records [] = []
bound_records (line ∷ lines) = elim (parse_lease_row line) [
  | some (bound_row r) ↦ r ∷ bound_records lines
  | _ ↦ bound_records lines
]

-- The four outcomes of a row.
row-cases :
    (row : Option LeaseRow)
    → (row ≡ none)
      ⊎ ((r : LeaseRecord) × (row ≡ some (bound_row r)))
      ⊎ (row ≡ some offered_row)
      ⊎ (row ≡ some abandoned_row)
row-cases none = inl refl
row-cases (some (bound_row r)) = inr (inl (r, refl))
row-cases (some offered_row) = inr (inr (inl refl))
row-cases (some abandoned_row) = inr (inr (inr refl))

pub scan_rows_lem :
    (index b : ℕ) (records : List LeaseRecord) (lines : List Bytes)
    → index + length lines ≤ max_lease_records
    → All (λ l. parse_lease_row l ≢ none) lines
    → scan_rows index b records lines
      ≡ ok (b + length (bound_records lines), records ++ bound_records lines)
unfolding scan_rows
scan_rows_lem index b records [] h k = rw (append-nil, scan_rows) (ground arith)
scan_rows_lem index b records (line ∷ lines) h (k, ks) = elim (row-cases (parse_lease_row line)) [
  | inl e ↦ absurd (k e)
  | inr (inl (r, e)) ↦ ground (
    arith,
    e,
    scan_rows_lem (suc index) (suc b) (records ++ r ∷ []) lines (omega arith) ks,
    append_assoc records (r ∷ []) (bound_records lines),
  )
  | inr (inr (inl e)) ↦
      ground (arith, e, scan_rows_lem (suc index) b records lines (omega arith) ks)
  | inr (inr (inr e)) ↦
      ground (arith, e, scan_rows_lem (suc index) b records lines (omega arith) ks)
]

pub scan_rows-ok :
    (index b : ℕ) (records : List LeaseRecord) (lines : List Bytes) {out : ℕ × List LeaseRecord}
    → scan_rows index b records lines ≡ ok out
    → index ≤ max_lease_records
    → (index + length lines ≤ max_lease_records) × All (λ l. parse_lease_row l ≢ none) lines
unfolding scan_rows
scan_rows-ok index b records [] h k = (ground arith, tt)
scan_rows-ok index b records (line ∷ lines) {out} h k = elim (row-cases (parse_lease_row line)) [
  | inl e ↦ absurd (ground (arith, e))
  | inr (inl (r, e)) ↦
      next (suc b) (records ++ r ∷ []) (λ f. cc) (rw e at h)
        (scan_rows-ok (suc index) (suc b) (records ++ r ∷ []) lines)
  | inr (inr (inl e)) ↦
      next b records (λ f. cc) (rw e at h) (scan_rows-ok (suc index) b records lines)
  | inr (inr (inr e)) ↦
      next b records (λ f. cc) (rw e at h) (scan_rows-ok (suc index) b records lines)
]
  where
    next :
        (b' : ℕ) (records' : List LeaseRecord)
        → parse_lease_row line ≢ none
        → (reject_if (leb max_lease_records index) record_limit
            >> scan_rows (suc index) b' records' lines)
          ≡ ok out
        → (scan_rows (suc index) b' records' lines ≡ ok out
            → suc index ≤ max_lease_records
            → (suc index + length lines ≤ max_lease_records)
              × All (λ l. parse_lease_row l ≢ none) lines)
        → (index + length (line ∷ lines) ≤ max_lease_records)
          × All (λ l. parse_lease_row l ≢ none) (line ∷ lines)
    next b' records' n h' recur =
        let (m, h₁) =
          reject-eq-ok (leb max_lease_records index) record_limit
            (scan_rows (suc index) b' records' lines) h' in
        let (l, ks) = recur h₁ (ground arith) in (omega arith, (n, ks))

pub length-bound_records : (rows : List Bytes) → length (bound_records rows) ≤ length rows
length-bound_records [] = omega arith
length-bound_records (line ∷ rows) = elim (row-cases (parse_lease_row line)) [
  | inl e ↦ ground (arith, e, length-bound_records rows)
  | inr (inl (r, e)) ↦ ground (arith, e, length-bound_records rows)
  | inr (inr (inl e)) ↦ ground (arith, e, length-bound_records rows)
  | inr (inr (inr e)) ↦ ground (arith, e, length-bound_records rows)
]
