-- ===== src/Parser/Transcript/Bounds.antt =====
-- What the lines that `readTranscriptLines` returns are like, and how much they hold.
use dhcp_lease_observer.Prelude.{
  ℕ, zero, suc, ◌+◌, ◌≤◌, ◌≡◌, refl, ◌⊎◌, inl, inr, Bool, false, List, [], ◌∷◌, arith, length, All,
  ok, reject-eq-ok, Result-cases, Bool-cases, leb, ltb, subst,
}
use mathlib.Core.List.{reverse_aux}
use dhcp_lease_observer.Text.{Bytes, codes, contains, is_empty}
use dhcp_lease_observer.Text.Space.{
  trim_space, trim_left_from, nth, space_width, space_width_back, to_lower, split_lines,
}
use dhcp_lease_observer.Parser.Transcript.{
  Reader, paged, config_occupied, size_limit, unreadable, max_transcript_size, max_line_size,
  limit_reader, drop_empty_end, drop_return, read_lines, read_transcript_lines,
}

ℕ-cases : (n : ℕ) → (n ≡ 0) ⊎ ((m : ℕ) × (n ≡ suc m))
ℕ-cases zero = inl refl
ℕ-cases (suc m) = inr (m, refl)

length-trim_left_from :
    (width : ℕ → ℕ → ℕ → ℕ) (skip : ℕ) (s : Bytes) → length (trim_left_from width skip s) ≤ length s
unfolding trim_left_from
length-trim_left_from width skip [] = omega arith
length-trim_left_from width (suc skip) (c ∷ cs) = omega (arith, length-trim_left_from width skip cs)
length-trim_left_from width zero (c ∷ cs) = elim (ℕ-cases (width c (nth 0 cs) (nth 1 cs))) [
  | inl e ↦ rw (e, trim_left_from) (omega arith)
  | inr (m, e) ↦ rw (e, trim_left_from) (omega (arith, length-trim_left_from width m cs))
]

length-reverse_aux : (s t : Bytes) → length (reverse_aux s t) ≡ length s + length t
length-reverse_aux [] t = omega arith
length-reverse_aux (c ∷ s) t = omega (arith, length-reverse_aux s (c ∷ t))

length-trim_space : (s : Bytes) → length (trim_space s) ≤ length s
unfolding trim_space
length-trim_space s =
    let front = trim_left_from space_width 0 s in
    let back = trim_left_from space_width_back 0 (reverse_aux front []) in
    omega (
      arith,
      length-reverse_aux back [],
      length-trim_left_from space_width_back 0 (reverse_aux front []),
      length-reverse_aux front [],
      length-trim_left_from space_width 0 s,
    )

length-drop_return : (s : Bytes) → length (drop_return s) ≤ length s
unfolding drop_return
length-drop_return [] = omega arith
length-drop_return (c ∷ []) = ground arith
length-drop_return (c ∷ d ∷ cs) = omega (arith, length-drop_return (d ∷ cs))

-- The bytes of lines, each with its end.
abbrev pub total : List Bytes → ℕ
total [] = 0
total (l ∷ ls) = length l + 1 + total ls

-- A line with content, that is no pager line and no lock message.
pub record IsContent (line : Bytes) : Type 0 where
  pub filled : is_empty line ≡ false
  pub no_pager : contains line (codes "--More--") ≡ false
  pub no_lock : contains (to_lower line) (codes "config process is occupied") ≡ false

-- What the loop accepts: lines with content, that fit beside what was read before, of a reader that
-- did not fail.
pub record IsRead (fails : Bool) (size : ℕ) (lines : List Bytes) : Type 0 where
  pub content : All IsContent lines
  pub bounded : total lines + size ≤ max_transcript_size
  pub whole : fails ≡ false

read_lines-IsRead :
    (fails : Bool) (size : ℕ) (raws : List Bytes) (lines : List Bytes)
    → read_lines fails size raws ≡ ok lines
    → size ≤ max_transcript_size
    → IsRead fails size lines
unfolding read_lines
read_lines-IsRead fails size [] lines h k =
    subst (IsRead fails size) nil_lines
      (record { content = tt; bounded = omega arith; whole = ground arith })
  where
    nil_lines : [] ≡ lines
    nil_lines = ground arith
read_lines-IsRead fails size (raw ∷ raws) lines h k =
    let text = drop_return raw in
    let line = trim_space text in
    let size' = size + length text + 1 in
    let (w, h₁) = reject-eq-ok (leb max_line_size (length raw)) unreadable _ h in
    let (b, h₂) = reject-eq-ok (ltb max_transcript_size size') size_limit _ h₁ in
    let (p, h₃) = reject-eq-ok (contains line (codes "--More--")) paged _ h₂ in
    let (l, h₄) =
      reject-eq-ok (contains (to_lower line) (codes "config process is occupied")) config_occupied _
        h₃ in
    elim (Result-cases (read_lines fails size' raws)) [
      | inr (e, r) ↦ absurd (ground (arith, r))
      | inl (rest, r) ↦
          let v = read_lines-IsRead fails size' raws rest r (ground arith) in
          elim (Bool-cases (is_empty line)) [
            | inl e ↦
                let same : rest ≡ lines = ground (arith, r, e) in
                subst (IsRead fails size) same (record {
                  content = v.content;
                  bounded = ground (arith, v.bounded);
                  whole = v.whole;
                })
            | inr e ↦
                let same : line ∷ rest ≡ lines = ground (arith, r, e) in
                subst (IsRead fails size) same (record {
                  content = (record { filled = e; no_pager = p; no_lock = l }, v.content);
                  bounded = omega (arith, v.bounded, length-trim_space text);
                  whole = v.whole;
                })
          ]
    ]

-- What `readTranscriptLines` returns has no blank line, no pager line and no lock message, holds at
-- most 1 MiB with an end for each line, and comes from a reader that did not fail before its end or
-- before the limit.
pub read_transcript_lines-IsRead :
    (reader : Reader) (lines : List Bytes)
    → read_transcript_lines reader ≡ ok lines
    → IsRead (limit_reader reader).fails 0 lines
unfolding read_transcript_lines
read_transcript_lines-IsRead reader lines h =
    let limited = limit_reader reader in
    read_lines-IsRead limited.fails 0 (drop_empty_end (split_lines limited.content)) lines h
      (omega arith)
