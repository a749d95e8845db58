-- ===== src/Parser/Transcript.antt =====
-- `readTranscriptLines` of internal/parser/ix2106/lease.go, with what it uses of bufio.Scanner.
pub mod Bounds
use dhcp_lease_observer.Prelude.{
  ℕ, ◌+◌, ◌-◌, ◌^◌, Bool, ◌&&◌, List, [], ◌∷◌, take, leb, ltb, nat_beq, length, Result, ok, err,
  ◌>>=◌, ◌>>◌, reject_if, if◌then◌else◌, arith,
}
use dhcp_lease_observer.Text.{Bytes, codes, contains, is_empty}
use dhcp_lease_observer.Text.Space.{trim_space, to_lower, split_lines}

-- An io.Reader: the bytes that it gives, and whether it then fails instead of reporting its end,
-- which it does in a read of its own.
pub record Reader : Type 0 where
  pub content : Bytes
  pub fails : Bool

-- `row_unsupported` is the number of the line; the rest are the messages of `invalidLease` and
-- `invalidARP`, and the two sentinel errors.
pub data ParserError : Type 0 where
  paged config_occupied size_limit unreadable missing_headers unsupported_summary : ParserError
  count_out_of_range unsupported_header record_limit count_mismatch validation_failed : ParserError
  row_unsupported : ℕ → ParserError

abbrev pub max_transcript_size : ℕ
max_transcript_size = 2 ^ 20

abbrev pub max_line_size : ℕ
max_line_size = 2 ^ 16

-- `io.LimitReader(reader, maxTranscriptSize+1)`: a reader that has given so much does not fail.
unfoldable pub limit_reader : Reader → Reader
limit_reader reader = record {
  content = take (max_transcript_size + 1) reader.content;
  fails = reader.fails && leb (length reader.content) max_transcript_size;
}

-- The lines of bufio.ScanLines, their ends still on; what follows the last end is a line if it is
-- not empty.
unfoldable pub drop_empty_end : List Bytes → List Bytes
drop_empty_end [] = []
drop_empty_end (l ∷ []) = if is_empty l then [] else l ∷ []
drop_empty_end (l ∷ m ∷ ls) = l ∷ drop_empty_end (m ∷ ls)

unfoldable pub drop_return : Bytes → Bytes
drop_return [] = []
drop_return (c ∷ []) = if nat_beq c b'\r' then [] else c ∷ []
drop_return (c ∷ d ∷ cs) = c ∷ drop_return (d ∷ cs)

abbrev pub prepend_line : Bytes → Result ParserError (List Bytes) → Result ParserError (List Bytes)
prepend_line line rest = rest >>= λ lines. ok (if is_empty line then lines else line ∷ lines)

-- The loop over the lines; `read_size` is what the lines before have taken.
unfoldable pub read_lines : Bool → ℕ → List Bytes → Result ParserError (List Bytes)
read_lines fails read_size [] = if fails then err unreadable else ok []
read_lines fails read_size (raw ∷ raws) =
    let text = drop_return raw in
    let line = trim_space text in
    let size = read_size + length text + 1 in
    let rest = read_lines fails size raws in
    reject_if (leb max_line_size (length raw)) unreadable
    >> (reject_if (ltb max_transcript_size size) size_limit
        >> (reject_if (contains line (codes "--More--")) paged
            >> (reject_if (contains (to_lower line) (codes "config process is occupied"))
                  config_occupied
                >> prepend_line line rest)))

-- `readTranscriptLines`
unfoldable pub read_transcript_lines : Reader → Result ParserError (List Bytes)
unfolding read_lines limit_reader drop_empty_end drop_return
read_transcript_lines reader =
    let limited = limit_reader reader in
    read_lines limited.fails 0 (drop_empty_end (split_lines limited.content))
