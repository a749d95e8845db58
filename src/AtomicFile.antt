-- ===== src/AtomicFile.antt =====
-- internal/atomicfile/write.go. Each call of the system works, fails, or is where the process stops;
-- a process that stops behind a call is one that stops at the next.
pub mod Limit
pub mod Atomic
use dhcp_lease_observer.Prelude.{
  ℕ, suc, ◌+◌, ◌-◌, Bool, ◌||◌, none, some, List, [], ◌∷◌, ◌++◌, take, length, ltb, nat_beq,
  if◌then◌else◌,
}
use dhcp_lease_observer.Text.{Bytes, is_empty}
use dhcp_lease_observer.Files.{File, regular, Disk, put}

pub data Outcome : Type 0 where
  works fails stops : Outcome

-- A write of the temporary file: how many bytes it takes at most, and its outcome.
pub record WriteCall : Type 0 where
  pub accepts : ℕ
  pub outcome : Outcome

-- The calls of one `Write`, `writes n` for the nth write, and the name that CreateTemp chooses.
pub record Calls : Type 0 where
  pub temporary : Bytes
  pub create : Outcome
  pub chmod : Outcome
  pub writes : ℕ → WriteCall
  pub sync : Outcome
  pub close : Outcome
  pub rename : Outcome
  pub remove : Outcome
  pub open_directory : Outcome
  pub sync_directory : Outcome

-- The argument `write`: the chunks that it writes one by one, until one fails, and whether it then
-- ends without an error of its own.
pub record Callback : Type 0 where
  pub chunks : List Bytes
  pub ends_well : Bool

pub data AtomicError : Type 0 where
  invalid_options create_failed chmod_failed size_limit short_write write_failed : AtomicError
  callback_failed sync_failed close_failed rename_failed open_failed sync_directory_failed :
      AtomicError

pub data Exit : Type 0 where
  done : Exit
  failed : AtomicError → Exit
  stopped : Exit

-- How a write of a chunk ends, by its outcome, what was written and what should have been.
abbrev pub write_end : Outcome → ℕ → ℕ → Exit
write_end works written expected = if nat_beq written expected then done else failed short_write
write_end fails written expected = failed write_failed
write_end stops written expected = stopped

-- `limitWriter.Write` for one chunk: what is written of it, and the error.
unfoldable pub limit_write : ℕ → WriteCall → Bytes → Bytes × Exit
limit_write remaining call chunk =
    if ltb remaining (length chunk)
    then ([], failed size_limit)
    else let written = take call.accepts chunk in
      (written, write_end call.outcome (length written) (length chunk))

-- The callback goes on only behind a write without an error.
abbrev pub after_chunk : Exit → Bytes → Bytes × Exit → Bytes × Exit
after_chunk done content rest = rest
after_chunk other content rest = (content, other)

-- The callback on the limitWriter: what the file holds in the end. `n` counts the writes.
unfoldable pub write_chunks : (ℕ → WriteCall) → ℕ → ℕ → Bytes → List Bytes → Bool → Bytes × Exit
write_chunks writes n remaining content [] ends_well =
    (content, if ends_well then done else failed callback_failed)
write_chunks writes n remaining content (chunk ∷ chunks) ends_well =
    let (written, exit) = limit_write remaining (writes n) chunk in
    let content' = content ++ written in
    let rest = write_chunks writes (suc n) (remaining - length written) content' chunks ends_well in
    after_chunk exit content' rest

-- A call on a disk: go on with the disk behind it, clean up, or stop.
abbrev pub attempt :
    Outcome
    → AtomicError
    → (Exit × Disk → Exit × Disk)
    → Disk
    → Disk
    → (Disk → Exit × Disk)
    → Exit × Disk
attempt works error clean before after next = next after
attempt fails error clean before after next = clean (failed error, before)
attempt stops error clean before after next = (stopped, before)

abbrev pub keep : Exit × Disk → Exit × Disk
keep out = out

-- The deferred removal of the temporary file, at what the function is about to end with; its error
-- is dropped, but the process may stop there.
unfoldable pub remove_temporary : Calls → Exit × Disk → Exit × Disk
remove_temporary calls out = elim calls.remove [
  | works ↦ (out.0, put calls.temporary none out.1)
  | fails ↦ out
  | stops ↦ (stopped, out.1)
]

-- `Write` behind the rename.
unfoldable pub sync_directory : Calls → Disk → Exit × Disk
sync_directory calls disk =
    attempt calls.open_directory open_failed keep disk disk
      λ d. attempt calls.sync_directory sync_directory_failed keep d d λ d'. (done, d')

abbrev pub file_of : ℕ → Bytes → File
file_of mode content = record { content = content; mode = mode; kind = regular }

-- `Write` from the sync of the written temporary file on.
unfoldable pub replace : Calls → Bytes → File → Disk → Exit × Disk
replace calls path file disk =
    let clean = remove_temporary calls in
    attempt calls.sync sync_failed clean disk disk λ d.
      attempt calls.close close_failed clean d d λ d'.
        attempt calls.rename rename_failed clean d'
          (put path (some file) (put calls.temporary none d')) (sync_directory calls)

-- What the callback's end means for `Write`.
unfoldable pub after_callback : Calls → Bytes → File → Exit → Disk → Exit × Disk
after_callback calls path file done disk = replace calls path file disk
after_callback calls path file (failed e) disk = remove_temporary calls (failed e, disk)
after_callback calls path file stopped disk = (stopped, disk)

-- `Write` from the creation of the temporary file on.
unfoldable pub write_temporary : Calls → Bytes → ℕ → ℕ → Callback → Disk → Exit × Disk
write_temporary calls path mode max_bytes callback disk =
    let clean = remove_temporary calls in
    attempt calls.create create_failed keep disk (put calls.temporary (some (file_of 384 [])) disk)
      λ d.
        attempt calls.chmod chmod_failed clean d (put calls.temporary (some (file_of mode [])) d)
          λ d'.
            let (content, exit) =
              write_chunks calls.writes 0 max_bytes [] callback.chunks callback.ends_well in
            let file = file_of mode content in
            after_callback calls path file exit (put calls.temporary (some file) d')

-- `Write`; the mode's bits are those of a permission up to 0o777.
unfoldable pub write : Calls → Bytes → ℕ → ℕ → Callback → Disk → Exit × Disk
write calls path mode max_bytes callback disk =
    if is_empty path || ltb 511 mode || nat_beq max_bytes 0
    then (failed invalid_options, disk)
    else write_temporary calls path mode max_bytes callback disk
