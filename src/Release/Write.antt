-- ===== src/Release/Write.antt =====
-- writeAtomic and writeFileAtomic of cmd/package-release/main.go. Each call of the system works,
-- fails, or is where the process stops; a process that stops behind a call is one that stops at the
-- next.
use dhcp_lease_observer.Prelude.{
  ℕ, suc, Bool, true, none, some, List, [], ◌∷◌, ◌++◌, take, if◌then◌else◌,
}
use dhcp_lease_observer.Text.{Bytes}
use dhcp_lease_observer.Files.{File, Disk, put}
use dhcp_lease_observer.AtomicFile.{Outcome, works, fails, stops, WriteCall, Callback, file_of}

-- How a function ends: with its value, with an error, or not at all as the process stops.
pub data End {ℓ} (A : Type ℓ) : Type ℓ where
  gives : A → End A
  errs halts : End A

-- The calls of one `writeAtomic`, `writes n` for the nth write, and the name that CreateTemp
-- chooses.
pub record WriteCalls : Type 0 where
  pub temporary : Bytes
  pub create : Outcome
  pub chmod : Outcome
  pub writes : ℕ → WriteCall
  pub sync : Outcome
  pub close : Outcome
  pub rename : Outcome
  pub remove : Outcome

-- A write of the temporary file: a write that works takes the whole chunk.
unfoldable pub write_chunk : WriteCall → Bytes → Bytes × End (Unit {0})
write_chunk call chunk = elim call.outcome [
  | works ↦ (chunk, gives tt)
  | fails ↦ (take call.accepts chunk, errs)
  | stops ↦ (take call.accepts chunk, halts)
]

-- The callback goes on only behind a write without an error.
abbrev pub next_chunk : End (Unit {0}) → Bytes → Bytes × End (Unit {0}) → Bytes × End (Unit {0})
next_chunk (gives _) content rest = rest
next_chunk errs content rest = (content, errs)
next_chunk halts content rest = (content, halts)

-- The callback on the temporary file: what that holds in the end. `n` counts the writes.
unfoldable pub write_all : (ℕ → WriteCall) → ℕ → Bytes → List Bytes → Bool → Bytes × End (Unit {0})
write_all writes n content [] ends_well = (content, if ends_well then gives tt else errs)
write_all writes n content (chunk ∷ chunks) ends_well =
    let (written, end) = write_chunk (writes n) chunk in
    let rest = write_all writes (suc n) (content ++ written) chunks ends_well in
    next_chunk end (content ++ written) rest

-- A call on a disk: go on with the disk behind it, clean up, or stop.
abbrev pub try_call :
    Outcome
    → (End (Unit {0}) × Disk → End (Unit {0}) × Disk)
    → Disk
    → Disk
    → (Disk → End (Unit {0}) × Disk)
    → End (Unit {0}) × Disk
try_call works clean before after next = next after
try_call fails clean before after next = clean (errs, before)
try_call stops clean before after next = (halts, before)

-- The deferred removal of the temporary file, at what the function is about to end with; its error
-- is dropped, but the process may stop there.
unfoldable pub remove_scratch : WriteCalls → End (Unit {0}) × Disk → End (Unit {0}) × Disk
remove_scratch calls out = elim calls.remove [
  | works ↦ (out.0, put calls.temporary none out.1)
  | fails ↦ out
  | stops ↦ (halts, out.1)
]

-- `writeAtomic` from the sync of the written temporary file on. The deferred removal is made behind
-- the rename, too.
unfoldable pub put_in_place : WriteCalls → Bytes → File → Disk → End (Unit {0}) × Disk
put_in_place calls path file disk =
    let clean = remove_scratch calls in
    try_call calls.sync clean disk disk λ d. try_call calls.close clean d d λ d'.
      try_call calls.rename clean d' (put path (some file) (put calls.temporary none d'))
        λ e. clean (gives tt, e)

-- What the callback's end means for `writeAtomic`.
unfoldable pub after_write :
    WriteCalls → Bytes → File → End (Unit {0}) → Disk → End (Unit {0}) × Disk
after_write calls path file (gives _) disk = put_in_place calls path file disk
after_write calls path file errs disk = remove_scratch calls (errs, disk)
after_write calls path file halts disk = (halts, disk)

-- `writeAtomic`
unfoldable pub write_atomic : WriteCalls → Bytes → ℕ → Callback → Disk → End (Unit {0}) × Disk
write_atomic calls path mode callback disk =
    let clean = remove_scratch calls in
    try_call calls.create (λ out. out) disk (put calls.temporary (some (file_of 384 [])) disk)
      λ d. try_call calls.chmod clean d (put calls.temporary (some (file_of mode [])) d) λ d'.
        let (content, end) = write_all calls.writes 0 [] callback.chunks callback.ends_well in
        let file = file_of mode content in
        after_write calls path file end (put calls.temporary (some file) d')

-- `writeFileAtomic`
unfoldable pub write_file_atomic : WriteCalls → Bytes → ℕ → Bytes → Disk → End (Unit {0}) × Disk
write_file_atomic calls path mode content =
    write_atomic calls path mode (record { chunks = content ∷ []; ends_well = true })
