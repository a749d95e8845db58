-- ===== src/SafeFile.antt =====
-- `OpenRegular` of internal/safefile/open_unix.go. The descriptor that open gives is not negative, so
-- os.NewFile does not return nil; the limit of a size is not negative at any call.
use Prim.Native.Nat.{bit_and}
use dhcp_lease_observer.Prelude.{
  ℕ, Bool, true, false, not, ◌||◌, none, some, Result, ok, err, ltb, nat_beq, length, if◌then◌else◌,
}
use dhcp_lease_observer.Text.{Bytes, is_empty}
use dhcp_lease_observer.Files.{File, FileKind, regular, symlink, Disk}

pub data OpenError : Type 0 where
  unsafe_file not_exist open_failed stat_failed : OpenError

-- Whether the system refuses to open a file, to give its state, or to read from it.
pub record OpenCalls : Type 0 where
  pub open_fails : Bool
  pub stat_fails : Bool
  pub read_fails : Bool

abbrev pub is_regular : FileKind → Bool
is_regular regular = true
is_regular _ = false

abbrev pub is_symlink : FileKind → Bool
is_symlink symlink = true
is_symlink _ = false

-- The checks behind open; O_NOFOLLOW refuses a symlink.
unfoldable pub check_file : OpenCalls → ℕ → ℕ → File → Result OpenError Bytes
check_file calls forbidden max_bytes f =
    if is_symlink f.kind
    then err unsafe_file
    else if calls.stat_fails
    then err stat_failed
    else if not (is_regular f.kind)
        || not (nat_beq (bit_and f.mode forbidden) 0)
        || ltb max_bytes (length f.content)
    then err unsafe_file
    else ok f.content

-- `OpenRegular`; the file that it gives is what can be read from it.
unfoldable pub open_regular : OpenCalls → Disk → Bytes → ℕ → ℕ → Result OpenError Bytes
unfolding check_file
open_regular calls disk path forbidden max_bytes =
    if is_empty path
    then err unsafe_file
    else if calls.open_fails
    then err open_failed
    else elim (disk path) [ none ↦ err not_exist | some f ↦ check_file calls forbidden max_bytes f ]
