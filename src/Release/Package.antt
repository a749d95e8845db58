-- ===== src/Release/Package.antt =====
-- One archive of a release: a round of the loop of buildRelease, buildBinary, writeArchive and
-- fileSHA256 of cmd/package-release/main.go.
use dhcp_lease_observer.Prelude.{
  ℕ, ◌/◌, ◌%◌, Bool, Option, none, some, List, [], ◌∷◌, ◌++◌, length, if◌then◌else◌,
}
use dhcp_lease_observer.Text.{Bytes, codes, bytes_eq}
use dhcp_lease_observer.Text.Path.{join_path}
use dhcp_lease_observer.Text.Path.Relative.{join_relative}
use dhcp_lease_observer.Files.{Disk}
use dhcp_lease_observer.Model.Mac.{hex_digit}
use dhcp_lease_observer.AtomicFile.{Outcome, works, fails, stops, Callback}
use dhcp_lease_observer.Release.Environment.{build_environment}
use dhcp_lease_observer.Release.Write.{End, gives, errs, halts, WriteCalls, write_atomic}

abbrev pub binary_name : Bytes
binary_name = codes "dhcp-lease-observer"

-- The kinds of a file in an archive and the forms of its header, as far as the program has them.
pub data TypeFlag : Type 0 where
  regular_file : TypeFlag

pub data HeaderFormat : Type 0 where
  pax : HeaderFormat

-- A `tar.Header` with the bytes of its file; the time is in seconds since 1970.
pub record ArchiveEntry : Type 0 where
  pub name : Bytes
  pub mode : ℕ
  pub size : ℕ
  pub modified : ℕ
  pub type_flag : TypeFlag
  pub format : HeaderFormat
  pub content : Bytes

-- What the encoders of package gzip and package tar are given: the gzip header and the entries.
pub record Archive : Type 0 where
  pub modified : ℕ
  pub system : ℕ
  pub entries : List ArchiveEntry

abbrev archive_entry : Bytes → ℕ → Bytes → ArchiveEntry
archive_entry name mode content = record {
  name = name;
  mode = mode;
  size = length content;
  modified = 0;
  type_flag = regular_file;
  format = pax;
  content = content;
}

-- The archive of `writeArchive`
abbrev pub archive_of : Bytes → Bytes → Archive
archive_of license binary = record {
  modified = 0;
  system = 255;
  entries = archive_entry (codes "LICENSE") 420 license ∷ archive_entry binary_name 493 binary ∷ [];
}

-- The arguments of the go command.
abbrev pub build_arguments : Bytes → Bytes → List Bytes
build_arguments version destination =
    codes "build"
    ∷ codes "-trimpath"
    ∷ codes "-ldflags"
    ∷ (codes "-s -w -buildid= -X main.version=" ++ version)
    ∷ codes "-o"
    ∷ destination
    ∷ codes "./cmd/dhcp-lease-observer"
    ∷ []

-- The calls for one architecture: the directory that MkdirTemp makes, the binary that the go
-- command leaves for its arguments and its environment, whether that is then read, the calls that
-- write the archive, whether that is then read, and the removal of the directory.
pub record PackageCalls : Type 0 where
  pub directory : Option Bytes
  pub go : List Bytes → List Bytes → Option Bytes
  pub binary_read : Bool
  pub write : WriteCalls
  pub archive_read : Bool
  pub remove_all : Outcome

-- The files, and the directories of MkdirTemp that stand.
pub record Tree : Type 0 where
  pub disk : Disk
  pub directories : List Bytes

abbrev pub archive_name : Bytes → Bytes → Bytes
archive_name version architecture =
    binary_name
    ++ (codes "_" ++ (version ++ (codes "_linux_" ++ (architecture ++ codes ".tar.gz"))))

abbrev pub archive_path : Bytes → Bytes → Bytes → Bytes
archive_path directory version architecture =
    join_relative directory (archive_name version architecture)

-- `fmt.Sprintf("%x", digest)`
unfoldable pub hex : Bytes → Bytes
hex [] = []
hex (b ∷ bytes) = hex_digit (b / 16) ∷ hex_digit (b % 16) ∷ hex bytes

abbrev pub checksum_line : Bytes → Bytes → Bytes
checksum_line digest name = hex digest ++ codes "  " ++ name

-- `os.ReadFile`
unfoldable pub read_file : Bool → Bytes → Disk → Option Bytes
read_file read path disk =
    if read then elim (disk path) [ none ↦ none | some f ↦ some f.content ] else none

-- The removal of a directory of MkdirTemp; its error is dropped, but the process may stop there.
abbrev pub remove_directory :
    Outcome → List Bytes → List Bytes → End Bytes × Disk → End Bytes × Tree
remove_directory works before made out = (out.0, record { disk = out.1; directories = before })
remove_directory fails before made out = (out.0, record { disk = out.1; directories = made })
remove_directory stops before made out = (halts, record { disk = out.1; directories = made })

-- The end of a round: the directory goes, unless the process has stopped.
unfoldable pub leave_directory :
    Outcome → List Bytes → List Bytes → End Bytes × Disk → End Bytes × Tree
leave_directory outcome before made (halts, disk) =
    (halts, record { disk = disk; directories = made })
leave_directory outcome before made (gives line, disk) =
    remove_directory outcome before made (gives line, disk)
leave_directory outcome before made (errs, disk) = remove_directory outcome before made (errs, disk)

module _ (sha256 : Bytes → Bytes) where
  -- `fileSHA256`
  unfoldable pub file_sha256 : Bool → Bytes → Disk → Option Bytes
  unfolding read_file
  file_sha256 read path disk = elim (read_file read path disk) [
    | none ↦ none
    | some content ↦ some (sha256 content)
  ]

  -- What follows `writeArchive`.
  unfoldable pub digest_archive : Bool → Bytes → Bytes → End (Unit {0}) × Disk → End Bytes × Disk
  digest_archive read path name (gives _, disk) = elim (file_sha256 read path disk) [
    | none ↦ (errs, disk)
    | some digest ↦ (gives (checksum_line digest name), disk)
  ]
  digest_archive read path name (errs, disk) = (errs, disk)
  digest_archive read path name (halts, disk) = (halts, disk)

module _ (encode : Archive → Callback) where
  -- `writeArchive` behind the read of the binary.
  unfoldable pub write_archive : WriteCalls → Bytes → Bytes → Bytes → Disk → End (Unit {0}) × Disk
  write_archive calls path binary license disk =
      write_atomic calls path 420 (encode (archive_of license binary)) disk

module _ (sha256 : Bytes → Bytes) (encode : Archive → Callback) where
  -- One round of the loop, in its directory.
  unfoldable pub package_in :
      PackageCalls → List Bytes → Bytes → Bytes → Bytes → Bytes → Bytes → Disk → End Bytes × Disk
  package_in calls environment directory license version output architecture disk =
      let path = archive_path output version architecture in
      elim (calls.go (build_arguments version (join_path directory binary_name))
        (build_environment environment architecture)) [
          | none ↦ (errs, disk)
          | some binary ↦
              if calls.binary_read
              then digest_archive sha256 calls.archive_read path (archive_name version architecture)
                  (write_archive encode calls.write path binary license disk)
              else (errs, disk)
        ]

  -- One round of the loop.
  unfoldable pub package_one :
      PackageCalls → List Bytes → Bytes → Bytes → Bytes → Bytes → Tree → End Bytes × Tree
  package_one calls environment license version output architecture tree = elim calls.directory [
    | none ↦ (errs, tree)
    | some directory ↦
        leave_directory calls.remove_all tree.directories (directory ∷ tree.directories)
          (package_in calls environment directory license version output architecture tree.disk)
  ]
