-- ===== src/Release.antt =====
-- cmd/package-release/main.go: the archives of a release and their checksums. The go command, the
-- encoders of package tar and package gzip, and SHA-256 are parameters. A directory that MkdirTemp
-- makes, with the binary in it, stands apart from the Disk.
pub mod Version
pub mod Environment
pub mod Write
pub mod Package
pub mod Atomic
pub mod Names
pub mod Packaged
pub mod Recorded
pub mod Released
use dhcp_lease_observer.Prelude.{
  ℕ, Bool, not, ◌||◌, Option, none, some, List, [], ◌∷◌, ◌++◌, sort_slice, ◌==◌, if◌then◌else◌,
}
use dhcp_lease_observer.Text.{Bytes, codes, bytes_eq, bytes_less}
use dhcp_lease_observer.Text.Space.{join_lines}
use dhcp_lease_observer.Text.Path.Relative.{is_local, clean_relative, join_relative}
use dhcp_lease_observer.AtomicFile.{Outcome, works, fails, stops, Callback}
use Version.{is_version}
use Write.{End, gives, errs, halts, WriteCalls, write_file_atomic}
use Package.{Archive, PackageCalls, Tree, read_file, package_one}

-- The calls of `buildRelease`.
pub record ReleaseCalls : Type 0 where
  pub environment : List Bytes
  pub license_read : Bool
  pub mkdir_all : Outcome
  pub round : Bytes → PackageCalls
  pub checksums : WriteCalls

abbrev pub architectures : List Bytes
architectures = codes "amd64" ∷ codes "arm64" ∷ []

abbrev pub checksums_path : Bytes → Bytes
checksums_path directory = join_relative directory (codes "checksums.txt")

abbrev pub checksums_text : List Bytes → Bytes
checksums_text lines = join_lines (sort_slice bytes_less lines) ++ codes "\n"

-- What follows the loop.
unfoldable pub write_checksums :
    WriteCalls → Bytes → End (List Bytes) × Tree → End (Unit {0}) × Tree
write_checksums calls output (gives lines, tree) =
    let (end, disk) =
      write_file_atomic calls (checksums_path output) 420 (checksums_text lines) tree.disk in
    (end, record tree { disk = disk })
write_checksums calls output (errs, tree) = (errs, tree)
write_checksums calls output (halts, tree) = (halts, tree)

abbrev pub invalid_input : Bytes → Bytes → Bool
invalid_input version output =
    not (is_version version) || not (is_local output) || not (clean_relative output == output)

-- The exit status by what `buildRelease` gives; none if the process stops.
abbrev pub exit_of_release : End (Unit {0}) × Tree → Option ℕ × Tree
exit_of_release (gives _, tree) = (some 0, tree)
exit_of_release (errs, tree) = (some 1, tree)
exit_of_release (halts, tree) = (none, tree)

module _ (sha256 : Bytes → Bytes) (encode : Archive → Callback) where
  -- The loop over the architectures, with the lines so far.
  unfoldable pub package_all :
      ReleaseCalls
      → Bytes
      → Bytes
      → Bytes
      → List Bytes
      → List Bytes
      → Tree
      → End (List Bytes) × Tree
  package_all calls license version output [] lines tree = (gives lines, tree)
  package_all calls license version output (architecture ∷ more) lines tree =
      let (end, tree') =
        package_one sha256 encode (calls.round architecture) calls.environment license version
          output architecture tree in
      elim end [
        | gives line ↦ package_all calls license version output more (lines ++ line ∷ []) tree'
        | errs ↦ (errs, tree')
        | halts ↦ (halts, tree')
      ]

  -- `buildRelease` behind the license.
  unfoldable pub package_release :
      ReleaseCalls → Bytes → Bytes → Bytes → Tree → End (Unit {0}) × Tree
  package_release calls license version output tree = elim calls.mkdir_all [
    | works ↦
        write_checksums calls.checksums output
          (package_all calls license version output architectures [] tree)
    | fails ↦ (errs, tree)
    | stops ↦ (halts, tree)
  ]

  -- `buildRelease`
  unfoldable pub build_release : ReleaseCalls → Bytes → Bytes → Tree → End (Unit {0}) × Tree
  build_release calls version output tree =
      if invalid_input version output
      then (errs, tree)
      else elim (read_file calls.license_read (codes "LICENSE") tree.disk) [
        | none ↦ (errs, tree)
        | some license ↦ package_release calls license version output tree
      ]

  -- `main` behind the flags, with the arguments that are left.
  unfoldable pub package_main : ReleaseCalls → Bytes → Bytes → List Bytes → Tree → Option ℕ × Tree
  package_main calls version output [] tree =
      if is_version version
      then exit_of_release (build_release calls version output tree)
      else (some 2, tree)
  package_main calls version output (argument ∷ arguments) tree = (some 2, tree)
