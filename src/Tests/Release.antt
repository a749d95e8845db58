-- ===== src/Tests/Release.antt =====
-- A release of two archives.
use dhcp_lease_observer.Prelude.{
  ℕ, ◌≡◌, ◌↔◌, refl, true, false, Option, none, some, List, [], ◌∷◌, ◌++◌, ne_of_eq_false, seen,
  insert_sorted, sort_slice,
}
use dhcp_lease_observer.Text
use dhcp_lease_observer.Text.{Bytes, codes, bytes_eq, bytes_beq, bytes_less, is_digit, is_alnum}
use dhcp_lease_observer.Text.Space.{join_lines}
use dhcp_lease_observer.Text.Path.{path_parts, join_path, clean, resolve, enter, join_parts, is_abs}
use dhcp_lease_observer.Text.Path.Relative.{
  walk, join_back, path_of, clean_relative, is_local, join_relative,
}
use dhcp_lease_observer.Files.{put}
use dhcp_lease_observer.Model.Mac.{hex_digit}
use dhcp_lease_observer.AtomicFile.{works, Callback, file_of}
use dhcp_lease_observer.App.Flags.{cut_equals}
use dhcp_lease_observer.Release.Version.{
  is_version, literal_then, digits_then, skip_digits, is_suffix, is_version_byte, IsVersion,
  is_version_iff,
}
use dhcp_lease_observer.Release.Environment.{
  build_environment, filtered_environment, IsTargeted, build_environment-IsTargeted,
}
use dhcp_lease_observer.Release.Write.{
  WriteCalls, write_atomic, write_file_atomic, write_all, write_chunk, after_write, put_in_place,
  remove_scratch,
}
use dhcp_lease_observer.Release.Recorded.{IsApart}
use dhcp_lease_observer.Release.Released.{Released, package_main-Released}
use dhcp_lease_observer.Release.Package.{
  Archive, ArchiveEntry, Tree, hex, read_file, file_sha256, digest_archive, write_archive,
  package_in, leave_directory, package_one,
}
use dhcp_lease_observer.Release.{
  ReleaseCalls, package_all, write_checksums, package_release, build_release, package_main,
}
use dhcp_lease_observer.Tests.Samples.{checksum}

abbrev environment : List Bytes
environment = codes "GOARCH=mips" ∷ codes "HOME=/root" ∷ codes "GOARCH=" ∷ []

build_environment-IsTargeted_example :
    IsTargeted (codes "arm64") environment (build_environment environment (codes "arm64"))
build_environment-IsTargeted_example = build_environment-IsTargeted environment (codes "arm64")

is_version_iff_example :
    (is_version (codes "v1.20.3-rc.1") ≡ true) ↔ IsVersion (codes "v1.20.3-rc.1")
is_version_iff_example = is_version_iff (codes "v1.20.3-rc.1")

-- An encoder that writes the names and the contents one after the other.
abbrev parts : List ArchiveEntry → List Bytes
parts [] = []
parts (e ∷ entries) = e.name ∷ e.content ∷ parts entries

abbrev encode : Archive → Callback
encode archive = record { chunks = parts archive.entries; ends_well = true }

abbrev writes : Bytes → WriteCalls
writes name = record {
  temporary = codes "dist/.release-" ++ name;
  create = works;
  chmod = works;
  writes = λ _. record { accepts = 0; outcome = works };
  sync = works;
  close = works;
  rename = works;
  remove = works;
}

abbrev calls : ReleaseCalls
calls = record {
  environment = environment;
  license_read = true;
  mkdir_all = works;
  round = λ architecture. record {
    directory = some (codes "/tmp/release");
    go = λ arguments environment. some architecture;
    binary_read = true;
    write = writes architecture;
    archive_read = true;
    remove_all = works;
  };
  checksums = writes (codes "checksums");
}

abbrev version : Bytes
version = codes "v0.1.0"

abbrev output : Bytes
output = codes "dist"

abbrev tree : Tree
tree = record {
  disk = put (codes "LICENSE") (some (file_of 420 (codes "MIT"))) (λ _. none);
  directories = [];
}

abbrev sha256 : Bytes → Bytes
sha256 content = checksum [] content

-- What the paths of a release compute with.
unfoldable pub paths_of : Bytes → Bytes
unfolding path_parts walk join_back path_of clean_relative join_relative bytes_beq
paths_of name = join_relative output name

ends_apart : IsApart sha256 encode calls version output
unfolding paths_of
ends_apart =
    let differ = λ (a b : Bytes) (h : bytes_beq a b ≡ false). ne_of_eq_false a b h in
    (
      (differ _ _ refl, (differ _ _ refl, (differ _ _ refl, tt))),
      (
        (differ _ _ refl, (differ _ _ refl, (differ _ _ refl, tt))),
        ((differ _ _ refl, (differ _ _ refl, (differ _ _ refl, tt))), tt),
      ),
    )

package_main-Released_example :
    Released sha256 encode calls version output tree
      (package_main sha256 encode calls version output [] tree)
package_main-Released_example =
    package_main-Released sha256 encode calls version output tree ends_apart []

-- What a release computes with.
release_of : ReleaseCalls → Option ℕ × Tree
unfolding paths_of package_main build_release package_release package_all package_one package_in
    write_archive file_sha256 digest_archive leave_directory write_checksums read_file hex hex_digit
    is_version literal_then digits_then skip_digits is_suffix is_version_byte is_digit is_alnum
    is_local is_abs Text.has_prefix write_atomic write_file_atomic write_all write_chunk after_write
    put_in_place remove_scratch put insert_sorted sort_slice bytes_less join_lines build_environment
    filtered_environment seen cut_equals join_path clean resolve enter join_parts
release_of c = package_main sha256 encode c version output [] tree

released : (package_main sha256 encode calls version output [] tree).0 ≡ some 0
unfolding release_of
released = refl

cleared : (package_main sha256 encode calls version output [] tree).1.directories ≡ []
unfolding release_of
cleared = refl
