-- ===== src/Release/Names.antt =====
-- The files of a release have different paths.
use dhcp_lease_observer.Prelude.{
  ℕ, ◌≡◌, ◌≢◌, ◌∙◌, refl, sym, Bool, true, not, [], ◌∷◌, ◌++◌, arith, all, nat_beq, ne_of_eq_false,
}
use dhcp_lease_observer.Text.{Bytes, codes, bytes_eq, bytes_beq, is_alnum}
use dhcp_lease_observer.Text.Path.Relative.{is_name, join_relative, join_relative-name}
use dhcp_lease_observer.Release.Version.{is_version, is_version_byte}
use dhcp_lease_observer.Release.Version.Plain.{is_version-plain, all-append}
use dhcp_lease_observer.Release.Package.{archive_name, archive_path}
use dhcp_lease_observer.Release.{checksums_path}

abbrev not_slash : ℕ → Bool
not_slash c = not (nat_beq c b'/')

plain-not_slash : (s : Bytes) → all is_version_byte s ≡ true → all not_slash s ≡ true
unfolding is_version_byte is_alnum
plain-not_slash [] h = refl
plain-not_slash (c ∷ s) h = ground (arith, plain-not_slash s)

-- An architecture is plain, as a version is.
archive_name-is_name :
    (version architecture : Bytes)
    → is_version version ≡ true
    → all is_version_byte architecture ≡ true
    → is_name (archive_name version architecture) ≡ true
unfolding bytes_beq
archive_name-is_name version architecture v a =
    let p = all-append not_slash in
    let end = p architecture (codes ".tar.gz") (plain-not_slash architecture a) refl in
    let whole =
      p version (codes "_linux_" ++ (architecture ++ codes ".tar.gz"))
        (plain-not_slash version (is_version-plain version v)) end in
    rw whole refl

append-injective : (s a b : Bytes) → s ++ a ≡ s ++ b → a ≡ b
append-injective [] a b h = h
append-injective (c ∷ s) a b h = append-injective s a b (cc)

module _ (version output : Bytes) (v : is_version version ≡ true) where
  join_relative-injective :
      (a b : Bytes)
      → is_name a ≡ true
      → is_name b ≡ true
      → join_relative output a ≡ join_relative output b
      → a ≡ b
  join_relative-injective a b m n e =
      let (prefix, j) = join_relative-name output in
      append-injective prefix a b (sym (j a m) ∙ e ∙ j b n)

  amd64-is_name : is_name (archive_name version (codes "amd64")) ≡ true
  unfolding is_version_byte is_alnum
  amd64-is_name = archive_name-is_name version (codes "amd64") v refl

  arm64-is_name : is_name (archive_name version (codes "arm64")) ≡ true
  unfolding is_version_byte is_alnum
  arm64-is_name = archive_name-is_name version (codes "arm64") v refl

  checksums-is_name : is_name (codes "checksums.txt") ≡ true
  unfolding bytes_beq
  checksums-is_name = refl

  pub archives-ne :
      archive_path output version (codes "arm64") ≢ archive_path output version (codes "amd64")
  unfolding bytes_beq
  archives-ne e =
      let n = join_relative-injective _ _ arm64-is_name amd64-is_name e in
      let m =
        append-injective (codes "dhcp-lease-observer_") (version ++ codes "_linux_arm64.tar.gz")
          (version ++ codes "_linux_amd64.tar.gz") n in
      ne_of_eq_false (codes "_linux_arm64.tar.gz") (codes "_linux_amd64.tar.gz") refl
        (append-injective version _ _ m)

  pub amd64-ne-checksums : archive_path output version (codes "amd64") ≢ checksums_path output
  amd64-ne-checksums e = let n = join_relative-injective _ _ amd64-is_name checksums-is_name e in cc

  pub arm64-ne-checksums : archive_path output version (codes "arm64") ≢ checksums_path output
  arm64-ne-checksums e = let n = join_relative-injective _ _ arm64-is_name checksums-is_name e in cc
