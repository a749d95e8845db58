-- ===== src/Release/Packaged.antt =====
-- One archive of a release, and the line that tells of it.
use dhcp_lease_observer.Prelude.{
  ◌≡◌, ◌≢◌, ◌⊎◌, ◌∙◌, refl, sym, ap, subst, inl, inr, Bool, some, List, arith, Bool-cases,
  Option-cases, if_rule,
}
use dhcp_lease_observer.Text.{Bytes, bytes_eq}
use dhcp_lease_observer.Text.Path.{join_path}
use dhcp_lease_observer.Files.{Disk}
use dhcp_lease_observer.AtomicFile.{Callback, file_of}
use dhcp_lease_observer.AtomicFile.Limit.{join}
use dhcp_lease_observer.Release.Environment.{build_environment}
use dhcp_lease_observer.Release.Write.{End, gives, errs, halts}
use dhcp_lease_observer.Release.Atomic.{Placed, same, placed, write_atomic-IsPlaced}
use dhcp_lease_observer.Release.Package.{
  Archive, archive_of, binary_name, build_arguments, PackageCalls, archive_name, archive_path,
  checksum_line, read_file, file_sha256, digest_archive, write_archive, package_in,
}

pub End-cases {ℓ} :
    {A : Type ℓ} (e : End A) → ((a : A) × (e ≡ gives a)) ⊎ ((e ≡ errs) ⊎ (e ≡ halts))
End-cases (gives a) = inl (a, refl)
End-cases errs = inr (inl refl)
End-cases halts = inr (inr refl)

module _ (sha256 : Bytes → Bytes) (encode : Archive → Callback) where
  -- What an archive holds.
  abbrev pub archive_content : Bytes → Bytes → Bytes
  archive_content license binary = join (encode (archive_of license binary)).chunks

  module _ (environment : List Bytes) (license version output architecture : Bytes)
      (calls : PackageCalls) where
    abbrev path : Bytes
    path = archive_path output version architecture

    -- The archive of an architecture is whole, and made of the license and the binary that the go
    -- command has left for the version and the architecture; the line tells its digest and name.
    pub record IsArchived (line : Bytes) (disk : Disk) : Type 0 where
      pub directory : Bytes
      pub binary : Bytes
      pub built :
          calls.go
            (build_arguments version (join_path directory binary_name))
            (build_environment environment architecture)
          ≡ some binary
      pub stands : disk path ≡ some (file_of 420 (archive_content license binary))
      pub told :
          line
          ≡ checksum_line
              (sha256 (archive_content license binary))
              (archive_name version architecture)

    -- No file changes but the archive and the temporary one.
    pub record IsPackaged (before : Disk) (out : End Bytes × Disk) : Type 0 where
      pub others : (p : Bytes) → calls.write.temporary ≢ p → path ≢ p → out.1 p ≡ before p
      pub archived : (line : Bytes) → out.0 ≡ gives line → IsArchived line out.1

    unchanged-IsPackaged :
        (disk : Disk) (end : End Bytes)
        → ((line : Bytes) → end ≢ gives line)
        → IsPackaged disk (end, disk)
    unchanged-IsPackaged disk end n = record {
      others = λ p h k. refl;
      archived = λ line e. absurd (n line e);
    }

    file_sha256-known :
        (read : Bool) (p content digest : Bytes) (disk : Disk)
        → disk p ≡ some (file_of 420 content)
        → file_sha256 sha256 read p disk ≡ some digest
        → digest ≡ sha256 content
    unfolding file_sha256 read_file
    file_sha256-known read p content digest disk e h = elim (Bool-cases read) [
      | inr f ↦ absurd (ground (arith, f))
      | inl t ↦ cc (rw (t, e, file_sha256, read_file) at h)
    ]

    digest-line :
        (read : Bool) (binary line : Bytes) (disk : Disk)
        → disk path ≡ some (file_of 420 (archive_content license binary))
        → (digest_archive sha256 read path (archive_name version architecture) (gives tt, disk)).0
          ≡ gives line
        → line
          ≡ checksum_line
              (sha256 (archive_content license binary))
              (archive_name version architecture)
    unfolding digest_archive
    digest-line read binary line disk e h =
        elim (Option-cases (file_sha256 sha256 read path disk)) [
          | inl n ↦ absurd (ground (arith, n))
          | inr (digest, s) ↦
              let d = file_sha256-known read path _ digest disk e s in
              let l : checksum_line digest (archive_name version architecture) ≡ line =
                cc (rw (s, digest_archive) at h) in
              sym l ∙ ap (λ x. checksum_line x (archive_name version architecture)) d
        ]

    digest-disk :
        (read : Bool) (name : Bytes) (out : End (Unit {0}) × Disk)
        → (digest_archive sha256 read path name out).1 ≡ out.1
    unfolding digest_archive
    digest-disk read name (gives tt, disk) =
        elim (Option-cases (file_sha256 sha256 read path disk)) [
          | inl n ↦ rw (n, digest_archive) refl
          | inr (digest, s) ↦ rw (s, digest_archive) refl
        ]
    digest-disk read name (errs, disk) = refl
    digest-disk read name (halts, disk) = refl

    digest_archive-IsArchived :
        (directory binary line : Bytes) (read : Bool) (before : Disk) (out : End (Unit {0}) × Disk)
        → calls.go
            (build_arguments version (join_path directory binary_name))
            (build_environment environment architecture)
          ≡ some binary
        → Placed calls.write path 420 (encode (archive_of license binary)) before out
        → (digest_archive sha256 read path (archive_name version architecture) out).0 ≡ gives line
        → IsArchived line out.1
    unfolding digest_archive
    digest_archive-IsArchived directory binary line read before (gives tt, disk) g (placed e c w)
          h =
        record {
          directory = directory;
          binary = binary;
          built = g;
          stands = c;
          told = digest-line read binary line disk c h;
        }
    digest_archive-IsArchived directory binary line read before (gives tt, disk) g (same e n) h =
        absurd (n refl)
    digest_archive-IsArchived directory binary line read before (errs, disk) g t h = absurd (cc)
    digest_archive-IsArchived directory binary line read before (halts, disk) g t h = absurd (cc)

    module _ (apart : calls.write.temporary ≢ path) where
      pub package_in-IsPackaged :
          (directory : Bytes) (disk : Disk)
          → IsPackaged disk (
              package_in sha256 encode calls environment directory license version output
                architecture disk)
      unfolding package_in write_archive
      package_in-IsPackaged directory disk =
          let build = build_arguments version (join_path directory binary_name) in
          elim (Option-cases (calls.go build (build_environment environment architecture))) [
            | inl n ↦ rw (n, package_in) (unchanged-IsPackaged disk errs (λ l e. cc))
            | inr (binary, g) ↦
                rw (g, package_in)
                  (if_rule (IsPackaged disk) calls.binary_read
                    (λ _. packaged directory binary disk g)
                    (λ _. unchanged-IsPackaged disk errs (λ l e. cc)))
          ]
        where
          packaged :
              (directory binary : Bytes) (disk : Disk)
              → calls.go
                  (build_arguments version (join_path directory binary_name))
                  (build_environment environment architecture)
                ≡ some binary
              → IsPackaged disk (
                  digest_archive sha256 calls.archive_read path
                    (archive_name version architecture)
                    (write_archive encode calls.write path binary license disk))
          packaged directory binary disk g =
              let out = write_archive encode calls.write path binary license disk in
              let archive = archive_of license binary in
              let p = write_atomic-IsPlaced calls.write path 420 (encode archive) disk apart in
              let e = digest-disk calls.archive_read (archive_name version architecture) out in
              record {
                others = λ q h k. ap (λ d. d q) e ∙ p.others q h k;
                archived = λ line h. subst (IsArchived line) (sym e) (
                    digest_archive-IsArchived directory binary line calls.archive_read disk out g
                      p.target h);
              }
