-- ===== src/Release/Recorded.antt =====
-- What a release leaves: checksums.txt tells of the archives that stand beside it.
use dhcp_lease_observer.Prelude.{
  ◌≡◌, ◌≢◌, ◌∙◌, refl, sym, ap, inl, inr, true, Option, none, some, List, [], ◌∷◌, All,
}
use mathlib.Core.List.{append-nil}
use dhcp_lease_observer.Text.{Bytes, codes}
use dhcp_lease_observer.Files.{Disk}
use dhcp_lease_observer.AtomicFile.{Outcome, works, fails, stops, Callback, file_of}
use dhcp_lease_observer.Release.Version.{is_version}
use dhcp_lease_observer.Release.Write.{End, gives, errs, halts, write_file_atomic}
use dhcp_lease_observer.Release.Atomic.{IsPlaced, Placed, same, placed, write_atomic-IsPlaced}
use dhcp_lease_observer.Release.Names.{archives-ne, amd64-ne-checksums, arm64-ne-checksums}
use dhcp_lease_observer.Release.Packaged.{End-cases, IsArchived, IsPackaged, package_in-IsPackaged}
use dhcp_lease_observer.Release.Package.{
  Archive, Tree, archive_path, read_file, package_in, leave_directory, package_one,
}
use dhcp_lease_observer.Release.{
  ReleaseCalls, checksums_path, checksums_text, package_all, write_checksums,
}

abbrev amd64 : Bytes
amd64 = codes "amd64"

abbrev arm64 : Bytes
arm64 = codes "arm64"

module _ (sha256 : Bytes → Bytes) (encode : Archive → Callback) (calls : ReleaseCalls)
    (version output : Bytes) where
  -- No name that CreateTemp chooses is one of the release's.
  abbrev pub temporaries : List Bytes
  temporaries =
      (calls.round amd64).write.temporary
      ∷ (calls.round arm64).write.temporary
      ∷ calls.checksums.temporary
      ∷ []

  abbrev pub targets : List Bytes
  targets =
      archive_path output version amd64
      ∷ archive_path output version arm64
      ∷ checksums_path output
      ∷ []

  abbrev pub IsApart : Type 0
  IsApart = All (λ t. All (λ p. t ≢ p) targets) temporaries

  abbrev Archived : Bytes → Bytes → Bytes → Disk → Type 0
  Archived license architecture =
      IsArchived sha256 encode calls.environment license version output architecture
        (calls.round architecture)

  -- The archives stand, of one license, and checksums.txt holds their lines in order.
  pub record IsListed (before after : Disk) : Type 0 where
    pub license : Bytes
    pub amd_line : Bytes
    pub arm_line : Bytes
    pub licensed : read_file calls.license_read (codes "LICENSE") before ≡ some license
    pub amd_archived :
        IsArchived sha256 encode calls.environment license version output amd64
          (calls.round amd64)
          amd_line
          after
    pub arm_archived :
        IsArchived sha256 encode calls.environment license version output arm64
          (calls.round arm64)
          arm_line
          after
    pub listed :
        after (checksums_path output)
        ≡ some (file_of 420 (checksums_text (amd_line ∷ arm_line ∷ [])))

  pub data Recorded (before : Disk) (out : End (Unit {0}) × Tree) : Type 0 where
    kept :
        out.1.disk (checksums_path output) ≡ before (checksums_path output)
        → out.0 ≢ gives tt
        → Recorded before out
    recorded : out.0 ≢ errs → IsListed before out.1.disk → Recorded before out

  module _ (apart : IsApart) (license : Bytes) where
    -- One round of the loop, but for its directory.
    abbrev Round : Bytes → Tree → End Bytes × Tree → Type 0
    Round architecture tree out =
        IsPackaged sha256 encode calls.environment license version output architecture
          (calls.round architecture) tree.disk (out.0, out.1.disk)

    abbrev round : Bytes → Tree → End Bytes × Tree
    round architecture tree =
        package_one sha256 encode (calls.round architecture) calls.environment license version
          output architecture tree

    leave_directory-Round :
        (architecture : Bytes) (tree : Tree) (outcome : Outcome) (before made : List Bytes)
        (out : End Bytes × Disk)
        → IsPackaged sha256 encode calls.environment license version output architecture
            (calls.round architecture)
            tree.disk
            out
        → Round architecture tree (leave_directory outcome before made out)
    unfolding leave_directory
    leave_directory-Round architecture tree works before made (gives line, disk) p = p
    leave_directory-Round architecture tree fails before made (gives line, disk) p = p
    leave_directory-Round architecture tree stops before made (gives line, disk) p = record {
      others = p.others;
      archived = λ l e. absurd (cc);
    }
    leave_directory-Round architecture tree works before made (errs, disk) p = p
    leave_directory-Round architecture tree fails before made (errs, disk) p = p
    leave_directory-Round architecture tree stops before made (errs, disk) p = record {
      others = p.others;
      archived = λ l e. absurd (cc);
    }
    leave_directory-Round architecture tree outcome before made (halts, disk) p = p

    round-IsPackaged :
        (architecture : Bytes) (tree : Tree)
        → (calls.round architecture).write.temporary ≢ archive_path output version architecture
        → Round architecture tree (round architecture tree)
    unfolding package_one
    round-IsPackaged architecture tree a = by_directory (calls.round architecture).directory
      where
        by_directory :
            (d : Option Bytes)
            → Round architecture tree (elim d as (λ _. End Bytes × Tree) [
              | none ↦ (errs, tree)
              | some directory ↦
                  leave_directory
                    (calls.round architecture).remove_all
                    tree.directories
                    (directory ∷ tree.directories)
                    (package_in sha256 encode
                      (calls.round architecture)
                      calls.environment
                      directory
                      license
                      version
                      output
                      architecture
                      tree.disk)
            ])
        by_directory none = record { others = λ p h k. refl; archived = λ l e. absurd (cc) }
        by_directory (some directory) =
            leave_directory-Round architecture tree (calls.round architecture).remove_all
              tree.directories (directory ∷ tree.directories) _
              (package_in-IsPackaged sha256 encode calls.environment license version output
                architecture (calls.round architecture) a directory tree.disk)

    moved :
        {architecture line : Bytes} {before after : Disk}
        → after (archive_path output version architecture)
          ≡ before (archive_path output version architecture)
        → Archived license architecture line before
        → Archived license architecture line after
    moved e a = record {
      directory = a.directory;
      binary = a.binary;
      built = a.built;
      stands = e ∙ a.stands;
      told = a.told;
    }

    module _ (v : is_version version ≡ true) (before : Disk)
        (licensed : read_file calls.license_read (codes "LICENSE") before ≡ some license) where
      write_checksums-Recorded :
          (amd_line arm_line : Bytes) (tree : Tree)
          → tree.disk (checksums_path output) ≡ before (checksums_path output)
          → Archived license amd64 amd_line tree.disk
          → Archived license arm64 arm_line tree.disk
          → Recorded before
              (write_checksums calls.checksums output (gives (amd_line ∷ arm_line ∷ []), tree))
      unfolding write_checksums write_file_atomic
      write_checksums-Recorded amd_line arm_line tree k a b = by_target p.target
        where
          text : Bytes
          text = checksums_text (amd_line ∷ arm_line ∷ [])

          callback : Callback
          callback = record { chunks = text ∷ []; ends_well = true }

          out : End (Unit {0}) × Disk
          out = write_file_atomic calls.checksums (checksums_path output) 420 text tree.disk

          p : IsPlaced calls.checksums (checksums_path output) 420 callback tree.disk out
          p =
              write_atomic-IsPlaced calls.checksums (checksums_path output) 420 callback tree.disk
                apart.1.1.0.1.1.0

          by_target :
              Placed calls.checksums (checksums_path output) 420 callback tree.disk out
              → Recorded before (out.0, record tree { disk = out.1 })
          by_target (same e n) = kept (e ∙ k) n
          by_target (placed g c w) = recorded g (record {
            license = license;
            amd_line = amd_line;
            arm_line = arm_line;
            licensed = licensed;
            amd_archived =
                moved (p.others _ apart.1.1.0.0 (λ e. amd64-ne-checksums version output v (sym e)))
                  a;
            arm_archived =
                moved
                  (p.others _ apart.1.1.0.1.0 (λ e. arm64-ne-checksums version output v (sym e))) b;
            listed = c ∙ ap (λ x. some (file_of 420 x)) (append-nil text);
          })

      module _ (tree : Tree) (starts : tree.disk ≡ before) where
        abbrev first : End Bytes × Tree
        first = round amd64 tree

        abbrev second : End Bytes × Tree
        second = round arm64 first.1

        first-kept : first.1.disk (checksums_path output) ≡ before (checksums_path output)
        first-kept =
            (round-IsPackaged amd64 tree apart.0.0).others _ apart.0.1.1.0
              (amd64-ne-checksums version output v)
            ∙ ap (λ d. d (checksums_path output)) starts

        second-kept : second.1.disk (checksums_path output) ≡ before (checksums_path output)
        second-kept =
            (round-IsPackaged arm64 first.1 apart.1.0.1.0).others _ apart.1.0.1.1.0
              (arm64-ne-checksums version output v)
            ∙ first-kept

        pub package_all-Recorded : Recorded before (
            write_checksums calls.checksums output
              (package_all sha256 encode calls license version output (amd64 ∷ arm64 ∷ []) [] tree))
        unfolding package_all write_checksums
        package_all-Recorded = elim (End-cases first.0) [
          | inr (inl e) ↦ rw (e, package_all) (kept first-kept (λ h. cc))
          | inr (inr e) ↦ rw (e, package_all) (kept first-kept (λ h. cc))
          | inl (a, e) ↦ elim (End-cases second.0) [
            | inr (inl f) ↦ rw (e, f, package_all) (kept second-kept (λ h. cc))
            | inr (inr f) ↦ rw (e, f, package_all) (kept second-kept (λ h. cc))
            | inl (b, f) ↦
                let r = round-IsPackaged arm64 first.1 apart.1.0.1.0 in
                rw (e, f, package_all)
                  (write_checksums-Recorded a b second.1 second-kept
                    (moved (r.others _ apart.1.0.0 (archives-ne version output v))
                      ((round-IsPackaged amd64 tree apart.0.0).archived a e))
                    (r.archived b f))
          ]
        ]
