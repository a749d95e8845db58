-- ===== src/Release/Released.antt =====
-- The whole of a release: main of cmd/package-release/main.go behind its flags.
use dhcp_lease_observer.Prelude.{
  ℕ, ◌≡◌, ◌≢◌, ◌⊎◌, refl, inl, inr, true, Option, none, some, List, [], ◌∷◌, arith, Bool-cases,
  Option-cases, if_rule,
}
use dhcp_lease_observer.Text.{Bytes, codes, bytes_eq}
use dhcp_lease_observer.Text.Path.Relative.{is_local}
use dhcp_lease_observer.AtomicFile.{Outcome, works, fails, stops, Callback}
use dhcp_lease_observer.Release.Version.{is_version}
use dhcp_lease_observer.Release.Write.{End, gives, errs, halts}
use dhcp_lease_observer.Release.Recorded.{
  IsApart, IsListed, Recorded, kept, recorded, package_all-Recorded,
}
use dhcp_lease_observer.Release.Package.{Archive, Tree, read_file}
use dhcp_lease_observer.Release.{
  ReleaseCalls, architectures, checksums_path, package_all, write_checksums, package_release,
  invalid_input, build_release, exit_of_release, package_main,
}

module _ (sha256 : Bytes → Bytes) (encode : Archive → Callback) (calls : ReleaseCalls)
    (version output : Bytes) (tree : Tree) where
  abbrev Good : End (Unit {0}) × Tree → Type 0
  Good = Recorded sha256 encode calls version output tree.disk

  -- The exit status is not 0 and checksums.txt is as before, or it is 0, or none of a process that
  -- stopped, and the release is listed.
  pub data Released (out : Option ℕ × Tree) : Type 0 where
    unlisted :
        out.1.disk (checksums_path output) ≡ tree.disk (checksums_path output)
        → out.0 ≢ some 0
        → Released out
    released :
        (out.0 ≡ some 0) ⊎ (out.0 ≡ none)
        → is_local output ≡ true
        → IsListed sha256 encode calls version output tree.disk out.1.disk
        → Released out

  exit_of_release-Released :
      (out : End (Unit {0}) × Tree)
      → (out.0 ≢ errs → is_local output ≡ true)
      → Good out
      → Released (exit_of_release out)
  exit_of_release-Released (gives tt, t) l (kept e n) = absurd (n refl)
  exit_of_release-Released (gives tt, t) l (recorded e r) = released (inl refl) (l (λ h. cc)) r
  exit_of_release-Released (errs, t) l (kept e n) = unlisted e (λ h. cc)
  exit_of_release-Released (errs, t) l (recorded e r) = absurd (e refl)
  exit_of_release-Released (halts, t) l (kept e n) = unlisted e (λ h. cc)
  exit_of_release-Released (halts, t) l (recorded e r) = released (inr refl) (l (λ h. cc)) r

  unchanged-Good : Good (errs, tree)
  unchanged-Good = kept refl (λ h. cc)

  module _ (apart : IsApart sha256 encode calls version output) where
    package_release-Recorded :
        (license : Bytes)
        → is_version version ≡ true
        → read_file calls.license_read (codes "LICENSE") tree.disk ≡ some license
        → Good (package_release sha256 encode calls license version output tree)
    unfolding package_release
    package_release-Recorded license v r = by_outcome calls.mkdir_all
      where
        by_outcome :
            (o : Outcome)
            → Good (elim o as (λ _. End (Unit {0}) × Tree) [
              | works ↦
                  write_checksums calls.checksums output
                    (package_all sha256 encode calls license version output architectures [] tree)
              | fails ↦ (errs, tree)
              | stops ↦ (halts, tree)
            ])
        by_outcome works =
            package_all-Recorded sha256 encode calls version output apart license v tree.disk r tree
              refl
        by_outcome fails = unchanged-Good
        by_outcome stops = kept refl (λ h. cc)

    build_release-Recorded :
        is_version version ≡ true → Good (build_release sha256 encode calls version output tree)
    unfolding build_release
    build_release-Recorded v =
        if_rule Good (invalid_input version output) (λ _. unchanged-Good)
          (λ _. elim (Option-cases (read_file calls.license_read (codes "LICENSE") tree.disk)) [
            | inl n ↦ rw n unchanged-Good
            | inr (license, r) ↦ rw r (package_release-Recorded license v r)
          ])

    build_release-is_local :
        (build_release sha256 encode calls version output tree).0 ≢ errs → is_local output ≡ true
    unfolding build_release
    build_release-is_local h = elim (Bool-cases (is_local output)) [
      | inl l ↦ l
      | inr f ↦ absurd (h (ground (arith, f)))
    ]

    -- With names of CreateTemp that are none of the release's: whatever the calls do, and wherever
    -- the process stops, checksums.txt is as it was and the exit status is not 0, or the exit status
    -- is 0 or the process has stopped, and the release is complete: both archives stand whole in the
    -- local directory, each made of the license and of the binary that the go command left for its
    -- architecture, and checksums.txt holds just their two lines, each with the digest of the archive
    -- that stands there and with its name.
    pub package_main-Released :
        (arguments : List Bytes)
        → Released (package_main sha256 encode calls version output arguments tree)
    unfolding package_main
    package_main-Released (a ∷ arguments) = unlisted refl (λ h. cc)
    package_main-Released [] = elim (Bool-cases (is_version version)) [
      | inr f ↦ rw (f, package_main) (unlisted refl (λ h. cc))
      | inl v ↦
          rw (v, package_main)
            (exit_of_release-Released _ build_release-is_local (build_release-Recorded v))
    ]
