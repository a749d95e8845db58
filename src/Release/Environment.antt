-- ===== src/Release/Environment.antt =====
-- The environment of the go command: filteredEnvironment and buildBinary of
-- cmd/package-release/main.go.
use dhcp_lease_observer.Prelude.{
  ◌≡◌, ◌∙◌, refl, ap, ap₂, inl, inr, true, false, List, [], ◌∷◌, ◌++◌, ◌==◌, eq_false, seen,
  Bool-cases, if◌then◌else◌,
}
use mathlib.Core.List.{append-nil}
use dhcp_lease_observer.Text.{Bytes, codes, bytes_eq, bytes_beq}
use dhcp_lease_observer.App.Flags.{cut_equals}

-- `strings.Cut(entry, "=")`: the name.
abbrev pub name_of : Bytes → Bytes
name_of entry = (cut_equals entry).0

-- `filteredEnvironment`
unfoldable pub filtered_environment : List Bytes → List Bytes → List Bytes
filtered_environment [] names = []
filtered_environment (entry ∷ environment) names =
    let rest = filtered_environment environment names in
    if seen (name_of entry) names then rest else entry ∷ rest

abbrev pub target_names : List Bytes
target_names = codes "GOOS" ∷ codes "GOARCH" ∷ codes "CGO_ENABLED" ∷ []

-- `command.Env`
unfoldable pub build_environment : List Bytes → Bytes → List Bytes
build_environment environment architecture =
    filtered_environment environment target_names
    ++ codes "GOOS=linux" ∷ (codes "GOARCH=" ++ architecture) ∷ codes "CGO_ENABLED=0" ∷ []

-- The entries of a name, in order.
unfoldable pub entries_of : Bytes → List Bytes → List Bytes
entries_of name [] = []
entries_of name (entry ∷ environment) =
    let rest = entries_of name environment in if name_of entry == name then entry ∷ rest else rest

entries_of-append :
    (name : Bytes) (xs ys : List Bytes)
    → entries_of name (xs ++ ys) ≡ entries_of name xs ++ entries_of name ys
unfolding entries_of
entries_of-append name [] ys = refl
entries_of-append name (x ∷ xs) ys = elim (Bool-cases (name_of x == name)) [
  | inl t ↦ rw t (ap (◌∷◌ x) (entries_of-append name xs ys))
  | inr f ↦ rw f (entries_of-append name xs ys)
]

entries_of-filtered :
    (name : Bytes) (environment names : List Bytes)
    → seen name names ≡ true
    → entries_of name (filtered_environment environment names) ≡ []
unfolding entries_of filtered_environment
entries_of-filtered name [] names h = refl
entries_of-filtered name (x ∷ xs) names h = elim (Bool-cases (seen (name_of x) names)) [
  | inl t ↦ rw t (entries_of-filtered name xs names h)
  | inr f ↦ rw (f, other x f) (entries_of-filtered name xs names h)
]
  where
    other : (x : Bytes) → seen (name_of x) names ≡ false → (name_of x == name) ≡ false
    other x f = eq_false (name_of x) name (λ e. cc (ap (λ n. seen n names) e, f, h))

entries_of-kept :
    (name : Bytes) (environment names : List Bytes)
    → seen name names ≡ false
    → entries_of name (filtered_environment environment names) ≡ entries_of name environment
unfolding entries_of filtered_environment
entries_of-kept name [] names h = refl
entries_of-kept name (x ∷ xs) names h = elim (Bool-cases (seen (name_of x) names)) [
  | inl t ↦ rw (t, other x t) (entries_of-kept name xs names h)
  | inr f ↦ elim (Bool-cases (name_of x == name)) [
    | inl e ↦ rw (f, e) (ap (◌∷◌ x) (entries_of-kept name xs names h))
    | inr e ↦ rw (f, e) (entries_of-kept name xs names h)
  ]
]
  where
    other : (x : Bytes) → seen (name_of x) names ≡ true → (name_of x == name) ≡ false
    other x t = eq_false (name_of x) name (λ e. cc (ap (λ n. seen n names) e, t, h))

abbrev settings : Bytes → List Bytes
settings architecture =
    codes "GOOS=linux" ∷ (codes "GOARCH=" ++ architecture) ∷ codes "CGO_ENABLED=0" ∷ []

other_entries :
    (name architecture : Bytes)
    → seen name target_names ≡ false
    → entries_of name (settings architecture) ≡ []
unfolding entries_of cut_equals bytes_beq seen
other_entries name architecture h =
    rw
      (
        differs (codes "GOOS") refl,
        differs (codes "GOARCH") refl,
        differs (codes "CGO_ENABLED") refl,
      )
      refl
  where
    differs : (n : Bytes) → seen n target_names ≡ true → (n == name) ≡ false
    differs n t = eq_false n name (λ e. cc (ap (λ x. seen x target_names) e, t, h))

filtered_then :
    (name architecture : Bytes) (environment : List Bytes) {entries : List Bytes}
    → seen name target_names ≡ true
    → entries_of name (settings architecture) ≡ entries
    → entries_of name (build_environment environment architecture) ≡ entries
unfolding build_environment
filtered_then name architecture environment t e =
    entries_of-append name (filtered_environment environment target_names) (settings architecture)
    ∙ rw (entries_of-filtered name environment target_names t) e

-- The go command builds for linux, the architecture asked for and without cgo, and finds all else
-- as it was.
pub record IsTargeted (architecture : Bytes) (before after : List Bytes) : Type 0 where
  pub system : entries_of (codes "GOOS") after ≡ codes "GOOS=linux" ∷ []
  pub processor : entries_of (codes "GOARCH") after ≡ (codes "GOARCH=" ++ architecture) ∷ []
  pub cgo : entries_of (codes "CGO_ENABLED") after ≡ codes "CGO_ENABLED=0" ∷ []
  pub others :
      (name : Bytes)
      → seen name target_names ≡ false
      → entries_of name after ≡ entries_of name before

-- Whatever the environment holds, even these names several times, the go command sees one entry for
-- each of GOOS, GOARCH and CGO_ENABLED, with linux, the architecture and 0, and the entries of every
-- other name as they were, in their order.
pub build_environment-IsTargeted :
    (environment : List Bytes) (architecture : Bytes)
    → IsTargeted architecture environment (build_environment environment architecture)
unfolding build_environment entries_of cut_equals bytes_beq seen
build_environment-IsTargeted environment architecture = record {
  system = filtered_then (codes "GOOS") architecture environment refl refl;
  processor = filtered_then (codes "GOARCH") architecture environment refl refl;
  cgo = filtered_then (codes "CGO_ENABLED") architecture environment refl refl;
  others = λ name h.
      entries_of-append name (filtered_environment environment target_names) (settings architecture)
      ∙ ap₂ (λ x y. x ++ y) (entries_of-kept name environment target_names h)
          (other_entries name architecture h)
      ∙ append-nil (entries_of name environment);
}
