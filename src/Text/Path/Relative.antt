-- ===== src/Text/Path/Relative.antt =====
-- IsLocal, Clean and Join of package path/filepath for relative paths, on a system with `/`.
use dhcp_lease_observer.Prelude.{
  ℕ, ◌≡◌, ◌∙◌, refl, sym, ap, inl, inr, Bool, true, false, not, ◌&&◌, ◌||◌, List, [], ◌∷◌, ◌++◌,
  arith, nat_beq, ◌==◌, all, Bool-cases, if_rule, if◌then◌else◌,
}
use mathlib.Core.List.{append_assoc}
use dhcp_lease_observer.Text.{Bytes, codes, has_prefix, is_empty, bytes_eq}
use dhcp_lease_observer.Text.Path.{path_parts, push, is_abs}

-- A part `..` behind the parts so far, the last one first.
abbrev leave : List Bytes → List Bytes
leave [] = codes ".." ∷ []
leave (part ∷ parts) = if part == codes ".." then codes ".." ∷ part ∷ parts else parts

unfoldable pub walk : List Bytes → List Bytes → List Bytes
walk before [] = before
walk before (part ∷ parts) =
    if part == [] || part == codes "."
    then walk before parts
    else if part == codes ".."
    then walk (leave before) parts
    else walk (part ∷ before) parts

-- The parts, the last one first, with slashes between them.
unfoldable pub join_back : List Bytes → Bytes
join_back [] = []
join_back (part ∷ []) = part
join_back (part ∷ next ∷ parts) = join_back (next ∷ parts) ++ (b'/' ∷ part)

-- A path without parts is the directory itself.
unfoldable pub path_of : List Bytes → Bytes
path_of [] = codes "."
path_of (part ∷ parts) = join_back (part ∷ parts)

-- `filepath.Clean` of a relative path
unfoldable pub clean_relative : Bytes → Bytes
clean_relative path = path_of (walk [] (path_parts path))

-- `filepath.IsLocal`, whose shortcut for a path without `.` and `..` gives the same.
unfoldable pub is_local : Bytes → Bool
is_local path =
    let short = clean_relative path in
    not (is_empty path || is_abs path)
    && not (short == codes ".." || has_prefix short (codes "../"))

-- `filepath.Join(directory, name)` with a relative directory that is not empty
unfoldable pub join_relative : Bytes → Bytes → Bytes
join_relative directory name = clean_relative (directory ++ (b'/' ∷ name))

-- One part of a path that is not a step in the tree.
abbrev pub is_name : Bytes → Bool
is_name name =
    all (λ c. not (nat_beq c b'/')) name
    && not (name == [])
    && not (name == codes ".")
    && not (name == codes "..")

path_parts-name :
    (name : Bytes) → all (λ c. not (nat_beq c b'/')) name ≡ true → path_parts name ≡ name ∷ []
unfolding path_parts
path_parts-name [] h = refl
path_parts-name (c ∷ name) h =
    let f : nat_beq c b'/' ≡ false = ground arith in rw (f, path_parts-name name (rw f at h)) refl

push-append :
    (c : ℕ) (parts : List Bytes) (part : Bytes) (more : List Bytes)
    → push c ((part ∷ parts) ++ more) ≡ push c (part ∷ parts) ++ more
push-append c parts part more = refl

-- The parts of a path are at least one.
abbrev Given : List Bytes → Type 0
Given parts = (part : Bytes) × ((rest : List Bytes) × (parts ≡ part ∷ rest))

push-Given : (c : ℕ) (parts : List Bytes) → Given (push c parts)
push-Given c [] = (_, (_, refl))
push-Given c (part ∷ parts) = (_, (_, refl))

path_parts-Given : (path : Bytes) → Given (path_parts path)
unfolding path_parts
path_parts-Given [] = (_, (_, refl))
path_parts-Given (c ∷ path) =
    if_rule Given (nat_beq c b'/') (λ _. (_, (_, refl))) (λ _. push-Given c (path_parts path))

push-onto :
    (c : ℕ) (parts more : List Bytes) → Given parts → push c (parts ++ more) ≡ push c parts ++ more
push-onto c parts more (part, (rest, e)) = rw e refl

path_parts-append :
    (directory name : Bytes)
    → path_parts (directory ++ (b'/' ∷ name)) ≡ path_parts directory ++ path_parts name
unfolding path_parts
path_parts-append [] name = refl
path_parts-append (c ∷ directory) name = elim (Bool-cases (nat_beq c b'/')) [
  | inl t ↦ rw t (ap (◌∷◌ []) (path_parts-append directory name))
  | inr f ↦
      rw (f, path_parts-append directory name)
        (push-onto c (path_parts directory) (path_parts name) (path_parts-Given directory))
]

walk-append :
    (before parts more : List Bytes) → walk before (parts ++ more) ≡ walk (walk before parts) more
unfolding walk
walk-append before [] more = refl
walk-append before (part ∷ parts) more = elim (Bool-cases (part == [] || part == codes ".")) [
  | inl t ↦ rw t (walk-append before parts more)
  | inr f ↦ elim (Bool-cases (part == codes "..")) [
    | inl t ↦ rw (f, t) (walk-append (leave before) parts more)
    | inr n ↦ rw (f, n) (walk-append (part ∷ before) parts more)
  ]
]

-- What stands before a name in a directory.
abbrev before_name : List Bytes → Bytes
before_name [] = []
before_name (part ∷ parts) = join_back (part ∷ parts) ++ codes "/"

join_back-name :
    (name : Bytes) (parts : List Bytes) → join_back (name ∷ parts) ≡ before_name parts ++ name
unfolding join_back
join_back-name name [] = refl
join_back-name name (part ∷ parts) = sym (append_assoc (join_back (part ∷ parts)) (codes "/") name)

walk-name :
    (before : List Bytes) (name : Bytes)
    → is_name name ≡ true
    → walk before (name ∷ []) ≡ name ∷ before
unfolding walk
walk-name before name h = ground arith

-- A name in a directory stands behind one prefix, the same for every name.
pub join_relative-name :
    (directory : Bytes)
    → (prefix : Bytes) × ((name : Bytes)
        → is_name name ≡ true
        → join_relative directory name ≡ prefix ++ name)
unfolding join_relative clean_relative path_of
join_relative-name directory = (
  before_name (walk [] (path_parts directory)),
  λ name h.
      let w = walk [] (path_parts directory) in
      let e : walk [] (path_parts (directory ++ (b'/' ∷ name))) ≡ name ∷ w =
        ap (walk []) (
          path_parts-append directory name
          ∙ ap (λ x. path_parts directory ++ x) (path_parts-name name (ground arith)))
        ∙ walk-append [] (path_parts directory) (name ∷ [])
        ∙ walk-name w name h in
      ap path_of e ∙ join_back-name name w,
)
