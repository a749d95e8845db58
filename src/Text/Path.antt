-- ===== src/Text/Path.antt =====
-- The functions of package path/filepath that the program calls, on a system with `/`. Clean and
-- Join are written out for absolute paths, which is where they are called.
pub mod Relative
use dhcp_lease_observer.Prelude.{
  ℕ, Bool, ◌&&◌, ◌||◌, List, [], ◌∷◌, ◌++◌, drop, reverse, nat_beq, ◌==◌, if◌then◌else◌,
}
use dhcp_lease_observer.Text.{Bytes, codes, has_prefix, bytes_eq}

abbrev pub push : ℕ → List Bytes → List Bytes
push c [] = (c ∷ []) ∷ []
push c (part ∷ parts) = (c ∷ part) ∷ parts

-- What stands between the slashes.
unfoldable pub path_parts : Bytes → List Bytes
path_parts [] = [] ∷ []
path_parts (c ∷ path) =
    let parts = path_parts path in if nat_beq c b'/' then [] ∷ parts else push c parts

-- The parts so far, the last one first, and the next one.
unfoldable pub enter : List Bytes → Bytes → List Bytes
enter parts part =
    if part == [] || part == codes "."
    then parts
    else if part == codes ".."
    then drop 1 parts
    else part ∷ parts

unfoldable pub resolve : List Bytes → List Bytes → List Bytes
resolve before [] = reverse before
resolve before (part ∷ parts) = resolve (enter before part) parts

unfoldable pub join_parts : List Bytes → Bytes
join_parts [] = []
join_parts (part ∷ parts) = b'/' ∷ (part ++ join_parts parts)

-- `filepath.Clean` of an absolute path
unfoldable pub clean : Bytes → Bytes
clean path = elim (resolve [] (path_parts path)) [
  | [] ↦ codes "/"
  | part ∷ parts ↦ join_parts (part ∷ parts)
]

-- `filepath.IsAbs`
unfoldable pub is_abs : Bytes → Bool
is_abs path = has_prefix path (codes "/")

-- `filepath.IsAbs(path) && filepath.Clean(path) == path`
unfoldable pub is_clean_absolute : Bytes → Bool
is_clean_absolute path = is_abs path && clean path == path

-- `filepath.Join(directory, name)` with an absolute directory
unfoldable pub join_path : Bytes → Bytes → Bytes
join_path directory name = clean (directory ++ codes "/" ++ name)
