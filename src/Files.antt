-- ===== src/Files.antt =====
-- The files of a directory tree, as far as packages atomicfile and safefile see them.
use dhcp_lease_observer.Prelude.{ℕ, Option, ◌==◌, ◌≡◌, ◌≢◌, eq_self, eq_false, if◌then◌else◌}
use dhcp_lease_observer.Text.{Bytes, bytes_eq}

pub data FileKind : Type 0 where
  regular symlink special : FileKind

pub record File : Type 0 where
  pub content : Bytes
  pub mode : ℕ
  pub kind : FileKind

-- What stands at each path.
abbrev pub Disk : Type 0
Disk = Bytes → Option File

unfoldable pub put : Bytes → Option File → Disk → Disk
put path file disk p = if path == p then file else disk p

pub put_self : (path : Bytes) (file : Option File) (disk : Disk) → put path file disk path ≡ file
unfolding put
put_self path file disk = rw (eq_self path)

pub put_other :
    (path p : Bytes) (file : Option File) (disk : Disk) → path ≢ p → put path file disk p ≡ disk p
unfolding put
put_other path p file disk h = rw (eq_false path p h)
