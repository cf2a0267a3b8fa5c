-- ===== src/Server/Attributes.antt =====
-- `setAttributes` and `infoToAttrs` of pkg/sftp/sshfs.go. Times count the seconds from Go's zero time,
-- so `Unix` subtracts those of the year 1970; a mode is its bits.
use Prim.Native.Nat.{bit_and, bit_or}
use tinyrange.Prelude.{
  ℕ, ◌+◌, ◌-◌, ◌%◌, ◌^◌, not, Option, none, some, List, ◌==◌, if◌then◌else◌, get_elem?,
}
use tinyrange.Files.Memory.{MemoryFile, chmod, chown, file_size}
use tinyrange.Files.Directory.{Node, dir, file, set_node}
use tinyrange.Sftp.Packets.{Attrs, has_flag, attr_uidgid, attr_permissions}

-- `fs.ModeDir`, `fs.ModeSymlink`, `fs.ModeType` and `fs.ModePerm`
abbrev pub mode_dir : ℕ
mode_dir = 2 ^ 31

abbrev pub mode_symlink : ℕ
mode_symlink = 2 ^ 27

abbrev pub mode_type : ℕ
mode_type = 2 ^ 31 + 2 ^ 27 + 2 ^ 26 + 2 ^ 25 + 2 ^ 24 + 2 ^ 21 + 2 ^ 19

abbrev pub mode_perm : ℕ
mode_perm = 511

-- `kind`: a directory, a regular file or a symbolic link
unfoldable pub mode_kind : ℕ → ℕ
mode_kind mode =
    if not (bit_and mode mode_dir == 0)
    then 16384
    else if bit_and mode mode_type == 0
    then 32768
    else if not (bit_and mode mode_symlink == 0)
    then 40960
    else 0

-- `uint32(info.ModTime().Unix())`
unfoldable pub unix_time : ℕ → ℕ
unix_time t = (t + (2 ^ 64 - 62135596800)) % 2 ^ 32

-- `infoToAttrs`, with the user and the group of `GetUidAndGid`
unfoldable pub info_to_attrs : MemoryFile → Attrs
info_to_attrs f = record {
  flags = 15;
  size = file_size f;
  uid = f.uid % 2 ^ 32;
  gid = f.gid % 2 ^ 32;
  permissions = bit_or (bit_and f.mode mode_perm) (mode_kind f.mode);
  atime = 0;
  mtime = unix_time f.m_time;
}

-- the `memoryFile` of an object
unfoldable pub node_file : Node → MemoryFile
node_file (file f) = f
node_file (dir d) = d.attributes

-- `setAttributes`, on a `memoryFile`
unfoldable pub set_attributes : Attrs → MemoryFile → MemoryFile
set_attributes attrs f =
    let g = if has_flag attrs.flags attr_uidgid then chown attrs.uid attrs.gid f else f in
    if has_flag attrs.flags attr_permissions then chmod attrs.permissions g else g

unfoldable pub set_node_attributes : Attrs → Node → Node
set_node_attributes attrs (file f) = file (set_attributes attrs f)
set_node_attributes attrs (dir d) =
    dir (record d { attributes = set_attributes attrs d.attributes })

unfoldable pub set_at : Option Node → ℕ → Attrs → List Node → List Node
set_at none i attrs nodes = nodes
set_at (some n) i attrs nodes = set_node i (set_node_attributes attrs n) nodes

-- `setAttributes` of the object at this position
unfoldable pub set_object : ℕ → Attrs → List Node → List Node
set_object i attrs nodes = set_at (get_elem? nodes i) i attrs nodes
