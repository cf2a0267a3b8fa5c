-- ===== src/Files/Memory.antt =====
-- `memoryFile` of pkg/filesystem/file.go. Times are numbers, 0 for Go's zero time; a mode is its bits;
-- contents and link targets are bytes.
use tinyrange.Prelude.{
  ℕ, Bool, true, false, not, Option, none, some, List, [], ◌∷◌, ◌==◌, if◌then◌else◌, length,
}

pub data FileType : Type 0 where
  regular directory symlink link : FileType

pub data FsError : Type 0 where
  invalid not_exist invalid_name has_path not_directory : FsError

pub record MemoryFile : Type 0 where
  pub kind : FileType
  pub m_time : ℕ
  pub mode : ℕ
  pub uid : ℕ
  pub gid : ℕ
  pub contents : List ℕ

-- `fs.FileMode(0755)`
abbrev pub default_mode : ℕ
default_mode = 493

-- `NewMemoryFile`, at the time of `time.Now()`
unfoldable pub new_memory_file : FileType → ℕ → MemoryFile
new_memory_file kind now = record {
  kind = kind;
  m_time = now;
  mode = default_mode;
  uid = 0;
  gid = 0;
  contents = [];
}

-- `NewSymlink`
unfoldable pub new_symlink : List ℕ → MemoryFile
new_symlink target = record {
  kind = symlink;
  m_time = 0;
  mode = default_mode;
  uid = 0;
  gid = 0;
  contents = target;
}

-- `strings.TrimPrefix(target, ".")`
unfoldable pub trim_dot : List ℕ → List ℕ
trim_dot [] = []
trim_dot (c ∷ target) = if c == b'.' then target else c ∷ target

-- `if !strings.HasPrefix(target, "/") { target = "/" + target }`
unfoldable pub with_slash : List ℕ → List ℕ
with_slash [] = b'/' ∷ []
with_slash (c ∷ target) = if c == b'/' then c ∷ target else b'/' ∷ c ∷ target

-- `NewHardLink`
unfoldable pub new_hard_link : List ℕ → MemoryFile
new_hard_link target = record {
  kind = link;
  m_time = 0;
  mode = default_mode;
  uid = 0;
  gid = 0;
  contents = with_slash (trim_dot target);
}

-- `Chmod`, `Chown`, `Chtimes` and `Overwrite`, none of which fails
unfoldable pub chmod : ℕ → MemoryFile → MemoryFile
chmod mode f = record f { mode = mode }

unfoldable pub chown : ℕ → ℕ → MemoryFile → MemoryFile
chown uid gid f = record f { uid = uid; gid = gid }

unfoldable pub chtimes : ℕ → MemoryFile → MemoryFile
chtimes m_time f = record f { m_time = m_time }

unfoldable pub overwrite : List ℕ → MemoryFile → MemoryFile
overwrite contents f = record f { contents = contents }

unfoldable pub is_link : FileType → Bool
is_link symlink = true
is_link link = true
is_link regular = false
is_link directory = false

-- `GetLinkName` of a file in memory; `none` is `fs.ErrInvalid`.
unfoldable pub get_link_name : MemoryFile → Option (List ℕ)
get_link_name f = if not (is_link f.kind) then none else some f.contents

-- `Size`
unfoldable pub file_size : MemoryFile → ℕ
file_size f = length f.contents
