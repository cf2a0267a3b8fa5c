-- ===== src/Files/Directory.antt =====
-- `memoryDirectory` of pkg/filesystem/directory.go. A file or directory is an object of the store,
-- that is, its position in a list of nodes, so that two directories can hold the same object. The map
-- `entries` is an association list.
use tinyrange.Prelude.{
  ℕ, zero, suc, ◌+◌, ◌^◌, String, Bool, ◌||◌, ◌&&◌, not, Option, none, some, List, [], ◌∷◌, ◌++◌,
  str_eq, if◌then◌else◌, length, get_elem?,
}
use tinyrange.Package.Defs.{contains}
use tinyrange.Files.Memory.{
  directory, FsError, not_exist, invalid_name, has_path, not_directory, MemoryFile, new_memory_file,
}

pub record MemoryDirectory : Type 0 where
  pub attributes : MemoryFile
  pub names : List String
  pub entries : List (String × ℕ)

pub data Node : Type 0 where
  file : MemoryFile → Node
  dir : MemoryDirectory → Node

-- `NewMemoryDirectory`: `fs.ModeDir | fs.FileMode(0755)`
unfoldable pub new_memory_directory : ℕ → MemoryDirectory
new_memory_directory now = record {
  attributes = record (new_memory_file directory now) { mode = 2 ^ 31 + 493 };
  names = [];
  entries = [];
}

-- `path.Base(name) == name`
unfoldable pub is_base : String → Bool
is_base name = (not (str_eq name "") && not (contains name "/")) || str_eq name "/"

-- `name == "" || name == "."`
unfoldable pub is_self : String → Bool
is_self name = str_eq name "" || str_eq name "."

unfoldable pub lookup_entry : String → List (String × ℕ) → Option ℕ
lookup_entry name [] = none
lookup_entry name ((k, f) ∷ entries) = if str_eq k name then some f else lookup_entry name entries

-- `delete(m.entries, name)`
unfoldable pub delete_entry : String → List (String × ℕ) → List (String × ℕ)
delete_entry name [] = []
delete_entry name ((k, f) ∷ entries) =
    let rest = delete_entry name entries in if str_eq k name then rest else (k, f) ∷ rest

-- `Unlink`
unfoldable pub unlink : String → MemoryDirectory → Option FsError × MemoryDirectory
unlink name m =
    if not (is_base name)
    then (some has_path, m)
    else (none, record m { entries = delete_entry name m.entries })

-- `Create`
unfoldable pub create : String → ℕ → MemoryDirectory → Option FsError × MemoryDirectory
create name f m =
    if is_self name
    then (some invalid_name, m)
    else if not (is_base name)
    then (some has_path, m)
    else elim (lookup_entry name m.entries) [
      | some g ↦ (none, m)
      | none ↦ (none, record m { names = m.names ++ name ∷ []; entries = (name, f) ∷ m.entries })
    ]

-- `itself` is `DirectoryEntry{File: m}`.
pub data Child : Type 0 where
  itself : Child
  entry : ℕ → String → Child
  no_child : FsError → Child

-- `GetChild`
unfoldable pub get_child : String → MemoryDirectory → Child
get_child name m =
    if is_self name
    then itself
    else if not (is_base name)
    then no_child has_path
    else elim (lookup_entry name m.entries) [ none ↦ no_child not_exist | some f ↦ entry f name ]

-- `Readdir`; `none` is a nil file.
unfoldable pub list_names : List String → List (String × ℕ) → List (String × Option ℕ)
list_names [] entries = []
list_names (name ∷ names) entries = (name, lookup_entry name entries) ∷ list_names names entries

unfoldable pub readdir : MemoryDirectory → List (String × Option ℕ)
readdir m = list_names m.names m.entries

unfoldable pub set_node : ℕ → Node → List Node → List Node
set_node i n [] = []
set_node zero n (x ∷ store) = n ∷ store
set_node (suc i) n (x ∷ store) = x ∷ set_node i n store

pub data Made : Type 0 where
  made : ℕ → Made
  not_made : FsError → Made

-- an entry that is there: its directory, which is mutable as every directory of the store is
unfoldable pub existing_dir : Option Node → ℕ → Made
existing_dir (some (dir d)) i = made i
existing_dir (some (file f)) i = not_made not_directory
existing_dir none i = not_made not_directory

-- `m.Create(name, child)` with `child := NewMemoryDirectory()`
unfoldable pub make_child : ℕ → ℕ → List Node → Option FsError × MemoryDirectory → Made × List Node
make_child now self store (some e, m) = (not_made e, store)
make_child now self store (none, m) =
    (made (length store), set_node self (dir m) store ++ dir (new_memory_directory now) ∷ [])

-- `Mkdir` of the directory `m` at `self`
unfoldable pub mkdir_in : String → ℕ → ℕ → MemoryDirectory → List Node → Made × List Node
mkdir_in name now self m store =
    if is_self name
    then (not_made invalid_name, store)
    else if not (is_base name)
    then (not_made has_path, store)
    else elim (lookup_entry name m.entries) [
      | some i ↦ (existing_dir (get_elem? store i) i, store)
      | none ↦ make_child now self store (create name (length store) m)
    ]
