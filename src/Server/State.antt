-- ===== src/Server/State.antt =====
-- `SSHFSServer` of pkg/sftp/sshfs.go, its handles, and what a handler ends in. The objects of the file
-- system are the nodes of a store, and the two maps of handles are association lists.
use Prim.Native.String.{[] as empty_text, ◌∷◌ as cons_char}
use Prim.Native.Char.{code}
use tinyrange.Prelude.{
  ℕ, String, Bool, true, false, Option, none, some, List, [], ◌∷◌, ◌==◌, ◌&&◌, if◌then◌else◌,
}
use tinyrange.Files.Memory.{FsError, invalid, not_exist, invalid_name, has_path, not_directory}
use tinyrange.Files.Directory.{MemoryDirectory, Node, dir, file}
use tinyrange.Files.Paths.{Walk, reached, walk_error}
use tinyrange.Sftp.Packets.{Text, Response, status}

-- `handle` is a `bytes.Reader` over the contents that the file had when it was opened.
pub record FileHandle : Type 0 where
  pub object : ℕ
  pub contents : List ℕ

-- the entries, `none` for a nil file
pub record DirectoryHandle : Type 0 where
  pub entries : List (String × Option ℕ)
  pub off : ℕ

pub record Server : Type 0 where
  pub nodes : List Node
  pub root : ℕ
  pub open_handles : List (Text × FileHandle)
  pub directory_handles : List (Text × DirectoryHandle)

-- `New`
abbrev pub new_server : List Node → ℕ → Server
new_server nodes root = record {
  nodes = nodes;
  root = root;
  open_handles = [];
  directory_handles = [];
}

-- What a request takes from outside: the answer of `uuid.NewString` and that of `time.Now`.
pub record Env : Type 0 where
  pub fresh : Text
  pub now : ℕ

pub data Fault : Type 0 where
  fs_error : FsError → Fault
  bad_version no_handle read_only negative_offset : Fault

-- The end of a handler: a packet, an error (to which the server sends nothing), the panic of a call on
-- a nil interface, or a chain of symbolic links that is longer than the fuel.
pub data Reply : Type 0 where
  reply : Response → Reply
  refused : Fault → Reply
  panicked unfinished : Reply

abbrev pub Outcome : Type 0
Outcome = Reply × Server

-- the bytes of an ASCII string
unfoldable pub ascii : String → Text
ascii empty_text = []
ascii (cons_char c s) = code c ∷ ascii s

abbrev pub ok_status : Reply
ok_status = reply (status 0 (ascii "Ok") (ascii "en"))

abbrev pub no_such_file : String → Reply
no_such_file message = reply (status 2 (ascii message) (ascii "en"))

-- `if err == fs.ErrNotExist { return &pktStatus{...}, nil } else if err != nil { return nil, err }`
unfoldable pub fs_reply : FsError → String → Reply
fs_reply not_exist message = no_such_file message
fs_reply invalid message = refused (fs_error invalid)
fs_reply invalid_name message = refused (fs_error invalid_name)
fs_reply has_path message = refused (fs_error has_path)
fs_reply not_directory message = refused (fs_error not_directory)

-- what follows `s.lookup(path)` and its error checks
unfoldable pub with_found : Option Walk → String → (ℕ → Outcome) → Server → Outcome
with_found none message k s = (unfinished, s)
with_found (some (walk_error e)) message k s = (fs_reply e message, s)
with_found (some (reached i)) message k s = k i

-- what follows `asDirectory` or `asMutableDirectory`
unfoldable pub with_directory : Option Node → (MemoryDirectory → Outcome) → Server → Outcome
with_directory none k s = (refused (fs_error invalid), s)
with_directory (some (file f)) k s = (refused (fs_error invalid), s)
with_directory (some (dir d)) k s = k d

-- what follows `if err != nil { return nil, err }`
unfoldable pub with_ok : Option FsError → Outcome → Server → Outcome
with_ok (some e) o s = (refused (fs_error e), s)
with_ok none o s = o

abbrev same_text : Text → Text → Bool
same_text [] [] = true
same_text [] (y ∷ ys) = false
same_text (x ∷ xs) [] = false
same_text (x ∷ xs) (y ∷ ys) = (x == y) && same_text xs ys

-- equality of two strings
unfoldable pub text_eq : Text → Text → Bool
text_eq xs ys = same_text xs ys

module _ {A : Type 0} where
  -- `s.openHandles[pkt.Handle]`
  unfoldable pub lookup_handle : Text → List (Text × A) → Option A
  lookup_handle h [] = none
  lookup_handle h ((k, a) ∷ m) = if text_eq k h then some a else lookup_handle h m

  -- `delete(s.openHandles, pkt.Handle)`
  unfoldable pub delete_handle : Text → List (Text × A) → List (Text × A)
  delete_handle h [] = []
  delete_handle h ((k, a) ∷ m) =
      let rest = delete_handle h m in if text_eq k h then rest else (k, a) ∷ rest

-- what follows the lookup of a handle
unfoldable pub with_handle {ℓ} : {A : Type ℓ} → Option A → (A → Outcome) → Server → Outcome
with_handle none k s = (refused no_handle, s)
with_handle (some a) k s = k a
