-- ===== src/Server/Paths.antt =====
-- The handlers of pkg/sftp/sshfs.go that work on paths. `text_of` is Go's conversion of bytes to a
-- string, and `fuel` bounds the symbolic links that a lookup follows.
use Prim.Native.Nat.{bit_and}
use tinyrange.Prelude.{
  ℕ, String, false, not, Option, none, some, List, [], ◌∷◌, ◌++◌, str_eq, ◌==◌, if◌then◌else◌,
  length, get_elem?,
}
use tinyrange.Files.Memory.{
  FsError, regular, new_memory_file, new_symlink, get_link_name, invalid, not_exist, invalid_name,
  has_path, not_directory,
}
use tinyrange.Files.Directory.{
  MemoryDirectory, Node, dir, file, create, unlink, get_child, readdir, Child, itself, entry,
  no_child, set_node, mkdir_in, Made, made, not_made,
}
use tinyrange.Files.Paths.{
  Walk, reached, walk_error, open_path, walk_tokens, resolve_directory, split_slash, clean,
  all_but_last, is_rooted, split_clean,
}
use tinyrange.Sftp.Packets.{Text, Attrs, no_attrs, handle, names}
use tinyrange.Server.State.{
  Server, Env, Outcome, Reply, reply, refused, panicked, unfinished, fs_error, ok_status, fs_reply,
  with_found, with_directory, with_ok,
}
use tinyrange.Server.Attributes.{set_object, set_attributes}
use tinyrange.Server.Handles.{stat_reply}

-- The elements of `path.Dir(p)`, as `OpenPath` splits it.
unfoldable pub dir_tokens : String → List String
dir_tokens p = split_clean false (clean (is_rooted p) (all_but_last (split_slash p)) [])

abbrev last_element : String → List String → String
last_element found [] = found
last_element found (t ∷ ts) = last_element (if str_eq t "" then found else t) ts

-- `path.Base`
unfoldable pub path_base : String → String
path_base p = last_element (if str_eq p "" then "." else "/") (split_slash p)

-- the store after `nodes[i]` became this directory
abbrev pub put_directory : ℕ → MemoryDirectory → List Node → List Node
put_directory i d nodes = set_node i (dir d) nodes

-- A change of the directory at this position, and what follows it.
abbrev pub change_directory :
    ℕ → Option FsError × MemoryDirectory → (Server → Outcome) → Server → Outcome
change_directory i (e, d) k s = with_ok e (k (record s { nodes = put_directory i d s.nodes })) s

-- `file.Open()` of an object, and the new handle
abbrev pub open_object : Env → ℕ → Option Node → Server → Outcome
open_object env i none s = (panicked, s)
open_object env i (some (dir d)) s = (refused (fs_error invalid), s)
open_object env i (some (file f)) s = (
  reply (handle env.fresh),
  record s {
    open_handles = (env.fresh, record { object = i; contents = f.contents }) ∷ s.open_handles;
  },
)

-- The branch of `PktOpen` with `openFlagCreat`: `file :=` declares another variable, so the `file` that
-- is opened behind it is nil.
abbrev pub open_created : Env → ℕ → String → Attrs → MemoryDirectory → Server → Outcome
open_created env i base attrs d s =
    let f = set_attributes attrs (new_memory_file regular env.now) in
    change_directory i (create base (length s.nodes) d) (λ t. (panicked, t))
      (record s { nodes = s.nodes ++ file f ∷ [] })

-- the other branch
abbrev pub open_child : Env → ℕ → Child → Server → Outcome
open_child env i itself s = open_object env i (get_elem? s.nodes i) s
open_child env i (entry j name) s = open_object env j (get_elem? s.nodes j) s
open_child env i (no_child e) s = (fs_reply e "directory not found", s)

-- the directory that was made, and its attributes
abbrev pub made_reply : Attrs → Server → Made × List Node → Outcome
made_reply attrs s (not_made e, nodes) = (refused (fs_error e), s)
made_reply attrs s (made j, nodes) = (ok_status, record s { nodes = set_object j attrs nodes })

-- `Unlink` in a directory of the store, for `PktRemove` and `PktRmdir`
abbrev pub removed_reply : ℕ → Option FsError × MemoryDirectory → Server → Outcome
removed_reply i (some e, d) s = (fs_reply e "file not found", s)
removed_reply i (none, d) s = (ok_status, record s { nodes = put_directory i d s.nodes })

abbrev one_name : Text → Reply
one_name t = reply (names (record { filename = t; longname = t; attrs = no_attrs } ∷ []))

abbrev link_reply : Option Node → Reply
link_reply none = panicked
link_reply (some (dir d)) = refused (fs_error invalid)
link_reply (some (file f)) = elim (get_link_name f) [
  | none ↦ refused (fs_error invalid)
  | some target ↦ one_name target
]

-- what follows a lookup whose every error ends the handler
abbrev pub with_old : Option Walk → (ℕ → Outcome) → Server → Outcome
with_old none k s = (unfinished, s)
with_old (some (walk_error e)) k s = (refused (fs_error e), s)
with_old (some (reached i)) k s = k i

-- the unlinking of the old name in `PktRename`; another change may have come between
abbrev pub unlink_old : ℕ → String → Server → Outcome
unlink_old i base s =
    with_directory (get_elem? s.nodes i)
      (λ d. change_directory i (unlink base d) (λ t. (ok_status, t)) s) s

-- `if err == fs.ErrNotExist`: going on where there was nothing to unlink
abbrev forgive : Option FsError → Option FsError
forgive none = none
forgive (some not_exist) = none
forgive (some invalid) = some invalid
forgive (some invalid_name) = some invalid_name
forgive (some has_path) = some has_path
forgive (some not_directory) = some not_directory

abbrev pub forgiven : Option FsError × MemoryDirectory → Option FsError × MemoryDirectory
forgiven (e, d) = (forgive e, d)

-- the unlinking of the new name and its creation in `PktRename`
abbrev pub replace_new : ℕ → String → ℕ → (Server → Outcome) → Server → Outcome
replace_new i base object k s =
    with_directory (get_elem? s.nodes i)
      (λ d.
        change_directory i (forgiven (unlink base d))
          (λ t.
            with_directory (get_elem? t.nodes i)
              (λ d'. change_directory i (create base object d') k t) t)
          s)
      s

module _ (text_of : List ℕ → String) (fuel : ℕ) where
  -- `s.lookup(path)`
  unfoldable pub lookup : Text → Server → Option Walk
  lookup p s = open_path text_of s.nodes s.root fuel (text_of p)

  -- `s.lookup(path.Dir(path))`
  unfoldable pub lookup_parent : Text → Server → Option Walk
  lookup_parent p s =
      walk_tokens (λ i n. resolve_directory text_of s.nodes s.root fuel i n) s.nodes s.root []
        (dir_tokens (text_of p))

  -- `lookup(path.Dir(path))` and `asMutableDirectory`, and what follows them
  abbrev pub in_parent : Text → (ℕ → MemoryDirectory → Outcome) → Server → Outcome
  in_parent p k s =
      with_found (lookup_parent p s) "directory not found"
        (λ i. with_directory (get_elem? s.nodes i) (k i) s) s

  -- `PktOpen`
  unfoldable pub pkt_open : Env → Text → ℕ → Attrs → Server → Outcome
  pkt_open env p flags attrs s =
      in_parent p
        (λ i d.
          if not (bit_and flags 8 == 0)
          then open_created env i (path_base (text_of p)) attrs d s
          else open_child env i (get_child (path_base (text_of p)) d) s)
        s

  -- `PktStat` and `PktLstat`, which are the same
  unfoldable pub pkt_stat : Text → Server → Outcome
  pkt_stat p s =
      with_found (lookup p s) "file not found" (λ i. (stat_reply (get_elem? s.nodes i), s)) s

  -- `PktOpenDir`
  unfoldable pub pkt_opendir : Env → Text → Server → Outcome
  pkt_opendir env p s =
      with_found (lookup p s) "directory not found"
        (λ i.
          with_directory (get_elem? s.nodes i)
            (λ d. (
              reply (handle env.fresh),
              record s {
                directory_handles =
                    (env.fresh, record { entries = readdir d; off = 0 }) ∷ s.directory_handles;
              },
            ))
            s)
        s

  -- `PktMkdir`
  unfoldable pub pkt_mkdir : Env → Text → Attrs → Server → Outcome
  pkt_mkdir env p attrs s =
      in_parent p (λ i d. made_reply attrs s (mkdir_in (path_base (text_of p)) env.now i d s.nodes))
        s

  -- `PktSetStat`
  unfoldable pub pkt_setstat : Text → Attrs → Server → Outcome
  pkt_setstat p attrs s =
      with_found (lookup p s) "file not found"
        (λ i. (ok_status, record s { nodes = set_object i attrs s.nodes })) s

  -- `PktRename`
  unfoldable pub pkt_rename : Text → Text → Server → Outcome
  pkt_rename from to s =
      with_found (lookup from s) "file not found"
        (λ object.
          with_old (lookup_parent from s)
            (λ i.
              with_directory (get_elem? s.nodes i)
                (λ old.
                  in_parent to
                    (λ j d.
                      replace_new j (path_base (text_of to)) object
                        (unlink_old i (path_base (text_of from))) s)
                    s)
                s)
            s)
        s

  -- `PktSymlink`, which drops the error of `Create`
  unfoldable pub pkt_symlink : Text → Text → Server → Outcome
  pkt_symlink path target s =
      with_found (lookup_parent path s) "file not found"
        (λ i.
          with_directory (get_elem? s.nodes i)
            (λ d. (
              ok_status,
              record s {
                nodes =
                    put_directory i (create (path_base (text_of path)) (length s.nodes) d).1 s.nodes
                    ++ file (new_symlink target) ∷ [];
              },
            ))
            s)
        s

  -- `PktReadlink`
  unfoldable pub pkt_readlink : Text → Server → Outcome
  pkt_readlink p s =
      with_found (lookup p s) "file not found" (λ i. (link_reply (get_elem? s.nodes i), s)) s

  -- `PktRmdir`, and `PktRemove`, which is the same
  unfoldable pub pkt_remove : Text → Server → Outcome
  pkt_remove p s = in_parent p (λ i d. removed_reply i (unlink (path_base (text_of p)) d) s) s

-- `PktRealPath`
unfoldable pub pkt_realpath : Text → Server → Outcome
pkt_realpath p s = (one_name p, s)
