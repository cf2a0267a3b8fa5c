-- ===== src/Server/Handles.antt =====
-- The handlers of pkg/sftp/sshfs.go that work on handles.
use tinyrange.Prelude.{
  ℕ, zero, suc, ◌+◌, ◌^◌, String, Option, none, some, List, [], ◌∷◌, leb, ◌==◌, if◌then◌else◌,
  length, take, drop, get_elem?,
}
use tinyrange.Files.Directory.{Node}
use tinyrange.Sftp.Packets.{Text, Attrs, Name, version, status, contents, names, attributes}
use tinyrange.Server.State.{
  Server, FileHandle, DirectoryHandle, Outcome, Reply, reply, refused, panicked, bad_version,
  no_handle, read_only, negative_offset, ok_status, ascii, lookup_handle, delete_handle,
  with_handle, text_eq,
}
use tinyrange.Server.Attributes.{info_to_attrs, node_file, set_object}

-- `PktInit`
unfoldable pub pkt_init : ℕ → Server → Outcome
pkt_init v s = if v == 3 then (reply (version 3), s) else (refused bad_version, s)

abbrev pub close_directory : Text → Server → Option DirectoryHandle → Outcome
close_directory h s none = (refused no_handle, s)
close_directory h s (some d) =
    (ok_status, record s { directory_handles = delete_handle h s.directory_handles })

abbrev pub close_with : Text → Server → Option FileHandle → Outcome
close_with h s none = close_directory h s (lookup_handle h s.directory_handles)
close_with h s (some f) = (ok_status, record s { open_handles = delete_handle h s.open_handles })

-- `PktClose`; closing the reader of a file in memory cannot fail.
unfoldable pub pkt_close : Text → Server → Outcome
pkt_close h s = close_with h s (lookup_handle h s.open_handles)

-- `ReadAt` of a `bytes.Reader`, and what `PktRead` makes of it; the `Code` of the status at the end of
-- the file is left at its zero.
unfoldable pub read_reply : List ℕ → ℕ → ℕ → Reply
read_reply bytes offset len =
    if leb (2 ^ 63) offset
    then refused negative_offset
    else if leb (length bytes) offset
    then reply (status 0 (ascii "EOF") (ascii "en"))
    else reply (contents (take len (drop offset bytes)))

-- `PktRead`
unfoldable pub pkt_read : Text → ℕ → ℕ → Server → Outcome
pkt_read h offset len s =
    with_handle (lookup_handle h s.open_handles) (λ f. (read_reply f.contents offset len, s)) s

-- `PktWrite`: no file in memory is a `WritableFileHandle`.
unfoldable pub pkt_write : Text → ℕ → Text → Server → Outcome
pkt_write h offset bytes s =
    with_handle (lookup_handle h s.open_handles) (λ f. (refused read_only, s)) s

abbrev pub stat_reply : Option Node → Reply
stat_reply none = panicked
stat_reply (some n) = reply (attributes (info_to_attrs (node_file n)))

-- `PktFstat`
unfoldable pub pkt_fstat : Text → Server → Outcome
pkt_fstat h s =
    with_handle (lookup_handle h s.open_handles) (λ f. (stat_reply (get_elem? s.nodes f.object), s))
      s

-- `PktFSetStat`
unfoldable pub pkt_fsetstat : Text → Attrs → Server → Outcome
pkt_fsetstat h attrs s =
    with_handle (lookup_handle h s.open_handles)
      (λ f. (ok_status, record s { nodes = set_object f.object attrs s.nodes })) s

-- `Name` of a file in memory is empty.
abbrev pub name_of : Node → Name
name_of n = record { filename = []; longname = []; attrs = info_to_attrs (node_file n) }

-- what the loop of `PktReadDir` collected: the names, or the panic on a nil file; and the offset
abbrev pub Listed : Type 0
Listed = Option (List Name) × ℕ

abbrev pub more_names : Name → Listed → Listed
more_names n (none, off) = (none, off)
more_names n (some ns, off) = (some (n ∷ ns), off)

abbrev pub object_at : List Node → Option ℕ → Option Node
object_at nodes none = none
object_at nodes (some i) = get_elem? nodes i

-- one round of the loop, given the rounds behind it
abbrev pub list_object : Listed → ℕ → Option Node → Listed
list_object rest off none = (none, off + 1)
list_object rest off (some n) = more_names (name_of n) rest

abbrev pub list_entry : List Node → Listed → ℕ → Option (String × Option ℕ) → Listed
list_entry nodes rest off none = (some [], off)
list_entry nodes rest off (some (name, o)) = list_object rest off (object_at nodes o)

-- the loop, with `next`, for at most so many names
unfoldable pub list_from : List Node → List (String × Option ℕ) → ℕ → ℕ → Listed
list_from nodes entries zero off = (some [], off)
list_from nodes entries (suc left) off =
    list_entry nodes (list_from nodes entries left (off + 1)) off (get_elem? entries off)

abbrev pub listed_reply : Option (List Name) → Reply
listed_reply none = panicked
listed_reply (some []) = reply (status 1 (ascii "EOF") (ascii "en"))
listed_reply (some (n ∷ ns)) = reply (names (n ∷ ns))

-- the handle after its offset moved
unfoldable pub set_off : Text → ℕ → List (Text × DirectoryHandle) → List (Text × DirectoryHandle)
set_off h off [] = []
set_off h off ((k, d) ∷ m) =
    if text_eq k h then (k, record d { off = off }) ∷ m else (k, d) ∷ set_off h off m

abbrev pub read_listed : Text → Server → Listed → Outcome
read_listed h s (l, off) =
    (listed_reply l, record s { directory_handles = set_off h off s.directory_handles })

-- `PktReadDir`: at most 20 names
unfoldable pub pkt_readdir : Text → Server → Outcome
pkt_readdir h s =
    with_handle (lookup_handle h s.directory_handles)
      (λ d. read_listed h s (list_from s.nodes d.entries 20 d.off)) s
