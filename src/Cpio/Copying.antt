-- ===== src/Cpio/Copying.antt =====
-- An entry that `AddFromEntry` of pkg/cpio/cpio.go has copied is in the tree.
use tinyrange.Prelude.{ℕ, Option, none, some, List, []}
use tinyrange.Files.Memory.{FileType, regular, symlink, link, directory as directory_type}
use tinyrange.Cpio.Tree.{
  Member, Entry, file, directory, Entries, no_entries, new_member, kind_directory, kind_regular,
  kind_symbolic_link, AddError,
}
use tinyrange.Cpio.Extract.{SourceEntry}

abbrev pub children : Entry → Entries
children (file m) = no_entries
children (directory m es) = es

-- a member of this kind, content and name, with the mode, the owners and the time of the entry
abbrev pub member_with : SourceEntry → ℕ → List ℕ → List ℕ → Member
member_with h kind content name = record {
  kind = kind;
  mode = h.mode;
  uid = h.uid;
  gid = h.gid;
  mtime = h.mod_time;
  content = content;
  name = name;
}

-- What is copied: a file with the bytes that were read, a symbolic link with its target, or a directory
-- with nothing in it; each with the attributes of the entry.
abbrev pub copied : SourceEntry → FileType → Option (List ℕ) → List ℕ → Entry
copied h regular (some bytes) name = file (member_with h kind_regular bytes name)
copied h regular none name = file (new_member kind_regular name)
copied h symlink o name = file (member_with h kind_symbolic_link h.linkname name)
copied h directory_type o name = directory (member_with h kind_directory [] name) no_entries
copied h link o name = file (new_member kind_regular name)

-- a result, and a result that is a root
abbrev answer : Option AddError → Entries → Option AddError × Entries
answer e es = (e, es)

abbrev rooted : Member → Option AddError × Entries → Option AddError × Entry
rooted m r = (r.0, directory m r.1)
