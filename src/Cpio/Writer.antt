-- ===== src/Cpio/Writer.antt =====
-- `cpioWriter` of pkg/cpio/cpio.go, and writing a tree to it.
use tinyrange.Prelude.{
  ℕ, ◌+◌, ◌-◌, ◌%◌, ◌^◌, Option, none, some, List, [], ◌∷◌, ◌++◌, length, if◌then◌else◌,
}
use tinyrange.Wire.Reader.{IoError}
use tinyrange.Wire.Writer.{Sink, sink_write}
use tinyrange.Cpio.Header.{CpioHeader, as_string, round_up, zeros}
use tinyrange.Cpio.Tree.{
  Member, Entry, file, directory, Entries, no_entries, child, kind_regular, new_member, same_name,
}

pub record CpioWriter : Type 0 where
  pub sink : Sink
  pub last_inode : ℕ

pub data WriteError : Type 0 where
  io_error : IoError → WriteError
  bad_entry : WriteError

abbrev pub Wrote : Type 0
Wrote = Option WriteError × CpioWriter

-- what follows `if err != nil { return err }`
unfoldable pub then_write : Wrote → (CpioWriter → Wrote) → Wrote
then_write (some e, w) k = (some e, w)
then_write (none, w) k = k w

abbrev pub wrote_to : ℕ → Option IoError × Sink → Wrote
wrote_to inode (none, sink) = (none, record { sink = sink; last_inode = inode })
wrote_to inode (some e, sink) = (some (io_error e), record { sink = sink; last_inode = inode })

-- `a.file.Write`
unfoldable pub write_bytes : List ℕ → CpioWriter → Wrote
write_bytes bytes w = wrote_to w.last_inode (sink_write bytes w.sink)

-- `writePadding`
unfoldable pub write_padding : ℕ → CpioWriter → Wrote
write_padding count w = write_bytes (zeros count) w

-- `writeContent`
unfoldable pub write_content : List ℕ → CpioWriter → Wrote
write_content bytes w =
    then_write (write_bytes bytes w)
      (λ w'. write_padding (round_up (length bytes) 4 - length bytes) w')

-- `writeHeader`
unfoldable pub write_header : CpioHeader → CpioWriter → Wrote
write_header h w =
    then_write (write_bytes (as_string h) w)
      (λ w'. write_padding (round_up (length (as_string h)) 4 - length (as_string h)) w')

-- `allocateInode`
abbrev pub allocate_inode : CpioWriter → CpioWriter
allocate_inode w = record w { last_inode = w.last_inode + 1 }

-- the header of a member with this inode, this many links and this prefix of its name
unfoldable pub header_of : ℕ → ℕ → List ℕ → Member → CpioHeader
header_of inode links prefix m = record {
  ino = inode;
  mode = (m.kind + m.mode) % 2 ^ 64;
  uid = m.uid;
  gid = m.gid;
  n_link = links;
  m_time = m.mtime;
  file_size = length m.content;
  dev_major = 10;
  dev_minor = 1;
  r_dev_major = 0;
  r_dev_minor = 0;
  name = prefix ++ m.name;
}

abbrev pub content_after : List ℕ → CpioWriter → Wrote
content_after [] w = (none, w)
content_after (b ∷ bytes) w = write_content (b ∷ bytes) w

abbrev pub named_member : List ℕ → ℕ → List ℕ → Member → CpioWriter → Wrote
named_member [] links prefix m w = (some bad_entry, w)
named_member (c ∷ cs) links prefix m w =
    then_write (write_header (header_of w.last_inode links prefix m) w) (content_after m.content)

-- `Write` of an entry without its children
unfoldable pub write_member : ℕ → List ℕ → Member → CpioWriter → Wrote
write_member links prefix m w = named_member m.name links prefix m (allocate_inode w)

-- the prefix of the children
unfoldable pub child_prefix : List ℕ → List ℕ → List ℕ
child_prefix prefix name = if same_name name (46 ∷ []) then [] else prefix ++ name ++ 47 ∷ []

unfoldable pub child_count : Entries → ℕ
child_count no_entries = 0
child_count (child e es) = child_count es + 1

-- `Write`, and its loop over the children
unfoldable mutual
  pub write_entry : Entry → List ℕ → CpioWriter → Wrote
  write_entry (file m) prefix w = write_member 1 prefix m w
  write_entry (directory m es) prefix w =
      then_write (write_member (2 + child_count es) prefix m w)
        (λ w'. write_entries es (child_prefix prefix m.name) w')

  pub write_entries : Entries → List ℕ → CpioWriter → Wrote
  write_entries no_entries prefix w = (none, w)
  write_entries (child e es) prefix w =
      then_write (write_entry e prefix w) (λ w'. write_entries es prefix w')

-- `trailerName`
abbrev pub trailer_name : List ℕ
trailer_name = 84 ∷ 82 ∷ 65 ∷ 73 ∷ 76 ∷ 69 ∷ 82 ∷ 33 ∷ 33 ∷ 33 ∷ []

abbrev pub trailer : Member
trailer = new_member kind_regular trailer_name

-- `WriteTo` of a file system with this root
unfoldable pub write_to : Entry → Sink → Wrote
write_to root sink =
    then_write (write_entry root [] (record { sink = sink; last_inode = 0 }))
      (λ w. then_write (write_entry (file trailer) [] w) (λ w'. write_bytes (zeros 4096) w'))
