-- ===== src/Sftp/Decode.antt =====
-- Reading the packets of pkg/sftp/packet.go: `Decode` of each type, `rawPacket.decode` and
-- `readRawPacket`.
use tinyrange.Prelude.{
  ℕ, List, [], ◌∷◌, Bool, true, false, Option, none, some, ◌==◌, leb, if◌then◌else◌, length, take,
  drop,
}
use tinyrange.Wire.Numbers.{big, get_uint}
use tinyrange.Wire.Reader.{
  Reader, Read, ◌>>=◌, pure, read_bytes, read_uint, take_error, IoError, new_reader,
}
use tinyrange.Sftp.Packets.{
  Text, Attrs, has_flag, attr_size, attr_uidgid, attr_permissions, attr_acmodtime, Request, init,
  open_file, close, read, write, remove, rename, mkdir, rmdir, opendir, readdir, stat, lstat, fstat,
  setstat, fsetstat, readlink, symlink, realpath, RawPacket,
}

-- `strLen := r.Uint32(); string(r.Bytes(int(strLen)))`
unfoldable pub read_text : Read Text
read_text = do n ← read_uint 4; read_bytes n

-- a field that is read if the flag is set, and else keeps its zero
unfoldable pub read_if : Bool → ℕ → Read ℕ
read_if b n = if b then read_uint n else pure 0

-- `attrs.Decode`
unfoldable pub read_attrs : Read Attrs
read_attrs = do
  flags ← read_uint 4
  size ← read_if (has_flag flags attr_size) 8
  uid ← read_if (has_flag flags attr_uidgid) 4
  gid ← read_if (has_flag flags attr_uidgid) 4
  permissions ← read_if (has_flag flags attr_permissions) 4
  atime ← read_if (has_flag flags attr_acmodtime) 4
  mtime ← read_if (has_flag flags attr_acmodtime) 4
  pure (record {
    flags = flags;
    size = size;
    uid = uid;
    gid = gid;
    permissions = permissions;
    atime = atime;
    mtime = mtime;
  })

abbrev pub read_one : (Text → Request) → Read Request
read_one make = do text ← read_text; pure (make text)

unfoldable pub decode_init : Read Request
decode_init = do v ← read_uint 4; pure (init v)

unfoldable pub decode_open : Read Request
decode_open = do
  path ← read_text
  flags ← read_uint 4
  attrs ← read_attrs
  pure (open_file path flags attrs)

unfoldable pub decode_close : Read Request
decode_close = read_one close

unfoldable pub decode_read : Read Request
decode_read = do
  handle ← read_text
  offset ← read_uint 8
  len ← read_uint 4
  pure (read handle offset len)

unfoldable pub decode_write : Read Request
decode_write = do
  handle ← read_text
  offset ← read_uint 8
  bytes ← read_text
  pure (write handle offset bytes)

unfoldable pub decode_remove : Read Request
decode_remove = read_one remove

abbrev pub read_two : (Text → Text → Request) → Read Request
read_two make = do a ← read_text; b ← read_text; pure (make a b)

unfoldable pub decode_rename : Read Request
decode_rename = read_two rename

abbrev pub read_with_attrs : (Text → Attrs → Request) → Read Request
read_with_attrs make = do path ← read_text; attrs ← read_attrs; pure (make path attrs)

unfoldable pub decode_mkdir : Read Request
decode_mkdir = read_with_attrs mkdir

unfoldable pub decode_rmdir : Read Request
decode_rmdir = read_one rmdir

unfoldable pub decode_opendir : Read Request
decode_opendir = read_one opendir

unfoldable pub decode_readdir : Read Request
decode_readdir = read_one readdir

unfoldable pub decode_stat : Read Request
decode_stat = read_one stat

unfoldable pub decode_lstat : Read Request
decode_lstat = read_one lstat

unfoldable pub decode_fstat : Read Request
decode_fstat = read_one fstat

unfoldable pub decode_setstat : Read Request
decode_setstat = read_with_attrs setstat

unfoldable pub decode_fsetstat : Read Request
decode_fsetstat = read_with_attrs fsetstat

unfoldable pub decode_readlink : Read Request
decode_readlink = read_one readlink

unfoldable pub decode_symlink : Read Request
decode_symlink = read_two symlink

unfoldable pub decode_realpath : Read Request
decode_realpath = read_one realpath

-- The `switch` of `rawPacket.decode`: the decoder of a kind of packet.
unfoldable pub decoder_of : ℕ → Option (Read Request)
decoder_of kind =
    if kind == 1
    then some decode_init
    else if kind == 3
    then some decode_open
    else if kind == 4
    then some decode_close
    else if kind == 5
    then some decode_read
    else if kind == 6
    then some decode_write
    else if kind == 13
    then some decode_remove
    else if kind == 18
    then some decode_rename
    else if kind == 14
    then some decode_mkdir
    else if kind == 15
    then some decode_rmdir
    else if kind == 11
    then some decode_opendir
    else if kind == 12
    then some decode_readdir
    else if kind == 17
    then some decode_stat
    else if kind == 7
    then some decode_lstat
    else if kind == 8
    then some decode_fstat
    else if kind == 9
    then some decode_setstat
    else if kind == 10
    then some decode_fsetstat
    else if kind == 19
    then some decode_readlink
    else if kind == 20
    then some decode_symlink
    else if kind == 16
    then some decode_realpath
    else none

pub data Decoded : Type 0 where
  decoded : Request → ℕ → Decoded
  unknown_packet : ℕ → Decoded
  failed : IoError → Decoded

abbrev or_fail : Option IoError → Request → ℕ → Decoded
or_fail none pkt id = decoded pkt id
or_fail (some e) pkt id = failed e

-- `pkt.Decode(reader)`, which ends in `return r.Error()`
unfoldable pub decode_body : Read Request → ℕ → Reader → Decoded
unfolding take_error
decode_body m id r = let (pkt, r') = m r in let (e, r'') = take_error r' in or_fail e pkt id

abbrev pub after_id : Read Request → ℕ × Reader → Decoded
after_id m (id, r) =
    let (e, r') = take_error r in elim e [ some x ↦ failed x | none ↦ decode_body m id r' ]

-- The request id, which `pktInit` lacks, and the fields.
unfoldable pub decode_with : Bool → Read Request → Reader → Decoded
decode_with true m r = decode_body m 0 r
decode_with false m r = after_id m (read_uint 4 r)

abbrev pub dispatch : RawPacket → Option (Read Request) → Decoded
dispatch p none = unknown_packet p.kind
dispatch p (some m) = decode_with (p.kind == 1) m (new_reader p.payload big)

-- `rawPacket.decode`
unfoldable pub decode : RawPacket → Decoded
decode p = dispatch p (decoder_of p.kind)

-- `panicked` is the run-time panic of an index out of range.
pub data RawRead : Type 0 where
  packet : RawPacket → List ℕ → RawRead
  read_failed : IoError → RawRead
  panicked : RawRead

abbrev pub failed_read : List ℕ → RawRead
failed_read [] = read_failed IoError.eof
failed_read (x ∷ xs) = read_failed IoError.unexpected_eof

-- `&rawPacket{kind: packetType(data[0]), data: data[1:]}`
abbrev pub split_packet : List ℕ → List ℕ → RawRead
split_packet [] rest = panicked
split_packet (kind ∷ payload) rest = packet (record { kind = kind; payload = payload }) rest

-- `io.ReadFull(r, data)` into `len` bytes, and what follows it
abbrev pub read_body : ℕ → List ℕ → RawRead
read_body len rest =
    if leb len (length rest) then split_packet (take len rest) (drop len rest) else failed_read rest

-- `readRawPacket`; the second part of `packet` is what the connection still holds.
unfoldable pub read_raw_packet : List ℕ → RawRead
read_raw_packet input =
    if leb 4 (length input)
    then read_body (get_uint big (take 4 input)) (drop 4 input)
    else failed_read input
