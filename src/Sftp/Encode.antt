-- ===== src/Sftp/Encode.antt =====
-- Writing the packets of pkg/sftp/packet.go: `Encode` of each type, and `writePacket`.
use tinyrange.Prelude.{
  ℕ, ◌+◌, ◌%◌, ◌^◌, List, [], ◌∷◌, ◌++◌, Bool, true, false, Option, none, some, ◌==◌, if◌then◌else◌,
  length,
}
use tinyrange.Wire.Numbers.{big, put_uint}
use tinyrange.Wire.Reader.{IoError}
use tinyrange.Wire.Writer.{
  Writer, Sink, buffer, new_writer, sink_write, write_bytes, write_uint, struct_bytes, write_struct,
  take_write_error,
}
use tinyrange.Sftp.Packets.{
  Text, Attrs, has_flag, attr_size, attr_uidgid, attr_permissions, attr_acmodtime, Name, Response,
  version, attributes, handle, names, contents, status, response_type,
}

-- `r.Uint32(uint32(len(s))); r.Bytes([]byte(s))`
unfoldable pub write_text : Text → Writer → Writer
write_text s w = write_bytes s (write_uint 4 (length s % 2 ^ 32) w)

unfoldable pub write_if : Bool → ℕ → ℕ → Writer → Writer
write_if b n v w = if b then write_uint n v w else w

-- `attrs.Encode`
unfoldable pub write_attrs : Attrs → Writer → Writer
write_attrs a w =
    let w1 = write_uint 4 a.flags w in
    let w2 = write_if (has_flag a.flags attr_size) 8 a.size w1 in
    let w3 = write_if (has_flag a.flags attr_uidgid) 4 a.uid w2 in
    let w4 = write_if (has_flag a.flags attr_uidgid) 4 a.gid w3 in
    let w5 = write_if (has_flag a.flags attr_permissions) 4 a.permissions w4 in
    let w6 = write_if (has_flag a.flags attr_acmodtime) 4 a.atime w5 in
    write_if (has_flag a.flags attr_acmodtime) 4 a.mtime w6

-- the fields of an `attrs` value, each at its size
abbrev pub attrs_fields : Attrs → List (ℕ × ℕ)
attrs_fields a =
    (4, a.flags)
    ∷ (8, a.size)
    ∷ (4, a.uid)
    ∷ (4, a.gid)
    ∷ (4, a.permissions)
    ∷ (4, a.atime)
    ∷ (4, a.mtime)
    ∷ []

-- `binary.Write` of an `attrs` value
unfoldable pub attrs_struct : Attrs → List ℕ
attrs_struct a = struct_bytes big (attrs_fields a)

-- the loop of `pktNames.Encode`, with `r.Struct(&name.Attrs)`
unfoldable pub write_names : List Name → Writer → Writer
write_names [] w = w
write_names (n ∷ ns) w =
    write_names ns
      (write_struct (attrs_fields n.attrs) (write_text n.longname (write_text n.filename w)))

-- the `Encode` methods, less the `return r.Error()` that ends them
abbrev pub encode_version : ℕ → Writer → Writer
encode_version v w = write_uint 4 v w

abbrev pub encode_attributes : Attrs → Writer → Writer
encode_attributes a w = write_attrs a w

abbrev pub encode_handle : Text → Writer → Writer
encode_handle h w = write_text h w

abbrev pub encode_names : List Name → Writer → Writer
encode_names ns w = write_names ns (write_uint 4 (length ns % 2 ^ 32) w)

abbrev pub encode_contents : Text → Writer → Writer
encode_contents d w = write_text d w

abbrev pub encode_status : ℕ → Text → Text → Writer → Writer
encode_status code message language w =
    write_text language (write_text message (write_uint 4 code w))

-- `Encode` of a `ResponsePacket`, by its type
unfoldable pub encode : Response → Writer → Writer
encode (version v) w = encode_version v w
encode (attributes a) w = encode_attributes a w
encode (handle h) w = encode_handle h w
encode (names ns) w = encode_names ns w
encode (contents d) w = encode_contents d w
encode (status code message language) w = encode_status code message language w

abbrev pub after_write_id : Response → Option IoError × Writer → Option IoError × Writer
after_write_id pkt (some e, w) = (some e, w)
after_write_id pkt (none, w) = take_write_error (encode pkt w)

-- The packet data of `writePacket`: the id, which `pktVersion` lacks, and the fields.
unfoldable pub packet_data : Bool → ℕ → Response → Option IoError × Writer
packet_data true id pkt = take_write_error (encode pkt (new_writer buffer big))
packet_data false id pkt =
    after_write_id pkt (take_write_error (write_uint 4 id (new_writer buffer big)))

abbrev send_bytes : List ℕ → Option IoError × Sink → Option IoError × Sink
send_bytes bytes (some e, sink) = (some e, sink)
send_bytes bytes (none, sink) = sink_write bytes sink

-- the header of five bytes, and the data
abbrev pub send_data : Response → Sink → Option IoError × Writer → Option IoError × Sink
send_data pkt sink (some e, w) = (some e, sink)
send_data pkt sink (none, w) =
    let bytes = w.sink.taken in
    send_bytes bytes
      (sink_write (put_uint big 4 ((length bytes + 1) % 2 ^ 32) ++ response_type pkt ∷ []) sink)

-- `writePacket`: the error, and what the connection has taken
unfoldable pub write_packet : ℕ → Response → Sink → Option IoError × Sink
write_packet id pkt sink = send_data pkt sink (packet_data (response_type pkt == 2) id pkt)
