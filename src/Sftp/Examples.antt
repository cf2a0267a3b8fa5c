-- ===== src/Sftp/Examples.antt =====
-- The theorems on the packets at concrete packets.
use tinyrange.Prelude.{◌^◌, ◌+◌, ◌<◌, ◌≡◌, refl, [], ◌∷◌, ◌++◌, arith, none, length}
use tinyrange.Wire.Numbers.{put_uint, bytes_le}
use tinyrange.Sftp.Packets.{Attrs, no_attrs, has_flag, Request, open_file, Response, names}
use tinyrange.Sftp.Layout.{AttrsFit, HasAll, attrs_bytes, request_payload, response_payload, frame}
use tinyrange.Sftp.Decode.{decode, decoded, read_raw_packet, packet}
use tinyrange.Sftp.Encode.{attrs_struct, write_packet}
use tinyrange.Sftp.Decoding.{decode-request}
use tinyrange.Sftp.Framing.{read_raw_packet-write_packet}
use tinyrange.Sftp.Attributes.{attrs_struct-attrs_bytes}

abbrev sized : Attrs
sized = record no_attrs { flags = 5; size = 70000; permissions = 420 }

sized-AttrsFit : AttrsFit sized
unfolding has_flag
sized-AttrsFit = record {
  flags_fit = omega arith;
  size_fits = omega arith;
  uid_fits = refl;
  gid_fits = refl;
  permissions_fit = omega arith;
  atime_fits = refl;
  mtime_fits = refl;
}

abbrev all_attrs : Attrs
all_attrs = record {
  flags = 15;
  size = 70000;
  uid = 1000;
  gid = 100;
  permissions = 420;
  atime = 9;
  mtime = 10;
}

all_attrs-HasAll : HasAll all_attrs
unfolding has_flag
all_attrs-HasAll = record {
  has_size = refl;
  has_ids = refl;
  has_permissions = refl;
  has_times = refl;
}

abbrev opened : Request
opened = open_file (47 ∷ 97 ∷ []) 26 sized

decode-request_example :
    decode (record { kind = 3; payload = request_payload opened 7 ++ 0 ∷ [] }) ≡ decoded opened 7
decode-request_example =
    decode-request opened 7 (0 ∷ []) (omega arith, omega arith, sized-AttrsFit) (omega arith)

abbrev listing : Response
listing = names (record { filename = 97 ∷ []; longname = 97 ∷ []; attrs = all_attrs } ∷ [])

listing_bound : length (response_payload listing 7) + 1 < 2 ^ 32
unfolding has_flag put_uint bytes_le
listing_bound = omega arith

read_raw_packet-write_packet_example :
    (write_packet 7 listing (record { taken = []; room = none })
      ≡ (none, record { taken = [] ++ frame 104 (response_payload listing 7); room = none }))
    × (read_raw_packet (frame 104 (response_payload listing 7) ++ 1 ∷ [])
        ≡ packet (record { kind = 104; payload = response_payload listing 7 }) (1 ∷ []))
read_raw_packet-write_packet_example =
    read_raw_packet-write_packet 7 listing [] (1 ∷ [])
      (omega arith, (omega arith, omega arith, all_attrs-HasAll, tt)) listing_bound

attrs_struct-attrs_bytes_example :
    (attrs_struct all_attrs ≡ attrs_bytes all_attrs → HasAll all_attrs)
    × (HasAll all_attrs → attrs_struct all_attrs ≡ attrs_bytes all_attrs)
    × ((HasAll all_attrs → ⊥) → length (attrs_bytes all_attrs) < length (attrs_struct all_attrs))
attrs_struct-attrs_bytes_example = attrs_struct-attrs_bytes all_attrs
