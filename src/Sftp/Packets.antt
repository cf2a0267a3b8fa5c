-- ===== src/Sftp/Packets.antt =====
-- The packets of pkg/sftp/packet.go. A Go string is its list of bytes; flags, codes and kinds are
-- the numbers that the wire carries.
use Prim.Native.Nat.{bit_and}
use tinyrange.Prelude.{ℕ, List, Bool, not, ◌==◌}

abbrev pub Text : Type 0
Text = List ℕ

pub record Attrs : Type 0 where
  pub flags : ℕ
  pub size : ℕ
  pub uid : ℕ
  pub gid : ℕ
  pub permissions : ℕ
  pub atime : ℕ
  pub mtime : ℕ

abbrev pub attr_size : ℕ
attr_size = 0x00000001

abbrev pub attr_uidgid : ℕ
attr_uidgid = 0x00000002

abbrev pub attr_permissions : ℕ
attr_permissions = 0x00000004

abbrev pub attr_acmodtime : ℕ
attr_acmodtime = 0x00000008

-- `a.Flags & flag != 0`
unfoldable pub has_flag : ℕ → ℕ → Bool
has_flag flags flag = not (bit_and flags flag == 0)

abbrev pub no_attrs : Attrs
no_attrs = record { flags = 0; size = 0; uid = 0; gid = 0; permissions = 0; atime = 0; mtime = 0 }

-- The packets that a client sends: `pktInit` and so on.
pub data Request : Type 0 where
  init : ℕ → Request
  open_file : Text → ℕ → Attrs → Request
  close : Text → Request
  read : Text → ℕ → ℕ → Request
  write : Text → ℕ → Text → Request
  remove : Text → Request
  rename : Text → Text → Request
  mkdir : Text → Attrs → Request
  rmdir opendir readdir stat lstat fstat : Text → Request
  setstat fsetstat : Text → Attrs → Request
  readlink : Text → Request
  symlink : Text → Text → Request
  realpath : Text → Request

pub record Name : Type 0 where
  pub filename : Text
  pub longname : Text
  pub attrs : Attrs

-- The packets that the server sends: `pktVersion` and so on.
pub data Response : Type 0 where
  version : ℕ → Response
  attributes : Attrs → Response
  handle : Text → Response
  names : List Name → Response
  contents : Text → Response
  status : ℕ → Text → Text → Response

-- `Type`
unfoldable pub response_type : Response → ℕ
response_type (version v) = 2
response_type (attributes a) = 105
response_type (handle h) = 102
response_type (names ns) = 104
response_type (contents d) = 103
response_type (status code message language) = 101

pub record RawPacket : Type 0 where
  pub kind : ℕ
  pub payload : List ℕ
