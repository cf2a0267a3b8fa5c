-- ===== src/Wire/Reader.antt =====
-- `binaryReader` of pkg/common/binary/binary.go over a byte slice (`bytes.Reader`). `input` is what
-- is still to be read. A method is an action on the reader.
use tinyrange.Prelude.{
  ℕ, ◌+◌, ◌-◌, ◌%◌, ◌^◌, List, [], ◌∷◌, Option, none, some, leb, ◌==◌, if◌then◌else◌, length, take,
  drop,
}
use tinyrange.Wire.Numbers.{ByteOrder, ℤ, negsuc, get_uint, to_signed}

-- the errors of `io.ReadFull`, and of a full writer
pub data IoError : Type 0 where
  eof unexpected_eof short_write : IoError

pub record Reader : Type 0 where
  pub input : List ℕ
  pub order : ByteOrder
  pub offset : ℕ
  pub err : Option IoError

abbrev pub Read {ℓ} : Type ℓ → Type ℓ
Read A = Reader → A × Reader

infixl 5 ◌>>=◌ ◌>>◌
unfoldable pub ◌>>=◌ {ℓ κ} : {A : Type ℓ} {B : Type κ} → Read A → (A → Read B) → Read B
◌>>=◌ m f r = let (a, r') = m r in f a r'

abbrev pub ◌>>◌ {ℓ κ} : {A : Type ℓ} {B : Type κ} → Read A → Read B → Read B
m >> k = m >>= λ _. k

abbrev pub pure {ℓ} : {A : Type ℓ} → A → Read A
pure a r = (a, r)

-- `NewReader` over `bytes.NewReader(data)`, and `BytesReader`
abbrev pub new_reader : List ℕ → ByteOrder → Reader
new_reader bytes order = record { input = bytes; order = order; offset = 0; err = none }

-- `Tell`
abbrev pub tell : Read ℕ
tell r = (r.offset, r)

-- `Bytes`. A failed `io.ReadFull` has taken what was left.
unfoldable pub read_bytes : ℕ → Read (List ℕ)
read_bytes count r = elim r.err [
  | some e ↦ ([], r)
  | none ↦
      if leb count (length r.input)
      then (
        take count r.input,
        record r { input = drop count r.input; offset = (r.offset + count) % 2 ^ 64 },
      )
      else (
        [],
        record r {
          input = [];
          err = some (if length r.input == 0 then IoError.eof else IoError.unexpected_eof);
        },
      )
]

-- how many bytes the fields of a value have, by their widths
abbrev pub struct_size : List ℕ → ℕ
struct_size [] = 0
struct_size (n ∷ widths) = n + struct_size widths

-- the fields of a value, one after the other, each in this order of its bytes
unfoldable pub struct_values : ByteOrder → List ℕ → List ℕ → List ℕ
struct_values order [] bytes = []
struct_values order (n ∷ widths) bytes =
    get_uint order (take n bytes) ∷ struct_values order widths (drop n bytes)

abbrev taken_struct : List ℕ → Reader → Option (List ℕ) × Reader
taken_struct widths r =
    if leb (struct_size widths) (length r.input)
    then (
      some (struct_values r.order widths (take (struct_size widths) r.input)),
      record r { input = drop (struct_size widths) r.input },
    )
    else (
      none,
      record r {
        input = [];
        err = some (if length r.input == 0 then IoError.eof else IoError.unexpected_eof);
      },
    )

-- `Struct` of a value whose fields are unsigned integers of these widths in bytes: what `binary.Read`
-- fills the fields with, or `none` when the value is left as it was. The offset stays.
unfoldable pub read_struct : List ℕ → Read (Option (List ℕ))
read_struct widths r = elim r.err [ some e ↦ (none, r) | none ↦ taken_struct widths r ]

-- `Error`: the error, once
unfoldable pub take_error : Read (Option IoError)
take_error r = (r.err, record r { err = none })

-- `Uint8`, `Uint16`, `Uint32` and `Uint64`, on n bytes; the answer after an error has all bits set
unfoldable pub read_uint : ℕ → Read ℕ
read_uint n r = elim r.err [
  | some e ↦ (256 ^ n - 1, r)
  | none ↦
      let (bytes, r') = read_bytes n r in
      if length bytes == n then (get_uint r'.order bytes, r') else (256 ^ n - 1, r')
]

-- `Int8`, `Int16`, `Int32` and `Int64`
unfoldable pub read_int : ℕ → Read ℤ
read_int n r = elim r.err [
  | some e ↦ (negsuc 0, r)
  | none ↦
      let (bytes, r') = read_bytes n r in
      if length bytes == n then (to_signed n (get_uint r'.order bytes), r') else (negsuc 0, r')
]
