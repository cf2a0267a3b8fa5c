-- ===== src/Wire/Results.antt =====
-- What the readers and writers guarantee to their callers.
use tinyrange.Prelude.{
  take-append, drop-append, ℕ, suc, ◌-◌, ◌%◌, ◌^◌, ◌<◌, ◌≡◌, ◌∙◌, ap, sym, refl, List, [], ◌∷◌,
  ◌++◌, some, All, take, drop, length-append, arith, length, ◌==◌, if◌then◌else◌,
}
use tinyrange.Wire.Numbers.{ByteOrder, ℤ, put_uint, length-put_uint, get_uint-put_uint, of_signed}
use tinyrange.Wire.Reader.{
  Reader, IoError, new_reader, read_bytes, read_uint, read_int, struct_size, struct_values,
  read_struct, take_error,
}
use tinyrange.Wire.Writer.{
  buffer, new_writer, write_bytes, write_uint, write_int, struct_bytes, write_struct,
}
use tinyrange.Wire.RoundTrip.{at, Reads-start, Reads-uint, Reads-int, FitsSigned, leb-length}

taken-write_uint :
    (o : ByteOrder) (n v : ℕ) → (write_uint n v (new_writer buffer o)).sink.taken ≡ put_uint o n v
unfolding write_uint write_bytes
taken-write_uint o n v = refl

taken-write_int :
    (o : ByteOrder) (n : ℕ) (v : ℤ)
    → (write_int n v (new_writer buffer o)).sink.taken ≡ put_uint o n (of_signed n v)
unfolding write_int write_bytes
taken-write_int o n v = refl

-- An unsigned integer of n bytes that a writer put into a buffer is read back by a reader of the
-- same byte order, which then stands behind it, with no error.
pub read_uint-write_uint :
    (o : ByteOrder) (n v : ℕ) (rest : List ℕ)
    → v < 256 ^ n
    → read_uint n (new_reader ((write_uint n v (new_writer buffer o)).sink.taken ++ rest) o)
      ≡ (v, at o rest (n % 2 ^ 64))
read_uint-write_uint o n v rest h = rw taken-write_uint (
    Reads-start rest (Reads-uint o n v h)
    ∙ ap (λ (k : ℕ). (v, at o rest (k % 2 ^ 64))) (length-put_uint o n v))

-- A signed integer of n + 1 bytes, likewise, if it is in the range of its type.
pub read_int-write_int :
    (o : ByteOrder) (n : ℕ) (v : ℤ) (rest : List ℕ)
    → FitsSigned (suc n) v
    → read_int
        (suc n)
        (new_reader ((write_int (suc n) v (new_writer buffer o)).sink.taken ++ rest) o)
      ≡ (v, at o rest (suc n % 2 ^ 64))
read_int-write_int o n v rest h = rw taken-write_int (
    Reads-start rest (Reads-int o n v h)
    ∙ ap (λ (k : ℕ). (v, at o rest (k % 2 ^ 64))) (length-put_uint o (suc n) (of_signed (suc n) v)))

-- the reader after a read of more bytes than there are
abbrev pub exhausted : ByteOrder → List ℕ → ℕ → Reader
exhausted o input off = record {
  input = [];
  order = o;
  offset = off;
  err = some (if length input == 0 then IoError.eof else IoError.unexpected_eof);
}

-- A read of n bytes where there are fewer answers with all bits set and records the error; from then
-- on every read of a number answers with all bits set, every read of bytes answers with none, and
-- none changes the reader, until `Error` hands the error out and clears it.
pub read_uint_short :
    (o : ByteOrder) (n : ℕ) (input : List ℕ) (off m : ℕ)
    → length input < n
    → (read_uint n (at o input off) ≡ (256 ^ n - 1, exhausted o input off))
      × (read_uint m (exhausted o input off) ≡ (256 ^ m - 1, exhausted o input off))
      × (read_bytes m (exhausted o input off) ≡ ([], exhausted o input off))
      × (take_error (exhausted o input off) ≡ ((exhausted o input off).err, at o [] off))
unfolding read_uint read_bytes take_error
read_uint_short o n input off m h = (ground arith, refl, refl, refl)

-- the widths and the values of fields
abbrev pub widths : List (ℕ × ℕ) → List ℕ
widths [] = []
widths ((n, v) ∷ fields) = n ∷ widths fields

abbrev pub values : List (ℕ × ℕ) → List ℕ
values [] = []
values ((n, v) ∷ fields) = v ∷ values fields

-- a value that fits its width
abbrev pub FitsWidth : ℕ × ℕ → Type 0
FitsWidth (n, v) = v < 256 ^ n

length-struct_bytes :
    (o : ByteOrder) (fields : List (ℕ × ℕ))
    → length (struct_bytes o fields) ≡ struct_size (widths fields)
unfolding struct_bytes
length-struct_bytes o [] = refl
length-struct_bytes o ((n, v) ∷ fields) =
    length-append (put_uint o n v) (struct_bytes o fields)
    ∙ omega (arith, length-put_uint o n v, length-struct_bytes o fields)

struct_values-struct_bytes :
    (o : ByteOrder) (fields : List (ℕ × ℕ))
    → All FitsWidth fields
    → struct_values o (widths fields) (struct_bytes o fields) ≡ values fields
unfolding struct_values struct_bytes
struct_values-struct_bytes o [] h = refl
struct_values-struct_bytes o ((n, v) ∷ fields) (h, hs) =
    let first = put_uint o n v in
    let later = struct_bytes o fields in
    let exact = length-put_uint o n v in
    let head : take n (first ++ later) ≡ first =
      ap (λ (k : ℕ). take k (first ++ later)) (sym exact) ∙ take-append first later in
    let tail : drop n (first ++ later) ≡ later =
      ap (λ (k : ℕ). drop k (first ++ later)) (sym exact) ∙ drop-append first later in
    rw (head, tail, get_uint-put_uint o n v h, struct_values-struct_bytes o fields hs) refl

-- The fields of a value, unsigned integers that fit their widths, that `Struct` of a writer put into a
-- buffer in either byte order are read back by `Struct` of a reader of the same order, which then
-- stands behind them with no error; neither moves its offset.
pub read_struct-write_struct :
    (o : ByteOrder) (fields : List (ℕ × ℕ)) (rest : List ℕ) (off : ℕ)
    → All FitsWidth fields
    → ((write_struct fields (new_writer buffer o)).offset ≡ 0)
      × (read_struct
            (widths fields)
            (at o ((write_struct fields (new_writer buffer o)).sink.taken ++ rest) off)
          ≡ (some (values fields), at o rest off))
unfolding write_struct read_struct
read_struct-write_struct o fields rest off h = (
  refl,
  rw
      (
        sym (length-struct_bytes o fields),
        leb-length (struct_bytes o fields) rest,
        take-append,
        drop-append,
        struct_values-struct_bytes o fields h,
      )
      refl,
)
