-- ===== src/Wire/Writer.antt =====
-- `binaryWriter` of pkg/common/binary/binary.go. The `io.Writer` behind it is `sink`: what it has
-- taken, and how much more it takes, `none` for a `bytes.Buffer`, which takes everything. A write
-- that does not fit is cut short and fails, as the contract of `io.Writer` has it.
use tinyrange.Prelude.{
  ℕ, ◌+◌, ◌-◌, ◌%◌, ◌^◌, List, [], ◌∷◌, ◌++◌, Option, none, some, leb, if◌then◌else◌, length, take,
}
use tinyrange.Wire.Numbers.{ByteOrder, ℤ, put_uint, of_signed}
use tinyrange.Wire.Reader.{IoError}

pub record Sink : Type 0 where
  pub taken : List ℕ
  pub room : Option ℕ

-- the contract of `io.Writer.Write`: the error, and the sink
unfoldable pub sink_write : List ℕ → Sink → Option IoError × Sink
sink_write b s = elim s.room [
  | none ↦ (none, record s { taken = s.taken ++ b })
  | some room ↦
      if leb (length b) room
      then (none, record { taken = s.taken ++ b; room = some (room - length b) })
      else (some IoError.short_write, record { taken = s.taken ++ take room b; room = some 0 })
]

pub record Writer : Type 0 where
  pub sink : Sink
  pub order : ByteOrder
  pub offset : ℕ
  pub err : Option IoError

-- `NewWriter`
abbrev pub new_writer : Sink → ByteOrder → Writer
new_writer sink order = record { sink = sink; order = order; offset = 0; err = none }

abbrev pub buffer : Sink
buffer = record { taken = []; room = none }

-- `Bytes`. It writes on after an error, and an error replaces the one before.
unfoldable pub write_bytes : List ℕ → Writer → Writer
unfolding sink_write
write_bytes b w =
    let (failed, sink') = sink_write b w.sink in
    elim failed [
      | some e ↦ record w { sink = sink'; err = some e }
      | none ↦ record w { sink = sink'; offset = (w.offset + length b) % 2 ^ 64 }
    ]

-- The bytes of a value for `binary.Write`: its fields, unsigned integers with their widths in bytes, one
-- after the other.
unfoldable pub struct_bytes : ByteOrder → List (ℕ × ℕ) → List ℕ
struct_bytes order [] = []
struct_bytes order ((n, v) ∷ fields) = put_uint order n v ++ struct_bytes order fields

-- `Struct` of a value with these fields: nothing after an error, and the offset stays.
unfoldable pub write_struct : List (ℕ × ℕ) → Writer → Writer
unfolding sink_write
write_struct fields w = elim w.err [
  | some e ↦ w
  | none ↦
      let (failed, sink') = sink_write (struct_bytes w.order fields) w.sink in
      elim failed [
        | some e ↦ record w { sink = sink'; err = some e }
        | none ↦ record w { sink = sink' }
      ]
]

-- `Uint8`, `Uint16`, `Uint32` and `Uint64`, on n bytes
unfoldable pub write_uint : ℕ → ℕ → Writer → Writer
write_uint n v w = write_bytes (put_uint w.order n v) w

-- `Int8`, `Int16`, `Int32` and `Int64`
unfoldable pub write_int : ℕ → ℤ → Writer → Writer
write_int n v w = write_bytes (put_uint w.order n (of_signed n v)) w

-- `Error`: the error, once
unfoldable pub take_write_error : Writer → Option IoError × Writer
take_write_error w = (w.err, record w { err = none })
