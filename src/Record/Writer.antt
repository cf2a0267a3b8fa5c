-- ===== src/Record/Writer.antt =====
-- `RecordWriter2` of pkg/record/record2.go, which lays a value out in its buffer and hands it to an
-- `io.Writer`.
use tinyrange.Prelude.{
  ℕ, ◌+◌, ◌*◌, Bool, true, false, Option, none, some, List, [], ◌∷◌, ltb, if◌then◌else◌, length,
  take,
}
use tinyrange.Wire.Numbers.{bytes_le}
use tinyrange.Wire.Reader.{IoError}
use tinyrange.Wire.Writer.{Sink, sink_write}
use tinyrange.Record.Buffer.{put}
use tinyrange.Record.Values.{
  Value, bool, int, float, string, dict, list, none_value, other, Items, no_items, item, Values,
  no_values, value, item_count, value_count, hash_key,
}

-- `_RECORD_DICT` and so on
abbrev pub record_dict : ℕ
record_dict = 1

abbrev pub record_entry : ℕ
record_entry = 2

abbrev pub record_list : ℕ
record_list = 3

abbrev pub record_int : ℕ
record_int = 4

abbrev pub record_float : ℕ
record_float = 5

abbrev pub record_bool : ℕ
record_bool = 6

abbrev pub record_string : ℕ
record_string = 7

abbrev pub record_none : ℕ
record_none = 8

-- `HEADER_SIZE`
abbrev pub header_size : ℕ
header_size = 5

-- What a write ends in: the length that it answers, or an error; and the buffer, which an error
-- leaves as far as it was written.
pub data Written : Type 0 where
  wrote : ℕ → List ℕ → Written
  overflowed unsupported : List ℕ → Written

-- what follows `if err != nil { return 0, err }`
unfoldable pub and_then : Written → (ℕ → List ℕ → Written) → Written
and_then (wrote n buf) k = k n buf
and_then (overflowed buf) k = overflowed buf
and_then (unsupported buf) k = unsupported buf

-- `writeAt`
unfoldable pub write_at : List ℕ → ℕ → List ℕ → Written
write_at bytes off buf =
    if ltb (length buf) (length bytes + off) then overflowed buf else wrote 0 (put off bytes buf)

-- `writeU32`
unfoldable pub write_u32 : ℕ → ℕ → List ℕ → Written
write_u32 v off buf =
    if ltb (length buf) (4 + off) then overflowed buf else wrote 0 (put off (bytes_le 4 v) buf)

-- `writeU64`
unfoldable pub write_u64 : ℕ → ℕ → List ℕ → Written
write_u64 v off buf =
    if ltb (length buf) (8 + off) then overflowed buf else wrote 0 (put off (bytes_le 8 v) buf)

-- `writeHeader`
unfoldable pub write_header : ℕ → ℕ → ℕ → List ℕ → Written
write_header kind len off buf =
    and_then (write_u32 (header_size + len) off buf) (λ n b. write_at (kind ∷ []) (off + 4) b)

-- the header and the body of a number
abbrev pub write_number : ℕ → ℕ → ℕ → List ℕ → Written
write_number kind v off buf =
    and_then (write_header kind 8 off buf)
      (λ n b. and_then (write_u64 v (off + header_size) b) (λ n' b'. wrote (header_size + 8) b'))

-- the header and the body of bytes
abbrev pub write_block : ℕ → List ℕ → ℕ → List ℕ → Written
write_block kind bytes off buf = and_then (write_header kind (length bytes) off buf) (λ n b.
    and_then (write_at bytes (off + header_size) b)
      (λ n' b'. wrote (header_size + length bytes) b'))

abbrev pub truth : Bool → List ℕ
truth true = 1 ∷ []
truth false = 0 ∷ []

-- `writeTo`; `write_items` and `write_values` are its loops, which know the length so far.
unfoldable mutual
  pub write_to : Value → ℕ → List ℕ → Written
  write_to (bool b) off buf = write_block record_bool (truth b) off buf
  write_to (int (some v) f) off buf = write_number record_int v off buf
  write_to (int none f) off buf = write_number record_float f off buf
  write_to (float f) off buf = write_number record_float f off buf
  write_to (string bytes) off buf = write_block record_string bytes off buf
  write_to (dict items) off buf =
      and_then (write_u32 (item_count items) (off + header_size) buf) (λ n b.
        and_then (write_items items off (off + header_size + 4) (4 + item_count items * 8) b)
          (λ len b'.
            and_then (write_header record_dict len off b')
              (λ n' b''. wrote (header_size + len) b'')))
  write_to (list vs) off buf = and_then (write_u32 (value_count vs) (off + header_size) buf) (λ n b.
      and_then (write_values vs off 4 b) (λ len b'.
        and_then (write_header record_list len off b') (λ n' b''. wrote (header_size + len) b'')))
  write_to none_value off buf =
      and_then (write_header record_none 0 off buf) (λ n b. wrote header_size b)
  write_to other off buf = unsupported buf

  pub write_items : Items → ℕ → ℕ → ℕ → List ℕ → Written
  write_items no_items off table len buf = wrote len buf
  write_items (item none v rest) off table len buf = unsupported buf
  write_items (item (some key) v rest) off table len buf =
      let start = off + header_size + len in
      and_then (write_u32 (hash_key key) table buf) (λ n b.
        and_then (write_u32 len (table + 4) b) (λ n1 b1.
          and_then (write_u32 (length key) (start + header_size) b1) (λ n2 b2.
            and_then (write_at key (start + header_size + 4) b2) (λ n3 b3.
              and_then (write_to v (start + header_size + (4 + length key)) b3) (λ val_len b4.
                and_then (write_header record_entry (4 + length key + val_len) start b4) (λ n5 b5.
                  write_items rest off (table + 8)
                    (len + (header_size + (4 + length key + val_len))) b5))))))

  pub write_values : Values → ℕ → ℕ → List ℕ → Written
  write_values no_values off len buf = wrote len buf
  write_values (value v rest) off len buf =
      and_then (write_to v (off + header_size + len) buf)
        (λ val_len b. write_values rest off (len + val_len) b)

pub record RecordWriter : Type 0 where
  pub sink : Sink
  pub record_buf : List ℕ

-- What `Emit` answers: nothing, the error of the `io.Writer`, or that of `writeTo`
pub data Emitted : Type 0 where
  emitted : Emitted
  sink_error : IoError → Emitted
  too_long not_writable : Emitted

abbrev pub sent : List ℕ → Option IoError × Sink → Emitted × RecordWriter
sent buf (none, sink) = (emitted, record { sink = sink; record_buf = buf })
sent buf (some e, sink) = (sink_error e, record { sink = sink; record_buf = buf })

abbrev pub emit_written : Sink → Written → Emitted × RecordWriter
emit_written sink (wrote n buf) = sent buf (sink_write (take n buf) sink)
emit_written sink (overflowed buf) = (too_long, record { sink = sink; record_buf = buf })
emit_written sink (unsupported buf) = (not_writable, record { sink = sink; record_buf = buf })

-- `Emit`
unfoldable pub emit : Value → RecordWriter → Emitted × RecordWriter
emit v w = emit_written w.sink (write_to v 0 w.record_buf)
