-- ===== src/Record/Reader.antt =====
-- The records of pkg/record/record2.go that a reader goes through: the first bytes are at hand, and the
-- rest is read when it is needed. A file is what an `os.File` reads from it: what is there, with
-- `io.EOF` if that is less than was asked for.
use tinyrange.Prelude.{
  ℕ, zero, suc, ◌+◌, ◌-◌, ◌*◌, ◌%◌, ◌^◌, Option, none, some, List, [], ◌∷◌, ◌++◌, ltb, ◌==◌, ◌||◌,
  if◌then◌else◌, length, take, drop,
}
use tinyrange.Wire.Numbers.{value_le}
use tinyrange.Record.Writer.{
  header_size, record_dict, record_entry, record_list, record_string, record_none,
}

-- `len(r.data)`
abbrev pub cached : ℕ
cached = 968

-- `record`; `rest` is `none` until it is read.
pub record Loaded : Type 0 where
  pub file : List ℕ
  pub off : ℕ
  pub data_bytes : List ℕ
  pub total_len : ℕ
  pub rest : Option (List ℕ)

pub data ReadFault : Type 0 where
  end_of_file invalid_read entry_value not_an_entry not_a_string : ReadFault
  unimplemented : ℕ → ReadFault

-- How a read ends: with what it gives, with an error, or with a panic.
pub data Outcome (A : Type 0) : Type 0 where
  got : A → Outcome A
  failed : ReadFault → Outcome A
  panicked : Outcome A

abbrev pub Reading : Type 0 → Type 0
Reading A = Outcome A × Loaded

-- what follows `if err != nil`
abbrev pub then_read : {A B : Type 0} → Reading A → (A → Loaded → Reading B) → Reading B
then_read (got a, r) k = k a r
then_read (failed e, r) k = (failed e, r)
then_read (panicked, r) k = (panicked, r)

-- `copy` of these bytes into so many zeros
unfoldable pub copied : ℕ → List ℕ → List ℕ
copied zero bytes = []
copied (suc n) [] = 0 ∷ copied n []
copied (suc n) (b ∷ bytes) = b ∷ copied n bytes

abbrev pub filled : ℕ → List ℕ → Loaded → Reading Unit
filled n bytes r = (
  (if ltb (length bytes) n then failed end_of_file else got tt),
  record r { rest = some (copied n bytes) },
)

abbrev pub read_rest_with : Option (List ℕ) → Loaded → Reading Unit
read_rest_with (some rest) r = (got tt, r)
read_rest_with none r =
    if ltb r.total_len cached
    then (panicked, r)
    else filled (r.total_len - cached) (take (r.total_len - cached) (drop (r.off + cached) r.file))
        r

-- `readRest`, which panics where a slice of negative length is made
unfoldable pub read_rest : Loaded → Reading Unit
read_rest r = read_rest_with r.rest r

abbrev pub rest_bytes : Option (List ℕ) → List ℕ
rest_bytes none = []
rest_bytes (some rest) = rest

-- what follows `readRest` in `ReadAt`
abbrev pub behind : List ℕ → ℕ → ℕ → Reading Unit → Reading (List ℕ)
behind first n k w = then_read w (λ u r. (got (first ++ copied n (drop k (rest_bytes r.rest))), r))

-- `ReadAt` into so many zeros
unfoldable pub read_at : ℕ → ℕ → Loaded → Reading (List ℕ)
read_at len off r =
    if ltb r.total_len off
    then (failed end_of_file, r)
    else if ltb off cached
    then (if ltb (off + len) cached
        then (got (take len (drop off r.data_bytes)), r)
        else behind (take len (drop off r.data_bytes)) (len - (cached - off)) 0 (read_rest r))
    else behind [] len (off - cached) (read_rest r)

-- `readU32`
unfoldable pub read_u32 : ℕ → Loaded → Reading ℕ
read_u32 off r = then_read (read_at 4 off r) (λ bytes r'. (got (value_le bytes), r'))

-- `readRecord`: the kind and the length
unfoldable pub read_record : ℕ → Loaded → Reading (ℕ × ℕ)
read_record off r =
    then_read (read_at 5 off r)
      (λ bytes r'. (got (value_le (drop 4 bytes), value_le (take 4 bytes)), r'))

-- A starlark value that was read: a list and a dict stay in the record.
pub data View : Type 0 where
  none_view : View
  string_view : List ℕ → View
  list_view : ℕ → ℕ → View
  dict_view : ℕ → ℕ → List ℕ → View

-- `recordToString`; the length is that of the record, a `uint32`.
unfoldable pub record_to_string : ℕ → ℕ → Loaded → Reading View
record_to_string off len r =
    then_read (read_at ((len + (2 ^ 32 - header_size)) % 2 ^ 32) (off + header_size) r)
      (λ bytes r'. (got (string_view bytes), r'))

-- `recordToList`
unfoldable pub record_to_list : ℕ → Loaded → Reading View
record_to_list off r =
    then_read (read_u32 (off + header_size) r) (λ count r'. (got (list_view off count), r'))

-- `recordToDict`
unfoldable pub record_to_dict : ℕ → Loaded → Reading View
record_to_dict off r = then_read (read_u32 (off + header_size) r) (λ count r'.
    then_read (read_at (count * 8 % 2 ^ 32) (off + header_size + 4) r')
      (λ index r''. (got (dict_view off count index), r'')))

abbrev pub by_kind : ℕ → ℕ → ℕ → Loaded → Reading View
by_kind kind len off r =
    if (kind == 0) || ltb record_none kind
    then (failed invalid_read, r)
    else if kind == record_none
    then (got none_view, r)
    else if kind == record_dict
    then record_to_dict off r
    else if kind == record_entry
    then (failed entry_value, r)
    else if kind == record_list
    then record_to_list off r
    else if kind == record_string
    then record_to_string off len r
    else (failed (unimplemented kind), r)

-- `toStarlarkValue`
unfoldable pub to_value : ℕ → Loaded → Reading View
to_value off r = then_read (read_record off r) (λ head r'. by_kind head.0 head.1 off r')

-- `recordListIterator`
pub record ListIterator : Type 0 where
  pub at : ℕ
  pub index : ℕ
  pub count : ℕ

-- `Iterate` of a list at this place and of this length
unfoldable pub iterate : ℕ → ℕ → ListIterator
iterate off count = record { at = off + header_size + 4; index = 0; count = count }

-- what an iterator gives: a value, and itself moved on; or nothing, be it for an error
pub data Next : Type 0 where
  next_value : View → ListIterator → Next
  no_next : Next

abbrev pub give_next : ListIterator → ℕ → Reading View → Outcome Next × Loaded
give_next it len (got v, r) =
    (got (next_value v (record it { at = it.at + len; index = it.index + 1 })), r)
give_next it len (failed e, r) = (got no_next, r)
give_next it len (panicked, r) = (panicked, r)

abbrev pub with_header : ListIterator → Reading (ℕ × ℕ) → Outcome Next × Loaded
with_header it (got (kind, len), r) = give_next it len (to_value it.at r)
with_header it (failed e, r) = (got no_next, r)
with_header it (panicked, r) = (panicked, r)

-- `Next`
unfoldable pub next : ListIterator → Loaded → Outcome Next × Loaded
next it r = if it.index == it.count then (got no_next, r) else with_header it (read_record it.at r)

-- What `readValues` sends: the records, and then the error that ends it; `more` if it has not ended
-- after so many records.
pub data Sent : Type 0 where
  next_record : Loaded → Sent → Sent
  read_error : ReadFault → Sent
  more : Sent

abbrev pub sent_at : List ℕ → ℕ → List ℕ → (ℕ → Sent) → Sent
sent_at file off bytes rest =
    let len = value_le (take 4 bytes) in
    let kind = value_le (take 1 (drop 4 bytes)) in
    let behind = rest (off + len) in
    if ltb (length bytes) cached
    then read_error end_of_file
    else if (kind == 0) || ltb record_none kind
    then read_error invalid_read
    else next_record
        (record { file = file; off = off; data_bytes = bytes; total_len = len; rest = none }) behind

-- `readValues`
unfoldable pub read_values : ℕ → List ℕ → ℕ → Sent
read_values zero file off = more
read_values (suc n) file off =
    sent_at file off (take cached (drop off file)) (λ off'. read_values n file off')
