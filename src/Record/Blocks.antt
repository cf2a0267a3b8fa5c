-- ===== src/Record/Blocks.antt =====
-- The blocks that `writeTo` of pkg/record/record2.go puts together.
use tinyrange.Prelude.{
  ℕ, ◌+◌, ◌*◌, ◌≤◌, ◌≡◌, ◌∙◌, refl, sym, ap, Bool, true, none, some, List, ◌++◌, ◌&&◌, length,
  arith, length-append,
}
use tinyrange.Wire.Numbers.{bytes_le, length-bytes_le}
use tinyrange.Record.Buffer.{put, length-put, put-next}
use tinyrange.Record.Values.{Value, Items, no_items, item, item_count, hash_key}
use tinyrange.Record.Writer.{
  Written, wrote, overflowed, unsupported, and_then, write_at, write_u32, write_header, write_block,
  write_number, write_to, header_size, record_entry,
}
use tinyrange.Record.Layout.{block, layout, layout_table, is_writable, are_items, length-block}
use tinyrange.Record.Steps.{
  and_then-wrote, write_at-fits, write_u32-fits, write_header-body, write_block-fits,
  write_number-fits, wrote-eq, enclosed-fits,
}

abbrev pub Fits : List ℕ → ℕ → List ℕ → Type 0
Fits bytes off buf = off + length bytes ≤ length buf

-- the value writes these bytes wherever they fit
abbrev pub WritesAs : Value → List ℕ → Type 0
WritesAs v bytes =
    (off : ℕ) (buf : List ℕ)
    → Fits bytes off buf
    → write_to v off buf ≡ wrote (length bytes) (put off bytes buf)

abbrev pub entry_body : List ℕ → List ℕ → List ℕ
entry_body key bytes = (bytes_le 4 (length key) ++ key) ++ bytes

pub length-entry_body :
    (key bytes : List ℕ) → length (entry_body key bytes) ≡ 4 + length key + length bytes
length-entry_body key bytes =
    length-append (bytes_le 4 (length key) ++ key) bytes
    ∙ omega (arith, length-append (bytes_le 4 (length key)) key, length-bytes_le 4 (length key))

-- an entry: the length of its key, the key, the value, and at last the header
pub entry-fits :
    (key : List ℕ) (v : Value) (bytes : List ℕ) (start : ℕ) (buf : List ℕ)
    (k : ℕ → List ℕ → Written)
    → WritesAs v bytes
    → start + (5 + (4 + length key + length bytes)) ≤ length buf
    → and_then (write_u32 (length key) (start + header_size) buf) (λ n2 b2.
      and_then (write_at key (start + header_size + 4) b2) (λ n3 b3.
        and_then (write_to v (start + header_size + (4 + length key)) b3) (λ val_len b4.
          and_then
            (write_header record_entry (4 + length key + val_len) start b4)
            (λ n5 b5. k val_len b5))))
      ≡ k (length bytes) (put start (block record_entry (entry_body key bytes)) buf)
entry-fits key v bytes start buf k ih le =
    let size = bytes_le 4 (length key) in
    let four = length-bytes_le 4 (length key) in
    let b2 = put (start + 5) size buf in
    let b3 = put (start + 5 + 4) key b2 in
    let b4 = put (start + 5 + (4 + length key)) bytes b3 in
    let kept2 = length-put (start + 5) size buf in
    let kept3 = length-put (start + 5 + 4) key b2 in
    let all = length-entry_body key bytes in
    let filled : b4 ≡ put (start + 5) (entry_body key bytes) buf =
      ap (put (start + 5 + (4 + length key)) bytes)
        (put-next (start + 5) (start + 5 + 4) size key buf (omega arith))
      ∙ put-next (start + 5) (start + 5 + (4 + length key)) (size ++ key) bytes buf
          (omega (arith, length-append size key)) in
    and_then-wrote _ (write_u32-fits (length key) (start + header_size) buf (omega arith)) (
      and_then-wrote _ (write_at-fits key (start + header_size + 4) b2 (omega arith)) (
        and_then-wrote _ (ih (start + header_size + (4 + length key)) b3 (omega arith)) (
          and_then-wrote _
            (ap (λ (n : ℕ). write_header record_entry n start b4) (sym all)
              ∙ ap (write_header record_entry (length (entry_body key bytes)) start) filled
              ∙ write_header-body record_entry start (entry_body key bytes) buf (omega arith))
            refl)))

pub both : (a b : Bool) → (a && b) ≡ true → (a ≡ true) × (b ≡ true)
both a b h = (ground (arith, h), ground (arith, h))

pub length-table :
    (place : ℕ) (items : Items)
    → are_items items ≡ true
    → length (layout_table place items) ≡ item_count items * 8
unfolding layout is_writable item_count
length-table place no_items h = refl
length-table place (item none v rest) h = absurd (ground (arith, h))
length-table place (item (some key) v rest) h =
    let first = bytes_le 4 (hash_key key) ++ bytes_le 4 place in
    let next = place + length (block record_entry (entry_body key (layout v))) in
    length-append first (layout_table next rest)
    ∙ omega (
      arith,
      length-append (bytes_le 4 (hash_key key)) (bytes_le 4 place),
      length-bytes_le 4 (hash_key key),
      length-bytes_le 4 place,
      length-table next rest (both (is_writable v) (are_items rest) h).1,
    )

abbrev pub laid : List ℕ → ℕ → List ℕ → Written
laid bytes off buf = wrote (length bytes) (put off bytes buf)

pub block-laid :
    (kind : ℕ) (body : List ℕ) (off : ℕ) (buf : List ℕ)
    → Fits (block kind body) off buf
    → write_block kind body off buf ≡ laid (block kind body) off buf
block-laid kind body off buf le =
    let size = length-block kind body in
    write_block-fits kind body off buf (omega arith) ∙ wrote-eq (sym size) refl

pub number-laid :
    (kind v off : ℕ) (buf : List ℕ)
    → Fits (block kind (bytes_le 8 v)) off buf
    → write_number kind v off buf ≡ laid (block kind (bytes_le 8 v)) off buf
number-laid kind v off buf le =
    let size = length-block kind (bytes_le 8 v) in
    let eight = length-bytes_le 8 v in
    write_number-fits kind v off buf (omega arith) ∙ wrote-eq (omega arith) refl

-- a count and what is counted, in a block
pub counted-laid :
    (kind count off n : ℕ) (rest buf : List ℕ) (k : ℕ → List ℕ → Written)
    → Fits (block kind (bytes_le 4 count ++ rest)) off buf
    → ((b : List ℕ) → length b ≡ length buf → k 0 b ≡ wrote n (put (off + 5 + 4) rest b))
    → n ≡ 4 + length rest
    → and_then
        (and_then (write_u32 count (off + header_size) buf) k)
        (λ len b. and_then (write_header kind len off b) (λ n' b'. wrote (header_size + len) b'))
      ≡ laid (block kind (bytes_le 4 count ++ rest)) off buf
counted-laid kind count off n rest buf k le h e =
    let four = bytes_le 4 count in
    let size = length-bytes_le 4 count in
    let body = length-append four rest in
    let all = length-block kind (four ++ rest) in
    and_then-wrote _
      (and_then-wrote k (write_u32-fits count (off + header_size) buf (omega arith))
        (h (put (off + 5) four buf) (length-put (off + 5) four buf)))
      (enclosed-fits kind off n (four ++ rest) buf (put (off + 5 + 4) rest (put (off + 5) four buf))
        (omega arith) (put-next (off + 5) (off + 5 + 4) four rest buf (omega arith)) (omega arith))

-- the order in which the writes of two loops are put together plays no part
pub and_then_assoc :
    (w : Written) (f g : ℕ → List ℕ → Written)
    → and_then w (λ n b. and_then (f n b) g) ≡ and_then (and_then w f) g
unfolding and_then
and_then_assoc (wrote n b) f g = refl
and_then_assoc (overflowed b) f g = refl
and_then_assoc (unsupported b) f g = refl
