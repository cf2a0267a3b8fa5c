-- ===== src/Record/Succeeds.antt =====
-- `writeTo` of pkg/record/record2.go succeeds only where it should.

use tinyrange.Prelude.{
  ℕ, ◌+◌, ◌*◌, ◌≤◌, ◌≡◌, ◌∙◌, refl, sym, true, none, some, List, [], ◌++◌, length, arith,
  length-append,
}
use tinyrange.Wire.Numbers.{bytes_le, length-bytes_le}
use tinyrange.Record.Buffer.{put, length-put}
use tinyrange.Record.Values.{
  Value, bool, int, float, string, dict, list, none_value, other, Items, no_items, item, Values,
  no_values, value, item_count, value_count, hash_key,
}
use tinyrange.Record.Writer.{
  wrote, write_to, write_items, write_values, header_size, record_dict, record_entry, record_list,
  record_int, record_float, record_bool, record_string, record_none, truth,
}
use tinyrange.Record.Layout.{
  block, layout, layout_items, layout_table, layout_values, is_writable, are_items, are_values,
  length-block,
}
use tinyrange.Record.Blocks.{entry_body, length-entry_body, length-table}
use tinyrange.Record.Written.{write_to-layout}
use tinyrange.Record.Kept.{
  and_then-Both, length-of, write_at-Kept, write_u32-Kept, write_header-Kept, write_block-Kept,
  write_number-Kept,
}

-- a value that was written where it fits was written at its length
exactly :
    (v : Value) (off : ℕ) (buf : List ℕ) (n : ℕ) (b : List ℕ)
    → write_to v off buf ≡ wrote n b
    → (is_writable v ≡ true) × (off + length (layout v) ≤ length buf)
    → (n ≡ length (layout v)) × (length b ≡ length buf)
exactly v off buf n b e (h, le) =
    let same : wrote (length (layout v)) (put off (layout v) buf) ≡ wrote n b =
      sym (write_to-layout v h off buf le) ∙ e in
    (sym (cc same), sym (length-of _ _ _ _ same) ∙ length-put off (layout v) buf)

mutual
  unfolding write_to layout is_writable item_count value_count

  write_to-succeeds :
      (v : Value) (off : ℕ) (buf : List ℕ) (n : ℕ) (b : List ℕ)
      → write_to v off buf ≡ wrote n b
      → (is_writable v ≡ true) × (off + length (layout v) ≤ length buf)
  write_to-succeeds (bool x) off buf n b e =
      (refl, write_block-Kept record_bool (truth x) off buf n b e)
  write_to-succeeds (int (some v) f) off buf n b e =
      (refl, write_number-Kept record_int v off buf n b e)
  write_to-succeeds (int none f) off buf n b e =
      (refl, write_number-Kept record_float f off buf n b e)
  write_to-succeeds (float f) off buf n b e = (refl, write_number-Kept record_float f off buf n b e)
  write_to-succeeds (string bytes) off buf n b e =
      (refl, write_block-Kept record_string bytes off buf n b e)
  write_to-succeeds (dict items) off buf n b e =
      let count = item_count items in
      let (m, c, f, g) = and_then-Both _ _ n b e in
      let (m', c', f', g') = and_then-Both _ _ n b g in
      let (h, i) = write_u32-Kept count (off + header_size) buf m c f in
      let (j, k) =
        write_items-succeeds items off (off + header_size + 4) (4 + count * 8) c m' c' (omega arith)
          f' in
      let all = k (λ z. omega arith) in
      let four = length-bytes_le 4 count in
      let wide = length-table (4 + count * 8) items j in
      let parts = length-append (layout_table (4 + count * 8) items) (layout_items items) in
      let whole =
        length-append (bytes_le 4 count)
          (layout_table (4 + count * 8) items ++ layout_items items) in
      let size =
        length-block record_dict
          (bytes_le 4 count ++ (layout_table (4 + count * 8) items ++ layout_items items)) in
      (j, omega arith)
  write_to-succeeds (list vs) off buf n b e =
      let count = value_count vs in
      let (m, c, f, g) = and_then-Both _ _ n b e in
      let (m', c', f', g') = and_then-Both _ _ n b g in
      let (h, i) = write_u32-Kept count (off + header_size) buf m c f in
      let (j, k) = write_values-succeeds vs off 4 c m' c' (omega arith) f' in
      let four = length-bytes_le 4 count in
      let whole = length-append (bytes_le 4 count) (layout_values vs) in
      let size = length-block record_list (bytes_le 4 count ++ layout_values vs) in (j, omega arith)
  write_to-succeeds none_value off buf n b e =
      let (m, c, f, g) = and_then-Both _ _ n b e in
      let (h, i) = write_header-Kept record_none 0 off buf m c f in
      let size = length-block record_none [] in (refl, omega arith)
  write_to-succeeds other off buf n b e = absurd (ground (arith, e))

  write_items-succeeds :
      (items : Items) (off table len : ℕ) (buf : List ℕ) (n : ℕ) (b : List ℕ)
      → table + item_count items * 8 ≤ off + 5 + len
      → write_items items off table len buf ≡ wrote n b
      → (are_items items ≡ true)
        × ((item_count items ≡ 0 → off + 5 + len ≤ length buf)
            → off + 5 + len + length (layout_items items) ≤ length buf)
  write_items-succeeds no_items off table len buf n b apart e = (refl, λ z. omega (arith, z refl))
  write_items-succeeds (item none v rest) off table len buf n b apart e = absurd (ground (arith, e))
  write_items-succeeds (item (some key) v rest) off table len buf n b apart e =
      let start = off + header_size + len in
      let (m0, c0, f0, g0) = and_then-Both _ _ n b e in
      let (m1, c1, f1, g1) = and_then-Both _ _ n b g0 in
      let (m2, c2, f2, g2) = and_then-Both _ _ n b g1 in
      let (m3, c3, f3, g3) = and_then-Both _ _ n b g2 in
      let (m4, c4, f4, g4) = and_then-Both _ _ n b g3 in
      let (m5, c5, f5, g5) = and_then-Both _ _ n b g4 in
      let (h0, i0) = write_u32-Kept (hash_key key) table buf m0 c0 f0 in
      let (h1, i1) = write_u32-Kept len (table + 4) c0 m1 c1 f1 in
      let (h2, i2) = write_u32-Kept (length key) (start + header_size) c1 m2 c2 f2 in
      let (h3, i3) = write_at-Kept key (start + header_size + 4) c2 m3 c3 f3 in
      let (j, k) = write_to-succeeds v (start + header_size + (4 + length key)) c3 m4 c4 f4 in
      let (p, q) = exactly v (start + header_size + (4 + length key)) c3 m4 c4 f4 (j, k) in
      let (h5, i5) = write_header-Kept record_entry (4 + length key + m4) start c4 m5 c5 f5 in
      let (r, s) =
        write_items-succeeds rest off (table + 8) (len + (header_size + (4 + length key + m4))) c5 n
          b (omega arith) g5 in
      let all = s (λ z. omega arith) in
      let long = length-block record_entry (entry_body key (layout v)) in
      let longer = length-entry_body key (layout v) in
      let total =
        length-append (block record_entry (entry_body key (layout v))) (layout_items rest) in
      (rw (j, r) refl, λ z. omega arith)

  write_values-succeeds :
      (vs : Values) (off len : ℕ) (buf : List ℕ) (n : ℕ) (b : List ℕ)
      → off + 5 + len ≤ length buf
      → write_values vs off len buf ≡ wrote n b
      → (are_values vs ≡ true) × (off + 5 + len + length (layout_values vs) ≤ length buf)
  write_values-succeeds no_values off len buf n b le e = (refl, omega arith)
  write_values-succeeds (value v rest) off len buf n b le e =
      let (m, c, f, g) = and_then-Both _ _ n b e in
      let (j, k) = write_to-succeeds v (off + header_size + len) buf m c f in
      let (p, q) = exactly v (off + header_size + len) buf m c f (j, k) in
      let (r, s) = write_values-succeeds rest off (len + m) c n b (omega arith) g in
      let total = length-append (layout v) (layout_values rest) in (rw (j, r) refl, omega arith)

-- `writeTo` succeeds exactly for a value whose parts have types that are handled, with strings for
-- keys, and exactly where its whole layout lies inside the buffer. Then it answers the length of the
-- layout, and it writes the layout there and nothing else.
pub write_to_exact :
    (v : Value) (off : ℕ) (buf : List ℕ)
    → ((is_writable v ≡ true) × (off + length (layout v) ≤ length buf)
        → write_to v off buf ≡ wrote (length (layout v)) (put off (layout v) buf))
      × ((n : ℕ) (b : List ℕ)
          → write_to v off buf ≡ wrote n b
          → (is_writable v ≡ true) × (off + length (layout v) ≤ length buf))
write_to_exact v off buf =
    ((λ h. write_to-layout v h.0 off buf h.1), (λ n b e. write_to-succeeds v off buf n b e))
