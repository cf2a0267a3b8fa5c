-- ===== src/Record/Written.antt =====
-- `writeTo` of pkg/record/record2.go lays values out as the format has them.
use tinyrange.Prelude.{
  append-nil, ℕ, ◌+◌, ◌*◌, ◌≤◌, ◌≡◌, ◌∙◌, refl, sym, ap, true, none, some, List, [], ◌++◌, length,
  arith, length-append,
}
use tinyrange.Wire.Numbers.{bytes_le, length-bytes_le}
use tinyrange.Record.Buffer.{put, length-put, put-nil, put-next, put-before, put-grown}
use tinyrange.Record.Values.{
  Value, bool, int, float, string, dict, list, none_value, other, Items, no_items, item, Values,
  no_values, value, item_count, value_count, hash_key,
}
use tinyrange.Record.Writer.{
  wrote, write_to, write_items, write_values, header_size, record_dict, record_entry, record_list,
  record_int, record_float, record_bool, record_string, record_none, truth,
}
use tinyrange.Record.Layout.{
  header, block, layout, layout_items, layout_table, layout_values, is_writable, are_items,
  are_values, length-block,
}
use tinyrange.Record.Steps.{and_then-wrote, write_u32-fits, write_header-fits, wrote-eq}
use tinyrange.Record.Blocks.{
  Fits, WritesAs, entry_body, length-entry_body, entry-fits, both, length-table, block-laid,
  number-laid, counted-laid, and_then_assoc,
}

mutual
  unfolding write_to layout is_writable item_count value_count

  pub write_to-layout : (v : Value) → is_writable v ≡ true → WritesAs v (layout v)
  write_to-layout (bool b) h off buf le = block-laid record_bool (truth b) off buf le
  write_to-layout (int (some v) f) h off buf le = number-laid record_int v off buf le
  write_to-layout (int none f) h off buf le = number-laid record_float f off buf le
  write_to-layout (float f) h off buf le = number-laid record_float f off buf le
  write_to-layout (string bytes) h off buf le = block-laid record_string bytes off buf le
  write_to-layout (dict items) h off buf le =
      let count = item_count items in
      let table = layout_table (4 + count * 8) items in
      let entries = layout_items items in
      let wide = length-table (4 + count * 8) items h in
      let both_parts = length-append table entries in
      let all = length-block record_dict (bytes_le 4 count ++ (table ++ entries)) in
      let some_all = length-append (bytes_le 4 count) (table ++ entries) in
      let four = length-bytes_le 4 count in
      and_then_assoc _ _ _
      ∙ counted-laid record_dict count off (4 + count * 8 + length entries) (table ++ entries) buf _
          le
          (λ b same.
            write_items-layout items off (off + header_size + 4) (4 + count * 8) b h (omega arith)
              (omega arith)
            ∙ ap (wrote (4 + count * 8 + length entries)) (
                put-before (off + 5 + 4) (off + 5 + (4 + count * 8)) table entries b (omega arith)))
          (omega arith)
  write_to-layout (list vs) h off buf le =
      let count = value_count vs in
      let ls = layout_values vs in
      let all = length-block record_list (bytes_le 4 count ++ ls) in
      let some_all = length-append (bytes_le 4 count) ls in
      let four = length-bytes_le 4 count in
      and_then_assoc _ _ _
      ∙ counted-laid record_list count off (4 + length ls) ls buf _ le
          (λ b same. write_values-layout vs off 4 b h (omega arith)) refl
  write_to-layout none_value h off buf le =
      let size = length-block record_none [] in
      and_then-wrote _ (write_header-fits record_none 0 off buf (omega arith)) (
        wrote-eq (omega arith)
          (ap (λ (l : List ℕ). put off l buf) (sym (append-nil (header record_none 0)))))
  write_to-layout other h off buf le = absurd (ground (arith, h))

  pub write_items-layout :
      (items : Items) (off table len : ℕ) (buf : List ℕ)
      → are_items items ≡ true
      → table + item_count items * 8 ≤ off + 5 + len
      → Fits (layout_items items) (off + 5 + len) buf
      → write_items items off table len buf
        ≡ wrote
            (len + length (layout_items items))
            (put table (layout_table len items) (put (off + 5 + len) (layout_items items) buf))
  write_items-layout no_items off table len buf h apart le =
      wrote-eq (omega arith)
        (sym (put-nil table (put (off + 5 + len) [] buf) ∙ put-nil (off + 5 + len) buf))
  write_items-layout (item none v rest) off table len buf h apart le = absurd (ground (arith, h))
  write_items-layout (item (some key) v rest) off table len buf h apart le =
      let (v_writable, rest_are) = both (is_writable v) (are_items rest) h in
      let entry = block record_entry (entry_body key (layout v)) in
      let place = len + length entry in
      let start = off + 5 + len in
      let hash = bytes_le 4 (hash_key key) in
      let at = bytes_le 4 len in
      let long = length-block record_entry (entry_body key (layout v)) in
      let longer = length-entry_body key (layout v) in
      let total = length-append entry (layout_items rest) in
      let b1 = put table hash buf in
      let b2 = put (table + 4) at b1 in
      let b3 = put start entry b2 in
      let kept1 = length-put table hash buf in
      let kept2 = length-put (table + 4) at b1 in
      let kept3 = length-put start entry b2 in
      let four1 = length-bytes_le 4 (hash_key key) in
      let four2 = length-bytes_le 4 len in
      let head = length-append hash at in
      and_then-wrote _ (write_u32-fits (hash_key key) table buf (omega arith)) (
        and_then-wrote _ (write_u32-fits len (table + 4) b1 (omega arith)) (
          entry-fits key v (layout v) start b2 _ (write_to-layout v v_writable) (omega arith)
          ∙ ap (λ (n : ℕ). write_items rest off (table + 8) n b3) (omega arith)
          ∙ write_items-layout rest off (table + 8) place b3 rest_are (omega arith) (omega arith)
          ∙ wrote-eq (omega arith) (
              ap
                (λ (b : List ℕ).
                  put (table + 8) (layout_table place rest)
                    (put (off + 5 + place) (layout_items rest) (put start entry b)))
                (put-next table (table + 4) hash at buf (omega arith))
              ∙ put-grown table (table + 8) start (off + 5 + place) (hash ++ at)
                  (layout_table place rest) entry (layout_items rest) buf (omega arith)
                  (omega arith) (omega arith))))

  pub write_values-layout :
      (vs : Values) (off len : ℕ) (buf : List ℕ)
      → are_values vs ≡ true
      → Fits (layout_values vs) (off + 5 + len) buf
      → write_values vs off len buf
        ≡ wrote (len + length (layout_values vs)) (put (off + 5 + len) (layout_values vs) buf)
  write_values-layout no_values off len buf h le =
      wrote-eq (omega arith) (sym (put-nil (off + 5 + len) buf))
  write_values-layout (value v rest) off len buf h le =
      let (v_writable, rest_are) = both (is_writable v) (are_values rest) h in
      let l = layout v in
      let ls = layout_values rest in
      let i = off + 5 + len in
      let total = length-append l ls in
      let kept = length-put i l buf in
      and_then-wrote _ (write_to-layout v v_writable i buf (omega arith)) (
        write_values-layout rest off (len + length l) (put i l buf) rest_are (omega arith)
        ∙ wrote-eq (omega arith) (put-next i (off + 5 + (len + length l)) l ls buf (omega arith)))
