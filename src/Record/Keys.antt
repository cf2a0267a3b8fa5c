-- ===== src/Record/Keys.antt =====
-- Looking a key up in a record that `Emit` of pkg/record/record2.go wrote.
use mathlib.Core.Path.{subst}
use tinyrange.Prelude.{
  ℕ, ◌+◌, ◌*◌, ◌^◌, ◌≤◌, ◌<◌, ◌≡◌, ◌∙◌, refl, ap, true, Option, some, List, [], ◌++◌, length, arith,
}
use tinyrange.Wire.Numbers.{bytes_le, length-bytes_le}
use tinyrange.Record.Values.{Value, dict, Items, item_count}
use tinyrange.Record.Writer.{record_dict, header_size}
use tinyrange.Record.Layout.{layout, layout_items, layout_table, are_items}
use tinyrange.Record.Blocks.{length-table}
use tinyrange.Record.Reader.{Loaded, Reading, View, dict_view, to_value, record_to_dict}
use tinyrange.Record.ReadBack.{get_view, expand_found, read_key, is_plain, weight}
use tinyrange.Record.Dict.{get}
use tinyrange.Record.Reads.{IsLoaded}
use tinyrange.Record.Heads.{
  At, At-Same, Same-Same, At-front, At-back, Gives, read_at-At, then_read-Gives, read_u32-At,
  read_record-At,
}
use tinyrange.Record.RoundTrip.{expand-layout}
use tinyrange.Record.Views.{Short, At-body}
use tinyrange.Record.Gets.{Finds, get_from-layout}

-- the parts of a dict that stands in a record
record DictAt (items : Items) (off : ℕ) (r : Loaded) : Type 0 where
  wide : length (layout_table (4 + item_count items * 8) items) ≡ item_count items * 8
  count_At : At r (off + 5) (bytes_le 4 (item_count items))
  table_At : At r (off + 5 + 4) (layout_table (4 + item_count items * 8) items)
  items_At : At r (off + 5 + (4 + item_count items * 8)) (layout_items items)

dict-DictAt :
    (items : Items) (off : ℕ) (r : Loaded)
    → are_items items ≡ true
    → At r off (layout (dict items))
    → DictAt items off r
unfolding layout
dict-DictAt items off r writable a =
    let count = bytes_le 4 (item_count items) in
    let four = length-bytes_le 4 (item_count items) in
    let table = layout_table (4 + item_count items * 8) items in
    let entries = layout_items items in
    let wide = length-table (4 + item_count items * 8) items writable in
    let body = At-body r off record_dict (count ++ (table ++ entries)) a in
    let behind : At r (off + 5 + 4) (table ++ entries) =
      subst (λ (n : ℕ). At r (off + 5 + n) (table ++ entries)) four
        (At-back r (off + 5) count (table ++ entries) body) in
    record {
      wide = wide;
      count_At = At-front r (off + 5) count (table ++ entries) body;
      table_At = At-front r (off + 5 + 4) table entries behind;
      items_At =
          subst (λ (n : ℕ). At r n entries) (omega arith)
            (At-back r (off + 5 + 4) table entries behind);
    }

to_value-dict :
    (items : Items) (off : ℕ) (r : Loaded)
    → are_items items ≡ true
    → Short r
    → IsLoaded r
    → At r off (layout (dict items))
    → Gives r
        (to_value off r)
        (dict_view off (item_count items) (layout_table (4 + item_count items * 8) items))
unfolding to_value record_to_dict layout
to_value-dict items off r writable short h a =
    let d = dict-DictAt items off r writable a in
    let table = layout_table (4 + item_count items * 8) items in
    then_read-Gives r _ _ _ _
      (read_record-At off record_dict
        (bytes_le 4 (item_count items) ++ (table ++ layout_items items)) r h a
        (omega (arith, short, a.inside)))
      (λ s k.
        then_read-Gives s _ _ (item_count items) _
          (read_u32-At (off + header_size) (item_count items) s k.loaded
            (At-Same r s _ _ k d.count_At) (omega (arith, short, d.table_At.inside, d.wide)))
          (λ t l.
            let m = Same-Same r s t k l in
            then_read-Gives t _ _ table _
              (read_at-At _ (off + header_size + 4) table t l.loaded
                (At-Same r t _ table m d.table_At)
                (omega (arith, short, d.table_At.inside, d.wide)))
              (λ u n.
                (u, refl, record { loaded = n.loaded; contents_same = refl; total_same = refl }))))

-- A dict that was written stands in a record whose bytes the file has. Looking a key up gives the
-- value that it has in the dict, if the keys before it have other hashes, the keys of the dict are
-- strings and its values can be written, and the value is made of strings, lists and nothing.
pub read_key-layout :
    (key : List ℕ) (v : Value) (plain : is_plain v ≡ true) (items : Items) (fuel off : ℕ)
    (r : Loaded)
    → Finds key v items
    → are_items items ≡ true
    → weight v ≤ fuel
    → r.total_len < 2 ^ 32
    → IsLoaded r
    → At r off (layout (dict items))
    → read_key fuel off key r ≡ some v
unfolding read_key get
read_key-layout key v plain items fuel off r finds writable enough short h a =
    let table = layout_table (4 + item_count items * 8) items in
    let (s, e, k) = to_value-dict items off r writable short h a in
    let d = dict-DictAt items off r writable a in
    let (at, (t, f, l), b) =
      get_from-layout key v plain items 0 (4 + item_count items * 8) off [] table s finds
        (omega (arith, short, k.total_same)) k.loaded refl refl (At-Same r s _ _ k d.items_At) in
    let m = Same-Same r s t k l in
    let (u, g, n) =
      expand-layout v fuel at t plain (omega (arith, short, m.total_same)) l.loaded
        (At-Same s t at (layout v) l b) enough in
    ap (λ (w : Reading View). expand_found fuel (get_view key w)) e
    ∙ ap (expand_found fuel) f
    ∙ ap (λ (w : Option Value × Loaded). w.0) g
