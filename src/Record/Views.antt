-- ===== src/Record/Views.antt =====
-- What `toStarlarkValue` of pkg/record/record2.go shows of a value that stands in a record.
use mathlib.Core.Path.{subst}
use tinyrange.Prelude.{
  ℕ, ◌+◌, ◌^◌, ◌≤◌, ◌<◌, ◌≡◌, refl, true, List, [], ◌++◌, length, arith, length-append,
}
use tinyrange.Wire.Numbers.{bytes_le}
use tinyrange.Record.Values.{
  Value, bool, int, float, string, dict, list, none_value, other, Values, no_values, value,
  value_count,
}
use tinyrange.Record.Writer.{record_list, record_string, record_none, header_size}
use tinyrange.Record.Layout.{header, block, layout, layout_values, length-header, length-block}
use tinyrange.Record.Blocks.{both}
use tinyrange.Record.Reader.{
  Loaded, View, none_view, string_view, list_view, to_value, by_kind, read_record, record_to_list,
  record_to_string,
}
use tinyrange.Record.ReadBack.{is_plain, are_plain}
use tinyrange.Record.Reads.{IsLoaded}
use tinyrange.Record.Heads.{
  At, At-Same, At-front, At-back, Gives, read_at-At, then_read-Gives, read_u32-At, read_record-At,
}

abbrev pub kind_of : Value → ℕ
kind_of (bool b) = 0
kind_of (int u f) = 0
kind_of (float f) = 0
kind_of (string bytes) = record_string
kind_of (dict items) = 0
kind_of (list vs) = record_list
kind_of none_value = record_none
kind_of other = 0

abbrev pub view_of : ℕ → Value → View
view_of off (bool b) = none_view
view_of off (int u f) = none_view
view_of off (float f) = none_view
view_of off (string bytes) = string_view bytes
view_of off (dict items) = none_view
view_of off (list vs) = list_view off (value_count vs)
view_of off none_value = none_view
view_of off other = none_view

-- records that have as many bytes as a length can say
abbrev pub Short : Loaded → Type 0
Short r = r.total_len < 2 ^ 32

pub read_head :
    (v : Value) (off : ℕ) (r : Loaded)
    → is_plain v ≡ true
    → Short r
    → IsLoaded r
    → At r off (layout v)
    → Gives r (read_record off r) (kind_of v, length (layout v))
unfolding layout is_plain
read_head (bool b) off r p short h a = absurd (ground (arith, p))
read_head (int u f) off r p short h a = absurd (ground (arith, p))
read_head (float f) off r p short h a = absurd (ground (arith, p))
read_head (string bytes) off r p short h a =
    read_record-At off record_string bytes r h a (omega (arith, short, a.inside))
read_head (dict items) off r p short h a = absurd (ground (arith, p))
read_head (list vs) off r p short h a =
    read_record-At off record_list (bytes_le 4 (value_count vs) ++ layout_values vs) r h a
      (omega (arith, short, a.inside))
read_head none_value off r p short h a =
    read_record-At off record_none [] r h a (omega (arith, short, a.inside))
read_head other off r p short h a = absurd (ground (arith, p))

pub layout-positive : (v : Value) → is_plain v ≡ true → 1 ≤ length (layout v)
unfolding layout is_plain
layout-positive (bool b) p = absurd (ground (arith, p))
layout-positive (int u f) p = absurd (ground (arith, p))
layout-positive (float f) p = absurd (ground (arith, p))
layout-positive (string bytes) p = omega (arith, length-block record_string bytes)
layout-positive (dict items) p = absurd (ground (arith, p))
layout-positive (list vs) p =
    omega (arith, length-block record_list (bytes_le 4 (value_count vs) ++ layout_values vs))
layout-positive none_value p = omega (arith, length-block record_none [])
layout-positive other p = absurd (ground (arith, p))

value_count-le : (vs : Values) → are_plain vs ≡ true → value_count vs ≤ length (layout_values vs)
unfolding layout is_plain value_count
value_count-le no_values p = omega arith
value_count-le (value v rest) p =
    let (q, s) = both (is_plain v) (are_plain rest) p in
    omega (
      arith,
      layout-positive v q,
      value_count-le rest s,
      length-append (layout v) (layout_values rest),
    )

-- the body of a block
pub At-body :
    (r : Loaded) (off kind : ℕ) (body : List ℕ) → At r off (block kind body) → At r (off + 5) body
At-body r off kind body a =
    subst (λ (n : ℕ). At r (off + n) body) (length-header kind (length body))
      (At-back r off (header kind (length body)) body a)

by_kind-layout :
    (v : Value) (off : ℕ) (r : Loaded)
    → is_plain v ≡ true
    → Short r
    → IsLoaded r
    → At r off (layout v)
    → Gives r (by_kind (kind_of v) (length (layout v)) off r) (view_of off v)
unfolding layout is_plain record_to_string record_to_list
by_kind-layout (bool b) off r p short h a = absurd (ground (arith, p))
by_kind-layout (int u f) off r p short h a = absurd (ground (arith, p))
by_kind-layout (float f) off r p short h a = absurd (ground (arith, p))
by_kind-layout (string bytes) off r p short h a =
    let size = length-block record_string bytes in
    then_read-Gives r _ _ bytes _
      (read_at-At _ (off + header_size) bytes r h (At-body r off record_string bytes a)
        (omega (arith, short, a.inside)))
      (λ s k. (s, refl, record { loaded = k.loaded; contents_same = refl; total_same = refl }))
by_kind-layout (dict items) off r p short h a = absurd (ground (arith, p))
by_kind-layout (list vs) off r p short h a =
    let count = bytes_le 4 (value_count vs) in
    let body = length-append count (layout_values vs) in
    let size = length-block record_list (count ++ layout_values vs) in
    then_read-Gives r _ _ (value_count vs) _
      (read_u32-At (off + header_size) (value_count vs) r h
        (At-front r (off + 5) count (layout_values vs)
          (At-body r off record_list (count ++ layout_values vs) a))
        (omega (arith, short, a.inside, value_count-le vs p)))
      (λ s k. (s, refl, record { loaded = k.loaded; contents_same = refl; total_same = refl }))
by_kind-layout none_value off r p short h a =
    (r, refl, record { loaded = h; contents_same = refl; total_same = refl })
by_kind-layout other off r p short h a = absurd (ground (arith, p))

pub to_value-layout :
    (v : Value) (off : ℕ) (r : Loaded)
    → is_plain v ≡ true
    → Short r
    → IsLoaded r
    → At r off (layout v)
    → Gives r (to_value off r) (view_of off v)
unfolding to_value
to_value-layout v off r p short h a =
    then_read-Gives r _ _ (kind_of v, length (layout v)) _ (read_head v off r p short h a)
      (λ s k.
        by_kind-layout v off s p (omega (arith, short, k.total_same)) k.loaded
          (At-Same r s off (layout v) k a))
