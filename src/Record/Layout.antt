-- ===== src/Record/Layout.antt =====
-- How a record file lays values out, independently of the code that writes it: every value is a block
-- of its length, its kind and its body, and a block is a number of four bytes, a byte and the body.
use tinyrange.Prelude.{
  ℕ, ◌+◌, ◌*◌, ◌≡◌, ◌∙◌, Bool, true, false, Option, none, some, List, [], ◌∷◌, ◌++◌, ◌&&◌, length,
  arith, length-append,
}
use tinyrange.Wire.Numbers.{bytes_le, length-bytes_le}
use tinyrange.Record.Values.{
  Value, bool, int, float, string, dict, list, none_value, other, Items, no_items, item, Values,
  no_values, value, item_count, value_count, hash_key,
}
use tinyrange.Record.Writer.{
  record_dict, record_entry, record_list, record_int, record_float, record_bool, record_string,
  record_none, truth,
}

abbrev pub header : ℕ → ℕ → List ℕ
header kind len = bytes_le 4 (5 + len) ++ kind ∷ []

abbrev pub block : ℕ → List ℕ → List ℕ
block kind body = header kind (length body) ++ body

-- `layout` of a value; of a dict, the entries, and before them the table of their hashes and their
-- places, the first of which is given.
unfoldable mutual
  pub layout : Value → List ℕ
  layout (bool b) = block record_bool (truth b)
  layout (int (some v) f) = block record_int (bytes_le 8 v)
  layout (int none f) = block record_float (bytes_le 8 f)
  layout (float f) = block record_float (bytes_le 8 f)
  layout (string bytes) = block record_string bytes
  layout (dict items) = block record_dict (
      bytes_le 4 (item_count items)
      ++ (layout_table (4 + item_count items * 8) items ++ layout_items items))
  layout (list vs) = block record_list (bytes_le 4 (value_count vs) ++ layout_values vs)
  layout none_value = block record_none []
  layout other = []

  pub layout_items : Items → List ℕ
  layout_items no_items = []
  layout_items (item none v rest) = []
  layout_items (item (some key) v rest) =
      block record_entry ((bytes_le 4 (length key) ++ key) ++ layout v) ++ layout_items rest

  pub layout_table : ℕ → Items → List ℕ
  layout_table place no_items = []
  layout_table place (item none v rest) = []
  layout_table place (item (some key) v rest) =
      (bytes_le 4 (hash_key key) ++ bytes_le 4 place)
      ++ layout_table
          (place + length (block record_entry ((bytes_le 4 (length key) ++ key) ++ layout v))) rest

  pub layout_values : Values → List ℕ
  layout_values no_values = []
  layout_values (value v rest) = layout v ++ layout_values rest

abbrev has_key : Option (List ℕ) → Bool
has_key none = false
has_key (some key) = true

-- the values that can be written: those of a type that is handled, with strings for keys
unfoldable mutual
  pub is_writable : Value → Bool
  is_writable (bool b) = true
  is_writable (int u f) = true
  is_writable (float f) = true
  is_writable (string bytes) = true
  is_writable (dict items) = are_items items
  is_writable (list vs) = are_values vs
  is_writable none_value = true
  is_writable other = false

  pub are_items : Items → Bool
  are_items no_items = true
  are_items (item key v rest) = has_key key && (is_writable v && are_items rest)

  pub are_values : Values → Bool
  are_values no_values = true
  are_values (value v rest) = is_writable v && are_values rest

pub length-header : (kind len : ℕ) → length (header kind len) ≡ 5
length-header kind len =
    length-append (bytes_le 4 (5 + len)) (kind ∷ []) ∙ omega (arith, length-bytes_le 4 (5 + len))

pub length-block : (kind : ℕ) (body : List ℕ) → length (block kind body) ≡ 5 + length body
length-block kind body =
    length-append (header kind (length body)) body ∙ omega (arith, length-header kind (length body))
