-- ===== src/Record/Examples.antt =====
-- The theorems on record files at small values.
use tinyrange.Prelude.{
  ℕ, zero, suc, ◌+◌, ◌≤◌, ◌<◌, ◌≡◌, refl, ap, true, none, some, List, [], ◌∷◌, ◌++◌, length, arith,
  take, drop, map, ◌^◌, inl, inr, length-append, take-append,
}
use tinyrange.Wire.Numbers.{bytes_le}
use tinyrange.Record.Buffer.{put}
use tinyrange.Record.Values.{
  Value, bool, string, dict, list, none_value, no_items, item, no_values, value, item_count,
  hash_key, hash_bytes, Items, value_count,
}
use tinyrange.Record.Writer.{wrote, write_to, emitted}
use tinyrange.Record.Layout.{layout, is_writable}
use tinyrange.Record.Emit.{emit_all, layouts, output, Emits, emit_all-layouts}
use tinyrange.Record.Reader.{cached, Loaded, got, read_at, read_values}
use tinyrange.Record.Reads.{IsLoaded, Same, AtHand, contents, read_at-contents}
use tinyrange.Record.ReadBack.{read_sent, read_key, is_plain, weight}
use tinyrange.Record.Recovered.{Plain, read_values-layouts}
use tinyrange.Record.Heads.{At}
use tinyrange.Record.Gets.{Finds}
use tinyrange.Record.Keys.{read_key-layout}
use tinyrange.Record.Succeeds.{write_to_exact}

abbrev answer : Value
answer = dict (item (some (107 ∷ [])) (list (value (bool true) no_values)) no_items)

abbrev name : Value
name = string (104 ∷ 105 ∷ [])

abbrev room : List ℕ
room =
    9 ∷ 9 ∷ 9 ∷ 9 ∷ 9 ∷ 9 ∷ 9 ∷ 9 ∷ 9 ∷ 9 ∷ 9 ∷ 9 ∷ 9 ∷ 9 ∷ 9 ∷ 9 ∷ 9 ∷ 9 ∷ 9 ∷ 9 ∷ 9 ∷ 9 ∷ 9 ∷ 9
    ∷ 9 ∷ 9 ∷ 9 ∷ 9 ∷ 9 ∷ 9 ∷ 9 ∷ 9 ∷ 9 ∷ 9 ∷ 9 ∷ 9 ∷ 9 ∷ 9 ∷ 9 ∷ 9 ∷ 9 ∷ 9 ∷ 9 ∷ 9 ∷ 9 ∷ 9 ∷ 9 ∷ 9
    ∷ []

write_to_exact_example :
    ((is_writable answer ≡ true) × (0 + length (layout answer) ≤ length room)
      → write_to answer 0 room ≡ wrote (length (layout answer)) (put 0 (layout answer) room))
    × ((n : ℕ) (b : List ℕ)
        → write_to answer 0 room ≡ wrote n b
        → (is_writable answer ≡ true) × (0 + length (layout answer) ≤ length room))
write_to_exact_example = write_to_exact answer 0 room

answer-Emits : Emits (length room) answer
unfolding layout is_writable bytes_le item_count value_count
answer-Emits = (refl, omega arith)

name-Emits : Emits (length room) name
unfolding layout is_writable bytes_le
name-Emits = (refl, omega arith)

emit_all-layouts_example :
    output (
      emit_all
        (answer ∷ name ∷ [])
        (record { sink = record { taken = []; room = none }; record_buf = room }))
    ≡ (emitted, [] ++ layouts (answer ∷ name ∷ []))
emit_all-layouts_example =
    emit_all-layouts (answer ∷ name ∷ []) [] room (answer-Emits, (name-Emits, tt))

abbrev zeros : ℕ → List ℕ
zeros zero = []
zeros (suc n) = 0 ∷ zeros n

length-zeros : (n : ℕ) → length (zeros n) ≡ n
length-zeros zero = refl
length-zeros (suc n) = ap suc (length-zeros n)

-- a record of a thousand bytes, the last of which are not at hand
abbrev long_record : Loaded
long_record = record {
  file = zeros 1000;
  off = 0;
  data_bytes = take cached (drop 0 (zeros 1000));
  total_len = 1000;
  rest = none;
}

long_record-IsLoaded : IsLoaded long_record
long_record-IsLoaded = record {
  whole = omega (arith, length-zeros 1000);
  first = refl;
  behind_it = tt;
}

read_at-contents_example :
    (s : Loaded) × (read_at 8 964 long_record ≡ (got (take 8 (drop 964 (contents long_record))), s))
    × Same long_record s
    × (964 + 8 < cached → s ≡ long_record)
    × (cached ≤ 964 + 8 → AtHand (contents long_record) s)
read_at-contents_example = read_at-contents 8 964 long_record long_record-IsLoaded (omega arith)

abbrev names : Value
names = list (value name (value none_value no_values))

names-Plain : Plain 6 names
unfolding is_plain layout weight bytes_le value_count
names-Plain = (refl, omega arith, omega arith)

name-Plain : Plain 6 name
unfolding is_plain layout weight bytes_le
name-Plain = (refl, omega arith, omega arith)

read_values-layouts_example :
    (read_sent 6 (read_values 2 (layouts (names ∷ name ∷ []) ++ zeros 968) 0)
      ≡ map (λ v. some v) (names ∷ name ∷ []))
    × ((file : List ℕ) (n off : ℕ)
        → length file < off + cached
        → read_sent 6 (read_values n file off) ≡ [])
read_values-layouts_example =
    read_values-layouts 6 (names ∷ name ∷ []) (zeros 968) (names-Plain, (name-Plain, tt))
      (omega (arith, length-zeros 968))

-- a dict in a record, with bytes behind it
abbrev sized : Value
sized = dict (item (some (97 ∷ [])) none_value (item (some (107 ∷ [])) name no_items))

abbrev sized_items : Items
sized_items = item (some (97 ∷ [])) none_value (item (some (107 ∷ [])) name no_items)

abbrev dict_record : Loaded
dict_record = record {
  file = layout sized ++ zeros 968;
  off = 0;
  data_bytes = take cached (layout sized ++ zeros 968);
  total_len = length (layout sized);
  rest = none;
}

dict_record-IsLoaded : IsLoaded dict_record
dict_record-IsLoaded = record {
  whole = omega (arith, length-append (layout sized) (zeros 968));
  first = refl;
  behind_it = tt;
}

dict_record-At : At dict_record 0 (layout sized)
dict_record-At = record { inside = omega arith; stands = take-append (layout sized) (zeros 968) }

dict_record-short : length (layout sized) < 2 ^ 32
unfolding layout bytes_le item_count
dict_record-short = omega arith

sized-Finds : Finds (107 ∷ []) name sized_items
unfolding hash_key hash_bytes is_plain
sized-Finds = inr ((λ e. omega (arith, e)), inl (refl, refl))

read_key-layout_example : read_key 5 0 (107 ∷ []) dict_record ≡ some name
unfolding is_writable is_plain weight
read_key-layout_example =
    read_key-layout (107 ∷ []) name name-Plain.0 sized_items 5 0 dict_record sized-Finds refl
      (omega arith) dict_record-short dict_record-IsLoaded dict_record-At
