-- ===== src/Record/ReadBack.antt =====
-- A client of the reader of pkg/record/record2.go: it takes a value out of a record, going through
-- lists with their iterators, which it does on fuel. It does not open dicts.
use tinyrange.Prelude.{ℕ, zero, suc, ◌+◌, Bool, true, false, ◌&&◌, Option, none, some, List}
use tinyrange.Record.Values.{
  Value, bool, int, float, string, dict, list, none_value, other, Values, no_values, value,
}
use tinyrange.Record.Dict.{get}
use tinyrange.Record.Reader.{
  Loaded, Outcome, got, failed, panicked, Reading, View, none_view, string_view, list_view,
  dict_view, ListIterator, iterate, Next, next_value, no_next, next, to_value, Sent, next_record,
  read_error, more,
}

abbrev pub as_list : Option Values × Loaded → Option Value × Loaded
as_list (none, r) = (none, r)
as_list (some vs, r) = (some (list vs), r)

abbrev pub and_values : Value → Option Values × Loaded → Option Values × Loaded
and_values v (none, r) = (none, r)
and_values v (some vs, r) = (some (value v vs), r)

abbrev pub then_values :
    Option Value × Loaded → (Loaded → Option Values × Loaded) → Option Values × Loaded
then_values (none, r) k = (none, r)
then_values (some v, r) k = and_values v (k r)

-- what follows `Next`
abbrev pub after_next :
    (View → Loaded → Option Value × Loaded)
    → (ListIterator → Loaded → Option Values × Loaded)
    → Outcome Next × Loaded
    → Option Values × Loaded
after_next expand collect (got (next_value v it), r) = then_values (expand v r) (collect it)
after_next expand collect (got no_next, r) = (some no_values, r)
after_next expand collect (failed e, r) = (none, r)
after_next expand collect (panicked, r) = (none, r)

-- the value that a view shows, and the values that an iterator gives
unfoldable mutual
  pub expand : ℕ → View → Loaded → Option Value × Loaded
  expand zero view r = (none, r)
  expand (suc fuel) none_view r = (some none_value, r)
  expand (suc fuel) (string_view bytes) r = (some (string bytes), r)
  expand (suc fuel) (list_view off count) r = as_list (collect fuel (iterate off count) r)
  expand (suc fuel) (dict_view off count index) r = (none, r)

  pub collect : ℕ → ListIterator → Loaded → Option Values × Loaded
  collect zero it r = (none, r)
  collect (suc fuel) it r =
      after_next (λ v s. expand fuel v s) (λ it' s. collect fuel it' s) (next it r)

abbrev pub expanded : ℕ → Reading View → Option Value
expanded fuel (got v, r) = (expand fuel v r).0
expanded fuel (failed e, r) = none
expanded fuel (panicked, r) = none

-- the value of a record
unfoldable pub read_back : ℕ → Loaded → Option Value
read_back fuel r = expanded fuel (to_value 0 r)

-- The values of the records that are sent, and whether the records ended; `none` in the place of a
-- value that could not be read.
abbrev pub read_sent : ℕ → Sent → List (Option Value)
read_sent fuel more = List.[]
read_sent fuel (read_error e) = List.[]
read_sent fuel (next_record r rest) = List.◌∷◌ (read_back fuel r) (read_sent fuel rest)

-- values made of nothing, strings and lists
unfoldable mutual
  pub is_plain : Value → Bool
  is_plain (bool b) = false
  is_plain (int u f) = false
  is_plain (float f) = false
  is_plain (string bytes) = true
  is_plain (dict items) = false
  is_plain (list vs) = are_plain vs
  is_plain none_value = true
  is_plain other = false

  pub are_plain : Values → Bool
  are_plain no_values = true
  are_plain (value v rest) = is_plain v && are_plain rest

-- fuel that is enough for a value
unfoldable mutual
  pub weight : Value → ℕ
  weight (bool b) = 1
  weight (int u f) = 1
  weight (float f) = 1
  weight (string bytes) = 1
  weight (dict items) = 1
  weight (list vs) = 1 + weights vs
  weight none_value = 1
  weight other = 1

  pub weights : Values → ℕ
  weights no_values = 1
  weights (value v rest) = 1 + (weight v + weights rest)

-- the value of a key of the dict at this place
abbrev pub get_view : List ℕ → Reading View → Reading (Option View)
get_view key (got none_view, r) = (got none, r)
get_view key (got (string_view bytes), r) = (got none, r)
get_view key (got (list_view off count), r) = (got none, r)
get_view key (got (dict_view off count index), r) = get off count index (some key) r
get_view key (failed e, r) = (failed e, r)
get_view key (panicked, r) = (panicked, r)

abbrev pub expand_found : ℕ → Reading (Option View) → Option Value
expand_found fuel (got none, r) = none
expand_found fuel (got (some v), r) = (expand fuel v r).0
expand_found fuel (failed e, r) = none
expand_found fuel (panicked, r) = none

unfoldable pub read_key : ℕ → ℕ → List ℕ → Loaded → Option Value
read_key fuel off key r = expand_found fuel (get_view key (to_value off r))
