-- ===== src/Record/Dict.antt =====
-- Looking a key up in a dict of a record: `compare` and `recordDict.Get` of pkg/record/record2.go.
use tinyrange.Prelude.{
  ℕ, zero, suc, ◌+◌, ◌-◌, ◌*◌, Bool, true, false, not, ◌&&◌, Option, none, some, List, [], ◌∷◌, ltb,
  ◌==◌, if◌then◌else◌, length, take, drop,
}
use tinyrange.Wire.Numbers.{value_le}
use tinyrange.Record.Values.{hash_key}
use tinyrange.Record.Writer.{header_size, record_entry}
use tinyrange.Record.Reader.{
  cached, Loaded, got, failed, panicked, end_of_file, not_an_entry, not_a_string, Reading,
  then_read, read_rest, rest_bytes, read_u32, read_record, View, to_value,
}

-- `bytes.Equal`
unfoldable pub bytes_equal : List ℕ → List ℕ → Bool
bytes_equal [] [] = true
bytes_equal [] (y ∷ ys) = false
bytes_equal (x ∷ xs) [] = false
bytes_equal (x ∷ xs) (y ∷ ys) = (x == y) && bytes_equal xs ys

-- the comparison with the rest, behind `readRest`; it panics where the slice is out of range
abbrev pub compare_rest : List ℕ → ℕ → Reading Unit → Reading Bool
compare_rest p k w = then_read w (λ u r.
    if ltb (length (rest_bytes r.rest)) (k + length p)
    then (panicked, r)
    else (got (bytes_equal p (take (length p) (drop k (rest_bytes r.rest)))), r))

-- what is left to compare after the bytes at hand
abbrev pub compare_left : List ℕ → Loaded → Reading Bool
compare_left [] r = (got true, r)
compare_left (b ∷ p) r = compare_rest (b ∷ p) 0 (read_rest r)

abbrev pub compare_near : List ℕ → List ℕ → ℕ → Loaded → Reading Bool
compare_near front left off r =
    if not (bytes_equal front (take (length front) (drop off r.data_bytes)))
    then (got false, r)
    else compare_left left r

-- `compare`
unfoldable pub compare : List ℕ → ℕ → Loaded → Reading Bool
compare p off r =
    if ltb r.total_len off
    then (failed end_of_file, r)
    else if ltb off cached
    then compare_near (take (cached - off) p) (drop (cached - off) p) off r
    else compare_rest p (off - cached) (read_rest r)

-- what follows `compare` in `Get`, at an entry at this place
abbrev pub after_compare :
    ℕ → (Loaded → Reading (Option View)) → Bool → Loaded → Reading (Option View)
after_compare place others false r = others r
after_compare place others true r =
    then_read (read_u32 (place + header_size) r)
      (λ len s. then_read (to_value (place + header_size + 4 + len) s) (λ v t. (got (some v), t)))

-- an entry whose hash is that of the key
abbrev pub get_entry :
    List ℕ → ℕ → (Loaded → Reading (Option View)) → Loaded → Reading (Option View)
get_entry key place others r = then_read (read_record place r) (λ head s.
    if not (head.0 == record_entry)
    then (failed not_an_entry, s)
    else then_read (compare key (place + header_size + 4) s)
        (λ same t. after_compare place others same t))

-- one round of the loop, which panics where the index is too short
abbrev pub get_round :
    List ℕ → ℕ → List ℕ → (Loaded → Reading (Option View)) → Loaded → Reading (Option View)
get_round key off entry others r =
    if ltb (length entry) 8
    then (panicked, r)
    else if not (hash_key key == value_le (take 4 entry))
    then others r
    else get_entry key (off + header_size + value_le (take 4 (drop 4 entry))) others r

-- the loop of `Get`, over so many entries from number i
unfoldable pub get_from : ℕ → ℕ → List ℕ → ℕ → List ℕ → Loaded → Reading (Option View)
get_from zero i key off index r = (got none, r)
get_from (suc n) i key off index r =
    get_round key off (drop (i * 8) index) (λ s. get_from n (i + 1) key off index s) r

-- `Get` of a dict at this place, for a key that is a string or not; `none` is a key that is not there.
unfoldable pub get : ℕ → ℕ → List ℕ → Option (List ℕ) → Loaded → Reading (Option View)
get off count index none r = (failed not_a_string, r)
get off count index (some key) r = get_from count 0 key off index r
