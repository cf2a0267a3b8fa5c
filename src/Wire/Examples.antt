-- ===== src/Wire/Examples.antt =====
-- The theorems on the readers and writers at concrete numbers.
use tinyrange.Prelude.{ℕ, List, ◌^◌, ◌-◌, ◌%◌, ◌≡◌, [], ◌∷◌, ◌++◌, arith, some}
use tinyrange.Wire.Numbers.{big, little, negsuc}
use tinyrange.Wire.Reader.{new_reader, read_bytes, read_uint, read_int, read_struct, take_error}
use tinyrange.Wire.Writer.{buffer, new_writer, write_uint, write_int, write_struct}
use tinyrange.Wire.RoundTrip.{at}
use tinyrange.Wire.Results.{
  read_uint-write_uint, read_int-write_int, read_uint_short, read_struct-write_struct, exhausted,
}

read_uint-write_uint_example :
    read_uint 4
      (new_reader ((write_uint 4 305419896 (new_writer buffer big)).sink.taken ++ 7 ∷ []) big)
    ≡ (305419896, at big (7 ∷ []) (4 % 2 ^ 64))
read_uint-write_uint_example = read_uint-write_uint big 4 305419896 (7 ∷ []) (omega arith)

read_int-write_int_example :
    read_int 2
      (new_reader ((write_int 2 (negsuc 299) (new_writer buffer little)).sink.taken ++ []) little)
    ≡ (negsuc 299, at little [] (2 % 2 ^ 64))
read_int-write_int_example = read_int-write_int little 1 (negsuc 299) [] (omega arith)

read_uint_short_example :
    (read_uint 4 (at big (1 ∷ 2 ∷ []) 6) ≡ (256 ^ 4 - 1, exhausted big (1 ∷ 2 ∷ []) 6))
    × (read_uint 2 (exhausted big (1 ∷ 2 ∷ []) 6) ≡ (256 ^ 2 - 1, exhausted big (1 ∷ 2 ∷ []) 6))
    × (read_bytes 2 (exhausted big (1 ∷ 2 ∷ []) 6) ≡ ([], exhausted big (1 ∷ 2 ∷ []) 6))
    × (take_error (exhausted big (1 ∷ 2 ∷ []) 6)
        ≡ ((exhausted big (1 ∷ 2 ∷ []) 6).err, at big [] 6))
read_uint_short_example = read_uint_short big 4 (1 ∷ 2 ∷ []) 6 2 (omega arith)

abbrev two_fields : List (ℕ × ℕ)
two_fields = (4, 258) ∷ (2, 7) ∷ []

read_struct-write_struct_example :
    ((write_struct two_fields (new_writer buffer big)).offset ≡ 0)
    × (read_struct
          (4 ∷ 2 ∷ [])
          (at big ((write_struct two_fields (new_writer buffer big)).sink.taken ++ 3 ∷ []) 0)
        ≡ (some (258 ∷ 7 ∷ []), at big (3 ∷ []) 0))
read_struct-write_struct_example =
    read_struct-write_struct big two_fields (3 ∷ []) 0 (omega arith, (omega arith, tt))
