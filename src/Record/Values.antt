-- ===== src/Record/Values.antt =====
-- The values that a record file holds, and `hashKey` of pkg/record/record2.go.
use Prim.Native.Nat.{bit_xor}
use tinyrange.Prelude.{ℕ, ◌*◌, ◌%◌, ◌^◌, ◌+◌, Bool, Option, List, [], ◌∷◌}

-- A starlark value, as `writeTo` tells them apart: of an int, what `Uint64` answers and the bits of
-- its `Float`; of a float, its bits; of a key, the string that it is, if it is one. `other` is a value
-- of another type.
mutual
  pub data Value : Type 0 where
    bool : Bool → Value
    int : Option ℕ → ℕ → Value
    float : ℕ → Value
    string : List ℕ → Value
    dict : Items → Value
    list : Values → Value
    none_value : Value
    other : Value

  pub data Items : Type 0 where
    no_items : Items
    item : Option (List ℕ) → Value → Items → Items

  pub data Values : Type 0 where
    no_values : Values
    value : Value → Values → Values

-- `Len` of a dict
unfoldable pub item_count : Items → ℕ
item_count no_items = 0
item_count (item key v rest) = item_count rest + 1

-- `Len` of a list
unfoldable pub value_count : Values → ℕ
value_count no_values = 0
value_count (value v rest) = value_count rest + 1

-- a hash of the family FNV-1, over the bytes that are left
unfoldable pub hash_bytes : ℕ → List ℕ → ℕ
hash_bytes h [] = h
hash_bytes h (b ∷ bytes) = hash_bytes (bit_xor (h * 16777619 % 2 ^ 32) b % 2 ^ 32) bytes

-- `hashKey`
unfoldable pub hash_key : List ℕ → ℕ
hash_key k = hash_bytes 2166136261 k
