-- ===== src/Wire/Numbers.antt =====
-- `encoding/binary`'s byte orders: the bytes of an unsigned number, and back. A byte is a number
-- below 256, and the big-endian form is the little-endian one backwards.
use mathlib.Core.List.{reverse, reverse-reverse, reverse-append}
use native.Mathlib.Nat.{pow-succ'}
use tinyrange.Prelude.{
  ℕ, zero, suc, ◌+◌, ◌-◌, ◌*◌, ◌/◌, ◌%◌, ◌^◌, ◌<◌, ◌≡◌, ◌∙◌, ap, refl, List, [], ◌∷◌, arith, length,
  length-append, ltb, if◌then◌else◌,
}

pub data ByteOrder : Type 0 where
  little big : ByteOrder

pub data ℤ : Type 0 where
  pos negsuc : ℕ → ℤ

unfoldable pub bytes_le : ℕ → ℕ → List ℕ
bytes_le zero v = []
bytes_le (suc n) v = (v % 256) ∷ bytes_le n (v / 256)

unfoldable pub value_le : List ℕ → ℕ
value_le [] = 0
value_le (b ∷ bs) = b + 256 * value_le bs

-- `order.PutUint16`, `PutUint32`, `PutUint64`, on n bytes
unfoldable pub put_uint : ByteOrder → ℕ → ℕ → List ℕ
put_uint little n v = bytes_le n v
put_uint big n v = reverse (bytes_le n v)

-- `order.Uint16`, `Uint32`, `Uint64`
unfoldable pub get_uint : ByteOrder → List ℕ → ℕ
get_uint little bs = value_le bs
get_uint big bs = value_le (reverse bs)

-- The integer that a pattern of n bytes stands for in two's complement: `int32(u)` and the like.
unfoldable pub to_signed : ℕ → ℕ → ℤ
to_signed n w = if ltb (2 * w) (256 ^ n) then pos w else negsuc (256 ^ n - w - 1)

-- `uint32(v)` of a signed v
unfoldable pub of_signed : ℕ → ℤ → ℕ
of_signed n (pos w) = w % 256 ^ n
of_signed n (negsuc w) = 256 ^ n - 1 - w % 256 ^ n

pub length-bytes_le : (n v : ℕ) → length (bytes_le n v) ≡ n
unfolding bytes_le
length-bytes_le zero v = refl
length-bytes_le (suc n) v = ap suc (length-bytes_le n (v / 256))

length-reverse : (l : List ℕ) → length (reverse l) ≡ length l
length-reverse [] = refl
length-reverse (x ∷ l) =
    ap length (reverse-append (x ∷ []) l)
    ∙ length-append (reverse l) (x ∷ [])
    ∙ omega (arith, length-reverse l)

pub length-put_uint : (o : ByteOrder) (n v : ℕ) → length (put_uint o n v) ≡ n
unfolding put_uint
length-put_uint little n v = length-bytes_le n v
length-put_uint big n v = length-reverse (bytes_le n v) ∙ length-bytes_le n v

pub value_le-bytes_le : (n v : ℕ) → v < 256 ^ n → value_le (bytes_le n v) ≡ v
unfolding bytes_le value_le
value_le-bytes_le zero v h = omega arith
value_le-bytes_le (suc n) v h =
    let big_enough : v < 256 * 256 ^ n = rw pow-succ' at h in
    omega (arith, value_le-bytes_le n (v / 256) (omega arith))

-- Reading the bytes of a number in the order in which they were written gives the number.
pub get_uint-put_uint : (o : ByteOrder) (n v : ℕ) → v < 256 ^ n → get_uint o (put_uint o n v) ≡ v
unfolding put_uint get_uint
get_uint-put_uint little n v h = value_le-bytes_le n v h
get_uint-put_uint big n v h = rw reverse-reverse (value_le-bytes_le n v h)
