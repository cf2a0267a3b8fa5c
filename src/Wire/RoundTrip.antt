-- ===== src/Wire/RoundTrip.antt =====
-- What a writer wrote, a reader reads.
use native.Mathlib.Nat.{pow-succ', mod-lt, mod-eq_of_lt}
use tinyrange.Prelude.{
  ℕ, zero, suc, ◌+◌, ◌*◌, ◌%◌, ◌^◌, ◌<◌, ◌≡◌, ◌∙◌, ap, refl, List, [], ◌++◌, none, arith, length,
  length-append, append_assoc, take-append, drop-append, leb, le→leb, ◌==◌, true,
}
use tinyrange.Wire.Numbers.{
  ByteOrder, ℤ, pos, negsuc, put_uint, get_uint-put_uint, length-put_uint, to_signed, of_signed,
}
use tinyrange.Wire.Reader.{Reader, Read, ◌>>=◌, pure, read_bytes, read_uint, read_int, new_reader}

==_refl : (n : ℕ) → (n == n) ≡ true
==_refl n = ground arith

-- A reader without an error.
abbrev pub at : ByteOrder → List ℕ → ℕ → Reader
at o bytes off = record { input = bytes; order = o; offset = off; err = none }

-- The action takes these bytes, whatever follows them, and answers this value.
pub record Reads {A : Type 0} (o : ByteOrder) (m : Read A) (bytes : List ℕ) (a : A) : Type 0 where
  pub run :
      (rest : List ℕ) (off : ℕ)
      → off < 2 ^ 64
      → m (at o (bytes ++ rest) off) ≡ (a, at o rest ((off + length bytes) % 2 ^ 64))

pub leb-length : (xs ys : List ℕ) → leb (length xs) (length (xs ++ ys)) ≡ true
leb-length xs ys = le→leb _ _ (omega (arith, length-append xs ys))

pub Reads-bytes :
    (o : ByteOrder) (n : ℕ) (bytes : List ℕ) → length bytes ≡ n → Reads o (read_bytes n) bytes bytes
unfolding read_bytes
Reads-bytes o n bytes e = record {
  run = λ rest off h. rw (← e, leb-length, take-append, drop-append) refl;
}

offset_after : (off n : ℕ) → off < 2 ^ 64 → (off + n) % 2 ^ 64 < 2 ^ 64
offset_after off n h = omega arith

pub Reads-pure : {A : Type 0} (o : ByteOrder) (a : A) → Reads o (pure a) [] a
Reads-pure o a = record { run = λ rest off h. ap (λ (k : ℕ). (a, at o rest k)) (omega arith) }

pub Reads-bind :
    {A B : Type 0} (o : ByteOrder) (m : Read A) (f : A → Read B) (xs ys : List ℕ) (a : A) (b : B)
    → Reads o m xs a
    → Reads o (f a) ys b
    → Reads o (m >>= f) (xs ++ ys) b
unfolding ◌>>=◌
Reads-bind o m f xs ys a b h k = record {
  run = λ rest off lt.
      rw
        (
          append_assoc xs ys rest,
          h.run (ys ++ rest) off lt,
          k.run rest ((off + length xs) % 2 ^ 64) (offset_after off (length xs) lt),
          length-append xs ys,
        )
        (ap (λ (n : ℕ). (b, at o rest n)) (omega arith));
}

pub Reads-uint : (o : ByteOrder) (n v : ℕ) → v < 256 ^ n → Reads o (read_uint n) (put_uint o n v) v
unfolding read_uint
Reads-uint o n v h = record {
  run = λ rest off lt.
      rw
        (
          (Reads-bytes o n (put_uint o n v) (length-put_uint o n v)).run rest off lt,
          length-put_uint o n v,
          ==_refl n,
          get_uint-put_uint o n v h,
        )
        refl;
}

power_pos : (n : ℕ) → 0 < 256 ^ n
power_pos zero = omega arith
power_pos (suc n) = let e = pow-succ' 256 n in omega (arith, power_pos n)

of_signed_range : (n : ℕ) (v : ℤ) → of_signed n v < 256 ^ n
unfolding of_signed
of_signed_range n (pos w) = mod-lt w (power_pos n)
of_signed_range n (negsuc w) = omega (arith, power_pos n)

-- the values of an integer type of n bytes
abbrev pub FitsSigned : ℕ → ℤ → Type 0
FitsSigned n (pos w) = 2 * w < 256 ^ n
FitsSigned n (negsuc w) = 2 * w < 256 ^ n

to_signed-of_signed :
    (n : ℕ) (v : ℤ) → FitsSigned (suc n) v → to_signed (suc n) (of_signed (suc n) v) ≡ v
unfolding to_signed of_signed
to_signed-of_signed n (pos w) h =
    rw (mod-eq_of_lt {n = w} {m = 256 ^ suc n} (omega arith)) (ground arith)
to_signed-of_signed n (negsuc w) h =
    let e = pow-succ' 256 n in
    rw (mod-eq_of_lt {n = w} {m = 256 ^ suc n} (omega arith)) (ground (arith, e))

pub Reads-int :
    (o : ByteOrder) (n : ℕ) (v : ℤ)
    → FitsSigned (suc n) v
    → Reads o (read_int (suc n)) (put_uint o (suc n) (of_signed (suc n) v)) v
unfolding read_int
Reads-int o n v h = record {
  run = λ rest off lt.
      rw
        (
          (Reads-bytes o (suc n) (put_uint o (suc n) (of_signed (suc n) v))
                (length-put_uint o (suc n) (of_signed (suc n) v))).run
              rest off lt,
          length-put_uint o (suc n) (of_signed (suc n) v),
          ==_refl (suc n),
          get_uint-put_uint o (suc n) (of_signed (suc n) v) (of_signed_range (suc n) v),
          to_signed-of_signed n v h,
        )
        refl;
}

-- a reader that starts at the bytes
pub Reads-start :
    {A : Type 0} {o : ByteOrder} {m : Read A} {bytes : List ℕ} {a : A} (rest : List ℕ)
    → Reads o m bytes a
    → m (new_reader (bytes ++ rest) o) ≡ (a, at o rest (length bytes % 2 ^ 64))
Reads-start {o} {m} {bytes} {a} rest h =
    h.run rest 0 (omega arith) ∙ ap (λ (k : ℕ). (a, at o rest (k % 2 ^ 64))) (omega arith)
