-- ===== src/Wire/Appends.antt =====
-- What a writer over a buffer writes: the bytes behind what it wrote before.
use tinyrange.Prelude.{
  ℕ, ◌+◌, ◌%◌, ◌^◌, ◌≡◌, ◌∙◌, ap, refl, List, [], ◌++◌, none, length, append_assoc, append-nil,
}
use tinyrange.Wire.Numbers.{big, put_uint}
use tinyrange.Wire.Writer.{Writer, write_bytes, write_uint, struct_bytes, write_struct}

-- a big-endian writer over a buffer that holds these bytes, without an error
abbrev pub buffered : List ℕ → ℕ → Writer
buffered bytes off = record {
  sink = record { taken = bytes; room = none };
  order = big;
  offset = off;
  err = none;
}

-- The action appends these bytes to the buffer.
pub record Appends (f : Writer → Writer) (bytes : List ℕ) : Type 0 where
  pub end_offset : ℕ → ℕ
  pub run : (bs : List ℕ) (off : ℕ) → f (buffered bs off) ≡ buffered (bs ++ bytes) (end_offset off)

pub Appends-id : Appends (λ w. w) []
Appends-id = record { end_offset = λ off. off; run = λ bs off. rw (append-nil bs) refl }

pub Appends-bytes : (bytes : List ℕ) → Appends (write_bytes bytes) bytes
unfolding write_bytes
Appends-bytes bytes = record {
  end_offset = λ off. (off + length bytes) % 2 ^ 64;
  run = λ bs off. refl;
}

pub Appends-uint : (n v : ℕ) → Appends (write_uint n v) (put_uint big n v)
unfolding write_uint
Appends-uint n v = record {
  end_offset = (Appends-bytes (put_uint big n v)).end_offset;
  run = (Appends-bytes (put_uint big n v)).run;
}

pub Appends-struct :
    (fields : List (ℕ × ℕ)) → Appends (write_struct fields) (struct_bytes big fields)
unfolding write_struct
Appends-struct fields = record { end_offset = λ off. off; run = λ bs off. refl }

-- the first action, then the second
pub Appends-then :
    (f g : Writer → Writer) (xs ys : List ℕ)
    → Appends f xs
    → Appends g ys
    → Appends (λ w. g (f w)) (xs ++ ys)
Appends-then f g xs ys h k = record {
  end_offset = λ off. k.end_offset (h.end_offset off);
  run = λ bs off.
      ap g (h.run bs off)
      ∙ k.run (bs ++ xs) (h.end_offset off)
      ∙ ap (λ (l : List ℕ). buffered l (k.end_offset (h.end_offset off))) (append_assoc bs xs ys);
}
