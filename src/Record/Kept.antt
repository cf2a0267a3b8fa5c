-- ===== src/Record/Kept.antt =====
-- What a write of `RecordWriter2` that succeeded says of the buffer.

use tinyrange.Prelude.{
  ℕ, ◌+◌, ◌≤◌, ◌≡◌, ◌∙◌, refl, sym, ap, List, [], ◌∷◌, length, arith, inl, inr, Bool-cases, ltb,
}
use tinyrange.Wire.Numbers.{bytes_le, length-bytes_le}
use tinyrange.Record.Buffer.{put, length-put}
use tinyrange.Record.Writer.{
  Written, wrote, overflowed, unsupported, and_then, write_at, write_u32, write_u64, write_header,
  write_block, write_number, header_size,
}
use tinyrange.Record.Layout.{block, length-block}

-- a write behind another succeeds when both do
abbrev pub Both : Written → (ℕ → List ℕ → Written) → ℕ → List ℕ → Type 0
Both w k n b = (m : ℕ) × (c : List ℕ) × (w ≡ wrote m c) × (k m c ≡ wrote n b)

pub and_then-Both :
    (w : Written) (k : ℕ → List ℕ → Written) (n : ℕ) (b : List ℕ)
    → and_then w k ≡ wrote n b
    → Both w k n b
unfolding and_then
and_then-Both (wrote m c) k n b e = (m, c, refl, e)
and_then-Both (overflowed c) k n b e = absurd (ground (arith, e))
and_then-Both (unsupported c) k n b e = absurd (ground (arith, e))

-- the write fits, and the buffer keeps its length
abbrev pub Kept : ℕ → List ℕ → List ℕ → Type 0
Kept end buf b = (end ≤ length buf) × (length b ≡ length buf)

pub length-of : (n m : ℕ) (b c : List ℕ) → wrote n b ≡ wrote m c → length b ≡ length c
length-of n m b c e = ap length (cc e)

pub write_at-Kept :
    (bytes : List ℕ) (off : ℕ) (buf : List ℕ) (n : ℕ) (b : List ℕ)
    → write_at bytes off buf ≡ wrote n b
    → Kept (off + length bytes) buf b
unfolding write_at
write_at-Kept bytes off buf n b e = elim (Bool-cases (ltb (length buf) (length bytes + off))) [
  | inl t ↦ absurd (ground (arith, rw t at e))
  | inr f ↦ (
    ground (arith, f),
    sym (length-of 0 n (put off bytes buf) b (rw f at e)) ∙ length-put off bytes buf,
  )
]

pub write_u32-Kept :
    (v off : ℕ) (buf : List ℕ) (n : ℕ) (b : List ℕ)
    → write_u32 v off buf ≡ wrote n b
    → Kept (off + 4) buf b
unfolding write_u32
write_u32-Kept v off buf n b e = elim (Bool-cases (ltb (length buf) (4 + off))) [
  | inl t ↦ absurd (ground (arith, rw t at e))
  | inr f ↦ (
    ground (arith, f),
    sym (length-of 0 n (put off (bytes_le 4 v) buf) b (rw f at e))
        ∙ length-put off (bytes_le 4 v) buf,
  )
]

pub write_u64-Kept :
    (v off : ℕ) (buf : List ℕ) (n : ℕ) (b : List ℕ)
    → write_u64 v off buf ≡ wrote n b
    → Kept (off + 8) buf b
unfolding write_u64
write_u64-Kept v off buf n b e = elim (Bool-cases (ltb (length buf) (8 + off))) [
  | inl t ↦ absurd (ground (arith, rw t at e))
  | inr f ↦ (
    ground (arith, f),
    sym (length-of 0 n (put off (bytes_le 8 v) buf) b (rw f at e))
        ∙ length-put off (bytes_le 8 v) buf,
  )
]

pub write_header-Kept :
    (kind len off : ℕ) (buf : List ℕ) (n : ℕ) (b : List ℕ)
    → write_header kind len off buf ≡ wrote n b
    → Kept (off + 5) buf b
unfolding write_header
write_header-Kept kind len off buf n b e =
    let (m, c, f, g) = and_then-Both _ _ n b e in
    let (h, i) = write_u32-Kept (header_size + len) off buf m c f in
    let (j, k) = write_at-Kept (kind ∷ []) (off + 4) c n b g in (omega arith, k ∙ i)

pub write_block-Kept :
    (kind : ℕ) (bytes : List ℕ) (off : ℕ) (buf : List ℕ) (n : ℕ) (b : List ℕ)
    → write_block kind bytes off buf ≡ wrote n b
    → off + length (block kind bytes) ≤ length buf
write_block-Kept kind bytes off buf n b e =
    let (m, c, f, g) = and_then-Both _ _ n b e in
    let (m', c', f', g') = and_then-Both _ _ n b g in
    let (h, i) = write_header-Kept kind (length bytes) off buf m c f in
    let (j, k) = write_at-Kept bytes (off + header_size) c m' c' f' in
    let size = length-block kind bytes in omega arith

pub write_number-Kept :
    (kind v off : ℕ) (buf : List ℕ) (n : ℕ) (b : List ℕ)
    → write_number kind v off buf ≡ wrote n b
    → off + length (block kind (bytes_le 8 v)) ≤ length buf
write_number-Kept kind v off buf n b e =
    let (m, c, f, g) = and_then-Both _ _ n b e in
    let (m', c', f', g') = and_then-Both _ _ n b g in
    let (h, i) = write_header-Kept kind 8 off buf m c f in
    let (j, k) = write_u64-Kept v (off + header_size) c m' c' f' in
    let size = length-block kind (bytes_le 8 v) in let eight = length-bytes_le 8 v in omega arith
