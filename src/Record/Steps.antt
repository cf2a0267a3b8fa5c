-- ===== src/Record/Steps.antt =====
-- The writes of `RecordWriter2` into a buffer that has the room for them.
use tinyrange.Prelude.{ℕ, ◌+◌, ◌≤◌, ◌≡◌, ◌∙◌, refl, sym, ap, List, [], ◌∷◌, length, arith}
use tinyrange.Wire.Numbers.{bytes_le, length-bytes_le}
use tinyrange.Record.Buffer.{put, length-put, put-append, put-before}
use tinyrange.Record.Writer.{
  Written, wrote, and_then, write_at, write_u32, write_u64, write_header, write_number, write_block,
  header_size,
}
use tinyrange.Record.Layout.{header, block, length-header, length-block}

-- a write that succeeds, and the one behind it
pub and_then-wrote :
    {w r : Written} {n : ℕ} {b : List ℕ} (k : ℕ → List ℕ → Written)
    → w ≡ wrote n b
    → k n b ≡ r
    → and_then w k ≡ r
unfolding and_then
and_then-wrote k e f = ap (λ (x : Written). and_then x k) e ∙ f

pub write_at-fits :
    (bytes : List ℕ) (off : ℕ) (buf : List ℕ)
    → off + length bytes ≤ length buf
    → write_at bytes off buf ≡ wrote 0 (put off bytes buf)
unfolding write_at
write_at-fits bytes off buf le = ground (arith, le)

pub write_u32-fits :
    (v off : ℕ) (buf : List ℕ)
    → off + 4 ≤ length buf
    → write_u32 v off buf ≡ wrote 0 (put off (bytes_le 4 v) buf)
unfolding write_u32
write_u32-fits v off buf le = ground (arith, le)

pub write_u64-fits :
    (v off : ℕ) (buf : List ℕ)
    → off + 8 ≤ length buf
    → write_u64 v off buf ≡ wrote 0 (put off (bytes_le 8 v) buf)
unfolding write_u64
write_u64-fits v off buf le = ground (arith, le)

pub write_header-fits :
    (kind len off : ℕ) (buf : List ℕ)
    → off + 5 ≤ length buf
    → write_header kind len off buf ≡ wrote 0 (put off (header kind len) buf)
unfolding write_header
write_header-fits kind len off buf le =
    let four = bytes_le 4 (header_size + len) in
    let same = length-bytes_le 4 (header_size + len) in
    let kept = length-put off four buf in
    and_then-wrote _ (write_u32-fits (header_size + len) off buf (omega arith)) (
      write_at-fits (kind ∷ []) (off + 4) (put off four buf) (omega arith)
      ∙ ap (λ (k : ℕ). wrote 0 (put k (kind ∷ []) (put off four buf))) (omega (arith, same))
      ∙ ap (wrote 0) (put-append off four (kind ∷ []) buf))

-- a header in front of its body, which is there
pub write_header-body :
    (kind off : ℕ) (body buf : List ℕ)
    → off + (5 + length body) ≤ length buf
    → write_header kind (length body) off (put (off + 5) body buf)
      ≡ wrote 0 (put off (block kind body) buf)
write_header-body kind off body buf le =
    write_header-fits kind (length body) off (put (off + 5) body buf)
      (omega (arith, length-put (off + 5) body buf))
    ∙ ap (wrote 0) (
        put-before off (off + 5) (header kind (length body)) body buf
          (omega (arith, length-header kind (length body))))

-- a body behind its header
put-block :
    (kind off : ℕ) (body buf : List ℕ)
    → put (off + header_size) body (put off (header kind (length body)) buf)
      ≡ put off (block kind body) buf
put-block kind off body buf =
    ap (λ (k : ℕ). put k body (put off (header kind (length body)) buf))
      (omega (arith, length-header kind (length body)))
    ∙ put-append off (header kind (length body)) body buf

pub write_block-fits :
    (kind : ℕ) (bytes : List ℕ) (off : ℕ) (buf : List ℕ)
    → off + (5 + length bytes) ≤ length buf
    → write_block kind bytes off buf
      ≡ wrote (header_size + length bytes) (put off (block kind bytes) buf)
write_block-fits kind bytes off buf le =
    let head = header kind (length bytes) in
    let kept = length-put off head buf in
    and_then-wrote _ (write_header-fits kind (length bytes) off buf (omega arith)) (
      and_then-wrote _ (write_at-fits bytes (off + header_size) (put off head buf) (omega arith))
        (ap (wrote (header_size + length bytes)) (put-block kind off bytes buf)))

pub write_number-fits :
    (kind v off : ℕ) (buf : List ℕ)
    → off + 13 ≤ length buf
    → write_number kind v off buf ≡ wrote 13 (put off (block kind (bytes_le 8 v)) buf)
write_number-fits kind v off buf le =
    let body = bytes_le 8 v in
    let same = length-bytes_le 8 v in
    let head = header kind 8 in
    let kept = length-put off head buf in
    and_then-wrote _ (write_header-fits kind 8 off buf (omega arith)) (
      and_then-wrote _ (write_u64-fits v (off + header_size) (put off head buf) (omega arith)) (
        ap (wrote 13) (
          ap (λ (n : ℕ). put (off + header_size) body (put off (header kind n) buf)) (sym same)
          ∙ put-block kind off body buf)))

pub wrote-eq : {n m : ℕ} {b c : List ℕ} → n ≡ m → b ≡ c → wrote n b ≡ wrote m c
wrote-eq {m = m} {b = b} e f = ap (λ (k : ℕ). wrote k b) e ∙ ap (wrote m) f

-- the header that is written when the body behind it is there
pub enclosed-fits :
    (kind off len : ℕ) (body buf b : List ℕ)
    → len ≡ length body
    → b ≡ put (off + 5) body buf
    → off + (5 + length body) ≤ length buf
    → and_then (write_header kind len off b) (λ n b'. wrote (header_size + len) b')
      ≡ wrote (length (block kind body)) (put off (block kind body) buf)
enclosed-fits kind off len body buf b e f le =
    and_then-wrote _
      (ap (λ (n : ℕ). write_header kind n off b) e
        ∙ ap (write_header kind (length body) off) f
        ∙ write_header-body kind off body buf le)
      (wrote-eq (omega (arith, e, length-block kind body)) refl)
