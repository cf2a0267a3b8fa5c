-- ===== src/Sftp/Attributes.antt =====
-- The attributes of a file in pkg/sftp/packet.go: `Encode`, `Decode`, and `Struct`, which writes them
-- whole.
use tinyrange.Prelude.{
  ℕ, ◌+◌, ◌%◌, ◌^◌, ◌≤◌, ◌<◌, ◌≡◌, ap, refl, List, [], ◌++◌, arith, length, length-append, Bool,
  true, false, ltb, Bool-cases, inl, inr,
}
use tinyrange.Wire.Numbers.{big, put_uint, length-put_uint}
use tinyrange.Wire.Reader.{new_reader}
use tinyrange.Wire.Writer.{buffer, new_writer, struct_bytes}
use tinyrange.Wire.RoundTrip.{at, Reads-start}
use tinyrange.Sftp.Packets.{
  Attrs, has_flag, attr_size, attr_uidgid, attr_permissions, attr_acmodtime,
}
use tinyrange.Sftp.Layout.{u32, u64, when, attrs_bytes, AttrsFit, HasAll}
use tinyrange.Sftp.Decode.{read_attrs}
use tinyrange.Sftp.Encode.{write_attrs, attrs_struct}
use tinyrange.Sftp.Requests.{Reads-attrs}
use tinyrange.Sftp.Encoding.{Appends-attrs, attrs_struct-HasAll}

-- Attributes that `Encode` writes into a buffer are the ones that `Decode` reads from it, which then
-- stands behind them with no error, if the numbers fit their fields and a field without a flag is 0.
pub read_attrs-write_attrs :
    (a : Attrs) (rest : List ℕ)
    → AttrsFit a
    → read_attrs (new_reader ((write_attrs a (new_writer buffer big)).sink.taken ++ rest) big)
      ≡ (a, at big rest (length (attrs_bytes a) % 2 ^ 64))
read_attrs-write_attrs a rest h =
    rw ((Appends-attrs a).run [] 0) (Reads-start rest (Reads-attrs a h))

length-when : (b : Bool) (n v : ℕ) → length (when b (put_uint big n v)) ≤ n
length-when true n v = omega (arith, length-put_uint big n v)
length-when false n v = omega arith

when-full : (b : Bool) (n v : ℕ) → 0 < n → n ≤ length (when b (put_uint big n v)) → b ≡ true
when-full true n v h k = refl
when-full false n v h k = absurd (omega arith)

length-attrs_struct : (a : Attrs) → length (attrs_struct a) ≡ 32
unfolding attrs_struct struct_bytes
length-attrs_struct a = simp (length-append, length-put_uint) refl

length-attrs_bytes :
    (a : Attrs)
    → length (attrs_bytes a)
      ≡ 4
        + (length (when (has_flag a.flags attr_size) (u64 a.size))
            + (length (when (has_flag a.flags attr_uidgid) (u32 a.uid))
                + (length (when (has_flag a.flags attr_uidgid) (u32 a.gid))
                    + (length (when (has_flag a.flags attr_permissions) (u32 a.permissions))
                        + (length (when (has_flag a.flags attr_acmodtime) (u32 a.atime))
                            + length (when (has_flag a.flags attr_acmodtime) (u32 a.mtime)))))))
length-attrs_bytes a = simp (length-append, length-put_uint) refl

attrs_bytes-HasAll : (a : Attrs) → 32 ≤ length (attrs_bytes a) → HasAll a
attrs_bytes-HasAll a h =
    let sum = length-attrs_bytes a in
    let size = length-when (has_flag a.flags attr_size) 8 a.size in
    let uid = length-when (has_flag a.flags attr_uidgid) 4 a.uid in
    let gid = length-when (has_flag a.flags attr_uidgid) 4 a.gid in
    let permissions = length-when (has_flag a.flags attr_permissions) 4 a.permissions in
    let atime = length-when (has_flag a.flags attr_acmodtime) 4 a.atime in
    let mtime = length-when (has_flag a.flags attr_acmodtime) 4 a.mtime in
    record {
      has_size = when-full _ 8 a.size (omega arith) (omega arith);
      has_ids = when-full _ 4 a.uid (omega arith) (omega arith);
      has_permissions = when-full _ 4 a.permissions (omega arith) (omega arith);
      has_times = when-full _ 4 a.mtime (omega arith) (omega arith);
    }

attrs_bytes_shorter :
    (a : Attrs) → (HasAll a → ⊥) → length (attrs_bytes a) < length (attrs_struct a)
attrs_bytes_shorter a h = elim (Bool-cases (ltb (length (attrs_bytes a)) 32)) [
  | inl e ↦ ground (arith, e, length-attrs_struct a)
  | inr e ↦ absurd (h (attrs_bytes-HasAll a (ground (arith, e))))
]

-- `Struct`, which a listing uses for the attributes of its names, writes what the protocol asks for
-- just where all attributes are flagged; of any other attributes it writes more bytes.
pub attrs_struct-attrs_bytes :
    (a : Attrs)
    → (attrs_struct a ≡ attrs_bytes a → HasAll a)
      × (HasAll a → attrs_struct a ≡ attrs_bytes a)
      × ((HasAll a → ⊥) → length (attrs_bytes a) < length (attrs_struct a))
attrs_struct-attrs_bytes a = (
  λ e. attrs_bytes-HasAll a (omega (arith, ap length e, length-attrs_struct a)),
  attrs_struct-HasAll a,
  attrs_bytes_shorter a,
)
