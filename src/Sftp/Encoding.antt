-- ===== src/Sftp/Encoding.antt =====
-- `Encode` of pkg/sftp/packet.go: what each response is written as. It is the layout of the protocol
-- where every name of a listing has all attributes flagged.
use tinyrange.Prelude.{
  ℕ, ◌%◌, ◌^◌, ◌≡◌, ◌∙◌, ap, refl, sym, append-nil, List, [], ◌∷◌, ◌++◌, length, Bool, true, false,
}
use native.Mathlib.Nat.{mod-eq_of_lt}
use tinyrange.Wire.Numbers.{big, put_uint}
use tinyrange.Wire.Writer.{write_bytes, write_uint, struct_bytes, write_struct}
use tinyrange.Wire.Appends.{
  Appends, Appends-id, Appends-bytes, Appends-uint, Appends-struct, Appends-then,
}
use tinyrange.Sftp.Packets.{
  Text, Attrs, has_flag, attr_size, attr_uidgid, attr_permissions, attr_acmodtime, Name, Response,
  version, attributes, handle, names, contents, status,
}
use tinyrange.Sftp.Layout.{
  u32, text, when, attrs_bytes, whole_attrs, sent_names, sent_fields, NamesSized, ResponseSized,
  TextFits, HasAll, names_bytes, NamesFit, response_fields, ResponseFits,
}
use tinyrange.Sftp.Encode.{
  write_text, write_if, write_attrs, attrs_fields, attrs_struct, write_names, encode,
}

pub Appends-text : (s : Text) → TextFits s → Appends (write_text s) (text s)
unfolding write_text
Appends-text s h = rw (sym (mod-eq_of_lt {n = length s} {m = 2 ^ 32} h)) (
    Appends-then (write_uint 4 (length s % 2 ^ 32)) (write_bytes s) _ s (Appends-uint 4 _)
      (Appends-bytes s))

Appends-if : (b : Bool) (n v : ℕ) → Appends (write_if b n v) (when b (put_uint big n v))
unfolding write_if
Appends-if true n v = Appends-uint n v
Appends-if false n v = Appends-id

pub Appends-attrs : (a : Attrs) → Appends (write_attrs a) (attrs_bytes a)
unfolding write_attrs
Appends-attrs a = Appends-then (write_uint 4 a.flags) _ _ _ (Appends-uint 4 a.flags) (
    Appends-then (write_if (has_flag a.flags attr_size) 8 a.size) _ _ _ (Appends-if _ 8 a.size) (
      Appends-then (write_if (has_flag a.flags attr_uidgid) 4 a.uid) _ _ _ (Appends-if _ 4 a.uid) (
        Appends-then (write_if (has_flag a.flags attr_uidgid) 4 a.gid) _ _ _ (Appends-if _ 4 a.gid)
          (Appends-then (write_if (has_flag a.flags attr_permissions) 4 a.permissions) _ _ _
            (Appends-if _ 4 a.permissions)
            (Appends-then (write_if (has_flag a.flags attr_acmodtime) 4 a.atime)
              (write_if (has_flag a.flags attr_acmodtime) 4 a.mtime) _ _ (Appends-if _ 4 a.atime)
              (Appends-if _ 4 a.mtime))))))

whole_attrs-struct : (a : Attrs) → attrs_struct a ≡ whole_attrs a
unfolding attrs_struct struct_bytes
whole_attrs-struct a = rw (append-nil (u32 a.mtime)) refl

whole_attrs-HasAll : (a : Attrs) → HasAll a → whole_attrs a ≡ attrs_bytes a
whole_attrs-HasAll a h = rw (h.has_size, h.has_ids, h.has_permissions, h.has_times) refl

pub attrs_struct-HasAll : (a : Attrs) → HasAll a → attrs_struct a ≡ attrs_bytes a
attrs_struct-HasAll a h = whole_attrs-struct a ∙ whole_attrs-HasAll a h

Appends-attrs_struct : (a : Attrs) → Appends (write_struct (attrs_fields a)) (attrs_struct a)
unfolding attrs_struct
Appends-attrs_struct a = Appends-struct (attrs_fields a)

Appends-name :
    (n : Name)
    → TextFits n.filename
    → TextFits n.longname
    → Appends
        (λ w. write_struct (attrs_fields n.attrs) (write_text n.longname (write_text n.filename w)))
        (text n.filename ++ (text n.longname ++ whole_attrs n.attrs))
Appends-name n h k = rw (← whole_attrs-struct n.attrs) (
    Appends-then (write_text n.filename) _ _ _ (Appends-text n.filename h) (
      Appends-then (write_text n.longname) _ _ _ (Appends-text n.longname k)
        (Appends-attrs_struct n.attrs)))

Appends-names : (ns : List Name) → NamesSized ns → Appends (write_names ns) (sent_names ns)
unfolding write_names
Appends-names [] h = Appends-id
Appends-names (n ∷ ns) (h, k, m) =
    Appends-then _ (write_names ns) _ _ (Appends-name n h k) (Appends-names ns m)

NamesFit-NamesSized : (ns : List Name) → NamesFit ns → NamesSized ns
NamesFit-NamesSized [] h = tt
NamesFit-NamesSized (n ∷ ns) (h, k, l, m) = (h, k, NamesFit-NamesSized ns m)

pub ResponseFits-ResponseSized : (p : Response) → ResponseFits p → ResponseSized p
ResponseFits-ResponseSized (version v) h = tt
ResponseFits-ResponseSized (attributes a) h = tt
ResponseFits-ResponseSized (handle s) h = h
ResponseFits-ResponseSized (names ns) (h, k) = (h, NamesFit-NamesSized ns k)
ResponseFits-ResponseSized (contents d) h = h
ResponseFits-ResponseSized (status code message language) h = h

sent_names-NamesFit : (ns : List Name) → NamesFit ns → sent_names ns ≡ names_bytes ns
sent_names-NamesFit [] h = refl
sent_names-NamesFit (n ∷ ns) (h, k, l, m) =
    rw (whole_attrs-HasAll n.attrs l, sent_names-NamesFit ns m) refl

-- a response that fits is sent in the layout of the protocol
pub sent_fields-ResponseFits : (p : Response) → ResponseFits p → sent_fields p ≡ response_fields p
sent_fields-ResponseFits (version v) h = refl
sent_fields-ResponseFits (attributes a) h = refl
sent_fields-ResponseFits (handle s) h = refl
sent_fields-ResponseFits (names ns) (h, k) =
    ap (λ (l : List ℕ). u32 (length ns) ++ l) (sent_names-NamesFit ns k)
sent_fields-ResponseFits (contents d) h = refl
sent_fields-ResponseFits (status code message language) h = refl

pub Appends-encode : (p : Response) → ResponseSized p → Appends (encode p) (sent_fields p)
unfolding encode
Appends-encode (version v) h = Appends-uint 4 v
Appends-encode (attributes a) h = Appends-attrs a
Appends-encode (handle s) h = Appends-text s h
Appends-encode (names ns) (h, k) =
    rw (sym (mod-eq_of_lt {n = length ns} {m = 2 ^ 32} h)) (
      Appends-then (write_uint 4 (length ns % 2 ^ 32)) _ _ _ (Appends-uint 4 _)
        (Appends-names ns k))
Appends-encode (contents d) h = Appends-text d h
Appends-encode (status code message language) (h, k) =
    Appends-then (write_uint 4 code) _ _ _ (Appends-uint 4 code)
      (Appends-then (write_text message) _ _ _ (Appends-text message h) (Appends-text language k))
