-- ===== src/Package/Query.antt =====
-- Printing a package name and reading it back as a query.
use Prim.Native.String.{◌++◌ as append_text, [] as empty_text, ◌∷◌ as cons_char}
use Prim.Native.Char.{code}
use text.Mathlib.TextLemmas.{
  cons-append, nil-append, append-eq-nil_iff, tail-eq_of_cons-eq, head-eq_of_cons-eq, cons≢nil,
}
use tinyrange.Prelude.{
  String, ◌≡◌, ap, refl, Bool, true, false, arith, str_eq, ◌==◌, eq_iff, Bool-cases, inl, inr,
  if◌then◌else◌,
}
use tinyrange.Package.Defs.{PackageName, cut_colon, parse_package_query, query_of_name, key}

abbrev pub has_colon : String → Bool
has_colon empty_text = false
has_colon (cons_char c s) = if code c == b':' then true else has_colon s

cut_colon-append :
    (s v : String) → has_colon s ≡ false → cut_colon (append_text s (append_text ":" v)) ≡ (s, v)
unfolding cut_colon
cut_colon-append empty_text v h = rw (nil-append, cons-append, nil-append) refl
cut_colon-append (cons_char c s) v h =
    rw cons-append (ground (arith, cut_colon-append s v (ground arith)))

colon-ne-empty : (s v : String) → append_text s (append_text ":" v) ≡ "" → ⊥
colon-ne-empty s v e =
    let (a, b) = (append-eq-nil_iff {p = s} {q = append_text ":" v}).0 e in
    let (c, d) = (append-eq-nil_iff {p = ":"} {q = v}).0 b in cons≢nil c

-- A printed name is not the query `*`.
key-ne-star : (s v : String) → has_colon s ≡ false → append_text s (append_text ":" v) ≡ "*" → ⊥
key-ne-star empty_text v h e =
    let f = ap code (head-eq_of_cons-eq (rw (nil-append, cons-append) at e)) in absurd (omega arith)
key-ne-star (cons_char c s) v h e = colon-ne-empty s v (tail-eq_of_cons-eq (rw cons-append at e))

-- Reading a printed package name gives the query of the name, if the name has no colon in it.
pub parse_package_query-key :
    (n : PackageName) → has_colon n.name ≡ false → parse_package_query (key n) ≡ query_of_name n
unfolding parse_package_query key query_of_name
parse_package_query-key n h =
    elim (Bool-cases (str_eq (append_text n.name (append_text ":" n.version)) "*")) [
      | inl e ↦ absurd (key-ne-star n.name n.version h ((eq_iff _ _).0 e))
      | inr e ↦ ground (arith, e, cut_colon-append n.name n.version h)
    ]
