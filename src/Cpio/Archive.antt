-- ===== src/Cpio/Archive.antt =====
-- `WriteTo` of pkg/cpio/cpio.go writes the archive of its tree.
use tinyrange.Prelude.{
  ℕ, ◌+◌, ◌≡◌, ◌∙◌, refl, ap, Bool, true, ◌&&◌, List, [], ◌∷◌, ◌++◌, map, arith, append_assoc,
}
use tinyrange.Cpio.Tree.{Entry, file, directory, Entries, no_entries, child, member_of, same_name}
use tinyrange.Cpio.Writer.{child_prefix, child_count}
use tinyrange.Cpio.Written.{member_bytes, listing, listing_all, has_bytes, is_named, are_named}
use tinyrange.Cpio.Written as Written
use tinyrange.Cpio.Format.{Listed, count, members, members_below, is_proper, has_names, have_names}

-- a member as it is listed, from its prefix
abbrev located : Written.Listed → Listed
located (links, prefix, m) = (links, prefix ++ m.name, m)

map-located :
    (xs ys : List Written.Listed) → map located (xs ++ ys) ≡ map located xs ++ map located ys
map-located [] ys = refl
map-located (x ∷ xs) ys = ap (λ (l : List Listed). located x ∷ l) (map-located xs ys)

child_count-count : (es : Entries) → child_count es ≡ count es
unfolding child_count
child_count-count no_entries = refl
child_count-count (child e es) = omega (arith, child_count-count es)

child_prefix-proper :
    (prefix name : List ℕ)
    → is_proper name ≡ true
    → child_prefix prefix name ≡ (prefix ++ name) ++ 47 ∷ []
unfolding child_prefix same_name
child_prefix-proper prefix [] h = absurd (ground (arith, h))
child_prefix-proper prefix (c ∷ []) h = ground (arith, h, append_assoc prefix (c ∷ []) (47 ∷ []))
child_prefix-proper prefix (c ∷ (d ∷ cs)) h =
    ground (arith, append_assoc prefix (c ∷ d ∷ cs) (47 ∷ []))

proper-has_bytes : (name : List ℕ) → is_proper name ≡ true → has_bytes name ≡ true
proper-has_bytes [] h = absurd (ground (arith, h))
proper-has_bytes (c ∷ cs) h = refl

both : (a b : Bool) → (a && b) ≡ true → (a ≡ true) × (b ≡ true)
both a b h = (ground (arith, h), ground (arith, h))

mutual
  unfolding has_names is_named

  has_names-is_named : (e : Entry) → has_names e ≡ true → is_named e ≡ true
  has_names-is_named (file m) h = proper-has_bytes m.name h
  has_names-is_named (directory m es) h =
      let (a, b) = both (is_proper m.name) (have_names es) h in
      ground (arith, proper-has_bytes m.name a, have_names-are_named es b)

  have_names-are_named : (es : Entries) → have_names es ≡ true → are_named es ≡ true
  have_names-are_named no_entries h = refl
  have_names-are_named (child e es) h =
      let (a, b) = both (has_names e) (have_names es) h in
      ground (arith, has_names-is_named e a, have_names-are_named es b)

mutual
  unfolding has_names listing members

  listing-members :
      (e : Entry) (prefix : List ℕ)
      → has_names e ≡ true
      → map located (listing e prefix) ≡ members (prefix ++ (member_of e).name) e
  listing-members (file m) prefix h = refl
  listing-members (directory m es) prefix h =
      let (a, b) = both (is_proper m.name) (have_names es) h in
      rw (child_count-count es, child_prefix-proper prefix m.name a)
        (ap (λ (l : List Listed). (2 + count es, prefix ++ m.name, m) ∷ l)
          (listing_all-members es ((prefix ++ m.name) ++ 47 ∷ []) b))

  listing_all-members :
      (es : Entries) (prefix : List ℕ)
      → have_names es ≡ true
      → map located (listing_all es prefix) ≡ members_below prefix es
  listing_all-members no_entries prefix h = refl
  listing_all-members (child e es) prefix h =
      let (a, b) = both (has_names e) (have_names es) h in
      map-located (listing e prefix) (listing_all es prefix)
      ∙ ap (λ (l : List Listed). l ++ map located (listing_all es prefix))
          (listing-members e prefix a)
      ∙ ap (λ (l : List Listed). members (prefix ++ (member_of e).name) e ++ l)
          (listing_all-members es prefix b)
