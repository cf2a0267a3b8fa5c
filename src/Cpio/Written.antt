-- ===== src/Cpio/Written.antt =====
-- What `WriteTo` of pkg/cpio/cpio.go writes, member by member, in terms of its headers.
use tinyrange.Prelude.{
  ℕ, suc, ◌+◌, ◌-◌, ◌≡◌, ◌∙◌, refl, sym, ap, Bool, true, false, ◌&&◌, none, some, List, [], ◌∷◌,
  ◌++◌, length, arith, length-append, append_assoc, append-nil,
}
use tinyrange.Wire.Writer.{Sink, sink_write}
use tinyrange.Cpio.Header.{as_string, round_up, zeros}
use tinyrange.Cpio.Tree.{Member, Entry, file, directory, Entries, no_entries, child}
use tinyrange.Cpio.Writer.{
  CpioWriter, Wrote, then_write, write_bytes, write_padding, write_content, write_header, header_of,
  content_after, named_member, write_member, child_prefix, child_count, write_entry, write_entries,
  trailer, write_to,
}

-- a member with its links and the prefix of its name
abbrev pub Listed : Type 0
Listed = ℕ × List ℕ × Member

-- the members of a tree, every directory before what is in it
unfoldable mutual
  pub listing : Entry → List ℕ → List Listed
  listing (file m) prefix = (1, prefix, m) ∷ []
  listing (directory m es) prefix =
      (2 + child_count es, prefix, m) ∷ listing_all es (child_prefix prefix m.name)

  pub listing_all : Entries → List ℕ → List Listed
  listing_all no_entries prefix = []
  listing_all (child e es) prefix = listing e prefix ++ listing_all es prefix

-- bytes, up to a multiple of four
abbrev pub padded : List ℕ → List ℕ
padded bytes = bytes ++ zeros (round_up (length bytes) 4 - length bytes)

abbrev pub member_bytes : ℕ → Listed → List ℕ
member_bytes inode (links, prefix, m) =
    padded (as_string (header_of inode links prefix m)) ++ padded m.content

-- The members, numbered from the inode behind this one, each of them a header and its content.
abbrev pub archive : ℕ → List Listed → List ℕ
archive inode [] = []
archive inode (x ∷ xs) = member_bytes (inode + 1) x ++ archive (inode + 1) xs

abbrev pub has_bytes : List ℕ → Bool
has_bytes [] = false
has_bytes (b ∷ bytes) = true

-- every name has a byte
unfoldable mutual
  pub is_named : Entry → Bool
  is_named (file m) = has_bytes m.name
  is_named (directory m es) = has_bytes m.name && are_named es

  pub are_named : Entries → Bool
  are_named no_entries = true
  are_named (child e es) = is_named e && are_named es

abbrev pub open_sink : List ℕ → Sink
open_sink taken = record { taken = taken; room = none }

abbrev at_inode : List ℕ → ℕ → CpioWriter
at_inode taken inode = record { sink = open_sink taken; last_inode = inode }

-- the write appends these bytes and allocates so many inodes
abbrev Appends : (CpioWriter → Wrote) → ℕ → ℕ → List ℕ → Type 0
Appends f inode n bytes =
    (taken : List ℕ) → f (at_inode taken inode) ≡ (none, at_inode (taken ++ bytes) (inode + n))

then_write-wrote :
    (w : Wrote) (v : CpioWriter) (k : CpioWriter → Wrote) (r : Wrote)
    → w ≡ (none, v)
    → k v ≡ r
    → then_write w k ≡ r
unfolding then_write
then_write-wrote w v k r e f = ap (λ (x : Wrote). then_write x k) e ∙ f

then_write_assoc :
    (w : Wrote) (f g : CpioWriter → Wrote)
    → then_write w (λ v. then_write (f v) g) ≡ then_write (then_write w f) g
unfolding then_write
then_write_assoc (some e, v) f g = refl
then_write_assoc (none, v) f g = refl

write_padded :
    (bytes taken : List ℕ) (inode : ℕ)
    → write_content bytes (at_inode taken inode) ≡ (none, at_inode (taken ++ padded bytes) inode)
unfolding write_content write_bytes write_padding sink_write then_write
write_padded bytes taken inode =
    ap (λ (l : List ℕ). (none, at_inode l inode))
      (append_assoc taken bytes (zeros (round_up (length bytes) 4 - length bytes)))

header-padded :
    (inode links : ℕ) (prefix : List ℕ) (m : Member) (taken : List ℕ) (i : ℕ)
    → write_header (header_of inode links prefix m) (at_inode taken i)
      ≡ (none, at_inode (taken ++ padded (as_string (header_of inode links prefix m))) i)
unfolding write_header write_bytes write_padding sink_write then_write
header-padded inode links prefix m taken i =
    let s = as_string (header_of inode links prefix m) in
    ap (λ (l : List ℕ). (none, at_inode l i))
      (append_assoc taken s (zeros (round_up (length s) 4 - length s)))

content-padded :
    (bytes taken : List ℕ) (i : ℕ)
    → content_after bytes (at_inode taken i) ≡ (none, at_inode (taken ++ padded bytes) i)
unfolding round_up zeros
content-padded [] taken i = ap (λ (l : List ℕ). (none, at_inode l i)) (sym (append-nil taken))
content-padded (b ∷ bytes) taken i = write_padded (b ∷ bytes) taken i

member-archive :
    (links : ℕ) (prefix : List ℕ) (m : Member) (inode : ℕ)
    → has_bytes m.name ≡ true
    → Appends (write_member links prefix m) inode 1 (archive inode ((links, prefix, m) ∷ []))
unfolding write_member
member-archive links prefix m inode h taken = from m.name h
  where
    first : List ℕ
    first = padded (as_string (header_of (inode + 1) links prefix m))

    from :
        (name : List ℕ)
        → has_bytes name ≡ true
        → named_member name links prefix m (at_inode taken (inode + 1))
          ≡ (none, at_inode (taken ++ archive inode ((links, prefix, m) ∷ [])) (inode + 1))
    from [] e = absurd (ground (arith, e))
    from (c ∷ cs) e =
        then_write-wrote _ _ _ _ (header-padded (inode + 1) links prefix m taken (inode + 1)) (
          content-padded m.content (taken ++ first) (inode + 1)
          ∙ ap (λ (l : List ℕ). (none, at_inode l (inode + 1)))
              (append_assoc taken first (padded m.content)
                ∙ ap (λ (l : List ℕ). taken ++ l) (sym (append-nil (first ++ padded m.content)))))

archive-append :
    (xs ys : List Listed) (inode : ℕ)
    → archive inode (xs ++ ys) ≡ archive inode xs ++ archive (inode + length xs) ys
archive-append [] ys inode = ap (λ (n : ℕ). archive n ys) (omega arith)
archive-append (x ∷ xs) ys inode =
    let same : (inode + 1) + length xs ≡ inode + suc (length xs) = omega arith in
    ap (λ (l : List ℕ). member_bytes (inode + 1) x ++ l)
      (archive-append xs ys (inode + 1)
        ∙ ap (λ (n : ℕ). archive (inode + 1) xs ++ archive n ys) same)
    ∙ sym (append_assoc (member_bytes (inode + 1) x) (archive (inode + 1) xs) _)

-- two writes, one behind the other
Appends-Appends :
    (f g : CpioWriter → Wrote) (inode : ℕ) (xs ys : List Listed)
    → Appends f inode (length xs) (archive inode xs)
    → Appends g (inode + length xs) (length ys) (archive (inode + length xs) ys)
    → Appends (λ w. then_write (f w) g) inode (length (xs ++ ys)) (archive inode (xs ++ ys))
Appends-Appends f g inode xs ys h k taken = then_write-wrote _ _ g _ (h taken) (
    k (taken ++ archive inode xs)
    ∙ ap (λ (l : List ℕ). (none, at_inode l (inode + length xs + length ys)))
        (append_assoc taken (archive inode xs) (archive (inode + length xs) ys)
          ∙ ap (λ (l : List ℕ). taken ++ l) (sym (archive-append xs ys inode)))
    ∙ ap (λ (n : ℕ). (none, at_inode (taken ++ archive inode (xs ++ ys)) n))
        (omega (arith, length-append xs ys)))

both : (a b : Bool) → (a && b) ≡ true → (a ≡ true) × (b ≡ true)
both a b h = (ground (arith, h), ground (arith, h))

mutual
  unfolding write_entry listing is_named

  entry-archive :
      (e : Entry) (prefix : List ℕ) (inode : ℕ)
      → is_named e ≡ true
      → Appends
          (write_entry e prefix)
          inode
          (length (listing e prefix))
          (archive inode (listing e prefix))
  entry-archive (file m) prefix inode h = member-archive 1 prefix m inode h
  entry-archive (directory m es) prefix inode h =
      let (a, b) = both (has_bytes m.name) (are_named es) h in
      Appends-Appends (write_member (2 + child_count es) prefix m)
        (write_entries es (child_prefix prefix m.name)) inode ((2 + child_count es, prefix, m) ∷ [])
        (listing_all es (child_prefix prefix m.name))
        (member-archive (2 + child_count es) prefix m inode a)
        (entries-archive es (child_prefix prefix m.name) (inode + 1) b)

  entries-archive :
      (es : Entries) (prefix : List ℕ) (inode : ℕ)
      → are_named es ≡ true
      → Appends
          (write_entries es prefix)
          inode
          (length (listing_all es prefix))
          (archive inode (listing_all es prefix))
  entries-archive no_entries prefix inode h = λ taken.
      ap (λ (l : List ℕ). (none, at_inode l inode)) (sym (append-nil taken))
      ∙ ap (λ (n : ℕ). (none, at_inode (taken ++ []) n)) (omega arith)
  entries-archive (child e es) prefix inode h =
      let (a, b) = both (is_named e) (are_named es) h in
      Appends-Appends (write_entry e prefix) (write_entries es prefix) inode (listing e prefix)
        (listing_all es prefix) (entry-archive e prefix inode a)
        (entries-archive es prefix (inode + length (listing e prefix)) b)

-- the members of an archive, with the trailer
abbrev pub all_members : Entry → List Listed
all_members root = listing root [] ++ (1, [], trailer) ∷ []

pub write_to_written :
    (root : Entry)
    → is_named root ≡ true
    → write_to root (open_sink []) ≡ (
      none,
      record {
        sink = open_sink (archive 0 (all_members root) ++ zeros 4096);
        last_inode = length (all_members root);
      },
    )
unfolding write_to write_bytes sink_write is_named listing write_entry
write_to_written root h =
    then_write_assoc _ _ _
    ∙ then_write-wrote _ _ _ _
        (Appends-Appends (write_entry root []) (write_entry (file trailer) []) 0 (listing root [])
          ((1, [], trailer) ∷ []) (entry-archive root [] 0 h)
          (member-archive 1 [] trailer (0 + length (listing root [])) refl) [])
        (ap (λ (n : ℕ). (none, at_inode (archive 0 (all_members root) ++ zeros 4096) n))
          (omega arith))
