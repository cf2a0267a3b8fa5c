-- ===== src/Record/Gets.antt =====
-- A key of a dict that was written is found, by `Get` of pkg/record/record2.go.
use mathlib.Core.Path.{subst}
use tinyrange.Prelude.{
  ℕ, suc, ◌+◌, ◌*◌, ◌^◌, ◌≤◌, ◌<◌, ◌≡◌, ◌≢◌, ◌∙◌, ◌⊎◌, refl, sym, ap, true, false, Option, none,
  some, List, [], ◌∷◌, ◌++◌, length, take, drop, arith, inl, inr, ◌==◌, length-append, drop-append,
  append_assoc,
}
use tinyrange.Wire.Numbers.{bytes_le, value_le, value_le-bytes_le, length-bytes_le}
use tinyrange.Record.Values.{Value, Items, no_items, item, item_count, hash_key, hash_bytes}
use tinyrange.Record.Writer.{record_entry, header_size}
use tinyrange.Record.Layout.{block, layout, layout_items, layout_table}
use tinyrange.Record.Blocks.{entry_body}
use tinyrange.Record.Reader.{Loaded, Reading, View}
use tinyrange.Record.ReadBack.{is_plain}
use tinyrange.Record.Dict.{get_entry, get_round, get_from}
use tinyrange.Record.Reads.{IsLoaded, not_less}
use tinyrange.Record.Heads.{
  At, At-Same, Same-Same, At-front, At-back, Gives, then_read-Gives, read_u32-At, read_record-At,
}
use tinyrange.Record.Views.{view_of, Short, At-body, to_value-layout}
use tinyrange.Record.Compares.{compare-At}

-- a hash is a number of four bytes
hash_bytes-lt : (bytes : List ℕ) (h : ℕ) → h < 2 ^ 32 → hash_bytes h bytes < 2 ^ 32
unfolding hash_bytes
hash_bytes-lt [] h lt = lt
hash_bytes-lt (b ∷ bytes) h lt = hash_bytes-lt bytes _ (omega arith)

hash_key-lt : (k : List ℕ) → hash_key k < 2 ^ 32
unfolding hash_key
hash_key-lt k = hash_bytes-lt k 2166136261 (omega arith)

-- an entry of the table
entry-values :
    (h place : ℕ) (t : List ℕ)
    → h < 256 ^ 4
    → place < 256 ^ 4
    → (value_le (take 4 ((bytes_le 4 h ++ bytes_le 4 place) ++ t)) ≡ h)
      × (value_le (take 4 (drop 4 ((bytes_le 4 h ++ bytes_le 4 place) ++ t))) ≡ place)
      × (8 ≤ length ((bytes_le 4 h ++ bytes_le 4 place) ++ t))
unfolding bytes_le value_le
entry-values h place t lt lt' =
    (value_le-bytes_le 4 h lt, value_le-bytes_le 4 place lt', omega arith)

module _ (key entry : List ℕ) (off hash place : ℕ) (others : Loaded → Reading (Option View))
    (r : Loaded) (has_hash : value_le (take 4 entry) ≡ hash)
    (has_place : value_le (take 4 (drop 4 entry)) ≡ place) (long : 8 ≤ length entry) where
  get_round-same :
      hash_key key ≡ hash
      → get_round key off entry others r ≡ get_entry key (off + header_size + place) others r
  get_round-same e =
      let same : (hash_key key == hash) ≡ true = ground (arith, e) in
      rw (not_less (length entry) 8 long, has_hash, same, has_place) refl

  get_round-other : hash ≢ hash_key key → get_round key off entry others r ≡ others r
  get_round-other e =
      let other : (hash_key key == hash) ≡ false = ground (arith, e) in
      rw (not_less (length entry) 8 long, has_hash, other) refl

-- The value stands somewhere, and its view is given.
abbrev pub Found : Loaded → Reading (Option View) → Value → Type 0
Found r w v = (at : ℕ) × Gives r w (some (view_of at v)) × At r at (layout v)

module _ (key : List ℕ) (v : Value) where
  -- The dict has the value under the key, and the keys before it have other hashes.
  abbrev pub Finds : Items → Type 0
  Finds no_items = true ≡ false
  Finds (item none w rest) = true ≡ false
  Finds (item (some k) w rest) = ((k ≡ key) × (w ≡ v)) ⊎ ((hash_key k ≢ hash_key key) × Finds rest)

module _ (key : List ℕ) (v : Value) (plain : is_plain v ≡ true) where
  -- an entry with the key
  get_entry-At :
      (place : ℕ) (others : Loaded → Reading (Option View)) (r : Loaded)
      → Short r
      → IsLoaded r
      → At r place (block record_entry (entry_body key (layout v)))
      → Found r (get_entry key place others r) v
  get_entry-At place others r short h a =
      let size = bytes_le 4 (length key) in
      let four = length-bytes_le 4 (length key) in
      let head = length-append size key in
      let body = At-body r place record_entry (entry_body key (layout v)) a in
      let front = At-front r (place + 5) (size ++ key) (layout v) body in
      let back : At r (place + header_size + 4 + length key) (layout v) =
        subst (λ (n : ℕ). At r n (layout v)) (omega (arith, four, head))
          (At-back r (place + 5) (size ++ key) (layout v) body) in
      let here : At r (place + header_size + 4) key =
        subst (λ (n : ℕ). At r n key) (omega (arith, four))
          (At-back r (place + 5) size key front) in
      (
        place + header_size + 4 + length key,
        then_read-Gives r _ _ _ _
            (read_record-At place record_entry (entry_body key (layout v)) r h a
              (omega (arith, short, a.inside)))
            (λ s k.
              then_read-Gives s _ _ true _
                (compare-At key (place + header_size + 4) s k.loaded (At-Same r s _ key k here))
                (λ t l.
                  let m = Same-Same r s t k l in
                  then_read-Gives t _ _ (length key) _
                    (read_u32-At (place + header_size) (length key) t l.loaded
                      (At-Same r t _ size m (At-front r (place + 5) size key front))
                      (omega (arith, short, here.inside)))
                    (λ u n.
                      let q = Same-Same r t u m n in
                      then_read-Gives u _ _ _ _
                        (to_value-layout v _ u plain (omega (arith, short, q.total_same)) n.loaded
                          (At-Same r u _ (layout v) q back))
                        (λ w o. (
                          w,
                          refl,
                          record { loaded = o.loaded; contents_same = refl; total_same = refl },
                        ))))),
        back,
      )

  pub get_from-layout :
      (items : Items) (i place off : ℕ) (before index : List ℕ) (r : Loaded)
      → Finds key v items
      → Short r
      → IsLoaded r
      → length before ≡ i * 8
      → index ≡ before ++ layout_table place items
      → At r (off + 5 + place) (layout_items items)
      → Found r (get_from (item_count items) i key off index r) v
  unfolding get_from item_count layout
  get_from-layout no_items i place off before index r f short h e g a = absurd (ground (arith, f))
  get_from-layout (item none w rest) i place off before index r f short h e g a =
      absurd (ground (arith, f))
  get_from-layout (item (some k) w rest) i place off before index r f short h e g a =
      subst (λ (n : ℕ). Found r (get_from n i key off index r) v) (sym one_more)
        (in_round f (λ q.
          get_from-layout rest (i + 1) (place + length entry) off (before ++ head) index r q short h
            next_length next_index next_At))
    where
      one_more : item_count rest + 1 ≡ suc (item_count rest)
      one_more = omega arith

      entry : List ℕ
      entry = block record_entry (entry_body k (layout w))

      head : List ℕ
      head = bytes_le 4 (hash_key k) ++ bytes_le 4 place

      table : List ℕ
      table = layout_table (place + length entry) rest

      others : Loaded → Reading (Option View)
      others s = get_from (item_count rest) (i + 1) key off index s

      here : drop (i * 8) index ≡ head ++ table
      here =
          ap (λ (l : List ℕ). drop (i * 8) l) g
          ∙ ap (λ (n : ℕ). drop n (before ++ (head ++ table))) (sym e)
          ∙ drop-append before (head ++ table)

      next_length : length (before ++ head) ≡ (i + 1) * 8
      next_length = omega (
        arith,
        e,
        length-append before head,
        length-append (bytes_le 4 (hash_key k)) (bytes_le 4 place),
        length-bytes_le 4 (hash_key k),
        length-bytes_le 4 place,
      )

      next_index : index ≡ (before ++ head) ++ table
      next_index = g ∙ sym (append_assoc before head table)

      next_At : At r (off + 5 + (place + length entry)) (layout_items rest)
      next_At =
          subst (λ (n : ℕ). At r n (layout_items rest)) (omega arith)
            (At-back r (off + 5 + place) entry (layout_items rest) a)

      first_At : At r (off + 5 + place) entry
      first_At = At-front r (off + 5 + place) entry (layout_items rest) a

      in_round :
          ((k ≡ key) × (w ≡ v)) ⊎ ((hash_key k ≢ hash_key key) × Finds key v rest)
          → (Finds key v rest → Found r (others r) v)
          → Found r (get_round key off (drop (i * 8) index) others r) v
      in_round (inl (same, equal)) ih =
          let (p, q, long) =
            entry-values (hash_key k) place table (hash_key-lt k)
              (omega (arith, short, first_At.inside)) in
          let (at, (s, f', l), b) = get_entry-At (off + 5 + place) others r short h (
            subst
              (λ (x : List ℕ × Value).
                At r (off + 5 + place) (block record_entry (entry_body x.0 (layout x.1))))
              (ap (λ (y : List ℕ). (y, w)) same ∙ ap (λ (y : Value). (key, y)) equal) first_At) in
          (
            at,
            (
              s,
              ap (λ (y : List ℕ). get_round key off y others r) here
                  ∙ get_round-same key (head ++ table) off (hash_key k) place others r p q long
                      (ap hash_key (sym same))
                  ∙ f',
              l,
            ),
            b,
          )
      in_round (inr (other, later)) ih =
          let (p, q, long) =
            entry-values (hash_key k) place table (hash_key-lt k)
              (omega (arith, short, first_At.inside)) in
          let (at, (s, f', l), b) = ih later in
          (
            at,
            (
              s,
              ap (λ (y : List ℕ). get_round key off y others r) here
                  ∙ get_round-other key (head ++ table) off (hash_key k) place others r p q long
                      other
                  ∙ f',
              l,
            ),
            b,
          )
