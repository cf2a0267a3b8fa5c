-- ===== src/Record/Recovered.antt =====
-- The records that `readValues` of pkg/record/record2.go sends are the values that `Emit` wrote.

use tinyrange.Prelude.{
  ℕ, zero, suc, ◌+◌, ◌^◌, ◌≤◌, ◌<◌, ◌≡◌, ◌∙◌, refl, sym, ap, true, false, ◌||◌, Option, none, some,
  List, [], ◌∷◌, ◌++◌, length, take, drop, arith, ◌==◌, ltb, take-append, drop-append,
  length-append, append_assoc, All, map,
}
use tinyrange.Wire.Numbers.{bytes_le, value_le, value_le-bytes_le}
use tinyrange.Record.Values.{
  Value, bool, int, float, string, dict, list, none_value, other, value_count,
}
use tinyrange.Record.Writer.{record_none}
use tinyrange.Record.Layout.{block, layout, layout_values, length-block}
use tinyrange.Record.Emit.{layouts}
use tinyrange.Record.Reader.{
  cached, Loaded, Sent, next_record, read_error, end_of_file, sent_at, read_values,
}
use tinyrange.Record.ReadBack.{expanded, read_back, read_sent, is_plain, weight}
use tinyrange.Record.Reads.{IsLoaded, not_less}
use tinyrange.Record.Stretches.{length-take, length-drop, take-drop-take}
use tinyrange.Record.Heads.{At, At-Same}
use tinyrange.Record.RoundTrip.{expand-layout}
use tinyrange.Record.Views.{kind_of, Short, to_value-layout}

read_back-layout :
    (v : Value) (fuel : ℕ) (r : Loaded)
    → is_plain v ≡ true
    → Short r
    → IsLoaded r
    → At r 0 (layout v)
    → weight v ≤ fuel
    → read_back fuel r ≡ some v
unfolding read_back
read_back-layout v fuel r p short h a enough =
    let (s, e, k) = to_value-layout v 0 r p short h a in
    let (t, f, l) =
      expand-layout v fuel 0 s p (omega (arith, short, k.total_same)) k.loaded
        (At-Same r s 0 (layout v) k a) enough in
    ap (expanded fuel) e ∙ ap (λ (w : Option Value × Loaded). w.0) f

-- the block that a plain value is
plain-block :
    (v : Value) → is_plain v ≡ true → (body : List ℕ) × (layout v ≡ block (kind_of v) body)
unfolding layout is_plain
plain-block (bool b) p = absurd (ground (arith, p))
plain-block (int u f) p = absurd (ground (arith, p))
plain-block (float f) p = absurd (ground (arith, p))
plain-block (string bytes) p = (bytes, refl)
plain-block (dict items) p = absurd (ground (arith, p))
plain-block (list vs) p = (bytes_le 4 (value_count vs) ++ layout_values vs, refl)
plain-block none_value p = ([], refl)
plain-block other p = absurd (ground (arith, p))

plain-kind :
    (v : Value) → is_plain v ≡ true → ((kind_of v == 0) || ltb record_none (kind_of v)) ≡ false
unfolding is_plain
plain-kind (bool b) p = absurd (ground (arith, p))
plain-kind (int u f) p = absurd (ground (arith, p))
plain-kind (float f) p = absurd (ground (arith, p))
plain-kind (string bytes) p = refl
plain-kind (dict items) p = absurd (ground (arith, p))
plain-kind (list vs) p = refl
plain-kind none_value p = refl
plain-kind other p = absurd (ground (arith, p))

-- the length and the kind, in the first bytes of what begins with a block
head-values :
    (kind : ℕ) (body after : List ℕ)
    → 5 + length body < 256 ^ 4
    → (value_le (take 4 (take cached (block kind body ++ after))) ≡ 5 + length body)
      × (value_le (take 1 (drop 4 (take cached (block kind body ++ after)))) ≡ kind)
unfolding bytes_le value_le
head-values kind body after lt =
    let all = block kind body ++ after in
    (
      ap value_le (take-drop-take 4 0 cached all (omega arith))
          ∙ value_le-bytes_le 4 (5 + length body) lt,
      ap value_le (take-drop-take 1 4 cached all (omega arith)) ∙ omega arith,
    )

-- the record that is sent for this place of the file
abbrev record_at : List ℕ → ℕ → ℕ → Loaded
record_at file off len = record {
  file = file;
  off = off;
  data_bytes = take cached (drop off file);
  total_len = len;
  rest = none;
}

sent_at-good :
    (file bytes : List ℕ) (off len kind : ℕ) (rest : ℕ → Sent)
    → value_le (take 4 bytes) ≡ len
    → value_le (take 1 (drop 4 bytes)) ≡ kind
    → cached ≤ length bytes
    → ((kind == 0) || ltb record_none kind) ≡ false
    → sent_at file off bytes rest
      ≡ next_record
          (record { file = file; off = off; data_bytes = bytes; total_len = len; rest = none })
          (rest (off + len))
sent_at-good file bytes off len kind rest a b long good =
    rw (not_less (length bytes) cached long, b, good, a) refl

module _ (v : Value) (before after : List ℕ) where
  abbrev whole_file : List ℕ
  whole_file = before ++ (layout v ++ after)

  from-here : drop (length before) whole_file ≡ layout v ++ after
  from-here = drop-append before (layout v ++ after)

  sent_at-layout :
      (rest : ℕ → Sent)
      → is_plain v ≡ true
      → length (layout v) < 2 ^ 32
      → cached ≤ length after
      → sent_at whole_file (length before) (take cached (drop (length before) whole_file)) rest
        ≡ next_record
            (record_at whole_file (length before) (length (layout v)))
            (rest (length before + length (layout v)))
  sent_at-layout rest p short long =
      let (body, e) = plain-block v p in
      let size : length (layout v) ≡ 5 + length body =
        ap length e ∙ length-block (kind_of v) body in
      let here : take cached (drop (length before) whole_file)
          ≡ take cached (block (kind_of v) body ++ after) =
        ap (take cached) from-here ∙ ap (λ (l : List ℕ). take cached (l ++ after)) e in
      let (f, g) = head-values (kind_of v) body after (omega (arith, short, size)) in
      let enough : length (take cached (drop (length before) whole_file)) ≡ cached =
        ap (λ (l : List ℕ). length (take cached l)) from-here
        ∙ length-take cached (layout v ++ after)
            (omega (arith, long, length-append (layout v) after)) in
      sent_at-good whole_file _ (length before) (length (layout v)) (kind_of v) rest
        (ap (λ (l : List ℕ). value_le (take 4 l)) here ∙ f ∙ sym size)
        (ap (λ (l : List ℕ). value_le (take 1 (drop 4 l))) here ∙ g) (omega (arith, enough))
        (plain-kind v p)

  -- the record that was sent, read back
  read_back-record_at :
      (fuel : ℕ)
      → is_plain v ≡ true
      → length (layout v) < 2 ^ 32
      → weight v ≤ fuel
      → read_back fuel (record_at whole_file (length before) (length (layout v))) ≡ some v
  read_back-record_at fuel p short enough =
      read_back-layout v fuel (record_at whole_file (length before) (length (layout v))) p short
        (record {
          whole = omega (arith, ap length from-here, length-append (layout v) after);
          first = refl;
          behind_it = tt;
        })
        (record {
          inside = omega arith;
          stands = ap (take (length (layout v))) from-here ∙ take-append (layout v) after;
        })
        enough

-- a value that this much fuel reads back
abbrev pub Plain : ℕ → Value → Type 0
Plain fuel v = (is_plain v ≡ true) × (length (layout v) < 2 ^ 32) × (weight v ≤ fuel)

recovered :
    (fuel : ℕ) (vs : List Value) (before tail : List ℕ)
    → All (Plain fuel) vs
    → cached ≤ length tail
    → read_sent fuel (read_values (length vs) (before ++ (layouts vs ++ tail)) (length before))
      ≡ map (λ v. some v) vs
unfolding read_values
recovered fuel [] before tail h long = refl
recovered fuel (v ∷ vs) before tail ((p, short, enough), h) long =
    let after = layouts vs ++ tail in
    let file = before ++ (layout v ++ after) in
    let same : before ++ (layouts (v ∷ vs) ++ tail) ≡ file =
      ap (λ (l : List ℕ). before ++ l) (append_assoc (layout v) (layouts vs) tail) in
    let next : read_sent fuel (read_values (length vs) file (length before + length (layout v)))
        ≡ map (λ x. some x) vs =
      ap
        (λ (l : List ℕ).
          read_sent fuel (read_values (length vs) l (length before + length (layout v))))
        (sym (append_assoc before (layout v) after))
      ∙ ap (λ (k : ℕ). read_sent fuel (read_values (length vs) ((before ++ layout v) ++ after) k))
          (sym (length-append before (layout v)))
      ∙ recovered fuel vs (before ++ layout v) tail h long in
    ap (λ (l : List ℕ). read_sent fuel (read_values (suc (length vs)) l (length before))) same
    ∙ ap (read_sent fuel) (
        sent_at-layout v before after (λ off. read_values (length vs) file off) p short
          (omega (arith, long, length-append (layouts vs) tail)))
    ∙ ap
        (λ (o : Option Value).
          o ∷ read_sent fuel (read_values (length vs) file (length before + length (layout v))))
        (read_back-record_at v before after fuel p short enough)
    ∙ ap (λ (l : List (Option Value)). some v ∷ l) next

sent_at-short :
    (file bytes : List ℕ) (off : ℕ) (rest : ℕ → Sent)
    → length bytes < cached
    → sent_at file off bytes rest ≡ read_error end_of_file
sent_at-short file bytes off rest lt =
    let few : ltb (length bytes) cached ≡ true = ground (arith, lt) in rw few refl

length-take-le : {A : Type 0} (n : ℕ) (xs : List A) → length (take n xs) ≤ length xs
length-take-le zero xs = omega arith
length-take-le (suc n) [] = omega arith
length-take-le (suc n) (x ∷ xs) = omega (arith, length-take-le n xs)

-- A file that holds the layouts of values, with so many bytes behind the last one that the first
-- bytes of a record can always be read in full: the reader sends a record for each value, in order,
-- and each is read back as the value, if the values are made of strings, lists and nothing, and are
-- shorter than four gigabytes. At a place of a file with fewer bytes behind it than the first bytes
-- of a record, nothing is read, whatever the file holds.
pub read_values-layouts :
    (fuel : ℕ) (vs : List Value) (tail : List ℕ)
    → All (Plain fuel) vs
    → cached ≤ length tail
    → (read_sent fuel (read_values (length vs) (layouts vs ++ tail) 0) ≡ map (λ v. some v) vs)
      × ((file : List ℕ) (n off : ℕ)
          → length file < off + cached
          → read_sent fuel (read_values n file off) ≡ [])
unfolding read_values
read_values-layouts fuel vs tail h long = (recovered fuel vs [] tail h long, nothing)
  where
    nothing :
        (file : List ℕ) (n off : ℕ)
        → length file < off + cached
        → read_sent fuel (read_values n file off) ≡ []
    nothing file zero off lt = refl
    nothing file (suc n) off lt = ap (read_sent fuel) (
        sent_at-short file (take cached (drop off file)) off (λ off'. read_values n file off')
          (omega (arith, lt, length-drop off file, length-take-le cached (drop off file))))
