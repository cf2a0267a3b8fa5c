-- ===== src/Record/RoundTrip.antt =====
-- What `Emit` of pkg/record/record2.go writes is what the reader finds.
use mathlib.Core.Path.{subst}
use tinyrange.Prelude.{
  ℕ, zero, suc, ◌+◌, ◌≤◌, ◌<◌, ◌≡◌, ◌∙◌, refl, ap, true, false, Option, some, ◌++◌, length, arith,
  ◌==◌,
}
use tinyrange.Wire.Numbers.{bytes_le, length-bytes_le}
use tinyrange.Record.Values.{
  Value, bool, int, float, string, dict, list, none_value, other, Values, no_values, value,
  value_count,
}
use tinyrange.Record.Writer.{record_list}
use tinyrange.Record.Layout.{layout, layout_values}
use tinyrange.Record.Blocks.{both}
use tinyrange.Record.Reader.{
  Loaded, got, ListIterator, iterate, next_value, no_next, next, give_next, with_header,
}
use tinyrange.Record.ReadBack.{
  as_list, and_values, then_values, after_next, expand, collect, is_plain, are_plain, weight,
  weights,
}
use tinyrange.Record.Reads.{IsLoaded, Same}
use tinyrange.Record.Heads.{At, At-Same, Same-Same, At-front, At-back, Gives}
use tinyrange.Record.Views.{view_of, Short, At-body, to_value-layout, read_head}

-- `Next` at a value of the list
next-layout :
    (v : Value) (it : ListIterator) (r : Loaded)
    → is_plain v ≡ true
    → Short r
    → IsLoaded r
    → At r it.at (layout v)
    → it.index < it.count
    → Gives r (next it r) (
        next_value
          (view_of it.at v)
          (record it { at = it.at + length (layout v); index = it.index + 1 }))
unfolding next
next-layout v it r p short h a lt =
    let (s, e, k) = read_head v it.at r p short h a in
    let (t, f, l) =
      to_value-layout v it.at s p (omega (arith, short, k.total_same)) k.loaded
        (At-Same r s it.at (layout v) k a) in
    let going : (it.index == it.count) ≡ false = ground (arith, lt) in
    (
      t,
      rw going (ap (with_header it) e ∙ ap (give_next it (length (layout v))) f),
      Same-Same r s t k l,
    )

next-end : (it : ListIterator) (r : Loaded) → it.index ≡ it.count → next it r ≡ (got no_next, r)
unfolding next
next-end it r e = let over : (it.index == it.count) ≡ true = ground (arith, e) in rw over refl

abbrev pub Shows : {A : Type 0} → Loaded → Option A × Loaded → A → Type 0
Shows r w a = (s : Loaded) × (w ≡ (some a, s)) × Same r s

mutual
  unfolding expand layout is_plain weight value_count iterate

  pub expand-layout :
      (v : Value) (fuel off : ℕ) (r : Loaded)
      → is_plain v ≡ true
      → Short r
      → IsLoaded r
      → At r off (layout v)
      → weight v ≤ fuel
      → Shows r (expand fuel (view_of off v) r) v
  expand-layout (bool b) fuel off r p short h a enough = absurd (ground (arith, p))
  expand-layout (int u f) fuel off r p short h a enough = absurd (ground (arith, p))
  expand-layout (float f) fuel off r p short h a enough = absurd (ground (arith, p))
  expand-layout (string bytes) zero off r p short h a enough = absurd (omega arith)
  expand-layout (string bytes) (suc fuel) off r p short h a enough =
      (r, refl, record { loaded = h; contents_same = refl; total_same = refl })
  expand-layout (dict items) fuel off r p short h a enough = absurd (ground (arith, p))
  expand-layout (list vs) zero off r p short h a enough = absurd (omega arith)
  expand-layout (list vs) (suc fuel) off r p short h a enough =
      let count = bytes_le 4 (value_count vs) in
      let four = length-bytes_le 4 (value_count vs) in
      let (s, e, k) =
        collect-layout vs fuel (iterate off (value_count vs)) r p short h
          (subst (λ (n : ℕ). At r (off + 5 + n) (layout_values vs)) four
            (At-back r (off + 5) count (layout_values vs)
              (At-body r off record_list (count ++ layout_values vs) a)))
          (omega arith) (omega arith) in
      (s, ap as_list e, k)
  expand-layout none_value zero off r p short h a enough = absurd (omega arith)
  expand-layout none_value (suc fuel) off r p short h a enough =
      (r, refl, record { loaded = h; contents_same = refl; total_same = refl })
  expand-layout other fuel off r p short h a enough = absurd (ground (arith, p))

  collect-layout :
      (vs : Values) (fuel : ℕ) (it : ListIterator) (r : Loaded)
      → are_plain vs ≡ true
      → Short r
      → IsLoaded r
      → At r it.at (layout_values vs)
      → it.index + value_count vs ≡ it.count
      → weights vs ≤ fuel
      → Shows r (collect fuel it r) vs
  collect-layout no_values zero it r p short h a e enough = absurd (omega arith)
  collect-layout no_values (suc fuel) it r p short h a e enough = (
    r,
    ap (after_next (λ v s. expand fuel v s) (λ it' s. collect fuel it' s))
        (next-end it r (omega arith)),
    record { loaded = h; contents_same = refl; total_same = refl },
  )
  collect-layout (value v rest) zero it r p short h a e enough = absurd (omega arith)
  collect-layout (value v rest) (suc fuel) it r p short h a e enough =
      let (q, q') = both (is_plain v) (are_plain rest) p in
      let front = At-front r it.at (layout v) (layout_values rest) a in
      let back = At-back r it.at (layout v) (layout_values rest) a in
      let it' = record it { at = it.at + length (layout v); index = it.index + 1 } in
      let (s, f, k) = next-layout v it r q short h front (omega arith) in
      let (t, g, l) =
        expand-layout v fuel it.at s q (omega (arith, short, k.total_same)) k.loaded
          (At-Same r s it.at (layout v) k front) (omega arith) in
      let m = Same-Same r s t k l in
      let (u, i, n) =
        collect-layout rest fuel it' t q' (omega (arith, short, m.total_same)) l.loaded
          (At-Same r t it'.at (layout_values rest) m back) (omega arith) (omega arith) in
      (
        u,
        ap (after_next (λ x y. expand fuel x y) (λ x y. collect fuel x y)) f
            ∙ ap (λ (w : Option Value × Loaded). then_values w (collect fuel it')) g
            ∙ ap (and_values v) i,
        Same-Same r t u m n,
      )
