-- ===== src/Record/Compares.antt =====
-- `compare` of pkg/record/record2.go finds bytes that are there.
use mathlib.Core.Path.{subst}
use tinyrange.Prelude.{
  ℕ, zero, suc, ◌+◌, ◌-◌, ◌≤◌, ◌<◌, ◌≡◌, ◌∙◌, refl, sym, ap, Bool, true, List, [], ◌∷◌, ◌++◌, ltb,
  length, take, drop, arith, Bool-cases, inl, inr, ◌==◌,
}
use tinyrange.Record.Reader.{cached, Loaded, got, read_rest}
use tinyrange.Record.Dict.{bytes_equal, compare, compare_rest, compare_left}
use tinyrange.Record.Reads.{
  IsLoaded, contents, with_rest, with_rest-Same, read_rest-loaded, not_less, less, at_least,
}
use tinyrange.Record.Stretches.{take-drop-take, length-take, length-drop, drop-drop}
use tinyrange.Record.Heads.{At, At-back, At-front, Gives}

bytes_equal_refl : (xs : List ℕ) → bytes_equal xs xs ≡ true
unfolding bytes_equal
bytes_equal_refl [] = refl
bytes_equal_refl (x ∷ xs) =
    let same : (x == x) ≡ true = ground arith in rw (same, bytes_equal_refl xs) refl

equal-stands : (p q : List ℕ) → q ≡ p → bytes_equal p q ≡ true
equal-stands p q e = ap (bytes_equal p) e ∙ bytes_equal_refl p

-- the bytes stand in the rest
compare_rest-At :
    (p : List ℕ) (off k : ℕ) (r : Loaded)
    → IsLoaded r
    → At r off p
    → off ≡ cached + k
    → cached ≤ r.total_len
    → compare_rest p k (read_rest r) ≡ (got true, with_rest r)
compare_rest-At p off k r h a e long =
    let n = r.total_len - cached in
    let d = drop cached (contents r) in
    let all : length (take n d) ≡ n =
      length-take n d (omega (arith, long, h.whole, length-drop cached (contents r))) in
    rw
      (
        read_rest-loaded r h long,
        not_less (length (take n d)) (k + length p) (omega (arith, a.inside)),
      )
      (ap (λ (b : Bool). (got b, with_rest r))
        (equal-stands p (take (length p) (drop k (take n d))) (
          take-drop-take (length p) k n d (omega (arith, a.inside, e))
          ∙ ap (take (length p)) (
              drop-drop k cached (contents r)
              ∙ ap (λ (m : ℕ). drop m (contents r)) (omega (arith, e)))
          ∙ a.stands)))

take-drop-all : (n : ℕ) (xs : List ℕ) → take n xs ++ drop n xs ≡ xs
take-drop-all zero xs = refl
take-drop-all (suc n) [] = refl
take-drop-all (suc n) (x ∷ xs) = ap (λ (l : List ℕ). x ∷ l) (take-drop-all n xs)

length-take_bound : (n : ℕ) (xs : List ℕ) → length (take n xs) ≤ n
length-take_bound zero xs = omega arith
length-take_bound (suc n) [] = omega arith
length-take_bound (suc n) (x ∷ xs) = omega (arith, length-take_bound n xs)

module _ (p : List ℕ) (off : ℕ) (r : Loaded) (h : IsLoaded r) (a : At r off p) where
  in_parts : At r off (take (cached - off) p ++ drop (cached - off) p)
  in_parts = subst (At r off) (sym (take-drop-all (cached - off) p)) a

  front_equal :
      off < cached
      → bytes_equal
          (take (cached - off) p)
          (take (length (take (cached - off) p)) (drop off r.data_bytes))
        ≡ true
  front_equal lt =
      let front = take (cached - off) p in
      equal-stands front (take (length front) (drop off r.data_bytes)) (
        ap (λ (d : List ℕ). take (length front) (drop off d)) h.first
        ∙ take-drop-take (length front) off cached (contents r)
            (omega (arith, lt, length-take_bound (cached - off) p))
        ∙ (At-front r off front (drop (cached - off) p) in_parts).stands)

  compare_left-At :
      (l : List ℕ) → off < cached → drop (cached - off) p ≡ l → Gives r (compare_left l r) true
  compare_left-At [] lt e =
      (r, refl, record { loaded = h; contents_same = refl; total_same = refl })
  compare_left-At (b ∷ l) lt e =
      let more : length p - (cached - off) ≡ suc (length l) =
        sym (length-drop (cached - off) p) ∙ ap length e in
      let size = length-take (cached - off) p (omega (arith, more)) in
      let back : At r (off + length (take (cached - off) p)) (b ∷ l) =
        subst (At r (off + length (take (cached - off) p))) e
          (At-back r off (take (cached - off) p) (drop (cached - off) p) in_parts) in
      (
        with_rest r,
        compare_rest-At (b ∷ l) _ 0 r h back (omega (arith, lt, size))
            (omega (arith, back.inside, lt, size)),
        with_rest-Same r h,
      )

  -- comparing with bytes that stand there
  pub compare-At : Gives r (compare p off r) true
  unfolding compare
  compare-At = elim (Bool-cases (ltb off cached)) [
    | inl near ↦
        let lt = less off cached near in
        let (s, e, k) = compare_left-At (drop (cached - off) p) lt refl in
        (s, rw (not_less r.total_len off (omega (arith, a.inside)), near, front_equal lt) e, k)
    | inr far ↦
        let past = at_least off cached far in
        (
          with_rest r,
          rw (not_less r.total_len off (omega (arith, a.inside)), far)
              (compare_rest-At p off (off - cached) r h a (omega (arith, past))
                (omega (arith, past, a.inside))),
          with_rest-Same r h,
        )
  ]
