-- ===== src/Record/Reads.antt =====
-- `ReadAt` of a record in pkg/record/record2.go gives the bytes of the file.
use mathlib.Core.Path.{subst}
use tinyrange.Prelude.{
  ℕ, ◌+◌, ◌-◌, ◌≤◌, ◌<◌, ◌≡◌, ◌∙◌, refl, sym, ap, true, false, Option, none, some, List, ◌++◌, ltb,
  length, take, drop, arith, Bool-cases, inl, inr,
}
use tinyrange.Record.Reader.{
  cached, Loaded, Outcome, got, copied, filled, read_rest_with, read_rest, read_at,
}
use tinyrange.Record.Stretches.{
  take-drop-take, take-apart, drop-drop, copied-all, copied-take, length-take, length-drop,
}

-- what the record holds: its bytes in the file
abbrev pub contents : Loaded → List ℕ
contents r = drop r.off r.file

abbrev pub Filled : Option (List ℕ) → List ℕ → Type 0
Filled none bytes = Unit
Filled (some rest) bytes = rest ≡ bytes

-- The file has all of the record, and what was read of it is what is there.
pub record IsLoaded (r : Loaded) : Type 0 where
  pub whole : r.total_len ≤ length (contents r)
  pub first : r.data_bytes ≡ take cached (contents r)
  pub behind_it : Filled r.rest (take (r.total_len - cached) (drop cached (contents r)))

-- the record after its rest was read
abbrev pub with_rest : Loaded → Loaded
with_rest r = record r { rest = some (take (r.total_len - cached) (drop cached (contents r))) }

pub not_less : (a b : ℕ) → b ≤ a → ltb a b ≡ false
not_less a b le = ground (arith, le)

pub less : (a b : ℕ) → ltb a b ≡ true → a < b
less a b h = ground (arith, h)

pub at_least : (a b : ℕ) → ltb a b ≡ false → b ≤ a
at_least a b h = ground (arith, h)

filled-all :
    (n : ℕ) (bytes : List ℕ) (r : Loaded)
    → length bytes ≡ n
    → filled n bytes r ≡ (got tt, record r { rest = some bytes })
filled-all n bytes r e = rw (not_less (length bytes) n (omega arith), sym e, copied-all bytes) refl

pub read_rest-loaded :
    (r : Loaded) → IsLoaded r → cached ≤ r.total_len → read_rest r ≡ (got tt, with_rest r)
unfolding read_rest
read_rest-loaded r h le = from r.rest refl
  where
    n : ℕ
    n = r.total_len - cached

    bytes : List ℕ
    bytes = take n (drop cached (contents r))

    from : (o : Option (List ℕ)) → r.rest ≡ o → read_rest_with o r ≡ (got tt, with_rest r)
    from (some x) e =
        ap (λ (o : Option (List ℕ)). (got tt, record r { rest = o }))
          (e
            ∙ ap (λ (l : List ℕ). some l)
                (subst (λ (o : Option (List ℕ)). Filled o bytes) e h.behind_it))
    from none e =
        let same : drop (r.off + cached) r.file ≡ drop cached (contents r) =
          ap (λ (k : ℕ). drop k r.file) (omega arith) ∙ sym (drop-drop cached r.off r.file) in
        rw (not_less r.total_len cached le, same)
          (filled-all n bytes r (
            length-take n (drop cached (contents r))
              (omega (arith, le, h.whole, length-drop cached (contents r)))))

-- The records that reading leaves: the same bytes, and their rest perhaps at hand.
pub record Same (r s : Loaded) : Type 0 where
  pub loaded : IsLoaded s
  pub contents_same : contents s ≡ contents r
  pub total_same : s.total_len ≡ r.total_len

pub with_rest-Same : (r : Loaded) → IsLoaded r → Same r (with_rest r)
with_rest-Same r h = record {
  loaded = record { whole = h.whole; first = h.first; behind_it = refl };
  contents_same = refl;
  total_same = refl;
}

rest-stretch :
    (m k : ℕ) (r : Loaded)
    → IsLoaded r
    → cached ≤ r.total_len
    → k + m ≤ r.total_len - cached
    → copied m (drop k (take (r.total_len - cached) (drop cached (contents r))))
      ≡ take m (drop k (drop cached (contents r)))
rest-stretch m k r h long le =
    let n = r.total_len - cached in
    let d = drop cached (contents r) in
    let size = length-drop k (take n d) in
    let all : length (take n d) ≡ n =
      length-take n d (omega (arith, long, h.whole, length-drop cached (contents r))) in
    copied-take m (drop k (take n d)) (omega (arith, size, all, le)) ∙ take-drop-take m k n d le

-- a read that stays before the end of the first bytes leaves the record as it was, and any other has
-- its rest
abbrev Fetched : ℕ → Loaded → Loaded → Type 0
Fetched end r s = (end < cached → s ≡ r) × (cached ≤ end → s ≡ with_rest r)

read_within :
    (len off : ℕ) (r : Loaded)
    → IsLoaded r
    → off + len ≤ r.total_len
    → (s : Loaded) × (read_at len off r ≡ (got (take len (drop off (contents r))), s))
      × Same r s
      × Fetched (off + len) r s
unfolding read_at
read_within len off r h le = elim (Bool-cases (ltb off cached)) [
  | inl near ↦ elim (Bool-cases (ltb (off + len) cached)) [
    | inl inside ↦ (
      r,
      rw (not_less r.total_len off (omega arith), near, inside)
          (ap (λ (l : List ℕ). (got l, r))
            (ap (λ (d : List ℕ). take len (drop off d)) h.first
              ∙ take-drop-take len off cached (contents r)
                  (omega (arith, less (off + len) cached inside)))),
      record { loaded = h; contents_same = refl; total_same = refl },
      (λ short. refl, λ long. absurd (omega (arith, less (off + len) cached inside))),
    )
    | inr across ↦
        let reach = at_least (off + len) cached across in
        let below = less off cached near in
        (
          with_rest r,
          rw
              (
                not_less r.total_len off (omega arith),
                near,
                across,
                read_rest-loaded r h (omega arith),
              )
              (ap (λ (l : List ℕ). (got l, with_rest r)) (across_eq reach below)),
          with_rest-Same r h,
          (λ short. absurd (omega (arith, reach)), λ long. refl),
        )
  ]
  | inr far ↦
      let past = at_least off cached far in
      (
        with_rest r,
        rw (not_less r.total_len off (omega arith), far, read_rest-loaded r h (omega arith))
            (ap (λ (l : List ℕ). (got l, with_rest r)) (far_eq past)),
        with_rest-Same r h,
        (λ short. absurd (omega (arith, past)), λ long. refl),
      )
]
  where
    across_eq :
        cached ≤ off + len
        → off < cached
        → take len (drop off r.data_bytes)
            ++ copied
                (len - (cached - off))
                (drop 0 (take (r.total_len - cached) (drop cached (contents r))))
          ≡ take len (drop off (contents r))
    across_eq reach below =
        rw (h.first, rest-stretch (len - (cached - off)) 0 r h (omega arith) (omega arith))
          (take-apart len off cached (contents r) (omega arith) (omega arith))

    far_eq :
        cached ≤ off
        → copied len (drop (off - cached) (take (r.total_len - cached) (drop cached (contents r))))
          ≡ take len (drop off (contents r))
    far_eq past =
        rest-stretch len (off - cached) r h (omega arith) (omega arith)
        ∙ ap (take len) (
            drop-drop (off - cached) cached (contents r)
            ∙ ap (λ (k : ℕ). drop k (contents r)) (omega arith))

-- Reads of the record give these bytes whatever is in the file by then.
abbrev pub AtHand : List ℕ → Loaded → Type 0
AtHand bytes s =
    (file : List ℕ) (len off : ℕ)
    → off + len ≤ s.total_len
    → (read_at len off (record s { file = file })).0 ≡ got (take len (drop off bytes))

with_rest-file :
    (r : Loaded) (file : List ℕ) (len off : ℕ)
    → (read_at len off (record (with_rest r) { file = file })).0 ≡ (read_at len off (with_rest r)).0
unfolding read_at read_rest
with_rest-file r file len off = elim (Bool-cases (ltb r.total_len off)) [
  | inl a ↦ rw a refl
  | inr a ↦ elim (Bool-cases (ltb off cached)) [
    | inr b ↦ rw (a, b) refl
    | inl b ↦ elim (Bool-cases (ltb (off + len) cached)) [
      | inl c ↦ rw (a, b, c) refl
      | inr c ↦ rw (a, b, c) refl
    ]
  ]
]

with_rest-AtHand : (r : Loaded) → IsLoaded r → AtHand (contents r) (with_rest r)
with_rest-AtHand r h file len off le =
    let (s, e, same, fetched) = read_within len off (with_rest r) (with_rest-Same r h).loaded le in
    with_rest-file r file len off ∙ ap (λ (x : Outcome (List ℕ) × Loaded). x.0) e

-- A read that stays inside a record whose bytes the file has gives the stretch of the file, and later
-- reads see the same bytes. A read that ends before the end of the first bytes, which are at hand, leaves
-- the record as it was; after any other one the rest is at hand too, and no later read needs the file.
pub read_at-contents :
    (len off : ℕ) (r : Loaded)
    → IsLoaded r
    → off + len ≤ r.total_len
    → (s : Loaded) × (read_at len off r ≡ (got (take len (drop off (contents r))), s))
      × Same r s
      × (off + len < cached → s ≡ r)
      × (cached ≤ off + len → AtHand (contents r) s)
read_at-contents len off r h le =
    let (s, e, same, (short, long)) = read_within len off r h le in
    (
      s,
      e,
      same,
      short,
      λ reach. subst (AtHand (contents r)) (sym (long reach)) (with_rest-AtHand r h),
    )
