-- ===== src/Record/Heads.antt =====
-- Blocks that stand in a record, and reading their heads (pkg/record/record2.go).

use tinyrange.Prelude.{
  ℕ, ◌+◌, ◌^◌, ◌≤◌, ◌<◌, ◌≡◌, ◌∙◌, refl, sym, ap, List, [], ◌∷◌, ◌++◌, length, take, drop, arith,
  take-append, drop-append, length-append,
}
use tinyrange.Wire.Numbers.{bytes_le, value_le, length-bytes_le, value_le-bytes_le}
use tinyrange.Record.Layout.{header, block, length-header, length-block}
use tinyrange.Record.Reader.{Loaded, got, Reading, then_read, read_at, read_u32, read_record}
use tinyrange.Record.Reads.{IsLoaded, Same, contents, read_at-contents}
use tinyrange.Record.Stretches.{take-drop-take, drop-drop}

-- the bytes stand at this place of the record
pub record At (r : Loaded) (off : ℕ) (bytes : List ℕ) : Type 0 where
  pub inside : off + length bytes ≤ r.total_len
  pub stands : take (length bytes) (drop off (contents r)) ≡ bytes

pub At-Same : (r s : Loaded) (off : ℕ) (bytes : List ℕ) → Same r s → At r off bytes → At s off bytes
At-Same r s off bytes k a = record {
  inside = omega (arith, a.inside, k.total_same);
  stands = ap (λ (c : List ℕ). take (length bytes) (drop off c)) k.contents_same ∙ a.stands;
}

pub Same-Same : (r s t : Loaded) → Same r s → Same s t → Same r t
Same-Same r s t k l = record {
  loaded = l.loaded;
  contents_same = l.contents_same ∙ k.contents_same;
  total_same = l.total_same ∙ k.total_same;
}

pub At-front : (r : Loaded) (off : ℕ) (a b : List ℕ) → At r off (a ++ b) → At r off a
At-front r off a b h =
    let size = length-append a b in
    record {
      inside = omega (arith, h.inside);
      stands =
          sym (take-drop-take (length a) 0 (length (a ++ b)) (drop off (contents r)) (omega arith))
          ∙ ap (take (length a)) h.stands
          ∙ take-append a b;
    }

take-all : (xs : List ℕ) → take (length xs) xs ≡ xs
take-all [] = refl
take-all (x ∷ xs) = ap (λ (l : List ℕ). x ∷ l) (take-all xs)

pub At-back : (r : Loaded) (off : ℕ) (a b : List ℕ) → At r off (a ++ b) → At r (off + length a) b
At-back r off a b h =
    let size = length-append a b in
    record {
      inside = omega (arith, h.inside);
      stands =
          ap (λ (k : ℕ). take (length b) (drop k (contents r))) (omega arith)
          ∙ ap (take (length b)) (sym (drop-drop (length a) off (contents r)))
          ∙ sym (
              take-drop-take (length b) (length a) (length (a ++ b)) (drop off (contents r))
                (omega arith))
          ∙ ap (λ (l : List ℕ). take (length b) (drop (length a) l)) h.stands
          ∙ ap (take (length b)) (drop-append a b)
          ∙ take-all b;
    }

-- a read that gives this, and leaves the record the same
abbrev pub Gives : {A : Type 0} → Loaded → Reading A → A → Type 0
Gives r w a = (s : Loaded) × (w ≡ (got a, s)) × Same r s

pub read_at-At :
    (n off : ℕ) (bytes : List ℕ) (r : Loaded)
    → IsLoaded r
    → At r off bytes
    → n ≡ length bytes
    → Gives r (read_at n off r) bytes
read_at-At n off bytes r h a e =
    let (s, f, k, short, long) = read_at-contents (length bytes) off r h a.inside in
    (s, ap (λ (m : ℕ). read_at m off r) e ∙ f ∙ ap (λ (l : List ℕ). (got l, s)) a.stands, k)

pub then_read-Gives :
    {A B : Type 0} (r : Loaded) (w : Reading A) (k : A → Loaded → Reading B) (a : A) (b : B)
    → Gives r w a
    → ((s : Loaded) → Same r s → Gives s (k a s) b)
    → Gives r (then_read w k) b
then_read-Gives r w k a b (s, e, same) f =
    let (t, g, same') = f s same in
    (t, ap (λ (x : Reading _). then_read x k) e ∙ g, Same-Same r s t same same')

pub read_u32-At :
    (off v : ℕ) (r : Loaded)
    → IsLoaded r
    → At r off (bytes_le 4 v)
    → v < 256 ^ 4
    → Gives r (read_u32 off r) v
unfolding read_u32
read_u32-At off v r h a lt =
    then_read-Gives r _ _ (bytes_le 4 v) v
      (read_at-At 4 off (bytes_le 4 v) r h a (sym (length-bytes_le 4 v)))
      (λ s k. (
        s,
        ap (λ (n : ℕ). (got n, s)) (value_le-bytes_le 4 v lt),
        record { loaded = k.loaded; contents_same = refl; total_same = refl },
      ))

header-value :
    (kind len : ℕ)
    → 5 + len < 256 ^ 4
    → (value_le (drop 4 (header kind len)) ≡ kind) × (value_le (take 4 (header kind len)) ≡ 5 + len)
unfolding bytes_le value_le
header-value kind len lt = (omega arith, value_le-bytes_le 4 (5 + len) lt)

-- the kind and the length of a block
pub read_record-At :
    (off kind : ℕ) (body : List ℕ) (r : Loaded)
    → IsLoaded r
    → At r off (block kind body)
    → length (block kind body) < 256 ^ 4
    → Gives r (read_record off r) (kind, length (block kind body))
unfolding read_record
read_record-At off kind body r h a lt =
    let size = length-block kind body in
    let (e, f) = header-value kind (length body) (omega arith) in
    then_read-Gives r _ _ (header kind (length body)) _
      (read_at-At 5 off (header kind (length body)) r h
        (At-front r off (header kind (length body)) body a)
        (sym (length-header kind (length body))))
      (λ s k. (
        s,
        ap (λ (n : ℕ). (got (n, value_le (take 4 (header kind (length body)))), s)) e
            ∙ ap (λ (n : ℕ). (got (kind, n), s)) (f ∙ sym size),
        record { loaded = k.loaded; contents_same = refl; total_same = refl },
      ))
