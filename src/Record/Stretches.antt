-- ===== src/Record/Stretches.antt =====
-- Stretches of lists, which reads of a record give.

use tinyrange.Prelude.{
  ℕ, zero, suc, ◌+◌, ◌-◌, ◌≤◌, ◌≡◌, ◌∙◌, refl, sym, ap, List, [], ◌∷◌, ◌++◌, length, take, drop,
  arith,
}
use tinyrange.Record.Reader.{copied}

pub take-nil : {A : Type 0} (n : ℕ) → take {A = A} n [] ≡ []
take-nil zero = refl
take-nil (suc n) = refl

pub drop-nil : {A : Type 0} (n : ℕ) → drop {A = A} n [] ≡ []
drop-nil zero = refl
drop-nil (suc n) = refl

pub take-drop-take :
    {A : Type 0} (len off n : ℕ) (xs : List A)
    → off + len ≤ n
    → take len (drop off (take n xs)) ≡ take len (drop off xs)
take-drop-take len off n [] le = ap (λ (l : List _). take len (drop off l)) (take-nil n)
take-drop-take zero zero n (x ∷ xs) le = refl
take-drop-take (suc len) zero zero (x ∷ xs) le = absurd (omega arith)
take-drop-take (suc len) zero (suc n) (x ∷ xs) le =
    ap (λ (l : List _). x ∷ l) (take-drop-take len zero n xs (omega arith))
take-drop-take len (suc off) zero (x ∷ xs) le = absurd (omega arith)
take-drop-take len (suc off) (suc n) (x ∷ xs) le = take-drop-take len off n xs (omega arith)

pub take-split :
    {A : Type 0} (len c : ℕ) (xs : List A)
    → c ≤ len
    → take len (take c xs) ++ take (len - c) (drop c xs) ≡ take len xs
take-split zero zero xs le = refl
take-split (suc len) zero xs le =
    let same : suc len - 0 ≡ suc len = omega arith in ap (λ (n : ℕ). take n xs) same
take-split zero (suc c) xs le = absurd (omega arith)
take-split (suc len) (suc c) [] le = take-nil (suc len - suc c)
take-split (suc len) (suc c) (x ∷ xs) le =
    ap (λ (n : ℕ). x ∷ take len (take c xs) ++ take n (drop c xs)) (omega arith)
    ∙ ap (λ (l : List _). x ∷ l) (take-split len c xs (omega arith))

-- a stretch that passes the end of what is at hand
pub take-apart :
    {A : Type 0} (len off c : ℕ) (xs : List A)
    → off ≤ c
    → c ≤ off + len
    → take len (drop off (take c xs)) ++ take (len - (c - off)) (drop c xs) ≡ take len (drop off xs)
take-apart len zero c xs lo hi =
    ap (λ (n : ℕ). take len (take c xs) ++ take (len - n) (drop c xs)) (omega arith)
    ∙ take-split len c xs (omega arith)
take-apart len (suc off) zero xs lo hi = absurd (omega arith)
take-apart len (suc off) (suc c) [] lo hi = rw (take-nil len) (take-nil (len - (suc c - suc off)))
take-apart len (suc off) (suc c) (x ∷ xs) lo hi =
    ap (λ (n : ℕ). take len (drop off (take c xs)) ++ take (len - n) (drop c xs)) (omega arith)
    ∙ take-apart len off c xs (omega arith) (omega arith)

pub drop-drop : {A : Type 0} (a b : ℕ) (xs : List A) → drop a (drop b xs) ≡ drop (a + b) xs
drop-drop a zero xs = ap (λ (n : ℕ). drop n xs) (omega arith)
drop-drop a (suc b) [] = drop-nil a ∙ sym (drop-nil (a + suc b))
drop-drop a (suc b) (x ∷ xs) =
    let same : a + suc b ≡ suc (a + b) = omega arith in
    drop-drop a b xs ∙ ap (λ (n : ℕ). drop n (x ∷ xs)) (sym same)

pub copied-all : (bytes : List ℕ) → copied (length bytes) bytes ≡ bytes
unfolding copied
copied-all [] = refl
copied-all (b ∷ bytes) = ap (λ (l : List ℕ). b ∷ l) (copied-all bytes)

pub copied-take : (n : ℕ) (bytes : List ℕ) → n ≤ length bytes → copied n bytes ≡ take n bytes
unfolding copied
copied-take zero bytes le = refl
copied-take (suc n) [] le = absurd (omega arith)
copied-take (suc n) (b ∷ bytes) le = ap (λ (l : List ℕ). b ∷ l) (copied-take n bytes (omega arith))

pub length-take : {A : Type 0} (n : ℕ) (xs : List A) → n ≤ length xs → length (take n xs) ≡ n
length-take zero xs le = refl
length-take (suc n) [] le = absurd (omega arith)
length-take (suc n) (x ∷ xs) le = ap suc (length-take n xs (omega arith))

pub length-drop : {A : Type 0} (n : ℕ) (xs : List A) → length (drop n xs) ≡ length xs - n
length-drop zero xs = omega arith
length-drop (suc n) [] = omega arith
length-drop (suc n) (x ∷ xs) = omega (arith, length-drop n xs)
