-- ===== src/Record/Buffer.antt =====
-- `recordBuf` of pkg/record/record2.go: a buffer of a fixed length, into which bytes are copied.
use tinyrange.Prelude.{
  ℕ, zero, suc, ◌+◌, ◌≤◌, ◌≡◌, ◌∙◌, refl, sym, ap, List, [], ◌∷◌, ◌++◌, arith, length, take,
}

-- `copy(buf[off:], bytes)`
unfoldable pub put : ℕ → List ℕ → List ℕ → List ℕ
put off bytes [] = []
put zero [] (x ∷ buf) = x ∷ buf
put zero (b ∷ bytes) (x ∷ buf) = b ∷ put zero bytes buf
put (suc off) bytes (x ∷ buf) = x ∷ put off bytes buf

pub length-put : (off : ℕ) (bytes buf : List ℕ) → length (put off bytes buf) ≡ length buf
unfolding put
length-put off bytes [] = refl
length-put zero [] (x ∷ buf) = refl
length-put zero (b ∷ bytes) (x ∷ buf) = ap suc (length-put zero bytes buf)
length-put (suc off) bytes (x ∷ buf) = ap suc (length-put off bytes buf)

pub put-nil : (off : ℕ) (buf : List ℕ) → put off [] buf ≡ buf
unfolding put
put-nil off [] = refl
put-nil zero (x ∷ buf) = refl
put-nil (suc off) (x ∷ buf) = ap (λ (l : List ℕ). x ∷ l) (put-nil off buf)

-- bytes behind bytes
put-behind : (a b buf : List ℕ) → put (length a) b (put zero a buf) ≡ put zero (a ++ b) buf
unfolding put
put-behind [] b [] = refl
put-behind [] b (x ∷ buf) = refl
put-behind (y ∷ a) b [] = refl
put-behind (y ∷ a) b (x ∷ buf) = ap (λ (l : List ℕ). y ∷ l) (put-behind a b buf)

pub put-append :
    (off : ℕ) (a b buf : List ℕ) → put (off + length a) b (put off a buf) ≡ put off (a ++ b) buf
unfolding put
put-append off a b [] = refl
put-append zero a b (x ∷ buf) =
    let same : 0 + length a ≡ length a = omega arith in
    ap (λ (k : ℕ). put k b (put 0 a (x ∷ buf))) same ∙ put-behind a b (x ∷ buf)
put-append (suc off) a b (x ∷ buf) =
    let same : suc off + length a ≡ suc (off + length a) = omega arith in
    ap (λ (k : ℕ). put k b (put (suc off) a (x ∷ buf))) same
    ∙ ap (λ (l : List ℕ). x ∷ l) (put-append off a b buf)

pub put-next :
    (i j : ℕ) (a b buf : List ℕ) → i + length a ≡ j → put j b (put i a buf) ≡ put i (a ++ b) buf
put-next i j a b buf e = ap (λ (k : ℕ). put k b (put i a buf)) (sym e) ∙ put-append i a b buf

-- bytes that stand apart, in either order
pub put-put :
    (i j : ℕ) (a b buf : List ℕ) → i + length a ≤ j → put i a (put j b buf) ≡ put j b (put i a buf)
unfolding put
put-put i j a b [] le = refl
put-put zero zero [] b (x ∷ buf) le =
    put-nil 0 (put 0 b (x ∷ buf)) ∙ ap (put 0 b) (sym (put-nil 0 (x ∷ buf)))
put-put zero zero (y ∷ a) b (x ∷ buf) le = absurd (omega arith)
put-put zero (suc j) [] b (x ∷ buf) le = refl
put-put zero (suc j) (y ∷ a) b (x ∷ buf) le =
    ap (λ (l : List ℕ). y ∷ l) (put-put zero j a b buf (omega arith))
put-put (suc i) zero a b (x ∷ buf) le = absurd (omega arith)
put-put (suc i) (suc j) a b (x ∷ buf) le =
    ap (λ (l : List ℕ). x ∷ l) (put-put i j a b buf (omega arith))

-- bytes in front of bytes
pub put-before :
    (i j : ℕ) (a b buf : List ℕ) → i + length a ≡ j → put i a (put j b buf) ≡ put i (a ++ b) buf
put-before i j a b buf e = put-put i j a b buf (omega arith) ∙ put-next i j a b buf e

pub take-put :
    (bytes buf : List ℕ)
    → length bytes ≤ length buf
    → take (length bytes) (put zero bytes buf) ≡ bytes
unfolding put
take-put [] [] le = refl
take-put [] (x ∷ buf) le = refl
take-put (b ∷ bytes) [] le = absurd (omega arith)
take-put (b ∷ bytes) (x ∷ buf) le = ap (λ (l : List ℕ). b ∷ l) (take-put bytes buf (omega arith))

-- two tables that grow apart: what stood at i and at j, and what comes behind each
pub put-grown :
    (i i' j j' : ℕ) (a a' b b' buf : List ℕ)
    → i + length a ≡ i'
    → j + length b ≡ j'
    → i' ≤ j
    → put i' a' (put j' b' (put j b (put i a buf))) ≡ put i (a ++ a') (put j (b ++ b') buf)
put-grown i i' j j' a a' b b' buf e f le =
    ap (put i' a')
      (put-next j j' b b' (put i a buf) f ∙ sym (put-put i j a (b ++ b') buf (omega arith)))
    ∙ put-next i i' a a' (put j (b ++ b') buf) e
