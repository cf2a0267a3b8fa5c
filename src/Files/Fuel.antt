-- ===== src/Files/Fuel.antt =====
-- More fuel does not change what `OpenPath` answers.
use mathlib.Core.Path.{subst}
use tinyrange.Prelude.{
  ℕ, zero, suc, String, false, Option, none, some, List, [], ◌∷◌, ◌++◌, ◌≡◌, refl, get_elem?, arith,
  ◌+◌, ◌∙◌, ap,
}
use tinyrange.Files.Memory.{
  FileType, regular, directory, symlink, link, get_link_name, not_directory,
}
use tinyrange.Files.Directory.{Node, dir, file}
use tinyrange.Files.Paths.{
  Walk, reached, walk_error, walk_tokens, then_walk, child_of, resolve_directory, resolve_node,
  follow, open_path, path_tokens, clean,
}

-- The second answers what the first answers.
abbrev More : Option Walk → Option Walk → Type 0
More o o' = (w : Walk) → o ≡ some w → o' ≡ some w

then_walk-More :
    (k k' : ℕ → Option Walk) (o o' : Option Walk)
    → More o o'
    → ((i : ℕ) → More (k i) (k' i))
    → More (then_walk k o) (then_walk k' o')
then_walk-More k k' none o' h l w e = absurd (ground arith)
then_walk-More k k' (some (walk_error x)) o' h l w e = ap (then_walk k') (h (walk_error x) refl) ∙ e
then_walk-More k k' (some (reached i)) o' h l w e = ap (then_walk k') (h (reached i) refl) ∙ l i w e

walk_tokens-More :
    (r r' : ℕ → List String → Option Walk) (store : List Node)
    → ((i : ℕ) (n : List String) → More (r i n) (r' i n))
    → (i : ℕ) (done ts : List String)
    → More (walk_tokens r store i done ts) (walk_tokens r' store i done ts)
unfolding walk_tokens
walk_tokens-More r r' store h i done [] = λ w e. e
walk_tokens-More r r' store h i done (t ∷ []) = λ w e. e
walk_tokens-More r r' store h i done (t ∷ u ∷ ts) =
    then_walk-More _ _ (some (child_of i t (get_elem? store i))) _ (λ w e. e)
      (λ j.
        then_walk-More _ _ (r j (clean false (done ++ t ∷ []) [])) _ (h j _)
          (λ k. walk_tokens-More r r' store h k (done ++ t ∷ []) (u ∷ ts)))

module _ (text_of : List ℕ → String) (store : List Node) (root : ℕ) where
  resolve_node-More :
      (r r' : ℕ → List String → Option Walk) (o o' : List String → Option Walk)
      → ((i : ℕ) (n : List String) → More (r i n) (r' i n))
      → ((ts : List String) → More (o ts) (o' ts))
      → (i : ℕ) (name : List String) (n : Option Node)
      → More
          (resolve_node text_of store root r o i name n)
          (resolve_node text_of store root r' o' i name n)
  resolve_node-More r r' o o' h k i name none = λ w e. e
  resolve_node-More r r' o o' h k i name (some (dir d)) = λ w e. e
  resolve_node-More r r' o o' h k i name (some (file f)) = by_kind f.kind (get_link_name f)
    where
      by_kind :
          (kind : FileType) (target : Option (List ℕ))
          → More
              (elim kind [
                | symlink ↦ follow text_of store root r o name target
                | regular ↦ some (walk_error not_directory)
                | directory ↦ some (walk_error not_directory)
                | link ↦ some (walk_error not_directory)
              ])
              (elim kind [
                | symlink ↦ follow text_of store root r' o' name target
                | regular ↦ some (walk_error not_directory)
                | directory ↦ some (walk_error not_directory)
                | link ↦ some (walk_error not_directory)
              ])
      by_kind regular target = λ w e. e
      by_kind directory target = λ w e. e
      by_kind link target = λ w e. e
      by_kind symlink none = λ w e. e
      by_kind symlink (some target) = then_walk-More _ _ _ _ (k _) (λ j. h j _)

  resolve_directory-More :
      (fuel : ℕ) (i : ℕ) (name : List String)
      → More
          (resolve_directory text_of store root fuel i name)
          (resolve_directory text_of store root (suc fuel) i name)
  unfolding resolve_directory
  resolve_directory-More zero i name = λ w e. absurd (ground arith)
  resolve_directory-More (suc fuel) i name =
      resolve_node-More _ _ _ _ (resolve_directory-More fuel)
        (walk_tokens-More _ _ store (resolve_directory-More fuel) root []) i name
        (get_elem? store i)

  at_fuel :
      {n m : ℕ} (p : String) (w : Walk)
      → n ≡ m
      → open_path text_of store root n p ≡ some w
      → open_path text_of store root m p ≡ some w
  at_fuel p w same h = subst (λ (n : ℕ). open_path text_of store root n p ≡ some w) same h

  -- What `OpenPath` answers with some fuel, it answers with any more fuel.
  pub open_path_more :
      (fuel more : ℕ) (p : String) (w : Walk)
      → open_path text_of store root fuel p ≡ some w
      → open_path text_of store root (more + fuel) p ≡ some w
  unfolding open_path
  open_path_more fuel zero p w e = at_fuel p w (omega arith) e
  open_path_more fuel (suc more) p w e =
      at_fuel p w (omega arith) (longer (open_path_more fuel more p w e))
    where
      longer :
          open_path text_of store root (more + fuel) p ≡ some w
          → open_path text_of store root (suc (more + fuel)) p ≡ some w
      longer =
          walk_tokens-More _ _ store (resolve_directory-More (more + fuel)) root [] (path_tokens p)
            w
