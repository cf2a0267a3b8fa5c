-- ===== src/Server/Walks.antt =====
-- A lookup of pkg/filesystem/directory.go ends at an object that is there.
use tinyrange.Prelude.{
  ℕ, zero, suc, ◌<◌, ◌≡◌, refl, String, false, Option, none, some, List, [], ◌∷◌, ◌++◌, length, All,
  get_elem?, str_eq, Bool-cases, Option-cases, inl, inr,
}
use tinyrange.Files.Memory.{
  FileType, regular, directory, symlink, link, get_link_name, not_directory,
}
use tinyrange.Files.Directory.{
  MemoryDirectory, Node, dir, file, get_child, Child, itself, entry, no_child, is_self, is_base,
  lookup_entry,
}
use tinyrange.Files.Paths.{
  Walk, reached, walk_error, walk_tokens, then_walk, child_walk, child_of, resolve_directory,
  resolve_node, follow, clean,
}
use tinyrange.Server.Sound.{Known, EntriesKnown, All-get}

-- where a walk ends, it ends at one of the first n objects
abbrev pub Within : ℕ → Option Walk → Type 0
Within n none = Unit
Within n (some (walk_error e)) = Unit
Within n (some (reached i)) = i < n

-- the child is one of the first n objects
abbrev pub ChildKnown : ℕ → Child → Type 0
ChildKnown n itself = Unit
ChildKnown n (entry j name) = j < n
ChildKnown n (no_child e) = Unit

pub get_child-ChildKnown :
    (n : ℕ) (name : String) (d : MemoryDirectory)
    → EntriesKnown n d.entries
    → ChildKnown n (get_child name d)
unfolding get_child
get_child-ChildKnown n name d h = elim (Bool-cases (is_self name)) [
  | inl a ↦ rw a tt
  | inr a ↦ elim (Bool-cases (is_base name)) [
    | inr b ↦ rw (a, b) tt
    | inl b ↦ elim (Option-cases (lookup_entry name d.entries)) [
      | inl c ↦ rw (a, b, c) tt
      | inr (j, c) ↦ rw (a, b, c) (h name j c)
    ]
  ]
]

child_walk-Within :
    (n i : ℕ) (c : Child) → i < n → ChildKnown n c → Within n (some (child_walk i c))
child_walk-Within n i itself lt h = lt
child_walk-Within n i (entry j name) lt h = h
child_walk-Within n i (no_child e) lt h = tt

then_walk-Within :
    (n : ℕ) (k : ℕ → Option Walk) (o : Option Walk)
    → Within n o
    → ((i : ℕ) → i < n → Within n (k i))
    → Within n (then_walk k o)
then_walk-Within n k none h f = tt
then_walk-Within n k (some (walk_error e)) h f = tt
then_walk-Within n k (some (reached i)) h f = f i h

module _ (store : List Node) (known : All (Known (length store)) store) where
  child_of-Within :
      (i : ℕ) (t : String) (o : Option Node)
      → i < length store
      → get_elem? store i ≡ o
      → Within (length store) (some (child_of i t o))
  unfolding child_of
  child_of-Within i t none lt e = tt
  child_of-Within i t (some (file f)) lt e = tt
  child_of-Within i t (some (dir d)) lt e = child_walk-Within (length store) i (get_child t d) lt (
      get_child-ChildKnown (length store) t d
        (All-get (Known (length store)) store i (dir d) known e))

  walk_tokens-Within :
      (r : ℕ → List String → Option Walk)
      → ((i : ℕ) (n : List String) → i < length store → Within (length store) (r i n))
      → (i : ℕ) (done ts : List String) → i < length store
      → Within (length store) (walk_tokens r store i done ts)
  unfolding walk_tokens
  walk_tokens-Within r h i done [] lt = lt
  walk_tokens-Within r h i done (t ∷ []) lt = elim (Bool-cases (str_eq t ".")) [
    | inl e ↦ rw e lt
    | inr e ↦ rw e (child_of-Within i t (get_elem? store i) lt refl)
  ]
  walk_tokens-Within r h i done (t ∷ u ∷ ts) lt =
      then_walk-Within (length store) _ (some (child_of i t (get_elem? store i)))
        (child_of-Within i t (get_elem? store i) lt refl)
        (λ j jt.
          then_walk-Within (length store) _ (r j (clean false (done ++ t ∷ []) [])) (h j _ jt)
            (λ k kt. walk_tokens-Within r h k (done ++ t ∷ []) (u ∷ ts) kt))

  module _ (text_of : List ℕ → String) (root : ℕ) (root_known : root < length store) where
    resolve_node-Within :
        (r : ℕ → List String → Option Walk) (o : List String → Option Walk)
        → ((i : ℕ) (n : List String) → i < length store → Within (length store) (r i n))
        → ((ts : List String) → Within (length store) (o ts))
        → (i : ℕ) (name : List String) (n : Option Node) → i < length store
        → Within (length store) (resolve_node text_of store root r o i name n)
    resolve_node-Within r o h k i name none lt = tt
    resolve_node-Within r o h k i name (some (dir d)) lt = lt
    resolve_node-Within r o h k i name (some (file f)) lt = by_kind f.kind (get_link_name f)
      where
        by_kind :
            (kind : FileType) (target : Option (List ℕ))
            → Within (length store) (elim kind [
              | symlink ↦ follow text_of store root r o name target
              | regular ↦ some (walk_error not_directory)
              | directory ↦ some (walk_error not_directory)
              | link ↦ some (walk_error not_directory)
            ])
        by_kind regular target = tt
        by_kind directory target = tt
        by_kind link target = tt
        by_kind symlink none = tt
        by_kind symlink (some target) =
            then_walk-Within (length store) _ (o _) (k _) (λ j jt. h j _ jt)

    pub resolve_directory-Within :
        (fuel i : ℕ) (name : List String)
        → i < length store
        → Within (length store) (resolve_directory text_of store root fuel i name)
    unfolding resolve_directory
    resolve_directory-Within zero i name lt = tt
    resolve_directory-Within (suc fuel) i name lt =
        resolve_node-Within _ _ (resolve_directory-Within fuel)
          (λ ts. walk_tokens-Within _ (resolve_directory-Within fuel) root [] ts root_known) i name
          (get_elem? store i) lt

    pub walk_root-Within :
        (fuel : ℕ) (ts : List String)
        → Within
            (length store)
            (walk_tokens (λ i n. resolve_directory text_of store root fuel i n) store root [] ts)
    walk_root-Within fuel ts =
        walk_tokens-Within _ (resolve_directory-Within fuel) root [] ts root_known
