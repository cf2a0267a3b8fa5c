-- ===== src/Files/Paths.antt =====
-- `OpenPath` and `resolveDirectory` of pkg/filesystem/directory.go on the store, with what they use of
-- Go's `path` and `strings`. The recursion through symbolic links is on fuel; `none` is the end of the
-- fuel.
use Prim.Native.String.{[] as empty_text, ◌∷◌ as cons_char}
use Prim.Native.Char.{Char, code}
use tinyrange.Prelude.{
  ℕ, zero, suc, String, Bool, true, false, ◌||◌, Option, none, some, List, [], ◌∷◌, ◌++◌, ◌==◌, ◌≡◌,
  refl, str_eq, if◌then◌else◌, get_elem?,
}
use tinyrange.Files.Memory.{
  regular, directory, symlink, link, FsError, not_directory, invalid, MemoryFile, get_link_name,
}
use tinyrange.Files.Directory.{Node, dir, file, get_child, Child, itself, entry, no_child}

abbrev prepend : Char → List String → List String
prepend c [] = cons_char c "" ∷ []
prepend c (t ∷ ts) = cons_char c t ∷ ts

-- `strings.Split(p, "/")`
unfoldable pub split_slash : String → List String
split_slash empty_text = "" ∷ []
split_slash (cons_char c s) =
    let rest = split_slash s in if code c == b'/' then "" ∷ rest else prepend c rest

-- `strings.TrimPrefix(p, "/")`
unfoldable pub trim_slash : String → String
trim_slash empty_text = ""
trim_slash (cons_char c s) = if code c == b'/' then s else cons_char c s

unfoldable pub is_rooted : String → Bool
is_rooted empty_text = false
is_rooted (cons_char c s) = code c == b'/'

abbrev parent : Bool → List String → List String
parent rooted [] = if rooted then [] else ".." ∷ []
parent rooted (t ∷ done) = if str_eq t ".." then ".." ∷ t ∷ done else done

abbrev reversed : List String → List String → List String
reversed [] done = done
reversed (t ∷ ts) done = reversed ts (t ∷ done)

-- the elements that `path.Clean` keeps; `done` are those so far, the last one first
unfoldable pub clean : Bool → List String → List String → List String
clean rooted [] done = reversed done []
clean rooted (t ∷ ts) done = clean rooted ts (
    if str_eq t "" || str_eq t "."
    then done
    else if str_eq t ".."
    then parent rooted done
    else t ∷ done)

-- `strings.Split` of a clean path with these elements
abbrev pub split_clean : Bool → List String → List String
split_clean true [] = "" ∷ "" ∷ []
split_clean true (t ∷ ts) = "" ∷ t ∷ ts
split_clean false [] = "." ∷ []
split_clean false (t ∷ ts) = t ∷ ts

-- `strings.Split(path.Clean(strings.TrimPrefix(p, "/")), "/")`
unfoldable pub path_tokens : String → List String
path_tokens p =
    let q = trim_slash p in
    let rooted = is_rooted q in split_clean rooted (clean rooted (split_slash q) [])

-- `path.Dir` of a clean path that is not rooted
unfoldable pub all_but_last : List String → List String
all_but_last [] = []
all_but_last (t ∷ []) = []
all_but_last (t ∷ u ∷ ts) = t ∷ all_but_last (u ∷ ts)

-- The elements of `path.Join(path.Dir(name), target)`.
unfoldable pub link_elements : List String → String → List String
link_elements name target = clean false (all_but_last name ++ split_slash target) []

pub data Walk : Type 0 where
  reached : ℕ → Walk
  walk_error : FsError → Walk

abbrev pub child_walk : ℕ → Child → Walk
child_walk i itself = reached i
child_walk i (entry j name) = reached j
child_walk i (no_child e) = walk_error e

-- `currentDir.GetChild(token)`
unfoldable pub child_of : ℕ → String → Option Node → Walk
child_of i token none = walk_error not_directory
child_of i token (some (file f)) = walk_error not_directory
child_of i token (some (dir d)) = child_walk i (get_child token d)

abbrev pub then_walk : (ℕ → Option Walk) → Option Walk → Option Walk
then_walk k none = none
then_walk k (some (walk_error e)) = some (walk_error e)
then_walk k (some (reached i)) = k i

-- The loop of `OpenPath` over the tokens, and its last step; `done` are the tokens so far.
unfoldable pub walk_tokens :
    (ℕ → List String → Option Walk) → List Node → ℕ → List String → List String → Option Walk
walk_tokens resolve store i done [] = some (reached i)
walk_tokens resolve store i done (t ∷ []) =
    if str_eq t "." then some (reached i) else some (child_of i t (get_elem? store i))
walk_tokens resolve store i done (t ∷ u ∷ ts) =
    then_walk
      (λ j.
        then_walk (λ k. walk_tokens resolve store k (done ++ t ∷ []) (u ∷ ts))
          (resolve j (clean false (done ++ t ∷ []) [])))
      (some (child_of i t (get_elem? store i)))

module _ (text_of : List ℕ → String) (store : List Node) (root : ℕ) where
  abbrev pub follow :
      (ℕ → List String → Option Walk)
      → (List String → Option Walk)
      → List String
      → Option (List ℕ)
      → Option Walk
  follow resolve walk name none = some (walk_error invalid)
  follow resolve walk name (some target) =
      then_walk (λ i. resolve i (link_elements name (text_of target)))
        (walk (split_clean false (link_elements name (text_of target))))

  abbrev pub resolve_node :
      (ℕ → List String → Option Walk)
      → (List String → Option Walk)
      → ℕ
      → List String
      → Option Node
      → Option Walk
  resolve_node resolve walk i name none = some (walk_error not_directory)
  resolve_node resolve walk i name (some (dir d)) = some (reached i)
  resolve_node resolve walk i name (some (file f)) = elim f.kind [
    | symlink ↦ follow resolve walk name (get_link_name f)
    | regular ↦ some (walk_error not_directory)
    | directory ↦ some (walk_error not_directory)
    | link ↦ some (walk_error not_directory)
  ]

  -- `resolveDirectory(root, file, name)`, with the name by its elements; `text_of` is Go's conversion
  -- of the bytes of a link to a string.
  unfoldable pub resolve_directory : ℕ → ℕ → List String → Option Walk
  resolve_directory zero i name = none
  resolve_directory (suc fuel) i name =
      let resolve = λ (j : ℕ) (n : List String). resolve_directory fuel j n in
      resolve_node resolve (λ ts. walk_tokens resolve store root [] ts) i name (get_elem? store i)

  -- `OpenPath(dir, p)`
  unfoldable pub open_path : ℕ → String → Option Walk
  open_path fuel p = walk_tokens (λ i n. resolve_directory fuel i n) store root [] (path_tokens p)

  module _ (i : ℕ) (t : String) (d : Node) (f : MemoryFile) (target : List ℕ)
      (here : get_elem? store i ≡ some (file f)) (is_symlink : f.kind ≡ symlink)
      (links : get_link_name f ≡ some target)
      (back : link_elements (t ∷ []) (text_of target) ≡ t ∷ [])
      (at_root : get_elem? store root ≡ some d) (child : child_of root t (some d) ≡ reached i)
      (plain : str_eq t "." ≡ false) where
    -- A symbolic link in the root whose target leads to the link itself is followed without end: no
    -- amount of fuel gives an answer.
    pub resolve_directory_loop : (fuel : ℕ) → resolve_directory fuel i (t ∷ []) ≡ none
    unfolding resolve_directory walk_tokens
    resolve_directory_loop zero = refl
    resolve_directory_loop (suc fuel) =
        rw (here, is_symlink, links, back, plain, at_root, child) (resolve_directory_loop fuel)
