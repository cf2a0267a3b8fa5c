-- ===== src/Files/Size.antt =====
-- `GetTotalSize` of pkg/filesystem/directory.go on the store: the size of a tree of directories. The
-- recursion into directories is on fuel; `none` is the end of the fuel.
use tinyrange.Prelude.{
  ℕ, zero, suc, ◌+◌, ◌%◌, ◌^◌, ◌≤◌, ◌<◌, String, ◌≡◌, refl, Option, none, some, List, [], ◌∷◌,
  arith, length, get_elem?, Option-cases, inl, inr,
}
use tinyrange.Files.Memory.{file_size, FileType, regular, directory, symlink, link}
use tinyrange.Files.Directory.{MemoryDirectory, Node, dir, file, lookup_entry, list_names, readdir}

-- `nil_file` is the panic of `Stat` on a nil file; `no_directory` is the error about a child of the
-- kind of a directory that is none.
pub data Total : Type 0 where
  total : ℕ → Total
  no_directory nil_file : Total

-- the `switch` on a child that is no directory: the new total
unfoldable pub add_file : FileType → ℕ → ℕ → Option ℕ
add_file regular size t = some ((t + size) % 2 ^ 64)
add_file directory size t = none
add_file symlink size t = some t
add_file link size t = some t

abbrev pub with_child : (ℕ → Option Total) → ℕ → Option Total → Option Total
with_child loop t none = none
with_child loop t (some no_directory) = some no_directory
with_child loop t (some nil_file) = some nil_file
with_child loop t (some (total n)) = loop ((t + n) % 2 ^ 64)

abbrev pub with_file : (ℕ → Option Total) → Option ℕ → Option Total
with_file loop none = some no_directory
with_file loop (some t) = loop t

abbrev pub with_node : (ℕ → Option Total) → (ℕ → Option Total) → ℕ → ℕ → Option Node → Option Total
with_node rec loop t i none = some nil_file
with_node rec loop t i (some (file f)) = with_file loop (add_file f.kind (file_size f) t)
with_node rec loop t i (some (dir d)) = with_child loop t (rec i)

-- the loop over the children
unfoldable pub sum_children :
    (ℕ → Option Total) → List Node → List (String × Option ℕ) → ℕ → Option Total
sum_children rec store [] t = some (total t)
sum_children rec store ((name, none) ∷ children) t = some nil_file
sum_children rec store ((name, some i) ∷ children) t =
    with_node rec (λ t'. sum_children rec store children t') t i (get_elem? store i)

abbrev pub at_directory : (ℕ → Option Total) → List Node → Option Node → Option Total
at_directory rec store none = some nil_file
at_directory rec store (some (file f)) = some no_directory
at_directory rec store (some (dir d)) = sum_children rec store (readdir d) 0

-- `GetTotalSize` of the directory at this position
unfoldable pub get_total_size : ℕ → List Node → ℕ → Option Total
get_total_size zero store i = none
get_total_size (suc fuel) store i =
    at_directory (λ j. get_total_size fuel store j) store (get_elem? store i)

-- Every entry of a directory stands behind it in the store, as one does that is made after it.
abbrev pub Forward : List Node → Type 0
Forward store =
    (i j : ℕ) (d : MemoryDirectory) (name : String)
    → get_elem? store i ≡ some (dir d)
    → lookup_entry name d.entries ≡ some j
    → i < j

pub get_elem?-lt :
    {A : Type 0} (xs : List A) (i : ℕ) (x : A) → get_elem? xs i ≡ some x → i < length xs
get_elem?-lt [] i x h = absurd (ground arith)
get_elem?-lt (y ∷ xs) zero x h = omega arith
get_elem?-lt (y ∷ xs) (suc i) x h = omega (arith, get_elem?-lt xs i x h)

-- some answer
abbrev pub Answers : Option Total → Type 0
Answers o = (r : Total) × (o ≡ some r)

with_child_total :
    (loop : ℕ → Option Total) (t : ℕ) (r : Total)
    → ((t' : ℕ) → Answers (loop t'))
    → Answers (with_child loop t (some r))
with_child_total loop t (total n) h = h _
with_child_total loop t no_directory h = (no_directory, refl)
with_child_total loop t nil_file h = (nil_file, refl)

with_file_total :
    (loop : ℕ → Option Total) (o : Option ℕ)
    → ((t : ℕ) → Answers (loop t))
    → Answers (with_file loop o)
with_file_total loop none h = (no_directory, refl)
with_file_total loop (some t) h = h t

with_node_total :
    (rec loop : ℕ → Option Total) (t i : ℕ) (o : Option Node)
    → ((t' : ℕ) → Answers (loop t'))
    → ((d : MemoryDirectory) → o ≡ some (dir d) → Answers (rec i))
    → Answers (with_node rec loop t i o)
with_node_total rec loop t i none h k = (nil_file, refl)
with_node_total rec loop t i (some (file f)) h k = with_file_total loop _ h
with_node_total rec loop t i (some (dir d)) h k =
    let (r, e) = k d refl in rw e (with_child_total loop t r h)

sum_children_total :
    (rec : ℕ → Option Total) (store : List Node) (names : List String) (entries : List (String × ℕ))
    → ((name : String) (j : ℕ) (d : MemoryDirectory)
        → lookup_entry name entries ≡ some j
        → get_elem? store j ≡ some (dir d)
        → Answers (rec j))
    → (t : ℕ) → Answers (sum_children rec store (list_names names entries) t)
unfolding sum_children list_names
sum_children_total rec store [] entries h t = (total t, refl)
sum_children_total rec store (name ∷ names) entries h t =
    elim (Option-cases (lookup_entry name entries)) [
      | inl e ↦ rw e (nil_file, refl)
      | inr (j, e) ↦ rw e (
          with_node_total rec _ t j (get_elem? store j)
            (sum_children_total rec store names entries h) (λ d f. h name j d e f))
    ]

-- In a store in which entries stand behind their directories, `GetTotalSize` of a directory ends,
-- whatever its tree shares, with as much fuel as there are nodes from the directory on.
pub get_total_size_total :
    (fuel i : ℕ) (store : List Node) (d : MemoryDirectory)
    → Forward store
    → get_elem? store i ≡ some (dir d)
    → length store ≤ i + fuel
    → (r : Total) × (get_total_size fuel store i ≡ some r)
unfolding get_total_size readdir
get_total_size_total zero i store d forward here enough =
    absurd (omega (arith, get_elem?-lt store i (dir d) here))
get_total_size_total (suc fuel) i store d forward here enough = rw here (
    sum_children_total (λ j. get_total_size fuel store j) store d.names d.entries
      (λ name j e at there.
        let lt = forward i j d name here at in
        get_total_size_total fuel j store e forward there (omega arith))
      0)
