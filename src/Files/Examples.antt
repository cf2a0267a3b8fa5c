-- ===== src/Files/Examples.antt =====
-- The theorems on directories at small directories.
use Prim.Native.String.{◌++◌ as append_text}
use tinyrange.Prelude.{
  ◌==◌, if◌then◌else◌, ℕ, zero, suc, ◌<◌, String, ◌≡◌, ◌≢◌, refl, ap, ◌∙◌, Bool-cases, inl, inr,
  Option, none, some, List, [], ◌∷◌, arith, All, get_elem?, str_eq,
}
use tinyrange.Files.Memory.{
  regular, new_memory_file, not_exist, new_symlink, get_link_name, is_link,
}
use tinyrange.Files.Directory.{
  MemoryDirectory, Node, dir, file, new_memory_directory, create, unlink, get_child, readdir, entry,
  no_child, lookup_entry, is_self, is_base, mkdir_in, make_child, made, set_node,
}
use tinyrange.Files.Lookup.{IsValid}
use tinyrange.Files.Results.{
  get_child-create, or_new, readdir-IsValid, readdir-unlink, Present, Lists,
}
use tinyrange.Files.Mkdir.{mkdir_in-again, after_mkdir}
use tinyrange.Files.Paths.{
  resolve_directory, resolve_directory_loop, link_elements, all_but_last, split_slash, clean,
  child_of,
}
use tinyrange.Files.Size.{Total, Forward, get_total_size, get_total_size_total}

abbrev etc : MemoryDirectory
etc = record (new_memory_directory 5) { names = "hosts" ∷ []; entries = ("hosts", 3) ∷ [] }

get_child-create_example :
    (get_child "motd" (create "motd" 4 etc).1
      ≡ entry (or_new (lookup_entry "motd" etc.entries) 4) "motd")
    × ((k : String) → k ≢ "motd" → get_child k (create "motd" 4 etc).1 ≡ get_child k etc)
unfolding create is_self is_base lookup_entry
get_child-create_example = get_child-create "motd" 4 etc refl

etc-IsValid : IsValid etc
unfolding lookup_entry new_memory_directory
etc-IsValid = record { distinct = (refl, tt); listed = λ k. ground arith }

readdir-IsValid_example :
    All Present (readdir etc)
    × ((k : String) (f : ℕ) → lookup_entry k etc.entries ≡ some f → Lists k (some f) (readdir etc))
    × ((k : String) (f : ℕ) → IsValid (create k f etc).1)
readdir-IsValid_example = readdir-IsValid etc etc-IsValid

readdir-unlink_example :
    (get_child "hosts" (unlink "hosts" etc).1 ≡ no_child not_exist)
    × ((k : String) → "hosts" ≢ k → get_child k (unlink "hosts" etc).1 ≡ get_child k etc)
    × Lists "hosts" none (readdir (unlink "hosts" etc).1)
unfolding is_self is_base
readdir-unlink_example = readdir-unlink "hosts" etc refl refl refl

abbrev root : MemoryDirectory
root = new_memory_directory 5

abbrev with_root : List Node
with_root = dir root ∷ []

abbrev with_etc : List Node
with_etc = dir (after_mkdir "etc" 0 root with_root) ∷ dir (new_memory_directory 6) ∷ []

mkdir_in-again_example :
    (get_elem? with_etc 0 ≡ some (dir (after_mkdir "etc" 0 root with_root)))
    × (get_child "etc" (after_mkdir "etc" 0 root with_root) ≡ entry 1 "etc")
    × (mkdir_in "etc" 7 0 (after_mkdir "etc" 0 root with_root) with_etc ≡ (made 1, with_etc))
unfolding mkdir_in make_child set_node create is_self is_base lookup_entry new_memory_directory
mkdir_in-again_example = mkdir_in-again "etc" 6 7 0 1 root with_root with_etc refl refl

abbrev tree : List Node
tree =
    dir (record etc { names = "motd" ∷ []; entries = ("motd", 1) ∷ [] })
    ∷ file (new_memory_file regular 5)
    ∷ []

abbrev entries_of : Option Node → List (String × ℕ)
entries_of none = []
entries_of (some (file f)) = []
entries_of (some (dir d)) = d.entries

motd-behind : (name : String) (j : ℕ) → lookup_entry name (("motd", 1) ∷ []) ≡ some j → 0 < j
unfolding lookup_entry
motd-behind name j h = elim (Bool-cases (str_eq "motd" name)) [
  | inl e ↦ ground (arith, e, h)
  | inr e ↦ absurd (ground (arith, e, h))
]

tree-Forward : Forward tree
unfolding lookup_entry
tree-Forward zero j d name h e = motd-behind name j (ap (lookup_entry name) (ap entries_of h) ∙ e)
tree-Forward (suc zero) j d name h e = absurd (ground arith)
tree-Forward (suc (suc i)) j d name h e = absurd (ground arith)

get_total_size_total_example : (r : Total) × (get_total_size 2 tree 0 ≡ some r)
get_total_size_total_example =
    get_total_size_total 2 0 tree (record etc { names = "motd" ∷ []; entries = ("motd", 1) ∷ [] })
      tree-Forward refl (omega arith)

abbrev letter : ℕ → String
letter c = if c == b'l' then "l" else if c == b'o' then "o" else if c == b'p' then "p" else "?"

-- Go's conversion of bytes to a string, on the letters of these links
abbrev text_of : List ℕ → String
text_of [] = ""
text_of (c ∷ bytes) = append_text (letter c) (text_of bytes)

abbrev link_target : List ℕ
link_target = b'l' ∷ b'o' ∷ b'o' ∷ b'p' ∷ []

abbrev linked_root : MemoryDirectory
linked_root = record etc { names = "loop" ∷ "etc" ∷ []; entries = ("loop", 1) ∷ ("etc", 2) ∷ [] }

abbrev linked : List Node
linked =
    dir linked_root
    ∷ file (new_symlink link_target)
    ∷ dir etc
    ∷ file (new_memory_file regular 5)
    ∷ []

resolve_directory_loop_example : resolve_directory text_of linked 0 9 1 ("loop" ∷ []) ≡ none
unfolding new_symlink get_link_name is_link link_elements all_but_last split_slash clean child_of
    get_child is_self is_base lookup_entry
resolve_directory_loop_example =
    resolve_directory_loop text_of linked 0 1 "loop" (dir linked_root) (new_symlink link_target)
      link_target refl refl refl refl refl refl refl 9
