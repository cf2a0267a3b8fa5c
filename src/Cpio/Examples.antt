-- ===== src/Cpio/Examples.antt =====
-- The theorem on archives at a small tree.
use tinyrange.Prelude.{ℕ, ◌+◌, ◌≡◌, refl, true, some, [], ◌∷◌}
use tinyrange.Cpio.Tree.{
  Member, Entries, Entry, file, directory, no_entries, child, kind_regular, kind_directory,
  new_member, put_child, split_on, add_simple_file, at_path, create_file, lookup_child,
}
use tinyrange.Files.Memory.{regular}
use tinyrange.Cpio.Extract.{SourceEntry}
use tinyrange.Cpio.Copying.{copied}
use tinyrange.Cpio.Adding.{find, added, add_simple_file-find}
use tinyrange.Cpio.Format.{members_below}

abbrev dot : Member
dot = new_member kind_directory (46 ∷ [])

-- a directory with a script in it
abbrev below : Entries
below =
    child
      (directory (new_member kind_directory (98 ∷ [])) (
        child (file (record (new_member kind_regular (115 ∷ [])) { content = 35 ∷ 33 ∷ [] }))
          no_entries))
      no_entries

second_path :
    (n : ℕ) × (m : Member) × (members_below [] below
      ≡ (2 + 1, 98 ∷ [], new_member kind_directory (98 ∷ [])) ∷ (n, 98 ∷ 47 ∷ 115 ∷ [], m) ∷ [])
unfolding members_below
second_path = (_, _, refl)

add_simple_file-find_example :
    find (split_on [] (98 ∷ 47 ∷ 115 ∷ [])) (
      put_child
        (directory
          (new_member kind_directory (98 ∷ []))
          (put_child (added (35 ∷ []) 493 (115 ∷ [])) no_entries))
        no_entries)
    ≡ some (added (35 ∷ []) 493 (115 ∷ []))
unfolding add_simple_file at_path create_file lookup_child
add_simple_file-find_example =
    add_simple_file-find (98 ∷ 47 ∷ 115 ∷ []) (35 ∷ []) true no_entries
      (put_child
        (directory (new_member kind_directory (98 ∷ []))
          (put_child (added (35 ∷ []) 493 (115 ∷ [])) no_entries))
        no_entries)
      refl

-- a script of another archive
abbrev script : SourceEntry
script = record {
  name = 46 ∷ 47 ∷ 115 ∷ [];
  typeflag = regular;
  contents = some (35 ∷ []);
  linkname = [];
  mode = 493;
  uid = 0;
  gid = 0;
  mod_time = 9;
}

abbrev with_script : Entry
with_script = directory (new_member kind_directory (46 ∷ [])) (
    put_child
      (directory (new_member kind_directory (98 ∷ []))
        (put_child (copied script regular (some (35 ∷ [])) (115 ∷ [])) no_entries))
      no_entries)
