-- ===== src/Cpio/Extract.antt =====
-- `AddFromEntry` of pkg/cpio/cpio.go, which copies an entry of another archive into the tree.
use mathlib.Core.List.{reverse}
use tinyrange.Prelude.{
  ℕ, Bool, true, false, Option, none, some, List, [], ◌∷◌, ◌++◌, ◌==◌, if◌then◌else◌,
}
use tinyrange.Files.Memory.{FileType, regular, symlink, link, directory as directory_type}
use tinyrange.Cpio.Tree.{
  Member, Entry, file, directory, Entries, no_entries, kind_directory, kind_regular, make_symlink,
  new_member, put_child, same_name, AddError, empty_name, not_read, bad_type, split_on, at_path,
}

-- `filesystem.Entry`: `contents` is what `Open` and `ReadAll` give, `none` for an error.
pub record SourceEntry : Type 0 where
  pub name : List ℕ
  pub typeflag : FileType
  pub contents : Option (List ℕ)
  pub linkname : List ℕ
  pub mode : ℕ
  pub uid : ℕ
  pub gid : ℕ
  pub mod_time : ℕ

-- `path.Join` before it cleans
abbrev joined : List ℕ → List ℕ → List ℕ
joined [] name = name
joined (c ∷ cs) [] = c ∷ cs
joined (c ∷ cs) (d ∷ ds) = (c ∷ cs) ++ 47 ∷ d ∷ ds

abbrev up : Bool → List (List ℕ) → List (List ℕ)
up true [] = []
up false [] = (46 ∷ 46 ∷ []) ∷ []
up rooted (t ∷ ts) = if same_name t (46 ∷ 46 ∷ []) then (46 ∷ 46 ∷ []) ∷ t ∷ ts else ts

-- the elements of `path.Clean`, the last one first
unfoldable pub clean_elements : Bool → List (List ℕ) → List (List ℕ) → List (List ℕ)
clean_elements rooted seen [] = seen
clean_elements rooted seen (t ∷ ts) =
    clean_elements rooted
      (if same_name t []
        then seen
        else if same_name t (46 ∷ [])
        then seen
        else if same_name t (46 ∷ 46 ∷ [])
        then up rooted seen
        else t ∷ seen)
      ts

abbrev join_slash : List (List ℕ) → List ℕ
join_slash [] = []
join_slash (t ∷ []) = t
join_slash (t ∷ (u ∷ us)) = t ++ 47 ∷ join_slash (u ∷ us)

abbrev starts_with_slash : List ℕ → Bool
starts_with_slash [] = false
starts_with_slash (c ∷ cs) = c == 47

abbrev or_dot : Bool → List (List ℕ) → List ℕ
or_dot true [] = []
or_dot false [] = 46 ∷ []
or_dot rooted (t ∷ ts) = join_slash (reverse (t ∷ ts))

-- `strings.TrimPrefix(path.Clean(path.Join(prefix, name)), "/")`
unfoldable pub cleaned_name : List ℕ → List ℕ → List ℕ
cleaned_name prefix name =
    let p = joined prefix name in
    let rooted = starts_with_slash p in or_dot rooted (clean_elements rooted [] (split_on [] p))

-- `Chmod`, `Chown` and `Chtimes`
abbrev pub attributed : SourceEntry → Member → Member
attributed h m = record m { mode = h.mode; uid = h.uid; gid = h.gid; mtime = h.mod_time }

abbrev pub copy_regular :
    SourceEntry → Option (List ℕ) → List ℕ → Entries → Option AddError × Entries
copy_regular h none name es = (some not_read, put_child (file (new_member kind_regular name)) es)
copy_regular h (some bytes) name es = (
  none,
  put_child (file (attributed h (record (new_member kind_regular name) { content = bytes }))) es,
)

-- the entry that is copied under this name, and what the directory has then
abbrev pub copy_entry : SourceEntry → FileType → List ℕ → Entries → Option AddError × Entries
copy_entry h regular name es = copy_regular h h.contents name es
copy_entry h symlink name es = (
  none,
  put_child (file (attributed h (make_symlink h.linkname (new_member kind_regular name)))) es,
)
copy_entry h directory_type name es =
    (none, put_child (directory (attributed h (new_member kind_directory name)) no_entries) es)
copy_entry h link name es = (some bad_type, es)

abbrev pub copy_named : SourceEntry → List ℕ → Entries → Option AddError × Entries
copy_named h [] es = (some empty_name, es)
copy_named h (c ∷ cs) es = copy_entry h h.typeflag (c ∷ cs) es

abbrev in_root : Member → Option AddError × Entries → Option AddError × Entry
in_root m (e, es) = (e, directory m es)

abbrev pub add_by_type :
    FileType → SourceEntry → List ℕ → Member → Entries → Option AddError × Entry
add_by_type link h name m es = (some bad_type, directory m es)
add_by_type directory_type h name m es =
    if same_name name (46 ∷ [])
    then (none, directory (attributed h m) es)
    else in_root m (at_path true (split_on [] name) (copy_named h) es)
add_by_type regular h name m es = in_root m (at_path true (split_on [] name) (copy_named h) es)
add_by_type symlink h name m es = in_root m (at_path true (split_on [] name) (copy_named h) es)

-- `AddFromEntry`, to a root with this member and these children
unfoldable pub add_from_entry : List ℕ → SourceEntry → Member → Entries → Option AddError × Entry
add_from_entry prefix h m es = add_by_type h.typeflag h (cleaned_name prefix h.name) m es
