-- ===== src/Cpio/Tree.antt =====
-- The tree of an archive in pkg/cpio/cpio.go: its files and directories, and adding to it.
use tinyrange.Prelude.{
  ℕ, Bool, true, false, ◌&&◌, Option, none, some, List, [], ◌∷◌, ◌++◌, ltb, ◌==◌, if◌then◌else◌,
}

-- `cpioEntry`; the time is that of `Unix`.
pub record Member : Type 0 where
  pub kind : ℕ
  pub mode : ℕ
  pub uid : ℕ
  pub gid : ℕ
  pub mtime : ℕ
  pub content : List ℕ
  pub name : List ℕ

-- `file` and `directory`. The map of a directory is a list in the order of the names, in which
-- `Children` gives it.
mutual
  pub data Entry : Type 0 where
    file : Member → Entry
    directory : Member → Entries → Entry

  pub data Entries : Type 0 where
    no_entries : Entries
    child : Entry → Entries → Entries

abbrev pub kind_directory : ℕ
kind_directory = 16384

abbrev pub kind_regular : ℕ
kind_regular = 32768

abbrev pub kind_symbolic_link : ℕ
kind_symbolic_link = 40960

abbrev pub member_of : Entry → Member
member_of (file m) = m
member_of (directory m es) = m

-- `newFile` and `newDirectory`, of a name that is not empty
abbrev pub new_member : ℕ → List ℕ → Member
new_member kind name = record {
  kind = kind;
  mode = 0;
  uid = 0;
  gid = 0;
  mtime = 0;
  content = [];
  name = name;
}

-- `makeSymlink`
abbrev pub make_symlink : List ℕ → Member → Member
make_symlink linkname m = record m { kind = kind_symbolic_link; content = linkname }

-- the order of strings
unfoldable pub text_less : List ℕ → List ℕ → Bool
text_less [] [] = false
text_less [] (y ∷ ys) = true
text_less (x ∷ xs) [] = false
text_less (x ∷ xs) (y ∷ ys) = if x == y then text_less xs ys else ltb x y

unfoldable pub same_name : List ℕ → List ℕ → Bool
same_name [] [] = true
same_name [] (y ∷ ys) = false
same_name (x ∷ xs) [] = false
same_name (x ∷ xs) (y ∷ ys) = (x == y) && same_name xs ys

-- `dir.entries[name]`
unfoldable pub lookup_child : List ℕ → Entries → Option Entry
lookup_child name no_entries = none
lookup_child name (child e es) =
    if same_name (member_of e).name name then some e else lookup_child name es

-- `dir.entries[name] = e`
unfoldable pub put_child : Entry → Entries → Entries
put_child e no_entries = child e no_entries
put_child e (child f es) =
    let later = put_child e es in
    if same_name (member_of f).name (member_of e).name
    then child e es
    else if text_less (member_of e).name (member_of f).name
    then child e (child f es)
    else child f later

pub data AddError : Type 0 where
  empty_name not_found not_a_directory not_read bad_type : AddError

-- `strings.Split(p, "/")`: the element that is being read, and the rest
abbrev pub split_on : List ℕ → List ℕ → List (List ℕ)
split_on seen [] = seen ∷ []
split_on seen (c ∷ cs) = if c == 47 then seen ∷ split_on [] cs else split_on (seen ++ c ∷ []) cs

abbrev pub add_below :
    Option Entry
    → Bool
    → List ℕ
    → (Entries → Option AddError × Entries)
    → Entries
    → Option AddError × Entries
add_below (some (file m)) mkdir tk k es = (some not_a_directory, es)
add_below (some (directory m sub)) mkdir tk k es =
    let (e, sub') = k sub in (e, put_child (directory m sub') es)
add_below none false tk k es = (some not_found, es)
add_below none true [] k es = (some empty_name, es)
add_below none true (c ∷ cs) k es =
    let (e, sub) = k no_entries in
    (e, put_child (directory (new_member kind_directory (c ∷ cs)) sub) es)

-- `openPath` and what is done in the directory, with the last element: directories that are made stay
-- when something fails below them.
unfoldable pub at_path :
    Bool
    → List (List ℕ)
    → (List ℕ → Entries → Option AddError × Entries)
    → Entries
    → Option AddError × Entries
at_path mkdir [] k es = k [] es
at_path mkdir (tk ∷ []) k es = k tk es
at_path mkdir (tk ∷ (next ∷ tks)) k es =
    add_below (lookup_child tk es) mkdir tk (λ sub. at_path mkdir (next ∷ tks) k sub) es

-- `create`, of a file with this content and mode
unfoldable pub create_file : List ℕ → ℕ → List ℕ → Entries → Option AddError × Entries
create_file contents mode [] es = (some empty_name, es)
create_file contents mode (c ∷ cs) es = (
  none,
  put_child (file (record (new_member kind_regular (c ∷ cs)) { content = contents; mode = mode }))
      es,
)

-- `AddSimpleFile`
unfoldable pub add_simple_file : List ℕ → List ℕ → Bool → Entries → Option AddError × Entries
add_simple_file filename contents executable es =
    at_path true (split_on [] filename)
      (λ name sub. create_file contents (if executable then 493 else 0) name sub) es
