-- ===== src/Files/Results.antt =====
-- What the operations of a directory in memory guarantee.
use mathlib.Core.Path.{subst}
use tinyrange.Prelude.{
  ℕ, String, ◌≡◌, ◌≢◌, refl, ap, true, false, Option, none, some, List, [], ◌∷◌, ◌⊎◌, arith, str_eq,
  eq_iff, mem_text, Bool-cases, Option-cases, inl, inr, All,
}
use tinyrange.Files.Memory.{not_exist}
use tinyrange.Files.Directory.{
  MemoryDirectory, lookup_entry, delete_entry, list_names, create, unlink, get_child, is_self,
  is_base, entry, no_child, readdir,
}
use tinyrange.Files.Lookup.{
  IsValid, has_entry, lookup_entry-delete_entry, lookup_entry-delete_other, create-IsValid,
}

-- what is there, or else what is put there
abbrev pub or_new : Option ℕ → ℕ → ℕ
or_new none f = f
or_new (some g) f = g

pub create-named :
    (name : String) (f : ℕ) (m : MemoryDirectory)
    → is_self name ≡ false
    → is_base name ≡ true
    → (lookup_entry name (create name f m).1.entries
        ≡ some (or_new (lookup_entry name m.entries) f))
      × ((k : String)
          → k ≢ name
          → lookup_entry k (create name f m).1.entries ≡ lookup_entry k m.entries)
unfolding create lookup_entry
create-named name f m a b = elim (Option-cases (lookup_entry name m.entries)) [
  | inl c ↦ rw (a, b, c) (added c)
  | inr (g, c) ↦ rw (a, b, c) (c, λ k h. refl)
]
  where
    added :
        lookup_entry name m.entries ≡ none
        → (lookup_entry name ((name, f) ∷ m.entries) ≡ some f)
          × ((k : String)
              → k ≢ name
              → lookup_entry k ((name, f) ∷ m.entries) ≡ lookup_entry k m.entries)
    added c = (ground (arith, eq_iff name name), λ k h. ground (arith, eq_iff name k, h))

create-no_error :
    (name : String) (f : ℕ) (m : MemoryDirectory)
    → (create name f m).0 ≡ none
    → (is_self name ≡ false) × (is_base name ≡ true)
unfolding create
create-no_error name f m h = (ground (arith, h), ground (arith, h))

-- After a `Create` without an error the name leads to what it led to before, or else to the new file;
-- every other name leads to what it led to before.
pub get_child-create :
    (name : String) (f : ℕ) (m : MemoryDirectory)
    → (create name f m).0 ≡ none
    → (get_child name (create name f m).1 ≡ entry (or_new (lookup_entry name m.entries) f) name)
      × ((k : String) → k ≢ name → get_child k (create name f m).1 ≡ get_child k m)
unfolding get_child
get_child-create name f m h =
    let (a, b) = create-no_error name f m h in
    let (c, d) = create-named name f m a b in (rw (a, b, c) refl, λ k ne. rw (d k ne) refl)

-- the file is there
abbrev pub Present : String × Option ℕ → Type 0
Present (name, o) = (f : ℕ) × (o ≡ some f)

list_names-Present :
    (names : List String) (entries : List (String × ℕ))
    → ((k : String) → mem_text k names ≡ true → has_entry k entries ≡ true)
    → All Present (list_names names entries)
unfolding list_names
list_names-Present [] entries h = tt
list_names-Present (name ∷ names) entries h = (
  elim (Option-cases (lookup_entry name entries)) [
    | inl e ↦ absurd (ground (arith, e, h name, eq_iff name name))
    | inr f ↦ f
  ],
  list_names-Present names entries (λ k m. h k (ground (arith, m))),
)

abbrev pub Lists : String → Option ℕ → List (String × Option ℕ) → Type 0
Lists name o [] = ⊥
Lists name o ((k, p) ∷ rest) = ((k ≡ name) × (p ≡ o)) ⊎ Lists name o rest

list_names-Lists :
    (name : String) (names : List String) (entries : List (String × ℕ))
    → mem_text name names ≡ true
    → Lists name (lookup_entry name entries) (list_names names entries)
unfolding list_names
list_names-Lists name [] entries h = absurd (ground arith)
list_names-Lists name (k ∷ names) entries h = elim (Bool-cases (str_eq k name)) [
  | inl e ↦
      let same = (eq_iff k name).0 e in inl (same, ap (λ (x : String). lookup_entry x entries) same)
  | inr e ↦ inr (list_names-Lists name names entries (ground (arith, e, h)))
]

-- A directory whose names are those of its entries lists a file under every name that it lists, and
-- lists every entry. `Create` keeps it so, whether it fails or not.
pub readdir-IsValid :
    (m : MemoryDirectory)
    → IsValid m
    → All Present (readdir m)
      × ((k : String) (f : ℕ) → lookup_entry k m.entries ≡ some f → Lists k (some f) (readdir m))
      × ((k : String) (f : ℕ) → IsValid (create k f m).1)
unfolding readdir
readdir-IsValid m v = (
  list_names-Present m.names m.entries (λ k h. ground (arith, v.listed k, h)),
  λ k f e.
      subst (λ (o : Option ℕ). Lists k o (list_names m.names m.entries)) e
        (list_names-Lists k m.names m.entries (ground (arith, v.listed k, e))),
  λ k f. create-IsValid k f m v,
)

-- After the `Unlink` of a listed name, `GetChild` no longer finds the name, unless it is that of the
-- directory itself, and finds every other name as before; but `Readdir` still lists the name, with
-- no file.
pub readdir-unlink :
    (name : String) (m : MemoryDirectory)
    → is_self name ≡ false
    → is_base name ≡ true
    → mem_text name m.names ≡ true
    → (get_child name (unlink name m).1 ≡ no_child not_exist)
      × ((k : String) → name ≢ k → get_child k (unlink name m).1 ≡ get_child k m)
      × Lists name none (readdir (unlink name m).1)
unfolding get_child unlink readdir
readdir-unlink name m a b h =
    let gone = lookup_entry-delete_entry name m.entries in
    (
      rw (a, b, gone) refl,
      λ k ne. rw (b, lookup_entry-delete_other name k m.entries ne) refl,
      rw b (
          subst (λ (o : Option ℕ). Lists name o (list_names m.names (delete_entry name m.entries)))
            gone (list_names-Lists name m.names (delete_entry name m.entries) h)),
    )
