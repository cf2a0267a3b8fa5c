-- ===== src/Files/Lookup.antt =====
-- The entries of a directory, and when they agree with the names that it lists.
use tinyrange.Prelude.{
  ℕ, String, ◌≡◌, ◌≢◌, refl, Bool, true, false, none, some, List, [], ◌∷◌, ◌++◌, arith, str_eq,
  eq_iff, mem_text, Bool-cases, Option-cases, inl, inr, Nodup, Nodup-append, mem_text-append,
}
use tinyrange.Files.Directory.{
  MemoryDirectory, lookup_entry, delete_entry, create, is_self, is_base, new_memory_directory,
}

abbrev pub has_entry : String → List (String × ℕ) → Bool
has_entry k entries = elim (lookup_entry k entries) [ none ↦ false | some f ↦ true ]

-- The names are those of the entries, each once.
pub record IsValid (m : MemoryDirectory) : Type 0 where
  pub distinct : Nodup m.names
  pub listed : (k : String) → mem_text k m.names ≡ has_entry k m.entries

pub lookup_entry-delete_entry :
    (name : String) (entries : List (String × ℕ))
    → lookup_entry name (delete_entry name entries) ≡ none
unfolding lookup_entry delete_entry
lookup_entry-delete_entry name [] = refl
lookup_entry-delete_entry name ((k, f) ∷ entries) =
    ground (arith, lookup_entry-delete_entry name entries)

pub lookup_entry-delete_other :
    (name other : String) (entries : List (String × ℕ))
    → name ≢ other
    → lookup_entry other (delete_entry name entries) ≡ lookup_entry other entries
unfolding lookup_entry delete_entry
lookup_entry-delete_other name other [] h = refl
lookup_entry-delete_other name other ((k, f) ∷ entries) h = elim (Bool-cases (str_eq k name)) [
  | inl e ↦
      let same = (eq_iff k name).0 e in
      ground (arith, e, lookup_entry-delete_other name other entries h, eq_iff k other)
  | inr e ↦ ground (arith, e, lookup_entry-delete_other name other entries h)
]

pub new_memory_directory-IsValid : (now : ℕ) → IsValid (new_memory_directory now)
unfolding new_memory_directory lookup_entry
new_memory_directory-IsValid now = record { distinct = tt; listed = λ k. refl }

mem-none :
    (m : MemoryDirectory) (name : String)
    → IsValid m
    → lookup_entry name m.entries ≡ none
    → mem_text name m.names ≡ false
mem-none m name v e = ground (arith, v.listed name, e)

mem-append_one :
    (m : MemoryDirectory) (name k : String) (f : ℕ)
    → IsValid m
    → mem_text k (m.names ++ name ∷ []) ≡ has_entry k ((name, f) ∷ m.entries)
unfolding lookup_entry
mem-append_one m name k f v = ground (arith, mem_text-append k m.names (name ∷ []), v.listed k)

-- the directory after a new entry
added-IsValid :
    (m : MemoryDirectory) (name : String) (f : ℕ)
    → IsValid m
    → lookup_entry name m.entries ≡ none
    → IsValid (record m { names = m.names ++ name ∷ []; entries = (name, f) ∷ m.entries })
added-IsValid m name f v e = record {
  distinct =
      Nodup-append m.names (name ∷ []) v.distinct (refl, tt)
        (λ k h. ground (arith, mem-none m name v e, eq_iff name k, h));
  listed = λ k. mem-append_one m name k f v;
}

pub create-IsValid :
    (name : String) (f : ℕ) (m : MemoryDirectory) → IsValid m → IsValid (create name f m).1
unfolding create
create-IsValid name f m v = elim (Bool-cases (is_self name)) [
  | inl a ↦ rw a v
  | inr a ↦ elim (Bool-cases (is_base name)) [
    | inr b ↦ rw (a, b) v
    | inl b ↦ elim (Option-cases (lookup_entry name m.entries)) [
      | inl c ↦ rw (a, b, c) (added-IsValid m name f v c)
      | inr (g, c) ↦ rw (a, b, c) v
    ]
  ]
]
