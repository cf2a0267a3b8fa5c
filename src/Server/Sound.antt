-- ===== src/Server/Sound.antt =====
-- When a server is sound: the objects that its handles, its listings and its directories name are there.
use mathlib.Core.Path.{subst}
use tinyrange.Prelude.{
  ℕ, zero, suc, ◌≤◌, ◌<◌, ◌≡◌, ◌∙◌, refl, sym, String, Option, none, some, List, [], ◌∷◌, ◌++◌,
  arith, length, All, get_elem?, str_eq, eq_iff, Bool-cases, Option-cases, inl, inr,
}
use tinyrange.Files.Directory.{
  MemoryDirectory, Node, dir, file, lookup_entry, delete_entry, list_names, readdir, create, unlink,
  set_node, is_self, is_base,
}
use tinyrange.Files.Lookup.{lookup_entry-delete_entry, lookup_entry-delete_other}
use tinyrange.Sftp.Packets.{Text}
use tinyrange.Server.State.{
  Server, FileHandle, DirectoryHandle, lookup_handle, delete_handle, text_eq,
}

-- The entries lead to objects among the first n.
abbrev pub EntriesKnown : ℕ → List (String × ℕ) → Type 0
EntriesKnown n entries = (k : String) (j : ℕ) → lookup_entry k entries ≡ some j → j < n

abbrev pub Known : ℕ → Node → Type 0
Known n (file f) = Unit
Known n (dir d) = EntriesKnown n d.entries

-- an entry of a listing, which may be without an object: an unlinked name has none
abbrev pub ListedKnown : ℕ → String × Option ℕ → Type 0
ListedKnown n (name, none) = Unit
ListedKnown n (name, some j) = j < n

abbrev pub FileKnown : ℕ → Text × FileHandle → Type 0
FileKnown n (h, f) = f.object < n

abbrev pub DirectoryKnown : ℕ → Text × DirectoryHandle → Type 0
DirectoryKnown n (h, d) = (d.off ≤ length d.entries) × All (ListedKnown n) d.entries

pub record IsSound (s : Server) : Type 0 where
  pub root_known : s.root < length s.nodes
  pub nodes_known : All (Known (length s.nodes)) s.nodes
  pub files_known : All (FileKnown (length s.nodes)) s.open_handles
  pub directories_known : All (DirectoryKnown (length s.nodes)) s.directory_handles

pub All-map :
    {A : Type 0} {P Q : A → Type 0} (xs : List A) → ((x : A) → P x → Q x) → All P xs → All Q xs
All-map [] f h = tt
All-map (x ∷ xs) f (h, k) = (f x h, All-map xs f k)

pub All-get :
    {A : Type 0} (P : A → Type 0) (xs : List A) (i : ℕ) (x : A)
    → All P xs
    → get_elem? xs i ≡ some x
    → P x
All-get P [] i x h e = absurd (ground arith)
All-get P (y ∷ xs) zero x (h, k) e = subst P (cc e) h
All-get P (y ∷ xs) (suc i) x (h, k) e = All-get P xs i x k e

pub All-append_one :
    {A : Type 0} (P : A → Type 0) (xs : List A) (y : A) → All P xs → P y → All P (xs ++ y ∷ [])
All-append_one P [] y h k = (k, tt)
All-append_one P (x ∷ xs) y (g, h) k = (g, All-append_one P xs y h k)

pub All-set_node :
    (P : Node → Type 0) (i : ℕ) (n : Node) (nodes : List Node)
    → All P nodes
    → P n
    → All P (set_node i n nodes)
unfolding set_node
All-set_node P i n [] h k = tt
All-set_node P zero n (x ∷ nodes) (g, h) k = (k, h)
All-set_node P (suc i) n (x ∷ nodes) (g, h) k = (g, All-set_node P i n nodes h k)

pub All-delete_handle :
    {A : Type 0} (P : Text × A → Type 0) (h : Text) (m : List (Text × A))
    → All P m
    → All P (delete_handle h m)
unfolding delete_handle
All-delete_handle P h [] k = tt
All-delete_handle P h ((t, a) ∷ m) (g, k) = elim (Bool-cases (text_eq t h)) [
  | inl e ↦ rw e (All-delete_handle P h m k)
  | inr e ↦ rw e (g, All-delete_handle P h m k)
]

-- the property of a handle that was found, at whatever key
pub All-lookup_handle :
    {A : Type 0} (P : A → Type 0) (h : Text) (m : List (Text × A)) (a : A)
    → All (λ x. P x.1) m
    → lookup_handle h m ≡ some a
    → P a
unfolding lookup_handle
All-lookup_handle P h [] a k e = absurd (ground arith)
All-lookup_handle P h ((t, b) ∷ m) a (g, k) e = elim (Bool-cases (text_eq t h)) [
  | inl f ↦ subst P (cc (rw f at e)) g
  | inr f ↦ All-lookup_handle P h m a k (rw f at e)
]

pub Known-later : (n m : ℕ) (x : Node) → n ≤ m → Known n x → Known m x
Known-later n m (file f) le h = tt
Known-later n m (dir d) le h = λ k j e. omega (arith, h k j e)

pub ListedKnown-later :
    (n m : ℕ) (x : String × Option ℕ) → n ≤ m → ListedKnown n x → ListedKnown m x
ListedKnown-later n m (name, none) le h = tt
ListedKnown-later n m (name, some j) le h = omega arith

pub delete-EntriesKnown :
    (n : ℕ) (name : String) (entries : List (String × ℕ))
    → EntriesKnown n entries
    → EntriesKnown n (delete_entry name entries)
delete-EntriesKnown n name entries h k j e = elim (Bool-cases (str_eq name k)) [
  | inl same ↦
      let eq = (eq_iff name k).0 same in
      absurd (ground (arith, e, eq, lookup_entry-delete_entry k entries))
  | inr other ↦ h k j (
      sym (
        lookup_entry-delete_other name k entries
          (λ eq. ground (arith, other, (eq_iff name k).1 eq)))
      ∙ e)
]

pub unlink-EntriesKnown :
    (n : ℕ) (name : String) (d : MemoryDirectory)
    → EntriesKnown n d.entries
    → EntriesKnown n (unlink name d).1.entries
unfolding unlink
unlink-EntriesKnown n name d h = elim (Bool-cases (is_base name)) [
  | inl b ↦ rw b (delete-EntriesKnown n name d.entries h)
  | inr b ↦ rw b h
]

cons-EntriesKnown :
    (n f : ℕ) (name : String) (entries : List (String × ℕ))
    → f < n
    → EntriesKnown n entries
    → EntriesKnown n ((name, f) ∷ entries)
unfolding lookup_entry
cons-EntriesKnown n f name entries lt h k j e = elim (Bool-cases (str_eq name k)) [
  | inl same ↦ ground (arith, same, e, lt)
  | inr other ↦ h k j (rw other at e)
]

pub create-EntriesKnown :
    (n f : ℕ) (name : String) (d : MemoryDirectory)
    → f < n
    → EntriesKnown n d.entries
    → EntriesKnown n (create name f d).1.entries
unfolding create
create-EntriesKnown n f name d lt h = elim (Bool-cases (is_self name)) [
  | inl a ↦ rw a h
  | inr a ↦ elim (Bool-cases (is_base name)) [
    | inr b ↦ rw (a, b) h
    | inl b ↦ elim (Option-cases (lookup_entry name d.entries)) [
      | inl c ↦ rw (a, b, c) (cons-EntriesKnown n f name d.entries lt h)
      | inr (g, c) ↦ rw (a, b, c) h
    ]
  ]
]

pub readdir-ListedKnown :
    (n : ℕ) (d : MemoryDirectory) → EntriesKnown n d.entries → All (ListedKnown n) (readdir d)
unfolding readdir list_names
readdir-ListedKnown n d h = listed d.names
  where
    one : (name : String) (o : Option ℕ) → lookup_entry name d.entries ≡ o → ListedKnown n (name, o)
    one name none e = tt
    one name (some j) e = h name j e

    listed : (names : List String) → All (ListedKnown n) (list_names names d.entries)
    listed [] = tt
    listed (name ∷ names) = (one name (lookup_entry name d.entries) refl, listed names)
