-- ===== src/Files/Mkdir.antt =====
-- `Mkdir` of a directory in memory, on the store that holds the directories.
use mathlib.Core.Path.{subst}
use tinyrange.Prelude.{
  ℕ, zero, suc, String, ◌≡◌, refl, ap, ◌∙◌, sym, true, false, Option, none, some, List, [], ◌∷◌,
  ◌++◌, arith, Option-cases, inl, inr, length, get_elem?,
}
use tinyrange.Files.Memory.{FsError}
use tinyrange.Files.Directory.{
  MemoryDirectory, lookup_entry, create, get_child, is_self, is_base, entry, Node, dir, file, Made,
  made, mkdir_in, make_child, existing_dir, set_node, new_memory_directory,
}
use tinyrange.Files.Results.{or_new, create-named}

pub length-set_node :
    (i : ℕ) (n : Node) (store : List Node) → length (set_node i n store) ≡ length store
unfolding set_node
length-set_node i n [] = refl
length-set_node zero n (x ∷ store) = refl
length-set_node (suc i) n (x ∷ store) = ap suc (length-set_node i n store)

pub get_elem?-length :
    {A : Type 0} (xs : List A) (y : A) → get_elem? (xs ++ y ∷ []) (length xs) ≡ some y
get_elem?-length [] y = refl
get_elem?-length (x ∷ xs) y = get_elem?-length xs y

pub get_elem?-set_node :
    (i : ℕ) (n x : Node) (store later : List Node)
    → get_elem? store i ≡ some x
    → get_elem? (set_node i n store ++ later) i ≡ some n
unfolding set_node
get_elem?-set_node i n x [] later h = absurd (ground arith)
get_elem?-set_node zero n x (y ∷ store) later h = refl
get_elem?-set_node (suc i) n x (y ∷ store) later h = get_elem?-set_node i n x store later h

pub made-eq : {i j : ℕ} → made i ≡ made j → i ≡ j
made-eq h = cc h

pub existing_dir-made :
    (o : Option Node) (g i : ℕ)
    → existing_dir o g ≡ made i
    → (d : MemoryDirectory) × (o ≡ some (dir d)) × (g ≡ i)
unfolding existing_dir
existing_dir-made none g i h = absurd (ground arith)
existing_dir-made (some (file f)) g i h = absurd (ground arith)
existing_dir-made (some (dir d)) g i h = (d, refl, made-eq h)

module _ (name : String) (self : ℕ) (m : MemoryDirectory) (store : List Node) where
  -- the directory after `Mkdir`
  abbrev pub after_mkdir : MemoryDirectory
  after_mkdir = (create name (length store) m).1

  pub mkdir_in-existing :
      (now g : ℕ)
      → is_self name ≡ false
      → is_base name ≡ true
      → lookup_entry name m.entries ≡ some g
      → mkdir_in name now self m store ≡ (existing_dir (get_elem? store g) g, store)
  unfolding mkdir_in
  mkdir_in-existing now g a b c = rw (a, b, c) refl

  pub create-error :
      is_self name ≡ false → is_base name ≡ true → (create name (length store) m).0 ≡ none
  unfolding create
  create-error a b = elim (Option-cases (lookup_entry name m.entries)) [
    | inl c ↦ rw (a, b, c) refl
    | inr (g, c) ↦ rw (a, b, c) refl
  ]

  pub mkdir_in-new :
      (now : ℕ)
      → is_self name ≡ false
      → is_base name ≡ true
      → lookup_entry name m.entries ≡ none
      → mkdir_in name now self m store ≡ (
        made (length store),
        set_node self (dir after_mkdir) store ++ dir (new_memory_directory now) ∷ [],
      )
  unfolding mkdir_in make_child
  mkdir_in-new now a b c =
      rw (a, b, c)
        (ap (λ (e : Option FsError). make_child now self store (e, after_mkdir)) (create-error a b))

  pub mkdir_in-made :
      (now i : ℕ) (store' : List Node)
      → mkdir_in name now self m store ≡ (made i, store')
      → (is_self name ≡ false) × (is_base name ≡ true)
  unfolding mkdir_in
  mkdir_in-made now i store' h = (ground (arith, h), ground (arith, h))

  -- what the store after `Mkdir` has at the directory and at the child
  record Settled (i : ℕ) (store' : List Node) : Type 0 where
    at_self : get_elem? store' self ≡ some (dir after_mkdir)
    at_name : lookup_entry name after_mkdir.entries ≡ some i
    child : MemoryDirectory
    at_child : get_elem? store' i ≡ some (dir child)

  create-existing :
      (g : ℕ)
      → is_self name ≡ false
      → is_base name ≡ true
      → lookup_entry name m.entries ≡ some g
      → create name (length store) m ≡ (none, m)
  unfolding create
  create-existing g a b c = rw (a, b, c) refl

  Settled-existing :
      (g : ℕ) (d : MemoryDirectory)
      → get_elem? store self ≡ some (dir m)
      → is_self name ≡ false
      → is_base name ≡ true
      → lookup_entry name m.entries ≡ some g
      → get_elem? store g ≡ some (dir d)
      → Settled g store
  Settled-existing g d here a b c o =
      let same = ap (λ (r : Option FsError × MemoryDirectory). r.1) (create-existing g a b c) in
      record {
        at_self = here ∙ ap (λ (x : MemoryDirectory). some (dir x)) (sym same);
        at_name = ap (λ (x : MemoryDirectory). lookup_entry name x.entries) same ∙ c;
        child = d;
        at_child = o;
      }

  Settled-new :
      (now : ℕ)
      → get_elem? store self ≡ some (dir m)
      → is_self name ≡ false
      → is_base name ≡ true
      → lookup_entry name m.entries ≡ none
      → Settled
          (length store)
          (set_node self (dir after_mkdir) store ++ dir (new_memory_directory now) ∷ [])
  Settled-new now here a b c =
      let n = create-named name (length store) m a b in
      record {
        at_self =
            get_elem?-set_node self (dir after_mkdir) (dir m) store
              (dir (new_memory_directory now) ∷ []) here;
        at_name = n.0 ∙ ap (λ (o : Option ℕ). some (or_new o (length store))) c;
        child = new_memory_directory now;
        at_child = rw (sym (length-set_node self (dir after_mkdir) store)) (
            get_elem?-length (set_node self (dir after_mkdir) store)
              (dir (new_memory_directory now)));
      }

  mkdir_in-Settled :
      (now i : ℕ) (store' : List Node)
      → get_elem? store self ≡ some (dir m)
      → mkdir_in name now self m store ≡ (made i, store')
      → Settled i store'
  mkdir_in-Settled now i store' here e =
      let (a, b) = mkdir_in-made now i store' e in
      elim (Option-cases (lookup_entry name m.entries)) [
        | inl c ↦
            let f = sym (mkdir_in-new now a b c) ∙ e in
            subst (λ (x : ℕ). Settled x store') (made-eq (ap (λ (r : Made × List Node). r.0) f))
              (subst (Settled (length store)) (ap (λ (r : Made × List Node). r.1) f)
                (Settled-new now here a b c))
        | inr (g, c) ↦
            let f = sym (mkdir_in-existing now g a b c) ∙ e in
            let (d, o, same) = existing_dir-made _ g i (ap (λ (r : Made × List Node). r.0) f) in
            subst (λ (x : ℕ). Settled x store') same
              (subst (Settled g) (ap (λ (r : Made × List Node). r.1) f)
                (Settled-existing g d here a b c o))
      ]

-- A `Mkdir` that gives a directory has stored a directory under the name; a second `Mkdir` of the
-- name, at any time, gives the same one and changes nothing.
pub mkdir_in-again :
    (name : String) (now later self i : ℕ) (m : MemoryDirectory) (store store' : List Node)
    → get_elem? store self ≡ some (dir m)
    → mkdir_in name now self m store ≡ (made i, store')
    → (get_elem? store' self ≡ some (dir (after_mkdir name self m store)))
      × (get_child name (after_mkdir name self m store) ≡ entry i name)
      × (mkdir_in name later self (after_mkdir name self m store) store' ≡ (made i, store'))
unfolding get_child existing_dir
mkdir_in-again name now later self i m store store' here e =
    let (a, b) = mkdir_in-made name self m store now i store' e in
    let s = mkdir_in-Settled name self m store now i store' here e in
    (
      s.at_self,
      rw (a, b, s.at_name) refl,
      mkdir_in-existing name self (after_mkdir name self m store) store' later i a b s.at_name
          ∙ ap (λ (o : Option Node). (existing_dir o i, store')) s.at_child,
    )
