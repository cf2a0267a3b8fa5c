-- ===== src/Cpio/Adding.antt =====
-- A file that `AddSimpleFile` of pkg/cpio/cpio.go has added is in the tree.
use tinyrange.Prelude.{
  ℕ, ◌≡◌, ◌∙◌, refl, sym, ap, Bool, true, false, Option, none, some, List, [], ◌∷◌, arith,
  Bool-cases, inl, inr, if◌then◌else◌, ◌==◌,
}
use tinyrange.Cpio.Tree.{
  Member, Entry, file, directory, Entries, no_entries, child, member_of, new_member, kind_directory,
  kind_regular, text_less, same_name, lookup_child, put_child, AddError, split_on, add_below,
  at_path, create_file, add_simple_file,
}

abbrev found_below : (Entries → Option Entry) → Option Entry → Option Entry
found_below k none = none
found_below k (some (file m)) = none
found_below k (some (directory m es)) = k es

-- the entry at a path
unfoldable pub find : List (List ℕ) → Entries → Option Entry
find [] es = lookup_child [] es
find (tk ∷ []) es = lookup_child tk es
find (tk ∷ (next ∷ tks)) es = found_below (λ sub. find (next ∷ tks) sub) (lookup_child tk es)

abbrev pub last_token : List (List ℕ) → List ℕ
last_token [] = []
last_token (tk ∷ []) = tk
last_token (tk ∷ (next ∷ tks)) = last_token (next ∷ tks)

-- the file that is added
abbrev pub added : List ℕ → ℕ → List ℕ → Entry
added contents mode name =
    file (record (new_member kind_regular name) { content = contents; mode = mode })

same_name_refl : (name : List ℕ) → same_name name name ≡ true
unfolding same_name
same_name_refl [] = refl
same_name_refl (x ∷ xs) =
    let same : (x == x) ≡ true = ground arith in rw (same, same_name_refl xs) refl

pub lookup_child-put_child :
    (e : Entry) (es : Entries) → lookup_child (member_of e).name (put_child e es) ≡ some e
unfolding lookup_child put_child
lookup_child-put_child e no_entries = rw (same_name_refl (member_of e).name) refl
lookup_child-put_child e (child f es) =
    elim (Bool-cases (same_name (member_of f).name (member_of e).name)) [
      | inl same ↦ rw (same, same_name_refl (member_of e).name) refl
      | inr other ↦ elim (Bool-cases (text_less (member_of e).name (member_of f).name)) [
        | inl less ↦ rw (other, less, same_name_refl (member_of e).name) refl
        | inr more ↦ rw (other, more, other) (lookup_child-put_child e es)
      ]
    ]

same_name-eq : (xs ys : List ℕ) → same_name xs ys ≡ true → xs ≡ ys
unfolding same_name
same_name-eq [] [] h = refl
same_name-eq [] (y ∷ ys) h = absurd (ground (arith, h))
same_name-eq (x ∷ xs) [] h = absurd (ground (arith, h))
same_name-eq (x ∷ xs) (y ∷ ys) h =
    let e : x ≡ y = ground (arith, h) in
    let f = same_name-eq xs ys (ground (arith, h)) in
    ap (λ (z : ℕ). z ∷ xs) e ∙ ap (λ (l : List ℕ). y ∷ l) f

-- what is found has the name
lookup_child-name :
    (name : List ℕ) (es : Entries) (e : Entry)
    → lookup_child name es ≡ some e
    → (member_of e).name ≡ name
unfolding lookup_child
lookup_child-name name no_entries e h = absurd (ground (arith, h))
lookup_child-name name (child f es) e h = elim (Bool-cases (same_name (member_of f).name name)) [
  | inl same ↦
      let found : f ≡ e = cc (rw same at h) in
      ap (λ (x : Entry). (member_of x).name) (sym found) ∙ same_name-eq (member_of f).name name same
  | inr other ↦ lookup_child-name name es e (rw other at h)
]

create_file-find :
    (contents : List ℕ) (mode : ℕ) (name : List ℕ) (es es' : Entries)
    → create_file contents mode name es ≡ (none, es')
    → lookup_child name es' ≡ some (added contents mode name)
unfolding create_file
create_file-find contents mode [] es es' h = absurd (ground (arith, h))
create_file-find contents mode (c ∷ cs) es es' h =
    ap (lookup_child (c ∷ cs)) (sym (ap (λ (r : Option AddError × Entries). r.1) h))
    ∙ lookup_child-put_child (added contents mode (c ∷ cs)) es

-- what a step below a directory does, and what is found there
below-find :
    (mkdir : Bool) (tk : List ℕ) (f : Entries → Option AddError × Entries)
    (k : Entries → Option Entry) (r : Entry) (es es' : Entries)
    → ((sub sub' : Entries) → f sub ≡ (none, sub') → k sub' ≡ some r)
    → add_below (lookup_child tk es) mkdir tk f es ≡ (none, es')
    → found_below k (lookup_child tk es') ≡ some r
below-find mkdir tk f k r es es' ih h = from (lookup_child tk es) refl mkdir tk refl h
  where
    placed :
        (m : Member) (sub : Entries)
        → m.name ≡ tk
        → (f sub).0 ≡ none
        → put_child (directory m (f sub).1) es ≡ es'
        → found_below k (lookup_child tk es') ≡ some r
    placed m sub same ok e =
        ap (λ (x : Entries). found_below k (lookup_child tk x)) (sym e)
        ∙ ap (λ (n : List ℕ). found_below k (lookup_child n (put_child (directory m (f sub).1) es)))
            (sym same)
        ∙ ap (found_below k) (lookup_child-put_child (directory m (f sub).1) es)
        ∙ ih sub (f sub).1 (ap (λ (o : Option AddError). (o, (f sub).1)) ok)

    from :
        (o : Option Entry)
        → lookup_child tk es ≡ o
        → (b : Bool) (name : List ℕ) → name ≡ tk
        → add_below o b name f es ≡ (none, es')
        → found_below k (lookup_child tk es') ≡ some r
    from (some (file m)) e b name same g = absurd (ground (arith, g))
    from (some (directory m sub)) e b name same g =
        placed m sub (lookup_child-name tk es (directory m sub) e)
          (ap (λ (x : Option AddError × Entries). x.0) g)
          (ap (λ (x : Option AddError × Entries). x.1) g)
    from none e false name same g = absurd (ground (arith, g))
    from none e true [] same g = absurd (ground (arith, g))
    from none e true (c ∷ cs) same g =
        placed (new_member kind_directory (c ∷ cs)) no_entries same
          (ap (λ (x : Option AddError × Entries). x.0) g)
          (ap (λ (x : Option AddError × Entries). x.1) g)

-- what is done at the end of a path is found there
pub at_path-find :
    (k : List ℕ → Entries → Option AddError × Entries) (r : Entry) (tks : List (List ℕ))
    (es es' : Entries)
    → ((sub sub' : Entries)
        → k (last_token tks) sub ≡ (none, sub')
        → lookup_child (last_token tks) sub' ≡ some r)
    → at_path true tks k es ≡ (none, es')
    → find tks es' ≡ some r
unfolding at_path find
at_path-find k r [] es es' f h = f es es' h
at_path-find k r (tk ∷ []) es es' f h = f es es' h
at_path-find k r (tk ∷ (next ∷ tks)) es es' f h =
    below-find true tk (λ sub. at_path true (next ∷ tks) k sub) (λ sub. find (next ∷ tks) sub) r es
      es' (λ sub sub' e. at_path-find k r (next ∷ tks) sub sub' f e) h

-- A file that was added without an error is found at its path, with its content, its name, and the mode
-- that it was added with, whatever was in the tree before.
pub add_simple_file-find :
    (filename contents : List ℕ) (executable : Bool) (es es' : Entries)
    → add_simple_file filename contents executable es ≡ (none, es')
    → find (split_on [] filename) es'
      ≡ some (added contents (if executable then 493 else 0) (last_token (split_on [] filename)))
unfolding add_simple_file
add_simple_file-find filename contents executable es es' h =
    let mode = if executable then 493 else 0 in
    at_path-find (λ name sub. create_file contents mode name sub) _ (split_on [] filename) es es'
      (λ sub sub' e. create_file-find contents mode _ sub sub' e) h
