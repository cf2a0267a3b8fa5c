-- ===== src/Server/Changes.antt =====
-- The changes that the handlers make to the state keep it sound.
use mathlib.Core.Path.{subst}
use tinyrange.Prelude.{
  ℕ, ◌+◌, ◌≤◌, ◌≡◌, ◌∙◌, refl, sym, ap, String, Option, none, some, List, [], ◌∷◌, ◌++◌, arith,
  length, All, get_elem?, Option-cases, inl, inr, length-append,
}
use tinyrange.Files.Directory.{
  MemoryDirectory, Node, dir, file, set_node, mkdir_in, Made, made, lookup_entry,
  new_memory_directory,
}
use tinyrange.Files.Mkdir.{
  length-set_node, mkdir_in-made, mkdir_in-existing, mkdir_in-new, after_mkdir,
}
use tinyrange.Sftp.Packets.{Attrs}
use tinyrange.Server.State.{Server}
use tinyrange.Server.Attributes.{set_node_attributes, set_at, set_object}
use tinyrange.Server.Paths.{put_directory}
use tinyrange.Server.Sound.{
  EntriesKnown, Known, IsSound, All-map, All-get, All-append_one, All-set_node, Known-later,
  ListedKnown-later, create-EntriesKnown,
}

pub nodes-IsSound :
    (s : Server) (nodes : List Node)
    → IsSound s
    → length s.nodes ≤ length nodes
    → All (Known (length nodes)) nodes
    → IsSound (record s { nodes = nodes })
nodes-IsSound s nodes h le known = record {
  root_known = omega (arith, h.root_known);
  nodes_known = known;
  files_known = All-map s.open_handles (λ x lt. omega (arith, lt, le)) h.files_known;
  directories_known =
      All-map s.directory_handles
        (λ x k. (k.0, All-map x.1.entries (λ y l. ListedKnown-later _ _ y le l) k.1))
        h.directories_known;
}

-- a node in the place of another
pub set_node-Known :
    (i : ℕ) (x : Node) (nodes : List Node)
    → All (Known (length nodes)) nodes
    → Known (length nodes) x
    → All (Known (length (set_node i x nodes))) (set_node i x nodes)
set_node-Known i x nodes h k =
    subst (λ (n : ℕ). All (Known n) (set_node i x nodes)) (sym (length-set_node i x nodes))
      (All-set_node (Known (length nodes)) i x nodes h k)

pub put_directory-IsSound :
    (s : Server) (i : ℕ) (d : MemoryDirectory)
    → IsSound s
    → EntriesKnown (length s.nodes) d.entries
    → IsSound (record s { nodes = put_directory i d s.nodes })
put_directory-IsSound s i d h k =
    nodes-IsSound s (put_directory i d s.nodes) h (omega (arith, length-set_node i (dir d) s.nodes))
      (set_node-Known i (dir d) s.nodes h.nodes_known k)

-- one more node
pub append-Known :
    (nodes : List Node) (x : Node)
    → All (Known (length nodes)) nodes
    → Known (length nodes) x
    → All (Known (length (nodes ++ x ∷ []))) (nodes ++ x ∷ [])
append-Known nodes x h k =
    let le : length nodes ≤ length (nodes ++ x ∷ []) =
      omega (arith, length-append nodes (x ∷ [])) in
    All-append_one _ nodes x (All-map nodes (λ y. Known-later _ _ y le) h) (Known-later _ _ x le k)

pub append-IsSound :
    (s : Server) (x : Node)
    → IsSound s
    → Known (length s.nodes) x
    → IsSound (record s { nodes = s.nodes ++ x ∷ [] })
append-IsSound s x h k =
    nodes-IsSound s (s.nodes ++ x ∷ []) h (omega (arith, length-append s.nodes (x ∷ [])))
      (append-Known s.nodes x h.nodes_known k)

set_node_attributes-Known :
    (n : ℕ) (attrs : Attrs) (x : Node) → Known n x → Known n (set_node_attributes attrs x)
unfolding set_node_attributes
set_node_attributes-Known n attrs (file f) h = tt
set_node_attributes-Known n attrs (dir d) h = h

pub set_object-Known :
    (i : ℕ) (attrs : Attrs) (nodes : List Node)
    → All (Known (length nodes)) nodes
    → All (Known (length (set_object i attrs nodes))) (set_object i attrs nodes)
unfolding set_object set_at
set_object-Known i attrs nodes h = from (get_elem? nodes i) refl
  where
    from :
        (o : Option Node)
        → get_elem? nodes i ≡ o
        → All (Known (length (set_at o i attrs nodes))) (set_at o i attrs nodes)
    from none e = h
    from (some x) e =
        set_node-Known i (set_node_attributes attrs x) nodes h
          (set_node_attributes-Known (length nodes) attrs x (All-get _ nodes i x h e))

pub length-set_object :
    (i : ℕ) (attrs : Attrs) (nodes : List Node) → length (set_object i attrs nodes) ≡ length nodes
unfolding set_object set_at
length-set_object i attrs nodes = from (get_elem? nodes i)
  where
    from : (o : Option Node) → length (set_at o i attrs nodes) ≡ length nodes
    from none = refl
    from (some x) = length-set_node i (set_node_attributes attrs x) nodes

pub set_object-IsSound :
    (s : Server) (i : ℕ) (attrs : Attrs)
    → IsSound s
    → IsSound (record s { nodes = set_object i attrs s.nodes })
set_object-IsSound s i attrs h =
    nodes-IsSound s (set_object i attrs s.nodes) h
      (omega (arith, length-set_object i attrs s.nodes))
      (set_object-Known i attrs s.nodes h.nodes_known)

-- what `Mkdir` leaves behind when it makes or finds a directory
pub record Grown (nodes nodes' : List Node) : Type 0 where
  pub longer : length nodes ≤ length nodes'
  pub known : All (Known (length nodes')) nodes'

-- a directory is changed, and a node is added that its entries may name
pub append-Grown :
    (i : ℕ) (d : MemoryDirectory) (x : Node) (nodes : List Node)
    → All (Known (length nodes)) nodes
    → EntriesKnown (length nodes + 1) d.entries
    → Known (length nodes + 1) x
    → Grown nodes (set_node i (dir d) nodes ++ x ∷ [])
append-Grown i d x nodes h k l =
    let changed = set_node i (dir d) nodes in
    let same = length-set_node i (dir d) nodes in
    let bound : length (changed ++ x ∷ []) ≡ length nodes + 1 =
      omega (arith, same, length-append changed (x ∷ [])) in
    record {
      longer = omega arith;
      known =
          subst (λ (n : ℕ). All (Known n) (changed ++ x ∷ [])) (sym bound)
            (All-append_one _ changed x
              (All-set_node _ i (dir d) nodes
                (All-map nodes (λ y. Known-later _ _ y (omega arith)) h) k)
              l);
    }

Grown-new :
    (name : String) (now i : ℕ) (d : MemoryDirectory) (nodes : List Node)
    → All (Known (length nodes)) nodes
    → EntriesKnown (length nodes) d.entries
    → Grown nodes
        (set_node i (dir (after_mkdir name i d nodes)) nodes ++ dir (new_memory_directory now) ∷ [])
unfolding new_memory_directory lookup_entry
Grown-new name now i d nodes h k =
    append-Grown i (after_mkdir name i d nodes) (dir (new_memory_directory now)) nodes h
      (create-EntriesKnown _ (length nodes) name d (omega arith) (λ n j e. omega (arith, k n j e)))
      (λ n j e. absurd (ground arith))

pub mkdir_in-Grown :
    (name : String) (now i j : ℕ) (d : MemoryDirectory) (nodes nodes' : List Node)
    → All (Known (length nodes)) nodes
    → EntriesKnown (length nodes) d.entries
    → mkdir_in name now i d nodes ≡ (made j, nodes')
    → Grown nodes nodes'
mkdir_in-Grown name now i j d nodes nodes' h k e =
    let (a, b) = mkdir_in-made name i d nodes now j nodes' e in
    elim (Option-cases (lookup_entry name d.entries)) [
      | inl c ↦
          subst (Grown nodes)
            (ap (λ (r : Made × List Node). r.1) (sym (mkdir_in-new name i d nodes now a b c) ∙ e))
            (Grown-new name now i d nodes h k)
      | inr (g, c) ↦
          subst (Grown nodes)
            (ap (λ (r : Made × List Node). r.1)
              (sym (mkdir_in-existing name i d nodes now g a b c) ∙ e))
            (record { longer = omega arith; known = h })
    ]
