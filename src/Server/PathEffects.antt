-- ===== src/Server/PathEffects.antt =====
-- The parts of the handlers that work on paths leave a sound server.

use tinyrange.Prelude.{
  ℕ, ◌<◌, ◌≡◌, refl, String, Option, none, some, List, [], ◌∷◌, ◌++◌, arith, length, get_elem?,
  length-append,
}
use tinyrange.Files.Memory.{FsError, regular, new_memory_file}
use tinyrange.Files.Directory.{
  MemoryDirectory, Node, dir, file, Child, itself, entry, no_child, create, unlink, mkdir_in, Made,
  made, not_made,
}
use tinyrange.Files.Mkdir.{length-set_node}
use tinyrange.Sftp.Packets.{Attrs}
use tinyrange.Server.State.{Server, Env, Outcome, with_directory, panicked, ok_status}
use tinyrange.Server.Attributes.{set_object, set_attributes}
use tinyrange.Server.Paths.{
  put_directory, change_directory, forgiven, open_object, open_created, open_child, made_reply,
  removed_reply, unlink_old, replace_new,
}
use tinyrange.Server.Sound.{EntriesKnown, IsSound, create-EntriesKnown, unlink-EntriesKnown}
use tinyrange.Server.Walks.{ChildKnown}
use tinyrange.Server.Changes.{
  put_directory-IsSound, append-IsSound, mkdir_in-Grown, nodes-IsSound, set_object-Known,
  length-set_object,
}
use tinyrange.Server.Continue.{Sound, with_directory-Sound, change_directory-Sound}

pub open_object-Sound :
    (env : Env) (i : ℕ) (o : Option Node) (s : Server)
    → IsSound s
    → i < length s.nodes
    → Sound (open_object env i o s)
open_object-Sound env i none s v lt = v
open_object-Sound env i (some (dir d)) s v lt = v
open_object-Sound env i (some (file f)) s v lt = record {
  root_known = v.root_known;
  nodes_known = v.nodes_known;
  files_known = (lt, v.files_known);
  directories_known = v.directories_known;
}

pub open_child-Sound :
    (env : Env) (i : ℕ) (c : Child) (s : Server)
    → IsSound s
    → i < length s.nodes
    → ChildKnown (length s.nodes) c
    → Sound (open_child env i c s)
open_child-Sound env i itself s v lt h = open_object-Sound env i (get_elem? s.nodes i) s v lt
open_child-Sound env i (entry j name) s v lt h = open_object-Sound env j (get_elem? s.nodes j) s v h
open_child-Sound env i (no_child e) s v lt h = v

pub open_created-Sound :
    (env : Env) (i : ℕ) (base : String) (attrs : Attrs) (d : MemoryDirectory) (s : Server)
    → IsSound s
    → EntriesKnown (length s.nodes) d.entries
    → Sound (open_created env i base attrs d s)
open_created-Sound env i base attrs d s v h =
    let f = file (set_attributes attrs (new_memory_file regular env.now)) in
    let longer = length-append s.nodes (f ∷ []) in
    change_directory-Sound (record s { nodes = s.nodes ++ f ∷ [] }) i
      (create base (length s.nodes) d) (λ t. (panicked, t)) (append-IsSound s f v tt)
      (create-EntriesKnown _ (length s.nodes) base d (omega arith)
        (λ k j e. omega (arith, h k j e)))
      (λ k. k)

pub made_reply-Sound :
    (attrs : Attrs) (s : Server) (name : String) (now i : ℕ) (d : MemoryDirectory)
    → IsSound s
    → EntriesKnown (length s.nodes) d.entries
    → Sound (made_reply attrs s (mkdir_in name now i d s.nodes))
made_reply-Sound attrs s name now i d v h = from (mkdir_in name now i d s.nodes) refl
  where
    from : (r : Made × List Node) → mkdir_in name now i d s.nodes ≡ r → Sound (made_reply attrs s r)
    from (not_made x, nodes) e = v
    from (made j, nodes) e =
        let g = mkdir_in-Grown name now i j d s.nodes nodes v.nodes_known h e in
        nodes-IsSound s (set_object j attrs nodes) v
          (omega (arith, g.longer, length-set_object j attrs nodes))
          (set_object-Known j attrs nodes g.known)

pub removed_reply-Sound :
    (i : ℕ) (r : Option FsError × MemoryDirectory) (s : Server)
    → IsSound s
    → EntriesKnown (length s.nodes) r.1.entries
    → Sound (removed_reply i r s)
removed_reply-Sound i (some e, d) s v h = v
removed_reply-Sound i (none, d) s v h = put_directory-IsSound s i d v h

pub unlink_old-Sound :
    (i : ℕ) (base : String) (s : Server) → IsSound s → Sound (unlink_old i base s)
unlink_old-Sound i base s v = with_directory-Sound s i _ v (λ d h e.
    change_directory-Sound s i (unlink base d) (λ t. (ok_status, t)) v
      (unlink-EntriesKnown _ base d h) (λ k. k))

length-put_directory :
    (i : ℕ) (d : MemoryDirectory) (nodes : List Node)
    → length (put_directory i d nodes) ≡ length nodes
length-put_directory i d nodes = length-set_node i (dir d) nodes

pub replace_new-Sound :
    (i : ℕ) (base : String) (object : ℕ) (k : Server → Outcome) (s : Server)
    → IsSound s
    → object < length s.nodes
    → ((t : Server) → IsSound t → Sound (k t))
    → Sound (replace_new i base object k s)
replace_new-Sound i base object k s v lt f = with_directory-Sound s i _ v (λ d h e.
    let t = record s { nodes = put_directory i (unlink base d).1 s.nodes } in
    change_directory-Sound s i (forgiven (unlink base d))
      (λ u.
        with_directory (get_elem? u.nodes i) (λ d'. change_directory i (create base object d') k u)
          u)
      v (unlink-EntriesKnown _ base d h)
      (λ w.
        with_directory-Sound t i (λ d'. change_directory i (create base object d') k t) w
          (λ d' h' e'.
            change_directory-Sound t i (create base object d') k w
              (create-EntriesKnown _ object base d'
                (omega (arith, lt, length-put_directory i (unlink base d).1 s.nodes)) h')
              (λ x. f _ x))))
