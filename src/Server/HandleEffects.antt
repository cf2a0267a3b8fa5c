-- ===== src/Server/HandleEffects.antt =====
-- The handlers that work on handles leave a sound server.
use mathlib.Core.Path.{subst}
use tinyrange.Prelude.{
  ℕ, zero, suc, ◌+◌, ◌≤◌, ◌<◌, ◌≡◌, refl, sym, String, Option, none, some, List, [], ◌∷◌, ◌==◌,
  arith, length, All, get_elem?, Bool-cases, inl, inr,
}
use tinyrange.Files.Directory.{Node}
use tinyrange.Files.Size.{get_elem?-lt}
use tinyrange.Sftp.Packets.{Text, Attrs}
use tinyrange.Server.State.{Server, FileHandle, DirectoryHandle, lookup_handle, text_eq}
use tinyrange.Server.Handles.{
  pkt_init, pkt_close, close_with, close_directory, pkt_read, pkt_write, pkt_fstat, pkt_fsetstat,
  pkt_readdir, set_off, list_from, list_entry, list_object, object_at, Listed,
}
use tinyrange.Server.Sound.{DirectoryKnown, IsSound, All-lookup_handle, All-map, All-delete_handle}
use tinyrange.Server.Changes.{set_object-IsSound}
use tinyrange.Server.Continue.{Sound, with_handle-Sound}

pub pkt_close-Sound : (h : Text) (s : Server) → IsSound s → Sound (pkt_close h s)
unfolding pkt_close
pkt_close-Sound h s v = files (lookup_handle h s.open_handles)
  where
    directories : (o : Option DirectoryHandle) → Sound (close_directory h s o)
    directories none = v
    directories (some d) = record {
      root_known = v.root_known;
      nodes_known = v.nodes_known;
      files_known = v.files_known;
      directories_known = All-delete_handle _ h s.directory_handles v.directories_known;
    }

    files : (o : Option FileHandle) → Sound (close_with h s o)
    files none = directories (lookup_handle h s.directory_handles)
    files (some f) = record {
      root_known = v.root_known;
      nodes_known = v.nodes_known;
      files_known = All-delete_handle _ h s.open_handles v.files_known;
      directories_known = v.directories_known;
    }

-- the offset behind a round of the loop stays within the entries
pub list_from-bound :
    (nodes : List Node) (entries : List (String × Option ℕ)) (left off : ℕ)
    → off ≤ length entries
    → (list_from nodes entries left off).1 ≤ length entries
unfolding list_from
list_from-bound nodes entries zero off le = le
list_from-bound nodes entries (suc left) off le =
    at (get_elem? entries off) refl
      (λ lt. list_from-bound nodes entries left (off + 1) (omega (arith, lt)))
  where
    named :
        (n : Option Node) (l : Listed)
        → l.1 ≤ length entries
        → off < length entries
        → (list_object l off n).1 ≤ length entries
    named none l h lt = omega (arith, lt)
    named (some n) (none, x) h lt = h
    named (some n) (some ns, x) h lt = h

    at :
        (o : Option (String × Option ℕ))
        → get_elem? entries off ≡ o
        → (off < length entries → (list_from nodes entries left (off + 1)).1 ≤ length entries)
        → (list_entry nodes (list_from nodes entries left (off + 1)) off o).1 ≤ length entries
    at none e ih = le
    at (some (name, o)) e ih =
        let lt = get_elem?-lt entries off (name, o) e in
        named (object_at nodes o) (list_from nodes entries left (off + 1)) (ih lt) lt

pub set_off-Known :
    (n : ℕ) (h : Text) (off : ℕ) (m : List (Text × DirectoryHandle)) (d : DirectoryHandle)
    → lookup_handle h m ≡ some d
    → off ≤ length d.entries
    → All (DirectoryKnown n) m
    → All (DirectoryKnown n) (set_off h off m)
unfolding set_off lookup_handle
set_off-Known n h off [] d e le k = tt
set_off-Known n h off ((t, x) ∷ m) d e le ((a, b), k) = elim (Bool-cases (text_eq t h)) [
  | inl f ↦
      let same : x ≡ d = cc (rw f at e) in
      rw f ((subst (λ (y : DirectoryHandle). off ≤ length y.entries) (sym same) le, b), k)
  | inr f ↦ rw f ((a, b), set_off-Known n h off m d (rw f at e) le k)
]

pub pkt_readdir-Sound : (h : Text) (s : Server) → IsSound s → Sound (pkt_readdir h s)
unfolding pkt_readdir
pkt_readdir-Sound h s v = with_handle-Sound (lookup_handle h s.directory_handles) _ s v (λ d e.
    record {
      root_known = v.root_known;
      nodes_known = v.nodes_known;
      files_known = v.files_known;
      directories_known =
          set_off-Known (length s.nodes) h _ s.directory_handles d e
            (list_from-bound s.nodes d.entries 20 d.off (off_known d e)) v.directories_known;
    })
  where
    off_known :
        (d : DirectoryHandle)
        → lookup_handle h s.directory_handles ≡ some d
        → d.off ≤ length d.entries
    off_known d e =
        All-lookup_handle (λ (x : DirectoryHandle). x.off ≤ length x.entries) h s.directory_handles
          d (All-map s.directory_handles (λ x k. k.0) v.directories_known) e

pub pkt_init-Sound : (x : ℕ) (s : Server) → IsSound s → Sound (pkt_init x s)
unfolding pkt_init
pkt_init-Sound x s v = elim (Bool-cases (x == 3)) [ inl e ↦ rw e v | inr e ↦ rw e v ]

pub pkt_read-Sound :
    (h : Text) (offset len : ℕ) (s : Server) → IsSound s → Sound (pkt_read h offset len s)
unfolding pkt_read
pkt_read-Sound h offset len s v =
    with_handle-Sound (lookup_handle h s.open_handles) _ s v (λ f e. v)

pub pkt_write-Sound :
    (h : Text) (offset : ℕ) (bytes : List ℕ) (s : Server)
    → IsSound s
    → Sound (pkt_write h offset bytes s)
unfolding pkt_write
pkt_write-Sound h offset bytes s v =
    with_handle-Sound (lookup_handle h s.open_handles) _ s v (λ f e. v)

pub pkt_fstat-Sound : (h : Text) (s : Server) → IsSound s → Sound (pkt_fstat h s)
unfolding pkt_fstat
pkt_fstat-Sound h s v = with_handle-Sound (lookup_handle h s.open_handles) _ s v (λ f e. v)

pub pkt_fsetstat-Sound :
    (h : Text) (attrs : Attrs) (s : Server) → IsSound s → Sound (pkt_fsetstat h attrs s)
unfolding pkt_fsetstat
pkt_fsetstat-Sound h attrs s v =
    with_handle-Sound (lookup_handle h s.open_handles) _ s v
      (λ f e. set_object-IsSound s f.object attrs v)
