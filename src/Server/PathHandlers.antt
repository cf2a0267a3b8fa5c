-- ===== src/Server/PathHandlers.antt =====
-- The handlers that work on paths leave a sound server.

use Prim.Native.Nat.{bit_and}
use tinyrange.Prelude.{ℕ, ◌<◌, String, List, ◌==◌, arith, length, Bool-cases, inl, inr}
use tinyrange.Files.Memory.{new_symlink}
use tinyrange.Files.Directory.{MemoryDirectory, file, create, unlink}
use tinyrange.Files.Paths.{path_tokens, open_path}
use tinyrange.Sftp.Packets.{Text, Attrs}
use tinyrange.Server.State.{Server, Env, Outcome}
use tinyrange.Server.Paths.{
  lookup, lookup_parent, in_parent, pkt_open, pkt_stat, pkt_opendir, pkt_mkdir, pkt_setstat,
  unlink_old, pkt_rename, pkt_symlink, pkt_readlink, pkt_remove, path_base, dir_tokens,
}
use tinyrange.Server.Sound.{
  EntriesKnown, IsSound, create-EntriesKnown, unlink-EntriesKnown, readdir-ListedKnown,
}
use tinyrange.Server.Walks.{Within, get_child-ChildKnown, walk_root-Within}
use tinyrange.Server.Changes.{append-Grown, set_object-IsSound, nodes-IsSound}
use tinyrange.Server.Continue.{Sound, with_found-Sound, with_old-Sound, with_directory-Sound}
use tinyrange.Server.PathEffects.{
  open_child-Sound, open_created-Sound, made_reply-Sound, removed_reply-Sound, unlink_old-Sound,
  replace_new-Sound,
}

module _ (text_of : List ℕ → String) (fuel : ℕ) where
  pub lookup-Within :
      (p : Text) (s : Server) → IsSound s → Within (length s.nodes) (lookup text_of fuel p s)
  unfolding lookup open_path
  lookup-Within p s v =
      walk_root-Within s.nodes v.nodes_known text_of s.root v.root_known fuel
        (path_tokens (text_of p))

  pub lookup_parent-Within :
      (p : Text) (s : Server) → IsSound s → Within (length s.nodes) (lookup_parent text_of fuel p s)
  unfolding lookup_parent
  lookup_parent-Within p s v =
      walk_root-Within s.nodes v.nodes_known text_of s.root v.root_known fuel
        (dir_tokens (text_of p))

  pub in_parent-Sound :
      (p : Text) (k : ℕ → MemoryDirectory → Outcome) (s : Server)
      → IsSound s
      → ((i : ℕ) (d : MemoryDirectory)
          → i < length s.nodes
          → EntriesKnown (length s.nodes) d.entries
          → Sound (k i d))
      → Sound (in_parent text_of fuel p k s)
  in_parent-Sound p k s v f =
      with_found-Sound _ _ _ s v (lookup_parent-Within p s v)
        (λ i lt. with_directory-Sound s i (k i) v (λ d h e. f i d lt h))

  pub pkt_open-Sound :
      (env : Env) (p : Text) (flags : ℕ) (attrs : Attrs) (s : Server)
      → IsSound s
      → Sound (pkt_open text_of fuel env p flags attrs s)
  unfolding pkt_open
  pkt_open-Sound env p flags attrs s v = in_parent-Sound p _ s v (λ i d lt h.
      elim (Bool-cases (bit_and flags 8 == 0)) [
        | inl e ↦
            rw e
              (open_child-Sound env i _ s v lt (get_child-ChildKnown _ (path_base (text_of p)) d h))
        | inr e ↦ rw e (open_created-Sound env i (path_base (text_of p)) attrs d s v h)
      ])

  pub pkt_opendir-Sound :
      (env : Env) (p : Text) (s : Server) → IsSound s → Sound (pkt_opendir text_of fuel env p s)
  unfolding pkt_opendir
  pkt_opendir-Sound env p s v = with_found-Sound _ _ _ s v (lookup-Within p s v) (λ i lt.
      with_directory-Sound s i _ v (λ d h e. record {
        root_known = v.root_known;
        nodes_known = v.nodes_known;
        files_known = v.files_known;
        directories_known =
            ((omega arith, readdir-ListedKnown (length s.nodes) d h), v.directories_known);
      }))

  pub pkt_rename-Sound :
      (from to : Text) (s : Server) → IsSound s → Sound (pkt_rename text_of fuel from to s)
  unfolding pkt_rename
  pkt_rename-Sound from to s v = with_found-Sound _ _ _ s v (lookup-Within from s v) (λ object lt.
      with_old-Sound (lookup_parent text_of fuel from s) _ s v (λ i.
        with_directory-Sound s i _ v (λ old h e. in_parent-Sound to _ s v (λ j d jt k.
          replace_new-Sound j (path_base (text_of to)) object
            (unlink_old i (path_base (text_of from))) s v lt
            (λ t w. unlink_old-Sound i (path_base (text_of from)) t w)))))

  pub pkt_symlink-Sound :
      (path target : Text) (s : Server) → IsSound s → Sound (pkt_symlink text_of fuel path target s)
  unfolding pkt_symlink
  pkt_symlink-Sound path target s v =
      with_found-Sound _ _ _ s v (lookup_parent-Within path s v) (λ i lt.
        with_directory-Sound s i _ v (λ d h e.
          let g =
            append-Grown i (create (path_base (text_of path)) (length s.nodes) d).1
              (file (new_symlink target)) s.nodes v.nodes_known
              (create-EntriesKnown _ (length s.nodes) (path_base (text_of path)) d (omega arith)
                (λ k j e'. omega (arith, h k j e')))
              tt in
          nodes-IsSound s _ v g.longer g.known))

  pub pkt_mkdir-Sound :
      (env : Env) (p : Text) (attrs : Attrs) (s : Server)
      → IsSound s
      → Sound (pkt_mkdir text_of fuel env p attrs s)
  unfolding pkt_mkdir
  pkt_mkdir-Sound env p attrs s v =
      in_parent-Sound p _ s v
        (λ i d lt h. made_reply-Sound attrs s (path_base (text_of p)) env.now i d v h)

  pub pkt_remove-Sound : (p : Text) (s : Server) → IsSound s → Sound (pkt_remove text_of fuel p s)
  unfolding pkt_remove
  pkt_remove-Sound p s v = in_parent-Sound p _ s v (λ i d lt h.
      removed_reply-Sound i (unlink (path_base (text_of p)) d) s v
        (unlink-EntriesKnown _ (path_base (text_of p)) d h))

  pub pkt_setstat-Sound :
      (p : Text) (attrs : Attrs) (s : Server)
      → IsSound s
      → Sound (pkt_setstat text_of fuel p attrs s)
  unfolding pkt_setstat
  pkt_setstat-Sound p attrs s v =
      with_found-Sound _ _ _ s v (lookup-Within p s v) (λ i lt. set_object-IsSound s i attrs v)

  pub pkt_stat-Sound : (p : Text) (s : Server) → IsSound s → Sound (pkt_stat text_of fuel p s)
  unfolding pkt_stat
  pkt_stat-Sound p s v = with_found-Sound _ _ _ s v (lookup-Within p s v) (λ i lt. v)

  pub pkt_readlink-Sound :
      (p : Text) (s : Server) → IsSound s → Sound (pkt_readlink text_of fuel p s)
  unfolding pkt_readlink
  pkt_readlink-Sound p s v = with_found-Sound _ _ _ s v (lookup-Within p s v) (λ i lt. v)
