-- ===== src/Server/Invariant.antt =====
-- Every request keeps a server sound, however its handler ends.

use tinyrange.Prelude.{
  ℕ, zero, suc, ◌<◌, ◌≡◌, ◌≢◌, ◌∙◌, refl, sym, ap, String, Option, none, some, List, [], ◌∷◌, arith,
  length, All, drop, get_elem?,
}
use tinyrange.Files.Directory.{Node}
use tinyrange.Sftp.Packets.{
  Text, Name, Request, init, open_file, close, read, write, remove, rename, mkdir, rmdir, opendir,
  readdir as readdir_request, stat, lstat, fstat, setstat, fsetstat, readlink, symlink, realpath,
}
use tinyrange.Server.State.{Server, Env, Outcome, panicked, DirectoryHandle, lookup_handle}
use tinyrange.Server.Handles.{listed_reply, pkt_readdir}
use tinyrange.Server.Listing.{HasObject, All-drop, pkt_readdir-listed}
use tinyrange.Server.Paths.{pkt_realpath}
use tinyrange.Server.Dispatch.{handle_packet}
use tinyrange.Server.Sound.{IsSound, ListedKnown, All-map, All-lookup_handle}
use tinyrange.Server.HandleEffects.{
  pkt_close-Sound, pkt_readdir-Sound, pkt_init-Sound, pkt_read-Sound, pkt_write-Sound,
  pkt_fstat-Sound, pkt_fsetstat-Sound,
}
use tinyrange.Server.PathHandlers.{
  pkt_open-Sound, pkt_opendir-Sound, pkt_rename-Sound, pkt_symlink-Sound, pkt_mkdir-Sound,
  pkt_remove-Sound, pkt_setstat-Sound, pkt_stat-Sound, pkt_readlink-Sound,
}

handle_packet-Sound :
    (text_of : List ℕ → String) (links : ℕ) (env : Env) (r : Request) (s : Server)
    → IsSound s
    → IsSound (handle_packet text_of links env r s).1
unfolding handle_packet pkt_realpath
handle_packet-Sound text_of links env (init x) s v = pkt_init-Sound x s v
handle_packet-Sound text_of links env (open_file p flags attrs) s v =
    pkt_open-Sound text_of links env p flags attrs s v
handle_packet-Sound text_of links env (close h) s v = pkt_close-Sound h s v
handle_packet-Sound text_of links env (read h offset len) s v = pkt_read-Sound h offset len s v
handle_packet-Sound text_of links env (write h offset bytes) s v =
    pkt_write-Sound h offset bytes s v
handle_packet-Sound text_of links env (remove p) s v = pkt_remove-Sound text_of links p s v
handle_packet-Sound text_of links env (rename from to) s v =
    pkt_rename-Sound text_of links from to s v
handle_packet-Sound text_of links env (mkdir p attrs) s v =
    pkt_mkdir-Sound text_of links env p attrs s v
handle_packet-Sound text_of links env (rmdir p) s v = pkt_remove-Sound text_of links p s v
handle_packet-Sound text_of links env (opendir p) s v = pkt_opendir-Sound text_of links env p s v
handle_packet-Sound text_of links env (readdir_request h) s v = pkt_readdir-Sound h s v
handle_packet-Sound text_of links env (stat p) s v = pkt_stat-Sound text_of links p s v
handle_packet-Sound text_of links env (lstat p) s v = pkt_stat-Sound text_of links p s v
handle_packet-Sound text_of links env (fstat h) s v = pkt_fstat-Sound h s v
handle_packet-Sound text_of links env (setstat p attrs) s v =
    pkt_setstat-Sound text_of links p attrs s v
handle_packet-Sound text_of links env (fsetstat h attrs) s v = pkt_fsetstat-Sound h attrs s v
handle_packet-Sound text_of links env (readlink p) s v = pkt_readlink-Sound text_of links p s v
handle_packet-Sound text_of links env (symlink path target) s v =
    pkt_symlink-Sound text_of links path target s v
handle_packet-Sound text_of links env (realpath p) s v = v

-- the entry has an object
abbrev pub HasFile : String × Option ℕ → Type 0
HasFile (name, o) = o ≢ none

get_elem?-within :
    (nodes : List Node) (j : ℕ) → j < length nodes → (n : Node) × (get_elem? nodes j ≡ some n)
get_elem?-within [] j lt = absurd (omega arith)
get_elem?-within (n ∷ nodes) zero lt = (n, refl)
get_elem?-within (n ∷ nodes) (suc j) lt = get_elem?-within nodes j (omega arith)

HasFile-HasObject :
    (nodes : List Node) (entries : List (String × Option ℕ))
    → All (ListedKnown (length nodes)) entries
    → All HasFile entries
    → All (HasObject nodes) entries
HasFile-HasObject nodes [] h k = tt
HasFile-HasObject nodes ((name, none) ∷ entries) (g, h) (f, k) = absurd (f refl)
HasFile-HasObject nodes ((name, some j) ∷ entries) (g, h) (f, k) =
    (get_elem?-within nodes j g, HasFile-HasObject nodes entries h k)

listed_reply-answers : (ns : List Name) → listed_reply (some ns) ≢ panicked
listed_reply-answers [] e = cc e
listed_reply-answers (n ∷ ns) e = cc e

pkt_readdir-answers :
    (h : Text) (s : Server) (d : DirectoryHandle)
    → IsSound s
    → lookup_handle h s.directory_handles ≡ some d
    → All HasFile d.entries
    → (pkt_readdir h s).0 ≢ panicked
pkt_readdir-answers h s d v e k p =
    let known =
      All-lookup_handle (λ (x : DirectoryHandle). All (ListedKnown (length s.nodes)) x.entries) h
        s.directory_handles d (All-map s.directory_handles (λ x y. y.1) v.directories_known) e in
    let there =
      All-drop (HasObject s.nodes) d.off d.entries (HasFile-HasObject s.nodes d.entries known k) in
    let listed = pkt_readdir-listed h s d (drop d.off d.entries) e refl there in
    listed_reply-answers _ (sym (ap (λ (o : Outcome). o.0) listed) ∙ p)

-- A request leaves a sound server sound, whatever the answer: every entry of a directory and every open
-- file names an object that is there, and so does every entry of a listing that is being read, unless it
-- has no object at all, as an unlinked name has none; and no listing is read past its end. A
-- readdir on a sound server does not panic where every entry of its listing has an object.
pub handle_packet-IsSound :
    (text_of : List ℕ → String) (links : ℕ) (env : Env) (r : Request) (s : Server)
    → IsSound s
    → IsSound (handle_packet text_of links env r s).1
      × ((h : Text) (d : DirectoryHandle)
          → lookup_handle h s.directory_handles ≡ some d
          → All HasFile d.entries
          → (handle_packet text_of links env (readdir_request h) s).0 ≢ panicked)
unfolding handle_packet
handle_packet-IsSound text_of links env r s v =
    (handle_packet-Sound text_of links env r s v, λ h d e k. pkt_readdir-answers h s d v e k)
