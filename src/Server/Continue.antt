-- ===== src/Server/Continue.antt =====
-- What follows a lookup in a handler leaves a sound server if its parts do.

use tinyrange.Prelude.{ℕ, ◌<◌, ◌≡◌, refl, String, Option, none, some, length, get_elem?}
use tinyrange.Files.Memory.{FsError}
use tinyrange.Files.Directory.{MemoryDirectory, Node, dir, file}
use tinyrange.Files.Paths.{Walk, reached, walk_error}
use tinyrange.Server.State.{Server, Outcome, with_found, with_directory, with_ok, with_handle}
use tinyrange.Server.Paths.{put_directory, change_directory, with_old}
use tinyrange.Server.Sound.{EntriesKnown, IsSound, All-get}
use tinyrange.Server.Walks.{Within}
use tinyrange.Server.Changes.{put_directory-IsSound}

-- The outcome leaves a sound server.
abbrev pub Sound : Outcome → Type 0
Sound o = IsSound o.1

pub with_found-Sound :
    (w : Option Walk) (message : String) (k : ℕ → Outcome) (s : Server)
    → IsSound s
    → Within (length s.nodes) w
    → ((i : ℕ) → i < length s.nodes → Sound (k i))
    → Sound (with_found w message k s)
unfolding with_found
with_found-Sound none message k s h w f = h
with_found-Sound (some (walk_error e)) message k s h w f = h
with_found-Sound (some (reached i)) message k s h w f = f i w

pub with_old-Sound :
    (w : Option Walk) (k : ℕ → Outcome) (s : Server)
    → IsSound s
    → ((i : ℕ) → Sound (k i))
    → Sound (with_old w k s)
with_old-Sound none k s h f = h
with_old-Sound (some (walk_error e)) k s h f = h
with_old-Sound (some (reached i)) k s h f = f i

-- the directory that is handed on has entries that are known
pub with_directory-Sound :
    (s : Server) (i : ℕ) (k : MemoryDirectory → Outcome)
    → IsSound s
    → ((d : MemoryDirectory)
        → EntriesKnown (length s.nodes) d.entries
        → get_elem? s.nodes i ≡ some (dir d)
        → Sound (k d))
    → Sound (with_directory (get_elem? s.nodes i) k s)
unfolding with_directory
with_directory-Sound s i k h f = from (get_elem? s.nodes i) refl
  where
    from : (o : Option Node) → get_elem? s.nodes i ≡ o → Sound (with_directory o k s)
    from none e = h
    from (some (file x)) e = h
    from (some (dir d)) e = f d (All-get _ s.nodes i (dir d) h.nodes_known e) e

pub change_directory-Sound :
    (s : Server) (i : ℕ) (r : Option FsError × MemoryDirectory) (k : Server → Outcome)
    → IsSound s
    → EntriesKnown (length s.nodes) r.1.entries
    → (IsSound (record s { nodes = put_directory i r.1 s.nodes })
        → Sound (k (record s { nodes = put_directory i r.1 s.nodes })))
    → Sound (change_directory i r k s)
unfolding with_ok
change_directory-Sound s i (some e, d) k h known f = h
change_directory-Sound s i (none, d) k h known f = f (put_directory-IsSound s i d h known)

pub with_handle-Sound :
    {A : Type 0} (o : Option A) (k : A → Outcome) (s : Server)
    → IsSound s
    → ((a : A) → o ≡ some a → Sound (k a))
    → Sound (with_handle o k s)
unfolding with_handle
with_handle-Sound none k s h f = h
with_handle-Sound (some a) k s h f = f a refl
