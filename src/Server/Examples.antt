-- ===== src/Server/Examples.antt =====
-- The theorems on the SFTP server at a small file system.
use tinyrange.Prelude.{ℕ, ◌≡◌, ◌≢◌, refl, String, some, List, [], ◌∷◌, arith, All}
use tinyrange.Wire.Writer.{buffer}
use tinyrange.Wire.Numbers.{put_uint, bytes_le}
use tinyrange.Files.Memory.{regular, new_memory_file}
use tinyrange.Files.Directory.{MemoryDirectory, Node, dir, file, new_memory_directory, lookup_entry}
use tinyrange.Sftp.Packets.{Text, Request, init, opendir, readdir, remove, realpath}
use tinyrange.Server.State.{
  DirectoryHandle, panicked, Server, Env, new_server, lookup_handle, text_eq,
}
use tinyrange.Files.Memory.{file_size}
use tinyrange.Files.Directory.{readdir as read_entries, list_names, get_child}
use tinyrange.Files.Paths.{
  split_slash, trim_slash, is_rooted, clean, path_tokens, child_of, walk_tokens, resolve_directory,
  open_path,
}
use tinyrange.Server.State.{with_found, with_directory, with_handle, ascii, fs_reply}
use tinyrange.Server.Attributes.{info_to_attrs, node_file, mode_kind, unix_time}
use tinyrange.Server.Handles.{pkt_init, pkt_readdir, list_from, set_off}
use tinyrange.Server.Paths.{lookup, pkt_opendir, pkt_realpath}
use tinyrange.Server.Dispatch.{handle_packet, serve_sftp}
use tinyrange.Server.Sessions.{Fits, AnswersFit, request_stream, session, serve_sftp-session}
use tinyrange.Server.Listing.{names_in, read_to_end, read_to_end_total}
use tinyrange.Server.Sound.{EntriesKnown, IsSound}
use tinyrange.Server.Invariant.{HasFile, handle_packet-IsSound}

abbrev name_of_bytes : List ℕ → String
name_of_bytes [] = ""
name_of_bytes (c ∷ []) = "/"
name_of_bytes (c ∷ (d ∷ cs)) = "/motd"

abbrev root : MemoryDirectory
root = record (new_memory_directory 5) { names = "motd" ∷ []; entries = ("motd", 1) ∷ [] }

abbrev tree : List Node
tree = dir root ∷ file (new_memory_file regular 5) ∷ []

abbrev served : Server
served = new_server tree 0

abbrev env : ℕ → Env
env n = record { fresh = n ∷ []; now = 7 }

abbrev asked : List (Request × ℕ)
asked = (init 3, 0) ∷ (realpath (46 ∷ []), 1) ∷ (opendir (47 ∷ []), 2) ∷ (readdir (2 ∷ []), 3) ∷ []

asked-Fits : All Fits asked
unfolding put_uint bytes_le
asked-Fits = (
  (omega arith, omega arith, omega arith),
  (
    (omega arith, omega arith, omega arith),
    ((omega arith, omega arith, omega arith), ((omega arith, omega arith, omega arith), tt)),
  ),
)

answers-Fit : AnswersFit name_of_bytes 4 env asked served
unfolding handle_packet pkt_init pkt_realpath pkt_opendir pkt_readdir lookup with_found
    with_directory with_handle lookup_handle text_eq list_from set_off info_to_attrs node_file
    file_size mode_kind unix_time new_memory_file new_memory_directory open_path path_tokens
    walk_tokens child_of split_slash clean trim_slash read_entries list_names lookup_entry put_uint
    bytes_le ascii fs_reply resolve_directory is_rooted get_child
answers-Fit = (
  tt,
  omega arith,
  (
    (omega arith, (omega arith, omega arith, tt)),
    omega arith,
    (omega arith, omega arith, ((omega arith, (omega arith, omega arith, tt)), omega arith, tt)),
  ),
)

serve_sftp-session_example :
    serve_sftp name_of_bytes 4 env 5 (request_stream asked) served buffer
    ≡ session name_of_bytes 4 env asked served []
serve_sftp-session_example =
    serve_sftp-session name_of_bytes 4 env asked served [] asked-Fits answers-Fit

abbrev listing : Server
listing = record served {
  directory_handles = (9 ∷ [], record { entries = ("motd", some 1) ∷ []; off = 0 }) ∷ [];
}

read_to_end_total_example :
    read_to_end 2 (9 ∷ []) listing ≡ some (names_in tree (("motd", some 1) ∷ []))
unfolding lookup_handle text_eq
read_to_end_total_example =
    read_to_end_total 2 (9 ∷ []) listing (record { entries = ("motd", some 1) ∷ []; off = 0 }) refl
      ((file (new_memory_file regular 5), refl), tt) (omega arith)

root-known : EntriesKnown 2 root.entries
unfolding lookup_entry new_memory_directory
root-known k j e = ground (arith, e)

listing-IsSound : IsSound listing
listing-IsSound = record {
  root_known = omega arith;
  nodes_known = (root-known, (tt, tt));
  files_known = tt;
  directories_known = ((omega arith, (omega arith, tt)), tt);
}

handle_packet-IsSound_example :
    IsSound (handle_packet name_of_bytes 4 (env 1) (remove (47 ∷ 109 ∷ [])) listing).1
    × ((h : Text) (d : DirectoryHandle)
        → lookup_handle h listing.directory_handles ≡ some d
        → All HasFile d.entries
        → (handle_packet name_of_bytes 4 (env 1) (readdir h) listing).0 ≢ panicked)
handle_packet-IsSound_example =
    handle_packet-IsSound name_of_bytes 4 (env 1) (remove (47 ∷ 109 ∷ [])) listing listing-IsSound
