-- ===== src/Server/Listing.antt =====
-- `PktReadDir` of pkg/sftp/sshfs.go, call after call.
use Prim.Native.Nat.{bit_and, bit_or}
use tinyrange.Prelude.{
  ℕ, zero, suc, ◌+◌, ◌-◌, ◌*◌, ◌%◌, ◌^◌, ◌≤◌, ◌≡◌, ◌∙◌, refl, sym, ap, String, Option, none, some,
  List, [], ◌∷◌, ◌++◌, arith, length, All, take, drop, get_elem?, Bool-cases, inl, inr,
}
use tinyrange.Files.Memory.{MemoryFile, file_size}
use tinyrange.Files.Directory.{Node, dir, file}
use tinyrange.Server.Attributes.{mode_kind, unix_time, info_to_attrs, node_file}
use tinyrange.Sftp.Packets.{Text, Name, version, attributes, handle, names, contents, status}
use tinyrange.Server.State.{
  Server, DirectoryHandle, Outcome, reply, refused, panicked, unfinished, lookup_handle, text_eq,
  with_handle,
}
use tinyrange.Server.Handles.{
  name_of, object_at, list_from, listed_reply, read_listed, set_off, pkt_readdir,
}

-- what the object of an entry holds of its attributes
abbrev object_file : Node → MemoryFile
object_file (file f) = f
object_file (dir d) = d.attributes

-- A name as a client is shown it: no text at all, and every attribute of the object.
abbrev pub shown : Node → Name
shown n = record {
  filename = [];
  longname = [];
  attrs = record {
    flags = 1 + 2 + 4 + 8;
    size = length (object_file n).contents;
    uid = (object_file n).uid % 2 ^ 32;
    gid = (object_file n).gid % 2 ^ 32;
    permissions = bit_or (bit_and (object_file n).mode 511) (mode_kind (object_file n).mode);
    atime = 0;
    mtime = ((object_file n).m_time + (2 ^ 64 - 62135596800)) % 2 ^ 32;
  };
}

name_of-shown : (n : Node) → name_of n ≡ shown n
unfolding info_to_attrs node_file file_size unix_time
name_of-shown (file f) = refl
name_of-shown (dir d) = refl

abbrev name_at : Option Node → List Name → List Name
name_at none ns = ns
name_at (some n) ns = shown n ∷ ns

-- what a client is shown of the entries that have an object
abbrev pub names_in : List Node → List (String × Option ℕ) → List Name
names_in nodes [] = []
names_in nodes ((name, o) ∷ entries) = name_at (object_at nodes o) (names_in nodes entries)

-- the entry has an object
abbrev pub HasObject : List Node → String × Option ℕ → Type 0
HasObject nodes (name, o) = (n : Node) × (object_at nodes o ≡ some n)

drop-suc :
    {A : Type 0} (off : ℕ) (xs : List A) (y : A) (ys : List A)
    → drop off xs ≡ y ∷ ys
    → (get_elem? xs off ≡ some y) × (drop (suc off) xs ≡ ys)
drop-suc zero [] y ys h = absurd (ground arith)
drop-suc zero (x ∷ xs) y ys h = (cc h, cc h)
drop-suc (suc off) [] y ys h = absurd (ground arith)
drop-suc (suc off) (x ∷ xs) y ys h = drop-suc off xs y ys h

drop-step :
    {A : Type 0} (off : ℕ) (xs : List A) (y : A) (ys : List A)
    → drop off xs ≡ y ∷ ys
    → (get_elem? xs off ≡ some y) × (drop (off + 1) xs ≡ ys)
drop-step off xs y ys h =
    let (here, later) = drop-suc off xs y ys h in
    let same : off + 1 ≡ suc off = omega arith in (here, ap (λ (k : ℕ). drop k xs) same ∙ later)

drop-plus :
    {A : Type 0} (n off : ℕ) (xs ys : List A)
    → drop off xs ≡ ys
    → drop (off + length (take n ys)) xs ≡ drop n ys
drop-plus zero off xs ys h =
    let same : off + 0 ≡ off = omega arith in ap (λ (k : ℕ). drop k xs) same ∙ h
drop-plus (suc n) off xs [] h =
    let same : off + 0 ≡ off = omega arith in ap (λ (k : ℕ). drop k xs) same ∙ h
drop-plus (suc n) off xs (y ∷ ys) h =
    let same : off + suc (length (take n ys)) ≡ (off + 1) + length (take n ys) = omega arith in
    ap (λ (k : ℕ). drop k xs) same ∙ drop-plus n (off + 1) xs ys (drop-step off xs y ys h).1

take-drop : {A : Type 0} (n : ℕ) (xs : List A) → take n xs ++ drop n xs ≡ xs
take-drop zero xs = refl
take-drop (suc n) [] = refl
take-drop (suc n) (x ∷ xs) = ap (λ (l : List _). x ∷ l) (take-drop n xs)

length-drop : {A : Type 0} (n : ℕ) (xs : List A) → length (drop n xs) ≡ length xs - n
length-drop zero xs = omega arith
length-drop (suc n) [] = omega arith
length-drop (suc n) (x ∷ xs) = omega (arith, length-drop n xs)

pub All-drop : {A : Type 0} (P : A → Type 0) (n : ℕ) (xs : List A) → All P xs → All P (drop n xs)
All-drop P zero xs h = h
All-drop P (suc n) [] h = h
All-drop P (suc n) (x ∷ xs) (h, k) = All-drop P n xs k

drop-end : {A : Type 0} (off : ℕ) (xs : List A) → drop off xs ≡ [] → get_elem? xs off ≡ none
drop-end zero [] h = refl
drop-end zero (x ∷ xs) h = absurd (ground arith)
drop-end (suc off) [] h = refl
drop-end (suc off) (x ∷ xs) h = drop-end off xs h

module _ (nodes : List Node) (entries : List (String × Option ℕ)) where
  list_from-drop :
      (left off : ℕ) (es : List (String × Option ℕ))
      → drop off entries ≡ es
      → All (HasObject nodes) es
      → list_from nodes entries left off
        ≡ (some (names_in nodes (take left es)), off + length (take left es))
  unfolding list_from
  list_from-drop zero off es e h = ap (λ (k : ℕ). (some [], k)) (omega arith)
  list_from-drop (suc left) off [] e h =
      rw (drop-end off entries e) (ap (λ (k : ℕ). (some [], k)) (omega arith))
  list_from-drop (suc left) off ((name, o) ∷ es) e ((n, at), h) =
      let (here, later) = drop-step off entries (name, o) es e in
      rw (here, at, list_from-drop left (off + 1) es later h, name_of-shown n)
        (ap (λ (k : ℕ). (some (shown n ∷ names_in nodes (take left es)), k)) (omega arith))

name_at-append : (n : Option Node) (xs ys : List Name) → name_at n (xs ++ ys) ≡ name_at n xs ++ ys
name_at-append none xs ys = refl
name_at-append (some n) xs ys = refl

names_in-append :
    (nodes : List Node) (xs ys : List (String × Option ℕ))
    → names_in nodes (xs ++ ys) ≡ names_in nodes xs ++ names_in nodes ys
names_in-append nodes [] ys = refl
names_in-append nodes ((name, o) ∷ xs) ys =
    ap (name_at (object_at nodes o)) (names_in-append nodes xs ys)
    ∙ name_at-append (object_at nodes o) (names_in nodes xs) (names_in nodes ys)

lookup_handle-set_off :
    (h : Text) (off : ℕ) (m : List (Text × DirectoryHandle)) (d : DirectoryHandle)
    → lookup_handle h m ≡ some d
    → lookup_handle h (set_off h off m) ≡ some (record d { off = off })
unfolding lookup_handle set_off
lookup_handle-set_off h off [] d e = absurd (ground arith)
lookup_handle-set_off h off ((k, a) ∷ m) d e = elim (Bool-cases (text_eq k h)) [
  | inl t ↦ rw (t, t) (ap (λ (o : Option DirectoryHandle). off_of o) (rw t at e))
  | inr f ↦ rw (f, f) (lookup_handle-set_off h off m d (rw f at e))
]
  where
    off_of : Option DirectoryHandle → Option DirectoryHandle
    off_of none = none
    off_of (some x) = some (record x { off = off })

-- the server after a call that listed up to this offset
abbrev pub moved : Text → ℕ → Server → Server
moved h off s = record s { directory_handles = set_off h off s.directory_handles }

pub pkt_readdir-listed :
    (h : Text) (s : Server) (d : DirectoryHandle) (es : List (String × Option ℕ))
    → lookup_handle h s.directory_handles ≡ some d
    → drop d.off d.entries ≡ es
    → All (HasObject s.nodes) es
    → pkt_readdir h s ≡ (
      listed_reply (some (names_in s.nodes (take 20 es))),
      moved h (d.off + length (take 20 es)) s,
    )
unfolding pkt_readdir with_handle
pkt_readdir-listed h s d es e f g =
    rw e (ap (read_listed h s) (list_from-drop s.nodes d.entries 20 d.off es f g))

-- what a client does with an answer: it keeps the names and asks again, and ends at a status
abbrev pub and_then : List Name → Option (List Name) → Option (List Name)
and_then ns none = none
and_then ns (some more) = some (ns ++ more)

abbrev pub read_on : (Server → Option (List Name)) → Outcome → Option (List Name)
read_on again (reply (version v), s) = none
read_on again (reply (attributes a), s) = none
read_on again (reply (handle h), s) = none
read_on again (reply (names ns), s) = and_then ns (again s)
read_on again (reply (contents c), s) = none
read_on again (reply (status code message language), s) = some []
read_on again (refused e, s) = none
read_on again (panicked, s) = none
read_on again (unfinished, s) = none

-- A client that calls `PktReadDir` until it answers a status, for at most so many calls: all names, or
-- `none` if it is still being answered with names, or not at all.
unfoldable pub read_to_end : ℕ → Text → Server → Option (List Name)
read_to_end zero h s = none
read_to_end (suc calls) h s = read_on (λ t. read_to_end calls h t) (pkt_readdir h s)

-- an answer that is not empty, and the calls behind it
read_on-names :
    (again : Server → Option (List Name)) (t : Server) (ns : List Name) (n : Name)
    (rest : List Name)
    → ns ≡ n ∷ rest
    → read_on again (listed_reply (some ns), t) ≡ and_then ns (again t)
read_on-names again t [] n rest h = absurd (ground arith)
read_on-names again t (m ∷ ns) n rest h = refl

read_rest :
    (calls : ℕ) (h : Text) (s : Server) (d : DirectoryHandle) (es : List (String × Option ℕ))
    → lookup_handle h s.directory_handles ≡ some d
    → drop d.off d.entries ≡ es
    → All (HasObject s.nodes) es
    → length es + 20 ≤ 20 * calls
    → read_to_end calls h s ≡ some (names_in s.nodes es)
unfolding read_to_end
read_rest zero h s d es e f g enough = absurd (omega arith)
read_rest (suc calls) h s d [] e f g enough =
    ap (read_on (λ t. read_to_end calls h t)) (pkt_readdir-listed h s d [] e f g)
read_rest (suc calls) h s d ((name, o) ∷ es) e f ((n, at), g) enough =
    let all = (name, o) ∷ es in
    let off = d.off + length (take 20 all) in
    let first = ap (λ (x : Option Node). name_at x (names_in s.nodes (take 19 es))) at in
    let shorter = length-drop 20 all in
    ap (read_on (λ t. read_to_end calls h t)) (pkt_readdir-listed h s d all e f ((n, at), g))
    ∙ read_on-names _ (moved h off s) (names_in s.nodes (take 20 all)) (shown n) _ first
    ∙ ap (and_then (names_in s.nodes (take 20 all))) (
        read_rest calls h (moved h off s) (record d { off = off }) (drop 20 all)
          (lookup_handle-set_off h off s.directory_handles d e) (drop-plus 20 d.off d.entries all f)
          (All-drop (HasObject s.nodes) 20 all ((n, at), g)) (omega arith))
    ∙ ap (λ (l : List Name). some l)
        (sym (names_in-append s.nodes (take 20 all) (drop 20 all))
          ∙ ap (names_in s.nodes) (take-drop 20 all))

-- A client that reads a directory handle to its end, with one call for each 20 entries that are left
-- and one more, is answered with one name for each of these entries, in their order, and then with
-- a status, if the entries have objects. The text of each name is empty, and its attributes are those
-- of the entry's object.
pub read_to_end_total :
    (calls : ℕ) (h : Text) (s : Server) (d : DirectoryHandle)
    → lookup_handle h s.directory_handles ≡ some d
    → All (HasObject s.nodes) (drop d.off d.entries)
    → length (drop d.off d.entries) + 20 ≤ 20 * calls
    → read_to_end calls h s ≡ some (names_in s.nodes (drop d.off d.entries))
read_to_end_total calls h s d e g enough = read_rest calls h s d _ e refl g enough
