-- ===== src/Cpio/Format.antt =====
-- The archive of a tree, in the new portable format of cpio, independently of the code that writes it.
use native.Mathlib.Nat.{pow-succ'}
use tinyrange.Prelude.{
  ℕ, zero, suc, ◌+◌, ◌-◌, ◌*◌, ◌/◌, ◌%◌, ◌^◌, ◌<◌, ◌≡◌, ◌∙◌, refl, Bool, true, false, ◌&&◌, not,
  List, [], ◌∷◌, ◌++◌, ltb, ◌==◌, if◌then◌else◌, length, arith, Bool-cases, inl, inr, length-append,
}
use tinyrange.Cpio.Header.{hex, hex_fixed, hex_width}
use tinyrange.Cpio.Tree.{Member, Entry, file, directory, Entries, no_entries, child, member_of}

abbrev pub nulls : ℕ → List ℕ
nulls zero = []
nulls (suc n) = 0 ∷ nulls n

-- bytes, and null bytes behind them up to a multiple of four
abbrev pub aligned : List ℕ → List ℕ
aligned bytes = bytes ++ nulls (3 - (length bytes + 3) % 4)

-- A member: its number of links, its path, and what is known of it.
abbrev pub Listed : Type 0
Listed = ℕ × List ℕ × Member

-- the magic number 070701, the fields, of which the two devices are 10:1 and 0:0 and the check sum is 0,
-- and the path with its null byte
abbrev pub member_header : ℕ → Listed → List ℕ
member_header number (links, path, m) =
    (48 ∷ 55 ∷ 48 ∷ 55 ∷ 48 ∷ 49 ∷ [])
    ++ hex number
    ++ hex ((m.kind + m.mode) % 2 ^ 64)
    ++ hex m.uid
    ++ hex m.gid
    ++ hex links
    ++ hex m.mtime
    ++ hex (length m.content)
    ++ hex 10
    ++ hex 1
    ++ hex 0
    ++ hex 0
    ++ hex (length path + 1)
    ++ (48 ∷ 48 ∷ 48 ∷ 48 ∷ 48 ∷ 48 ∷ 48 ∷ 48 ∷ [])
    ++ path
    ++ 0 ∷ []

abbrev pub member_content : Listed → List ℕ
member_content (links, path, m) = m.content

-- the members, numbered from this number
abbrev pub archive_from : ℕ → List Listed → List ℕ
archive_from number [] = []
archive_from number (x ∷ xs) =
    (aligned (member_header number x) ++ aligned (member_content x)) ++ archive_from (number + 1) xs

abbrev pub count : Entries → ℕ
count no_entries = 0
count (child e es) = 1 + count es

-- The members of a tree at this path: a directory, and then what is in it, at the path of the directory, a
-- slash and its name.
unfoldable mutual
  pub members : List ℕ → Entry → List Listed
  members path (file m) = (1, path, m) ∷ []
  members path (directory m es) = (2 + count es, path, m) ∷ members_below (path ++ 47 ∷ []) es

  pub members_below : List ℕ → Entries → List Listed
  members_below before no_entries = []
  members_below before (child e es) =
      members (before ++ (member_of e).name) e ++ members_below before es

abbrev pub last_member : Listed
last_member = (
  1,
  84 ∷ 82 ∷ 65 ∷ 73 ∷ 76 ∷ 69 ∷ 82 ∷ 33 ∷ 33 ∷ 33 ∷ [],
  record {
    kind = 32768;
    mode = 0;
    uid = 0;
    gid = 0;
    mtime = 0;
    content = [];
    name = 84 ∷ 82 ∷ 65 ∷ 73 ∷ 76 ∷ 69 ∷ 82 ∷ 33 ∷ 33 ∷ 33 ∷ [];
  },
)

-- The members of an archive: the root, which is named by a dot, what is in it, at paths without the
-- root, and the last member, named TRAILER!!!.
abbrev pub all_members : Member → Entries → List Listed
all_members m es = ((2 + count es, 46 ∷ [], m) ∷ members_below [] es) ++ last_member ∷ []

-- a name that is neither empty nor a dot
abbrev pub is_proper : List ℕ → Bool
is_proper [] = false
is_proper (c ∷ []) = not (c == 46)
is_proper (c ∷ (d ∷ cs)) = true

-- every name in a directory is proper
unfoldable mutual
  pub has_names : Entry → Bool
  has_names (file m) = is_proper m.name
  has_names (directory m es) = is_proper m.name && have_names es

  pub have_names : Entries → Bool
  have_names no_entries = true
  have_names (child e es) = has_names e && have_names es

-- the number that hexadecimal digits stand for, in capital letters, behind this one
abbrev pub hex_value : ℕ → List ℕ → ℕ
hex_value n [] = n
hex_value n (c ∷ cs) = hex_value (16 * n + (if ltb c 58 then c - 48 else c - 55)) cs

hex_value-append :
    (n c : ℕ) (cs : List ℕ)
    → hex_value n (cs ++ c ∷ []) ≡ 16 * hex_value n cs + (if ltb c 58 then c - 48 else c - 55)
hex_value-append n c [] = refl
hex_value-append n c (d ∷ cs) =
    hex_value-append (16 * n + (if ltb d 58 then d - 48 else d - 55)) c cs

digit-value :
    (d : ℕ)
    → d < 16
    → (let c = if ltb d 10 then 48 + d else 55 + d in if ltb c 58 then c - 48 else c - 55) ≡ d
digit-value d lt = elim (Bool-cases (ltb d 10)) [
  | inl e ↦ ground (arith, e)
  | inr e ↦ ground (arith, e)
]

hex_fixed-value :
    (n v : ℕ) → v < 16 ^ n → (length (hex_fixed n v) ≡ n) × (hex_value 0 (hex_fixed n v) ≡ v)
unfolding hex_fixed
hex_fixed-value zero v lt = (refl, omega arith)
hex_fixed-value (suc n) v lt =
    let smaller : v < 16 * 16 ^ n = rw pow-succ' at lt in
    let (size, here) = hex_fixed-value n (v / 16) (omega arith) in
    (
      length-append (hex_fixed n (v / 16)) _ ∙ omega (arith, size),
      hex_value-append 0 _ (hex_fixed n (v / 16))
          ∙ omega (arith, here, digit-value (v % 16) (omega arith)),
    )

-- a number that fits is written in eight digits
pub hex-value : (v : ℕ) → v < 16 ^ 8 → (length (hex v) ≡ 8) × (hex_value 0 (hex v) ≡ v)
unfolding hex hex_width
hex-value v lt =
    let fits : ltb v (16 ^ 8) ≡ true = ground (arith, lt) in rw fits (hex_fixed-value 8 v lt)
