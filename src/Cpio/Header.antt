-- ===== src/Cpio/Header.antt =====
-- The header of a member of an archive, `cpioHeader` of pkg/cpio/cpio.go.
use tinyrange.Prelude.{
  ℕ, zero, suc, ◌+◌, ◌-◌, ◌*◌, ◌/◌, ◌%◌, ◌^◌, List, [], ◌∷◌, ◌++◌, ltb, if◌then◌else◌, length,
}

pub record CpioHeader : Type 0 where
  pub ino : ℕ
  pub mode : ℕ
  pub uid : ℕ
  pub gid : ℕ
  pub n_link : ℕ
  pub m_time : ℕ
  pub file_size : ℕ
  pub dev_major : ℕ
  pub dev_minor : ℕ
  pub r_dev_major : ℕ
  pub r_dev_minor : ℕ
  pub name : List ℕ

abbrev hex_digit : ℕ → ℕ
hex_digit d = if ltb d 10 then 48 + d else 55 + d

-- so many hexadecimal digits
unfoldable pub hex_fixed : ℕ → ℕ → List ℕ
hex_fixed zero v = []
hex_fixed (suc n) v = hex_fixed n (v / 16) ++ hex_digit (v % 16) ∷ []

-- how many digits: n, or as many more as the number needs
unfoldable pub hex_width : ℕ → ℕ → ℕ → ℕ
hex_width zero n v = n
hex_width (suc more) n v =
    let wider = hex_width more (n + 1) v in if ltb v (16 ^ n) then n else wider

-- `%08X` of a `uint64`
unfoldable pub hex : ℕ → List ℕ
hex v = hex_fixed (hex_width 8 8 v) v

-- `cpioNewCMagic`
abbrev pub magic : List ℕ
magic = 48 ∷ 55 ∷ 48 ∷ 55 ∷ 48 ∷ 49 ∷ []

-- the check sum, which is not used
abbrev pub no_check : List ℕ
no_check = 48 ∷ 48 ∷ 48 ∷ 48 ∷ 48 ∷ 48 ∷ 48 ∷ 48 ∷ []

-- `asString`
unfoldable pub as_string : CpioHeader → List ℕ
as_string h =
    magic
    ++ hex h.ino
    ++ hex h.mode
    ++ hex h.uid
    ++ hex h.gid
    ++ hex h.n_link
    ++ hex h.m_time
    ++ hex h.file_size
    ++ hex h.dev_major
    ++ hex h.dev_minor
    ++ hex h.r_dev_major
    ++ hex h.r_dev_minor
    ++ hex (length h.name + 1)
    ++ no_check
    ++ h.name
    ++ 0 ∷ []

-- `roundUp`
unfoldable pub round_up : ℕ → ℕ → ℕ
round_up n m = (n + m - 1) / m * m

-- so many zeros
unfoldable pub zeros : ℕ → List ℕ
zeros zero = []
zeros (suc n) = 0 ∷ zeros n
