-- ===== src/Ramdisk/Archive.antt =====
-- An archive in memory: its files one behind the other, and the terminator.
use oscs25_labs.Base.{
  ℕ, suc, ◌+◌, ◌*◌, ◌/◌, ◌%◌, ◌^◌, ◌<◌, ◌≡◌, ◌≢◌, inl, inr, refl, true, false, List, [], ◌∷◌, some,
  ◌==◌, arith, length, Bool-cases,
}
use oscs25_labs.Strings.{strcmp}
use oscs25_labs.Ramdisk.{
  terminator, header_size, namesize_offset, filesize_offset, check_magic, strcmp_at, path_size,
  file_size, pad, pad_loop, data_addr, next_header, as_offset,
}
use oscs25_labs.Ramdisk.Field.{IsField, carrtoi-IsField}

-- The string at an address, with its NUL.
abbrev pub IsString : (memory : ℕ → ℕ) → (addr : ℕ) → List ℕ → Type 0
IsString memory addr [] = memory addr ≡ 0
IsString memory addr (c ∷ cs) = (memory addr ≡ c) × (c ≢ 0) × IsString memory (addr + 1) cs

abbrev pub NoNul : List ℕ → Type 0
NoNul [] = Unit
NoNul (c ∷ cs) = (c ≢ 0) × NoNul cs

pub record IsEntry (memory : ℕ → ℕ) (header : ℕ) (name : List ℕ) (size : ℕ) : Type 0 where
  pub magic : check_magic header memory ≡ true
  pub path : IsField memory (header + namesize_offset) (suc (length name))
  pub file : IsField memory (header + filesize_offset) size
  pub string : IsString memory (header + header_size) name
  pub low : header < 2 ^ 62

pub record File : Type 0 where
  pub name : List ℕ
  pub size : ℕ

abbrev pub round_up : ℕ → ℕ
round_up x = (x + 3) / 4 * 4

-- Where the data of a file are, and what follows them.
abbrev pub file_data : (header : ℕ) → List ℕ → ℕ
file_data header name = round_up (header + header_size + suc (length name))

abbrev pub next_file : (header : ℕ) → List ℕ → (size : ℕ) → ℕ
next_file header name size = round_up (file_data header name + size)

-- The headers, names and sizes of the files, and of the terminator behind them. Each size, also that
-- of a name with its NUL, is below 2 ^ 24 (`IsField`).
abbrev pub IsSmallArchive : (memory : ℕ → ℕ) → (header : ℕ) → List File → Type 0
IsSmallArchive memory header [] = (size : ℕ) × IsEntry memory header terminator size
IsSmallArchive memory header (f ∷ fs) =
    IsEntry memory header f.name f.size
    × (strcmp f.name terminator ≡ 0)
    × IsSmallArchive memory (next_file header f.name f.size) fs

pub strcmp_at-IsString :
    (memory : ℕ → ℕ) (addr : ℕ) (name cs : List ℕ)
    → IsString memory addr name
    → NoNul cs
    → strcmp_at addr cs memory ≡ (strcmp name cs == 1)
unfolding strcmp_at strcmp
strcmp_at-IsString memory addr [] [] str no_nul =
    let z : (memory addr == 0) ≡ true = ground arith in rw z refl
strcmp_at-IsString memory addr [] (c ∷ cs) str no_nul =
    let z : (memory addr == 0) ≡ true = ground arith in rw z refl
strcmp_at-IsString memory addr (b ∷ name) [] str no_nul =
    let z : (memory addr == 0) ≡ false = ground arith in rw z refl
strcmp_at-IsString memory addr (b ∷ name) (c ∷ cs) str no_nul =
    let z : (memory addr == 0) ≡ false = ground arith in
    elim (Bool-cases (b == c)) [
      | inl same ↦ rw (z, str.0, same) (strcmp_at-IsString memory (addr + 1) name cs str.2 no_nul.1)
      | inr differs ↦ rw (z, str.0, differs) refl
    ]

pad_lem : (x : ℕ) → pad x ≡ round_up x
unfolding pad pad_loop
pad_lem x = ground arith

module _ (memory : ℕ → ℕ) (header : ℕ) (name : List ℕ) (size : ℕ)
    (e : IsEntry memory header name size) where
  pub entry_path : path_size header memory ≡ some (suc (length name))
  unfolding path_size
  entry_path = carrtoi-IsField memory (header + namesize_offset) (suc (length name)) e.path

  pub entry_file : file_size header memory ≡ some size
  unfolding file_size
  entry_file = carrtoi-IsField memory (header + filesize_offset) size e.file

  pub entry_data : data_addr header memory ≡ file_data header name
  unfolding data_addr as_offset
  entry_data =
      let sum : (header + header_size + suc (length name)) % 2 ^ 64
          ≡ header + header_size + suc (length name) =
        omega (arith, e.low, e.path.small) in
      rw (entry_path, sum) (pad_lem (header + header_size + suc (length name)))

  pub entry_next : next_header header size memory ≡ next_file header name size
  unfolding next_header
  entry_next =
      let sum : (file_data header name + size) % 2 ^ 64 ≡ file_data header name + size =
        omega (arith, e.low, e.path.small, e.file.small) in
      rw (entry_data, sum) (pad_lem (file_data header name + size))
