-- ===== src/Ramdisk/Lookup.antt =====
-- The search for a file, and the size of the archive.
use oscs25_labs.Base.{
  ℕ, zero, suc, ◌+◌, ◌-◌, ◌%◌, ◌^◌, ◌≤◌, ◌<◌, ◌≡◌, inl, inr, refl, ap, ◌∙◌, true, false, List, [],
  ◌∷◌, Option, none, some, ◌==◌, if◌then◌else◌, arith, length, Bool-cases,
}
use oscs25_labs.Strings.{strcmp}
use oscs25_labs.Ramdisk.{
  terminator, header_size, strcmp_at, as_offset, as_unsigned, find_loop, find_address, size_loop,
  finish_size, get_ramfs_size,
}
use oscs25_labs.Ramdisk.Archive.{
  IsSmallArchive, File, NoNul, file_data, next_file, strcmp_at-IsString, entry_file, entry_data,
  entry_next,
}

-- The data and the size of the first file of a name.
abbrev pub locate : (header : ℕ) → List File → (filename : List ℕ) → Option (ℕ × ℕ)
locate header [] filename = none
locate header (f ∷ fs) filename =
    if strcmp f.name filename == 1
    then some (file_data header f.name, f.size)
    else locate (next_file header f.name f.size) fs filename

-- The address 0 stands for no file, whatever size is stored.
abbrev pub Answers : Option (ℕ × ℕ) → Option (ℕ × ℕ) → Type 0
Answers none r = (size : ℕ) × (r ≡ some (0, size))
Answers (some file) r = r ≡ some file

terminator-NoNul : NoNul terminator
terminator-NoNul = (
  omega arith,
  (
    omega arith,
    (
      omega arith,
      (
        omega arith,
        (
          omega arith,
          (omega arith, (omega arith, (omega arith, (omega arith, (omega arith, tt))))),
        ),
      ),
    ),
  ),
)

trailer : (strcmp terminator terminator == 1) ≡ true
unfolding strcmp
trailer = refl

find_loop-Answers :
    (fs : List File) (n header : ℕ) (filename : List ℕ) (filesize : ℕ) (memory : ℕ → ℕ)
    → length fs < n
    → IsSmallArchive memory header fs
    → NoNul filename
    → Answers (locate header fs filename) (find_loop n header filename filesize memory)
unfolding find_loop as_unsigned
find_loop-Answers fs zero header filename filesize memory fuel a no_nul = absurd (omega arith)
find_loop-Answers [] (suc n) header filename filesize memory fuel (size, e) no_nul =
    let ends : strcmp_at (header + header_size) terminator memory ≡ true =
      strcmp_at-IsString memory (header + header_size) terminator terminator e.string
        terminator-NoNul
      ∙ trailer in
    (size, rw (entry_file memory header terminator size e, e.magic, ends) refl)
find_loop-Answers (f ∷ fs) (suc n) header filename filesize memory fuel (e, no_end, a) no_nul =
    let goes : strcmp_at (header + header_size) terminator memory ≡ false =
      strcmp_at-IsString memory (header + header_size) f.name terminator e.string terminator-NoNul
      ∙ ap (λ (r : ℕ). r == 1) no_end in
    let named = strcmp_at-IsString memory (header + header_size) f.name filename e.string no_nul in
    elim (Bool-cases (strcmp f.name filename == 1)) [
      | inl here ↦
          rw
            (
              entry_file memory header f.name f.size e,
              e.magic,
              goes,
              named,
              here,
              entry_data memory header f.name f.size e,
            )
            refl
      | inr other ↦
          rw
            (
              entry_file memory header f.name f.size e,
              e.magic,
              goes,
              named,
              other,
              entry_next memory header f.name f.size e,
            )
            (find_loop-Answers fs n (next_file header f.name f.size) filename f.size memory
              (omega arith) a no_nul)
    ]

-- In an archive below 2 ^ 62 whose names, with their NUL, and files, the terminator's too, are each
-- below 2 ^ 24 bytes: the address and the size given are those of the data of the first file with the
-- name, and the address is 0 if there is no such file.
pub find_address-Answers :
    (fs : List File) (n header : ℕ) (filename : List ℕ) (filesize : ℕ) (memory : ℕ → ℕ)
    → length fs < n
    → IsSmallArchive memory header fs
    → NoNul filename
    → Answers (locate header fs filename) (find_address n header filename filesize memory)
unfolding find_address
find_address-Answers = find_loop-Answers

-- The address behind the archive.
abbrev pub archive_end : (header : ℕ) → List File → ℕ
archive_end header [] = file_data header terminator
archive_end header (f ∷ fs) = archive_end (next_file header f.name f.size) fs

size_loop_lem :
    (fs : List File) (n header : ℕ) (memory : ℕ → ℕ)
    → length fs < n
    → IsSmallArchive memory header fs
    → size_loop n header memory ≡ some (true, archive_end header fs)
unfolding size_loop as_offset
size_loop_lem fs zero header memory fuel a = absurd (omega arith)
size_loop_lem [] (suc n) header memory fuel (size, e) =
    let ends : strcmp_at (header + header_size) terminator memory ≡ true =
      strcmp_at-IsString memory (header + header_size) terminator terminator e.string
        terminator-NoNul
      ∙ trailer in
    rw (e.magic, ends, entry_data memory header terminator size e) refl
size_loop_lem (f ∷ fs) (suc n) header memory fuel (e, no_end, a) =
    let goes : strcmp_at (header + header_size) terminator memory ≡ false =
      strcmp_at-IsString memory (header + header_size) f.name terminator e.string terminator-NoNul
      ∙ ap (λ (r : ℕ). r == 1) no_end in
    rw
      (
        entry_file memory header f.name f.size e,
        e.magic,
        goes,
        entry_next memory header f.name f.size e,
      )
      (size_loop_lem fs n (next_file header f.name f.size) memory (omega arith) a)

archive_grows : (fs : List File) (header : ℕ) → header ≤ archive_end header fs
archive_grows [] header = omega arith
archive_grows (f ∷ fs) header = omega (arith, archive_grows fs (next_file header f.name f.size))

-- The size of an archive that ends below 2 ^ 32, and whose names, with their NUL, and files, the
-- terminator's too, are each below 2 ^ 24 bytes, is the distance from its first header to what follows
-- the terminator.
pub get_ramfs_size-span :
    (fs : List File) (n header initramfs_size : ℕ) (memory : ℕ → ℕ)
    → length fs < n
    → IsSmallArchive memory header fs
    → archive_end header fs < 2 ^ 32
    → get_ramfs_size n header initramfs_size memory
      ≡ some (archive_end header fs - header, archive_end header fs - header)
unfolding get_ramfs_size finish_size
get_ramfs_size-span fs n header initramfs_size memory fuel a low =
    let value : (archive_end header fs % 2 ^ 32 + 2 ^ 32 - header % 2 ^ 32) % 2 ^ 32
        ≡ archive_end header fs - header =
      omega (arith, archive_grows fs header) in
    rw (size_loop_lem fs n header memory fuel a, value) refl
