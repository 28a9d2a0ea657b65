-- ===== src/Ramdisk/Tests.antt =====
-- An archive of one file of two bytes, named a, at the address 4096.
use oscs25_labs.Base.{
  ℕ, zero, suc, ◌+◌, ◌-◌, ◌/◌, ◌%◌, ◌^◌, ◌<◌, ◌≡◌, inl, inr, refl, List, [], ◌∷◌, some, arith, ◌++◌,
  subst, none, true, ◌==◌, if◌then◌else◌,
}
use oscs25_labs.Ramdisk.{
  terminator, newc_magic_str, find_address, load_program, get_ramfs_size, list_ramfile,
  view_ramfile, check_magic, check_chars, view_loop, strcmp_at, sent_bytes, name_count, file_size,
  data_addr, pad, pad_loop, as_offset, path_size, list_loop, list_sent, copy_path, next_header,
}
use oscs25_labs.Strings.{strcmp}
use oscs25_labs.Strings.Format.{carrtoi, carr_loop, carr_digit}
use oscs25_labs.Pages.{
  Pages, page_alloc, page_reserved, calculate_order, order_loop, find_level, alloc_at, take_block,
  free_list_pop, split_loop, to_page_address,
}
use oscs25_labs.Ramdisk.Load.{Loaded, load_program-Loaded}
use oscs25_labs.Ramdisk.Field.{IsField, IsHexDigit}
use oscs25_labs.Ramdisk.Archive.{IsSmallArchive, File}
use oscs25_labs.Ramdisk.Lookup.{find_address-Answers, get_ramfs_size-span}

abbrev zeros : ℕ → List ℕ → List ℕ
zeros zero rest = rest
zeros (suc n) rest = 48 ∷ zeros n rest

-- A header whose two fields end in the given digits.
abbrev header_bytes : (size_digit name_digit : ℕ) → List ℕ → List ℕ
header_bytes size_digit name_digit rest =
    newc_magic_str ++ zeros 55 (size_digit ∷ zeros 39 (name_digit ∷ zeros 8 rest))

abbrev archive_bytes : List ℕ
archive_bytes =
    header_bytes 50 50 (97 ∷ 0 ∷ 104 ∷ 105 ∷ 0 ∷ 0 ∷ header_bytes 48 66 (terminator ++ 0 ∷ []))

abbrev byte_at : List ℕ → ℕ → ℕ
byte_at [] i = 0
byte_at (b ∷ bs) zero = b
byte_at (b ∷ bs) (suc i) = byte_at bs i

abbrev memory : ℕ → ℕ
memory addr = byte_at archive_bytes (addr - 4096)

abbrev one_file : List File
one_file = (record { name = 97 ∷ []; size = 2 }) ∷ []

below_8 : (P : ℕ → Type 0) → P 0 → P 1 → P 2 → P 3 → P 4 → P 5 → P 6 → P 7 → (i : ℕ) → i < 8 → P i
below_8 P a b c d e f g h zero lt = a
below_8 P a b c d e f g h (suc zero) lt = b
below_8 P a b c d e f g h (suc (suc zero)) lt = c
below_8 P a b c d e f g h (suc (suc (suc zero))) lt = d
below_8 P a b c d e f g h (suc (suc (suc (suc zero)))) lt = e
below_8 P a b c d e f g h (suc (suc (suc (suc (suc zero))))) lt = f
below_8 P a b c d e f g h (suc (suc (suc (suc (suc (suc zero)))))) lt = g
below_8 P a b c d e f g h (suc (suc (suc (suc (suc (suc (suc zero))))))) lt = h
below_8 P a b c d e f g h (suc (suc (suc (suc (suc (suc (suc (suc i)))))))) lt =
    absurd (omega arith)

-- A field of one digit.
digit-IsField :
    (m : ℕ → ℕ) (addr v : ℕ)
    → v < 16
    → m (addr + 0) ≡ 48
    → m (addr + 1) ≡ 48
    → m (addr + 2) ≡ 48
    → m (addr + 3) ≡ 48
    → m (addr + 4) ≡ 48
    → m (addr + 5) ≡ 48
    → m (addr + 6) ≡ 48
    → IsHexDigit (m (addr + 7)) v
    → IsField m addr v
digit-IsField m addr v low a b c d e f g h = record {
  small = omega arith;
  digits =
      below_8 (λ i. IsHexDigit (m (addr + i)) (v / 16 ^ (7 - i) % 16))
        (inl (omega arith, omega arith)) (inl (omega arith, omega arith))
        (inl (omega arith, omega arith)) (inl (omega arith, omega arith))
        (inl (omega arith, omega arith)) (inl (omega arith, omega arith))
        (inl (omega arith, omega arith)) (subst (IsHexDigit (m (addr + 7))) (omega arith) h);
}

one_file-IsSmallArchive : IsSmallArchive memory 4096 one_file
unfolding check_magic check_chars strcmp
one_file-IsSmallArchive = (
  record {
    magic = refl;
    path =
        digit-IsField memory 4190 2 (omega arith) refl refl refl refl refl refl refl
          (inl (omega arith, refl));
    file =
        digit-IsField memory 4150 2 (omega arith) refl refl refl refl refl refl refl
          (inl (omega arith, refl));
    string = (refl, omega arith, refl);
    low = omega arith;
  },
  refl,
  (
    0,
    record {
      magic = refl;
      path =
          digit-IsField memory 4306 11 (omega arith) refl refl refl refl refl refl refl
            (inr (omega arith, omega arith, inl refl));
      file =
          digit-IsField memory 4266 0 (omega arith) refl refl refl refl refl refl refl
            (inl (omega arith, refl));
      string = (
        refl,
        omega arith,
        (
          refl,
          omega arith,
          (
            refl,
            omega arith,
            (
              refl,
              omega arith,
              (
                refl,
                omega arith,
                (
                  refl,
                  omega arith,
                  (
                    refl,
                    omega arith,
                    (refl, omega arith, (refl, omega arith, (refl, omega arith, refl))),
                  ),
                ),
              ),
            ),
          ),
        ),
      );
      low = omega arith;
    },
  ),
)

find_address-Answers_example : find_address 3 4096 (97 ∷ []) 0 memory ≡ some (4208, 2)
unfolding strcmp
find_address-Answers_example =
    find_address-Answers one_file 3 4096 (97 ∷ []) 0 memory (omega arith) one_file-IsSmallArchive
      (omega arith, tt)

get_ramfs_size-span_example : get_ramfs_size 3 4096 0 memory ≡ some (240, 240)
get_ramfs_size-span_example =
    get_ramfs_size-span one_file 3 4096 0 memory (omega arith) one_file-IsSmallArchive (omega arith)

-- Page 5 is free.
abbrev pages : Pages
pages = record {
  status = λ i. if i == 5 then 0 else page_reserved;
  idx = λ i. i;
  links = record { prev = λ _. none; next = λ _. none };
  free_list = λ k. if k == 0 then some 5 else none;
}

given : (page_alloc 2 pages).0 ≡ 0x5000
unfolding page_alloc calculate_order order_loop find_level alloc_at take_block free_list_pop
    split_loop to_page_address
given = refl

load_program-Loaded_example :
    Loaded memory pages 4208 2 (load_program 3 true 4096 (some (97 ∷ [])) memory pages)
unfolding strcmp
load_program-Loaded_example =
    load_program-Loaded one_file 3 4096 (97 ∷ []) 4208 2 memory pages (omega arith)
      one_file-IsSmallArchive (omega arith, tt) refl (omega (arith, given)) (omega (arith, given))

view_a : view_ramfile 3 4096 (97 ∷ []) memory ≡ some (0, 104 ∷ 105 ∷ 13 ∷ 10 ∷ [])
unfolding view_ramfile view_loop check_magic check_chars strcmp_at sent_bytes name_count file_size
    carrtoi carr_loop carr_digit data_addr pad pad_loop as_offset path_size
view_a = refl

list_a : list_ramfile 3 4096 (λ i. 0) memory ≡ some (0, 97 ∷ 0 ∷ 13 ∷ 10 ∷ [])
unfolding list_ramfile list_loop list_sent name_count copy_path next_header check_magic check_chars
    strcmp_at sent_bytes file_size carrtoi carr_loop carr_digit data_addr pad pad_loop as_offset
    path_size
list_a = refl
