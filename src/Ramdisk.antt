-- ===== src/Ramdisk.antt =====
-- lib/file_sys/initramfs.c: the files of the cpio archive in memory. Memory is a function from an
-- address to a byte, and the archive begins at a given address. `none` is a lack of fuel.
pub mod Field
pub mod Init
pub mod Archive
pub mod Lookup
pub mod Load
mod Tests
use oscs25_labs.Base.{
  ℕ, zero, suc, ◌+◌, ◌-◌, ◌*◌, ◌/◌, ◌%◌, ◌^◌, Bool, true, false, not, ◌&&◌, Option, none, some,
  List, [], ◌∷◌, ◌++◌, ltb, leb, ◌==◌, ◌>>=◌, if◌then◌else◌, update,
}
use oscs25_labs.Strings.{hex}
use oscs25_labs.Strings.Format.{carrtoi}
use oscs25_labs.Words.{to_le_u32, memcpy}
use oscs25_labs.Regions.{RcRegion, rc_alloc}
use oscs25_labs.Pages.{Pages}

abbrev pub header_size : ℕ
header_size = 110

-- The offsets of the two fields of `cpio_newc_header` that are read.
abbrev pub filesize_offset : ℕ
filesize_offset = 54

abbrev pub namesize_offset : ℕ
namesize_offset = 94

-- `newc_magic_str` and `terminator`: 070701 and TRAILER!!!
abbrev pub newc_magic_str : List ℕ
newc_magic_str = 48 ∷ 55 ∷ 48 ∷ 55 ∷ 48 ∷ 49 ∷ []

abbrev pub terminator : List ℕ
terminator = 84 ∷ 82 ∷ 65 ∷ 73 ∷ 76 ∷ 69 ∷ 82 ∷ 33 ∷ 33 ∷ 33 ∷ []

-- The loop of `check_magic`, on the characters that are expected.
unfoldable pub check_chars : List ℕ → (addr : ℕ) → (ℕ → ℕ) → Bool
check_chars [] addr memory = true
check_chars (c ∷ cs) addr memory =
    let rest = check_chars cs (addr + 1) memory in if memory addr == c then rest else false

unfoldable pub check_magic : (addr : ℕ) → (ℕ → ℕ) → Bool
check_magic addr memory = check_chars newc_magic_str addr memory

-- `strcmp` of the string at an address with a list of characters that are not NUL.
unfoldable pub strcmp_at : (addr : ℕ) → List ℕ → (ℕ → ℕ) → Bool
strcmp_at addr [] memory = memory addr == 0
strcmp_at addr (c ∷ cs) memory =
    let rest = strcmp_at (addr + 1) cs memory in
    if memory addr == 0 then false else if memory addr == c then rest else false

-- An `int` as it is added to a pointer; -1 if `carrtoi` fails.
unfoldable pub as_offset : Option ℕ → ℕ
as_offset none = 2 ^ 64 - 1
as_offset (some n) = n

-- The conversion of the `int` to an `unsigned int`.
unfoldable pub as_unsigned : Option ℕ → ℕ
as_unsigned none = 2 ^ 32 - 1
as_unsigned (some n) = n

unfoldable pub path_size : (header : ℕ) → (ℕ → ℕ) → Option ℕ
path_size header memory = carrtoi (λ i. memory (header + namesize_offset + i)) 8 hex

unfoldable pub file_size : (header : ℕ) → (ℕ → ℕ) → Option ℕ
file_size header memory = carrtoi (λ i. memory (header + filesize_offset + i)) 8 hex

-- `while(((unsigned int) mem) % 4) mem++;`, which takes at most three steps.
unfoldable pub pad_loop : ℕ → ℕ → ℕ
pad_loop zero mem = mem
pad_loop (suc n) mem = let on = pad_loop n (mem + 1) in if mem % 2 ^ 32 % 4 == 0 then mem else on

unfoldable pub pad : ℕ → ℕ
pad mem = pad_loop 3 mem

-- The data of the file behind its name, and the header behind its data.
unfoldable pub data_addr : (header : ℕ) → (ℕ → ℕ) → ℕ
data_addr header memory =
    pad ((header + header_size + as_offset (path_size header memory)) % 2 ^ 64)

unfoldable pub next_header : (header : ℕ) → (size : ℕ) → (ℕ → ℕ) → ℕ
next_header header size memory = pad ((data_addr header memory + size) % 2 ^ 64)

-- The address of the data, and the size of the file; 1 for a header that is not one, 0 for no file.
unfoldable pub find_loop :
    ℕ → (mem : ℕ) → (filename : List ℕ) → (filesize : ℕ) → (ℕ → ℕ) → Option (ℕ × ℕ)
find_loop zero mem filename filesize memory = none
find_loop (suc n) mem filename filesize memory =
    let size = as_unsigned (file_size mem memory) in
    let on = find_loop n (next_header mem size memory) filename size memory in
    if not (check_magic mem memory)
    then some (1, filesize)
    else if strcmp_at (mem + header_size) terminator memory
    then some (0, size)
    else if strcmp_at (mem + header_size) filename memory
    then some (data_addr mem memory, size)
    else on

-- With an archive that is found already, and a name.
unfoldable pub find_address :
    ℕ → (initramfs_addr : ℕ) → (filename : List ℕ) → (filesize : ℕ) → (ℕ → ℕ) → Option (ℕ × ℕ)
find_address n initramfs_addr filename filesize memory =
    find_loop n initramfs_addr filename filesize memory

-- The result and the memory; `allocated` is whether `dyna_alloc` gives the region. A program with
-- no name is sys_call.img. `none` is a lack of fuel.
abbrev default_name : List ℕ
default_name = 115 ∷ 121 ∷ 115 ∷ 95 ∷ 99 ∷ 97 ∷ 108 ∷ 108 ∷ 46 ∷ 105 ∷ 109 ∷ 103 ∷ []

unfoldable pub copy_program :
    (source size : ℕ) → (ℕ → ℕ) → Option RcRegion × Pages → Option RcRegion × Pages × (ℕ → ℕ)
copy_program source size memory (none, p) = (none, p, memory)
copy_program source size memory (some dest, p) = (some dest, p, memcpy dest.mem source size memory)

unfoldable pub load_found :
    (allocated : Bool) → (ℕ → ℕ) → Pages → ℕ × ℕ → Option RcRegion × Pages × (ℕ → ℕ)
unfolding copy_program
load_found allocated memory p (source, filesize) =
    if source == 0
    then (none, p, memory)
    else copy_program source filesize memory (rc_alloc allocated filesize p)

unfoldable pub program_name : Option (List ℕ) → List ℕ
program_name none = default_name
program_name (some name) = name

unfoldable pub load_program :
    ℕ
    → (allocated : Bool) → (initramfs_addr : ℕ) → (prog_name : Option (List ℕ)) → (ℕ → ℕ)
    → Pages
    → Option (Option RcRegion × Pages × (ℕ → ℕ))
unfolding load_found
load_program n allocated initramfs_addr prog_name memory p = do
  r ← find_address n initramfs_addr (program_name prog_name) 0 memory
  some (load_found allocated memory p r)

-- The address behind the archive; `false` for a header that is not one.
unfoldable pub size_loop : ℕ → (mem : ℕ) → (ℕ → ℕ) → Option (Bool × ℕ)
size_loop zero mem memory = none
size_loop (suc n) mem memory =
    let on = size_loop n (next_header mem (as_offset (file_size mem memory)) memory) memory in
    if not (check_magic mem memory)
    then some (false, mem)
    else if strcmp_at (mem + header_size) terminator memory
    then some (true, data_addr mem memory)
    else on

-- The result, and `initramfs_size`, which is left alone by a header that is not one.
unfoldable pub finish_size : (initramfs_addr initramfs_size : ℕ) → Bool × ℕ → ℕ × ℕ
finish_size initramfs_addr initramfs_size (false, mem) = (1, initramfs_size)
finish_size initramfs_addr initramfs_size (true, mem) =
    let size = (mem % 2 ^ 32 + 2 ^ 32 - initramfs_addr % 2 ^ 32) % 2 ^ 32 in (size, size)

unfoldable pub get_ramfs_size : ℕ → (initramfs_addr initramfs_size : ℕ) → (ℕ → ℕ) → Option (ℕ × ℕ)
get_ramfs_size n initramfs_addr initramfs_size memory = do
  r ← size_loop n initramfs_addr memory
  some (finish_size initramfs_addr initramfs_size r)

-- The loop that copies a name to the buffer of `list_ramfile`.
unfoldable pub copy_path : ℕ → (source dest : ℕ) → (ℕ → ℕ) → (ℕ → ℕ) → ℕ → ℕ
copy_path zero source dest memory buffer = buffer
copy_path (suc n) source dest memory buffer =
    copy_path n (source + 1) (dest + 1) memory (update buffer dest (memory source))

-- `for(int i = 0; i < pathsize; i++)` runs not at all for -1.
unfoldable pub name_count : Option ℕ → ℕ
name_count none = 0
name_count (some n) = n

-- The names of the files, each with its NUL and a line feed, in the buffer of `list_ramfile`, and
-- the index behind them. The code does not look at the size of the buffer.
unfoldable pub list_loop : ℕ → (mem writehead : ℕ) → (ℕ → ℕ) → (ℕ → ℕ) → Option (Bool × ℕ × (ℕ → ℕ))
list_loop zero mem writehead buffer memory = none
list_loop (suc n) mem writehead buffer memory =
    let count = name_count (path_size mem memory) in
    let copied = copy_path count (mem + header_size) writehead memory buffer in
    let on =
      list_loop n (next_header mem (as_offset (file_size mem memory)) memory)
        (writehead + count + 1) (update copied (writehead + count) 10) memory in
    if not (check_magic mem memory)
    then some (false, writehead, buffer)
    else if strcmp_at (mem + header_size) terminator memory
    then some (true, writehead + count, copied)
    else on

-- The bytes that are sent: a line feed gets a carriage return in front.
unfoldable pub sent_bytes : ℕ → (start : ℕ) → (ℕ → ℕ) → List ℕ
sent_bytes zero start bytes = []
sent_bytes (suc n) start bytes =
    let rest = sent_bytes n (start + 1) bytes in
    if bytes start == 10 then 13 ∷ 10 ∷ rest else bytes start ∷ rest

-- The name of the terminator with its NUL is not sent: `terminator_size` is 11.
unfoldable pub list_sent : Bool × ℕ × (ℕ → ℕ) → ℕ × List ℕ
list_sent (false, writehead, buffer) = (1, [])
list_sent (true, writehead, buffer) = (0, sent_bytes (writehead - 11) 0 buffer)

-- The result, and the bytes that are sent.
unfoldable pub list_ramfile :
    ℕ → (initramfs_addr : ℕ) → (buffer : ℕ → ℕ) → (ℕ → ℕ) → Option (ℕ × List ℕ)
list_ramfile n initramfs_addr buffer memory = do
  r ← list_loop n initramfs_addr 0 buffer memory
  some (list_sent r)

-- The loop of `view_ramfile` up to the file: its data and its size. The result of the code comes
-- first: 1 for a header that is not one, -1 for no file.
unfoldable pub view_loop : ℕ → (mem : ℕ) → (filename : List ℕ) → (ℕ → ℕ) → Option (ℕ × List ℕ)
view_loop zero mem filename memory = none
view_loop (suc n) mem filename memory =
    let size = file_size mem memory in
    let on = view_loop n (next_header mem (as_offset size) memory) filename memory in
    if not (check_magic mem memory)
    then some (1, [])
    else if strcmp_at (mem + header_size) terminator memory
    then some (2 ^ 32 - 1, [])
    else if strcmp_at (mem + header_size) filename memory
    then some (0, sent_bytes (name_count size) (data_addr mem memory) memory ++ 13 ∷ 10 ∷ [])
    else on

unfoldable pub view_ramfile :
    ℕ → (initramfs_addr : ℕ) → (filename : List ℕ) → (ℕ → ℕ) → Option (ℕ × List ℕ)
view_ramfile n initramfs_addr filename memory = view_loop n initramfs_addr filename memory
