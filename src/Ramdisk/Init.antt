-- ===== src/Ramdisk/Init.antt =====
-- `init_ramfile`: the device tree says where the archive is.
use oscs25_labs.Base.{ℕ, ◌&&◌, Option, none, some, List, [], ◌∷◌, ◌==◌, ◌>>=◌, if◌then◌else◌}
use oscs25_labs.Dtb.{Callback, fdt_prop, big_word, dtb_parser}
use oscs25_labs.Ramdisk.{strcmp_at, get_ramfs_size}

-- linux,initrd-start
abbrev start_property : List ℕ
start_property =
    108 ∷ 105 ∷ 110 ∷ 117 ∷ 120 ∷ 44 ∷ 105 ∷ 110 ∷ 105 ∷ 116 ∷ 114 ∷ 100 ∷ 45 ∷ 115 ∷ 116 ∷ 97 ∷ 114
    ∷ 116 ∷ []

-- The callback, on `initramfs_addr`.
unfoldable pub set_initramfs : (ℕ → ℕ) → Callback ℕ
set_initramfs memory token name content len initramfs_addr =
    if (token == fdt_prop) && strcmp_at name start_property memory
    then big_word content memory
    else initramfs_addr

-- The archive's address, and its size; without an address the code calls itself again and again.
unfoldable pub init_ramfile :
    (n chars files : ℕ) → (dtb_addr initramfs_size : ℕ) → (ℕ → ℕ) → Option (ℕ × ℕ)
init_ramfile n chars files dtb_addr initramfs_size memory = do
  (status, initramfs_addr) ← dtb_parser n chars (set_initramfs memory) dtb_addr memory 0
  (result, size) ←
      if initramfs_addr == 0
      then none
      else get_ramfs_size files initramfs_addr initramfs_size memory
  some (initramfs_addr, size)
