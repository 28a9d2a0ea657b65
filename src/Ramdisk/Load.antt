-- ===== src/Ramdisk/Load.antt =====
-- The program that is loaded is the file of the archive.
use oscs25_labs.Base.{
  ℕ, ◌+◌, ◌<◌, ◌≡◌, ◌≢◌, refl, true, false, Option, some, List, length, ◌==◌, [], ◌∷◌, subst, arith,
}
use oscs25_labs.Pages.{Pages, page_alloc}
use oscs25_labs.Regions.{RcRegion, rc_alloc}
use oscs25_labs.Words.{memcpy}
use oscs25_labs.Words.Copy.{Apart, Outside, memcpy_inside, memcpy-Outside}
use oscs25_labs.Ramdisk.{find_address, load_program, load_found, copy_program, program_name}
use oscs25_labs.Ramdisk.Archive.{IsSmallArchive, File, NoNul, next_file}
use oscs25_labs.Ramdisk.Lookup.{locate, Answers, find_address-Answers}

located_above :
    (fs : List File) (header : ℕ) (name : List ℕ) (source size : ℕ)
    → locate header fs name ≡ some (source, size)
    → 0 < source
located_above [] header name source size at = grind arith
located_above (f ∷ fs) header name source size at =
    let rest = located_above fs (next_file header f.name f.size) name source size in grind arith

-- The region, of one reference, is the one that `page_alloc` gave; it holds the `size` bytes from
-- `source`, and the bytes outside it are as before.
pub record Loaded (memory : ℕ → ℕ) (p : Pages) (source size : ℕ)
    (r : Option (Option RcRegion × Pages × (ℕ → ℕ))) : Type 0 where
  pub memory' : ℕ → ℕ
  pub result :
      r
      ≡ some
          (some (record { count = 1; mem = (page_alloc size p).0 }), (page_alloc size p).1, memory')
  pub inside : (i : ℕ) → i < size → memory' ((page_alloc size p).0 + i) ≡ memory (source + i)
  pub outside : (a : ℕ) → Outside (page_alloc size p).0 size a → memory' a ≡ memory a

-- In an archive below 2 ^ 62 whose names, with their NUL, and files, the terminator's too, are each
-- below 2 ^ 24 bytes: a program that it holds, for which there is memory apart from the file, is
-- loaded. The region of one reference holds the bytes of the file, and the bytes outside it are as
-- before.
pub load_program-Loaded :
    (fs : List File) (n header : ℕ) (name : List ℕ) (source size : ℕ) (memory : ℕ → ℕ) (p : Pages)
    → length fs < n
    → IsSmallArchive memory header fs
    → NoNul name
    → locate header fs name ≡ some (source, size)
    → (page_alloc size p).0 ≢ 0
    → Apart (page_alloc size p).0 source size
    → Loaded memory p source size (load_program n true header (some name) memory p)
unfolding load_program program_name load_found copy_program rc_alloc
load_program-Loaded fs n header name source size memory p fuel a no_nul at given apart =
    let found =
      subst (λ l. Answers l (find_address n header name 0 memory)) at
        (find_address-Answers fs n header name 0 memory fuel a no_nul) in
    let mem = (page_alloc size p).0 in
    let ne = located_above fs header name source size at in
    let is_file : (source == 0) ≡ false = ground arith in
    let is_given : (mem == 0) ≡ false = ground arith in
    record {
      memory' = memcpy mem source size memory;
      result = rw (found, is_file, is_given) refl;
      inside = λ i low. memcpy_inside mem source size memory i low apart;
      outside = λ b out. memcpy-Outside mem source size memory b out;
    }
