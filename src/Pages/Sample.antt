-- ===== src/Pages/Sample.antt =====
-- A concrete heap for the tests: pages 2 and 3 are a free block, page 4 is free, page 5 is occupied,
-- and all others are reserved.
use mathlib.Core.Path.{subst}
use native.Mathlib.Nat.{one-le-pow}
use native.Mathlib.Decide.{ℕ_discrete}
use oscs25_labs.Base.{
  sym, ℕ, ◌<◌, ◌≡◌, ◌≢◌, refl, none, some, List, [], ◌∷◌, arith, ◌==◌, if◌then◌else◌,
}
use oscs25_labs.Pages.{Pages, page_grouped, page_occupied, page_reserved, total_page}
use oscs25_labs.Pages.Shape.{IsBlock, Covers}
use oscs25_labs.Pages.FreeLists.{IsFree, IsLinked}
use oscs25_labs.Pages.Invariant.{IsHeap}

abbrev pub status : ℕ → ℕ
status i =
    if i == 2
    then 1
    else if i == 3
    then page_grouped
    else if i == 4
    then 0
    else if i == 5
    then page_occupied
    else page_reserved

abbrev pub order : ℕ → ℕ
order i = if i == 2 then 1 else 0

abbrev pub lists : ℕ → List ℕ
lists k = if k == 0 then 4 ∷ [] else if k == 1 then 2 ∷ [] else []

abbrev pub pages : Pages
pages = record {
  status = status;
  idx = λ i. i;
  links = record { prev = λ _. none; next = λ _. none };
  free_list = λ k. if k == 0 then some 4 else if k == 1 then some 2 else none;
}

pair : IsBlock status 2 1
pair = record {
  low = omega arith;
  aligned = (1, refl);
  inside = omega arith;
  grouped = λ j lo hi. let e : j ≡ 3 = omega arith in rw e;
}

single : (i : ℕ) → i < total_page → IsBlock status i 0
single i bound = record {
  low = omega arith;
  aligned = (i, omega arith);
  inside = omega arith;
  grouped = λ j lo hi. absurd (omega arith);
}

blocks : (i : ℕ) → i < total_page → status i ≢ page_grouped → IsBlock status i (order i)
blocks i bound ne = elim (ℕ_discrete i 2) [
  | yes e ↦ subst (λ (k : ℕ). IsBlock status k (order k)) (sym e) pair
  | no other ↦ let e : order i ≡ 0 = ground arith in rw e (single i bound)
]

pub Covers-pair : Covers status order 3 2
Covers-pair = record { begins = ground arith; above = omega arith; below = omega arith }

covers : (i : ℕ) → i < total_page → (head : ℕ) × Covers status order i head
covers i bound = elim (ℕ_discrete i 3) [
  | yes e ↦ (2, rw e Covers-pair)
  | no other ↦ (
    i,
    record {
      begins = ground arith;
      above = omega arith;
      below = omega (arith, one-le-pow (order i) 2);
    },
  )
]

linked : IsLinked pages.links pages.free_list lists
linked = record {
  chain = λ k low. ground arith;
  distinct = λ k low. ground arith;
  head = λ k low. ground arith;
}

free : IsFree pages [] lists
free = record {
  linked = linked;
  sound = λ k i low m. ground arith;
  complete = λ k i low bound st out. ground arith;
}

pub heap : IsHeap pages [] order lists
heap = record {
  partition = record { block = blocks; cover = covers };
  orders = λ i bound low out. ground arith;
  numbered = λ i bound. refl;
  free = free;
}
