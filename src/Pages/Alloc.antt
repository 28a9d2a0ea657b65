-- ===== src/Pages/Alloc.antt =====
-- `page_alloc`: which block it returns, and what it leaves alone.
use native.Mathlib.Decide.{ℕ_discrete, dec_lt}
use oscs25_labs.Base.{
  remove, ℕ, zero, suc, ◌+◌, ◌-◌, ◌*◌, ◌≤◌, ◌<◌, ◌≡◌, ◌≢◌, ◌∙◌, ◌⊎◌, inl, inr, sym, ap, refl, true,
  false, Option, none, some, List, [], ◌∷◌, arith, update, update-ne, update_self, first_or, mem,
  mem-head, ◌==◌, Option-cases,
}
use oscs25_labs.Template.Links.{Ptr}
use oscs25_labs.Pages.{
  Pages, page_occupied, page_size, block_max_order, total_page, calculate_order, find_level,
  free_list_pop, split_loop, take_block, alloc_at, to_page_address, page_alloc,
}
use oscs25_labs.Pages.FreeLists.Remove.{pop-IsFree, status-free_list_pop}
use oscs25_labs.Pages.Invariant.{IsHeap, IsUsed, settle-IsHeap}
use oscs25_labs.Pages.Split.{SplitLoop, split_loop-SplitTo}

-- What the search for a level finds among `n` levels from `level` on.
abbrev Found : ℕ → ℕ → (ℕ → Ptr) → Option ℕ → Type 0
Found n level heads none = (k : ℕ) → level ≤ k → k < level + n → heads k ≡ none
Found n level heads (some l) = (level ≤ l) × (l < level + n) × ((i : ℕ) × (heads l ≡ some i))

Found-next :
    (n level : ℕ) (heads : ℕ → Ptr) (r : Option ℕ)
    → heads level ≡ none
    → Found n (level + 1) heads r
    → Found (suc n) level heads r
Found-next n level heads none e f = λ k lo hi. elim (ℕ_discrete k level) [
  | yes same ↦ rw same e
  | no ne ↦ f k (omega arith) (omega arith)
]
Found-next n level heads (some l) e f = (omega (arith, f.0), omega (arith, f.1), f.2)

find_level-Found : (n level : ℕ) (p : Pages) → Found n level p.free_list (find_level n level p)
unfolding find_level
find_level-Found zero level p = λ k lo hi. absurd (omega arith)
find_level-Found (suc n) level p = elim (Option-cases (p.free_list level)) [
  | inl empty ↦ rw empty (Found-next n level p.free_list _ empty (find_level-Found n (level + 1) p))
  | inr (i, e) ↦ rw e (omega arith, omega arith, (i, e))
]

cons_of_first :
    (xs : List ℕ) (t : ℕ) → first_or xs none ≡ some t → (rest : List ℕ) × (xs ≡ t ∷ rest)
cons_of_first [] t e = cc
cons_of_first (x ∷ xs) t e = (xs, ground arith)

nonempty : (xs : List ℕ) (i : ℕ) → mem i xs ≡ true → first_or xs none ≢ none
nonempty [] i m e = cc
nonempty (x ∷ xs) i m e = cc

-- The outcome of an allocation of a block of order `o`.
pub record Allocated (p : Pages) (order : ℕ → ℕ) (o : ℕ) (r : ℕ × Pages) (order' : ℕ → ℕ)
    (lists' : ℕ → List ℕ) (t : ℕ) : Type 0 where
  pub heap : IsHeap r.1 [] order' lists'
  pub address : r.0 ≡ t * page_size
  pub bound : t < total_page
  pub was_free : p.status t ≤ block_max_order
  pub large : o ≤ p.status t
  pub status : r.1.status t ≡ page_occupied
  pub level : order' t ≡ o
  pub kept : (i : ℕ) → IsUsed p.status i → (r.1.status i ≡ p.status i) × (order' i ≡ order i)

module _ {p : Pages} {order : ℕ → ℕ} {lists : ℕ → List ℕ} (heap : IsHeap p [] order lists)
    (o l t : ℕ) (low : l ≤ block_max_order) (le : o ≤ l) (e : p.free_list l ≡ some t) where
  -- The head of a list that is not empty, and the rest.
  listed : (rest : List ℕ) × (lists l ≡ t ∷ rest)
  listed = cons_of_first (lists l) t (sym (heap.free.linked.head l low) ∙ e)

  on_list : mem t (lists l) ≡ true
  on_list = let (rest, el) = listed in rw el (mem-head t rest)

  at_block : (t < total_page) × (p.status t ≡ l) × (mem t [] ≡ false)
  at_block = heap.free.sound l t low on_list

  popped-IsHeap : IsHeap (free_list_pop l p).1 (t ∷ []) order (update lists l (remove t (lists l)))
  unfolding free_list_pop
  popped-IsHeap =
      let (rest, el) = listed in
      record {
        partition = heap.partition;
        orders = λ i b s out. heap.orders i b s refl;
        numbered = heap.numbered;
        free = (pop-IsFree t l rest low heap.free el).1;
      }

  popped-split :
      SplitLoop
        (free_list_pop l p).1
        order
        o
        t
        (split_loop ((free_list_pop l p).1.status t) o t (free_list_pop l p).1)
  popped-split =
      let (bound, st, _) = at_block in
      let st' : (free_list_pop l p).1.status t ≡ l = rw (status-free_list_pop l p) st in
      let ord : order t ≡ l = heap.orders t bound (rw st low) refl ∙ st in
      split_loop-SplitTo _ l o t popped-IsHeap bound st' ord low le (omega (arith, st'))

  take_block-eq : take_block o (free_list_pop l p) ≡ take_block o (some t, (free_list_pop l p).1)
  take_block-eq =
      let (rest, el) = listed in
      ap (λ (h : Ptr). take_block o (h, (free_list_pop l p).1))
        (pop-IsFree t l rest low heap.free el).0

  abbrev halved : Pages
  halved = split_loop ((free_list_pop l p).1.status t) o t (free_list_pop l p).1

  not_used : (i : ℕ) → IsUsed p.status i → i ≢ t
  not_used i u same = omega (arith, u.high, ap p.status same, at_block.1)

  take_block-Allocated :
      (order' : ℕ → ℕ) × (lists' : ℕ → List ℕ) × Allocated p order o
        (take_block o (free_list_pop l p))
        order'
        lists'
        t
  unfolding take_block to_page_address
  take_block-Allocated =
      let (bound, st, _) = at_block in
      let (order', lists', s) = popped-split in
      rw take_block-eq (
        order',
        lists',
        record {
          heap =
              settle-IsHeap t page_occupied (omega arith) (omega arith)
                (λ h. omega (arith, s.status)) s.heap;
          address = rw (s.heap.numbered t bound) (omega arith);
          bound = bound;
          was_free = rw st low;
          large = rw st le;
          status = update_self halved.status t page_occupied;
          level = s.level;
          kept = λ i u.
              let (same, same') = s.kept i (rw (status-free_list_pop l p) u) in
              (
                update-ne halved.status t page_occupied i (not_used i u)
                    ∙ same
                    ∙ ap (λ (f : ℕ → ℕ). f i) (status-free_list_pop l p),
                same',
              );
        },
      )

-- No block of the order `o` or a larger one is free.
abbrev pub NoneFree : Pages → ℕ → Type 0
NoneFree p o = (i : ℕ) → i < total_page → p.status i ≤ block_max_order → p.status i < o

abbrev pub AllocOutcome : Pages → (ℕ → ℕ) → ℕ → ℕ × Pages → Type 0
AllocOutcome p order o r =
    ((t : ℕ) × (order' : ℕ → ℕ) × (lists' : ℕ → List ℕ) × Allocated p order o r order' lists' t)
    ⊎ ((r ≡ (0, p)) × NoneFree p o)

module _ {p : Pages} {order : ℕ → ℕ} {lists : ℕ → List ℕ} (heap : IsHeap p [] order lists) where
  none_free : (o : ℕ) → Found (block_max_order + 1 - o) o p.free_list none → NoneFree p o
  none_free o empty i bound free = elim (dec_lt (p.status i) o) [
    | yes lt ↦ lt
    | no ge ↦
        let k = p.status i in
        let on = heap.free.complete k i free bound refl refl in
        let e = empty k (omega arith) (omega arith) in
        absurd (nonempty (lists k) i on (sym (heap.free.linked.head k free) ∙ e))
  ]

  after_search :
      (o : ℕ) (r : Option ℕ)
      → Found (block_max_order + 1 - o) o p.free_list r
      → AllocOutcome p order o (alloc_at o r p)
  unfolding alloc_at
  after_search o none empty = inr (refl, none_free o empty)
  after_search o (some l) (le, hi, (t, e)) =
      let (order', lists', a) = take_block-Allocated heap o l t (omega arith) le e in
      inl (t, order', lists', a)

  -- A request that is not for 0 bytes gets a block of just the order that it needs, cut from a free
  -- block, if a free block is large enough; else the result is `NULL` and nothing changes. No used
  -- block is touched, and the invariant is kept.
  pub page_alloc-outcome :
      (size : ℕ) → size ≢ 0 → AllocOutcome p order (calculate_order size) (page_alloc size p)
  unfolding page_alloc
  page_alloc-outcome size ne =
      let some_size : (size == 0) ≡ false = ground arith in
      let o = calculate_order size in
      rw some_size (after_search o _ (find_level-Found (block_max_order + 1 - o) o p))
