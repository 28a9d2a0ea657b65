-- ===== src/Pages/Initial.antt =====
-- `init_page_array`: the memory as free blocks of the largest order.
use native.Mathlib.Decide.{ℕ_discrete}
use oscs25_labs.Base.{
  ℕ, zero, suc, ◌+◌, ◌-◌, ◌%◌, ◌/◌, ◌^◌, ◌≤◌, ◌<◌, ◌≡◌, ◌≢◌, ◌∙◌, sym, refl, true, false, none,
  List, [], ◌∷◌, arith, update, update-ne, update_self, ◌==◌, if◌then◌else◌, mem, mem-head,
  cons-mem, Bool-cases, inl, inr, ne_of_mem, subst,
}
use oscs25_labs.Template.Links.{Links, node_init}
use oscs25_labs.Template.Links.Seg.{Seg-frame}
use oscs25_labs.Pages.{
  Pages, page_grouped, block_max_order, total_page, set_status, free_list_insert, init_block,
  init_blocks, init_page_array,
}
use oscs25_labs.Pages.Clean.{IsClear, IsClean, insert-IsClear}
use oscs25_labs.Pages.Shape.{IsPartition}
use oscs25_labs.Pages.FreeLists.{IsFree, IsLinked, set_status-IsFree, drop-IsFree, not_listed}
use oscs25_labs.Pages.FreeLists.Insert.{
  insert-IsFree, status-free_list_insert, idx-free_list_insert,
}
use oscs25_labs.Pages.Invariant.{IsHeap}

-- The `n` pages from `i` on.
abbrev from : (n i : ℕ) → List ℕ
from zero i = []
from (suc n) i = i ∷ from n (i + 1)

mem-from : (n i j : ℕ) → i ≤ j → j < i + n → mem j (from n i) ≡ true
mem-from zero i j lo hi = absurd (omega arith)
mem-from (suc n) i j lo hi = elim (ℕ_discrete j i) [
  | yes e ↦ ground arith
  | no ne ↦ cons-mem j i (from n (i + 1)) (mem-from n (i + 1) j (omega arith) (omega arith))
]

from-out : (n i j : ℕ) → j < i → mem j (from n i) ≡ false
from-out zero i j lo = refl
from-out (suc n) i j lo = let rest = from-out n (i + 1) j (omega arith) in ground arith

-- The status that a page gets.
abbrev initial : ℕ → ℕ
initial i = if i % 2 ^ block_max_order == 0 then block_max_order else page_grouped

-- The pages below `i` are set up, those of `hand` are to come.
record Init (i : ℕ) (hand : List ℕ) (p : Pages) : Type 0 where
  pub lists : ℕ → List ℕ
  pub free : IsFree p hand lists
  pub statuses : (j : ℕ) → j < i → p.status j ≡ initial j
  pub numbers : (j : ℕ) → j < i → p.idx j ≡ j
  pub clear :
      (j : ℕ)
      → j < i
      → ((k : ℕ) → k ≤ block_max_order → mem j (lists k) ≡ false)
      → IsClear p.links j

-- The links of a page in hand may be cleared.
node_init-IsFree :
    {p : Pages} {hand : List ℕ} {lists : ℕ → List ℕ} (i v : ℕ)
    → mem i hand ≡ true
    → IsFree p hand lists
    → IsFree (record p { idx = update p.idx i v; links = node_init i p.links }) hand lists
unfolding node_init
node_init-IsFree {p} {hand} {lists} i v inhand f = record {
  linked = record {
    chain = λ k low.
        Seg-frame none none (lists k)
          (λ j m.
            let ne = ne_of_mem j i (lists k) m (not_listed k i f low inhand) in
            record {
              prev = update-ne p.links.prev i none j ne;
              next = update-ne p.links.next i none j ne;
            })
          (f.linked.chain k low);
    distinct = f.linked.distinct;
    head = f.linked.head;
  };
  sound = f.sound;
  complete = f.complete;
}

-- The block `i` with its new fields, before it is put on a list.
abbrev set_up : ℕ → ℕ → Pages → Pages
set_up i v p =
    let p' = set_status i v p in record p' { idx = update p.idx i i; links = node_init i p.links }

set_up-IsFree :
    {p : Pages} {hand : List ℕ} {lists : ℕ → List ℕ} (i v : ℕ)
    → IsFree p (i ∷ hand) lists
    → IsFree (set_up i v p) (i ∷ hand) lists
set_up-IsFree {p} {hand} i v f =
    node_init-IsFree i i (mem-head i hand) (set_status-IsFree i v (mem-head i hand) f)

module _ (i : ℕ) (hand : List ℕ) {p : Pages} (bound : i < total_page) (out : mem i hand ≡ false)
    (init : Init i (i ∷ hand) p) where
  with_status : (v : ℕ) → initial i ≡ v → (j : ℕ) → j < i + 1 → update p.status i v j ≡ initial j
  with_status v e j lo = elim (ℕ_discrete j i) [
    | yes same ↦ rw (same, update_self p.status i v) (sym e)
    | no ne ↦ update-ne p.status i v j ne ∙ init.statuses j (omega (arith, ne))
  ]

  with_number : (j : ℕ) → j < i + 1 → update p.idx i i j ≡ j
  with_number j lo = elim (ℕ_discrete j i) [
    | yes same ↦ rw (same, update_self p.idx i i) refl
    | no ne ↦ update-ne p.idx i i j ne ∙ init.numbers j (omega (arith, ne))
  ]

  -- The links of the page `i` are clear now, and those of the pages before stay.
  with_links :
      (j : ℕ)
      → j < i + 1
      → ((k : ℕ) → k ≤ block_max_order → mem j (init.lists k) ≡ false)
      → IsClear (node_init i p.links) j
  unfolding node_init
  with_links j lo absent = elim (ℕ_discrete j i) [
    | yes same ↦ rw same (update_self p.links.prev i none, update_self p.links.next i none)
    | no ne ↦
        let was = init.clear j (omega (arith, ne)) absent in
        (update-ne p.links.prev i none j ne ∙ was.0, update-ne p.links.next i none j ne ∙ was.1)
  ]

  head_block : initial i ≡ block_max_order → Init (i + 1) hand (init_block i block_max_order i p)
  unfolding init_block
  head_block e =
      let q = set_up i block_max_order p in
      record {
        lists = update init.lists block_max_order (i ∷ init.lists block_max_order);
        free =
            insert-IsFree i block_max_order (omega arith)
              (set_up-IsFree i block_max_order init.free) out bound
              (update_self p.status i block_max_order);
        statuses = rw (status-free_list_insert i block_max_order q) (with_status block_max_order e);
        numbers = rw (idx-free_list_insert i block_max_order q) with_number;
        clear = λ j lo.
            insert-IsClear i block_max_order (omega arith)
              (set_up-IsFree i block_max_order init.free) j (with_links j lo);
      }

  inner_page : initial i ≡ page_grouped → Init (i + 1) hand (init_block i page_grouped i p)
  unfolding init_block free_list_insert
  inner_page e = record {
    lists = init.lists;
    free =
        drop-IsFree i (rw (update_self p.status i page_grouped) (omega arith))
          (set_up-IsFree i page_grouped init.free);
    statuses = with_status page_grouped e;
    numbers = with_number;
    clear = with_links;
  }

  init_block-Init : Init (i + 1) hand (init_block i (initial i) i p)
  init_block-Init = elim (Bool-cases (i % 2 ^ block_max_order == 0)) [
    | inl begins ↦ rw begins (head_block (rw begins refl))
    | inr inner ↦ rw inner (inner_page (rw inner refl))
  ]

init_blocks-Init :
    (n i : ℕ) (p : Pages)
    → i + n ≡ total_page
    → Init i (from n i) p
    → Init total_page [] (init_blocks n i p)
unfolding init_blocks
init_blocks-Init zero i p all init =
    let done : total_page ≡ i = omega (arith, all) in subst (λ (k : ℕ). Init k [] p) (sym done) init
init_blocks-Init (suc n) i p all init =
    init_blocks-Init n (i + 1) _ (omega arith)
      (init_block-Init i (from n (i + 1)) (omega arith) (from-out n (i + 1) i (omega arith)) init)

initial_block : (i : ℕ) → initial i ≢ page_grouped → (i % 2 ^ block_max_order ≡ 0)
initial_block i ne = ground arith

inner_initial : (i : ℕ) → i % 2 ^ block_max_order ≢ 0 → initial i ≡ page_grouped
inner_initial i ne = ground arith

initial_free : (i : ℕ) → i % 2 ^ block_max_order ≡ 0 → initial i ≡ block_max_order
initial_free i e = ground arith

nothing_linked : (s : Links) → IsLinked s (λ _. none) (λ _. [])
nothing_linked s = record { chain = λ k low. tt; distinct = λ k low. tt; head = λ k low. refl }

nothing_set_up : (p : Pages) → Init 0 (from total_page 0) (record p { free_list = λ _. none })
nothing_set_up p = record {
  lists = λ _. [];
  free = record {
    linked = nothing_linked p.links;
    sound = λ k i low m. absurd (cc m);
    complete =
        λ k i low bound st out. absurd (cc (mem-from total_page 0 i (omega arith) (omega arith)));
  };
  statuses = λ j lo. absurd (omega arith);
  numbers = λ j lo. absurd (omega arith);
  clear = λ j lo out. absurd (omega arith);
}

initial-IsPartition :
    (status : ℕ → ℕ)
    → ((j : ℕ) → j < total_page → status j ≡ initial j)
    → IsPartition status (λ _. block_max_order)
initial-IsPartition status e = record {
  block = λ i bound ne.
      let begins = initial_block i (λ e'. ne (e i bound ∙ e')) in
      record {
        low = omega arith;
        aligned = (i / 2 ^ block_max_order, omega arith);
        inside = omega arith;
        grouped = λ j lo hi. e j (omega arith) ∙ inner_initial j (λ z. omega arith);
      };
  cover = λ i bound.
      let head = i - i % 2 ^ block_max_order in
      let free = e head (omega arith) ∙ initial_free head (omega arith) in
      (
        head,
        record { begins = λ e'. omega (arith, free, e'); above = omega arith; below = omega arith },
      );
}

initial_low : (i v : ℕ) → v ≡ initial i → v ≤ block_max_order → block_max_order ≡ v
initial_low i v e low = ground arith

all-IsHeap :
    (p : Pages) (init : Init total_page [] p) → IsHeap p [] (λ _. block_max_order) init.lists
all-IsHeap p init = record {
  partition = initial-IsPartition p.status init.statuses;
  orders = λ i bound low out. initial_low i (p.status i) (init.statuses i bound) low;
  numbered = init.numbers;
  free = init.free;
}

-- Whatever the memory of `page_array` holds, all pages are in free blocks of the largest order.
pub init_page_array-IsHeap :
    (p : Pages)
    → (lists : ℕ → List ℕ) × IsHeap (init_page_array p) [] (λ _. block_max_order) lists
      × IsClean (init_page_array p) lists
unfolding init_page_array
init_page_array-IsHeap p =
    let init =
      init_blocks-Init total_page 0 (record p { free_list = λ _. none }) refl (nothing_set_up p) in
    (init.lists, all-IsHeap _ init, init.clear)
