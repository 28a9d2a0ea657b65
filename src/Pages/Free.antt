-- ===== src/Pages/Free.antt =====
-- `page_free`: the block is joined with its free buddies, and the result is put on a free list.
pub mod Loop
pub mod Whole
use Prim.Native.Nat.{bit_xor}
use mathlib.Core.Path.{subst}
use native.Mathlib.Nat.{pow-suc, one-le-pow}
use native.Mathlib.Decide.{dec_lt, ℕ_discrete}
use oscs25_labs.Base.{
  ℕ, zero, suc, ◌+◌, ◌*◌, ◌^◌, ◌≤◌, ◌<◌, ◌≡◌, ◌≢◌, ◌∙◌, ◌⊎◌, inl, inr, sym, ap, refl, Bool, true,
  false, not, ◌||◌, ◌&&◌, List, [], ◌∷◌, arith, update, update-ne, update_self, ltb, leb, ◌==◌,
  ==_iff, Bool-cases, mem, mem-head, remove, not-mem-cons, cons-not-mem,
}
use oscs25_labs.Base.Bits.{Aligned, Aligned-cases, buddy_upper, buddy_lower}
use oscs25_labs.Pages.{
  Pages, page_grouped, page_occupied, page_size, block_max_order, total_page, set_status,
  free_list_insert, free_list_remove, merge_page_block, buddy_mergeable, free_loop, page_free,
  to_block_idx,
}
use oscs25_labs.Pages.Shape.{IsBlock, IsPartition}
use oscs25_labs.Pages.FreeLists.{IsFree, set_status-IsFree}
use oscs25_labs.Pages.FreeLists.Insert.{
  insert-IsFree, status-free_list_insert, idx-free_list_insert,
}
use oscs25_labs.Pages.FreeLists.Remove.{status-free_list_remove}
use oscs25_labs.Pages.Invariant.{IsHeap, IsUsed, set_status-IsPartition}
use oscs25_labs.Pages.Merge.{
  AreBuddies, merged-IsHeap, merge_page_block_above, merge_page_block_below, lower_begins,
  upper_begins, pair_bound,
}

-- A free block at `head` has taken in the `2 ^ l` pages from `u` on; it has the largest order, or its
-- buddy is no free block of the same order. No other used block is touched.
pub record Freed (p p' : Pages) (order order' : ℕ → ℕ) (lists' : ℕ → List ℕ) (l u head : ℕ)
    : Type 0 where
  pub heap : IsHeap p' [] order' lists'
  pub free : p'.status head ≤ block_max_order
  pub above : head ≤ u
  pub below : u + 2 ^ l ≤ head + 2 ^ order' head
  pub joined :
      (order' head ≡ block_max_order) ⊎ (p'.status (bit_xor head (2 ^ order' head)) ≢ order' head)
  pub kept : (i : ℕ) → i ≢ u → IsUsed p.status i → (p'.status i ≡ p.status i) × (order' i ≡ order i)

abbrev pub FreeLoop : Pages → (ℕ → ℕ) → ℕ → ℕ → Pages → Type 0
FreeLoop p order l u p' =
    (order' : ℕ → ℕ) × (lists' : ℕ → List ℕ) × (head : ℕ) × Freed p p' order order' lists' l u head

-- The end of the loop: the block in hand is put on the list of its order.
module _ {p : Pages} {order : ℕ → ℕ} {lists : ℕ → List ℕ} (l u : ℕ) (low : l ≤ block_max_order)
    (heap : IsHeap p (u ∷ []) order lists) (bound : u < total_page)
    (begins : p.status u ≢ page_grouped) (ord : order u ≡ l) where
  abbrev marked : Pages
  marked = set_status u l p

  abbrev freed : Pages
  freed = free_list_insert u l marked

  low_status : l ≢ page_grouped
  low_status e = omega arith

  freed_orders :
      (i : ℕ)
      → i < total_page
      → update p.status u l i ≤ block_max_order
      → mem i [] ≡ false
      → order i ≡ update p.status u l i
  freed_orders i b s out = elim (ℕ_discrete i u) [
    | yes e ↦ rw (e, update_self p.status u l) ord
    | no ne ↦
        let kept = update-ne p.status u l i ne in
        rw kept (heap.orders i b (rw kept at s) (cons-not-mem i u [] ne refl))
  ]

  freed-IsHeap : IsHeap freed [] order (update lists l (u ∷ lists l))
  freed-IsHeap = record {
    partition =
        rw (status-free_list_insert u l marked)
          (set_status-IsPartition u l low_status begins heap.partition);
    orders = rw (status-free_list_insert u l marked) freed_orders;
    numbered = rw (idx-free_list_insert u l marked) heap.numbered;
    free =
        insert-IsFree u l low (set_status-IsFree u l (mem-head u []) heap.free) refl bound
          (update_self p.status u l);
  }

  -- There is nothing to join it with: `b` is its buddy.
  pub freed-FreeLoop :
      (b : ℕ)
      → bit_xor u (2 ^ l) ≡ b
      → b ≢ u
      → (l ≡ block_max_order) ⊎ (p.status b ≢ l)
      → FreeLoop p order l u freed
  freed-FreeLoop b buddy ne stop = (
    order,
    update lists l (u ∷ lists l),
    u,
    record {
      heap = freed-IsHeap;
      free = rw (status-free_list_insert u l marked, update_self p.status u l) low;
      above = omega arith;
      below = rw ord (omega arith);
      joined =
          rw (ord, buddy, status-free_list_insert u l marked, update-ne p.status u l b ne) stop;
      kept = λ i ne used.
          (rw (status-free_list_insert u l marked) (update-ne p.status u l i ne), refl);
    },
  )

-- A round that merges, followed by the rest of the loop.
pub Freed-merge :
    {p p' : Pages} {order order' : ℕ → ℕ} {lists' : ℕ → List ℕ} (h l u b head : ℕ)
    → AreBuddies h l u b
    → p.status b ≤ block_max_order
    → h ≤ u
    → u ≤ h + 2 ^ l
    → Freed
        (set_status (h + 2 ^ l) page_grouped (free_list_remove b l p))
        p'
        (update order h (suc l))
        order'
        lists'
        (suc l)
        h
        head
    → Freed p p' order order' lists' l u head
Freed-merge {p} {order} h l u b head pair free lo hi f = record {
  heap = f.heap;
  free = f.free;
  above = omega (arith, f.above);
  below = omega (arith, f.below, pow-suc 2 l);
  joined = f.joined;
  kept = λ i ne used.
      let not_b : i ≢ b = λ e. omega (arith, used.high, ap p.status e) in
      let out = pair.halves i ∙ refl in
      let out' = sym out ∙ cons-not-mem i b (u ∷ []) not_b (cons-not-mem i u [] ne refl) in
      let (not_up, rest) = not-mem-cons i (h + 2 ^ l) (h ∷ []) out' in
      let (not_h, _) = not-mem-cons i h [] rest in
      let same : update (free_list_remove b l p).status (h + 2 ^ l) page_grouped i ≡ p.status i =
        update-ne (free_list_remove b l p).status (h + 2 ^ l) page_grouped i not_up
        ∙ ap (λ (g : ℕ → ℕ). g i) (status-free_list_remove b l p) in
      let (s, o) = f.kept i not_h (record {
        bound = used.bound;
        high = rw same used.high;
        begins = λ e. used.begins (sym same ∙ e);
      }) in
      (s ∙ same, o ∙ update-ne order h (suc l) i not_h);
}

-- A round of the loop, by its two tests.
module _ (n l u b : ℕ) (p : Pages) (buddy : bit_xor u (2 ^ l) ≡ b)
    (fine : (ltb b u && (p.status b == page_grouped)) ≡ false) where
  pub free_loop-stop :
      (not (buddy_mergeable b l p) || (l == block_max_order)) ≡ true
      → free_loop (suc n) l u p ≡ free_list_insert u l (set_status u l p)
  unfolding free_loop
  free_loop-stop done = rw (buddy, fine, done)

  pub free_loop-merge :
      (m : ℕ × Pages)
      → (not (buddy_mergeable b l p) || (l == block_max_order)) ≡ false
      → merge_page_block u b l p ≡ m
      → free_loop (suc n) l u p ≡ free_loop n (l + 1) m.0 m.1
  unfolding free_loop
  free_loop-merge m more e = rw (buddy, fine, more, e)

-- The tests at a buddy that is not grouped.
pub fine_test : (u b s : ℕ) → s ≢ page_grouped → (ltb b u && (s == page_grouped)) ≡ false
fine_test u b s ne = ground arith

pub stop_top :
    (s l : ℕ)
    → l ≡ block_max_order
    → (not ((s == l) || (s == page_grouped)) || (l == block_max_order)) ≡ true
stop_top s l e = ground arith

pub stop_used :
    (s l : ℕ)
    → s ≢ l
    → s ≢ page_grouped
    → (not ((s == l) || (s == page_grouped)) || (l == block_max_order)) ≡ true
stop_used s l ne ne' = ground arith

pub go_on :
    (s l : ℕ)
    → s ≡ l
    → l ≢ block_max_order
    → (not ((s == l) || (s == page_grouped)) || (l == block_max_order)) ≡ false
go_on s l e ne = ground arith

pub go_on_inside :
    (s l : ℕ)
    → s ≡ page_grouped
    → l ≢ block_max_order
    → (not ((s == l) || (s == page_grouped)) || (l == block_max_order)) ≡ false
go_on_inside s l e ne = ground arith
