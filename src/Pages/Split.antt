-- ===== src/Pages/Split.antt =====
-- The split of a block in hand, as `page_alloc` makes it.
use native.Mathlib.Decide.{dec_lt, ℕ_discrete}
use native.Mathlib.Nat.{pow-suc, one-le-pow}
use oscs25_labs.Base.{
  ℕ, zero, suc, ◌+◌, ◌-◌, ◌%◌, ◌^◌, ◌≤◌, ◌<◌, ◌≡◌, ◌≢◌, ◌∙◌, sym, ap, refl, true, false, List, [],
  ◌∷◌, arith, update, ltb, lt→ltb, update_self, mem-head, cons-mem, cons-not-mem, not-mem-cons,
}
use oscs25_labs.Base.Bits.{buddy_upper}
use oscs25_labs.Pages.{
  Pages, page_grouped, block_max_order, total_page, set_status, free_list_insert, split_step,
  split_loop,
}
use oscs25_labs.Pages.Shape.{
  update₂, update₂_other, update₂_first, update₂_second, IsBlock, split-IsPartition,
}
use oscs25_labs.Pages.FreeLists.{IsFree, set_status-IsFree, take-IsFree}
use oscs25_labs.Pages.FreeLists.Insert.{
  insert-IsFree, status-free_list_insert, idx-free_list_insert,
}
use oscs25_labs.Pages.Invariant.{IsHeap, IsUsed}

module _ {p : Pages} {order : ℕ → ℕ} {lists : ℕ → List ℕ} (t l : ℕ)
    (heap : IsHeap p (t ∷ []) order lists) (bound : t < total_page) (st : p.status t ≡ suc l)
    (ord : order t ≡ suc l) (low : suc l ≤ block_max_order) where
  abbrev up : ℕ
  up = t + 2 ^ l

  begins : p.status t ≢ page_grouped
  begins e = omega arith

  whole : IsBlock p.status t (suc l)
  whole = rw ord at (heap.partition.block t bound begins)

  grouped_up : p.status up ≡ page_grouped
  grouped_up =
      whole.grouped up (omega (arith, one-le-pow l 2)) (omega (arith, pow-suc 2 l, one-le-pow l 2))

  split_step-eq : split_step t p ≡ free_list_insert up l (set_status up l (set_status t l p))
  unfolding split_step
  split_step-eq =
      let level : (p.status t + 2 ^ 32 - 1) % 2 ^ 32 ≡ l = omega arith in
      rw (level, heap.numbered t bound, buddy_upper l t whole.aligned)

  abbrev halved : Pages
  halved = set_status up l (set_status t l p)

  ne : up ≢ t
  ne = omega (arith, one-le-pow l 2)

  low_status : l ≢ page_grouped
  low_status = omega arith

  in_hand : IsFree (set_status up l (set_status t l p)) (up ∷ t ∷ []) lists
  in_hand = set_status-IsFree up l (mem-head up (t ∷ [])) (
      set_status-IsFree t l (cons-mem t up (t ∷ []) (mem-head t []))
        (take-IsFree up (rw grouped_up (omega arith)) heap.free))

  orders_split :
      (i : ℕ)
      → i < total_page
      → update₂ p.status t l up l i ≤ block_max_order
      → i ≢ t
      → update₂ order t l up l i ≡ update₂ p.status t l up l i
  orders_split i b s not_t = elim (ℕ_discrete i up) [
    | yes e ↦ rw (e, update₂_second order t l up l, update₂_second p.status t l up l)
    | no not_up ↦
        let s' : p.status i ≤ block_max_order =
          rw (update₂_other p.status t l up l i not_t not_up) at s in
        rw
          (
            update₂_other order t l up l i not_t not_up,
            update₂_other p.status t l up l i not_t not_up,
          )
          (heap.orders i b s' (cons-not-mem i t [] not_t refl))
  ]

  -- One round: the upper half is a free block, and the lower half stays in hand.
  split_step-IsHeap :
      IsHeap (split_step t p) (t ∷ []) (update₂ order t l up l) (update lists l (up ∷ lists l))
  split_step-IsHeap = rw split_step-eq (record {
    partition =
        rw (status-free_list_insert up l halved)
          (split-IsPartition t l l l heap.partition bound begins ord low_status low_status);
    orders = λ i b s out.
        let s' : update₂ p.status t l up l i ≤ block_max_order =
          rw (status-free_list_insert up l halved) at s in
        rw (status-free_list_insert up l halved) (orders_split i b s' (not-mem-cons i t [] out).0);
    numbered = λ i b. rw (idx-free_list_insert up l halved) (heap.numbered i b);
    free =
        insert-IsFree up l (omega arith) in_hand (cons-not-mem up t [] ne refl)
          (omega (arith, whole.inside, pow-suc 2 l, one-le-pow l 2))
          (update_self (update p.status t l) up l);
  })

  status-split_step : (split_step t p).status ≡ update₂ p.status t l up l
  status-split_step = rw split_step-eq (status-free_list_insert up l halved)

  -- No used block is touched.
  split_step-kept :
      (i : ℕ)
      → IsUsed p.status i
      → ((split_step t p).status i ≡ p.status i) × (update₂ order t l up l i ≡ order i)
  split_step-kept i u =
      let not_t : i ≢ t = λ e. omega (arith, u.high, ap p.status e) in
      let not_up : i ≢ up = λ e. u.begins (ap p.status e ∙ grouped_up) in
      (
        rw status-split_step (update₂_other p.status t l up l i not_t not_up),
        update₂_other order t l up l i not_t not_up,
      )

-- The block in hand at `t` has come down to the order `o`, and no used block is touched.
pub record SplitTo (p p' : Pages) (order order' : ℕ → ℕ) (lists' : ℕ → List ℕ) (o t : ℕ)
    : Type 0 where
  pub heap : IsHeap p' (t ∷ []) order' lists'
  pub status : p'.status t ≡ o
  pub level : order' t ≡ o
  pub kept : (i : ℕ) → IsUsed p.status i → (p'.status i ≡ p.status i) × (order' i ≡ order i)

abbrev pub SplitLoop : Pages → (ℕ → ℕ) → ℕ → ℕ → Pages → Type 0
SplitLoop p order o t p' =
    (order' : ℕ → ℕ) × (lists' : ℕ → List ℕ) × SplitTo p p' order order' lists' o t

IsUsed-kept :
    {status status' : ℕ → ℕ} (i : ℕ) → status' i ≡ status i → IsUsed status i → IsUsed status' i
IsUsed-kept i e u = record {
  bound = u.bound;
  high = rw e u.high;
  begins = λ e'. u.begins (sym e ∙ e');
}

SplitTo-stop :
    {p : Pages} {order : ℕ → ℕ} {lists : ℕ → List ℕ} {o t : ℕ}
    → IsHeap p (t ∷ []) order lists
    → p.status t ≡ o
    → order t ≡ o
    → SplitTo p p order order lists o t
SplitTo-stop heap st ord = record {
  heap = heap;
  status = st;
  level = ord;
  kept = λ i u. (refl, refl);
}

SplitTo-step :
    {p p' : Pages} {order order' : ℕ → ℕ} {lists lists' : ℕ → List ℕ} {o : ℕ} (t l : ℕ)
    (heap : IsHeap p (t ∷ []) order lists) (bound : t < total_page) (st : p.status t ≡ suc l)
    (ord : order t ≡ suc l) (low : suc l ≤ block_max_order)
    → SplitTo (split_step t p) p' (update₂ order t l (t + 2 ^ l) l) order' lists' o t
    → SplitTo p p' order order' lists' o t
SplitTo-step t l heap bound st ord low s = record {
  heap = s.heap;
  status = s.status;
  level = s.level;
  kept = λ i u.
      let (same, same') = split_step-kept t l heap bound st ord low i u in
      let (then_, then') = s.kept i (IsUsed-kept i same u) in (then_ ∙ same, then' ∙ same');
}

-- The loop ends with the order that is asked for.
pub split_loop-SplitTo :
    (n l o t : ℕ) {p : Pages} {order : ℕ → ℕ} {lists : ℕ → List ℕ}
    → IsHeap p (t ∷ []) order lists
    → t < total_page
    → p.status t ≡ l
    → order t ≡ l
    → l ≤ block_max_order
    → o ≤ l
    → l ≤ n
    → SplitLoop p order o t (split_loop n o t p)
unfolding split_loop
split_loop-SplitTo zero l o t {order} {lists} heap bound st ord low le fuel =
    (order, lists, SplitTo-stop heap (st ∙ omega arith) (ord ∙ omega arith))
split_loop-SplitTo (suc n) zero o t {p} {order} {lists} heap bound st ord low le fuel =
    let done : ltb o (p.status t) ≡ false = rw st (ground arith) in
    rw done (order, lists, SplitTo-stop heap (st ∙ omega arith) (ord ∙ omega arith))
split_loop-SplitTo (suc n) (suc l) o t {p} {order} {lists} heap bound st ord low le fuel =
    elim (dec_lt o (suc l)) [
      | yes lt ↦
          let more : ltb o (p.status t) ≡ true = rw st (lt→ltb o (suc l) lt) in
          let ne : t ≢ t + 2 ^ l = omega (arith, one-le-pow l 2) in
          let st' : (split_step t p).status t ≡ l =
            rw (status-split_step t l heap bound st ord low)
              (update₂_first p.status t l (t + 2 ^ l) l ne) in
          let ord' = update₂_first order t l (t + 2 ^ l) l ne in
          let (order'', lists'', s) =
            split_loop-SplitTo n l o t (split_step-IsHeap t l heap bound st ord low) bound st' ord'
              (omega arith) (omega arith) (omega arith) in
          rw more (order'', lists'', SplitTo-step t l heap bound st ord low s)
      | no ge ↦
          let done : ltb o (p.status t) ≡ false = rw st (ground arith) in
          rw done (order, lists, SplitTo-stop heap (st ∙ omega arith) (ord ∙ omega arith))
    ]
