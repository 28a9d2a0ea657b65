-- ===== src/Pages/Halve.antt =====
-- A round of the split in `memory_reserve`: a block that is off the lists is halved, and the half
-- that is not wanted becomes a free block.
use mathlib.Core.Path.{fun_ext, subst}
use native.Mathlib.Decide.{ℕ_discrete}
use oscs25_labs.Base.{
  ℕ, ◌≤◌, ◌<◌, ◌≡◌, ◌≢◌, ◌∙◌, ◌⊎◌, inl, inr, sym, ap, refl, List, [], ◌∷◌, arith, update, update-ne,
  update_self, mem-head, cons-mem, cons-not-mem, Bool-cases, ==_iff,
}
use oscs25_labs.Pages.{
  Pages, page_reserved, block_max_order, total_page, set_status, is_negative, free_list_insert,
}
use oscs25_labs.Pages.Clean.{IsClean, insert-IsClean}
use oscs25_labs.Pages.FreeLists.{IsFree, set_status-IsFree, take-IsFree, drop-IsFree}
use oscs25_labs.Pages.FreeLists.Insert.{
  insert-IsFree, status-free_list_insert, idx-free_list_insert,
}
use oscs25_labs.Pages.Invariant.{IsHeap}
use oscs25_labs.Pages.Shape.{IsPartition}

-- The block of order `c` at `a` is off the lists: with `a` as a reserved page the heap is well-formed.
-- The status of `a` itself may be any.
pub record Holds (q : Pages) (a c : ℕ) (order : ℕ → ℕ) (lists : ℕ → List ℕ) : Type 0 where
  pub heap : IsHeap (set_status a page_reserved q) [] order lists
  pub clean : IsClean q lists
  pub level : order a ≡ c
  pub bound : a < total_page

set_status-free_list_insert :
    (x v y l : ℕ) (p : Pages)
    → set_status x v (free_list_insert y l p) ≡ free_list_insert y l (set_status x v p)
unfolding free_list_insert
set_status-free_list_insert x v y l p = elim (Bool-cases (is_negative l)) [
  | inl negative ↦ rw negative refl
  | inr other ↦ rw other refl
]

-- The half `x` is kept, the half `y` is freed; both are used pages or grouped ones before.
module _ (a l x y : ℕ) (q : Pages) (low : l ≤ block_max_order) (ne : x ≢ y)
    (one : (a ≡ x) ⊎ (a ≡ y)) (bound : y < total_page)
    (high_x : block_max_order < update q.status a page_reserved x)
    (high_y : block_max_order < update q.status a page_reserved y) where
  abbrev step_by_step : Pages
  step_by_step = set_status y l (set_status x page_reserved (set_status a page_reserved q))

  abbrev at_once : Pages
  at_once = set_status x page_reserved (set_status y l q)

  statuses : (j : ℕ) → step_by_step.status j ≡ at_once.status j
  statuses j = ground (arith, ==_iff j x, ==_iff j y, ==_iff j a, one)

  same_pages : step_by_step ≡ at_once
  same_pages = ap (λ (st : ℕ → ℕ). record q { status = st }) (fun_ext statuses)

  -- Both halves are in hand, with their new statuses.
  in_hand-IsFree :
      (lists : ℕ → List ℕ)
      → IsFree (set_status a page_reserved q) [] lists
      → IsFree at_once (y ∷ x ∷ []) lists
  in_hand-IsFree lists f =
      let taken = take-IsFree y high_y (take-IsFree x high_x f) in
      subst (λ (p : Pages). IsFree p (y ∷ x ∷ []) lists) same_pages
        (set_status-IsFree y l (mem-head y (x ∷ []))
          (set_status-IsFree x page_reserved (cons-mem x y (x ∷ []) (mem-head x [])) taken))

  abbrev inserted : Pages
  inserted = free_list_insert y l (set_status y l q)

  moved : free_list_insert y l at_once ≡ set_status x page_reserved inserted
  moved = sym (set_status-free_list_insert x page_reserved y l (set_status y l q))

  halves-IsFree :
      (lists : ℕ → List ℕ)
      → IsFree (set_status a page_reserved q) [] lists
      → IsFree (set_status x page_reserved inserted) [] (update lists l (y ∷ lists l))
  halves-IsFree lists f =
      let put =
        insert-IsFree y l low (in_hand-IsFree lists f) (cons-not-mem y x [] (λ e. ne (sym e)) refl)
          bound (ground (arith, ==_iff y y, ==_iff y x)) in
      drop-IsFree x (rw (update_self inserted.status x page_reserved) (omega arith))
        (subst (λ (p : Pages). IsFree p (x ∷ []) (update lists l (y ∷ lists l))) moved put)

  halves-IsClean :
      (lists : ℕ → List ℕ)
      → IsFree (set_status a page_reserved q) [] lists
      → IsClean q lists
      → IsClean inserted (update lists l (y ∷ lists l))
  halves-IsClean lists f clean =
      subst (λ (p : Pages). IsClean p (update lists l (y ∷ lists l))) moved
        (insert-IsClean y l low (in_hand-IsFree lists f) clean)

  halves_orders :
      (order order' : ℕ → ℕ)
      → ((i : ℕ)
          → i < total_page
          → update q.status a page_reserved i ≤ block_max_order
          → order i ≡ update q.status a page_reserved i)
      → order' y ≡ l
      → ((i : ℕ) → i ≢ x → i ≢ y → order' i ≡ order i)
      → (i : ℕ) → i < total_page
      → at_once.status i ≤ block_max_order
      → order' i ≡ at_once.status i
  halves_orders order order' was here others i bound_i small = elim (ℕ_discrete i y) [
    | yes same ↦ ground (arith, same, here, ==_iff y x, ==_iff y y)
    | no not_y ↦ elim (ℕ_discrete i x) [
      | yes same ↦ absurd (
          omega (
            arith,
            ap at_once.status same,
            small,
            update_self (update q.status y l) x page_reserved,
          ))
      | no not_x ↦
          let not_a : i ≢ a = λ e. ground (arith, one) in
          let st : at_once.status i ≡ q.status i =
            update-ne (update q.status y l) x page_reserved i not_x
            ∙ update-ne q.status y l i not_y in
          let st' = update-ne q.status a page_reserved i not_a in
          others i not_x not_y ∙ was i bound_i (rw st' (rw st at small)) ∙ st' ∙ sym st
    ]
  ]

  pub halves-Holds :
      (order order' : ℕ → ℕ) (lists : ℕ → List ℕ)
      → IsHeap (set_status a page_reserved q) [] order lists
      → IsClean q lists
      → x < total_page
      → IsPartition at_once.status order'
      → order' x ≡ l
      → order' y ≡ l
      → ((i : ℕ) → i ≢ x → i ≢ y → order' i ≡ order i)
      → Holds inserted x l order' (update lists l (y ∷ lists l))
  halves-Holds order order' lists heap clean bound_x part ox oy others =
      let same : inserted.status ≡ update q.status y l =
        status-free_list_insert y l (set_status y l q) in
      let numbers : inserted.idx ≡ q.idx = idx-free_list_insert y l (set_status y l q) in
      record {
        heap = record {
          partition =
              subst (λ (st : ℕ → ℕ). IsPartition (update st x page_reserved) order') (sym same)
                part;
          orders = λ i b small out.
              let st : update inserted.status x page_reserved i ≡ at_once.status i =
                ap (λ (f : ℕ → ℕ). update f x page_reserved i) same in
              halves_orders order order' (λ j bj sj. heap.orders j bj sj refl) oy others i b
                (rw st at small)
              ∙ sym st;
          numbered = rw numbers heap.numbered;
          free = halves-IsFree lists heap.free;
        };
        clean = halves-IsClean lists heap.free clean;
        level = ox;
        bound = bound_x;
      }
