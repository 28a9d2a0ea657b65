-- ===== src/Pages/Free/Loop.antt =====
-- The loop of `page_free`, level by level.
use Prim.Native.Nat.{bit_xor}
use native.Mathlib.Numerals.{add-one}
use mathlib.Core.Path.{fun_ext, subst}
use native.Mathlib.Nat.{pow-suc, pow-le-pow_right, one-le-pow}
use native.Mathlib.Decide.{ℕ_discrete}
use oscs25_labs.Base.{
  ℕ, zero, suc, ◌+◌, ◌^◌, ◌≤◌, ◌<◌, ◌≡◌, ◌≢◌, ◌∙◌, ◌⊎◌, inl, inr, sym, ap, refl, true, false, ◌&&◌,
  List, [], ◌∷◌, arith, update, update-ne, update_self, ltb, ◌==◌, mem, remove, cons-not-mem,
}
use oscs25_labs.Base.Bits.{Aligned, Aligned-le, Aligned-cases, buddy_upper, buddy_lower}
use oscs25_labs.Pages.{
  Pages, page_grouped, block_max_order, total_page, set_status, free_list_insert, free_list_remove,
  merge_page_block, free_loop,
}
use oscs25_labs.Pages.Shape.{IsBlock}
use oscs25_labs.Pages.FreeLists.Remove.{status-free_list_remove}
use oscs25_labs.Pages.Invariant.{IsHeap}
use oscs25_labs.Pages.Merge.{
  AreBuddies, merged-IsHeap, merge_page_block_above, merge_page_block_below,
  merge_page_block_grouped, lower_begins, upper_begins, pair_bound,
}
use oscs25_labs.Pages.Free.{
  FreeLoop, Freed-merge, freed-FreeLoop, free_loop-stop, free_loop-merge, fine_test, stop_top,
  stop_used, go_on, go_on_inside,
}

-- The rest of the loop, from the next level on.
abbrev Rest : ℕ → ℕ → Type 0
Rest n l =
    (h : ℕ) (p : Pages) (order : ℕ → ℕ) (lists : ℕ → List ℕ)
    → IsHeap p (h ∷ []) order lists
    → h < total_page
    → p.status h ≢ page_grouped
    → order h ≡ suc l
    → FreeLoop p order (suc l) h (free_loop n (l + 1) h p)

-- A round that merges the blocks at `h` and `h + 2 ^ l`, of which `u` is in hand and `b` is free.
module _ (n l h u b : ℕ) (rest : Rest n l) {p : Pages} {order : ℕ → ℕ} {lists : ℕ → List ℕ}
    (pair : AreBuddies h l u b) (heap : IsHeap p (u ∷ []) order lists)
    (low : suc l ≤ block_max_order) (bound : h + 2 ^ l < total_page)
    (begins : p.status h ≢ page_grouped) (begins_up : p.status (h + 2 ^ l) ≢ page_grouped)
    (ord : order h ≡ l) (ord_up : order (h + 2 ^ l) ≡ l) (st : p.status b ≡ l)
    (listed : mem b (lists l) ≡ true) (lo : h ≤ u) (hi : u ≤ h + 2 ^ l) where
  abbrev merged : Pages
  merged = set_status (h + 2 ^ l) page_grouped (free_list_remove b l p)

  status_h : merged.status h ≡ p.status h
  status_h =
      update-ne (free_list_remove b l p).status (h + 2 ^ l) page_grouped h
        (omega (arith, one-le-pow l 2))
      ∙ ap (λ (g : ℕ → ℕ). g h) (status-free_list_remove b l p)

  merge_round : FreeLoop p order l u (free_loop n (l + 1) h merged)
  merge_round =
      let heap' = merged-IsHeap h l u b pair heap low bound begins begins_up ord ord_up listed in
      let (order', lists', head, f) =
        rest h merged (update order h (suc l)) (update lists l (remove b (lists l))) heap'
          (omega arith) (λ e. begins (sym status_h ∙ e)) (update_self order h (suc l)) in
      (order', lists', head, Freed-merge h l u b head pair (rw st (omega arith)) lo hi f)

module _ (n l : ℕ) (rest : Rest n l) {p : Pages} {order : ℕ → ℕ} {lists : ℕ → List ℕ} (u : ℕ)
    (heap : IsHeap p (u ∷ []) order lists) (low : l ≤ block_max_order) (bound : u < total_page)
    (begins : p.status u ≢ page_grouped) (ord : order u ≡ l) where
  stopped :
      (b : ℕ)
      → bit_xor u (2 ^ l) ≡ b
      → b ≢ u
      → (l ≡ block_max_order) ⊎ (p.status b ≢ l)
      → free_loop (suc n) l u p ≡ free_list_insert u l (set_status u l p)
      → FreeLoop p order l u (free_loop (suc n) l u p)
  stopped b buddy ne stop e = rw e (freed-FreeLoop l u low heap bound begins ord b buddy ne stop)

  round_above : Aligned (suc l) u → FreeLoop p order l u (free_loop (suc n) l u p)
  round_above al =
      let pos = one-le-pow l 2 in
      let up = u + 2 ^ l in
      let buddy = buddy_upper l u al in
      let fine : (ltb up u && (p.status up == page_grouped)) ≡ false = ground arith in
      elim (ℕ_discrete l block_max_order) [
        | yes top ↦
            stopped up buddy (omega arith) (inl top)
              (free_loop-stop n l u up p buddy fine (stop_top (p.status up) l top))
        | no ne ↦
            let bound_up = pair_bound u l (omega arith) al bound in
            let begins_up = upper_begins u l heap.partition begins ord bound_up in
            let not_in_hand : mem up (u ∷ []) ≡ false = cons-not-mem up u [] (omega arith) refl in
            elim (ℕ_discrete (p.status up) l) [
              | no used ↦
                  stopped up buddy (omega arith) (inr used) (
                    free_loop-stop n l u up p buddy fine (stop_used (p.status up) l used begins_up))
              | yes st ↦
                  rw
                    (free_loop-merge n l u up p buddy fine _ (go_on (p.status up) l st ne)
                      (merge_page_block_above p u l st low))
                    (merge_round n l u u up rest (record { aligned = al; halves = λ j. refl }) heap
                      (omega arith) bound_up begins begins_up ord
                      (heap.orders up bound_up (rw st low) not_in_hand ∙ st) st
                      (heap.free.complete l up low bound_up st not_in_hand) (omega arith)
                      (omega arith))
            ]
      ]

swapped : (a b j : ℕ) → mem j (a ∷ b ∷ []) ≡ mem j (b ∷ a ∷ [])
swapped a b j = ground arith

round_below :
    (n l : ℕ) (rest : Rest n l) {p : Pages} {order : ℕ → ℕ} {lists : ℕ → List ℕ} (w : ℕ)
    (heap : IsHeap p ((w + 2 ^ l) ∷ []) order lists)
    → l ≤ block_max_order
    → w + 2 ^ l < total_page
    → p.status (w + 2 ^ l) ≢ page_grouped
    → order (w + 2 ^ l) ≡ l
    → Aligned (suc l) w
    → FreeLoop p order l (w + 2 ^ l) (free_loop (suc n) l (w + 2 ^ l) p)
round_below n l rest {p} w heap low bound begins ord al =
    let pos = one-le-pow l 2 in
    let u = w + 2 ^ l in
    let buddy = buddy_lower l w al in
    let begins_w = lower_begins w l heap.partition al bound begins in
    let fine = fine_test u w (p.status w) begins_w in
    let stop = stopped n l rest u heap low bound begins ord w buddy (omega arith) in
    elim (ℕ_discrete l block_max_order) [
      | yes top ↦ stop (inl top) (free_loop-stop n l u w p buddy fine (stop_top (p.status w) l top))
      | no ne ↦
          let bound_w : w < total_page = omega arith in
          let not_in_hand : mem w (u ∷ []) ≡ false = cons-not-mem w u [] (omega arith) refl in
          elim (ℕ_discrete (p.status w) l) [
            | no used ↦
                stop (inr used)
                  (free_loop-stop n l u w p buddy fine (stop_used (p.status w) l used begins_w))
            | yes st ↦
                rw
                  (free_loop-merge n l u w p buddy fine _ (go_on (p.status w) l st ne)
                    (merge_page_block_below p w l st low))
                  (merge_round n l w u w rest (record { aligned = al; halves = swapped w u }) heap
                    (omega arith) bound begins_w begins
                    (heap.orders w bound_w (rw st low) not_in_hand ∙ st) ord st
                    (heap.free.complete l w low bound_w st not_in_hand) (omega arith) (omega arith))
          ]
    ]

-- From the level of the block in hand on, the loop frees it.
pub free_loop-FreeLoop :
    (n l u : ℕ) {p : Pages} {order : ℕ → ℕ} {lists : ℕ → List ℕ}
    → l + n ≡ block_max_order + 1
    → IsHeap p (u ∷ []) order lists
    → u < total_page
    → p.status u ≢ page_grouped
    → order u ≡ l
    → FreeLoop p order l u (free_loop n l u p)
free_loop-FreeLoop zero l u fuel heap bound begins ord =
    let low = (heap.partition.block u bound begins).low in absurd (omega arith)
free_loop-FreeLoop (suc n) l u {p} {order} {lists} fuel heap bound begins ord =
    let block : IsBlock p.status u l = rw ord at (heap.partition.block u bound begins) in
    let rest : Rest n l = λ h q order' lists' heap' bound' begins' ord'.
      subst (λ (k : ℕ). FreeLoop q order' k h (free_loop n (l + 1) h q)) (add-one l)
        (free_loop-FreeLoop n (l + 1) h (omega arith) heap' bound' begins'
          (ord' ∙ sym (add-one l))) in
    elim (Aligned-cases l u block.aligned) [
      | inl al ↦ round_above n l rest u heap block.low bound begins ord al
      | inr (w, al, e) ↦
          subst (λ (k : ℕ). FreeLoop p order l k (free_loop (suc n) l k p)) (sym e)
            (round_below n l rest w (rw e at heap) block.low (rw e at bound) (rw e at begins)
              (rw e at ord) al)
    ]

-- The rounds inside the block in hand, whose other pages are grouped already, change nothing.
module _ (p : Pages) (t : ℕ) where
  set_status_same : (i v : ℕ) → p.status i ≡ v → set_status i v p ≡ p
  set_status_same i v e =
      ap (λ (f : ℕ → ℕ). record p { status = f })
        (fun_ext λ j. elim (ℕ_discrete j i) [
          | yes same ↦ rw (same, update_self p.status i v) (sym e)
          | no ne ↦ update-ne p.status i v j ne
        ])

  merge_inside :
      (l : ℕ) → p.status (t + 2 ^ l) ≡ page_grouped → merge_page_block t (t + 2 ^ l) l p ≡ (t, p)
  merge_inside l e =
      merge_page_block_grouped p t l e
      ∙ ap (λ (q : Pages). (t, q)) (set_status_same (t + 2 ^ l) page_grouped e)

  inner_round :
      (n l k : ℕ) → l < k → IsBlock p.status t k → free_loop (suc n) l t p ≡ free_loop n (l + 1) t p
  inner_round n l k lt block =
      let pos = one-le-pow l 2 in
      let wide = pow-le-pow_right {n = 2} (omega arith) {i = suc l} {j = k} lt in
      let up = t + 2 ^ l in
      let buddy = buddy_upper l t (Aligned-le k (suc l) t lt block.aligned) in
      let inside = block.grouped up (omega arith) (omega (arith, pow-suc 2 l)) in
      let fine : (ltb up t && (p.status up == page_grouped)) ≡ false = ground arith in
      let not_top : l ≢ block_max_order = λ e. omega (arith, block.low) in
      free_loop-merge n l t up p buddy fine (t, p) (go_on_inside (p.status up) l inside not_top)
        (merge_inside l inside)

  pub inner_rounds :
      (d n l fuel k : ℕ)
      → fuel ≡ d + n
      → k ≡ l + d
      → IsBlock p.status t k
      → free_loop fuel l t p ≡ free_loop n k t p
  inner_rounds zero n l fuel k ef ek block =
      let ef' : fuel ≡ n = omega arith in let ek' : k ≡ l = omega arith in rw (ef', ek')
  inner_rounds (suc d) n l zero k ef ek block = absurd (omega arith)
  inner_rounds (suc d) n l (suc fuel) k ef ek block =
      inner_round fuel l k (omega arith) block
      ∙ inner_rounds d n (l + 1) fuel k (omega arith) (omega arith) block
