-- ===== src/Pages/Clean.antt =====
-- Pages that are on no free list have clear links, so that taking them off a list changes nothing.
use mathlib.Core.Path.{fun_ext}
use native.Mathlib.Decide.{ℕ_discrete}
use oscs25_labs.Base.{
  ℕ, ◌<◌, ◌≤◌, ◌≡◌, ◌∙◌, sym, ap₂, refl, true, false, none, some, List, [], ◌∷◌, arith, update,
  update-ne, update_self, mem, mem-append, remove, mem-split, not-mem-cons, not-mem-append,
  same_ptr, ==_iff, first_or,
}
use oscs25_labs.Template.Links.{Ptr, Links, list_remove, node_init, set_prev, set_next}
use oscs25_labs.Template.Links.Splice.{list_add_other, list_remove-Removed}
use oscs25_labs.Pages.{
  Pages, block_max_order, total_page, is_negative, free_list_insert, free_list_remove,
}
use oscs25_labs.Pages.FreeLists.{IsFree}

abbrev pub IsClear : Links → ℕ → Type 0
IsClear s i = (s.prev i ≡ none) × (s.next i ≡ none)

abbrev pub IsClean : Pages → (ℕ → List ℕ) → Type 0
IsClean p lists =
    (i : ℕ)
    → i < total_page
    → ((k : ℕ) → k ≤ block_max_order → mem i (lists k) ≡ false)
    → IsClear p.links i

cleared : (f : ℕ → Ptr) (i : ℕ) → f i ≡ none → update f i none ≡ f
cleared f i e = fun_ext (λ j. elim (ℕ_discrete j i) [
  | yes same ↦ rw (same, update_self f i none) (sym e)
  | no ne ↦ update-ne f i none j ne
])

update_same : (f : ℕ → Ptr) (i : ℕ) → update f i (f i) ≡ f
update_same f i = fun_ext (λ j. elim (ℕ_discrete j i) [
  | yes same ↦ rw (same, update_self f i (f i)) refl
  | no ne ↦ update-ne f i (f i) j ne
])

-- A node with clear links is removed.
list_remove-clear : (i : ℕ) (s : Links) → IsClear s i → (list_remove (some i) s).1 ≡ s
unfolding list_remove set_next set_prev node_init
list_remove-clear i s (before, behind) =
    let eq : (list_remove (some i) s).1 ≡ node_init i s = rw (before, behind) refl in
    eq
    ∙ ap₂ (λ (f g : ℕ → Ptr). record s { prev = f; next = g }) (cleared s.prev i before)
        (cleared s.next i behind)

not_first : (xs : List ℕ) (i : ℕ) → mem i xs ≡ false → same_ptr (first_or xs none) (some i) ≡ false
not_first [] i out = refl
not_first (x ∷ xs) i out = ground (arith, ==_iff x i, ==_iff i x)

-- A page on no list is taken off a list: nothing changes.
pub free_list_remove_absent :
    (p : Pages) (i k : ℕ) (xs : List ℕ)
    → p.free_list k ≡ first_or xs none
    → IsClear p.links i
    → mem i xs ≡ false
    → free_list_remove i k p ≡ p
unfolding free_list_remove
free_list_remove_absent p i k xs head clear out =
    let other : same_ptr (p.free_list k) (some i) ≡ false = rw head (not_first xs i out) in
    let same : update p.free_list k (p.free_list k) ≡ p.free_list = update_same p.free_list k in
    rw (other, list_remove-clear i p.links clear, same) refl

-- What an insertion leaves of a page, wherever it is.
pub insert-IsClear :
    {p : Pages} {hand : List ℕ} {lists : ℕ → List ℕ} (i k : ℕ)
    → k ≤ block_max_order
    → IsFree p hand lists
    → (j : ℕ) → (((k' : ℕ) → k' ≤ block_max_order → mem j (lists k') ≡ false) → IsClear p.links j)
    → ((k' : ℕ) → k' ≤ block_max_order → mem j (update lists k (i ∷ lists k) k') ≡ false)
    → IsClear (free_list_insert i k p).links j
unfolding free_list_insert
insert-IsClear {p} {lists = lists} i k low f j clean out =
    let e : is_negative k ≡ false = ground arith in
    let here : mem j (i ∷ lists k) ≡ false =
      rw (update_self lists k (i ∷ lists k)) at (out k low) in
    let (ne, out_k) = not-mem-cons j i (lists k) here in
    let was : (k' : ℕ) → k' ≤ block_max_order → mem j (lists k') ≡ false = λ k' low'.
      elim (ℕ_discrete k' k) [
        | yes same ↦ rw same out_k
        | no other ↦ rw (update-ne lists k (i ∷ lists k) k' other) at (out k' low')
      ] in
    let clear = clean was in
    let same = list_add_other i [] (lists k) p.links j ne refl out_k in
    rw (e, f.linked.head k low) (same.prev ∙ clear.0, same.next ∙ clear.1)

module _ {p : Pages} {hand : List ℕ} {lists : ℕ → List ℕ} (i k : ℕ) (low : k ≤ block_max_order)
    (f : IsFree p hand lists) (clean : IsClean p lists) where
  pub insert-IsClean : IsClean (free_list_insert i k p) (update lists k (i ∷ lists k))
  insert-IsClean j bound out = insert-IsClear i k low f j (clean j bound) out

  pub remove-IsClean :
      mem i (lists k) ≡ true
      → IsClean (free_list_remove i k p) (update lists k (remove i (lists k)))
  unfolding free_list_remove
  remove-IsClean m j bound out =
      let (ys, zs, e, r) = mem-split i (lists k) m in
      let gone =
        list_remove-Removed i ys zs p.links (rw e at (f.linked.distinct k low))
          (rw e at (f.linked.chain k low)) in
      let here : mem j (remove i (lists k)) ≡ false =
        rw (update_self lists k (remove i (lists k))) at (out k low) in
      elim (ℕ_discrete j i) [
        | yes same ↦ rw same gone.unlinked
        | no ne ↦
            let (oy, oz) = not-mem-append j ys zs (rw r at here) in
            let was : (k' : ℕ) → k' ≤ block_max_order → mem j (lists k') ≡ false = λ k' low'.
              elim (ℕ_discrete k' k) [
                | yes same' ↦ rw (same', e) (ground (arith, mem-append j ys (i ∷ zs), ==_iff j i))
                | no other ↦ rw (update-ne lists k (remove i (lists k)) k' other) at (out k' low')
              ] in
            let clear = clean j bound was in
            let same = gone.others j ne oy oz in (same.prev ∙ clear.0, same.next ∙ clear.1)
      ]
