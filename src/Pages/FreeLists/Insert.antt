-- ===== src/Pages/FreeLists/Insert.antt =====
-- `free_list_insert` on well-formed lists.
use mathlib.Core.Path.{subst}
use native.Mathlib.Decide.{ℕ_discrete}
use oscs25_labs.Base.{
  mem-head, mem-tail, cons-mem, update-ne, update_self, cons-not-mem, ℕ, ◌≤◌, ◌<◌, ◌≡◌, ◌∙◌, sym,
  ap, refl, true, false, some, List, [], ◌∷◌, arith, update, mem, not-mem-cons, ne_of_mem,
}
use oscs25_labs.Template.Links.Splice.{list_add-Seg, list_add_other}
use oscs25_labs.Pages.{Pages, block_max_order, total_page, is_negative, free_list_insert}
use oscs25_labs.Pages.FreeLists.{IsFree, lists_apart, not_listed, relink}

-- An insertion leaves the statuses and the numbers of the blocks alone.
pub status-free_list_insert : (i k : ℕ) (p : Pages) → (free_list_insert i k p).status ≡ p.status
unfolding free_list_insert
status-free_list_insert i k p = ground arith

pub idx-free_list_insert : (i k : ℕ) (p : Pages) → (free_list_insert i k p).idx ≡ p.idx
unfolding free_list_insert
idx-free_list_insert i k p = ground arith

module _ {p : Pages} {hand : List ℕ} {lists : ℕ → List ℕ} (i k : ℕ)
    (low : k ≤ block_max_order) where
  -- A page in hand goes to the front of the list that its status names.
  module _ (f : IsFree p (i ∷ hand) lists) (out : mem i hand ≡ false) (bound : i < total_page)
      (st : p.status i ≡ k) where
    abbrev inserted : ℕ → List ℕ
    inserted = update lists k (i ∷ lists k)

    insert_sound :
        (k' j : ℕ)
        → k' ≤ block_max_order
        → mem j (inserted k') ≡ true
        → (j < total_page) × (p.status j ≡ k') × (mem j hand ≡ false)
    insert_sound k' j low' m = elim (ℕ_discrete k' k) [
      | yes e ↦ elim (ℕ_discrete j i) [
        | yes e' ↦ rw e' (bound, st ∙ sym e, out)
        | no ne ↦
            let m' : mem j (i ∷ lists k) ≡ true = rw (e, update_self lists k (i ∷ lists k)) at m in
            let (b, s, o) = f.sound k j low (mem-tail j i (lists k) ne m') in
            (b, s ∙ sym e, (not-mem-cons j i hand o).1)
      ]
      | no ne ↦
          let (b, s, o) = f.sound k' j low' (rw (update-ne lists k (i ∷ lists k) k' ne) at m) in
          (b, s, (not-mem-cons j i hand o).1)
    ]

    insert_complete :
        (k' j : ℕ)
        → k' ≤ block_max_order
        → j < total_page
        → p.status j ≡ k'
        → mem j hand ≡ false
        → mem j (inserted k') ≡ true
    insert_complete k' j low' b s o = elim (ℕ_discrete j i) [
      | yes e ↦
          let e' : k' ≡ k = sym s ∙ ap p.status e ∙ st in
          rw (e', update_self lists k (i ∷ lists k))
            (subst (λ a. mem a (i ∷ lists k) ≡ true) (sym e) (mem-head i (lists k)))
      | no ne ↦
          let m = f.complete k' j low' b s (cons-not-mem j i hand ne o) in
          elim (ℕ_discrete k' k) [
            | yes e ↦ rw (e, update_self lists k (i ∷ lists k)) (cons-mem j i (lists k) (rw e at m))
            | no ne' ↦ rw (update-ne lists k (i ∷ lists k) k' ne') m
          ]
    ]

    pub insert-IsFree : IsFree (free_list_insert i k p) hand (update lists k (i ∷ lists k))
    unfolding free_list_insert
    insert-IsFree =
        let e : is_negative k ≡ false = ground arith in
        let fresh =
          λ (k' : ℕ) (low' : k' ≤ block_max_order). not_listed k' i f low' (mem-head i hand) in
        rw (e, f.linked.head k low)
          (record {
            linked =
                relink p.links _ p.free_list lists k (i ∷ lists k) (some i) f.linked
                  (λ k' low' ne j m.
                    list_add_other i [] (lists k) p.links j
                      (ne_of_mem j i (lists k') m (fresh k' low')) refl
                      (lists_apart k' k j f low' low ne m))
                  (list_add-Seg i [] (lists k) p.links (f.linked.distinct k low) (fresh k low)
                    (f.linked.chain k low))
                  (fresh k low, f.linked.distinct k low) refl;
            sound = insert_sound;
            complete = insert_complete;
          })
