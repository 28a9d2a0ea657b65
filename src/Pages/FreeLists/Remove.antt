-- ===== src/Pages/FreeLists/Remove.antt =====
-- `free_list_remove` and `free_list_pop` on well-formed lists.
use native.Mathlib.Decide.{ℕ_discrete}
use oscs25_labs.Base.{
  ◌==◌, if◌then◌else◌, same_ptr, mem-append, mem_of_mem-remove, not-mem-remove_self, mem-remove_ne,
  not-mem-append, mem-head, update-ne, update_self, cons-not-mem, ℕ, ◌≤◌, ◌<◌, ◌≡◌, ◌∙◌, sym, ap,
  refl, true, false, none, some, List, [], ◌∷◌, ◌++◌, arith, update, ==_iff, first_or, mem, remove,
  mem-split, Distinct-remove, not-mem-cons, ne_of_mem,
}
use oscs25_labs.Template.Links.{Ptr, list_remove}
use oscs25_labs.Template.Links.Splice.{list_remove-Removed}
use oscs25_labs.Pages.{Pages, block_max_order, total_page, free_list_pop, free_list_remove}
use oscs25_labs.Pages.FreeLists.{IsFree, lists_apart, relink}

module _ {p : Pages} {hand : List ℕ} {lists : ℕ → List ℕ} (i k : ℕ) (low : k ≤ block_max_order)
    (f : IsFree p hand lists) (m : mem i (lists k) ≡ true) where
  abbrev removed : ℕ → List ℕ
  removed = update lists k (remove i (lists k))

  removed_sound :
      (k' j : ℕ)
      → k' ≤ block_max_order
      → mem j (removed k') ≡ true
      → (j < total_page) × (p.status j ≡ k') × (mem j (i ∷ hand) ≡ false)
  removed_sound k' j low' m' = elim (ℕ_discrete k' k) [
    | yes e ↦
        let mj : mem j (remove i (lists k)) ≡ true =
          rw (e, update_self lists k (remove i (lists k))) at m' in
        let (b, s, o) = f.sound k j low (mem_of_mem-remove i j (lists k) mj) in
        (
          b,
          s ∙ sym e,
          cons-not-mem j i hand
              (ne_of_mem j i (remove i (lists k)) mj
                (not-mem-remove_self i (lists k) (f.linked.distinct k low)))
              o,
        )
    | no ne ↦
        let mj : mem j (lists k') ≡ true =
          rw (update-ne lists k (remove i (lists k)) k' ne) at m' in
        let (b, s, o) = f.sound k' j low' mj in
        (
          b,
          s,
          cons-not-mem j i hand
              (ne_of_mem j i (lists k') mj (lists_apart k k' i f low low' (λ e. ne (sym e)) m)) o,
        )
  ]

  removed_complete :
      (k' j : ℕ)
      → k' ≤ block_max_order
      → j < total_page
      → p.status j ≡ k'
      → mem j (i ∷ hand) ≡ false
      → mem j (removed k') ≡ true
  removed_complete k' j low' b s o =
      let (ne, o') = not-mem-cons j i hand o in
      let mj = f.complete k' j low' b s o' in
      elim (ℕ_discrete k' k) [
        | yes e ↦
            rw (e, update_self lists k (remove i (lists k)))
              (mem-remove_ne i j (lists k) ne (rw e at mj))
        | no ne' ↦ rw (update-ne lists k (remove i (lists k)) k' ne') mj
      ]

  -- The links after the removal, with any new head that is the first of what is left.
  unlisted :
      (h : Ptr)
      → h ≡ first_or (remove i (lists k)) none
      → IsFree
          (record p {
            links = (list_remove (some i) p.links).1;
            free_list = update p.free_list k h;
          })
          (i ∷ hand)
          removed
  unlisted h eh =
      let (ys, zs, e, r) = mem-split i (lists k) m in
      let gone =
        list_remove-Removed i ys zs p.links (rw e at (f.linked.distinct k low))
          (rw e at (f.linked.chain k low)) in
      record {
        linked =
            relink p.links _ p.free_list lists k (remove i (lists k)) h f.linked
              (λ k' low' ne j mj.
                let out = lists_apart k' k j f low' low ne mj in
                let (oy, oiz) = not-mem-append j ys (i ∷ zs) (rw e at out) in
                let (ne', oz) = not-mem-cons j i zs oiz in gone.others j ne' oy oz)
              (rw r gone.chain) (Distinct-remove i (lists k) (f.linked.distinct k low)) eh;
        sound = removed_sound;
        complete = removed_complete;
      }

  -- What `free_list_remove` makes the head of the list.
  abbrev next_head : Ptr
  next_head = if same_ptr (p.free_list k) (some i) then p.links.next i else p.free_list k

  head_removed : (ys zs : List ℕ) → lists k ≡ ys ++ i ∷ zs → next_head ≡ first_or (ys ++ zs) none
  head_removed [] zs e =
      let (_, after, _) = rw e at (f.linked.chain k low) in
      let h : p.free_list k ≡ some i = f.linked.head k low ∙ ap (λ l. first_or l none) e in
      rw (h, (==_iff i i).1 refl) after
  head_removed (y ∷ ys) zs e =
      let h : p.free_list k ≡ some y = f.linked.head k low ∙ ap (λ l. first_or l none) e in
      let (out, _) = rw e at (f.linked.distinct k low) in
      let ne : (y == i) ≡ false = ground (arith, ==_iff y i, mem-append y ys (i ∷ zs)) in rw (h, ne)

  -- A page leaves its list and is in hand.
  pub remove-IsFree :
      IsFree (free_list_remove i k p) (i ∷ hand) (update lists k (remove i (lists k)))
  unfolding free_list_remove
  remove-IsFree =
      let (ys, zs, e, r) = mem-split i (lists k) m in
      unlisted next_head (rw r (head_removed ys zs e))

-- The first page of a list leaves it and is in hand.
pub pop-IsFree :
    {p : Pages} {hand : List ℕ} {lists : ℕ → List ℕ} (i k : ℕ) (rest : List ℕ)
    → k ≤ block_max_order
    → IsFree p hand lists
    → lists k ≡ i ∷ rest
    → ((free_list_pop k p).0 ≡ some i)
      × IsFree (free_list_pop k p).1 (i ∷ hand) (update lists k (remove i (lists k)))
unfolding free_list_pop
pop-IsFree {p} i k rest low f e =
    let h : p.free_list k ≡ some i = f.linked.head k low ∙ ap (λ l. first_or l none) e in
    let gone =
      list_remove-Removed i [] rest p.links (rw e at (f.linked.distinct k low))
        (rw e at (f.linked.chain k low)) in
    let r : remove i (i ∷ rest) ≡ rest = rw ((==_iff i i).1 refl) in
    (h, rw h (unlisted i k low f (rw e (mem-head i rest)) _ (gone.result ∙ rw (e, r))))

pub status-free_list_pop : (k : ℕ) (p : Pages) → (free_list_pop k p).1.status ≡ p.status
unfolding free_list_pop
status-free_list_pop k p = refl

pub idx-free_list_pop : (k : ℕ) (p : Pages) → (free_list_pop k p).1.idx ≡ p.idx
unfolding free_list_pop
idx-free_list_pop k p = refl

pub status-free_list_remove : (i k : ℕ) (p : Pages) → (free_list_remove i k p).status ≡ p.status
unfolding free_list_remove
status-free_list_remove i k p = refl

pub idx-free_list_remove : (i k : ℕ) (p : Pages) → (free_list_remove i k p).idx ≡ p.idx
unfolding free_list_remove
idx-free_list_remove i k p = refl
