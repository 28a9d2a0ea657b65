-- ===== src/Pages/FreeLists.antt =====
-- The free lists: what they hold, and the operations that put a block on a list or take it off.
pub mod Insert
pub mod Remove
use mathlib.Core.Path.{subst}
use native.Mathlib.Decide.{ℕ_discrete}
use oscs25_labs.Base.{
  mem-head, mem-tail, cons-mem, update-ne, update_self, cons-not-mem, ℕ, ◌+◌, ◌≤◌, ◌<◌, ◌≡◌, ◌≢◌,
  ◌∙◌, sym, ap, refl, inl, inr, true, false, none, some, List, [], ◌∷◌, ◌++◌, arith, update, ==_iff,
  Bool-cases, first_or, last_or, mem, mem-remove, remove, mem-split, Distinct, Distinct-remove,
  not-mem-cons, ne_of_mem,
}
use oscs25_labs.Template.Links.{Ptr, Links, list_add, list_remove}
use oscs25_labs.Template.Links.Seg.{Seg, SameAt, Seg-frame}
use oscs25_labs.Template.Links.Splice.{list_add-Seg, list_add_other, list_remove-Removed}
use oscs25_labs.Pages.{
  Pages, page_grouped, block_max_order, total_page, set_status, is_negative, free_list_insert,
  free_list_pop, free_list_remove,
}

-- Each head leads through the nodes of its list.
pub record IsLinked (s : Links) (heads : ℕ → Ptr) (lists : ℕ → List ℕ) : Type 0 where
  pub chain : (k : ℕ) → k ≤ block_max_order → Seg s none (lists k) none
  pub distinct : (k : ℕ) → k ≤ block_max_order → Distinct (lists k)
  pub head : (k : ℕ) → k ≤ block_max_order → heads k ≡ first_or (lists k) none

-- The list of level `k` holds exactly the pages with the status `k`, but for those of `hand`, which
-- an operation has taken off the lists or has not yet put on one.
pub record IsFree (p : Pages) (hand : List ℕ) (lists : ℕ → List ℕ) : Type 0 where
  pub linked : IsLinked p.links p.free_list lists
  pub sound :
      (k i : ℕ)
      → k ≤ block_max_order
      → mem i (lists k) ≡ true
      → (i < total_page) × (p.status i ≡ k) × (mem i hand ≡ false)
  pub complete :
      (k i : ℕ)
      → k ≤ block_max_order
      → i < total_page
      → p.status i ≡ k
      → mem i hand ≡ false
      → mem i (lists k) ≡ true

-- A page on one list is on no other.
pub lists_apart :
    {p : Pages} {hand : List ℕ} {lists : ℕ → List ℕ} (k k' i : ℕ)
    → IsFree p hand lists
    → k ≤ block_max_order
    → k' ≤ block_max_order
    → k ≢ k'
    → mem i (lists k) ≡ true
    → mem i (lists k') ≡ false
lists_apart {lists} k k' i f low low' ne m = elim (Bool-cases (mem i (lists k'))) [
  | inl here ↦ absurd (ne (sym (f.sound k i low m).1 ∙ (f.sound k' i low' here).1))
  | inr out ↦ out
]

pub not_listed :
    {p : Pages} {hand : List ℕ} {lists : ℕ → List ℕ} (k i : ℕ)
    → IsFree p hand lists
    → k ≤ block_max_order
    → mem i hand ≡ true
    → mem i (lists k) ≡ false
not_listed {lists} k i f low m = elim (Bool-cases (mem i (lists k))) [
  | inl here ↦ absurd (cc (f.sound k i low here).2)
  | inr out ↦ out
]

-- A page in hand may get any status.
pub set_status-IsFree :
    {p : Pages} {hand : List ℕ} {lists : ℕ → List ℕ} (i v : ℕ)
    → mem i hand ≡ true
    → IsFree p hand lists
    → IsFree (set_status i v p) hand lists
set_status-IsFree {p} {hand} i v inhand f = record {
  linked = f.linked;
  sound = λ k j low m. let (bound, st, out) = f.sound k j low m in (bound, other j out ∙ st, out);
  complete = λ k j low bound st out. f.complete k j low bound (sym (other j out) ∙ st) out;
}
  where
    other : (j : ℕ) → mem j hand ≡ false → update p.status i v j ≡ p.status j
    other j out = update-ne p.status i v j (λ e. ne_of_mem i j hand inhand out (sym e))

-- A page that is not free is taken in hand, or given back.
pub take-IsFree :
    {p : Pages} {hand : List ℕ} {lists : ℕ → List ℕ} (i : ℕ)
    → block_max_order < p.status i
    → IsFree p hand lists
    → IsFree p (i ∷ hand) lists
take-IsFree {p} i high f = record {
  linked = f.linked;
  sound = λ k j low m.
      let (bound, st, out) = f.sound k j low m in
      (bound, st, cons-not-mem j i _ (other j low st) out);
  complete = λ k j low bound st out. f.complete k j low bound st (not-mem-cons j i _ out).1;
}
  where
    other : {k : ℕ} (j : ℕ) → k ≤ block_max_order → p.status j ≡ k → j ≢ i
    other j low st e = omega (arith, ap p.status e)

pub drop-IsFree :
    {p : Pages} {hand : List ℕ} {lists : ℕ → List ℕ} (i : ℕ)
    → block_max_order < p.status i
    → IsFree p (i ∷ hand) lists
    → IsFree p hand lists
drop-IsFree {p} i high f = record {
  linked = f.linked;
  sound = λ k j low m.
      let (bound, st, out) = f.sound k j low m in (bound, st, (not-mem-cons j i _ out).1);
  complete =
      λ k j low bound st out. f.complete k j low bound st (cons-not-mem j i _ (other j low st) out);
}
  where
    other : {k : ℕ} (j : ℕ) → k ≤ block_max_order → p.status j ≡ k → j ≢ i
    other j low st e = omega (arith, ap p.status e)

-- One list is replaced, and the links of the others stay.
pub relink :
    (s t : Links) (heads : ℕ → Ptr) (lists : ℕ → List ℕ) (k : ℕ) (new : List ℕ) (h : Ptr)
    → IsLinked s heads lists
    → ((k' : ℕ) → k' ≤ block_max_order → k' ≢ k → (j : ℕ) → mem j (lists k') ≡ true → SameAt j s t)
    → Seg t none new none
    → Distinct new
    → h ≡ first_or new none
    → IsLinked t (update heads k h) (update lists k new)
relink s t heads lists k new h f same chain distinct head = record {
  chain = λ k' low. elim (ℕ_discrete k' k) [
    | yes e ↦ rw (e, update_self lists k new) chain
    | no ne ↦
        rw (update-ne lists k new k' ne)
          (Seg-frame none none (lists k') (same k' low ne) (f.chain k' low))
  ];
  distinct = λ k' low. elim (ℕ_discrete k' k) [
    | yes e ↦ rw (e, update_self lists k new) distinct
    | no ne ↦ rw (update-ne lists k new k' ne) (f.distinct k' low)
  ];
  head = λ k' low. elim (ℕ_discrete k' k) [
    | yes e ↦ rw (e, update_self lists k new, update_self heads k h) head
    | no ne ↦ rw (update-ne lists k new k' ne, update-ne heads k h k' ne) (f.head k' low)
  ];
}

-- Only what is in hand matters, not in which order.
pub rehand-IsFree :
    {p : Pages} {lists : ℕ → List ℕ} (hand hand' : List ℕ)
    → ((j : ℕ) → mem j hand ≡ mem j hand')
    → IsFree p hand lists
    → IsFree p hand' lists
rehand-IsFree hand hand' e f = record {
  linked = f.linked;
  sound = λ k j low m. let (b, s, o) = f.sound k j low m in (b, s, sym (e j) ∙ o);
  complete = λ k j low b s o. f.complete k j low b s (e j ∙ o);
}
