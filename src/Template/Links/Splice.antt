-- ===== src/Template/Links/Splice.antt =====
-- `list_add` and `list_remove` on a list of nodes: what they do to the list, and what they leave.
use mathlib.Core.Path.{subst}
use oscs25_labs.Base.{
  ne_of_mem, ℕ, none, some, ◌≡◌, refl, sym, ◌∙◌, ◌≢◌, ap, true, false, List, [], ◌∷◌, ◌++◌, arith,
  ==_iff, update, first_or, last_or, mem, mem-append, Distinct, Disjoint, Disjoint-sym,
  Distinct-append,
}
use oscs25_labs.Template.Links.{Ptr, Links, node_init, set_next, set_prev, list_add, list_remove}
use oscs25_labs.Template.Links.Seg.{
  Seg, SameAt, SameAt-trans, Seg-frame, Seg-split, Seg-join, last_or-cons, set_next_other,
  set_prev_other, Seg-set_next_last, Seg-set_prev_first,
}

-- The last node is no node outside the list, and the first one neither.
last_or-ne : (a : ℕ) (xs : List ℕ) → mem a xs ≡ false → last_or none xs ≢ some a
last_or-ne a [] out = cc
last_or-ne a (x ∷ xs) out = let (z, e, m) = last_or-cons x xs in λ e'. ground (arith, ==_iff z a)

first_or-ne : (a : ℕ) (xs : List ℕ) → mem a xs ≡ false → first_or xs none ≢ some a
first_or-ne a [] out = cc
first_or-ne a (x ∷ xs) out = ground (arith, ==_iff a x)

-- `ys` is made to follow `xs`: the two writes that `list_remove` makes.
abbrev bridge : List ℕ → List ℕ → Links → Links
bridge xs ys s =
    set_prev (first_or ys none) (last_or none xs) (set_next (last_or none xs) (first_or ys none) s)

bridge_other :
    (xs ys : List ℕ) (s : Links) (a : ℕ)
    → mem a xs ≡ false
    → mem a ys ≡ false
    → SameAt a s (bridge xs ys s)
bridge_other xs ys s a out out' =
    SameAt-trans (set_next_other _ _ s a (last_or-ne a xs out))
      (set_prev_other _ _ _ a (first_or-ne a ys out'))

bridge-Seg :
    (xs ys : List ℕ) (s : Links) (p n : Ptr)
    → Distinct xs
    → Distinct ys
    → Disjoint xs ys
    → Seg s none xs n
    → Seg s p ys none
    → Seg (bridge xs ys s) none (xs ++ ys) none
bridge-Seg xs ys s p n dx dy apart hx hy =
    Seg-join (bridge xs ys s) none none xs ys
      (Seg-frame none (first_or ys none) xs
        (λ a m. set_prev_other _ _ _ a (first_or-ne a ys (apart a m)))
        (Seg-set_next_last s none n (first_or ys none) xs dx hx))
      (Seg-set_prev_first (set_next (last_or none xs) (first_or ys none) s) p (last_or none xs) none
        ys dy
        (Seg-frame p none ys
          (λ a m. set_next_other _ _ s a (last_or-ne a xs (Disjoint-sym xs ys apart a m))) hy))

module _ (new : ℕ) (xs ys : List ℕ) (s : Links) where
  -- The store after the two writes to the new node.
  linked : Links
  linked = record s {
    next = update s.next new (first_or ys none);
    prev = update s.prev new (last_or none xs);
  }

  list_add-eq :
      list_add new (last_or none xs) (first_or ys none) s
      ≡ set_prev (first_or ys none) (some new) (set_next (last_or none xs) (some new) linked)
  unfolding list_add linked
  list_add-eq = refl

  linked_other : (a : ℕ) → a ≢ new → SameAt a s linked
  unfolding linked
  linked_other a h = ground arith

  -- Nothing but the new node and its two neighbours is written.
  pub list_add_other :
      (a : ℕ)
      → a ≢ new
      → mem a xs ≡ false
      → mem a ys ≡ false
      → SameAt a s (list_add new (last_or none xs) (first_or ys none) s)
  list_add_other a ne out out' = rw list_add-eq (
      SameAt-trans (linked_other a ne) (
        SameAt-trans (set_next_other _ _ linked a (last_or-ne a xs out))
          (set_prev_other _ _ _ a (first_or-ne a ys out'))))

  -- Between the last node of `xs` and the first of `ys`, a node from outside is put in its place.
  pub list_add-Seg :
      Distinct (xs ++ ys)
      → mem new (xs ++ ys) ≡ false
      → Seg s none (xs ++ ys) none
      → Seg (list_add new (last_or none xs) (first_or ys none) s) none (xs ++ new ∷ ys) none
  unfolding linked
  list_add-Seg d out h =
      let (dx, dy, apart) = Distinct-append xs ys d in
      let (hx, hy) = Seg-split s none none xs ys h in
      let outx : mem new xs ≡ false = ground (arith, mem-append new xs ys) in
      let outy : mem new ys ≡ false = ground (arith, mem-append new xs ys) in
      let ne_x : (a : ℕ) → mem a xs ≡ true → a ≢ new = λ a m e. cc (ap (λ (b : ℕ). mem b xs) e) in
      let ne_y : (a : ℕ) → mem a ys ≡ true → a ≢ new = λ a m e. cc (ap (λ (b : ℕ). mem b ys) e) in
      let at_new : SameAt new linked (list_add new (last_or none xs) (first_or ys none) s) =
        rw list_add-eq (
          SameAt-trans (set_next_other _ _ linked new (last_or-ne new xs outx))
            (set_prev_other _ _ _ new (first_or-ne new ys outy))) in
      Seg-join _ none none xs (new ∷ ys)
        (rw list_add-eq (
          Seg-frame none (some new) xs
            (λ a m. set_prev_other _ _ _ a (first_or-ne a ys (apart a m)))
            (Seg-set_next_last linked none (first_or ys none) (some new) xs dx
              (Seg-frame none (first_or ys none) xs (λ a m. linked_other a (ne_x a m)) hx))))
        (
          at_new.prev ∙ ground arith,
          at_new.next ∙ ground arith,
          subst (λ (t : Links). Seg t (some new) ys none) (sym list_add-eq)
              (Seg-set_prev_first _ (last_or none xs) (some new) none ys dy (
                Seg-frame (last_or none xs) none ys
                  (λ a m.
                    SameAt-trans (linked_other a (ne_y a m)) (
                      set_next_other _ _ linked a (last_or-ne a xs (Disjoint-sym xs ys apart a m))))
                  hy)),
        )

-- What `list_remove` does with the node `x` between `xs` and `ys`.
pub record Removed (x : ℕ) (xs ys : List ℕ) (s : Links) (r : Ptr × Links) : Type 0 where
  pub result : r.0 ≡ first_or ys none
  pub chain : Seg r.1 none (xs ++ ys) none
  pub unlinked : (r.1.prev x ≡ none) × (r.1.next x ≡ none)
  pub others : (a : ℕ) → a ≢ x → mem a xs ≡ false → mem a ys ≡ false → SameAt a s r.1

module _ (x : ℕ) (xs ys : List ℕ) (s : Links) (out_x : mem x xs ≡ false) (out_y : mem x ys ≡ false)
    (before : s.prev x ≡ last_or none xs) (after : s.next x ≡ first_or ys none) where
  list_remove-eq : list_remove (some x) s ≡ (first_or ys none, node_init x (bridge xs ys s))
  unfolding list_remove
  list_remove-eq =
      let t = set_next (last_or none xs) (first_or ys none) s in
      let keep : SameAt x s t = set_next_other _ _ s x (last_or-ne x xs out_x) in
      let keep' : SameAt x t (bridge xs ys s) = set_prev_other _ _ t x (first_or-ne x ys out_y) in
      rw (before, after, keep.prev, keep.next, before, after, keep'.next, keep.next, after)

node_init_other : (x : ℕ) (s : Links) (a : ℕ) → a ≢ x → SameAt a s (node_init x s)
unfolding node_init
node_init_other x s a h = ground arith

node_init-unlinked :
    (x : ℕ) (s : Links) → ((node_init x s).prev x ≡ none) × ((node_init x s).next x ≡ none)
unfolding node_init
node_init-unlinked x s = ground arith

-- A node of the list is taken out: the nodes round it are joined, its own links are cleared, and no
-- link outside the list is written.
pub list_remove-Removed :
    (x : ℕ) (xs ys : List ℕ) (s : Links)
    → Distinct (xs ++ x ∷ ys)
    → Seg s none (xs ++ x ∷ ys) none
    → Removed x xs ys s (list_remove (some x) s)
list_remove-Removed x xs ys s d h =
    let (dx, dxy, apart) = Distinct-append xs (x ∷ ys) d in
    let (hx, hxy) = Seg-split s none none xs (x ∷ ys) h in
    let out_x = Disjoint-sym xs (x ∷ ys) apart x (ground arith) in
    let apart' : Disjoint xs ys = λ a m. ground (arith, apart a m) in
    rw (list_remove-eq x xs ys s out_x dxy.0 hxy.0 hxy.1) (record {
      result = refl;
      chain =
          Seg-frame none none (xs ++ ys)
            (λ a m.
              node_init_other x _ a
                (ne_of_mem a x (xs ++ ys) m (ground (arith, mem-append x xs ys))))
            (bridge-Seg xs ys s (some x) (some x) dx dxy.1 apart' hx hxy.2);
      unlinked = node_init-unlinked x _;
      others = λ a ne out out'.
          SameAt-trans (bridge_other xs ys s a out out') (node_init_other x _ a ne);
    })
