-- ===== src/Template/Queue/Refine.antt =====
-- The queue against a list of nodes, oldest first.
use mathlib.Core.Path.{subst}
use mathlib.Core.List.{append-nil}
use oscs25_labs.Base.{
  Distinct-drop, same_ptr, ◌==◌, if◌then◌else◌, ne_of_mem, not-mem-append, not-mem-cons, sym, ℕ,
  suc, ◌+◌, ◌-◌, ◌%◌, ◌^◌, ◌<◌, ◌≡◌, refl, true, false, Option, none, some, List, [], ◌∷◌, ◌++◌,
  arith, ==_iff, length, length-append, first_or, last_or, mem, remove, mem-split, Distinct,
  append-Distinct, Distinct-append,
}
use oscs25_labs.Template.Links.{Ptr, Links}
use oscs25_labs.Template.Links.Seg.{Seg, SameAt, Seg-split, last_or-cons}
use oscs25_labs.Template.Links.Splice.{list_add-Seg, list_add_other, list_remove-Removed}
use oscs25_labs.Template.Queue.{Queue, queue_init, queue_push, queue_pop, queue_erase, queue_empty}

-- The queue holds the nodes `xs` in the store `s`.
pub record IsQueue (s : Links) (que : Queue) (xs : List ℕ) : Type 0 where
  pub chain : Seg s none xs none
  pub distinct : Distinct xs
  pub front : que.front ≡ first_or xs none
  pub back : que.back ≡ last_or none xs
  pub size : que.size ≡ length xs
  pub small : length xs < 2 ^ 32

abbrev pub Unlinked : ℕ → Links → Type 0
Unlinked a s = (s.prev a ≡ none) × (s.next a ≡ none)

-- No link outside `xs` differs.
abbrev pub SameOutside : List ℕ → Links → Links → Type 0
SameOutside xs s t = (a : ℕ) → mem a xs ≡ false → SameAt a s t

pub queue_init-IsQueue : (s : Links) → IsQueue s queue_init []
unfolding queue_init
queue_init-IsQueue s = record {
  chain = tt;
  distinct = tt;
  front = refl;
  back = refl;
  size = refl;
  small = omega arith;
}

last_or-append : (p : Ptr) (xs : List ℕ) (x : ℕ) → last_or p (xs ++ x ∷ []) ≡ some x
last_or-append p [] x = refl
last_or-append p (y ∷ ys) x = last_or-append (some y) ys x

append_one-Distinct :
    (xs : List ℕ) (new : ℕ) → Distinct xs → mem new xs ≡ false → Distinct (xs ++ new ∷ [])
append_one-Distinct xs new d out =
    append-Distinct xs (new ∷ []) d (refl, tt) (λ a m. ground (arith, ==_iff a new))

-- A node outside the queue goes to its end, if its links are clear and the count does not wrap.
pub queue_push-IsQueue :
    (s : Links) (que : Queue) (xs : List ℕ) (new : ℕ)
    → IsQueue s que xs
    → mem new xs ≡ false
    → Unlinked new s
    → suc (length xs) < 2 ^ 32
    → let (que', s') = queue_push que new s in
      IsQueue s' que' (xs ++ new ∷ []) × SameOutside (xs ++ new ∷ []) s s'
unfolding queue_push queue_empty
queue_push-IsQueue s que [] new q out clear room =
    let e : queue_empty que ≡ true = ground arith in
    rw e (
      record {
        chain = (clear.0, clear.1, tt);
        distinct = (refl, tt);
        front = refl;
        back = refl;
        size = ground arith;
        small = room;
      },
      λ a m. record { prev = refl; next = refl },
    )
queue_push-IsQueue s que (x ∷ xs) new q out clear room =
    let e : queue_empty que ≡ false = ground arith in
    rw (e, q.back)
      (
        record {
          chain =
              list_add-Seg new (x ∷ xs) [] s (rw append-nil q.distinct) (rw append-nil out)
                (rw append-nil q.chain);
          distinct = append_one-Distinct (x ∷ xs) new q.distinct out;
          front = q.front;
          back = sym (last_or-append none (x ∷ xs) new);
          size = omega (arith, q.size, length-append xs (new ∷ []));
          small = omega (arith, length-append xs (new ∷ []));
        },
        λ a m.
            let (old, new') = not-mem-append a (x ∷ xs) (new ∷ []) m in
            list_add_other new (x ∷ xs) [] s a (not-mem-cons a new [] new').0 old refl,
      )

back_of_pop :
    (que : Queue) (x : ℕ) (xs : List ℕ)
    → que.size ≡ suc (length xs)
    → suc (length xs) < 2 ^ 32
    → que.back ≡ last_or (some x) xs
    → (if (que.size + 2 ^ 32 - 1) % 2 ^ 32 == 0 then none else que.back) ≡ last_or none xs
back_of_pop que x [] size small back = ground arith
back_of_pop que x (y ∷ ys) size small back = ground arith

-- The first node leaves a queue that is not empty, with its links cleared.
pub queue_pop-IsQueue :
    (s : Links) (que : Queue) (x : ℕ) (xs : List ℕ)
    → IsQueue s que (x ∷ xs)
    → let (r, que', s') = queue_pop que s in
      (r ≡ some x) × IsQueue s' que' xs × Unlinked x s' × SameOutside (x ∷ xs) s s'
unfolding queue_pop queue_empty
queue_pop-IsQueue s que x xs q =
    let e : queue_empty que ≡ false = ground arith in
    let gone = list_remove-Removed x [] xs s q.distinct q.chain in
    rw (e, q.front)
      (
        refl,
        record {
          chain = gone.chain;
          distinct = q.distinct.1;
          front = gone.result;
          back = back_of_pop que x xs q.size q.small q.back;
          size = omega (arith, q.size, q.small);
          small = omega (arith, q.small);
        },
        gone.unlinked,
        λ a m. let (ne, out) = not-mem-cons a x xs m in gone.others a ne refl out,
      )

-- An empty queue yields `NULL`, and nothing changes.
pub queue_pop-empty :
    (s : Links) (que : Queue) → IsQueue s que [] → queue_pop que s ≡ (none, que, s)
unfolding queue_pop queue_empty
queue_pop-empty s que q = let e : queue_empty que ≡ true = ground arith in rw e

-- The queue that is left holds `left`; `x` is unlinked, and no link outside `xs` is written.
abbrev pub Erased : Links → ℕ → List ℕ → List ℕ → Option Queue × Links → Type 0
Erased s x xs left (none, s') = ⊥
Erased s x xs left (some que', s') = IsQueue s' que' left × Unlinked x s' × SameOutside xs s s'

erase_front :
    (s : Links) (que : Queue) (x : ℕ) (xs : List ℕ)
    → IsQueue s que (x ∷ xs)
    → Erased s x (x ∷ xs) xs (queue_erase (some que) (some x) s)
unfolding queue_erase
erase_front s que x xs q =
    let e : same_ptr (some x) que.front ≡ true = ground arith in
    let (_, queue, clear, same) = queue_pop-IsQueue s que x xs q in rw e (queue, clear, same)

last_or-append_cons :
    (p : Ptr) (xs : List ℕ) (z : ℕ) (zs : List ℕ) → last_or p (xs ++ z ∷ zs) ≡ last_or (some z) zs
last_or-append_cons p [] z zs = refl
last_or-append_cons p (y ∷ ys) z zs = last_or-append_cons (some y) ys z zs

-- The new `back` is the last node of what is left.
back_of_erase :
    (s : Links) (que : Queue) (x : ℕ) (ys zs : List ℕ)
    → IsQueue s que (ys ++ x ∷ zs)
    → (if same_ptr (some x) que.back then s.prev x else que.back) ≡ last_or none (ys ++ zs)
back_of_erase s que x ys [] q =
    rw (q.back, last_or-append none ys x, append-nil, (==_iff x x).1 refl)
      (Seg-split s none none ys (x ∷ []) q.chain).1.0
back_of_erase s que x ys (z ∷ zs) q =
    let (_, dxz, _) = Distinct-append ys (x ∷ z ∷ zs) q.distinct in
    let (w, e, m) = last_or-cons z zs in
    let other : (x == w) ≡ false = ground (arith, ==_iff x w, ne_of_mem w x (z ∷ zs) m dxz.0) in
    rw (q.back, last_or-append_cons none ys x (z ∷ zs), last_or-append_cons none ys z zs, e, other)

erase_later :
    (s : Links) (que : Queue) (y : ℕ) (ys : List ℕ) (x : ℕ) (zs : List ℕ)
    → IsQueue s que (y ∷ (ys ++ x ∷ zs))
    → Erased s x (y ∷ (ys ++ x ∷ zs)) (y ∷ (ys ++ zs)) (queue_erase (some que) (some x) s)
unfolding queue_erase
erase_later s que y ys x zs q =
    let gone = list_remove-Removed x (y ∷ ys) zs s q.distinct q.chain in
    let (_, _, apart) = Distinct-append (y ∷ ys) (x ∷ zs) q.distinct in
    let e : same_ptr (some x) que.front ≡ false = ground (arith, apart y, ==_iff x y) in
    rw e (
      record {
        chain = gone.chain;
        distinct = Distinct-drop (y ∷ ys) x zs q.distinct;
        front = q.front;
        back = back_of_erase s que x (y ∷ ys) zs q;
        size = omega (arith, q.size, q.small, length-append ys (x ∷ zs), length-append ys zs);
        small = omega (arith, q.small, length-append ys (x ∷ zs), length-append ys zs);
      },
      gone.unlinked,
      λ a m.
          let (out, out') = not-mem-append a (y ∷ ys) (x ∷ zs) m in
          let (ne, out'') = not-mem-cons a x zs out' in gone.others a ne out out'',
    )

erase_at :
    (s : Links) (que : Queue) (ys : List ℕ) (x : ℕ) (zs : List ℕ)
    → IsQueue s que (ys ++ x ∷ zs)
    → Erased s x (ys ++ x ∷ zs) (ys ++ zs) (queue_erase (some que) (some x) s)
erase_at s que [] x zs q = erase_front s que x zs q
erase_at s que (y ∷ ys) x zs q = erase_later s que y ys x zs q

-- A node of the queue, wherever it stands, is taken out, and the order of the others is kept.
pub queue_erase-IsQueue :
    (s : Links) (que : Queue) (xs : List ℕ) (x : ℕ)
    → IsQueue s que xs
    → mem x xs ≡ true
    → Erased s x xs (remove x xs) (queue_erase (some que) (some x) s)
queue_erase-IsQueue s que xs x q m =
    let (ys, zs, e, r) = mem-split x xs m in
    subst (λ l. Erased s x xs l (queue_erase (some que) (some x) s)) (sym r)
      (subst (λ l. Erased s x l (ys ++ zs) (queue_erase (some que) (some x) s)) (sym e)
        (erase_at s que ys x zs (subst (λ l. IsQueue s que l) e q)))
