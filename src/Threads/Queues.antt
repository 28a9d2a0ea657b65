-- ===== src/Threads/Queues.antt =====
-- Two queues in one store of links: what is done with one leaves the other.
use oscs25_labs.Base.{
  ℕ, ◌≡◌, ◌≢◌, refl, ◌∙◌, true, false, List, [], ◌∷◌, ◌++◌, none, mem, Disjoint, arith, ◌==◌,
  ==_iff, mem-append, remove, mem_of_mem-remove,
}
use oscs25_labs.Template.Links.{Links, node_init}
use oscs25_labs.Template.Links.Seg.{Seg-frame}
use oscs25_labs.Template.Queue.{Queue}
use oscs25_labs.Template.Queue.Refine.{IsQueue, Unlinked, SameOutside}

pub IsQueue-frame :
    {s t : Links} {que : Queue} (xs ys : List ℕ)
    → SameOutside xs s t
    → Disjoint ys xs
    → IsQueue s que ys
    → IsQueue t que ys
IsQueue-frame xs ys same apart q = record {
  chain = Seg-frame none none ys (λ a m. same a (apart a m)) q.chain;
  distinct = q.distinct;
  front = q.front;
  back = q.back;
  size = q.size;
  small = q.small;
}

pub Unlinked-frame :
    {s t : Links} (xs : List ℕ) (a : ℕ)
    → SameOutside xs s t
    → mem a xs ≡ false
    → Unlinked a s
    → Unlinked a t
Unlinked-frame xs a same out u = let h = same a out in (h.prev ∙ u.0, h.next ∙ u.1)

pub node_init-SameOutside : (a : ℕ) (s : Links) → SameOutside (a ∷ []) s (node_init a s)
unfolding node_init
node_init-SameOutside a s b out =
    let ne : (b == a) ≡ false = ground arith in record { prev = rw ne refl; next = rw ne refl }

pub node_init-Unlinked : (a : ℕ) (s : Links) → Unlinked a (node_init a s)
unfolding node_init
node_init-Unlinked a s =
    let same : (a == a) ≡ true = (==_iff a a).1 refl in (rw same refl, rw same refl)

pub Disjoint-snoc :
    (xs ys : List ℕ) (c : ℕ) → Disjoint xs ys → mem c ys ≡ false → Disjoint (xs ++ c ∷ []) ys
Disjoint-snoc xs ys c apart out a m = ground (arith, mem-append a xs (c ∷ []), apart a, ==_iff a c)

pub Disjoint-tail : (x : ℕ) (xs ys : List ℕ) → Disjoint (x ∷ xs) ys → Disjoint xs ys
Disjoint-tail x xs ys apart a m = apart a (ground arith)

pub Disjoint-remove : (x : ℕ) (xs ys : List ℕ) → Disjoint xs ys → Disjoint (remove x xs) ys
Disjoint-remove x xs ys apart a m = apart a (mem_of_mem-remove x a xs m)

pub not-mem-snoc : (a c : ℕ) (xs : List ℕ) → mem a xs ≡ false → a ≢ c → mem a (xs ++ c ∷ []) ≡ false
not-mem-snoc a c xs out ne = ground (arith, mem-append a xs (c ∷ []), ==_iff a c)

-- A member of a longer list that is not the last one was there.
pub mem_of_mem-snoc :
    (u t : ℕ) (xs : List ℕ) → (u == t) ≡ false → mem u (xs ++ t ∷ []) ≡ true → mem u xs ≡ true
mem_of_mem-snoc u t xs other m = ground (arith, mem-append u xs (t ∷ []))
