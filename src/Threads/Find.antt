-- ===== src/Threads/Find.antt =====
-- The search for a thread by its number.
use oscs25_labs.Base.{
  ℕ, zero, suc, ◌<◌, ◌≡◌, refl, ap₂, true, false, List, [], ◌∷◌, Option, none, some, length, arith,
  ◌==◌, Bool-cases, inl, inr, if◌then◌else◌,
}
use oscs25_labs.Template.Links.{Ptr}
use oscs25_labs.Template.Links.Seg.{Seg}
use oscs25_labs.Template.Queue.{Queue, queue_empty, queue_head}
use oscs25_labs.Template.Queue.Refine.{IsQueue}
use oscs25_labs.Threads.Steps.{Runner, thread_of, Represents}
use oscs25_labs.Threads.Defs.{System}
use oscs25_labs.Threads.Ending.{Location, running, in_run, in_wait}
use oscs25_labs.Threads.Search.{
  walk, walk_on, check_id, find_in_from, find_in, located, or_else, find_thread,
}

-- The first thread of a list with the number wanted.
abbrev pub first_with : (target_id : ℕ) → List ℕ → System → Ptr
first_with target_id [] s = none
first_with target_id (t ∷ ts) s =
    if (s.thread t).id == target_id then some t else first_with target_id ts s

walk_lem :
    (xs : List ℕ) (n target_id x : ℕ) (p : Ptr) (s : System)
    → length xs < n
    → Seg s.node p (x ∷ xs) none
    → check_id target_id (walk n target_id x s) s ≡ first_with target_id (x ∷ xs) s
unfolding walk check_id walk_on
walk_lem xs zero target_id x p s fuel seg = absurd (omega arith)
walk_lem [] (suc n) target_id x p s fuel seg = elim (Bool-cases ((s.thread x).id == target_id)) [
  | inl here ↦ rw (here, here) refl
  | inr other ↦ rw (other, seg.1, other) refl
]
walk_lem (y ∷ ys) (suc n) target_id x p s fuel seg =
    elim (Bool-cases ((s.thread x).id == target_id)) [
      | inl here ↦ rw (here, here) refl
      | inr other ↦ rw (other, seg.1) (walk_lem ys n target_id y (some x) s (omega arith) seg.2)
    ]

find_in_lem :
    (xs : List ℕ) (target_id : ℕ) (que : Queue) (s : System)
    → IsQueue s.node que xs
    → find_in target_id que s ≡ first_with target_id xs s
unfolding find_in find_in_from queue_empty queue_head
find_in_lem [] target_id que s q =
    let e : (que.size == 0) ≡ true = ground (arith, q.size) in rw e refl
find_in_lem (x ∷ xs) target_id que s q =
    let e : (que.size == 0) ≡ false = ground (arith, q.size) in
    rw (e, q.front) (walk_lem xs que.size target_id x none s (omega (arith, q.size)) q.chain)

find_in_empty :
    (target_id : ℕ) (que : Queue) (s : System) → que.size ≡ 0 → find_in target_id que s ≡ none
unfolding find_in queue_empty
find_in_empty target_id que s empty = let e : (que.size == 0) ≡ true = ground arith in rw e refl

or_else_right : (o : Option (ℕ × Location)) → or_else o (located in_wait none) ≡ o
unfolding or_else located
or_else_right none = refl
or_else_right (some found) = refl

-- With the wait queue empty, the search gives the running thread if it has the number, else the first
-- thread of the run queue that has it, with where it is, else `NULL`.
pub find_thread-first :
    (target_id : ℕ) (s : System) (cur : Runner) (xs ds : List ℕ)
    → Represents s cur xs ds
    → s.wait_queue.size ≡ 0
    → find_thread target_id s ≡ (
        if target_id == (s.thread (thread_of cur)).id
        then some (thread_of cur, running)
        else located in_run (first_with target_id xs s))
unfolding find_thread
find_thread-first target_id s cur xs ds r empty =
    let none_waits = find_in_empty target_id s.wait_queue s empty in
    let found = find_in_lem xs target_id s.run_queue s r.system.run in
    let at : ℕ → Option (ℕ × Location) → Option (ℕ × Location) =
      λ c o. if target_id == (s.thread c).id then some (c, running) else o in
    let rest : or_else (located in_run (find_in target_id s.run_queue s))
          (located in_wait (find_in target_id s.wait_queue s))
        ≡ located in_run (first_with target_id xs s) =
      rw (none_waits, found) (or_else_right (located in_run (first_with target_id xs s))) in
    ap₂ at r.current rest
