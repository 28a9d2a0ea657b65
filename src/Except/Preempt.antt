-- ===== src/Except/Preempt.antt =====
-- `irq_handler` on a processor that handles no other interrupt, and on one that it preempts.
use oscs25_labs.Base.{
  ℕ, zero, suc, ◌<◌, true, List, ◌∷◌, ◌≡◌, ◌≢◌, refl, ap, ◌∙◌, none, some, ltb, if◌then◌else◌,
  update_self, same_ptr, lt→ltb, ==_iff, arith,
}
use oscs25_labs.Template.Links.{Ptr}
use oscs25_labs.Except.{Queues, Except, link_queue, find_queue}
use oscs25_labs.Except.Insert.{Chain}
use oscs25_labs.Except.Exec.{Run, irq_handler}
use oscs25_labs.Except.Quiet.{Quiet, Clear}
use oscs25_labs.Except.Handler.{answer, TaskPool, handler-Ran}

-- Task and queue are back in their pools, of which the first task is clear, and no queue is left
-- behind.
pub record Handled (t q : ℕ) (fs : List ℕ) (s' : Except) : Type 0 where
  pub pool : Chain s'.tasks.node.next s'.tasks.task_free_list (t ∷ fs)
  pub clear : Clear s'.tasks
  pub queue_pool : s'.queues.queue_free_list ≡ some q
  pub base : s'.base_queue ≡ none

find_queue-none :
    (n p : ℕ) (prev : Ptr) (s : Except) → find_queue (suc n) p prev none s ≡ some (prev, none)
unfolding find_queue
find_queue-none n p prev s = refl

-- A queue without tasks is not passed: its head is read.
find_queue_empty :
    (n p q : ℕ) (prev : Ptr) (s : Except)
    → s.queues.head q ≡ none
    → find_queue n p prev (some q) s ≡ none
unfolding find_queue
find_queue_empty zero p q prev s e = refl
find_queue_empty (suc n) p q prev s e = rw e refl

-- A queue whose head has a lower priority, and no queue behind it.
find_queue_behind :
    (n p b c : ℕ) (prev : Ptr) (s : Except)
    → s.queues.head b ≡ some c
    → s.queues.preemptor b ≡ none
    → s.tasks.priority c < p
    → find_queue (suc (suc n)) p prev (some b) s ≡ some (some b, none)
unfolding find_queue
find_queue_behind n p b c prev s head last lower =
    let below : ltb (s.tasks.priority c) p ≡ true = lt→ltb (s.tasks.priority c) p lower in
    rw (head, below, last) refl

linked : (b q : ℕ) (qs : Queues) → (link_queue (some b) q qs).preemptor b ≡ some q
unfolding link_queue
linked b q qs = update_self qs.preemptor b (some q)

-- `base_queue` behind the queue `q`, that it was `b` in front of it.
abbrev left_base : ℕ → Ptr → Ptr
left_base q b =
    if same_ptr (if same_ptr b none then some q else b) (some q)
    then none
    else if same_ptr b none
    then some q
    else b

left_base-none : (q : ℕ) → left_base q none ≡ none
left_base-none q = ground (arith, ==_iff q q)

left_base_other : (q b : ℕ) → b ≢ q → left_base q (some b) ≡ some b
left_base_other q b ne = ground (arith, ==_iff b q)

module _ {ℓ} {W : Type ℓ} (run : Run W) (act : ℕ → ℕ → W → W) (quiet : Quiet run act) where
  -- An interrupt of a source that is known, while no other is handled, with a task and a queue in the
  -- pools and a handler that is not interrupted: irq_handler returns, the handler of the source has
  -- run once, with the trap frame of the interrupt, and task and queue are back in the pools.
  pub irq_handler-Handled :
      (timer uart source t q h p frame n : ℕ) (fs : List ℕ) (w : W) (s : Except)
      → 1 < n
      → TaskPool t fs s.tasks
      → answer timer uart source ≡ some (h, p)
      → s.queues.queue_free_list ≡ some q
      → s.base_queue ≡ none
      → (s' : Except) × (irq_handler run n timer uart source frame (w, s)
          ≡ some (act h frame w, s'))
        × Handled t q fs s'
  irq_handler-Handled timer uart source t q h p frame n fs w s fuel pool known free idle =
      let (s', s'', ran, a, left) =
        handler-Ran run act quiet timer uart source t q h p frame n none fs w s fuel pool known free
          (λ s' a.
            ap (λ (b : Ptr). find_queue 17 p none b s') idle ∙ find_queue-none 16 p none s') in
      (
        s'',
        ran,
        record {
          pool = left.pool;
          clear = left.clear;
          queue_pool = left.queue_pool;
          base = left.base ∙ ap (left_base q) (a.base_kept ∙ idle) ∙ left_base-none q;
        },
      )

  -- An interrupt that preempts the queue `b`, with a handler that is not interrupted: it is handled,
  -- and its queue is back in its pool, but `b` still has that queue as its preemptor, so each walk
  -- over the queues that passes `b` reads the head of a queue without one.
  pub irq_handler-dangling :
      (timer uart source t q b c h p frame n : ℕ) (fs : List ℕ) (w : W) (s : Except)
      → 1 < n
      → TaskPool t fs s.tasks
      → answer timer uart source ≡ some (h, p)
      → s.queues.queue_free_list ≡ some q
      → s.base_queue ≡ some b
      → s.queues.head b ≡ some c
      → s.queues.preemptor b ≡ none
      → s.tasks.priority c < p
      → b ≢ q
      → c ≢ t
      → (s' : Except) × (irq_handler run n timer uart source frame (w, s)
          ≡ some (act h frame w, s'))
        × (s'.queues.queue_free_list ≡ some q)
        × (s'.base_queue ≡ some b)
        × (s'.queues.preemptor b ≡ some q)
        × ((k priority : ℕ) (prev : Ptr)
            → find_queue k priority prev (s'.queues.preemptor b) s' ≡ none)
  irq_handler-dangling timer uart source t q b c h p frame n fs w s fuel pool known free base head
        last lower apart other =
      let (s', s'', ran, a, left) =
        handler-Ran run act quiet timer uart source t q h p frame n (some b) fs w s fuel pool known
          free
          (λ s' a.
            ap (λ (x : Ptr). find_queue 17 p none x s') base
            ∙ find_queue_behind 15 p b c none s'
                (ap (λ (k : Queues). k.head b) a.queues_kept ∙ head)
                (ap (λ (k : Queues). k.preemptor b) a.queues_kept ∙ last)
                (rw (a.others c other) lower)) in
      let dangling : s''.queues.preemptor b ≡ some q = left.preemptors b apart ∙ linked b q _ in
      (
        s'',
        ran,
        left.queue_pool,
        left.base ∙ ap (left_base q) (a.base_kept ∙ base) ∙ left_base_other q b apart,
        dangling,
        λ k priority prev.
            ap (λ (x : Ptr). find_queue k priority prev x s'') dangling
            ∙ find_queue_empty k priority q prev s'' left.empty,
      )
