-- ===== src/Except/Workload.antt =====
-- `free_workload`: the queue of a workload that has none is freed.
use oscs25_labs.Base.{ℕ, none, some, ◌≡◌, refl}
use oscs25_labs.Template.Links.{Ptr}
use oscs25_labs.Except.{
  Except, Queues, enqueue_task, enqueue_at, find_queue, new_queue, query_queue, take_queue,
}

-- `free_queue(NULL)`: the fields that it writes lie in page 0, which holds no queue; the free list
-- then begins with the `NULL` queue, which ends it; the old list is lost, and so is a link to its head.
unfoldable pub free_no_queue : Queues → Queues
free_no_queue s = record s { queue_free_list = none }

-- The memory of the workload goes back to `dyna_free`.
unfoldable pub free_workload : (base_queue : Ptr) → Except → Except
free_workload none s = let q = s.queues in record s { queues = free_no_queue q }
free_workload (some que) s = s

-- The workload of a thread without a queue is freed while no queue is in use: then the next interrupt
-- task gets no queue, whatever it is, and the pool has none for any later one.
free_workload-loses_queues :
    (s : Except) (task : ℕ)
    → s.base_queue ≡ none
    → ((free_workload none s).queues.queue_free_list ≡ none)
      × (enqueue_task task (free_workload none s) ≡ none)
unfolding free_workload free_no_queue enqueue_task enqueue_at find_queue new_queue query_queue
    take_queue
free_workload-loses_queues s task base = (refl, rw base refl)
