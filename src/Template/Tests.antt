-- ===== src/Template/Tests.antt =====
-- Queues at concrete inputs: the nodes 7, 8 and 9 in a queue, and the node 4 outside.
use oscs25_labs.Base.{◌≡◌, refl, none, some, [], ◌∷◌, arith, if◌then◌else◌, ◌==◌}
use oscs25_labs.Template.Links.{Links, list_remove}
use oscs25_labs.Template.Queue.{Queue, queue_push, queue_pop, queue_erase}
use oscs25_labs.Template.Queue.Refine.{
  IsQueue, Unlinked, SameOutside, Erased, queue_push-IsQueue, queue_pop-IsQueue,
  queue_erase-IsQueue,
}

abbrev links : Links
links = record {
  prev = λ a. if a == 8 then some 7 else if a == 9 then some 8 else none;
  next = λ a. if a == 7 then some 8 else if a == 8 then some 9 else none;
}

abbrev three : Queue
three = record { front = some 7; back = some 9; size = 3 }

three-IsQueue : IsQueue links three (7 ∷ 8 ∷ 9 ∷ [])
three-IsQueue = record {
  chain = (refl, refl, (refl, refl, (refl, refl, tt)));
  distinct = (refl, (refl, (refl, tt)));
  front = refl;
  back = refl;
  size = refl;
  small = omega arith;
}

abbrev nothing : Queue
nothing = record { front = none; back = none; size = 0 }

nothing-IsQueue : IsQueue links nothing []
nothing-IsQueue = record {
  chain = tt;
  distinct = tt;
  front = refl;
  back = refl;
  size = refl;
  small = omega arith;
}

queue_push-IsQueue_example :
    let (que, s) = queue_push three 4 links in
    IsQueue s que (7 ∷ 8 ∷ 9 ∷ 4 ∷ []) × SameOutside (7 ∷ 8 ∷ 9 ∷ 4 ∷ []) links s
queue_push-IsQueue_example =
    queue_push-IsQueue links three (7 ∷ 8 ∷ 9 ∷ []) 4 three-IsQueue refl (refl, refl) (omega arith)

queue_pop-IsQueue_example :
    let (r, que, s) = queue_pop three links in
    (r ≡ some 7) × IsQueue s que (8 ∷ 9 ∷ []) × Unlinked 7 s × SameOutside (7 ∷ 8 ∷ 9 ∷ []) links s
queue_pop-IsQueue_example = queue_pop-IsQueue links three 7 (8 ∷ 9 ∷ []) three-IsQueue

queue_erase-IsQueue_example :
    Erased links 8 (7 ∷ 8 ∷ 9 ∷ []) (7 ∷ 9 ∷ []) (queue_erase (some three) (some 8) links)
queue_erase-IsQueue_example = queue_erase-IsQueue links three (7 ∷ 8 ∷ 9 ∷ []) 8 three-IsQueue refl

pop_runs : (queue_pop three links).1.front ≡ some 8
unfolding queue_pop list_remove
pop_runs = refl
