-- ===== src/Threads/Relabel.antt =====
-- A change of a state that leaves the queues, the numbers of the threads and who is alive.
use oscs25_labs.Base.{ℕ, ◌≡◌, refl, ◌∙◌, Bool, List}
use oscs25_labs.Threads.System.{IsSystem}
use oscs25_labs.Threads.Steps.{Runner, kernel, user, Represents}
use oscs25_labs.Threads.Defs.{System}
use oscs25_labs.Threads.Ending.{mask_timer}

pub record Alike (s s' : System) : Type 0 where
  pub node : s'.node ≡ s.node
  pub run_queue : s'.run_queue ≡ s.run_queue
  pub dead_queue : s'.dead_queue ≡ s.dead_queue
  pub current : s'.current ≡ s.current
  pub idle_thread : s'.idle_thread ≡ s.idle_thread
  pub id : (u : ℕ) → (s'.thread u).id ≡ (s.thread u).id
  pub alive : (u : ℕ) → (s'.thread u).alive ≡ (s.thread u).alive

system_alike : (s s' : System) (xs ds : List ℕ) → Alike s s' → IsSystem s xs ds → IsSystem s' xs ds
system_alike s s' xs ds e i = record {
  run = rw (e.node, e.run_queue) i.run;
  dead = rw (e.node, e.dead_queue) i.dead;
  apart = i.apart;
  rest = rw e.node i.rest;
}

pub Represents-Alike :
    (s s' : System) (cur : Runner) (xs ds : List ℕ)
    → Alike s s'
    → Represents s cur xs ds
    → Represents s' cur xs ds
Represents-Alike s s' (kernel c) xs ds e r = record {
  system = system_alike s s' xs ds e r.system;
  current = e.current ∙ r.current;
  runs = rw (e.id c) r.runs;
  idle = rw (e.idle_thread, e.id s.idle_thread) r.idle;
  waits = λ t m. rw (e.id t, e.alive t) (r.waits t m);
  dead = λ t m. rw (e.id t) (r.dead t m);
}
Represents-Alike s s' (user c) xs ds e r = record {
  system = system_alike s s' xs ds e r.system;
  current = e.current ∙ r.current;
  runs = rw (e.id c, e.alive c) r.runs;
  idle = rw (e.idle_thread, e.id s.idle_thread) r.idle;
  waits = λ t m. rw (e.id t, e.alive t) (r.waits t m);
  dead = λ t m. rw (e.id t) (r.dead t m);
}

pub mask_timer-Alike : (mask : Bool) (s : System) → Alike s (mask_timer mask s)
unfolding mask_timer
mask_timer-Alike mask s = record {
  node = refl;
  run_queue = refl;
  dead_queue = refl;
  current = refl;
  idle_thread = refl;
  id = λ u. refl;
  alive = λ u. refl;
}
