-- ===== src/Except/Quiet.antt =====
-- What a handler that is not interrupted does, and the return of a task to the pool.
use oscs25_labs.Base.{
  ap, not-mem-cons, ℕ, true, false, List, [], ◌∷◌, ◌≡◌, ◌≢◌, refl, sym, ◌∙◌, none, some, update,
  update-ne, update_self, mem, ne_of_mem, mem-head, cons-mem, subst,
}
use oscs25_labs.Template.Links.{Ptr, Links, list_add, node_init, set_prev, set_next}
use oscs25_labs.Except.{Tasks, Except, init_except_task, free_task}
use oscs25_labs.Except.Insert.{Chain, Chain-frame}
use oscs25_labs.Except.Exec.{Run}

-- The call of a handler changes the masks and the world alone: it is not interrupted.
pub record Quiet {ℓ} {W : Type ℓ} (run : Run W) (act : ℕ → ℕ → W → W) : Type ℓ where
  pub world :
      (handler frame : ℕ) (w : W) (s : Except) → (run handler frame (w, s)).0 ≡ act handler frame w
  pub tasks :
      (handler frame : ℕ) (w : W) (s : Except) → (run handler frame (w, s)).1.tasks ≡ s.tasks
  pub queues :
      (handler frame : ℕ) (w : W) (s : Except) → (run handler frame (w, s)).1.queues ≡ s.queues
  pub base_queue :
      (handler frame : ℕ) (w : W) (s : Except)
      → (run handler frame (w, s)).1.base_queue ≡ s.base_queue

-- The handlers of the tasks, in their order.
abbrev pub run_all {ℓ} : {W : Type ℓ} → (ℕ → ℕ → W → W) → Tasks → List ℕ → W → W
run_all act s [] w = w
run_all act s (t ∷ ts) w = run_all act s ts (act (s.handler t) (s.trap_frame t) w)

-- The tasks in front of the others, the last of them first.
abbrev pub onto : List ℕ → List ℕ → List ℕ
onto [] fs = fs
onto (t ∷ ts) fs = onto ts (t ∷ fs)

list_add_front :
    (new : ℕ) (p : Ptr) (s : Links) → (list_add new none p s).next ≡ update s.next new p
unfolding list_add set_prev set_next
list_add_front new none s = refl
list_add_front new (some head) s = refl

pub free_task_next : (t : ℕ) (s : Tasks) (y : ℕ) → y ≢ t → (free_task t s).next y ≡ s.next y
unfolding free_task init_except_task
free_task_next t s y ne = update-ne s.next t none y ne

pub free_task_call :
    (t : ℕ) (s : Tasks) (y : ℕ)
    → y ≢ t
    → ((free_task t s).handler y ≡ s.handler y) × ((free_task t s).trap_frame y ≡ s.trap_frame y)
unfolding free_task init_except_task
free_task_call t s y ne = (update-ne s.handler t 0 y ne, update-ne s.trap_frame t 0 y ne)

pub free_task-Chain :
    (t : ℕ) (s : Tasks) (fs : List ℕ)
    → Chain s.node.next s.task_free_list fs
    → mem t fs ≡ false
    → Chain (free_task t s).node.next (free_task t s).task_free_list (t ∷ fs)
unfolding free_task init_except_task node_init
free_task-Chain t s fs free out =
    let s' = init_except_task t s in
    let added : (list_add t none s.task_free_list s'.node).next
        ≡ update (update s.node.next t none) t s.task_free_list =
      list_add_front t s.task_free_list s'.node in
    let next = update (update s.node.next t none) t s.task_free_list in
    let here = update_self (update s.node.next t none) t s.task_free_list in
    let same : (y : ℕ) → mem y fs ≡ true → next y ≡ s.node.next y = λ y m.
      let ne = ne_of_mem y t fs m out in
      update-ne (update s.node.next t none) t s.task_free_list y ne
      ∙ update-ne s.node.next t none y ne in
    let chain : Chain next (next t) fs =
      subst (λ (p : Ptr). Chain next p fs) (sym here)
        (Chain-frame s.node.next next s.task_free_list fs same free) in
    (refl, subst (λ (f : ℕ → Ptr). Chain f (f t) fs) (sym added) chain)

pub run_all_same {ℓ} :
    {W : Type ℓ} (act : ℕ → ℕ → W → W) (s s' : Tasks) (ts : List ℕ) (w : W)
    → ((y : ℕ)
        → mem y ts ≡ true
        → (s'.handler y ≡ s.handler y) × (s'.trap_frame y ≡ s.trap_frame y))
    → run_all act s' ts w ≡ run_all act s ts w
run_all_same act s s' [] w same = refl
run_all_same act s s' (t ∷ ts) w same =
    let here = same t (mem-head t ts) in
    rw (here.0, here.1)
      (run_all_same act s s' ts (act (s.handler t) (s.trap_frame t) w)
        (λ y m. same y (cons-mem y t ts m)))

-- The first task of the pool is linked to nothing in front of it, and to no task of a queue.
abbrev pub Clear : Tasks → Type 0
Clear s = (a : ℕ) → s.task_free_list ≡ some a → (s.node.prev a ≡ none) × (s.next a ≡ none)

list_add_prev :
    (new : ℕ) (p : Ptr) (s : Links) → p ≢ some new → (list_add new none p s).prev new ≡ none
unfolding list_add set_prev set_next
list_add_prev new none s ne = update_self s.prev new none
list_add_prev new (some head) s ne =
    update-ne (update s.prev new none) head (some new) new (λ e. ne (ap some (sym e)))
    ∙ update_self s.prev new none

pub free_task-Clear : (t : ℕ) (s : Tasks) → s.task_free_list ≢ some t → Clear (free_task t s)
unfolding free_task init_except_task
free_task-Clear t s ne a e =
    let same : t ≡ a = cc e in
    subst (λ (b : ℕ). ((free_task t s).node.prev b ≡ none) × ((free_task t s).next b ≡ none)) same
      (list_add_prev t s.task_free_list (init_except_task t s).node ne, update_self s.next t none)

pub not_head :
    (t : ℕ) (next : ℕ → Ptr) (p : Ptr) (fs : List ℕ)
    → Chain next p fs
    → mem t fs ≡ false
    → p ≢ some t
not_head t next p [] chain out e = cc
not_head t next p (x ∷ fs) chain out e =
    let same : x ≡ t = cc (sym chain.0 ∙ e) in absurd ((not-mem-cons t x fs out).0 (sym same))
