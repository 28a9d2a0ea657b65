-- ===== src/Except/Insert.antt =====
-- Where a task is put in a queue that is there: by its priority, behind those of the same priority.
use oscs25_labs.Base.{
  ℕ, zero, suc, ◌<◌, true, false, List, [], ◌∷◌, ◌≡◌, ◌≢◌, refl, sym, ◌∙◌, Option, none, some, leb,
  if◌then◌else◌, update, update-ne, update_self, mem, Distinct, length, Bool-cases, inl, inr, arith,
  ne_of_mem, not-mem-cons, mem-head, cons-mem, subst,
}
use oscs25_labs.Template.Links.{Ptr}
use oscs25_labs.Except.{Tasks, place_step, find_place, link_task, insert_task}

-- The tasks from a pointer on, along `next`.
abbrev pub Chain : (ℕ → Ptr) → Ptr → List ℕ → Type 0
Chain next p [] = p ≡ none
Chain next p (x ∷ xs) = (p ≡ some x) × Chain next (next x) xs

-- The place of `task` among tasks that are run in this order.
abbrev pub placed : (priority : ℕ → ℕ) → (task : ℕ) → List ℕ → List ℕ
placed priority task [] = task ∷ []
placed priority task (x ∷ xs) =
    if leb (priority task) (priority x) then x ∷ placed priority task xs else task ∷ x ∷ xs

pub Chain-frame :
    (next next' : ℕ → Ptr) (p : Ptr) (xs : List ℕ)
    → ((y : ℕ) → mem y xs ≡ true → next' y ≡ next y)
    → Chain next p xs
    → Chain next' p xs
Chain-frame next next' p [] same c = c
Chain-frame next next' p (x ∷ xs) same c = (
  c.0,
  Chain-frame next next' (next' x) xs (λ y m. same y (cons-mem y x xs m))
      (subst (λ (q : Ptr). Chain next q xs) (sym (same x (mem-head x xs))) c.1),
)

-- The queue behind `head` has `task` in its place; no other task is linked anew, and nothing but
-- links is written.
pub record Inserted (s : Tasks) (task head : ℕ) (xs : List ℕ) (r : Option Tasks) : Type 0 where
  pub after : Tasks
  pub found : r ≡ some after
  pub chain : Chain after.next (after.next head) (placed s.priority task xs)
  pub others : (y : ℕ) → mem y (head ∷ xs) ≡ false → y ≢ task → after.next y ≡ s.next y

linked_here :
    (s : Tasks) (task head : ℕ) (rest : List ℕ)
    → head ≢ task
    → mem head rest ≡ false
    → mem task rest ≡ false
    → Chain s.next (s.next head) rest
    → Chain (link_task task head s).next ((link_task task head s).next head) (task ∷ rest)
unfolding link_task
linked_here s task head rest ne out_head out_task c =
    let next₁ = update s.next task (s.next head) in
    let next₂ = update next₁ head (some task) in
    let at_task : next₂ task ≡ s.next head =
      update-ne next₁ head (some task) task (λ e. ne (sym e))
      ∙ update_self s.next task (s.next head) in
    (
      update_self next₁ head (some task),
      subst (λ (q : Ptr). Chain next₂ q rest) (sym at_task)
          (Chain-frame s.next next₂ (s.next head) rest
            (λ y m.
              update-ne next₁ head (some task) y (ne_of_mem y head rest m out_head)
              ∙ update-ne s.next task (s.next head) y (ne_of_mem y task rest m out_task))
            c),
    )

linked_others :
    (s : Tasks) (task head y : ℕ) → y ≢ head → y ≢ task → (link_task task head s).next y ≡ s.next y
unfolding link_task
linked_others s task head y ne_head ne_task =
    update-ne (update s.next task (s.next head)) head (some task) y ne_head
    ∙ update-ne s.next task (s.next head) y ne_task

-- The task goes behind `head`.
insert_here :
    (s : Tasks) (task head : ℕ) (xs : List ℕ)
    → placed s.priority task xs ≡ task ∷ xs
    → head ≢ task
    → Distinct (head ∷ xs)
    → mem task xs ≡ false
    → Chain s.next (s.next head) xs
    → Inserted s task head xs (some (link_task task head s))
insert_here s task head xs e ne distinct out c = record {
  after = link_task task head s;
  found = refl;
  chain =
      let next = (link_task task head s).next in
      subst (λ (l : List ℕ). Chain next (next head) l) (sym e)
        (linked_here s task head xs ne distinct.0 out c);
  others = λ y m ne_task. linked_others s task head y (not-mem-cons y head xs m).0 ne_task;
}

-- In a queue whose tasks are distinct, a new task is put behind the head and behind all tasks up to
-- the first one of a lower priority; the order of the others is kept.
pub insert_task-Inserted :
    (xs : List ℕ) (n task head : ℕ) (s : Tasks)
    → length xs < n
    → Distinct (head ∷ xs)
    → mem task (head ∷ xs) ≡ false
    → Chain s.next (s.next head) xs
    → Inserted s task head xs (insert_task n task head s)
unfolding insert_task find_place place_step
insert_task-Inserted xs zero task head s fuel distinct out c = absurd (omega arith)
insert_task-Inserted [] (suc n) task head s fuel distinct out c =
    let (ne, out') = not-mem-cons task head [] out in
    rw c (insert_here s task head [] refl (λ e. ne (sym e)) distinct out' c)
insert_task-Inserted (x ∷ xs) (suc n) task head s fuel distinct out c =
    let (ne, out') = not-mem-cons task head (x ∷ xs) out in
    elim (Bool-cases (leb (s.priority task) (s.priority x))) [
      | inl behind ↦
          let r = insert_task-Inserted xs n task x s (omega arith) distinct.1 out' c.1 in
          let step : insert_task (suc n) task head s ≡ insert_task n task x s =
            rw (c.0, behind) refl in
          let at_head : r.after.next head ≡ some x =
            r.others head distinct.0 (λ e. ne (sym e)) ∙ c.0 in
          record {
            after = r.after;
            found = step ∙ r.found;
            chain = rw behind (at_head, r.chain);
            others = λ y m ne_task. r.others y (not-mem-cons y head (x ∷ xs) m).1 ne_task;
          }
      | inr before ↦
          let step : insert_task (suc n) task head s ≡ some (link_task task head s) =
            rw (c.0, before) refl in
          subst (λ (o : Option Tasks). Inserted s task head (x ∷ xs) o) (sym step)
            (insert_here s task head (x ∷ xs) (rw before refl) (λ e. ne (sym e)) distinct out' c)
    ]
