-- ===== src/Syscalls/Forked.antt =====
-- What the child of `fork_s` has of its parent.
use oscs25_labs.Base.{ℕ, ◌+◌, ◌-◌, ◌*◌, ◌%◌, ◌^◌, ◌≤◌, ◌<◌, ◌≡◌, ◌⊎◌, refl, ap, ◌∙◌, arith}
use oscs25_labs.Words.{memcpy}
use oscs25_labs.Words.Copy.{Outside, memcpy_inside, memcpy-Outside}
use oscs25_labs.Words.Access.{
  word_at, store_word, store_word-Outside, word_at-store_word, word_at_moved,
}
use oscs25_labs.Threads.Defs.{Thread, user_stack_size, kernel_stack_size}
use oscs25_labs.Signals.{trap_frame_size, frame_word, set_frame_word}
use oscs25_labs.Syscalls.Fork.{user_top, kernel_top, moved, copy_stacks}

-- Two ranges of memory without a common address.
abbrev pub Disjoint : (a size b size' : ℕ) → Type 0
Disjoint a size b size' = (a + size ≤ b) ⊎ (b + size' ≤ a)

-- The frame is on the kernel stack of the parent, and the four stacks are apart.
pub record StacksApart (trap_frame : ℕ) (parent child : Thread) : Type 0 where
  pub above : kernel_top parent ≤ trap_frame
  pub below : trap_frame + trap_frame_size ≤ kernel_top parent + kernel_stack_size
  pub high : kernel_top parent + kernel_stack_size < 2 ^ 64
  pub child_high : kernel_top child + kernel_stack_size < 2 ^ 64
  pub users : Disjoint (user_top child) user_stack_size (user_top parent) user_stack_size
  pub kernels : Disjoint (kernel_top child) kernel_stack_size (kernel_top parent) kernel_stack_size
  pub parents : Disjoint (user_top parent) user_stack_size (kernel_top parent) kernel_stack_size
  pub children : Disjoint (user_top child) user_stack_size (kernel_top child) kernel_stack_size
  pub from_kernel : Disjoint (user_top child) user_stack_size (kernel_top parent) kernel_stack_size

-- The frame of the child, at the offset of the parent's in its own kernel stack.
abbrev pub child_frame : (trap_frame : ℕ) → (parent child : Thread) → ℕ
child_frame trap_frame parent child = kernel_top child + (trap_frame - kernel_top parent)

-- The child has the bytes of the user stack, and those of the kernel stack from the frame on, but
-- for its return value 0; the parent gets the number of the child.
pub record StacksCopied (trap_frame : ℕ) (parent child : Thread) (m m' : ℕ → ℕ) : Type 0 where
  pub user_bytes : (i : ℕ) → i < user_stack_size → m' (user_top child + i) ≡ m (user_top parent + i)
  pub kernel_bytes :
      (i : ℕ)
      → 8 ≤ i
      → trap_frame + i < kernel_top parent + kernel_stack_size
      → m' (child_frame trap_frame parent child + i) ≡ m (trap_frame + i)
  pub child_value : frame_word (child_frame trap_frame parent child) 0 m' ≡ 0
  pub parent_value : frame_word trap_frame 0 m' ≡ child.id

pub moved_frame :
    (trap_frame : ℕ) (parent child : Thread)
    → StacksApart trap_frame parent child
    → moved trap_frame (kernel_top parent) (kernel_top child) ≡ child_frame trap_frame parent child
unfolding moved
moved_frame trap_frame parent child a = omega (arith, a.above, a.below, a.high, a.child_high)

-- The stages of the copies of `fork_s`.
zeroed : (trap_frame : ℕ) → (ℕ → ℕ) → ℕ → ℕ
zeroed trap_frame m = store_word 8 trap_frame 0 m

users : (trap_frame : ℕ) → (parent child : Thread) → (ℕ → ℕ) → ℕ → ℕ
users trap_frame parent child m =
    memcpy (user_top child) (user_top parent) user_stack_size (zeroed trap_frame m)

rest_size : (trap_frame : ℕ) → (parent : Thread) → ℕ
rest_size trap_frame parent = kernel_top parent + kernel_stack_size - trap_frame

stages : (trap_frame : ℕ) → (parent child : Thread) → (ℕ → ℕ) → ℕ → ℕ
stages trap_frame parent child m =
    memcpy (child_frame trap_frame parent child) trap_frame (rest_size trap_frame parent)
      (users trap_frame parent child m)

copy_stacks-stages :
    (trap_frame : ℕ) (parent child : Thread) (m : ℕ → ℕ)
    → StacksApart trap_frame parent child
    → copy_stacks trap_frame parent child m
      ≡ store_word 8 trap_frame child.id (stages trap_frame parent child m)
unfolding copy_stacks set_frame_word zeroed users rest_size stages
copy_stacks-stages trap_frame parent child m a =
    let frame : trap_frame + 8 * 0 ≡ trap_frame = omega arith in
    let size : (kernel_stack_size + 2 ^ 64 - (trap_frame + 2 ^ 64 - kernel_top parent) % 2 ^ 64)
          % 2 ^ 32
        ≡ kernel_top parent + kernel_stack_size - trap_frame =
      omega (arith, a.above, a.below, a.high) in
    rw (frame, size, moved_frame trap_frame parent child a) refl

module _ (trap_frame : ℕ) (parent child : Thread) (m : ℕ → ℕ)
    (a : StacksApart trap_frame parent child) where
  stages_user :
      (i : ℕ)
      → i < user_stack_size
      → stages trap_frame parent child m (user_top child + i) ≡ m (user_top parent + i)
  unfolding stages users zeroed rest_size
  stages_user i low =
      memcpy-Outside (child_frame trap_frame parent child) trap_frame (rest_size trap_frame parent)
        (users trap_frame parent child m) (user_top child + i)
        (omega (arith, a.above, a.below, a.children, low))
      ∙ memcpy_inside (user_top child) (user_top parent) user_stack_size (zeroed trap_frame m) i low
          a.users
      ∙ store_word-Outside 8 trap_frame 0 m (user_top parent + i)
          (omega (arith, a.above, a.below, a.parents, low))

  stages_frame :
      (i : ℕ)
      → trap_frame + i < kernel_top parent + kernel_stack_size
      → stages trap_frame parent child m (child_frame trap_frame parent child + i)
        ≡ zeroed trap_frame m (trap_frame + i)
  unfolding stages users rest_size
  stages_frame i low =
      memcpy_inside (child_frame trap_frame parent child) trap_frame (rest_size trap_frame parent)
        (users trap_frame parent child m) i (omega (arith, a.above, low))
        (omega (arith, a.above, a.below, a.kernels))
      ∙ memcpy-Outside (user_top child) (user_top parent) user_stack_size (zeroed trap_frame m)
          (trap_frame + i) (omega (arith, a.above, a.from_kernel, low))

  pub copy_stacks-StacksCopied :
      child.id < 2 ^ 64
      → StacksCopied trap_frame parent child m (copy_stacks trap_frame parent child m)
  unfolding zeroed frame_word
  copy_stacks-StacksCopied id_low =
      let st = stages trap_frame parent child m in
      let cf = child_frame trap_frame parent child in
      let final = store_word 8 trap_frame child.id st in
      let last : (b : ℕ) → Outside trap_frame 8 b → store_word 8 trap_frame child.id st b ≡ st b =
        λ b out. store_word-Outside 8 trap_frame child.id st b out in
      rw (copy_stacks-stages trap_frame parent child m a) (record {
        user_bytes = λ i low.
            last (user_top child + i) (omega (arith, a.above, a.below, a.from_kernel, low))
            ∙ stages_user i low;
        kernel_bytes = λ i lo hi.
            last (cf + i) (omega (arith, a.above, a.below, a.kernels, hi))
            ∙ stages_frame i hi
            ∙ store_word-Outside 8 trap_frame 0 m (trap_frame + i) (omega (arith, lo));
        child_value =
            word_at_moved 8 (cf + 8 * 0) trap_frame final (zeroed trap_frame m) (λ i low.
              let here : cf + 8 * 0 + i ≡ cf + i = omega arith in
              ap final here
              ∙ last (cf + i) (omega (arith, a.above, a.below, a.kernels, low))
              ∙ stages_frame i (omega (arith, a.below, low)))
            ∙ word_at-store_word 8 trap_frame 0 m refl;
        parent_value =
            let here : trap_frame + 8 * 0 ≡ trap_frame = omega arith in
            ap (λ (b : ℕ). word_at 8 b final) here
            ∙ word_at-store_word 8 trap_frame child.id st (omega (arith, id_low));
      })
