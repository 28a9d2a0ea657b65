-- ===== src/Signals/Restore.antt =====
-- `sigreturn_s` undoes `handle_signal`.
use oscs25_labs.Base.{ℕ, ◌+◌, ◌-◌, ◌^◌, ◌≤◌, ◌<◌, ◌≡◌, ◌≢◌, ◌∙◌, refl, subst, some, arith}
use oscs25_labs.Pages.{page_free, page_size}
use oscs25_labs.Pages.Aligned.{IsPage, page_alloc-IsPage}
use oscs25_labs.Threads.Defs.{num_signals, get_stack_top, get_stack_bottom}
use oscs25_labs.Words.{memcpy}
use oscs25_labs.Words.Copy.{Outside, memcpy_inside, memcpy-Outside}
use oscs25_labs.Words.Access.{word_at, Agree}
use oscs25_labs.Signals.{
  Machine, signal_handler_stack_size, trap_frame_size, set_pages, handle_signal, sigreturn_s,
}
use oscs25_labs.Signals.Frames.{
  FrameApart, Saved, Saved-Agree, pending, registered, handler_page, handle_signal-Entered,
}

-- The frame at `trap_frame'` holds the bytes that `memory` had at `trap_frame`, and the rest of the
-- machine is as in `m`, but for the page, which is free.
pub record Restored (page sp trap_frame trap_frame' : ℕ) (memory : ℕ → ℕ) (m r : Machine)
    : Type 0 where
  pub pointer : r.sp_el0 ≡ sp
  pub frame : (i : ℕ) → i < trap_frame_size → r.memory (trap_frame' + i) ≡ memory (trap_frame + i)
  pub others : (a : ℕ) → Outside trap_frame' trap_frame_size a → r.memory a ≡ m.memory a
  pub freed : r.system ≡ set_pages (page_free page m.system.pages) m.system

sigreturn_s_page :
    (page trap_frame : ℕ) (m : Machine)
    → IsPage page
    → page ≤ m.sp_el0
    → m.sp_el0 < page + page_size
    → sigreturn_s trap_frame m ≡ record m {
      sp_el0 = word_at 8 (page + 0xff0) m.memory;
      memory = memcpy trap_frame (page + 0xee0) trap_frame_size m.memory;
      system = set_pages (page_free page m.system.pages) m.system;
    }
unfolding sigreturn_s
sigreturn_s_page page trap_frame m is_page lo hi =
    let top : get_stack_top m.sp_el0 signal_handler_stack_size ≡ page = omega (arith, is_page.0) in
    let bottom : get_stack_bottom page signal_handler_stack_size ≡ page + 0xff0 =
      omega (arith, is_page.1) in
    let saved : page + 0xff0 - 272 ≡ page + 0xee0 = omega arith in rw (top, bottom, saved) refl

sigreturn_s-Saved :
    (page sp trap_frame trap_frame' : ℕ) (memory : ℕ → ℕ) (m : Machine)
    → Saved page sp trap_frame memory m.memory
    → IsPage page
    → page ≤ m.sp_el0
    → m.sp_el0 < page + page_size
    → FrameApart page trap_frame'
    → Restored page sp trap_frame trap_frame' memory m (sigreturn_s trap_frame' m)
sigreturn_s-Saved page sp trap_frame trap_frame' memory m saved is_page lo hi apart =
    rw (sigreturn_s_page page trap_frame' m is_page lo hi) (record {
      pointer = saved.pointer;
      frame = λ i low.
          memcpy_inside trap_frame' (page + 0xee0) trap_frame_size m.memory i low (omega arith)
          ∙ saved.frame i low;
      others = λ a out. memcpy-Outside trap_frame' (page + 0xee0) trap_frame_size m.memory a out;
      freed = refl;
    })

-- A thread that is in a handler comes back: `m₂` is any state in which the handler, entered in `m₁`,
-- has left the saved bytes alone and has its stack pointer in its page. Then `sigreturn_s`, whose
-- frame may be another one, restores the stack pointer and the frame, and frees the page.
pub sigreturn_s-Restored :
    (exit trap_frame trap_frame' : ℕ) (m m₁ m₂ : Machine)
    → pending m.system < num_signals
    → registered m.system ≢ 0
    → registered m.system < 2 ^ 64
    → exit < 2 ^ 64
    → m.sp_el0 < 2 ^ 64
    → FrameApart (handler_page m.system) trap_frame
    → handle_signal exit trap_frame m ≡ some m₁
    → Agree (handler_page m.system + 0xee0) 0x118 m₂.memory m₁.memory
    → handler_page m.system ≤ m₂.sp_el0
    → m₂.sp_el0 < handler_page m.system + page_size
    → FrameApart (handler_page m.system) trap_frame'
    → Restored
        (handler_page m.system)
        m.sp_el0
        trap_frame
        trap_frame'
        m.memory
        m₂
        (sigreturn_s trap_frame' m₂)
sigreturn_s-Restored exit trap_frame trap_frame' m m₁ m₂ known is_registered handler_low exit_low
      sp_low apart enters same lo hi apart' =
    let page = handler_page m.system in
    let entered =
      handle_signal-Entered exit trap_frame m known is_registered handler_low exit_low sp_low
        apart in
    let there : entered.after ≡ m₁ = grind (arith, entered.result, enters) in
    let saved₁ =
      subst (λ (x : Machine). Saved page m.sp_el0 trap_frame m.memory x.memory) there
        entered.saved in
    let saved₂ = Saved-Agree page m.sp_el0 trap_frame m.memory m₁.memory m₂.memory saved₁ same in
    sigreturn_s-Saved page m.sp_el0 trap_frame trap_frame' m.memory m₂ saved₂
      (page_alloc-IsPage signal_handler_stack_size m.system.pages) lo hi apart'
