-- ===== src/Signals/Frames.antt =====
-- What `handle_signal` leaves in memory for the handler and for `sigreturn_s`.
use oscs25_labs.Base.{
  ℕ, ◌+◌, ◌-◌, ◌*◌, ◌^◌, ◌≤◌, ◌<◌, ◌≡◌, ◌≢◌, ◌⊎◌, ◌∙◌, ap, refl, Option, some, update_self, true,
  false, ltb, ◌==◌, arith,
}
use oscs25_labs.Pages.{page_alloc, page_size}
use oscs25_labs.Threads.Defs.{System, Thread, num_signals, get_stack_bottom}
use oscs25_labs.Pages.Aligned.{page_alloc-IsPage}
use oscs25_labs.Words.{memcpy}
use oscs25_labs.Words.Copy.{Outside, memcpy_inside, memcpy-Outside}
use oscs25_labs.Words.Access.{
  word_at, store_word, store_word-Outside, word_at-store_word, word_at-store_elsewhere, Agree,
  word_at-Agree,
}
use oscs25_labs.Signals.{
  Machine, signal_handler_stack_size, trap_frame_size, frame_word, set_frame_word, lr_idx, elr_idx,
  spsr_idx, save_frame, enter_handler, set_pages, clear_signal, run_registered, handle_signal,
}

-- The page of a handler is apart from the trap frame.
abbrev pub FrameApart : (page trap_frame : ℕ) → Type 0
FrameApart page trap_frame = (trap_frame + trap_frame_size ≤ page) ⊎ (page + page_size ≤ trap_frame)

-- The end of the page holds the stack pointer `sp`, and below it the bytes that were the frame.
pub record Saved (page sp : ℕ) (trap_frame : ℕ) (memory memory' : ℕ → ℕ) : Type 0 where
  pub pointer : word_at 8 (page + 0xff0) memory' ≡ sp
  pub frame : (i : ℕ) → i < trap_frame_size → memory' (page + 0xee0 + i) ≡ memory (trap_frame + i)

enter_handler-Outside :
    (exit handler trap_frame : ℕ) (m : ℕ → ℕ) (a : ℕ)
    → Outside trap_frame trap_frame_size a
    → enter_handler exit handler trap_frame m a ≡ m a
unfolding enter_handler set_frame_word
enter_handler-Outside exit handler trap_frame m a out =
    store_word-Outside 8 (trap_frame + 8 * spsr_idx) 0x340 _ a (omega arith)
    ∙ store_word-Outside 8 (trap_frame + 8 * elr_idx) handler _ a (omega arith)
    ∙ store_word-Outside 8 (trap_frame + 8 * lr_idx) exit m a (omega arith)

save_frame-Saved :
    (trap_frame page : ℕ) (m : Machine)
    → FrameApart page trap_frame
    → m.sp_el0 < 2 ^ 64
    → Saved page m.sp_el0 trap_frame m.memory ((save_frame trap_frame (page + 0xff0) m).memory)
unfolding save_frame
save_frame-Saved trap_frame page m apart low =
    let stored = store_word 8 (page + 0xff0) m.sp_el0 m.memory in
    let saved = memcpy (page + 0xff0 - 272) trap_frame trap_frame_size stored in
    record {
      pointer =
          word_at-Agree 8 (page + 0xff0) saved stored (λ a lo hi.
            memcpy-Outside (page + 0xff0 - 272) trap_frame trap_frame_size stored a (omega arith))
          ∙ word_at-store_word 8 (page + 0xff0) m.sp_el0 m.memory (omega arith);
      frame = λ i lo.
          let there : page + 0xee0 + i ≡ page + 0xff0 - 272 + i = omega arith in
          ap saved there
          ∙ memcpy_inside (page + 0xff0 - 272) trap_frame trap_frame_size stored i lo (omega arith)
          ∙ store_word-Outside 8 (page + 0xff0) m.sp_el0 m.memory (trap_frame + i) (omega arith);
    }

-- The saved words stay if their bytes stay.
pub Saved-Agree :
    (page sp trap_frame : ℕ) (memory m m' : ℕ → ℕ)
    → Saved page sp trap_frame memory m
    → Agree (page + 0xee0) 0x118 m' m
    → Saved page sp trap_frame memory m'
Saved-Agree page sp trap_frame memory m m' saved same = record {
  pointer =
      word_at-Agree 8 (page + 0xff0) m' m (λ a lo hi. same a (omega arith) (omega arith))
      ∙ saved.pointer;
  frame = λ i lo. same (page + 0xee0 + i) (omega arith) (omega arith) ∙ saved.frame i lo;
}

-- The frame that returns to the handler.
pub record Returns (exit handler trap_frame : ℕ) (memory : ℕ → ℕ) : Type 0 where
  pub link : frame_word trap_frame lr_idx memory ≡ exit
  pub address : frame_word trap_frame elr_idx memory ≡ handler
  pub mode : frame_word trap_frame spsr_idx memory ≡ 0x340

enter_handler-Returns :
    (exit handler trap_frame : ℕ) (m : ℕ → ℕ)
    → exit < 2 ^ 64
    → handler < 2 ^ 64
    → Returns exit handler trap_frame (enter_handler exit handler trap_frame m)
unfolding enter_handler set_frame_word frame_word
enter_handler-Returns exit handler trap_frame m exit_low handler_low =
    let lr = trap_frame + 8 * lr_idx in
    let elr = trap_frame + 8 * elr_idx in
    let spsr = trap_frame + 8 * spsr_idx in
    let m₁ = store_word 8 lr exit m in
    let m₂ = store_word 8 elr handler m₁ in
    record {
      link =
          word_at-store_elsewhere 8 lr 8 spsr 0x340 m₂ (omega arith)
          ∙ word_at-store_elsewhere 8 lr 8 elr handler m₁ (omega arith)
          ∙ word_at-store_word 8 lr exit m (omega arith);
      address =
          word_at-store_elsewhere 8 elr 8 spsr 0x340 m₂ (omega arith)
          ∙ word_at-store_word 8 elr handler m₁ (omega arith);
      mode = word_at-store_word 8 spsr 0x340 m₂ (omega arith);
    }

-- The handler runs on the end of the page, its frame is saved, the signal is marked as handled, and
-- no byte outside the page and the trap frame is changed.
pub record Entered (exit handler trap_frame page : ℕ) (m : Machine) (r : Option Machine)
    : Type 0 where
  pub after : Machine
  pub result : r ≡ some after
  pub saved : Saved page m.sp_el0 trap_frame m.memory after.memory
  pub stack : after.sp_el0 ≡ page + 0xee0
  pub returns : Returns exit handler trap_frame after.memory
  pub pages : after.system.pages ≡ (page_alloc signal_handler_stack_size m.system.pages).1
  pub handled : (after.system.thread m.system.current).last_signal ≡ num_signals
  pub others :
      (a : ℕ)
      → Outside page page_size a
      → Outside trap_frame trap_frame_size a
      → after.memory a ≡ m.memory a

save_frame-Outside :
    (trap_frame page : ℕ) (m : Machine) (a : ℕ)
    → Outside page page_size a
    → (save_frame trap_frame (page + 0xff0) m).memory a ≡ m.memory a
unfolding save_frame
save_frame-Outside trap_frame page m a out =
    memcpy-Outside (page + 0xff0 - 272) trap_frame trap_frame_size _ a (omega arith)
    ∙ store_word-Outside 8 (page + 0xff0) m.sp_el0 m.memory a (omega arith)

-- The signal that waits for the running thread, its handler, and the page that the handler gets.
abbrev pub pending : System → ℕ
pending s = (s.thread s.current).last_signal

abbrev pub registered : System → ℕ
registered s = (s.thread s.current).signal_handlers (pending s)

abbrev pub handler_page : System → ℕ
handler_page s = (page_alloc signal_handler_stack_size s.pages).0

run_registered_page :
    (exit handler trap_frame : ℕ) (m : Machine)
    → run_registered exit handler trap_frame m ≡ (
        let s = m.system in
        let saved =
          save_frame trap_frame (handler_page s + 0xff0) (record m {
            system = set_pages ((page_alloc signal_handler_stack_size s.pages).1) s;
          }) in
        record saved { memory = enter_handler exit handler trap_frame saved.memory })
unfolding run_registered
run_registered_page exit handler trap_frame m =
    let is_page = page_alloc-IsPage signal_handler_stack_size m.system.pages in
    let bottom : get_stack_bottom (handler_page m.system) signal_handler_stack_size
        ≡ handler_page m.system + 0xff0 =
      omega (arith, is_page.1) in
    rw bottom refl

run_registered-Entered :
    (exit handler trap_frame : ℕ) (m : Machine)
    → handler < 2 ^ 64
    → exit < 2 ^ 64
    → m.sp_el0 < 2 ^ 64
    → FrameApart (handler_page m.system) trap_frame
    → pending m.system ≡ num_signals
    → Entered exit handler trap_frame
        (handler_page m.system)
        m
        (some (run_registered exit handler trap_frame m))
unfolding set_pages save_frame
run_registered-Entered exit handler trap_frame m handler_low exit_low sp_low apart handled =
    let s = m.system in
    let page = handler_page s in
    let m' = record m { system = set_pages ((page_alloc signal_handler_stack_size s.pages).1) s } in
    let saved = save_frame trap_frame (page + 0xff0) m' in
    let entered = enter_handler exit handler trap_frame saved.memory in
    record {
      after = record saved { memory = entered };
      result = ap some (run_registered_page exit handler trap_frame m);
      saved =
          Saved-Agree page m.sp_el0 trap_frame m.memory saved.memory entered
            (save_frame-Saved trap_frame page m' apart sp_low)
            (λ a lo hi. enter_handler-Outside exit handler trap_frame saved.memory a (omega arith));
      stack = omega arith;
      returns = enter_handler-Returns exit handler trap_frame saved.memory exit_low handler_low;
      pages = refl;
      handled = handled;
      others = λ a out_page out_frame.
          enter_handler-Outside exit handler trap_frame saved.memory a out_frame
          ∙ save_frame-Outside trap_frame page m' a out_page;
    }

-- A signal with a registered handler is handled: the thread returns to the handler, at the end of the
-- page that `page_alloc` gives, if it is apart from the trap frame, and what it did before is saved
-- there. The address of the page may be 0.
pub handle_signal-Entered :
    (exit trap_frame : ℕ) (m : Machine)
    → pending m.system < num_signals
    → registered m.system ≢ 0
    → registered m.system < 2 ^ 64
    → exit < 2 ^ 64
    → m.sp_el0 < 2 ^ 64
    → FrameApart (handler_page m.system) trap_frame
    → Entered exit
        (registered m.system)
        trap_frame
        (handler_page m.system)
        m
        (handle_signal exit trap_frame m)
unfolding handle_signal clear_signal
handle_signal-Entered exit trap_frame m known is_registered handler_low exit_low sp_low apart =
    let s = m.system in
    let page = handler_page s in
    let below : ltb (pending s) num_signals ≡ true = ground arith in
    let handler : (registered s == 0) ≡ false = ground arith in
    let m' = record m { system = clear_signal s } in
    let handled =
      ap (λ (t : Thread). t.last_signal)
        (update_self s.thread s.current
          (record (s.thread s.current) { last_signal = num_signals })) in
    let entered =
      run_registered-Entered exit (registered s) trap_frame m' handler_low exit_low sp_low apart
        handled in
    record {
      after = entered.after;
      result = rw (below, handler) entered.result;
      saved = entered.saved;
      stack = entered.stack;
      returns = entered.returns;
      pages = entered.pages;
      handled = entered.handled;
      others = entered.others;
    }
