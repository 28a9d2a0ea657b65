-- ===== src/Signals/Page.antt =====
-- The page on which `handle_signal` runs a handler.
use oscs25_labs.Base.{ℕ, ◌^◌, ◌<◌, ◌≡◌, ◌≢◌, ap, refl, inl, inr, List, [], Option, arith, sym}
use mathlib.Core.Path.{subst}
use oscs25_labs.Pages.{Pages, page_alloc, calculate_order, order_loop}
use oscs25_labs.Pages.Invariant.{IsHeap}
use oscs25_labs.Pages.Alloc.{Allocated, page_alloc-outcome}
use oscs25_labs.Signals.{Machine, signal_handler_stack_size, handle_signal}
use oscs25_labs.Threads.Defs.{num_signals}
use oscs25_labs.Signals.Frames.{
  FrameApart, Entered, pending, registered, handler_page, handle_signal-Entered,
}

-- The handler is entered on the page `t`, which was free and is taken from the page allocator.
pub record OnPage (exit trap_frame : ℕ) (order : ℕ → ℕ) (m : Machine) (r : Option Machine)
    : Type 0 where
  pub entered : Entered exit (registered m.system) trap_frame (handler_page m.system) m r
  pub order' : ℕ → ℕ
  pub lists' : ℕ → List ℕ
  pub t : ℕ
  pub allocated :
      Allocated m.system.pages order 0
        (handler_page m.system, entered.after.system.pages)
        order'
        lists'
        t

one_page : calculate_order signal_handler_stack_size ≡ 0
unfolding calculate_order order_loop
one_page = refl

-- If the heap is well-formed and page_alloc gives a page, which is apart from the trap frame, and the
-- addresses have 64 bits, a signal with a registered handler is handled: the thread returns to the
-- handler, at the end of that page, which was free and is occupied, and what it did before is saved
-- there; used blocks are kept, the signal is marked as handled, and no byte outside the page and the
-- trap frame is changed.
pub handle_signal-OnPage :
    {order : ℕ → ℕ} {lists : ℕ → List ℕ} (exit trap_frame : ℕ) (m : Machine)
    → IsHeap m.system.pages [] order lists
    → handler_page m.system ≢ 0
    → pending m.system < num_signals
    → registered m.system ≢ 0
    → registered m.system < 2 ^ 64
    → exit < 2 ^ 64
    → m.sp_el0 < 2 ^ 64
    → FrameApart (handler_page m.system) trap_frame
    → OnPage exit trap_frame order m (handle_signal exit trap_frame m)
handle_signal-OnPage {order} exit trap_frame m heap given known is_registered handler_low exit_low
      sp_low apart =
    let entered =
      handle_signal-Entered exit trap_frame m known is_registered handler_low exit_low sp_low
        apart in
    elim (page_alloc-outcome heap signal_handler_stack_size (omega arith)) [
      | inl (t, order', lists', a) ↦ record {
        entered = entered;
        order' = order';
        lists' = lists';
        t = t;
        allocated =
            subst
              (λ (p' : Pages).
                Allocated m.system.pages order 0 (handler_page m.system, p') order' lists' t)
              (sym entered.pages)
              (subst
                (λ (o : ℕ).
                  Allocated m.system.pages order o
                    (page_alloc signal_handler_stack_size m.system.pages) order' lists' t)
                one_page a);
      }
      | inr (e, full) ↦ absurd (given (ap (λ (r : ℕ × Pages). r.0) e))
    ]
