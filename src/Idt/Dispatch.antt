-- ===== src/Idt/Dispatch.antt =====
-- What `interrupt_dispatch` of src/arch/x86_64/idt/idt.c does on every vector, and on one interrupt
-- after another.
use mathlib.Core.Path.{subst}
use mathlib.Core.List.{append_assoc}
use potatos.Base.{
  ℕ, ◌≤◌, ◌<◌, ◌≡◌, ◌≢◌, refl, sym, ◌∙◌, true, false, Bool-cases, ◌++◌, inl, inr, ◌==◌, ltb, leb,
  if◌then◌else◌, arith, List, [], ◌∷◌, u8,
}
use potatos.Idt.{Machine, interrupt_dispatch, finish, report, halted, returned, begin, outportb}
use potatos.Keyboard.{keyboard_driver_irq_handler}
use potatos.Scheduler.{Scheduler}
use potatos.Scheduler.Turns.{IsTable, IsTurn, schelude_lem}

-- The ends of interrupt that a vector asks for: to the slave first if the interrupt came through it.
abbrev pub acknowledged : ℕ → List (ℕ × ℕ)
acknowledged v = if ltb v 40 then (0x20, 0x20) ∷ [] else (0xa0, 0x20) ∷ (0x20, 0x20) ∷ []

-- What serving the vector `v` does.
pub record IsServed (v scancode context : ℕ) (s : Machine) (next : ℕ) (s' : Machine) : Type 0 where
  pub typed :
      s'.keyboard
      ≡ (if v == 0x21 then keyboard_driver_irq_handler scancode s.keyboard else s.keyboard)
  pub switched : v ≡ 0x20 → IsTurn context s.scheduler s'.scheduler next
  pub resumed : v ≢ 0x20 → (next ≡ context) × (s'.scheduler ≡ s.scheduler)
  pub ends : s'.ports ≡ s.ports ++ acknowledged v
  pub table : IsTable s'.scheduler

finish_timer :
    (context : ℕ) (s : Machine)
    → IsTable s.scheduler
    → (next : ℕ) × (scheduler : Scheduler) × (finish 0x20 context s
        ≡ returned next (outportb 0x20 0x20 (record s { scheduler = scheduler })))
      × IsTurn context s.scheduler scheduler next
      × IsTable scheduler
unfolding finish
finish_timer context s t =
    let (next, scheduler, called, turn, table) = schelude_lem context s.scheduler t in
    (next, scheduler, rw (finish, called) refl, turn, table)

finish-other :
    (v context : ℕ) (s : Machine)
    → v ≢ 0x20
    → finish v context s ≡ returned context (outportb 0x20 0x20 s)
unfolding finish
finish-other v context s other = let e : (v == 0x20) ≡ false = ground arith in rw (finish, e) refl

-- What happens before the tasks may change.
begin_lem :
    (v scancode : ℕ) (s : Machine)
    → ((begin v scancode s).scheduler ≡ s.scheduler)
      × ((begin v scancode s).keyboard
          ≡ (if v == 0x21 then keyboard_driver_irq_handler scancode s.keyboard else s.keyboard))
      × ((begin v scancode s).ports ++ (0x20, 0x20) ∷ [] ≡ s.ports ++ acknowledged v)
begin_lem v scancode s = elim (Bool-cases (v == 0x21)) [
  | inl key ↦
      let low : (leb 40 v ≡ false) × (ltb v 40 ≡ true) = ground arith in
      rw (key, low.0, low.1) (refl, refl, refl)
  | inr other ↦ elim (Bool-cases (ltb v 40)) [
    | inl master ↦
        let high : leb 40 v ≡ false = ground arith in rw (other, master, high) (refl, refl, refl)
    | inr slave ↦
        let high : leb 40 v ≡ true = ground arith in
        rw (other, slave, high)
          (refl, refl, append_assoc s.ports ((0xa0, 0x20) ∷ []) ((0x20, 0x20) ∷ []))
  ]
]

timer_case :
    (scancode context : ℕ) (s : Machine)
    → IsTable s.scheduler
    → (next : ℕ) × (s' : Machine) × (finish 0x20 context (begin 0x20 scancode s) ≡ returned next s')
      × IsServed 0x20 scancode context s next s'
timer_case scancode context s t =
    let (next, scheduler, called, turn, table) = finish_timer context s t in
    (
      next,
      outportb 0x20 0x20 (record s { scheduler = scheduler }),
      called,
      record {
        typed = refl;
        switched = λ e. turn;
        resumed = λ other. absurd (other refl);
        ends = refl;
        table = table;
      },
    )

other_case :
    (v scancode context : ℕ) (s : Machine)
    → IsTable s.scheduler
    → v ≢ 0x20
    → IsServed v scancode context s context (outportb 0x20 0x20 (begin v scancode s))
other_case v scancode context s t other =
    let (scheduler, keyboard, ports) = begin_lem v scancode s in
    record {
      typed = keyboard;
      switched = λ e. absurd (other e);
      resumed = λ h. (refl, scheduler);
      ends = ports;
      table = rw scheduler t;
    }

served :
    (v scancode context : ℕ) (s : Machine)
    → IsTable s.scheduler
    → (next : ℕ) × (s' : Machine) × (finish v context (begin v scancode s) ≡ returned next s')
      × IsServed v scancode context s next s'
served v scancode context s t = elim (Bool-cases (v == 0x20)) [
  | inl timer ↦
      let e : v ≡ 0x20 = ground arith in
      subst
        (λ k.
          (next : ℕ) × (s' : Machine) × (finish k context (begin k scancode s) ≡ returned next s')
          × IsServed k scancode context s next s')
        (sym e) (timer_case scancode context s t)
  | inr otherwise ↦
      let other : v ≢ 0x20 = ground arith in
      (
        context,
        outportb 0x20 0x20 (begin v scancode s),
        finish-other v context (begin v scancode s) other,
        other_case v scancode context s t other,
      )
]

-- The two ways of a call, for the number of the vector.
dispatch_halts :
    (scancode context : ℕ) (s : Machine)
    → ltb (u8 (s.scheduler.contexts context).vector_number) 0x20 ≡ true
    → interrupt_dispatch scancode context s
      ≡ halted (
          report
            (u8 (s.scheduler.contexts context).vector_number)
            (s.scheduler.contexts context).error_code)
unfolding interrupt_dispatch
dispatch_halts scancode context s h = rw (interrupt_dispatch, h) refl

dispatch_goes_on :
    (scancode context : ℕ) (s : Machine)
    → ltb (u8 (s.scheduler.contexts context).vector_number) 0x20 ≡ false
    → interrupt_dispatch scancode context s
      ≡ finish
          (u8 (s.scheduler.contexts context).vector_number)
          context
          (begin (u8 (s.scheduler.contexts context).vector_number) scancode s)
unfolding interrupt_dispatch
dispatch_goes_on scancode context s h = rw (interrupt_dispatch, h) refl

-- `interrupt_dispatch` with a table of tasks: at the vector of an exception it halts with the report of
-- the exception and does not return; at any other vector it returns. There the keyboard's handler runs
-- at the keyboard's vector only, the tasks change by a turn at the timer's vector and else the
-- interrupted context is returned, and the interrupt ends at the master, after the slave if it came
-- through it.
pub interrupt_dispatch_lem :
    (scancode context : ℕ) (s : Machine)
    → IsTable s.scheduler
    → (u8 (s.scheduler.contexts context).vector_number < 32
        → interrupt_dispatch scancode context s
          ≡ halted (
              report
                (u8 (s.scheduler.contexts context).vector_number)
                (s.scheduler.contexts context).error_code))
      × (32 ≤ u8 (s.scheduler.contexts context).vector_number
          → (next : ℕ) × (s' : Machine) × (interrupt_dispatch scancode context s ≡ returned next s')
            × IsServed (u8 (s.scheduler.contexts context).vector_number) scancode context s next s')
interrupt_dispatch_lem scancode context s t = (
  λ h. dispatch_halts scancode context s (ground (arith, h)),
  λ h.
      let v = u8 (s.scheduler.contexts context).vector_number in
      let (next, s', called, done) = served v scancode context s t in
      (next, s', dispatch_goes_on scancode context s (ground (arith, h)) ∙ called, done),
)
