-- ===== src/Scheduler/Tests.antt =====
-- Tests of the scheduler, with four tasks as `init_scheluder` starts them.
use mathlib.Core.Option
use potatos.Base.{
  ◌*◌, ◌+◌, ℕ, ◌≡◌, refl, arith, none, some, true, false, ◌<◌, ◌⊎◌, ◌==◌, leb, [], ◌∷◌, List,
}
use potatos.Scheduler.{
  ready, CpuStatus, Scheduler, Blocks, schelude, schelude_all, init_scheluder, dead_loop, add_all,
  add_process, create_process,
}
use potatos.Scheduler.Turns.{IsTable, IsTurn, schelude_lem, schelude_all_lem}
use potatos.Scheduler.Start.{IsStarted, init_scheluder_lem}

abbrev zeroed : CpuStatus
zeroed = record {
  r15 = 0;
  r14 = 0;
  r13 = 0;
  r12 = 0;
  r11 = 0;
  r10 = 0;
  r9 = 0;
  r8 = 0;
  rdi = 0;
  rsi = 0;
  rbp = 0;
  rdx = 0;
  rcx = 0;
  rbx = 0;
  rax = 0;
  vector_number = 0;
  error_code = 0;
  iret_rip = 0;
  iret_cs = 0;
  iret_rflags = 0;
  iret_rsp = 0;
  iret_ss = 0;
}

-- Three tasks at the addresses 100, 101 and 102, the second one running.
abbrev three : Scheduler
three = record {
  snapshots = λ i. 100 + i;
  processes = λ a. record { process_status = ready; name = []; context = a * 10 };
  contexts = λ a. zeroed;
  current_task = 1;
  num_tasks = 3;
}

three-IsTable : IsTable three
three-IsTable = record { current = omega arith; distinct = λ i j hi hj e. omega (arith, e) }

schelude_example :
    (context : ℕ) × (s' : Scheduler) × (schelude 77 three ≡ some (context, s'))
    × IsTurn 77 three s' context
    × IsTable s'
schelude_example = schelude_lem 77 three three-IsTable

schelude_all_example :
    (s' : Scheduler) × (schelude_all 77 (78 ∷ 79 ∷ []) three ≡ some (77, s'))
    × (s'.current_task ≡ 1)
    × IsTable s'
schelude_all_example = schelude_all_lem 77 (78 ∷ 79 ∷ []) three three-IsTable refl

-- Two processes at 500 and 503; the array held junk, which leads to processes.
abbrev two : List (Blocks × List ℕ × ℕ)
two =
    (record { process = 500; context = 501; stack = 502 }, 97 ∷ [], 7)
    ∷ (record { process = 503; context = 504; stack = 505 }, 98 ∷ [], 8)
    ∷ []

init_scheluder_example :
    ((s : Scheduler) × (init_scheluder (leb 100) true two three ≡ some s)
      × ((i : ℕ) → i < 32 → leb 100 (100 + i) ≡ true)
      × IsStarted true two three s)
    ⊎ ((i : ℕ) × (i < 32)
        × (leb 100 (100 + i) ≡ false)
        × (init_scheluder (leb 100) true two three ≡ none))
init_scheluder_example =
    init_scheluder_lem (leb 100) true two three
      (λ e. absurd (omega (arith, e)), (λ e. absurd (omega (arith, e)), tt))
      (((λ e. absurd (omega (arith, e)), λ e. absurd (omega (arith, e))), tt), (tt, tt))

-- The second process enters 8 on its stack at 505.
starts_second :
    Option.map {B = ℕ × ℕ}
      (λ s. ((s.contexts 504).iret_rip, (s.contexts 504).iret_rsp))
      (init_scheluder (leb 100) true two three)
    ≡ some (8, 505)
unfolding init_scheluder dead_loop add_all add_process create_process
starts_second = refl

-- A pointer that is not valid.
faults : init_scheluder (λ a. a == 100) true two three ≡ none
unfolding init_scheluder dead_loop
faults = refl
