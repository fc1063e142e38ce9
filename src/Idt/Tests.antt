-- ===== src/Idt/Tests.antt =====
-- Tests of the interrupt table and of `interrupt_dispatch`.
use potatos.Base.{
  ◌<◌, ◌≤◌, ◌≡◌, ◌*◌, ◌+◌, ◌<◌, ◌≤◌, ℕ, ◌≡◌, ◌==◌, if◌then◌else◌, arith, some, true, false, [], ◌∷◌,
  List,
}
use potatos.Idt.{
  empty_gate, init_idt, Machine, Interrupt, interrupt_dispatch, serve_all, halted, report, returned,
}
use potatos.Idt.Gates.{IsGate, is_present, handled, init_idt_lem}
use potatos.Idt.Dispatch.{IsServed, interrupt_dispatch_lem}
use potatos.Idt.Series.{IsSeries, serve_all_lem}
use potatos.Scheduler.{ready, CpuStatus}
use potatos.Scheduler.Turns.{IsTable}

-- The registers at an interrupt.
abbrev registers : (vector error : ℕ) → CpuStatus
registers vector error = record {
  r15 = 0;
  r14 = 0;
  r13 = 0;
  r12 = 0;
  r11 = 0;
  r10 = 0;
  r9 = 0;
  r8 = 0;
  rdi = 0;
  rsi = 0;
  rbp = 0;
  rdx = 0;
  rcx = 0;
  rbx = 0;
  rax = 0;
  vector_number = vector;
  error_code = error;
  iret_rip = 0;
  iret_cs = 0;
  iret_rflags = 0;
  iret_rsp = 0;
  iret_ss = 0;
}

-- Two tasks; the context at 7 is one of the timer.
abbrev machine : Machine
machine = record {
  keyboard = record {
    keyboard_buffer = λ i. record { keycode = 0; status_mask = 0 };
    buf_position = 0;
    current_state = 0;
    current_modifiers = 0;
    printed = [];
  };
  scheduler = record {
    snapshots = λ i. 100 + i;
    processes = λ a. record { process_status = ready; name = []; context = a * 10 };
    contexts = λ a. registers (if a == 7 then 0x20 else 14) 2;
    current_task = 1;
    num_tasks = 2;
  };
  ports = [];
}

machine-IsTable : IsTable machine.scheduler
machine-IsTable = record { current = omega arith; distinct = λ i j hi hj e. omega (arith, e) }

init_idt_lem_example :
    (handled 0x21 ≡ true → IsGate 0x121 0 ((init_idt (λ v. 0x100 + v) (λ v. empty_gate)).0 0x21))
    × (handled 0x21 ≡ false
        → is_present ((init_idt (λ v. 0x100 + v) (λ v. empty_gate)).0 0x21) ≡ false)
init_idt_lem_example =
    init_idt_lem (λ v. 0x100 + v) (λ v. empty_gate) 0x21 (omega arith) (omega arith)

interrupt_dispatch_lem_example :
    (0x20 < 32 → interrupt_dispatch 30 7 machine ≡ halted (report 0x20 2))
    × (32 ≤ 0x20
        → (next : ℕ) × (s' : Machine) × (interrupt_dispatch 30 7 machine ≡ returned next s')
          × IsServed 0x20 30 7 machine next s')
interrupt_dispatch_lem_example = interrupt_dispatch_lem 30 7 machine machine-IsTable

-- A key, the timer and an interrupt through the slave.
abbrev series : List Interrupt
series =
    record { scancode = 30; context = 8; registers = registers 0x21 0 }
    ∷ record { scancode = 0; context = 9; registers = registers 0x20 0 }
    ∷ record { scancode = 0; context = 10; registers = registers 0x2e 0 }
    ∷ []

serve_all_lem_example :
    (s' : Machine) × (serve_all series machine ≡ some s') × IsSeries series machine s'
serve_all_lem_example =
    serve_all_lem series machine machine-IsTable (omega arith, (omega arith, (omega arith, tt)))
