-- ===== src/Scheduler.antt =====
-- src/scheluding/scheluder.c: the scheduler. `snapshots` is the array of pointers, `processes` and
-- `contexts` are the structures by their addresses. What kmalloc returns is given as arguments;
-- assembly and what is printed are left out.
pub mod Turns
pub mod Marks
pub mod Made
pub mod Start
mod Tests
use potatos.Base.{
  ℕ, zero, suc, ◌+◌, ◌%◌, Bool, true, false, Option, none, some, List, [], ◌∷◌, ◌==◌, if◌then◌else◌,
}

-- `status_t`
pub data Status : Type 0 where
  ready : Status
  running : Status
  dead : Status

-- `context` is the address of a `cpu_status`; `name` are the characters in front of the final zero.
pub record Process : Type 0 where
  pub process_status : Status
  pub name : List ℕ
  pub context : ℕ

pub record CpuStatus : Type 0 where
  pub r15 : ℕ
  pub r14 : ℕ
  pub r13 : ℕ
  pub r12 : ℕ
  pub r11 : ℕ
  pub r10 : ℕ
  pub r9 : ℕ
  pub r8 : ℕ
  pub rdi : ℕ
  pub rsi : ℕ
  pub rbp : ℕ
  pub rdx : ℕ
  pub rcx : ℕ
  pub rbx : ℕ
  pub rax : ℕ
  pub vector_number : ℕ
  pub error_code : ℕ
  pub iret_rip : ℕ
  pub iret_cs : ℕ
  pub iret_rflags : ℕ
  pub iret_rsp : ℕ
  pub iret_ss : ℕ

pub record Scheduler : Type 0 where
  pub snapshots : ℕ → ℕ
  pub processes : ℕ → Process
  pub contexts : ℕ → CpuStatus
  pub current_task : ℕ
  pub num_tasks : ℕ

abbrev pub process_max : ℕ
process_max = 32

abbrev pub update {ℓ} : {A : Type ℓ} → (ℕ → A) → ℕ → A → ℕ → A
update f a v b = if a == b then v else f b

-- The addresses that the three calls of kmalloc return.
pub record Blocks : Type 0 where
  pub process : ℕ
  pub context : ℕ
  pub stack : ℕ

-- `none` is the endless loop without a stack.
pub create_process :
    Blocks → (name : List ℕ) (entry_point arg : ℕ) → Scheduler → Option (ℕ × Scheduler)
create_process b name entry_point arg s =
    let cpu = record (s.contexts b.context) {
      vector_number = 0;
      error_code = 0;
      iret_rip = entry_point;
      rdi = arg;
      iret_cs = 0x8;
      iret_ss = 0x10;
      iret_rflags = 0x202;
      iret_rsp = b.stack;
      rbp = 0;
    } in
    let process = record (s.processes b.process) { context = b.context; name = name } in
    if b.stack == 0
    then none
    else some (
      b.process,
      record s {
        processes = update s.processes b.process process;
        contexts = update s.contexts b.context cpu;
        num_tasks = s.num_tasks + 1;
      },
    )

-- `snapshots[numTasks] = create_process(…)`. C leaves open whether the index is read before the call
-- or after it, which counts `numTasks` up: `late` says which.
pub add_process :
    (late : Bool) → Blocks → (name : List ℕ) (entry_point : ℕ) → Scheduler → Option Scheduler
add_process late b name entry_point s = elim (create_process b name entry_point 0 s) [
  | none ↦ none
  | some (process, s') ↦
      let slot = if late then s'.num_tasks else s.num_tasks in
      some (record s' { snapshots = update s'.snapshots slot process })
]

-- The loop of `init_scheluder` at slot `i`, with `left` rounds to go. It writes through the pointers that
-- the new array holds, which nothing has set: `valid` says which of them lead to a structure of their
-- own, and `none` is the fault, or the write over other data, of one that does not.
pub dead_loop : (valid : ℕ → Bool) (left i : ℕ) → Scheduler → Option Scheduler
dead_loop valid zero i s = some s
dead_loop valid (suc left) i s =
    let dead_process = record (s.processes (s.snapshots i)) {
      process_status = dead;
      name = 58 ∷ 40 ∷ [];
      context = 0;
    } in
    let rest =
      dead_loop valid left (i + 1)
        (record s { processes = update s.processes (s.snapshots i) dead_process }) in
    if valid (s.snapshots i) then rest else none

-- One process after another, each with its name, entry point and blocks.
pub add_all : (late : Bool) → List (Blocks × List ℕ × ℕ) → Scheduler → Option Scheduler
add_all late [] s = some s
add_all late ((b, name, entry_point) ∷ rest) s = elim (add_process late b name entry_point s) [
  | none ↦ none
  | some s' ↦ add_all late rest s'
]

-- `init_scheluder`; `start` are the variables with the new array `snapshots`, whose pointers are what
-- the block held before, and `four` are the processes idle, A, B and C.
pub init_scheluder :
    (valid : ℕ → Bool) (late : Bool)
    → List (Blocks × List ℕ × ℕ)
    → (start : Scheduler) → Option Scheduler
init_scheluder valid late four start = elim (dead_loop valid process_max 0 start) [
  | none ↦ none
  | some t ↦ elim (add_all late four (record t { num_tasks = 0 })) [
    | none ↦ none
    | some s ↦ some (record s { current_task = 0 })
  ]
]

-- `none` is the division by zero without a task.
pub schelude : (cur_status : ℕ) → Scheduler → Option (ℕ × Scheduler)
schelude cur_status s =
    let current = s.snapshots s.current_task in
    let saved =
      update s.processes current
        (record (s.processes current) { context = cur_status; process_status = ready }) in
    let next_task = (s.current_task + 1) % s.num_tasks in
    let next = s.snapshots next_task in
    let started = update saved next (record (saved next) { process_status = running }) in
    if s.num_tasks == 0
    then none
    else some ((started next).context, record s { processes = started; current_task = next_task })

-- One timer interrupt after another, each with the context that it interrupts; the last context that
-- is returned.
pub schelude_all : (cur_status : ℕ) → List ℕ → Scheduler → Option (ℕ × Scheduler)
schelude_all cur_status [] s = schelude cur_status s
schelude_all cur_status (c ∷ cs) s = elim (schelude cur_status s) [
  | none ↦ none
  | some (context, s') ↦ schelude_all c cs s'
]
