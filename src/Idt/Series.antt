-- ===== src/Idt/Series.antt =====
-- One interrupt after another, through `interrupt_dispatch` of src/arch/x86_64/idt/idt.c.
use mathlib.Core.Path.{subst}
use mathlib.Core.List.{append_assoc, append-nil}
use native.Mathlib.Nat.{mod-add-mod, mod-eq_of_lt}
use potatos.Base.{
  ℕ, ◌+◌, ◌%◌, ◌≤◌, ◌<◌, ◌≡◌, refl, ap, sym, ◌∙◌, true, false, Bool, Bool-cases, some, ◌++◌, inl,
  inr, ◌==◌, if◌then◌else◌, arith, List, [], ◌∷◌, u8, All,
}
use potatos.Idt.{Machine, Interrupt, save, interrupt_dispatch, returned, serve_all}
use potatos.Keyboard.{Keyboard, keyboard_driver_irq_handler, handle_all}
use potatos.Scheduler.Turns.{IsTable, next_slot_lem}
use potatos.Idt.Dispatch.{acknowledged, IsServed, interrupt_dispatch_lem}

abbrev pub vector_of : Interrupt → ℕ
vector_of i = u8 i.registers.vector_number

-- The scancodes of the keyboard's interrupts.
abbrev pub scancodes : List Interrupt → List ℕ
scancodes [] = []
scancodes (i ∷ is) =
    let rest = scancodes is in if vector_of i == 0x21 then i.scancode ∷ rest else rest

-- How many interrupts are the timer's.
abbrev pub ticks : List Interrupt → ℕ
ticks [] = 0
ticks (i ∷ is) = let rest = ticks is in if vector_of i == 0x20 then 1 + rest else rest

-- The ends of all interrupts.
abbrev pub all_ends : List Interrupt → List (ℕ × ℕ)
all_ends [] = []
all_ends (i ∷ is) = acknowledged (vector_of i) ++ all_ends is

-- What a series of interrupts leaves.
pub record IsSeries (is : List Interrupt) (s s' : Machine) : Type 0 where
  pub typed : s'.keyboard ≡ handle_all (scancodes is) s.keyboard
  pub ended : s'.ports ≡ s.ports ++ all_ends is
  pub tasks : s'.scheduler.num_tasks ≡ s.scheduler.num_tasks
  pub current :
      s'.scheduler.current_task ≡ (s.scheduler.current_task + ticks is) % s.scheduler.num_tasks
  pub table : IsTable s'.scheduler

saved_registers :
    (i : Interrupt) (s : Machine) → (save i s).scheduler.contexts i.context ≡ i.registers
saved_registers i s = let e : (i.context == i.context) ≡ true = ground arith in rw e refl

serve_all_step :
    (i : Interrupt) (is : List Interrupt) (s : Machine) {next : ℕ} {s' : Machine}
    → interrupt_dispatch i.scancode i.context (save i s) ≡ returned next s'
    → serve_all (i ∷ is) s ≡ serve_all is s'
unfolding serve_all
serve_all_step i is s e = rw (serve_all, e) refl

typed_cons :
    (is_key : Bool) (code : ℕ) (codes : List ℕ) (k : Keyboard) {k' k'' : Keyboard}
    → k' ≡ (if is_key then keyboard_driver_irq_handler code k else k)
    → k'' ≡ handle_all codes k'
    → k'' ≡ handle_all (if is_key then code ∷ codes else codes) k
unfolding handle_all
typed_cons true code codes k first rest = rest ∙ ap (handle_all codes) first
typed_cons false code codes k first rest = rest ∙ ap (handle_all codes) first

turn_cons : (c n k : ℕ) {c' n' : ℕ} → c' ≡ (c + 1) % n → n' ≡ n → (c' + k) % n' ≡ (c + (1 + k)) % n
turn_cons c n k first same =
    let sum : c + 1 + k ≡ c + (1 + k) = omega arith in
    rw (first, same) (mod-add-mod (c + 1) n k ∙ ap (λ x. x % n) sum)

-- The tasks after a first interrupt.
tasks_cons :
    (i : Interrupt) (s : Machine) {next : ℕ} {s' : Machine}
    → IsTable s.scheduler
    → IsServed (vector_of i) i.scancode i.context (save i s) next s'
    → (k : ℕ)
    → (s'.scheduler.num_tasks ≡ s.scheduler.num_tasks)
      × ((s'.scheduler.current_task + k) % s'.scheduler.num_tasks
          ≡ (s.scheduler.current_task + (if vector_of i == 0x20 then 1 + k else k))
            % s.scheduler.num_tasks)
tasks_cons i s {next} {s'} t one k = elim (Bool-cases (vector_of i == 0x20)) [
  | inl timer ↦
      let turn = one.switched (ground arith) in
      let moved : s'.scheduler.current_task
          ≡ (s.scheduler.current_task + 1) % s.scheduler.num_tasks =
        turn.slot ∙ sym (next_slot_lem s.scheduler t.current) in
      rw timer
        (turn.tasks, turn_cons s.scheduler.current_task s.scheduler.num_tasks k moved turn.tasks)
  | inr other ↦
      let same : s'.scheduler ≡ (save i s).scheduler = (one.resumed (ground arith)).1 in
      rw (other, same) (refl, refl)
]

-- A first interrupt and a series.
IsSeries-cons :
    (i : Interrupt) (is : List Interrupt) (s : Machine) {next : ℕ} {s' s'' : Machine}
    → IsTable s.scheduler
    → IsServed (vector_of i) i.scancode i.context (save i s) next s'
    → IsSeries is s' s''
    → IsSeries (i ∷ is) s s''
IsSeries-cons i is s {next} {s'} {s''} t one more = record {
  typed =
      typed_cons (vector_of i == 0x21) i.scancode (scancodes is) s.keyboard one.typed more.typed;
  ended =
      more.ended
      ∙ ap (λ x. x ++ all_ends is) one.ends
      ∙ append_assoc s.ports (acknowledged (vector_of i)) (all_ends is);
  tasks = more.tasks ∙ (tasks_cons i s t one (ticks is)).0;
  current = more.current ∙ (tasks_cons i s t one (ticks is)).1;
  table = more.table;
}

stays : (c n : ℕ) → c < n → (c + 0) % n ≡ c
stays c n h = let e : c + 0 ≡ c = omega arith in rw e (mod-eq_of_lt h)

-- A series of interrupts other than exceptions, on a table of tasks: every one returns; the keyboard is
-- as after the scancodes of the keyboard's interrupts alone, the current task has moved on by the
-- timer's interrupts alone, round robin, and every interrupt is ended, in order.
pub serve_all_lem :
    (is : List Interrupt) (s : Machine)
    → IsTable s.scheduler
    → All (λ i. 32 ≤ vector_of i) is
    → (s' : Machine) × (serve_all is s ≡ some s') × IsSeries is s s'
unfolding serve_all handle_all
serve_all_lem [] s t hardware = (
  s,
  refl,
  record {
    typed = refl;
    ended = sym (append-nil s.ports);
    tasks = refl;
    current = sym (stays s.scheduler.current_task s.scheduler.num_tasks t.current);
    table = t;
  },
)
serve_all_lem (i ∷ is) s t (h, hs) =
    let saved : IsTable (save i s).scheduler = record {
      current = t.current;
      distinct = t.distinct;
    } in
    let registers = saved_registers i s in
    let (next, s', called, one) =
      (interrupt_dispatch_lem i.scancode i.context (save i s) saved).1 (rw registers h) in
    let (s'', run, more) = serve_all_lem is s' one.table hs in
    (
      s'',
      serve_all_step i is s called ∙ run,
      IsSeries-cons i is s t
          (subst (λ r. IsServed (u8 r.vector_number) i.scancode i.context (save i s) next s')
            registers one)
          more,
    )
