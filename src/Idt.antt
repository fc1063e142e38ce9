-- ===== src/Idt.antt =====
-- src/arch/x86_64/idt/idt.c: interrupts. `idt` is the table by vector and `ports` what is written to the
-- i/o ports, in order; the addresses of the assembly routines are given by `routine`. Assembly and what
-- is printed, but for the text that explains a page fault, are left out.
pub mod Gates
pub mod Dispatch
pub mod Faults
pub mod Series
mod Tests
use potatos.Base.{
  ℕ, zero, suc, ◌+◌, ◌*◌, ◌/◌, ◌^◌, Bool, true, false, Option, none, some, List, [], ◌∷◌, ◌++◌,
  ◌==◌, if◌then◌else◌, ltb, leb, bit_and, bit_or, u8, u16, u32,
}
use potatos.Keyboard.{Keyboard, keyboard_driver_irq_handler}
use potatos.Scheduler.{CpuStatus, Scheduler, schelude, update}

pub record Gate : Type 0 where
  pub address_low : ℕ
  pub selector : ℕ
  pub ist : ℕ
  pub flags : ℕ
  pub address_mid : ℕ
  pub address_high : ℕ
  pub reserved : ℕ

abbrev pub idt_size : ℕ
idt_size = 256

abbrev pub code_selector : ℕ
code_selector = 0x08

abbrev pub interrupt_gate : ℕ
interrupt_gate = 14

abbrev pub present_bit : ℕ
present_bit = 2 ^ 7

abbrev pub dpl_bits : ℕ → ℕ
dpl_bits dpl = bit_and dpl 3 * 2 ^ 5

-- What `set_idt_entry` makes of an entry.
abbrev pub entry : (handler dpl : ℕ) → Gate → Gate
entry handler dpl g = record g {
  address_low = u16 (bit_and handler 0xffff);
  address_mid = u16 (bit_and (handler / 2 ^ 16) 0xffff);
  address_high = u32 (handler / 2 ^ 32);
  selector = code_selector;
  flags = u8 (bit_or (bit_or present_bit (dpl_bits dpl)) interrupt_gate);
  ist = 0;
}

pub set_idt_entry : (vector handler dpl : ℕ) → (ℕ → Gate) → ℕ → Gate
set_idt_entry vector handler dpl idt v =
    if vector == v then entry handler dpl (idt vector) else idt v

abbrev pub empty_gate : Gate
empty_gate = record {
  address_low = 0;
  selector = 0;
  ist = 0;
  flags = 0;
  address_mid = 0;
  address_high = 0;
  reserved = 0;
}

-- The loop of `init_idt` at index `i`, with `left` rounds to go.
pub clear_entries : (left i : ℕ) → (ℕ → Gate) → ℕ → Gate
clear_entries zero i idt = idt
clear_entries (suc left) i idt =
    clear_entries left (i + 1) (λ v. if i == v then empty_gate else idt v)

-- The vectors of the calls of `set_idt_entry`, in their order.
abbrev pub vectors : List ℕ
vectors =
    0x00 ∷ 0x01 ∷ 0x02 ∷ 0x03 ∷ 0x04 ∷ 0x05 ∷ 0x06 ∷ 0x07 ∷ 0x08 ∷ 0x09 ∷ 0x0a ∷ 0x0b ∷ 0x0c ∷ 0x0d
    ∷ 0x0e ∷ 0x0f ∷ 0x10 ∷ 0x11 ∷ 0x12 ∷ 0x20 ∷ 0x21 ∷ 0x22 ∷ []

pub set_entries : (routine : ℕ → ℕ) → List ℕ → (ℕ → Gate) → ℕ → Gate
set_entries routine [] idt = idt
set_entries routine (v ∷ vs) idt = set_entries routine vs (set_idt_entry v (routine v) 0 idt)

-- The table and the writes to the interrupt controllers' ports.
pub init_idt : (routine : ℕ → ℕ) → (ℕ → Gate) → (ℕ → Gate) × List (ℕ × ℕ)
init_idt routine idt = (
  set_entries routine vectors (clear_entries idt_size 0 idt),
  (0x20, 0x11)
      ∷ (0xa0, 0x11)
      ∷ (0x21, 0x20)
      ∷ (0xa1, 0x28)
      ∷ (0x21, 0x04)
      ∷ (0xa1, 0x02)
      ∷ (0x21, 0x01)
      ∷ (0xa1, 0x01)
      ∷ (0x21, 0x00)
      ∷ (0xa1, 0x00)
      ∷ [],
)

-- "… process tried to … a … page": user or supervisory process, to write or to read, and a protection
-- fault or a page that is not present.
pub record FaultText : Type 0 where
  pub user : Bool
  pub write : Bool
  pub protection : Bool

abbrev pub err_p : ℕ
err_p = 1

abbrev pub err_rw : ℕ
err_rw = 2

abbrev pub err_us : ℕ
err_us = 4

-- The inner `switch`.
pub page_fault_text : (error_code : ℕ) → Option FaultText
page_fault_text error_code =
    if error_code == 0
    then some (record { user = false; write = false; protection = false })
    else if error_code == err_p
    then some (record { user = false; write = false; protection = true })
    else if error_code == err_rw
    then some (record { user = false; write = true; protection = false })
    else if error_code == bit_or err_rw err_p
    then some (record { user = false; write = true; protection = true })
    else if error_code == err_us
    then some (record { user = true; write = false; protection = false })
    else if error_code == bit_or err_us err_p
    then some (record { user = true; write = false; protection = true })
    else if error_code == bit_or err_us err_rw
    then some (record { user = true; write = true; protection = false })
    else if error_code == bit_or (bit_or err_us err_rw) err_p
    then some (record { user = true; write = true; protection = true })
    else none

-- What the exceptions print before the machine halts.
pub data Report : Type 0 where
  double_fault : Report
  general_protection_fault : Report
  page_fault : Option FaultText → Report
  unhandled : (interrupt_number : ℕ) → Report

pub record Machine : Type 0 where
  pub keyboard : Keyboard
  pub scheduler : Scheduler
  pub ports : List (ℕ × ℕ)

-- `trapped` is the division by zero of `schelude`.
pub data Outcome : Type 0 where
  halted : Report → Outcome
  trapped : Outcome
  returned : (context : ℕ) → Machine → Outcome

abbrev pub outportb : (portnum value : ℕ) → Machine → Machine
outportb portnum value s = record s { ports = s.ports ++ (portnum, value) ∷ [] }

-- The outer `switch`.
abbrev pub report : (interrupt_number error_code : ℕ) → Report
report interrupt_number error_code =
    if interrupt_number == 8
    then double_fault
    else if interrupt_number == 13
    then general_protection_fault
    else if interrupt_number == 14
    then page_fault (page_fault_text error_code)
    else unhandled interrupt_number

-- `if (interrupt_number == TIMER_INTERRUPT)` and the end of the interrupt.
pub finish : (interrupt_number context : ℕ) → Machine → Outcome
finish interrupt_number context s =
    if interrupt_number == 0x20
    then (elim (schelude context s.scheduler) [
      | none ↦ trapped
      | some (next, scheduler) ↦
          returned next (outportb 0x20 0x20 (record s { scheduler = scheduler }))
    ])
    else returned context (outportb 0x20 0x20 s)

-- The keyboard's interrupt and the end of an interrupt that came through the slave.
abbrev pub begin : (interrupt_number scancode : ℕ) → Machine → Machine
begin interrupt_number scancode s =
    let typed =
      if interrupt_number == 0x21
      then record s { keyboard = keyboard_driver_irq_handler scancode s.keyboard }
      else s in
    if leb (0x20 + 8) interrupt_number then outportb 0xa0 0x20 typed else typed

-- `scancode` is what the keyboard's port delivers.
pub interrupt_dispatch : (scancode context : ℕ) → Machine → Outcome
interrupt_dispatch scancode context s =
    let cpu = s.scheduler.contexts context in
    let interrupt_number = u8 cpu.vector_number in
    if ltb interrupt_number 0x20
    then halted (report interrupt_number cpu.error_code)
    else finish interrupt_number context (begin interrupt_number scancode s)

-- An interrupt: the registers that the stub saves on the stack, and where.
pub record Interrupt : Type 0 where
  pub scancode : ℕ
  pub context : ℕ
  pub registers : CpuStatus

abbrev pub save : Interrupt → Machine → Machine
save i s = record s {
  scheduler = record s.scheduler { contexts = update s.scheduler.contexts i.context i.registers };
}

-- One interrupt after another; `none` if one of them does not return.
pub serve_all : List Interrupt → Machine → Option Machine
serve_all [] s = some s
serve_all (i ∷ rest) s = elim (interrupt_dispatch i.scancode i.context (save i s)) [
  | halted r ↦ none
  | trapped ↦ none
  | returned next s' ↦ serve_all rest s'
]
