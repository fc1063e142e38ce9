-- ===== src/Serial.antt =====
-- src/drivers/serial.c and src/drivers/ports.c: the serial port. `status` are the bytes that one read
-- of the line's status after another delivers, `reads` how many have been read, `ports` what is written
-- to the i/o ports, in order.
pub mod Wait
pub mod Lines
mod Tests
use mathlib.Core.Option
use potatos.Base.{
  ℕ, zero, suc, ◌+◌, true, false, Option, none, some, List, [], ◌∷◌, ◌++◌, ◌==◌, if◌then◌else◌,
  bit_and, bit_or, Memory,
}

pub record Serial : Type 0 where
  pub status : ℕ → ℕ
  pub reads : ℕ
  pub ports : List (ℕ × ℕ)

abbrev pub port_com1 : ℕ
port_com1 = 0x3f8

abbrev pub transmitter_holding_register_empty : ℕ
transmitter_holding_register_empty = 0x20

abbrev pub outportb : (portnum value : ℕ) → Serial → Serial
outportb portnum value s = record s { ports = s.ports ++ (portnum, value) ∷ [] }

pub init_serial : Serial → Serial
init_serial s =
    let disabled = outportb (port_com1 + 1) 0x00 s in
    let latched = outportb (port_com1 + 3) 0x80 disabled in
    let low = outportb (port_com1 + 0) 0x03 latched in
    let high = outportb (port_com1 + 1) 0x00 low in
    let framed = outportb (port_com1 + 3) (bit_or (bit_or 3 0) 0) high in
    let queued = outportb (port_com1 + 2) (bit_or (bit_or (bit_or 1 0xc0) 2) 4) framed in
    outportb (port_com1 + 4) (bit_or (bit_or 8 2) 1) queued

-- The value and the state after the read of the port.
abbrev pub is_transmit_empty : Serial → ℕ × Serial
is_transmit_empty s = (
  bit_and (s.status s.reads) transmitter_holding_register_empty,
  record s { reads = s.reads + 1 },
)

-- The loop of `write_serial`; `none` if the fuel runs out.
pub wait_loop : (fuel : ℕ) → Serial → Option Serial
wait_loop zero s = none
wait_loop (suc fuel) s =
    let (empty, s') = is_transmit_empty s in
    let rest = wait_loop fuel s' in if empty == 0 then rest else some s'

pub write_serial : (fuel ch : ℕ) → Serial → Option Serial
write_serial fuel ch s = Option.map (outportb port_com1 ch) (wait_loop fuel s)

-- The loop of `write_str_serial` at index `i`, with fuel for its rounds and for each wait.
pub write_str_loop : (rounds fuel i : ℕ) → Memory → (str : ℕ) → Serial → Option Serial
write_str_loop zero fuel i m str s = none
write_str_loop (suc rounds) fuel i m str s = elim (m (str + i) == 0) [
  | true ↦ some s
  | false ↦ elim (write_serial fuel (m (str + i)) s) [
    | none ↦ none
    | some s' ↦ write_str_loop rounds fuel (i + 1) m str s'
  ]
]

pub write_str_serial : (rounds fuel : ℕ) → Memory → (str : ℕ) → Serial → Option Serial
write_str_serial rounds fuel m str s = write_str_loop rounds fuel 0 m str s

-- The loop of `writeline_serial` at index `i`.
pub writeline_loop : (rounds fuel i : ℕ) → Memory → (str : ℕ) → Serial → Option Serial
writeline_loop zero fuel i m str s = none
writeline_loop (suc rounds) fuel i m str s = elim (m (str + i) == 0) [
  | true ↦ elim (write_serial fuel 13 s) [ none ↦ none | some s' ↦ write_serial fuel 10 s' ]
  | false ↦ elim (write_serial fuel (m (str + i)) s) [
    | none ↦ none
    | some s' ↦ writeline_loop rounds fuel (i + 1) m str s'
  ]
]

pub writeline_serial : (rounds fuel : ℕ) → Memory → (str : ℕ) → Serial → Option Serial
writeline_serial rounds fuel m str s = writeline_loop rounds fuel 0 m str s
