-- ===== src/Serial/Tests.antt =====
-- src/drivers/serial.c with a line whose transmitter is empty at every second read.
use potatos.Base.{
  ℕ, ◌%◌, ◌+◌, ◌<◌, ◌≡◌, refl, inl, inr, false, ◌==◌, if◌then◌else◌, arith, some, [], ◌∷◌, ◌++◌,
  Bool-cases,
}
use potatos.Serial.{Serial, port_com1, write_serial, init_serial}
use potatos.Serial.Wait.{IsReady, IsAlive, write_serial_lem}

abbrev line : Serial
line = record { status = λ read. if read % 2 == 0 then 0 else 0x60; reads = 0; ports = [] }

line-IsAlive : IsAlive 2 line.status
line-IsAlive read = elim (Bool-cases (read % 2 == 0)) [
  | inl busy ↦
      let next : (((read + 1) % 2) == 0) ≡ false = ground arith in
      (1, omega arith, rw next (ground arith))
  | inr ready ↦
      let here : read + 0 ≡ read = omega arith in (0, omega arith, rw (here, ready) (ground arith))
]

-- Interrupts off, the divisor 3 behind the latch, 8 bits without parity, the queues and the handshake.
init_serial_ports :
    (init_serial line).ports
    ≡ (1017, 0) ∷ (1019, 128) ∷ (1016, 3) ∷ (1017, 0) ∷ (1019, 3) ∷ (1018, 199) ∷ (1020, 11) ∷ []
unfolding init_serial
init_serial_ports = refl

write_serial_lem_example :
    (n : ℕ) × (write_serial 2 65 line
      ≡ some (record line { reads = 0 + n + 1; ports = [] ++ (port_com1, 65) ∷ [] }))
    × IsReady line (0 + n)
    × (n < 2)
write_serial_lem_example = write_serial_lem 2 2 65 line line-IsAlive (omega arith)
