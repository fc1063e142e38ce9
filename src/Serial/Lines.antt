-- ===== src/Serial/Lines.antt =====
-- What src/drivers/serial.c sends of a string.
use mathlib.Core.List.{append_assoc, append-nil, map-append}
use mathlib.Core.Path.{subst}
use potatos.Base.{
  ℕ, zero, suc, ◌+◌, ◌≤◌, ◌<◌, ◌≡◌, refl, sym, ap, ◌∙◌, false, true, ◌==◌, arith, some, List, [],
  ◌∷◌, ◌++◌, map, length, Memory,
}
use potatos.Text.Strings.{IsString}
use potatos.Serial.{
  Serial, port_com1, write_serial, write_str_loop, write_str_serial, writeline_loop,
  writeline_serial,
}
use potatos.Serial.Wait.{IsAlive, write_serial_lem}

-- Bytes as they go to the port.
abbrev pub sent : List ℕ → List (ℕ × ℕ)
sent xs = map (λ c. (port_com1, c)) xs

-- The bytes were sent, after all that was sent before, and the device is the same.
pub record HasSent (xs : List ℕ) (s s' : Serial) : Type 0 where
  pub output : s'.ports ≡ s.ports ++ sent xs
  pub device : s'.status ≡ s.status

pub HasSent-nil : (s : Serial) → HasSent [] s s
HasSent-nil s = record { output = sym (append-nil s.ports); device = refl }

pub HasSent-append :
    (xs ys : List ℕ) (s t u : Serial) → HasSent xs s t → HasSent ys t u → HasSent (xs ++ ys) s u
HasSent-append xs ys s t u p q = record {
  output =
      q.output
      ∙ ap (λ o. o ++ sent ys) p.output
      ∙ append_assoc s.ports (sent xs) (sent ys)
      ∙ ap (λ o. s.ports ++ o) (sym (map-append (λ c. (port_com1, c)) xs ys));
  device = q.device ∙ p.device;
}

module _ (patience fuel : ℕ) (enough : patience ≤ fuel) where
  pub write_serial-HasSent :
      (ch : ℕ) (s : Serial)
      → IsAlive patience s.status
      → (s' : Serial) × (write_serial fuel ch s ≡ some s') × HasSent (ch ∷ []) s s'
  write_serial-HasSent ch s alive =
      let (n, runs, at, early) = write_serial_lem patience fuel ch s alive enough in
      (_, runs, record { output = refl; device = refl })

module _ (patience fuel : ℕ) (enough : patience ≤ fuel) (m : Memory) where
  write_str_loop_lem :
      (xs : List ℕ) (rounds i str a : ℕ) (s : Serial)
      → str + i ≡ a
      → IsString m a xs
      → length xs < rounds
      → IsAlive patience s.status
      → (s' : Serial) × (write_str_loop rounds fuel i m str s ≡ some s') × HasSent xs s s'
  unfolding write_str_loop
  write_str_loop_lem xs zero i str a s at h room alive = absurd (omega arith)
  write_str_loop_lem [] (suc rounds) i str a s at h room alive =
      let done : (m (str + i) == 0) ≡ true = ground (arith, ap m at) in
      (
        s,
        rw (write_str_loop, done) refl,
        record { output = sym (append-nil s.ports); device = refl },
      )
  write_str_loop_lem (x ∷ xs) (suc rounds) i str a s at h room alive =
      let here : m (str + i) ≡ x = ap m at ∙ h.0 in
      let more : (x == 0) ≡ false = ground (arith, h.1) in
      let (t, first, one) = write_serial-HasSent patience fuel enough x s alive in
      let (u, rest, others) =
        write_str_loop_lem xs rounds (i + 1) str (a + 1) t (omega arith) h.2 (omega arith)
          (subst (IsAlive patience) (sym one.device) alive) in
      (
        u,
        rw (write_str_loop, here, more, here, first) rest,
        HasSent-append (x ∷ []) xs s t u one others,
      )

  -- `write_str_serial` of a string returns, with more rounds than characters and fuel for as many
  -- reads as the device takes at most to report an empty transmitter, and sends exactly the
  -- characters, in their order.
  pub write_str_serial_lem :
      (xs : List ℕ) (rounds str : ℕ) (s : Serial)
      → IsString m str xs
      → length xs < rounds
      → IsAlive patience s.status
      → (s' : Serial) × (write_str_serial rounds fuel m str s ≡ some s') × HasSent xs s s'
  unfolding write_str_serial
  write_str_serial_lem xs rounds str s h room alive =
      write_str_loop_lem xs rounds 0 str str s (omega arith) h room alive

  writeline_loop_lem :
      (xs : List ℕ) (rounds i str a : ℕ) (s : Serial)
      → str + i ≡ a
      → IsString m a xs
      → length xs < rounds
      → IsAlive patience s.status
      → (s' : Serial) × (writeline_loop rounds fuel i m str s ≡ some s')
        × HasSent (xs ++ 13 ∷ 10 ∷ []) s s'
  unfolding writeline_loop
  writeline_loop_lem xs zero i str a s at h room alive = absurd (omega arith)
  writeline_loop_lem [] (suc rounds) i str a s at h room alive =
      let done : (m (str + i) == 0) ≡ true = ground (arith, ap m at) in
      let (t, first, one) = write_serial-HasSent patience fuel enough 13 s alive in
      let (u, second, two) =
        write_serial-HasSent patience fuel enough 10 t
          (subst (IsAlive patience) (sym one.device) alive) in
      (u, rw (writeline_loop, done, first) second, HasSent-append (13 ∷ []) (10 ∷ []) s t u one two)
  writeline_loop_lem (x ∷ xs) (suc rounds) i str a s at h room alive =
      let here : m (str + i) ≡ x = ap m at ∙ h.0 in
      let more : (x == 0) ≡ false = ground (arith, h.1) in
      let (t, first, one) = write_serial-HasSent patience fuel enough x s alive in
      let (u, rest, others) =
        writeline_loop_lem xs rounds (i + 1) str (a + 1) t (omega arith) h.2 (omega arith)
          (subst (IsAlive patience) (sym one.device) alive) in
      (
        u,
        rw (writeline_loop, here, more, here, first) rest,
        HasSent-append (x ∷ []) (xs ++ 13 ∷ 10 ∷ []) s t u one others,
      )

  -- `writeline_serial` of a string returns, with more rounds than characters and fuel for as many
  -- reads as the device takes at most to report an empty transmitter, and sends exactly the
  -- characters, in their order, and then a carriage return and a line feed.
  pub writeline_serial_lem :
      (xs : List ℕ) (rounds str : ℕ) (s : Serial)
      → IsString m str xs
      → length xs < rounds
      → IsAlive patience s.status
      → (s' : Serial) × (writeline_serial rounds fuel m str s ≡ some s')
        × HasSent (xs ++ 13 ∷ 10 ∷ []) s s'
  unfolding writeline_serial
  writeline_serial_lem xs rounds str s h room alive =
      writeline_loop_lem xs rounds 0 str str s (omega arith) h room alive
