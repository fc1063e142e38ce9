-- ===== src/Hexdump/Lines.antt =====
-- The 35 calls of `printf` for a line of a dump of src/utils/hexdump.c, column by column.
use potatos.Base.{
  ℕ, zero, suc, ◌+◌, ◌≤◌, ◌<◌, ◌≡◌, ◌⊎◌, refl, ◌∙◌, ap, arith, some, List, [], ◌∷◌, ◌++◌, length,
  get_elem?, length-append, Memory,
}
use potatos.Print.Pieces.{literal, hex, pointer, char}
use potatos.Hexdump.{Call, byte_call, char_call, bytes_loop, chars_loop, line_calls}

-- The line of the 16 bytes at `ptr`: call 0 puts the address, calls 1 to 16 the bytes in two digits, or
-- blanks from `end` on, call 17 a bar, calls 18 to 33 the characters, with a dot for one that cannot be
-- printed and a blank from `end` on, and call 34 the end of the line.
pub record IsLine (ptr end : ℕ) (m : Memory) (calls : List Call) : Type 0 where
  pub columns : length calls ≡ 35
  pub address : get_elem? calls 0 ≡ some (pointer ptr ∷ literal b':' ∷ literal b' ' ∷ [])
  pub byte :
      (k : ℕ)
      → k < 16
      → ptr + k < end
      → 10 ≤ m (ptr + k)
      → get_elem? calls (1 + k) ≡ some (hex (m (ptr + k)) ∷ literal b' ' ∷ [])
  pub small_byte :
      (k : ℕ)
      → k < 16
      → ptr + k < end
      → m (ptr + k) < 10
      → get_elem? calls (1 + k) ≡ some (literal b'0' ∷ hex (m (ptr + k)) ∷ literal b' ' ∷ [])
  pub no_byte :
      (k : ℕ)
      → k < 16
      → end ≤ ptr + k
      → get_elem? calls (1 + k) ≡ some (literal b' ' ∷ literal b' ' ∷ literal b' ' ∷ [])
  pub bar : get_elem? calls 17 ≡ some (literal b' ' ∷ literal b'|' ∷ literal b' ' ∷ [])
  pub printable :
      (k : ℕ)
      → k < 16
      → ptr + k < end
      → 32 ≤ m (ptr + k)
      → m (ptr + k) < 127
      → get_elem? calls (18 + k) ≡ some (char (m (ptr + k)) ∷ [])
  pub dot :
      (k : ℕ)
      → k < 16
      → ptr + k < end
      → (m (ptr + k) < 32) ⊎ (127 ≤ m (ptr + k))
      → get_elem? calls (18 + k) ≡ some (char b'.' ∷ [])
  pub no_char :
      (k : ℕ) → k < 16 → end ≤ ptr + k → get_elem? calls (18 + k) ≡ some (literal b' ' ∷ [])
  pub newline : get_elem? calls 34 ≡ some (literal 10 ∷ [])

-- An element of a list behind another, and of one in front of another.
get_elem-behind :
    (xs ys : List Call) (n k : ℕ) → length xs ≡ n → get_elem? (xs ++ ys) (n + k) ≡ get_elem? ys k
get_elem-behind [] ys n k size =
    let here : n + k ≡ k = omega (arith, size) in ap (get_elem? ys) here
get_elem-behind (x ∷ xs) ys n k size =
    let next : n + k ≡ suc (length xs + k) = omega (arith, size) in
    ap (get_elem? (x ∷ xs ++ ys)) next ∙ get_elem-behind xs ys (length xs) k refl

get_elem-front :
    (xs ys : List Call) (k : ℕ) (c : Call)
    → get_elem? xs k ≡ some c
    → get_elem? (xs ++ ys) k ≡ some c
get_elem-front [] ys k c e = absurd (ground (arith, e))
get_elem-front (x ∷ xs) ys zero c e = e
get_elem-front (x ∷ xs) ys (suc k) c e = get_elem-front xs ys k c e

module _ (ptr end : ℕ) (m : Memory) where
  bytes_loop_lem :
      (left i k a : ℕ)
      → k < left
      → i + k ≡ a
      → get_elem? (bytes_loop left i ptr end m) k ≡ some (byte_call a ptr end m)
  unfolding bytes_loop
  bytes_loop_lem zero i k a inside at = absurd (omega arith)
  bytes_loop_lem (suc left) i zero a inside at =
      ap (λ (j : ℕ). some (byte_call j ptr end m)) (omega arith)
  bytes_loop_lem (suc left) i (suc k) a inside at =
      bytes_loop_lem left (i + 1) k a (omega arith) (omega arith)

  chars_loop_lem :
      (left i k a : ℕ)
      → k < left
      → i + k ≡ a
      → get_elem? (chars_loop left i ptr end m) k ≡ some (char_call a ptr end m)
  unfolding chars_loop
  chars_loop_lem zero i k a inside at = absurd (omega arith)
  chars_loop_lem (suc left) i zero a inside at =
      ap (λ (j : ℕ). some (char_call j ptr end m)) (omega arith)
  chars_loop_lem (suc left) i (suc k) a inside at =
      chars_loop_lem left (i + 1) k a (omega arith) (omega arith)

  length-bytes_loop : (left i : ℕ) → length (bytes_loop left i ptr end m) ≡ left
  unfolding bytes_loop
  length-bytes_loop zero i = refl
  length-bytes_loop (suc left) i = ap suc (length-bytes_loop left (i + 1))

  length-chars_loop : (left i : ℕ) → length (chars_loop left i ptr end m) ≡ left
  unfolding chars_loop
  length-chars_loop zero i = refl
  length-chars_loop (suc left) i = ap suc (length-chars_loop left (i + 1))

  abbrev line_end : List Call
  line_end = chars_loop 16 0 ptr end m ++ (literal 10 ∷ []) ∷ []

  abbrev behind_bytes : List Call
  behind_bytes = (literal b' ' ∷ literal b'|' ∷ literal b' ' ∷ []) ∷ line_end

  line_calls-byte :
      (k : ℕ) → k < 16 → get_elem? (line_calls ptr end m) (1 + k) ≡ some (byte_call k ptr end m)
  unfolding line_calls
  line_calls-byte k inside =
      let next : 1 + k ≡ suc k = omega arith in
      ap (get_elem? (line_calls ptr end m)) next
      ∙ get_elem-front (bytes_loop 16 0 ptr end m) behind_bytes k _
          (bytes_loop_lem 16 0 k k inside (omega arith))

  -- The columns behind the bytes.
  line_calls-behind : (k : ℕ) → get_elem? (line_calls ptr end m) (17 + k) ≡ get_elem? behind_bytes k
  unfolding line_calls
  line_calls-behind k =
      let next : 17 + k ≡ suc (16 + k) = omega arith in
      ap (get_elem? (line_calls ptr end m)) next
      ∙ get_elem-behind (bytes_loop 16 0 ptr end m) behind_bytes 16 k (length-bytes_loop 16 0)

  line_calls-char :
      (k : ℕ) → k < 16 → get_elem? (line_calls ptr end m) (18 + k) ≡ some (char_call k ptr end m)
  line_calls-char k inside =
      let next : 18 + k ≡ 17 + suc k = omega arith in
      ap (get_elem? (line_calls ptr end m)) next
      ∙ line_calls-behind (suc k)
      ∙ get_elem-front (chars_loop 16 0 ptr end m) ((literal 10 ∷ []) ∷ []) k _
          (chars_loop_lem 16 0 k k inside (omega arith))

  pub line_calls-IsLine : IsLine ptr end m (line_calls ptr end m)
  unfolding line_calls
  line_calls-IsLine = record {
    columns = omega (
      arith,
      length-append (bytes_loop 16 0 ptr end m) behind_bytes,
      length-bytes_loop 16 0,
      length-append (chars_loop 16 0 ptr end m) ((literal 10 ∷ []) ∷ []),
      length-chars_loop 16 0,
    );
    address = refl;
    byte = λ k h inside big. line_calls-byte k h ∙ ground arith;
    small_byte = λ k h inside small. line_calls-byte k h ∙ ground arith;
    no_byte = λ k h out. line_calls-byte k h ∙ ground arith;
    bar = line_calls-behind 0;
    printable = λ k h inside low high. line_calls-char k h ∙ ground arith;
    dot = λ k h inside other. line_calls-char k h ∙ ground arith;
    no_char = λ k h out. line_calls-char k h ∙ ground arith;
    newline =
        line_calls-behind 17
        ∙ get_elem-behind (chars_loop 16 0 ptr end m) ((literal 10 ∷ []) ∷ []) 16 0
            (length-chars_loop 16 0);
  }
