-- ===== src/Uart.antt =====
-- The serial port: uart.c, as the characters that its functions send to `uart_putc`. Waiting for the
-- device is left out.
pub mod Numbers
mod Tests
use archarch.Base.{
  ℕ, zero, suc, ◌+◌, ◌-◌, ◌*◌, ◌/◌, ◌%◌, ◌^◌, ◌==◌, ltb, if◌then◌else◌, List, [], ◌∷◌, ◌++◌,
}

-- A line feed is sent with a carriage return in front of it.
unfoldable pub uart_puts : List ℕ → List ℕ
uart_puts [] = []
uart_puts (c ∷ s) = let rest = uart_puts s in if c == b'\n' then b'\r' ∷ c ∷ rest else c ∷ rest

-- `hex[d]`
unfoldable pub hex_char : ℕ → ℕ
hex_char d = if ltb d 10 then b'0' + d else b'a' + (d - 10)

-- The loop of `uart_puthex`, with `n` digits left.
unfoldable pub hex_from : ℕ → ℕ → List ℕ
hex_from zero val = []
hex_from (suc n) val = hex_char (val / 2 ^ (4 * n) % 16) ∷ hex_from n val

unfoldable pub uart_puthex : ℕ → List ℕ
uart_puthex val = uart_puts (b'0' ∷ b'x' ∷ []) ++ hex_from 16 val

-- The bytes of `buf` after the first loop of `uart_putdec`, in the order of the array; `n` bounds its
-- rounds.
unfoldable pub dec_digits : ℕ → ℕ → List ℕ
dec_digits zero val = []
dec_digits (suc n) val =
    let rest = dec_digits n (val / 10) in if val == 0 then [] else (b'0' + val % 10) ∷ rest

-- The second loop sends the array from its end.
unfoldable pub backwards : List ℕ → List ℕ
backwards [] = []
backwards (c ∷ s) = backwards s ++ (c ∷ [])

-- `char buf[20]`
abbrev pub dec_buf_size : ℕ
dec_buf_size = 20

unfoldable pub uart_putdec : ℕ → List ℕ
uart_putdec val = if val == 0 then b'0' ∷ [] else backwards (dec_digits dec_buf_size val)
