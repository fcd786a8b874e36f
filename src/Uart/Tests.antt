-- ===== src/Uart/Tests.antt =====
-- Runs of uart.c, and its theorems at concrete numbers.
use archarch.Base.{ℕ, ◌+◌, ◌≤◌, ◌≡◌, refl, arith, true, [], ◌∷◌, length}
use archarch.Uart.{uart_putdec, dec_digits, backwards, dec_buf_size, hex_from, hex_char}
use archarch.Uart.Numbers.{read_number, dec_value, all_digits, uart_putdec_lem}

prints_407 : uart_putdec 407 ≡ b'4' ∷ b'0' ∷ b'7' ∷ []
unfolding uart_putdec dec_digits backwards
prints_407 = refl

prints_beef : hex_from 4 0xbeef ≡ b'b' ∷ b'e' ∷ b'e' ∷ b'f' ∷ []
unfolding hex_from hex_char
prints_beef = refl

uart_putdec_lem_example :
    (read_number 10 dec_value 0 (uart_putdec 18446744073709551615) ≡ 18446744073709551615)
    × (all_digits (uart_putdec 18446744073709551615) ≡ true)
    × (length (uart_putdec 18446744073709551615) ≤ dec_buf_size)
    × ((more : ℕ)
        → dec_digits (dec_buf_size + more) 18446744073709551615
          ≡ dec_digits dec_buf_size 18446744073709551615)
uart_putdec_lem_example = uart_putdec_lem 18446744073709551615 (omega arith)
