-- ===== src/Uart/Numbers.antt =====
-- The numbers that uart.c prints, read back.
use archarch.Base.{
  ℕ, zero, suc, ◌+◌, ◌-◌, ◌*◌, ◌/◌, ◌%◌, ◌^◌, ◌≤◌, ◌<◌, ◌≡◌, refl, sym, ap, ◌∙◌, arith, true, ◌&&◌,
  ltb, leb, if◌then◌else◌, List, [], ◌∷◌, ◌++◌, length, length-append, Bool, ==_ne,
}
use native.Mathlib.Decide.{ℕ_discrete}
use native.Mathlib.Nat.{pow-suc, div-div-eq-div-mul}
use archarch.Uart.{
  uart_puts, hex_char, hex_from, uart_puthex, dec_digits, backwards, dec_buf_size, uart_putdec,
}

-- Reading a number by its digits, the first the most significant.
unfoldable pub read_number : (base : ℕ) (digit : ℕ → ℕ) → ℕ → List ℕ → ℕ
read_number base digit acc [] = acc
read_number base digit acc (c ∷ s) = read_number base digit (acc * base + digit c) s

abbrev pub dec_value : ℕ → ℕ
dec_value c = c - b'0'

abbrev pub hex_value : ℕ → ℕ
hex_value c = if ltb c b'a' then c - b'0' else c - b'a' + 10

abbrev pub is_digit : ℕ → Bool
is_digit c = leb b'0' c && leb c b'9'

unfoldable pub all_digits : List ℕ → Bool
all_digits [] = true
all_digits (c ∷ s) = is_digit c && all_digits s

read_number-append :
    (base : ℕ) (digit : ℕ → ℕ) (acc c : ℕ) (s : List ℕ)
    → read_number base digit acc (s ++ (c ∷ [])) ≡ read_number base digit acc s * base + digit c
unfolding read_number
read_number-append base digit acc c [] = refl
read_number-append base digit acc c (b ∷ s) =
    read_number-append base digit (acc * base + digit b) c s

all_digits-append :
    (c : ℕ) (s : List ℕ)
    → all_digits s ≡ true
    → is_digit c ≡ true
    → all_digits (s ++ (c ∷ [])) ≡ true
unfolding all_digits
all_digits-append c [] h h' = ground (arith, h')
all_digits-append c (b ∷ s) h h' = ground (arith, h, all_digits-append c s)

-- The bound on values that `n` digits can show.
power10 : ℕ → ℕ
power10 zero = 1
power10 (suc n) = 10 * power10 n

dec_digits_lem :
    (n val : ℕ)
    → val < power10 n
    → (read_number 10 dec_value 0 (backwards (dec_digits n val)) ≡ val)
      × (all_digits (backwards (dec_digits n val)) ≡ true)
      × (length (backwards (dec_digits n val)) ≤ n)
unfolding dec_digits backwards power10 read_number all_digits
dec_digits_lem zero val h = (omega arith, refl, omega arith)
dec_digits_lem (suc n) val h = elim (ℕ_discrete val 0) [
  | yes e ↦ rw (e, dec_digits) (refl, refl, omega arith)
  | no ne ↦
      let (value, digits, short) = dec_digits_lem n (val / 10) (omega arith) in
      let rest = backwards (dec_digits n (val / 10)) in
      let c = b'0' + val % 10 in
      rw (==_ne val 0 ne, dec_digits)
        (
          read_number-append 10 dec_value 0 c rest ∙ omega (arith, value),
          all_digits-append c rest digits (ground arith),
          omega (arith, length-append rest (c ∷ []), short),
        )
]

-- Two bounds on the rounds that are both enough give the same digits.
dec_digits_enough :
    (n k val : ℕ) → val < power10 n → val < power10 k → dec_digits n val ≡ dec_digits k val
unfolding dec_digits power10
dec_digits_enough zero zero val h h' = refl
dec_digits_enough zero (suc k) val h h' = let e : val ≡ 0 = omega arith in rw (e, dec_digits) refl
dec_digits_enough (suc n) zero val h h' = let e : val ≡ 0 = omega arith in rw (e, dec_digits) refl
dec_digits_enough (suc n) (suc k) val h h' =
    ground (arith, dec_digits_enough n k (val / 10) (omega arith) (omega arith))

power10_positive : (k : ℕ) → 1 ≤ power10 k
unfolding power10
power10_positive zero = omega arith
power10_positive (suc k) = omega (arith, power10_positive k)

power10_mono : (n k : ℕ) → power10 n ≤ power10 (n + k)
unfolding power10
power10_mono zero k = let e : 0 + k ≡ k = omega arith in rw e (power10_positive k)
power10_mono (suc n) k =
    let e : suc n + k ≡ suc (n + k) = omega arith in rw e (omega (arith, power10_mono n k))

word_fits : power10 20 ≡ 10 ^ 20
unfolding power10
word_fits = refl

uart_putdec_digits :
    (val : ℕ)
    → val < 2 ^ 64
    → (read_number 10 dec_value 0 (uart_putdec val) ≡ val)
      × (all_digits (uart_putdec val) ≡ true)
      × (length (uart_putdec val) ≤ dec_buf_size)
unfolding uart_putdec
uart_putdec_digits val h = elim (ℕ_discrete val 0) [
  | yes e ↦ rw (e, uart_putdec) (unfold read_number all_digits in (refl, refl, omega arith))
  | no ne ↦
      rw (==_ne val 0 ne, uart_putdec) (dec_digits_lem dec_buf_size val (omega (arith, word_fits)))
]

-- `uart_putdec` of a 64-bit number sends decimal digits only, at most 20 of them, which read as
-- the number; and the 20 bytes of its buffer are enough: more room would hold the same digits.
pub uart_putdec_lem :
    (val : ℕ)
    → val < 2 ^ 64
    → (read_number 10 dec_value 0 (uart_putdec val) ≡ val)
      × (all_digits (uart_putdec val) ≡ true)
      × (length (uart_putdec val) ≤ dec_buf_size)
      × ((more : ℕ) → dec_digits (dec_buf_size + more) val ≡ dec_digits dec_buf_size val)
uart_putdec_lem val h =
    let (value, digits, short) = uart_putdec_digits val h in
    (
      value,
      digits,
      short,
      λ more.
          dec_digits_enough (dec_buf_size + more) dec_buf_size val
            (omega (arith, word_fits, power10_mono dec_buf_size more)) (omega (arith, word_fits)),
    )

hex_value-hex_char : (d : ℕ) → d < 16 → hex_value (hex_char d) ≡ d
unfolding hex_char
hex_value-hex_char d h = ground arith

shift_step : (n : ℕ) → 2 ^ (4 * suc n) ≡ 2 ^ (4 * n) * 16
shift_step n =
    let e : 4 * suc n ≡ suc (suc (suc (suc (4 * n)))) = omega arith in
    rw
      (
        e,
        pow-suc 2 (suc (suc (suc (4 * n)))),
        pow-suc 2 (suc (suc (4 * n))),
        pow-suc 2 (suc (4 * n)),
        pow-suc 2 (4 * n),
      )
      (omega arith)

-- What was read before the last `n` digits is the number without them.
read_number-hex_from :
    (n val : ℕ) → read_number 16 hex_value (val / 2 ^ (4 * n)) (hex_from n val) ≡ val
unfolding read_number hex_from
read_number-hex_from zero val = omega arith
read_number-hex_from (suc n) val =
    let x = val / 2 ^ (4 * n) in
    let up : val / 2 ^ (4 * suc n) ≡ x / 16 =
      rw (shift_step n) (sym (div-div-eq-div-mul val (2 ^ (4 * n)) 16)) in
    let here : x / 16 * 16 + hex_value (hex_char (x % 16)) ≡ x =
      rw (hex_value-hex_char (x % 16) (omega arith)) (omega arith) in
    ap (λ acc. read_number 16 hex_value acc (hex_from n val)) (rw up here)
    ∙ read_number-hex_from n val

length-hex_from : (n val : ℕ) → length (hex_from n val) ≡ n
unfolding hex_from
length-hex_from zero val = refl
length-hex_from (suc n) val = omega (arith, length-hex_from n val)

-- `uart_puthex` of a 64-bit number sends `0x` and 16 digits, which read as the number.
pub uart_puthex_lem :
    (val : ℕ)
    → val < 2 ^ 64
    → (digits : List ℕ) × (uart_puthex val ≡ b'0' ∷ b'x' ∷ digits)
      × (length digits ≡ 16)
      × (read_number 16 hex_value 0 digits ≡ val)
unfolding uart_puthex uart_puts
uart_puthex_lem val h =
    let none_before : val / 2 ^ (4 * 16) ≡ 0 = omega arith in
    (hex_from 16 val, refl, length-hex_from 16 val, rw none_before at (read_number-hex_from 16 val))
