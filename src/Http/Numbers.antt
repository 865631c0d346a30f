-- ===== src/Http/Numbers.antt =====
-- The numbers in a request: strtoll() with base 0, and loadString(), getNextNumber() and
-- addressToCharPtr() of protocols/HTTP/peekpoke.c.
use free_rtos_demos_cheri_ri.Prelude.{
  ℕ, zero, suc, ◌+◌, ◌-◌, ◌*◌, ◌%◌, ◌^◌, ℤ, pos, negsuc, true, false, ◌&&◌, ◌||◌, Text, [], ◌∷◌,
  ◌==◌, ltb, leb, if◌then◌else◌, Option, none, some,
}
use free_rtos_demos_cheri_ri.Ftp.Parse.{is_digit, skip_spaces}

-- The value of a digit, in bases up to 16; 16 is no digit.
unfoldable pub digit_value : ℕ → ℕ
unfolding is_digit
digit_value c =
    if is_digit c
    then c - 48
    else if leb 97 c && leb c 102
    then c - 87
    else if leb 65 c && leb c 70
    then c - 55
    else 16

-- The digits at the head of a text, onto a number read so far.
unfoldable pub base_digits : ℕ → ℕ → Text → ℕ × Text
base_digits base n [] = (n, [])
base_digits base n (c ∷ s) = elim (ltb (digit_value c) base) [
  | true ↦ base_digits base (n * base + digit_value c) s
  | false ↦ (n, c ∷ s)
]

-- A 0 begins an octal number, unless an x and a hexadecimal digit follow.
unfoldable pub after_zero : Text → ℕ × Text
after_zero (x ∷ d ∷ s) =
    if ((x == b'x') || (x == b'X')) && ltb (digit_value d) 16
    then base_digits 16 0 (d ∷ s)
    else base_digits 8 0 (x ∷ d ∷ s)
after_zero s = base_digits 8 0 s

-- Digits; `none` if there is no digit.
unfoldable pub base_number : Text → Option (ℕ × Text)
base_number [] = none
base_number (c ∷ s) =
    if c == b'0'
    then some (after_zero s)
    else if ltb (digit_value c) 10
    then some (base_digits 10 0 (c ∷ s))
    else none

-- The result is cut to LLONG_MIN and LLONG_MAX.
unfoldable pub positive : Option (ℕ × Text) → Option (ℤ × Text)
positive none = none
positive (some (n, s)) = some (pos (if ltb n (2 ^ 63) then n else 2 ^ 63 - 1), s)

unfoldable pub negative : Option (ℕ × Text) → Option (ℤ × Text)
negative none = none
negative (some (zero, s)) = some (pos 0, s)
negative (some (suc n, s)) = some (negsuc (if ltb n (2 ^ 63) then n else 2 ^ 63 - 1), s)

signed_number : Text → Option (ℤ × Text)
signed_number [] = none
signed_number (c ∷ s) =
    if c == b'-'
    then negative (base_number s)
    else if c == b'+'
    then positive (base_number s)
    else positive (base_number (c ∷ s))

-- strtoll( s, &end, 0 ): the number and the text at `end`. For `none` the number is 0 and `end` is
-- `s`.
unfoldable pub strtoll : Text → Option (ℤ × Text)
unfolding signed_number
strtoll s = signed_number (skip_spaces s)

-- What becomes of the static pointer, by the character at endPtr.
number_end : Text → Text
number_end [] = []
number_end (c ∷ s) = if c == b'/' then s else c ∷ s

-- No number: endPtr is buf.
no_number_end : Text → Option Text
no_number_end [] = none
no_number_end (c ∷ s) = if c == b'/' then some s else none

next_number : Text → Option (ℤ × Text) → ℤ × Option Text
unfolding number_end no_number_end
next_number text none = (pos 0, no_number_end text)
next_number text (some (n, s)) = (n, some (number_end s))

-- getNextNumber(): the number, and the static pointer after the call
unfoldable pub get_next_number : Option Text → ℤ × Option Text
unfolding next_number
get_next_number none = (pos 0, none)
get_next_number (some text) = next_number text (strtoll text)

-- The low bits of an integer in two's complement.
unfoldable pub low_bits : ℕ → ℤ → ℕ
low_bits w (pos n) = n % 2 ^ w
low_bits w (negsuc n) = 2 ^ w - 1 - n % 2 ^ w

-- The cast to int
unfoldable pub to_int : ℤ → ℤ
unfolding low_bits
to_int n = let u = low_bits 32 n in if ltb u (2 ^ 31) then pos u else negsuc (2 ^ 32 - 1 - u)

-- addressToCharPtr()
unfoldable pub address_to_char_ptr : ℤ → ℕ
unfolding low_bits
address_to_char_ptr address = low_bits 32 address
