-- ===== src/Http/Reading.antt =====
-- The numbers of a request: what two calls of getNextNumber() read of two printed numbers.
use free_rtos_demos_cheri_ri.Prelude.{
  ℕ, zero, suc, ◌+◌, ◌*◌, ◌/◌, ◌%◌, ◌^◌, ◌<◌, ◌≡◌, refl, ap, ◌∙◌, sym, pos, Bool, true, false, not,
  Bool-cases, inl, inr, Text, [], ◌∷◌, ◌++◌, ◌==◌, ltb, some, dec, arith, ltb→lt,
}
use mathlib.Core.List.{append-nil}
use free_rtos_demos_cheri_ri.Prelude.Strings.{dec_loop}
use free_rtos_demos_cheri_ri.Ftp.Parse.{is_digit, skip_spaces}
use free_rtos_demos_cheri_ri.Ftp.Numbers.{skip_spaces-digit, dec_loop-append}
use free_rtos_demos_cheri_ri.Http.Numbers.{
  digit_value, base_digits, base_number, positive, strtoll, get_next_number,
}

digit_value-digit : (d : ℕ) → d < 10 → digit_value (d + 48) ≡ d
unfolding digit_value is_digit
digit_value-digit d h = ground arith

base_digits-digit :
    (n d : ℕ) (s : Text) → d < 10 → base_digits 10 n ((d + 48) ∷ s) ≡ base_digits 10 (n * 10 + d) s
unfolding base_digits
base_digits-digit n d s h =
    let v = digit_value-digit d h in
    let e : ltb (digit_value (d + 48)) 10 ≡ true = rw v (ground arith) in
    rw (e, base_digits) (ap (λ x. base_digits 10 (n * 10 + x) s) v)

-- Reading back what the formatter prints.
base_digits-dec_loop :
    (fuel n : ℕ) (out : Text)
    → n < fuel
    → base_digits 10 0 (dec_loop fuel n out) ≡ base_digits 10 n out
unfolding dec_loop
base_digits-dec_loop zero n out h = absurd (omega (arith, h))
base_digits-dec_loop (suc fuel) n out h = elim (Bool-cases (ltb n 10)) [
  | inl y ↦
      rw y
        (base_digits-digit 0 n out (ltb→lt n 10 y) ∙ ap (λ x. base_digits 10 x out) (omega arith))
  | inr m ↦ rw m (
      base_digits-dec_loop fuel (n / 10) ((n % 10 + 48) ∷ out) (ground arith)
      ∙ base_digits-digit (n / 10) (n % 10) out (omega arith)
      ∙ ap (λ x. base_digits 10 x out) (omega arith))
]

-- The first digit of a number that is not 0 is not 0.
dec_loop-leading :
    (fuel n : ℕ) (out : Text)
    → n < fuel
    → 0 < n
    → (d : ℕ) × (s : Text) × (d < 9) × (dec_loop fuel n out ≡ (d + 49) ∷ s)
unfolding dec_loop
dec_loop-leading zero n out h p = absurd (omega (arith, h))
dec_loop-leading (suc fuel) zero out h p = absurd (omega (arith, p))
dec_loop-leading (suc fuel) (suc n) out h p = elim (Bool-cases (ltb (suc n) 10)) [
  | inl y ↦ rw y (n, out, ground arith, ap (λ x. x ∷ out) (omega arith))
  | inr m ↦
      rw m
        (dec_loop-leading fuel (suc n / 10) ((suc n % 10 + 48) ∷ out) (ground arith) (ground arith))
]

-- A decimal number cannot go on with this text.
unfoldable pub is_stop : Text → Bool
is_stop [] = true
is_stop (c ∷ s) = not (ltb (digit_value c) 10)

base_digits-stops : (n : ℕ) (rest : Text) → is_stop rest ≡ true → base_digits 10 n rest ≡ (n, rest)
unfolding base_digits is_stop
base_digits-stops n [] h = refl
base_digits-stops n (c ∷ rest) h = elim (Bool-cases (ltb (digit_value c) 10)) [
  | inl y ↦ absurd (ground arith)
  | inr m ↦ rw (m, base_digits) refl
]

base_number-leading :
    (d : ℕ) (s : Text) → d < 9 → base_number ((d + 49) ∷ s) ≡ some (base_digits 10 0 ((d + 49) ∷ s))
unfolding base_number
base_number-leading d s h =
    let z : ((d + 49) == 48) ≡ false = ground arith in
    let v : digit_value (d + 49) ≡ d + 1 =
      ap digit_value (omega arith) ∙ digit_value-digit (d + 1) (omega arith) in
    let e : ltb (d + 1) 10 ≡ true = ground arith in rw (z, v, e) refl

strtoll-leading :
    (d : ℕ) (s : Text)
    → d < 9
    → strtoll ((d + 49) ∷ s) ≡ positive (some (base_digits 10 0 ((d + 49) ∷ s)))
unfolding strtoll
strtoll-leading d s h =
    let k : skip_spaces ((d + 49) ∷ s) ≡ (d + 49) ∷ s =
      ap (λ x. skip_spaces (x ∷ s)) (omega arith)
      ∙ skip_spaces-digit (d + 1) s (omega arith)
      ∙ ap (λ x. x ∷ s) (omega arith) in
    let m : ((d + 49) == b'-') ≡ false = ground arith in
    let p : ((d + 49) == b'+') ≡ false = ground arith in
    rw (k, m, p, base_number-leading d s h) refl

-- What stands before a separator or the end is read as the number that was printed.
strtoll-dec :
    (n : ℕ) (rest : Text)
    → 0 < n
    → n < 2 ^ 63
    → is_stop rest ≡ true
    → strtoll (dec n ++ rest) ≡ some (pos n, rest)
unfolding dec positive
strtoll-dec n rest p b h =
    let e = dec_loop-append (n + 1) n [] rest in
    let r = base_digits-dec_loop (n + 1) n rest (omega arith) ∙ base_digits-stops n rest h in
    let (d, s, k, q) = dec_loop-leading (n + 1) n rest (omega arith) p in
    let f : ltb n (2 ^ 63) ≡ true = ground arith in
    ap strtoll (e ∙ q)
    ∙ strtoll-leading d s k
    ∙ ap (λ x. positive (some x)) (ap (base_digits 10 0) (sym q) ∙ r)
    ∙ rw f refl

-- getNextNumber() reads a number that is followed by a slash and moves its pointer behind the slash,
-- and it reads a number at the end of the string: of the numbers a and b printed in decimal with a
-- slash between them, both from 1 to 2 ^ 63 - 1, the first call gives a, the second b, and the
-- pointer is then at the end.
pub get_next_number-dec :
    (a b : ℕ)
    → 0 < a
    → a < 2 ^ 63
    → 0 < b
    → b < 2 ^ 63
    → (get_next_number (some (dec a ++ (b'/' ∷ dec b))) ≡ (pos a, some (dec b)))
      × (get_next_number (some (dec b)) ≡ (pos b, some []))
unfolding get_next_number is_stop digit_value is_digit
get_next_number-dec a b p q r t =
    let e = append-nil (dec b) in
    (
      rw (strtoll-dec a (b'/' ∷ dec b) p q refl) refl,
      ap (λ x. get_next_number (some x)) (sym e) ∙ rw (strtoll-dec b [] r t refl) refl,
    )
