-- ===== src/Ftp/Numbers.antt =====
-- The numbers of the command PORT: what prvParsePortData() reads of six printed numbers.
use free_rtos_demos_cheri_ri.Prelude.{
  ℕ, zero, suc, ◌+◌, ◌*◌, ◌/◌, ◌%◌, ◌^◌, ◌<◌, ◌≡◌, refl, ap, ◌∙◌, Bool, true, false, not, sym,
  Bool-cases, inl, inr, Text, [], ◌∷◌, ◌++◌, ltb, some, dec, arith, ltb→lt,
}
use Prim.Native.Nat.{bit_or}
use free_rtos_demos_cheri_ri.Prelude.Bits.{bit_or-shifted}
use free_rtos_demos_cheri_ri.Prelude.Strings.{dec_loop}
use free_rtos_demos_cheri_ri.Ftp.Parse.{
  is_digit, is_space, skip_spaces, scan_digits, scan_number, scan_signed, scan_unsigned, scan_next,
  pack_ip, pack_port, parse_port_data,
}

digit-is_digit : (d : ℕ) → d < 10 → is_digit (d + 48) ≡ true
unfolding is_digit
digit-is_digit d h = ground arith

scan_digit :
    (n d : ℕ) (s : Text) → d < 10 → scan_digits n ((d + 48) ∷ s) ≡ scan_digits (n * 10 + d) s
unfolding scan_digits
scan_digit n d s h =
    rw (digit-is_digit d h, scan_digits) (ap (λ x. scan_digits (n * 10 + x) s) (omega arith))

-- A number cannot go on with this text.
unfoldable is_stop : Text → Bool
is_stop [] = true
is_stop (c ∷ s) = not (is_digit c)

digit-is_space : (d : ℕ) → d < 10 → is_space (d + 48) ≡ false
unfolding is_space
digit-is_space d h = ground arith

pub skip_spaces-digit : (d : ℕ) (s : Text) → d < 10 → skip_spaces ((d + 48) ∷ s) ≡ (d + 48) ∷ s
unfolding skip_spaces
skip_spaces-digit d s h = rw (digit-is_space d h, skip_spaces) refl

scan_signed-digit :
    (d : ℕ) (s : Text) → d < 10 → scan_signed ((d + 48) ∷ s) ≡ some (scan_digits 0 ((d + 48) ∷ s))
unfolding scan_signed scan_number
scan_signed-digit d s h = let k = digit-is_digit d h in ground arith

scan_unsigned-digit :
    (d : ℕ) (s : Text) → d < 10 → scan_unsigned ((d + 48) ∷ s) ≡ some (scan_digits 0 ((d + 48) ∷ s))
unfolding scan_unsigned
scan_unsigned-digit d s h = ap scan_signed (skip_spaces-digit d s h) ∙ scan_signed-digit d s h

-- Reading back what the formatter prints.
scan_digits-dec_loop :
    (fuel n : ℕ) (out : Text) → n < fuel → scan_digits 0 (dec_loop fuel n out) ≡ scan_digits n out
unfolding dec_loop
scan_digits-dec_loop zero n out h = absurd (omega (arith, h))
scan_digits-dec_loop (suc fuel) n out h = elim (Bool-cases (ltb n 10)) [
  | inl y ↦ rw y (scan_digit 0 n out (ltb→lt n 10 y) ∙ ap (λ x. scan_digits x out) (omega arith))
  | inr m ↦ rw m (
      scan_digits-dec_loop fuel (n / 10) ((n % 10 + 48) ∷ out) (ground arith)
      ∙ scan_digit (n / 10) (n % 10) out (omega arith)
      ∙ ap (λ x. scan_digits x out) (omega arith))
]

pub dec_loop-append :
    (fuel n : ℕ) (out rest : Text) → dec_loop fuel n out ++ rest ≡ dec_loop fuel n (out ++ rest)
unfolding dec_loop
dec_loop-append zero n out rest = refl
dec_loop-append (suc fuel) n out rest = elim (Bool-cases (ltb n 10)) [
  | inl y ↦ rw y refl
  | inr m ↦ rw m (dec_loop-append fuel (n / 10) ((n % 10 + 48) ∷ out) rest)
]

scan_digits-stops : (n : ℕ) (rest : Text) → is_stop rest ≡ true → scan_digits n rest ≡ (n, rest)
unfolding scan_digits is_stop
scan_digits-stops n [] h = refl
scan_digits-stops n (c ∷ rest) h = elim (Bool-cases (is_digit c)) [
  | inl y ↦ absurd (ground arith)
  | inr m ↦ rw (m, scan_digits) refl
]

-- The first character of a printed number is a digit.
dec_loop-digit :
    (fuel n : ℕ) (out : Text)
    → n < fuel
    → (d : ℕ) × (s : Text) × (d < 10) × (dec_loop fuel n out ≡ (d + 48) ∷ s)
unfolding dec_loop
dec_loop-digit zero n out h = absurd (omega (arith, h))
dec_loop-digit (suc fuel) n out h = elim (Bool-cases (ltb n 10)) [
  | inl y ↦ rw y (n, out, ltb→lt n 10 y, refl)
  | inr m ↦ rw m (dec_loop-digit fuel (n / 10) ((n % 10 + 48) ∷ out) (ground arith))
]

-- What stands before a separator or the end is read as the number that was printed.
scan_unsigned-dec :
    (n : ℕ) (rest : Text) → is_stop rest ≡ true → scan_unsigned (dec n ++ rest) ≡ some (n, rest)
unfolding dec
scan_unsigned-dec n rest h =
    let e = dec_loop-append (n + 1) n [] rest in
    let r = scan_digits-dec_loop (n + 1) n rest (omega arith) ∙ scan_digits-stops n rest h in
    let (d, s, b, k) = dec_loop-digit (n + 1) n rest (omega arith) in
    ap scan_unsigned (e ∙ k) ∙ scan_unsigned-digit d s b ∙ ap some (ap (scan_digits 0) (sym k) ∙ r)

scan_next-dec :
    (before sep n : ℕ) (rest : Text)
    → is_stop rest ≡ true
    → scan_next (some (before, sep ∷ dec n ++ rest)) ≡ some (n, rest)
unfolding scan_next
scan_next-dec before sep n rest h = scan_unsigned-dec n rest h

-- h1,h2,h3,h4,p1,p2
unfoldable pub port_text : ℕ → ℕ → ℕ → ℕ → ℕ → ℕ → Text
port_text h1 h2 h3 h4 p1 p2 =
    dec h1
    ++ (b','
        ∷ (dec h2
            ++ (b','
                ∷ (dec h3 ++ (b',' ∷ (dec h4 ++ (b',' ∷ (dec p1 ++ (b',' ∷ (dec p2 ++ []))))))))))

cong_or : {a b c d : ℕ} → a ≡ c → b ≡ d → bit_or a b ≡ bit_or c d
cong_or h k = cc

pack_ip-sum :
    (h1 h2 h3 h4 : ℕ)
    → h1 < 256
    → h2 < 256
    → h3 < 256
    → h4 < 256
    → pack_ip h1 h2 h3 h4 ≡ h1 * 2 ^ 24 + h2 * 2 ^ 16 + h3 * 2 ^ 8 + h4
unfolding pack_ip
pack_ip-sum h1 h2 h3 h4 a b c d =
    let e1 : bit_or (h1 * 2 ^ 24 % 2 ^ 32) (h2 * 2 ^ 16 % 2 ^ 32) ≡ (h1 * 256 + h2) * 2 ^ 16 =
      cong_or (omega (arith, a)) (omega (arith, b))
      ∙ bit_or-shifted 24 h1 (h2 * 2 ^ 16) (omega (arith, b))
      ∙ omega arith in
    let e2 : bit_or ((h1 * 256 + h2) * 2 ^ 16) (h3 * 2 ^ 8 % 2 ^ 32)
        ≡ ((h1 * 256 + h2) * 256 + h3) * 2 ^ 8 =
      cong_or refl (omega (arith, c))
      ∙ bit_or-shifted 16 (h1 * 256 + h2) (h3 * 2 ^ 8) (omega (arith, c))
      ∙ omega arith in
    cong_or (cong_or e1 refl ∙ e2) refl
    ∙ bit_or-shifted 8 ((h1 * 256 + h2) * 256 + h3) h4 (omega (arith, d))
    ∙ omega arith

pack_port-sum : (p1 p2 : ℕ) → p1 < 256 → p2 < 256 → pack_port p1 p2 ≡ p1 * 2 ^ 8 + p2
unfolding pack_port
pack_port-sum p1 p2 a b =
    cong_or (omega (arith, a)) refl ∙ bit_or-shifted 8 p1 p2 (omega (arith, b))

fits : (n : ℕ) → n < 256 → n % 2 ^ 32 ≡ n
fits n h = omega (arith, h)

-- prvParsePortData() reads the parameter h1,h2,h3,h4,p1,p2 of a PORT command as it is printed: for
-- six numbers below 256 it gives the address h1.h2.h3.h4 and the port p1 * 256 + p2.
pub parse_port_data-port_text :
    (h1 h2 h3 h4 p1 p2 : ℕ)
    → h1 < 256
    → h2 < 256
    → h3 < 256
    → h4 < 256
    → p1 < 256
    → p2 < 256
    → parse_port_data (port_text h1 h2 h3 h4 p1 p2)
      ≡ record { port = p1 * 2 ^ 8 + p2; ip = h1 * 2 ^ 24 + h2 * 2 ^ 16 + h3 * 2 ^ 8 + h4 }
unfolding parse_port_data port_text is_stop is_digit
parse_port_data-port_text h1 h2 h3 h4 p1 p2 a1 a2 a3 a4 b1 b2 =
    let r6 = dec p2 ++ [] in
    let r5 = dec p1 ++ (b',' ∷ r6) in
    let r4 = dec h4 ++ (b',' ∷ r5) in
    let r3 = dec h3 ++ (b',' ∷ r4) in
    let r2 = dec h2 ++ (b',' ∷ r3) in
    rw
      (
        scan_unsigned-dec h1 (b',' ∷ r2) refl,
        scan_next-dec h1 b',' h2 (b',' ∷ r3) refl,
        scan_next-dec h2 b',' h3 (b',' ∷ r4) refl,
        scan_next-dec h3 b',' h4 (b',' ∷ r5) refl,
        scan_next-dec h4 b',' p1 (b',' ∷ r6) refl,
        scan_next-dec p1 b',' p2 [] refl,
      )
      (rw
        (
          fits p1 b1,
          fits p2 b2,
          fits h1 a1,
          fits h2 a2,
          fits h3 a3,
          fits h4 a4,
          pack_port-sum p1 p2 b1 b2,
          pack_ip-sum h1 h2 h3 h4 a1 a2 a3 a4,
        )
        refl)
