-- ===== src/Ftp/Parse.antt =====
-- prvGetTransferType(), prvParsePortData() and the argument of REST in
-- protocols/FTP/FreeRTOS_FTP_server.c, with what sscanf() does for "%u", "%lu" and "%c".
use Prim.Native.Nat.{bit_or}
use free_rtos_demos_cheri_ri.Prelude.{
  ℕ, ◌+◌, ◌-◌, ◌*◌, ◌%◌, ◌^◌, ℤ, pos, negsuc, Bool, true, false, ◌&&◌, ◌||◌, Text, [], ◌∷◌, ◌==◌,
  leb, if◌then◌else◌, Option, none, some,
}

unfoldable pub tmode_binary : ℕ
tmode_binary = 1

abbrev pub tmode_ascii : ℕ
tmode_ascii = 2

unfoldable pub tmode_7bits : ℕ
tmode_7bits = 3

unfoldable pub tmode_8bits : ℕ
tmode_8bits = 4

-- The case 'L': the third character, if there is one.
transfer_type_local : Text → ℤ
unfolding tmode_7bits
transfer_type_local (a ∷ b ∷ c ∷ s) =
    if c == b'7' then pos tmode_7bits else if c == b'8' then pos tmode_7bits else negsuc 0
transfer_type_local _ = negsuc 0

unfoldable pub get_transfer_type : Text → ℤ
unfolding transfer_type_local tmode_binary
get_transfer_type [] = negsuc 0
get_transfer_type (c ∷ s) =
    if c == b'I'
    then pos tmode_binary
    else if c == b'A'
    then pos tmode_ascii
    else if c == b'L'
    then transfer_type_local (c ∷ s)
    else negsuc 0

-- isdigit()
unfoldable pub is_digit : ℕ → Bool
is_digit c = leb b'0' c && leb c b'9'

-- isspace()
unfoldable pub is_space : ℕ → Bool
is_space c = (c == 32) || (leb 9 c && leb c 13)

unfoldable pub skip_spaces : Text → Text
skip_spaces [] = []
skip_spaces (c ∷ s) = elim (is_space c) [ true ↦ skip_spaces s | false ↦ c ∷ s ]

-- The digits at the head of a text, onto a number read so far.
unfoldable pub scan_digits : ℕ → Text → ℕ × Text
scan_digits n [] = (n, [])
scan_digits n (c ∷ s) = elim (is_digit c) [
  | true ↦ scan_digits (n * 10 + (c - 48)) s
  | false ↦ (n, c ∷ s)
]

-- At least one digit.
unfoldable pub scan_number : Text → Option (ℕ × Text)
scan_number [] = none
scan_number (c ∷ s) = if is_digit c then some (scan_digits 0 (c ∷ s)) else none

negate : Option (ℕ × Text) → Option (ℕ × Text)
negate none = none
negate (some (n, s)) = some ((2 ^ 32 - n % 2 ^ 32) % 2 ^ 32, s)

-- A sign, digits.
unfoldable pub scan_signed : Text → Option (ℕ × Text)
unfolding negate
scan_signed [] = none
scan_signed (c ∷ s) =
    if c == b'-'
    then negate (scan_number s)
    else if c == b'+'
    then scan_number s
    else scan_number (c ∷ s)

-- "%u": white space, a sign, digits. Beyond 32 bits the standard leaves the result undefined; it is
-- kept modulo 2 ^ 32 where it is used.
unfoldable pub scan_unsigned : Text → Option (ℕ × Text)
scan_unsigned text = scan_signed (skip_spaces text)

-- "%c%u"
unfoldable pub scan_next : Option (ℕ × Text) → Option (ℕ × Text)
scan_next none = none
scan_next (some (n, [])) = none
scan_next (some (n, sep ∷ s)) = scan_unsigned s

pub record PortData : Type 0 where
  pub port : ℕ  -- the result; 0 is a refusal
  pub ip : ℕ  -- *pulIPAddress

value : Option (ℕ × Text) → ℕ
value none = 0
value (some (n, s)) = n % 2 ^ 32

-- ( h1 << 24 ) | ( h2 << 16 ) | ( h3 << 8 ) | h4, as a uint32_t
unfoldable pub pack_ip : ℕ → ℕ → ℕ → ℕ → ℕ
pack_ip h1 h2 h3 h4 =
    bit_or (bit_or (bit_or (h1 * 2 ^ 24 % 2 ^ 32) (h2 * 2 ^ 16 % 2 ^ 32)) (h3 * 2 ^ 8 % 2 ^ 32)) h4

-- ( p1 << 8 ) | p2, in unsigned arithmetic
unfoldable pub pack_port : ℕ → ℕ → ℕ
pack_port p1 p2 = bit_or (p1 * 2 ^ 8 % 2 ^ 32) p2

-- No result without the last number, for then the count is below 11.
port_data :
    Option (ℕ × Text)
    → Option (ℕ × Text)
    → Option (ℕ × Text)
    → Option (ℕ × Text)
    → Option (ℕ × Text)
    → Option (ℕ × Text)
    → PortData
unfolding value
port_data h1 h2 h3 h4 p1 none = record { port = 0; ip = 0 }
port_data h1 h2 h3 h4 p1 (some r) = record {
  port = pack_port (value p1) (value (some r));
  ip = pack_ip (value h1) (value h2) (value h3) (value h4);
}

-- *pulIPAddress holds 0 before the call.
unfoldable pub parse_port_data : Text → PortData
unfolding port_data
parse_port_data command =
    let h1 = scan_unsigned command in
    let h2 = scan_next h1 in
    let h3 = scan_next h2 in
    let h4 = scan_next h3 in
    let p1 = scan_next h4 in let p2 = scan_next p1 in port_data h1 h2 h3 h4 p1 p2
