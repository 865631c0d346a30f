-- ===== src/Prelude/Strings.antt =====
-- C strings as lists of byte codes, without the terminating NUL.
use Prim.Native.Nat.{ℕ, zero, suc, ◌+◌, ◌-◌, ◌/◌, ◌%◌, ◌<◌}
use Prim.Native.Char.{code}
use Prim.Native.String.{String}
use mathlib.Core.Bool.{Bool, true, false, ◌&&◌}
use mathlib.Core.List.{List, [], ◌∷◌}
use native.Mathlib.Omega.{arith}
use free_rtos_demos_cheri_ri.Prelude.Tests.{ltb, leb, ◌==◌, if◌then◌else◌}
use free_rtos_demos_cheri_ri.Prelude.Lists.{take, length, length-take}

abbrev pub Text : Type 0
Text = List ℕ

-- The bytes of an ASCII literal.
unfoldable pub codes : String → Text
codes String.[] = []
codes (String.◌∷◌ c s) = code c ∷ codes s

-- memcmp( a, b, strlen( a ) ) == 0, where `b` has at least that many bytes
unfoldable pub has_prefix : Text → Text → Bool
has_prefix [] b = true
has_prefix (x ∷ a) [] = false
has_prefix (x ∷ a) (y ∷ b) = (x == y) && has_prefix a b

-- strcmp( a, b ) == 0
unfoldable pub same_text : Text → Text → Bool
same_text [] [] = true
same_text [] (y ∷ b) = false
same_text (x ∷ a) [] = false
same_text (x ∷ a) (y ∷ b) = (x == y) && same_text a b

-- tolower( c ), in the C locale
unfoldable pub to_lower : ℕ → ℕ
to_lower c = if leb 65 c && leb c 90 then c + 32 else c

-- strncasecmp( a, b, strlen( a ) ) == 0
unfoldable pub has_prefix_nocase : Text → Text → Bool
unfolding to_lower
has_prefix_nocase [] b = true
has_prefix_nocase (x ∷ a) [] = false
has_prefix_nocase (x ∷ a) (y ∷ b) = (to_lower x == to_lower y) && has_prefix_nocase a b

-- What snprintf( buffer, size, .. ) leaves in the buffer when `s` is the formatted text.
unfoldable pub snprintf : ℕ → Text → Text
snprintf size s = take (size - 1) s

pub length-snprintf : (size : ℕ) (s : Text) → 0 < size → length (snprintf size s) < size
unfolding snprintf
length-snprintf size s h = omega (arith, length-take (size - 1) s)

-- What is in an array after memcpy() of some bytes to its start; the array does not grow.
unfoldable pub overlay : Text → Text → Text
overlay [] array = array
overlay (x ∷ xs) [] = []
overlay (x ∷ xs) (y ∷ array) = x ∷ overlay xs array

unfoldable pub dec_loop : ℕ → ℕ → Text → Text
dec_loop zero n out = out
dec_loop (suc fuel) n out =
    let rest = dec_loop fuel (n / 10) ((n % 10 + 48) ∷ out) in
    if ltb n 10 then (n + 48) ∷ out else rest

-- %u, %lu: the decimal digits
unfoldable pub dec : ℕ → Text
unfolding dec_loop
dec n = dec_loop (n + 1) n []

-- Zero padding up to a width, as in %02u
pad_loop : ℕ → Text → Text
pad_loop zero s = s
pad_loop (suc k) s = b'0' ∷ pad_loop k s

unfoldable pub dec_padded : ℕ → ℕ → Text
unfolding pad_loop
dec_padded width n = pad_loop (width - length (dec n)) (dec n)

-- An array after memset( array, 0, n )
unfoldable pub zeros : ℕ → Text
zeros zero = []
zeros (suc n) = 0 ∷ zeros n
