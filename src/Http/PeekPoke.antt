-- ===== src/Http/PeekPoke.antt =====
-- peekPokeHandler() of protocols/HTTP/peekpoke.c.
use free_rtos_demos_cheri_ri.Prelude.{
  overlay, ℕ, ◌+◌, ◌-◌, ◌&&◌, ℤ, pos, negsuc, is_zero, not, Text, [], ◌∷◌, ◌++◌, ltb, leb,
  if◌then◌else◌, Option, some, length, drop, get_or, codes, has_prefix, snprintf, dec, min,
}
use free_rtos_demos_cheri_ri.Http.Commands.{Command, get, patch}
use free_rtos_demos_cheri_ri.Http.World.{Env, State, c_string, url_bytes, rest_bytes, read_memory}
use free_rtos_demos_cheri_ri.Http.Numbers.{get_next_number, low_bits, to_int, address_to_char_ptr}

-- sizeof( pcCurrentFilename ), which is the argument uxBufferLength
unfoldable pub output_size : State → ℕ
output_size s = length s.current_filename

-- %d of an int
dec_int : ℤ → Text
dec_int (pos n) = dec n
dec_int (negsuc n) = b'-' ∷ dec (n + 1)

-- snprintf( pcOutputBuffer, uxBufferLength, .. ) with the formatted text
unfoldable pub print_output : Text → State → State
print_output text s = record s {
  current_filename = overlay (snprintf (output_size s) text ++ 0 ∷ []) s.current_filename;
}

hello_text : Env → State → Text
unfolding codes
hello_text e s =
    codes "It's dark here; you may be eaten by a grue."
    ++ 10
      ∷ (10
          ∷ (codes "&stackBuffer = "
              ++ e.pointer_text (e.stack_address s.trace)
              ++ 10
                ∷ (codes "STACK_BUFFER_SIZE = 1024"
                    ++ 10
                      ∷ (codes "uxBufferLength = "
                          ++ dec (output_size s)
                          ++ 10 ∷ (codes "stackBuffer = xyzzy" ++ 10 ∷ [])))))

printed : State → ℕ × State
printed s = (length (c_string s.current_filename), s)

-- GET /hello
unfoldable pub hello : Env → State → ℕ × State
unfolding hello_text printed codes
hello e s = printed (print_output (hello_text e s) record s { contents_type = codes "text/plain" })

-- The two numbers of a request, which loadString() and two calls of getNextNumber() take from the
-- URL behind its first six characters.
unfoldable pub two_numbers : Text → ℤ × ℤ × Option Text
two_numbers url =
    let first = get_next_number (some (drop 6 url)) in
    let second = get_next_number first.1 in (first.0, second.0, second.1)

-- bzero() and memcpy() to the output buffer
unfoldable pub copy_out : ℕ → ℕ → State → ℕ × State
copy_out address n s =
    let zeros = read_memory (λ a. 0) 0 (output_size s) in
    (n, record s { current_filename = overlay (read_memory s.memory address n) zeros })

-- GET /peek/address/length
unfoldable pub peek : Env → Text → State → ℕ × State
unfolding codes
peek e url s =
    let (address, len, text) = two_numbers url in
    let s : State = record s {
      contents_type = codes "application/octet-stream";
      number_text = text;
    } in
    let n = low_bits e.size_bits len in
    if not (is_zero address) && ltb 0 n
    then copy_out (address_to_char_ptr address) (min n (output_size s)) s
    else (0, s)

-- memcpy() of n bytes into the memory; where the bytes to copy end, zeros stand for them
unfoldable pub write_memory : (ℕ → ℕ) → ℕ → Text → ℕ → ℕ → ℕ
write_memory memory address bytes n a =
    if leb address a && ltb a (address + n) then get_or bytes (a - address) 0 else memory a

-- The memcpy() of a poke, whose int length is converted to a size_t
unfoldable pub copy_in : Env → ℤ → ℤ → State → State
copy_in e address len s =
    if not (is_zero address) && not (is_zero len)
    then record s {
      memory =
          write_memory s.memory (address_to_char_ptr address) (rest_bytes e s)
            (low_bits e.size_bits len);
    }
    else s

wrote_text : Env → ℤ → ℤ → Text
unfolding codes
wrote_text e address len =
    codes "Wrote "
    ++ dec_int len
    ++ codes " bytes to "
    ++ e.pointer_text (address_to_char_ptr address)
    ++ codes " for 'ya!"
    ++ 10 ∷ []

-- PATCH /poke/address/length
unfoldable pub poke : Env → Text → State → ℕ × State
unfolding dec_int wrote_text printed codes
poke e url s =
    let (first, second, text) = two_numbers url in
    let address = to_int first in
    let len = to_int second in
    let s : State = record s { contents_type = codes "text/plain"; number_text = text } in
    printed (print_output (wrote_text e address len) (copy_in e address len s))

-- peekPokeHandler()
unfoldable pub handler : Env → Command → State → ℕ × State
unfolding codes
handler e get s =
    let url = c_string (url_bytes e s) in
    if has_prefix (codes "/hello") url
    then hello e s
    else if has_prefix (codes "/peek/") url
    then peek e url s
    else (0, s)
handler e patch s =
    let url = c_string (url_bytes e s) in
    if has_prefix (codes "/poke/") url then poke e url s else (0, s)
handler e _ s = (0, s)
