-- ===== src/Http/Memory.antt =====
-- What a request does to the memory, and what it sends of it.
use free_rtos_demos_cheri_ri.Prelude.{
  overlay, ℕ, zero, suc, ◌+◌, ◌%◌, ◌^◌, ◌<◌, ◌≤◌, ◌≡◌, refl, ap, ◌∙◌, sym, pos, is_zero, is_pos,
  true, false, Text, [], ◌∷◌, ◌++◌, ltb, some, dec, arith, min, codes, length, take, snprintf,
  has_prefix,
}
use native.Mathlib.Nat.{mod-eq_of_lt}
use free_rtos_demos_cheri_ri.Http.Commands.{get, patch, reply_ok}
use free_rtos_demos_cheri_ri.Http.World.{Event, Env, State, c_string, url_bytes, read_memory}
use free_rtos_demos_cheri_ri.Http.Numbers.{low_bits, address_to_char_ptr}
use free_rtos_demos_cheri_ri.Http.PeekPoke.{output_size, two_numbers, copy_out, peek, poke, handler}
use free_rtos_demos_cheri_ri.Http.Work.{
  reply_text, send_reply, content_length, send_body, reply_to, open_url,
}
use free_rtos_demos_cheri_ri.Http.Reading.{get_next_number-dec}

-- The URL of a request, "/peek/" or "/poke/" and two decimal numbers
unfoldable pub url_text : Text → ℕ → ℕ → Text
url_text what a n = what ++ (dec a ++ (b'/' ∷ dec n))

pub two_numbers-url_text :
    (x1 x2 x3 x4 x5 x6 a n : ℕ)
    → 0 < a
    → a < 2 ^ 63
    → 0 < n
    → n < 2 ^ 63
    → two_numbers (url_text (x1 ∷ x2 ∷ x3 ∷ x4 ∷ x5 ∷ x6 ∷ []) a n) ≡ (pos a, pos n, some [])
unfolding two_numbers url_text
two_numbers-url_text x1 x2 x3 x4 x5 x6 a n p q r t =
    let (e, f) = get_next_number-dec a n p q r t in rw (e, f) refl

pub length-read_memory : (m : ℕ → ℕ) (a n : ℕ) → length (read_memory m a n) ≡ n
unfolding read_memory
length-read_memory m a zero = refl
length-read_memory m a (suc n) = ap suc (length-read_memory m (a + 1) n)

-- The first bytes of an array are those that were copied to it.
take-overlay :
    (xs array : Text) → length xs ≤ length array → take (length xs) (overlay xs array) ≡ xs
unfolding overlay
take-overlay [] array h = refl
take-overlay (x ∷ xs) [] h = absurd (omega (arith, h))
take-overlay (x ∷ xs) (y ∷ array) h = ap (λ l. x ∷ l) (take-overlay xs array (omega (arith, h)))

take-copied :
    (m z : ℕ → ℕ) (a n size : ℕ)
    → n ≤ size
    → take n (overlay (read_memory m a n) (read_memory z 0 size)) ≡ read_memory m a n
take-copied m z a n size h =
    let e = length-read_memory m a n in
    ap (λ k. take k (overlay (read_memory m a n) (read_memory z 0 size))) (sym e)
    ∙ take-overlay (read_memory m a n) (read_memory z 0 size)
        (omega (arith, e, length-read_memory z 0 size, h))

-- The head of the answer to a request for memory, and what of it fits the buffer.
unfoldable pub peek_head : ℕ → Text
unfolding codes
peek_head m = reply_text reply_ok (codes "application/octet-stream") (content_length m)

unfoldable pub peek_sent : Env → ℕ → Text
peek_sent e m = snprintf e.file_buffer_size (peek_head m)

peek-url_text :
    (e : Env) (s : State) (a n : ℕ)
    → 0 < a
    → a < 2 ^ 32
    → 0 < n
    → n < 2 ^ 63
    → n < 2 ^ e.size_bits
    → peek e (url_text (codes "/peek/") a n) s
      ≡ copy_out a
          (min n (output_size s))
          record s { contents_type = codes "application/octet-stream"; number_text = some [] }
unfolding peek codes low_bits output_size address_to_char_ptr
peek-url_text e s a n p q r t w =
    let z : is_zero (pos a) ≡ false = ground arith in
    let b : n % 2 ^ e.size_bits ≡ n = mod-eq_of_lt w in
    let c : a % 2 ^ 32 ≡ a = omega (arith, q) in
    let d : ltb 0 n ≡ true = ground arith in
    rw (two_numbers-url_text 47 112 101 101 107 47 a n p (omega (arith, q)) r t)
      (rw (z, b, d, c) refl)

handler-peek :
    (e : Env) (s : State) (url : Text)
    → c_string (url_bytes e s) ≡ codes "/peek/" ++ url
    → handler e get s ≡ peek e (codes "/peek/" ++ url) s
unfolding handler codes has_prefix
handler-peek e s url u = rw u refl

pub handler-poke :
    (e : Env) (s : State) (url : Text)
    → c_string (url_bytes e s) ≡ codes "/poke/" ++ url
    → handler e patch s ≡ poke e (codes "/poke/" ++ url) s
unfolding handler codes has_prefix
handler-poke e s url u = rw u refl

-- GET of /peek/a/n, both numbers printed in decimal, with a from 1 to 2 ^ 32 - 1 and n from 1 to
-- 2 ^ 63 - 1 and within size_t, in any state of the client and the server: when the head of the
-- reply was sent, the body is sent after it, which is the content of the memory from a on, n bytes or
-- as many as the output buffer has (at least one); the memory stays as it is.
pub open_url-peek :
    (e : Env) (s : State) (a n : ℕ)
    → c_string (url_bytes e s) ≡ url_text (codes "/peek/") a n
    → 0 < a
    → a < 2 ^ 32
    → 0 < n
    → n < 2 ^ 63
    → n < 2 ^ e.size_bits
    → 0 < output_size s
    → is_pos (
        e.send s.trace
          (peek_sent e (min n (output_size s)))
          (length (peek_head (min n (output_size s)))))
      ≡ true
    → ((open_url e get s).1.trace
        ≡ Event.send (read_memory s.memory a (min n (output_size s))) (min n (output_size s))
          ∷ (Event.send
                (peek_sent e (min n (output_size s)))
                (length (peek_head (min n (output_size s))))
              ∷ s.trace))
      × ((open_url e get s).1.memory ≡ s.memory)
unfolding open_url url_text codes url_bytes reply_to send_reply send_body copy_out peek_sent
    peek_head output_size
open_url-peek e s a n u p q r t w v k =
    let s0 : State = record s { reply_sent = false } in
    let h = handler-peek e s0 (dec a ++ (b'/' ∷ dec n)) u ∙ peek-url_text e s0 a n p q r t w in
    let d : ltb 0 (min n (output_size s)) ≡ true = ground arith in
    let sent =
      Event.send (peek_sent e (min n (output_size s)))
        (length (peek_head (min n (output_size s)))) in
    let copied =
      take-copied s.memory (λ i. 0) a (min n (output_size s)) (output_size s) (omega arith) in
    rw (h, d, k) (ap (λ b. Event.send b (min n (output_size s)) ∷ sent ∷ s.trace) copied, refl)
