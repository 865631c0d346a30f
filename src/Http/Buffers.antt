-- ===== src/Http/Buffers.antt =====
-- The buffers of the HTTP service: what it passes to FreeRTOS_send(), and what holds between requests.
pub mod Replies
use free_rtos_demos_cheri_ri.Prelude.{
  overlay, ℕ, zero, suc, ◌+◌, ◌-◌, ◌≤◌, ◌<◌, ◌≡◌, refl, ap, ◌∙◌, ℤ, is_zero, false, not, ◌&&◌,
  Bool-cases, inl, inr, Text, [], ◌∷◌, ◌++◌, ltb, Option, none, some, arith, codes, length, take,
  set, snprintf, length-append, length-take, length-set, length-snprintf, take_all, min, dec,
}
use free_rtos_demos_cheri_ri.Http.Commands.{
  Command, get, patch, unknown, command_name, all_commands, code_name, reply_ok, not_found,
}
use free_rtos_demos_cheri_ri.Http.World.{
  Received, Event, Trace, Env, State, c_string, url_bytes, read_memory,
}
use free_rtos_demos_cheri_ri.Http.Numbers.{low_bits, to_int, address_to_char_ptr}
use free_rtos_demos_cheri_ri.Http.PeekPoke.{
  output_size, two_numbers, copy_out, copy_in, peek, poke, hello, handler, print_output,
}
use free_rtos_demos_cheri_ri.Http.Work.{
  reply_text, contents_or_html, crlf, content_length, send_reply, send_body, reply_to, open_url,
  run_command, find_command, end_url, client_work, on_received, on_bytes, received, trim_end,
}
use free_rtos_demos_cheri_ri.Http.Memory.{length-read_memory}

pub length-overlay : (xs array : Text) → length (overlay xs array) ≡ length array
unfolding overlay
length-overlay [] array = refl
length-overlay (x ∷ xs) [] = refl
length-overlay (x ∷ xs) (y ∷ array) = ap suc (length-overlay xs array)

c_string_le : (s : Text) → length (c_string s) ≤ length s
unfolding c_string
c_string_le [] = omega arith
c_string_le (zero ∷ s) = omega arith
c_string_le (suc c ∷ s) = omega (arith, c_string_le s)

-- Each call of FreeRTOS_send() is given as many bytes as it is told.
unfoldable pub IsWhole : Trace → Type 0
IsWhole [] = Unit {0}
IsWhole (Event.recv ∷ t) = IsWhole t
IsWhole (Event.send text n ∷ t) = (length text ≡ n) × IsWhole t

-- What the state holds when the handler returns, with a result n: the arrays have their sizes, the
-- result is within the output buffer, and the strings within theirs.
unfoldable pub IsHandled : ℕ → ℕ → ℕ × State → Type 0
IsHandled size out (n, s) =
    (length s.command_buffer ≡ size)
    × (length s.current_filename ≡ out)
    × (n ≤ out)
    × (length s.contents_type < 40)
    × (s.extra_contents ≡ [])
    × IsWhole s.trace

-- Between two calls of the work function.
unfoldable pub IsIdle : ℕ → ℕ → State → Type 0
IsIdle size out s =
    (length s.command_buffer ≡ size)
    × (length s.current_filename ≡ out)
    × (s.contents_type ≡ [])
    × (s.extra_contents ≡ [])
    × IsWhole s.trace

-- The state after snprintf() to the output buffer.
print_output-IsHandled :
    (s : State) (text : Text) (size out : ℕ)
    → length s.command_buffer ≡ size
    → length s.current_filename ≡ out
    → length s.contents_type < 40
    → s.extra_contents ≡ []
    → IsWhole s.trace
    → IsHandled size out
        (length (c_string (print_output text s).current_filename), print_output text s)
unfolding IsHandled print_output
print_output-IsHandled s text size out a b c d w =
    let array = overlay (snprintf (output_size s) text ++ 0 ∷ []) s.current_filename in
    let k = length-overlay (snprintf (output_size s) text ++ 0 ∷ []) s.current_filename in
    (a, k ∙ b, omega (arith, c_string_le array, k, b), c, d, w)

copy_in_lem :
    (e : Env) (address len : ℤ) (s : State)
    → (memory : ℕ → ℕ) × (copy_in e address len s ≡ record s { memory = memory })
unfolding copy_in
copy_in_lem e address len s = elim (Bool-cases (not (is_zero address) && not (is_zero len))) [
  | inl y ↦ rw y (_, refl)
  | inr n ↦ rw n (s.memory, refl)
]

hello-IsHandled :
    (e : Env) (s : State) (size out : ℕ) → IsIdle size out s → IsHandled size out (hello e s)
unfolding IsIdle hello codes
hello-IsHandled e s size out (a, b, c, d, w) =
    print_output-IsHandled record s { contents_type = codes "text/plain" } _ size out a b
      (omega arith) d w

poke-IsHandled :
    (e : Env) (url : Text) (s : State) (size out : ℕ)
    → IsIdle size out s
    → IsHandled size out (poke e url s)
unfolding IsIdle poke codes
poke-IsHandled e url s size out (a, b, c, d, w) =
    let (first, second, text) = two_numbers url in
    let s1 : State = record s { contents_type = codes "text/plain"; number_text = text } in
    let (memory, k) = copy_in_lem e (to_int first) (to_int second) s1 in
    rw k (print_output-IsHandled record s1 { memory = memory } _ size out a b (omega arith) d w)

copy_out-IsHandled :
    (s : State) (address n size out : ℕ)
    → n ≤ output_size s
    → length s.command_buffer ≡ size
    → length s.current_filename ≡ out
    → length s.contents_type < 40
    → s.extra_contents ≡ []
    → IsWhole s.trace
    → IsHandled size out (copy_out address n s)
unfolding IsHandled copy_out output_size
copy_out-IsHandled s address n size out h a b c d w =
    let zeros = read_memory (λ i. 0) 0 (output_size s) in
    (
      a,
      length-overlay (read_memory s.memory address n) zeros
          ∙ length-read_memory (λ i. 0) 0 (output_size s)
          ∙ b,
      omega (arith, h, b),
      c,
      d,
      w,
    )

peek-IsHandled :
    (e : Env) (url : Text) (s : State) (size out : ℕ)
    → IsIdle size out s
    → IsHandled size out (peek e url s)
unfolding IsIdle IsHandled peek codes
peek-IsHandled e url s size out (a, b, c, d, w) =
    let (first, second, text) = two_numbers url in
    let s1 : State = record s {
      contents_type = codes "application/octet-stream";
      number_text = text;
    } in
    let n = low_bits e.size_bits second in
    let copied =
      copy_out-IsHandled s1 (address_to_char_ptr first) (min n (output_size s1)) size out
        (omega arith) a b (omega arith) d w in
    elim (Bool-cases (not (is_zero first) && ltb 0 n)) [
      | inl y ↦ rw y copied
      | inr m ↦ rw m (a, b, omega arith, omega arith, d, w)
    ]

pub handler-IsHandled :
    (e : Env) (command : Command) (s : State) (size out : ℕ)
    → IsIdle size out s
    → IsHandled size out (handler e command s)
unfolding IsIdle IsHandled handler
handler-IsHandled e get s size out i =
    let url = c_string (url_bytes e s) in
    let h = hello-IsHandled e s size out i in
    let p = peek-IsHandled e url s size out i in ground arith
handler-IsHandled e patch s size out i =
    let p = poke-IsHandled e (c_string (url_bytes e s)) s size out i in ground arith
handler-IsHandled e _ s size out (a, b, c, d, w) = (a, b, omega arith, rw c (omega arith), d, w)
