-- ===== src/Http/Poke.antt =====
-- The memory after a request: what PATCH writes to it, and that no other method writes.
use free_rtos_demos_cheri_ri.Prelude.{
  ℕ, zero, suc, ◌+◌, ◌-◌, ◌%◌, ◌^◌, ◌<◌, ◌≡◌, ◌≢◌, refl, ap, ◌∙◌, pos, is_zero, false, Text, [],
  ◌∷◌, ◌++◌, none, some, dec, arith, codes, length, take,
}
use native.Mathlib.Nat.{mod-eq_of_lt}
use free_rtos_demos_cheri_ri.Http.Commands.{
  Command, get, patch, unknown, all_commands, command_name,
}
use free_rtos_demos_cheri_ri.Http.World.{
  Received, Event, Env, State, c_string, url_bytes, rest_bytes,
}
use free_rtos_demos_cheri_ri.Http.Numbers.{low_bits, to_int, address_to_char_ptr}
use free_rtos_demos_cheri_ri.Http.PeekPoke.{
  copy_out, copy_in, write_memory, peek, poke, hello, handler, print_output,
}
use free_rtos_demos_cheri_ri.Http.Work.{
  send_reply, send_body, reply_to, open_url, run_command, find_command, end_url, client_work,
  on_received, on_bytes, received, trim_end,
}
use free_rtos_demos_cheri_ri.Http.Memory.{url_text, two_numbers-url_text, handler-poke}

to_int-address : (a : ℕ) → a < 2 ^ 32 → address_to_char_ptr (to_int (pos a)) ≡ a
unfolding address_to_char_ptr to_int low_bits
to_int-address a h = ground arith

is_zero-to_int : (a : ℕ) → 0 < a → a < 2 ^ 32 → is_zero (to_int (pos a)) ≡ false
unfolding to_int low_bits
is_zero-to_int a p h = ground arith

to_int_small : (n : ℕ) → n < 2 ^ 31 → to_int (pos n) ≡ pos n
unfolding to_int low_bits
to_int_small n h = ground arith

reply_to-memory : (e : Env) (r : ℕ × State) → (reply_to e r).1.memory ≡ r.1.memory
unfolding reply_to send_reply send_body
reply_to-memory e r = ground arith

copy_in-numbers :
    (e : Env) (s : State) (a n : ℕ)
    → 0 < a
    → a < 2 ^ 32
    → 0 < n
    → n < 2 ^ 31
    → n < 2 ^ e.size_bits
    → (copy_in e (to_int (pos a)) (to_int (pos n)) s).memory
      ≡ write_memory s.memory a (rest_bytes e s) n
unfolding copy_in low_bits
copy_in-numbers e s a n p q r t w =
    let z : is_zero (pos n) ≡ false = ground arith in
    let b : n % 2 ^ e.size_bits ≡ n = mod-eq_of_lt w in
    rw (is_zero-to_int a p q, to_int_small n t, to_int-address a q) (rw (z, b) refl)

poke-memory :
    (e : Env) (s : State) (a n : ℕ)
    → 0 < a
    → a < 2 ^ 32
    → 0 < n
    → n < 2 ^ 31
    → n < 2 ^ e.size_bits
    → (poke e (url_text (codes "/poke/") a n) s).1.memory
      ≡ write_memory s.memory a (rest_bytes e s) n
unfolding poke print_output codes rest_bytes
poke-memory e s a n p q r t w =
    let k =
      two_numbers-url_text 47 112 111 107 101 47 a n p (omega (arith, q)) r (omega (arith, t)) in
    let s1 : State = record s { contents_type = codes "text/plain"; number_text = some [] } in
    rw k (copy_in-numbers e s1 a n p q r t w)

-- PATCH of /poke/a/n, both numbers printed in decimal, with a from 1 to 2 ^ 32 - 1 and n from 1 to
-- 2 ^ 31 - 1 and within size_t, in any state: afterwards the n bytes of memory from a on are those
-- that stand at pcRestData, and all other bytes of the memory are as they were.
pub open_url-poke :
    (e : Env) (s : State) (a n : ℕ)
    → c_string (url_bytes e s) ≡ url_text (codes "/poke/") a n
    → 0 < a
    → a < 2 ^ 32
    → 0 < n
    → n < 2 ^ 31
    → n < 2 ^ e.size_bits
    → (open_url e patch s).1.memory ≡ write_memory s.memory a (rest_bytes e s) n
unfolding open_url url_text url_bytes rest_bytes
open_url-poke e s a n u p q r t w =
    let s0 : State = record s { reply_sent = false } in
    reply_to-memory e (handler e patch s0)
    ∙ ap (λ x. x.1.memory) (handler-poke e s0 (dec a ++ (b'/' ∷ dec n)) u)
    ∙ poke-memory e s0 a n p q r t w

peek-memory : (e : Env) (url : Text) (s : State) → (peek e url s).1.memory ≡ s.memory
unfolding peek copy_out
peek-memory e url s = ground arith

handler-memory :
    (e : Env) (command : Command) (s : State)
    → command ≢ patch
    → (handler e command s).1.memory ≡ s.memory
unfolding handler hello print_output
handler-memory e patch s h = absurd (h refl)
handler-memory e get s h = let k = peek-memory e (c_string (url_bytes e s)) s in ground arith
handler-memory e _ s h = refl

end_url-memory : (n i : ℕ) (s : State) → (end_url n i s).memory ≡ s.memory
unfolding end_url
end_url-memory zero i s = refl
end_url-memory (suc n) i s = let k = end_url-memory n (i + 1) s in ground arith

-- The method of a request, as the search in the table finds it in the line.
unfoldable pub method : ℕ × Text → Command
method (n, buffer) = find_command all_commands (take n buffer)

unfoldable pub method_of : Env → State → Received → Command
method_of e s (Received.failed n) = unknown
method_of e s (Received.bytes line) =
    method (trim_end (length line) (received e line s.command_buffer))

open_url-memory :
    (e : Env) (command : Command) (s : State)
    → command ≢ patch
    → (open_url e command s).1.memory ≡ s.memory
unfolding open_url
open_url-memory e command s h =
    let s0 : State = record s { reply_sent = false } in
    reply_to-memory e (handler e command s0) ∙ handler-memory e command s0 h

run_command-memory :
    (e : Env) (n : ℕ) (command : Command) (s : State)
    → command ≢ patch
    → (run_command e n command s).1.memory ≡ s.memory
unfolding run_command
run_command-memory e n unknown s h = refl
run_command-memory e n command s h =
    let url = length (command_name command) + 1 in
    let s1 : State = record s { url_data = url } in
    open_url-memory e command (end_url (n - url) url s1) h ∙ end_url-memory (n - url) url s1

on_received-memory :
    (e : Env) (r : Received) (s : State)
    → method_of e s r ≢ patch
    → (on_received e r s).1.memory ≡ s.memory
unfolding on_received on_bytes method_of method
on_received-memory e (Received.failed n) s h = refl
on_received-memory e (Received.bytes []) s h = refl
on_received-memory e (Received.bytes (c ∷ line)) s h =
    let (n, buffer) = trim_end (length (c ∷ line)) (received e (c ∷ line) s.command_buffer) in
    run_command-memory e n (find_command all_commands (take n buffer))
      record s { command_buffer = buffer; url_data = 0; rest_data = none } h

-- xHTTPClientWork() writes to the memory only for the method PATCH: in any state, for whatever the
-- socket delivers, a request of another method, an empty one and a failed one leave it as it is.
pub client_work-memory :
    (e : Env) (s : State)
    → method_of e s (e.recv s.trace) ≢ patch
    → (client_work e s).1.memory ≡ s.memory
unfolding client_work method_of
client_work-memory e s h =
    on_received-memory e (e.recv s.trace) record s { trace = Event.recv ∷ s.trace } h
