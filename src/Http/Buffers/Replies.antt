-- ===== src/Http/Buffers/Replies.antt =====
-- The buffers after a reply and after a call of xHTTPClientWork(): they are ready for the next request.
use free_rtos_demos_cheri_ri.Prelude.{
  overlay, ℕ, zero, suc, ◌+◌, ◌-◌, ◌≤◌, ◌<◌, ◌≡◌, refl, ap, ◌∙◌, ℤ, false, Text, [], ◌∷◌, Option,
  none, some, arith, codes, length, take, set, snprintf, length-append, length-take, length-set,
  length-snprintf, take_all, dec,
}
use free_rtos_demos_cheri_ri.Http.Commands.{
  Command, unknown, command_name, all_commands, code_name, reply_ok, not_found,
}
use free_rtos_demos_cheri_ri.Http.World.{Received, Event, Env, State}
use free_rtos_demos_cheri_ri.Http.PeekPoke.{handler}
use free_rtos_demos_cheri_ri.Http.Work.{
  reply_text, contents_or_html, crlf, content_length, send_reply, send_body, reply_to, open_url,
  run_command, find_command, end_url, client_work, on_received, on_bytes, received, trim_end,
}
use free_rtos_demos_cheri_ri.Http.Buffers.{
  length-overlay, IsWhole, IsHandled, IsIdle, handler-IsHandled,
}

length-contents_or_html :
    (contents : Text) → length contents < 40 → length (contents_or_html contents) < 40
unfolding contents_or_html codes
length-contents_or_html [] h = omega arith
length-contents_or_html (c ∷ s) h = h

-- The parts of a reply
length-reply_text :
    (code : ℕ) (contents extra : Text)
    → length (reply_text code contents extra)
      ≡ length (dec code)
        + length (code_name code)
        + length (contents_or_html contents)
        + length extra
        + 54
unfolding reply_text codes crlf
length-reply_text code contents extra = simp length-append (omega arith)

-- A reply of at most 255 bytes
length-reply_ok : length (dec reply_ok) + length (code_name reply_ok) ≡ 5
unfolding dec code_name codes
length-reply_ok = refl

length-not_found : length (dec not_found) + length (code_name not_found) ≡ 12
unfolding dec code_name codes
length-not_found = refl

reply_fits :
    (e : Env) (code : ℕ) (s : State)
    → 256 ≤ e.file_buffer_size
    → length (dec code) + length (code_name code) ≤ 20
    → length s.contents_type < 40
    → length s.extra_contents < 40
    → length (snprintf e.file_buffer_size (reply_text code s.contents_type s.extra_contents))
      ≡ length (reply_text code s.contents_type s.extra_contents)
unfolding snprintf
reply_fits e code s f b h k = ap length (
    take_all (e.file_buffer_size - 1) (reply_text code s.contents_type s.extra_contents) (
      omega (
        arith,
        f,
        b,
        length-reply_text code s.contents_type s.extra_contents,
        length-contents_or_html s.contents_type h,
        k,
      )))

send_reply-IsIdle :
    (e : Env) (code : ℕ) (s : State) (size out : ℕ)
    → 256 ≤ e.file_buffer_size
    → length (dec code) + length (code_name code) ≤ 20
    → length s.command_buffer ≡ size
    → length s.current_filename ≡ out
    → length s.contents_type < 40
    → length s.extra_contents < 40
    → IsWhole s.trace
    → IsIdle size out (send_reply e code s).1
unfolding IsIdle IsWhole send_reply
send_reply-IsIdle e code s size out f k a b c d w =
    (a, b, refl, refl, (reply_fits e code s f k c d, w))

send_body-IsIdle :
    (e : Env) (n : ℕ) (r : ℤ × State) (size out : ℕ)
    → n ≤ out
    → IsIdle size out r.1
    → IsIdle size out (send_body e n r).1
unfolding IsIdle IsWhole send_body
send_body-IsIdle e n (rc, s) size out h (a, b, c, d, w) =
    let k : length (take n s.current_filename) ≡ n =
      omega (arith, length-take n s.current_filename, b, h) in
    ground arith

length-content_length : (n : ℕ) → length (content_length n) < 40
unfolding content_length
length-content_length n = length-snprintf 40 _ (omega arith)

reply_to-IsIdle :
    (e : Env) (r : ℕ × State) (size out : ℕ)
    → 256 ≤ e.file_buffer_size
    → IsHandled size out r
    → IsIdle size out (reply_to e r).1
unfolding IsHandled reply_to
reply_to-IsIdle e (n, s) size out f (a, b, h, c, d, w) =
    let s1 : State = record s { extra_contents = content_length n } in
    let x : length s.extra_contents < 40 = omega (arith, ap length d) in
    let yes = send_body-IsIdle e n (send_reply e reply_ok s1) size out h (
      send_reply-IsIdle e reply_ok s1 size out f (omega (arith, length-reply_ok)) a b c
        (length-content_length n) w) in
    let no =
      send_reply-IsIdle e not_found s size out f (omega (arith, length-not_found)) a b c x w in
    ground arith

set_command-IsIdle :
    (s : State) (buffer : Text) (url : ℕ) (rest : Option ℕ) (size out : ℕ)
    → length buffer ≡ length s.command_buffer
    → IsIdle size out s
    → IsIdle size out record s { command_buffer = buffer; url_data = url; rest_data = rest }
unfolding IsIdle
set_command-IsIdle s buffer url rest size out k (a, b, c, d, w) = (k ∙ a, b, c, d, w)

end_url-IsIdle :
    (n i : ℕ) (s : State) (size out : ℕ) → IsIdle size out s → IsIdle size out (end_url n i s)
unfolding end_url
end_url-IsIdle zero i s size out h = h
end_url-IsIdle (suc n) i s size out h =
    let rest = end_url-IsIdle n (i + 1) s size out h in
    let k = length-set s.command_buffer i 0 in
    let cut =
      set_command-IsIdle s (set s.command_buffer i 0) s.url_data (some (i + 1)) size out k h in
    ground arith

length-trim_end : (n : ℕ) (buffer : Text) → length (trim_end n buffer).1 ≡ length buffer
unfolding trim_end
length-trim_end zero buffer = refl
length-trim_end (suc n) buffer =
    let k = length-trim_end n (set buffer n 0) ∙ length-set buffer n 0 in ground arith

length-received : (e : Env) (bytes buffer : Text) → length (received e bytes buffer) ≡ length buffer
unfolding received
length-received e bytes buffer =
    let k = length-overlay bytes buffer in
    let m = length-set (overlay bytes buffer) (length bytes) 0 ∙ k in ground arith

open_url-IsIdle :
    (e : Env) (command : Command) (s : State) (size out : ℕ)
    → 256 ≤ e.file_buffer_size
    → IsIdle size out s
    → IsIdle size out (open_url e command s).1
unfolding open_url IsIdle
open_url-IsIdle e command s size out f h =
    let s0 : State = record s { reply_sent = false } in
    reply_to-IsIdle e (handler e command s0) size out f (handler-IsHandled e command s0 size out h)

run_command-IsIdle :
    (e : Env) (n : ℕ) (command : Command) (s : State) (size out : ℕ)
    → 256 ≤ e.file_buffer_size
    → IsIdle size out s
    → IsIdle size out (run_command e n command s).1
unfolding run_command
run_command-IsIdle e n unknown s size out f h = h
run_command-IsIdle e n command s size out f h =
    let url = length (command_name command) + 1 in
    let s1 : State = record s { url_data = url } in
    let s2 = end_url (n - url) url s1 in
    open_url-IsIdle e command (end_url (n - url) url s1) size out f (
      end_url-IsIdle (n - url) url s1 size out
        (set_command-IsIdle s s.command_buffer url s.rest_data size out refl h))

on_received-IsIdle :
    (e : Env) (r : Received) (s : State) (size out : ℕ)
    → 256 ≤ e.file_buffer_size
    → IsIdle size out s
    → IsIdle size out (on_received e r s).1
unfolding on_received on_bytes
on_received-IsIdle e (Received.failed n) s size out f h = h
on_received-IsIdle e (Received.bytes []) s size out f h = h
on_received-IsIdle e (Received.bytes (c ∷ line)) s size out f h =
    let got = received e (c ∷ line) s.command_buffer in
    let k =
      length-trim_end (length (c ∷ line)) got ∙ length-received e (c ∷ line) s.command_buffer in
    let (n, buffer) = trim_end (length (c ∷ line)) got in
    run_command-IsIdle e n (find_command all_commands (take n buffer))
      record s { command_buffer = buffer; url_data = 0; rest_data = none } size out f
      (set_command-IsIdle s buffer 0 none size out k h)

-- What holds between two calls of xHTTPClientWork() holds after a call, whatever the socket delivers
-- and whatever the request is, with a file buffer of at least 256 bytes: the command buffer and the
-- output buffer have their sizes, no content type and no extra header is left over for the next
-- reply, and each FreeRTOS_send() so far was given as many bytes as it was told to send.
pub client_work-IsIdle :
    (e : Env) (s : State) (size out : ℕ)
    → 256 ≤ e.file_buffer_size
    → IsIdle size out s
    → IsIdle size out (client_work e s).1
unfolding client_work IsIdle IsWhole
client_work-IsIdle e s size out f h =
    on_received-IsIdle e (e.recv s.trace) record s { trace = Event.recv ∷ s.trace } size out f h
