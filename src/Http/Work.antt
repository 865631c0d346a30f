-- ===== src/Http/Work.antt =====
-- prvSendReply(), prvOpenURL() and xHTTPClientWork() of protocols/HTTP/FreeRTOS_HTTP_server.c.
use free_rtos_demos_cheri_ri.Prelude.{
  overlay, ℕ, zero, suc, ◌+◌, ◌-◌, ℤ, pos, negsuc, is_pos, Bool, true, false, ◌||◌, Text, List, [],
  ◌∷◌, ◌++◌, ◌==◌, ltb, if◌then◌else◌, none, some, length, take, set, get_or, codes, has_prefix,
  snprintf, dec,
}
use free_rtos_demos_cheri_ri.Http.Commands.{
  Command, unknown, command_name, all_commands, code_name, reply_ok, not_found,
}
use free_rtos_demos_cheri_ri.Http.World.{Received, Event, Env, State}
use free_rtos_demos_cheri_ri.Http.PeekPoke.{handler}

unfoldable pub crlf : Text
crlf = 13 ∷ 10 ∷ []

-- sizeof( pcExtraContents )
extra_size : ℕ
extra_size = 40

unfoldable pub contents_or_html : Text → Text
unfolding codes
contents_or_html [] = codes "text/html"
contents_or_html (c ∷ s) = c ∷ s

-- The formatted reply
unfoldable pub reply_text : ℕ → Text → Text → Text
unfolding codes crlf contents_or_html
reply_text code contents extra =
    codes "HTTP/1.1 "
    ++ dec code
    ++ codes " "
    ++ code_name code
    ++ crlf
    ++ (codes "Content-Type: " ++ contents_or_html contents ++ crlf)
    ++ (codes "Connection: keep-alive" ++ crlf)
    ++ (extra ++ crlf)

-- prvSendReply(): the length passed on is what snprintf() returned, that of the whole text.
unfoldable pub send_reply : Env → ℕ → State → ℤ × State
send_reply e code s =
    let text = reply_text code s.contents_type s.extra_contents in
    let n = length text in
    let buffer = snprintf e.file_buffer_size text in
    (
      e.send s.trace buffer n,
      record s {
        contents_type = [];
        extra_contents = [];
        reply_sent = true;
        trace = Event.send buffer n ∷ s.trace;
      },
    )

unfoldable pub content_length : ℕ → Text
unfolding codes crlf extra_size
content_length n = snprintf extra_size (codes "Content-Length: " ++ dec n ++ crlf)

-- The second part of a successful reply, when the first was sent.
unfoldable pub send_body : Env → ℕ → ℤ × State → ℤ × State
send_body e n (rc, s) =
    let body = take n s.current_filename in
    if is_pos rc
    then (e.send s.trace body n, record s { trace = Event.send body n ∷ s.trace })
    else (rc, s)

unfoldable pub reply_to : Env → ℕ × State → ℤ × State
reply_to e (n, s) =
    if ltb 0 n
    then send_body e n (send_reply e reply_ok record s { extra_contents = content_length n })
    else send_reply e not_found s

-- prvOpenURL()
unfoldable pub open_url : Env → Command → State → ℤ × State
open_url e command s = reply_to e (handler e command record s { reply_sent = false })

-- The loop that takes off carriage returns and line feeds: the length left, and the buffer with
-- NULs in their place.
unfoldable pub trim_end : ℕ → Text → ℕ × Text
trim_end zero buffer = (0, buffer)
trim_end (suc n) buffer =
    let c = get_or buffer n 0 in
    let rest = trim_end n (set buffer n 0) in
    if (c == 13) || (c == 10) then rest else (suc n, buffer)

-- The search in the table.
unfoldable pub find_command : List Command → Text → Command
find_command [] line = unknown
find_command (c ∷ more) line =
    if has_prefix (command_name c) line then c else find_command more line

-- The end of the URL: NUL, or one of "\n\r \t"
unfoldable pub is_end : ℕ → Bool
is_end c = (c == 0) || ((c == 10) || ((c == 13) || ((c == 32) || (c == 9))))

-- The loop over pcLastPtr, with the number of bytes left up to pcEndOfCmd.
unfoldable pub end_url : ℕ → ℕ → State → State
end_url zero i s = s
end_url (suc n) i s =
    let rest = end_url n (i + 1) s in
    if is_end (get_or s.command_buffer i 0)
    then record s { command_buffer = set s.command_buffer i 0; rest_data = some (i + 1) }
    else rest

-- What follows the search; `unknown` is the index WEB_CMD_COUNT - 1, which answers nothing.
unfoldable pub run_command : Env → ℕ → Command → State → ℤ × State
run_command e n unknown s = (pos n, s)
run_command e n command s =
    let url = length (command_name command) + 1 in
    open_url e command (end_url (n - url) url record s { url_data = url })

-- pcBuffer after FreeRTOS_recv(), with a NUL behind the bytes if there is room
unfoldable pub received : Env → Text → Text → Text
received e bytes buffer =
    let got = overlay bytes buffer in
    if ltb (length bytes) e.command_buffer_size then set got (length bytes) 0 else got

unfoldable pub on_bytes : Env → ℕ × Text → State → ℤ × State
on_bytes e (n, buffer) s =
    run_command e n (find_command all_commands (take n buffer))
      record s { command_buffer = buffer; url_data = 0; rest_data = none }

unfoldable pub on_received : Env → Received → State → ℤ × State
on_received e (Received.failed n) s = (negsuc n, s)
on_received e (Received.bytes []) s = (pos 0, s)
on_received e (Received.bytes (c ∷ line)) s =
    on_bytes e (trim_end (length (c ∷ line)) (received e (c ∷ line) s.command_buffer)) s

-- xHTTPClientWork()
unfoldable pub client_work : Env → State → ℤ × State
client_work e s = on_received e (e.recv s.trace) record s { trace = Event.recv ∷ s.trace }
