-- ===== src/Ftp/Files/Retrieving.antt =====
-- prvRetrieveFilePrep() and prvRetrieveFileWork() in protocols/FTP/FreeRTOS_FTP_server.c.
use free_rtos_demos_cheri_ri.Prelude.{
  ℕ, zero, suc, ◌+◌, ◌-◌, ◌%◌, ◌^◌, min, ℤ, pos, negsuc, is_neg, Bool, true, false, Text, codes,
  List, [], ◌∷◌, ◌++◌, ◌==◌, ltb, if◌then◌else◌, none, some, length, snprintf, dec, to_u32,
}
use free_rtos_demos_cheri_ri.Ftp.Commands.{crlf, repl_226, repl_450}
use free_rtos_demos_cheri_ri.Ftp.World.{
  Received, failed, bytes, Socket, Handle, rb, Event, close_after_send, select_write,
  select_write_except, Env, M, ◌>>=◌, ◌>>◌, branch◌then◌else◌, pure, gets, asks, modify, emit, when,
}
use free_rtos_demos_cheri_ri.Ftp.Path.{max_filename, buffer_size, make_absolute}
use free_rtos_demos_cheri_ri.Ftp.Parse.{tmode_ascii}
use free_rtos_demos_cheri_ri.Ftp.Transfer.{
  ack_size, send_reply, send_formatted, transfer_close_file,
}
use free_rtos_demos_cheri_ri.Ftp.Transfer.Connection.{transfer_start, dotted}
use free_rtos_demos_cheri_ri.Ftp.Files.{open_file, seek_or_close}

unfoldable pub finish_seek : Bool → ℕ → M Bool
finish_seek true size = do
  modify (λ c. record c { bytes_left = size - c.restart_offset })
  pure true
finish_seek false size = do modify (λ c. record c { read_handle = none }); pure false

-- The restart of a retrieval. The offset is cleared before it is used for the byte count.
unfoldable pub seek_to_restart : ℕ → M Bool
seek_to_restart h = do
  offset ← gets (λ c. c.restart_offset)
  size ← asks (λ e t. e.open_size t h)
  branch offset == 0 then pure true else do
    modify (λ c. record c { restart_offset = 0 })
    ok ← seek_or_close h (ltb offset size) offset size
    finish_seek ok size

unfoldable pub open_for_retrieve : Handle → M Bool
open_for_retrieve none = do socket ← gets (λ c. c.socket); send_reply socket repl_450 0; pure false
open_for_retrieve (some h) = do
  size ← asks (λ e t. e.open_size t h)
  modify (λ c. record c { read_handle = some h; bytes_left = size })
  seek_to_restart h

ascii_note : Text
unfolding codes crlf
ascii_note = codes "150 NOTE: ASCII mode requested, but binary mode used" ++ crlf

-- pxClient->xTransType == TMODE_ASCII
retrieve_text : Bool → Text → Text
unfolding codes crlf ascii_note
retrieve_text ascii middle =
    codes "150"
    ++ (if ascii then b'-' else b' ') ∷ middle
    ++ crlf
    ++ (if ascii then ascii_note else [])

unfoldable pub announce_retrieve : M (Unit {0})
unfolding codes dotted dec retrieve_text
announce_retrieve = do
  listening ← gets (λ c. c.is_listen)
  ascii ← gets (λ c. c.trans_type == tmode_ascii)
  ip ← gets (λ c. c.client_ip)
  port ← gets (λ c. c.client_port)
  branch listening
      then modify (λ c. record c {
        connection_ack =
            snprintf ack_size (retrieve_text ascii (codes "Accepted data connection from %xip:%u"));
      })
      else (do
        send_formatted (
            retrieve_text ascii
              (codes "Opening data connection to " ++ dotted ip ++ b':' ∷ dec port))
        modify (λ c. record c { connection_ack = [] })
        transfer_start
        pure tt)

unfoldable pub size_of : Handle → Env → List Event → ℕ
size_of none e t = 0
size_of (some h) e t = e.open_size t h

unfoldable pub retrieve_file_prep : Text → M Bool
unfolding size_of
retrieve_file_prep name = do
  transfer_close_file
  modify (λ c. record c { file_name = make_absolute c max_filename name })
  handle ← open_file rb
  modify (λ c. record c { read_handle = handle })
  size ← asks (size_of handle)
  ok ← open_for_retrieve handle
  when ok (do
    announce_retrieve
    modify (λ c. record c { client_ack = snprintf ack_size repl_226 })
    now ← asks (λ e t. e.tick_count t)
    modify (λ c. record c { start_time = now })
    socket ← gets (λ c. c.transfer_socket)
    when (size == 0) (emit (Event.shutdown socket)))
  pure ok

-- One round of the loop of prvRetrieveFileWork(), from the result of the last call: leave, or go on.
pub data Round : Type 0 where
  again : ℤ → Round
  leave : ℤ → Round

-- The space in the socket; if there is none, after a wait by select().
unfoldable pub wait_for_space : Socket → ℤ → M (ℤ × ℕ)
wait_for_space socket rc = do
  space ← asks (λ e t. e.tx_space t socket)
  branch space == 0
      then (do
        emit (Event.fd_set socket select_write_except)
        rc2 ← asks (λ e t. e.select t)
        emit Event.select
        space2 ← asks (λ e t. e.tx_space t socket)
        pure (rc2, space2))
      else pure (rc, space)

-- The end of a round, when `block` has been read from the file.
unfoldable pub send_block : Socket → Text → M Round
send_block socket block = do
  modify (λ c. record c { bytes_left = c.bytes_left - length block })
  left ← gets (λ c. c.bytes_left)
  when (left == 0) (emit (Event.set_option socket close_after_send))
  rc ← asks (λ e t. e.send t socket block (length block))
  emit (Event.send socket block (length block))
  branch is_neg rc then pure (leave rc) else do
    modify (λ c. record c { recv_bytes = (c.recv_bytes + to_u32 rc) % 2 ^ 32 })
    pure (if left == 0 then leave rc else again rc)

-- A block of `count` bytes from the file to the socket.
unfoldable pub copy_block : Socket → Handle → ℕ → M Round
copy_block socket handle count = do
  block ← asks (λ e t. e.fread t handle count)
  emit (Event.fread handle count)
  branch length block == count then send_block socket block else do
    rc ← asks (λ e t. e.shutdown t socket)
    emit (Event.shutdown socket)
    modify (λ c. record c { bytes_left = 0 })
    pure (leave rc)

-- FreeRTOS_min_uint32( uxBytesLeft, uxSpace ), and not more than pcFILE_BUFFER holds
unfoldable pub block_size : ℕ → ℕ → ℕ
block_size left space = min buffer_size (min (left % 2 ^ 32) (space % 2 ^ 32))

unfoldable pub retrieve_round : ℤ → M Round
unfolding block_size
retrieve_round rc = do
  socket ← gets (λ c. c.transfer_socket)
  handle ← gets (λ c. c.read_handle)
  (rc2, space) ← wait_for_space socket rc
  left ← gets (λ c. c.bytes_left)
  branch block_size left space == 0
      then pure (leave rc2)
      else copy_block socket handle (block_size left space)

-- `break`, or the next round
unfoldable pub next_round : (ℤ → M Round) → Round → M Round
next_round rest (leave last) = pure (leave last)
next_round rest (again last) = rest last

-- The loop, on fuel; `again` is the answer of a loop that ran out of it.
unfoldable pub retrieve_loop : ℕ → ℤ → M Round
unfolding next_round
retrieve_loop zero rc = pure (again rc)
retrieve_loop (suc fuel) rc = retrieve_round rc >>= next_round (retrieve_loop fuel)

unfoldable pub round_rc : Round → ℤ
round_rc (again rc) = rc
round_rc (leave rc) = rc

unfoldable pub received_rc : Received → ℤ
received_rc (failed n) = negsuc n
received_rc (bytes s) = pos (length s)

-- The five reads that wait for the other side to close.
unfoldable pub wait_for_close : ℕ → Socket → ℤ → M ℤ
unfolding received_rc
wait_for_close zero socket rc = pure rc
wait_for_close (suc n) socket rc = do
  rc2 ← asks (λ e t. received_rc (e.recv t socket))
  emit (Event.recv socket)
  let more = wait_for_close n socket rc2
  branch is_neg rc2 then pure rc2 else more

unfoldable pub retrieve_file_work : M ℤ
unfolding round_rc
retrieve_file_work = do
  left ← gets (λ c. c.bytes_left)
  last ← retrieve_loop (left + 1) (pos 0)
  socket ← gets (λ c. c.transfer_socket)
  left2 ← gets (λ c. c.bytes_left)
  let rc = round_rc last
  branch is_neg rc
      then (do emit (Event.fd_clr socket select_write); pure rc)
      else branch left2 == 0
      then (do rc2 ← wait_for_close 5 socket rc; emit (Event.fd_clr socket select_write); pure rc2)
      else (do emit (Event.fd_set socket select_write); pure rc)
