-- ===== src/Ftp/Transfer.antt =====
-- The data connection: prvSendReply(), prvTransferCloseSocket(), prvTransferCloseFile() and
-- prvStoreFileWork() in protocols/FTP/FreeRTOS_FTP_server.c, with ipconfigFTP_ZERO_COPY_ALIGNED_WRITES and the hooks off.
-- Logging is left out: it changes neither the client nor what is sent.
pub mod Connection
use free_rtos_demos_cheri_ri.Prelude.{
  ℕ, zero, suc, has_prefix, ◌/◌, ◌+◌, ◌-◌, ◌%◌, ◌^◌, ℤ, pos, negsuc, is_neg, is_pos, is_zero,
  exceeds, Bool, true, false, not, ◌&&◌, ◌||◌, Text, codes, List, [], ◌∷◌, ◌++◌, ◌==◌, ltb,
  if◌then◌else◌, none, some, is_some, length, snprintf, dec,
}
use free_rtos_demos_cheri_ri.Ftp.Commands.{crlf}
use free_rtos_demos_cheri_ri.Ftp.World.{
  Socket, Handle, SocketResult, Event, select_all, select_write, select_read_except,
  select_read_write_except, rcv_timeout, snd_timeout, reuse_listen_socket, Client, M, ◌>>=◌, ◌>>◌,
  branch◌then◌else◌, pure, gets, asks, modify, emit, when,
}
use free_rtos_demos_cheri_ri.Ftp.Path.{buffer_size}

-- `pxClient->pc..Ack`
abbrev pub ack_size : ℕ
ack_size = 128

-- prvSendReply(): the length 0 stands for strlen().
unfoldable pub send_reply : Socket → Text → ℕ → M ℤ
send_reply socket buffer len = do
  let n = if len == 0 then length buffer else len
  rc ← asks (λ e t. e.send t socket buffer n)
  emit (Event.send socket buffer n)
  pure rc

-- snprintf() into the command buffer, and prvSendReply() of it with the result for a length.
unfoldable pub send_formatted : Text → M ℤ
unfolding snprintf
send_formatted text = do
  socket ← gets (λ c. c.socket)
  send_reply socket (snprintf buffer_size text) (length text)

-- "%d" of a uint32_t cast to int
unfoldable pub dec_i32 : ℕ → Text
unfolding dec
dec_i32 n = if ltb n (2 ^ 31) then dec n else b'-' ∷ dec (2 ^ 32 - n)

-- xWritten == xRc
unfoldable pub all_written : ℕ → ℤ → Bool
all_written n (pos k) = k == n
all_written n (negsuc k) = false

-- One round of the loop of prvStoreFileWork() with `chunk` received; `rest` is the next round.
unfoldable pub store_chunk : Socket → Handle → Text → M ℤ → M ℤ
unfolding all_written
store_chunk socket handle chunk rest = do
  emit (Event.recv socket)
  modify (λ c. record c { recv_bytes = (c.recv_bytes + length chunk) % 2 ^ 32 })
  written ← asks (λ e t. e.fwrite t handle chunk)
  emit (Event.fwrite handle chunk)
  emit (Event.recv_done socket (length chunk))
  branch all_written (length chunk) written
      then rest
      else (do modify (λ c. record c { had_error = true }); pure (negsuc 0))

-- The loop over what the socket delivers; a result that is not positive ends it.
unfoldable pub store_chunks : Socket → Handle → List Text → ℤ → M ℤ
store_chunks socket handle [] last = do emit (Event.recv socket); pure last
store_chunks socket handle ([] ∷ more) last = do emit (Event.recv socket); pure (pos 0)
store_chunks socket handle ((b ∷ bs) ∷ more) last =
    store_chunk socket handle (b ∷ bs) (store_chunks socket handle more last)

unfoldable pub store_file_work : M ℤ
store_file_work = do
  socket ← gets (λ c. c.transfer_socket)
  handle ← gets (λ c. c.write_handle)
  burst ← asks (λ e t. e.rx_burst t socket)
  store_chunks socket handle burst.chunks burst.last

-- The first block of prvTransferCloseSocket(): true is its early return.
unfoldable pub drain_socket : Socket → M Bool
drain_socket none = pure false
drain_socket (some k) = do
  rx_size ← asks (λ e t. e.rx_size t (some k))
  branch is_pos rx_size
      then (do
        store_file_work
        rx_size2 ← asks (λ e t. e.rx_size t (some k))
        pure (exceeds 1 rx_size2))
      else pure false

unfoldable pub closing_ack : Client → Text
unfolding codes dec_i32 crlf
closing_ack c =
    if c.had_error
    then codes "451 Requested action aborted after "
      ++ dec_i32 c.recv_bytes
      ++ codes " bytes"
      ++ crlf
    else codes "226 Closing connection "
      ++ dec_i32 c.recv_bytes
      ++ codes " bytes transmitted"
      ++ crlf

-- The reply that tells of the end of a file transfer.
unfoldable pub acknowledge_close : M (Unit {0})
unfolding closing_ack snprintf
acknowledge_close = do
  busy ← gets (λ c. is_some c.write_handle || is_some c.read_handle)
  when busy (do
    ack ← gets closing_ack
    modify (λ c. record c { client_ack = snprintf ack_size ack })
    socket ← gets (λ c. c.socket)
    send_reply socket (snprintf ack_size ack) (length ack)
    pure tt)

unfoldable pub release_socket : Socket → M (Unit {0})
release_socket none = pure tt
release_socket (some k) = do
  emit (Event.fd_clr (some k) select_all)
  emit (Event.close_socket (some k))
  modify (λ c. record c { transfer_socket = none; empty_file = c.recv_bytes == 0 })

unfoldable pub transfer_close_socket : M (Unit {0})
transfer_close_socket = do
  socket ← gets (λ c. c.transfer_socket)
  stop ← drain_socket socket
  branch stop then pure tt else do
    acknowledge_close
    release_socket socket
    modify (λ c. record c {
      is_listen = false;
      dir_has_entry = false;
      client_connected = false;
      had_error = false;
    })

-- ff_fclose() of a handle that is not NULL
unfoldable pub close_handle : Handle → M (Unit {0})
close_handle none = pure tt
close_handle (some h) = emit (Event.fclose (some h))

unfoldable pub transfer_close_file : M (Unit {0})
transfer_close_file = do
  written ← gets (λ c. c.write_handle)
  close_handle written
  modify (λ c. record c { write_handle = none })
  read ← gets (λ c. c.read_handle)
  close_handle read
  modify (λ c. record c { read_handle = none; recv_bytes = 0; start_time = 0 })
