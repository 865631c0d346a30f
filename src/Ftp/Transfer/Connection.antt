-- ===== src/Ftp/Transfer/Connection.antt =====
-- prvTransferStart(), prvTransferConnect(), prvTransferCheck() and vFTPClientDelete() in
-- protocols/FTP/FreeRTOS_FTP_server.c.
use free_rtos_demos_cheri_ri.Prelude.{
  ℕ, zero, suc, has_prefix, ◌/◌, ◌%◌, ◌^◌, ℤ, pos, negsuc, is_neg, is_pos, is_zero, Bool, true,
  false, not, ◌&&◌, ◌||◌, Text, codes, [], ◌∷◌, ◌++◌, ltb, if◌then◌else◌, none, some, is_some,
  length, dec, drop, snprintf, ◌+◌,
}
use free_rtos_demos_cheri_ri.Ftp.World.{
  Socket, SocketResult, Event, select_all, select_write, select_read_except,
  select_read_write_except, rcv_timeout, snd_timeout, reuse_listen_socket, M, ◌>>=◌, ◌>>◌,
  branch◌then◌else◌, pure, gets, asks, modify, emit, when,
}
use free_rtos_demos_cheri_ri.Ftp.Path.{buffer_size}
use free_rtos_demos_cheri_ri.Ftp.Transfer.{
  send_formatted, transfer_close_socket, transfer_close_file,
}

unfoldable pub transfer_start : M ℤ
transfer_start = do
  socket ← gets (λ c. c.transfer_socket)
  listening ← gets (λ c. c.is_listen)
  rc ← asks (λ e t. if listening then e.listen t socket else e.connect t socket)
  branch listening then emit (Event.listen socket) else emit (Event.connect socket)
  pure rc

-- The branch of prvTransferConnect() with a new socket.
unfoldable pub use_socket : Bool → ℕ → M ℤ
use_socket do_listen k = do
  emit (Event.bind (some k))
  emit (Event.set_option (some k) rcv_timeout)
  emit (Event.set_option (some k) snd_timeout)
  when do_listen (emit (Event.set_option (some k) reuse_listen_socket))
  modify (λ c. record c { is_listen = do_listen; transfer_socket = some k })
  branch do_listen
      then (do
        emit (Event.fd_set (some k) select_read_except)
        rc ← transfer_start
        pure (if is_neg rc then rc else pos 1))
      else (do emit (Event.fd_set (some k) select_read_write_except); pure (pos 1))

-- -pdFREERTOS_ERRNO_ENOMEM
abbrev pub minus_enomem : ℤ
minus_enomem = negsuc 11

unfoldable pub with_socket : Bool → SocketResult → M ℤ
with_socket do_listen (SocketResult.socket k) = use_socket do_listen k
with_socket do_listen _ = pure minus_enomem

unfoldable pub transfer_connect : Bool → M ℤ
transfer_connect do_listen = do
  transfer_close_socket
  modify (λ c. record c { empty_file = false })
  made ← asks (λ e t. e.new_socket t)
  emit (Event.new_socket made)
  with_socket do_listen made

unfoldable pub is_socket : SocketResult → Bool
is_socket (SocketResult.socket k) = true
is_socket _ = false

-- The first half of prvTransferCheck(), while no connection has been seen.
unfoldable pub detect_connection : Socket → M (Unit {0})
unfolding is_socket
detect_connection socket = do
  rx_size ← asks (λ e t. e.rx_size t socket)
  known ← gets (λ c. c.client_connected)
  when (not known) (do
    listening ← gets (λ c. c.is_listen)
    accepted ← asks (λ e t. is_socket (e.accept t socket))
    when listening (emit (Event.accept socket))
    connected ← asks (λ e t. is_pos (e.is_connected t socket))
    when ((if listening then accepted else connected) || is_pos rx_size) (do
      modify (λ c. record c { client_connected = true; empty_file = false })
      emit (Event.fd_clr socket select_write)
      emit (Event.fd_set socket select_read_except)))

-- "%xip" of the formatter: dot notation of an address in host order
unfoldable pub dotted : ℕ → Text
unfolding dec
dotted ip =
    dec (ip / 2 ^ 24 % 256)
    ++ b'.' ∷ dec (ip / 2 ^ 16 % 256)
    ++ b'.' ∷ dec (ip / 2 ^ 8 % 256)
    ++ b'.' ∷ dec (ip % 256)

-- pcConnectionAck is used as a format with "%xip" and "%u". The number says how many characters of
-- a specifier are still to be skipped.
unfoldable pub format_ack : ℕ → Text → ℕ → ℕ → Text
unfolding dotted dec codes has_prefix
format_ack n [] ip port = []
format_ack (suc n) (c ∷ s) ip port = format_ack n s ip port
format_ack zero (c ∷ s) ip port =
    let address = dotted ip ++ format_ack 3 s ip port in
    let number = dec port ++ format_ack 1 s ip port in
    let plain = c ∷ format_ack 0 s ip port in
    if has_prefix (codes "%xip") (c ∷ s)
    then address
    else if has_prefix (codes "%u") (c ∷ s)
    then number
    else plain

-- A text and its NUL at the start of a buffer
unfoldable pub print_over : Text → Text → Text
print_over text buffer = text ++ 0 ∷ drop (length text + 1) buffer

-- The second half, once there is a connection. The acknowledgement is printed into pcCommandBuffer,
-- where the parameter of the command may stand.
unfoldable pub announce_connection : Socket → M (Unit {0})
unfolding format_ack print_over
announce_connection socket = do
  ack ← gets (λ c. c.connection_ack)
  ip ← gets (λ c. c.client_ip)
  port ← asks (λ e t. e.remote_port t socket)
  when (ltb 0 (length ack)) (do
    let text = snprintf buffer_size (format_ack 0 ack ip port)
    send_formatted (format_ack 0 ack ip port)
    modify
        (λ c. record c { connection_ack = []; command_buffer = print_over text c.command_buffer }))

unfoldable pub transfer_check : M (Unit {0})
transfer_check = do
  socket ← gets (λ c. c.transfer_socket)
  detect_connection socket
  connected ← gets (λ c. c.client_connected)
  when connected (do
    announce_connection socket
    gone ← asks (λ e t. is_zero (e.is_connected t socket) && is_zero (e.rx_size t socket))
    when gone (do transfer_close_socket; transfer_close_file))

unfoldable pub client_delete : M (Unit {0})
client_delete = do
  transfer_close_socket
  transfer_close_file
  socket ← gets (λ c. c.socket)
  when (is_some socket) (do
    emit (Event.fd_clr socket select_all)
    emit (Event.close_socket socket)
    modify (λ c. record c { socket = none }))
