-- ===== src/Ftp/Work.antt =====
-- xFTPClientWork() in protocols/FTP/FreeRTOS_FTP_server.c.
use free_rtos_demos_cheri_ri.Prelude.{
  ℕ, ◌-◌, ℤ, pos, negsuc, is_neg, true, false, not, ◌&&◌, ◌||◌, Text, codes, List, [], ◌∷◌, ◌++◌,
  ◌==◌, if◌then◌else◌, is_some, length, drop, has_prefix,
}
use free_rtos_demos_cheri_ri.Ftp.Commands.{Command, unknown, command_name, all_commands, crlf}
use free_rtos_demos_cheri_ri.Ftp.World.{
  Received, failed, bytes, Event, M, ◌>>=◌, ◌>>◌, branch◌then◌else◌, pure, gets, asks, modify, emit,
  when,
}
use free_rtos_demos_cheri_ri.Ftp.Transfer.{
  send_formatted, store_file_work, transfer_close_socket, transfer_close_file,
}
use free_rtos_demos_cheri_ri.Ftp.Transfer.Connection.{transfer_check}
use free_rtos_demos_cheri_ri.Ftp.Files.Retrieving.{retrieve_file_work}
use free_rtos_demos_cheri_ri.Ftp.Listing.{list_send_work}
use free_rtos_demos_cheri_ri.Ftp.Process.Dispatch.{until_nul, process_command}

-- A character in front of a line whose end is trimmed.
unfoldable pub trim_onto : ℕ → Text → Text
trim_onto c [] = if (c == 13) || (c == 10) then [] else c ∷ []
trim_onto c (d ∷ s) = c ∷ d ∷ s

-- The line without the carriage returns and line feeds at its end.
unfoldable pub trim_eol : Text → Text
unfolding trim_onto
trim_eol [] = []
trim_eol (c ∷ s) = trim_onto c (trim_eol s)

-- The first entry of the table whose name begins the line.
unfoldable pub find_command : List Command → Text → Command
unfolding command_name has_prefix
find_command [] line = unknown
find_command (cmd ∷ more) line =
    let rest = find_command more line in if has_prefix (command_name cmd) line then cmd else rest

skip_blanks : Text → Text
skip_blanks [] = []
skip_blanks (c ∷ s) = elim ((c == 32) || (c == 9)) [ true ↦ skip_blanks s | false ↦ c ∷ s ]

-- What is behind the name of the command and the blanks after it; for an unknown command it is the
-- whole line.
unfoldable pub behind_name : Command → Text → Text
unfolding skip_blanks command_name
behind_name unknown line = line
behind_name cmd line = skip_blanks (drop (length (command_name cmd)) line)

-- pcRestCommand: the parameter behind the name, and where it is in the buffer
unfoldable pub parameter_of : Command → Text → Text
unfolding until_nul behind_name
parameter_of cmd line = until_nul (behind_name cmd line)

unfoldable pub rest_offset : Command → Text → ℕ
unfolding behind_name
rest_offset cmd line = length line - length (behind_name cmd line)

unfoldable pub on_line : Text → M (Unit {0})
unfolding rest_offset
on_line line = do
  let cmd = find_command all_commands line
  modify (λ c. record c { command_buffer = line; rest_command = rest_offset cmd line })
  process_command cmd (parameter_of cmd line)
  pure tt

unfoldable pub welcome : Text
unfolding codes crlf
welcome = codes "220 Welcome to the FreeRTOS+TCP FTP server" ++ crlf

unfoldable pub send_hello : M (Unit {0})
send_hello = do
  sent ← gets (λ c. c.hello_sent)
  when (not sent) (do modify (λ c. record c { hello_sent = true }); send_formatted welcome; pure tt)

-- What recv() delivers, and the result that is returned at the end.
unfoldable pub on_received : Received → M ℤ
on_received (failed n) = pure (negsuc n)
on_received (bytes []) = pure (pos 0)
on_received (bytes (c ∷ s)) = do on_line (trim_eol (c ∷ s)); pure (pos (length (trim_eol (c ∷ s))))

-- The work function of the transfer in progress.
unfoldable pub transfer_work : M ℤ
transfer_work = do
  listing ← gets (λ c. c.dir_has_entry)
  reading ← gets (λ c. is_some c.read_handle)
  writing ← gets (λ c. is_some c.write_handle)
  branch listing
      then list_send_work
      else branch reading
      then retrieve_file_work
      else branch writing
      then store_file_work
      else pure (pos 0)

unfoldable pub serve_transfer : M (Unit {0})
serve_transfer = do
  transfer_check
  ready ← gets (λ c. is_some c.transfer_socket && (length c.connection_ack == 0))
  when ready
      (do rc ← transfer_work; when (is_neg rc) (do transfer_close_socket; transfer_close_file))

unfoldable pub client_work : M ℤ
client_work = do
  send_hello
  socket ← gets (λ c. c.socket)
  got ← asks (λ e t. e.recv t socket)
  emit (Event.recv socket)
  rc ← on_received got
  open_ ← gets (λ c. is_some c.transfer_socket)
  when open_ serve_transfer
  pure rc
