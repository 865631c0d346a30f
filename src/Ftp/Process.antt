-- ===== src/Ftp/Process.antt =====
-- prvProcessCommand() in protocols/FTP/FreeRTOS_FTP_server.c: the handlers of the commands on the
-- session and the data connection, one for each case of its switch. The user hooks are off
-- (ipconfigFTP_HAS_USER_PASSWORD_HOOK and ipconfigFTP_HAS_USER_PROPERTIES_HOOK are not defined), so
-- nothing here sets `read_only`. A handler returns pcMyReply, `none` for NULL.
pub mod Dispatch
use free_rtos_demos_cheri_ri.Prelude.{
  ℕ, ◌-◌, min, ◌/◌, ◌%◌, ◌^◌, ℤ, pos, negsuc, is_zero, Bool, true, false, not, ◌&&◌, ◌||◌, Text,
  codes, [], ◌∷◌, ◌++◌, ◌==◌, if◌then◌else◌, Option, none, some, is_some, length, same_text,
  snprintf, dec,
}
use free_rtos_demos_cheri_ri.Ftp.Commands.{
  Command, check_login, check_null_arg, crlf, repl_200, repl_200_progress, repl_202, repl_221,
  repl_331_anon, repl_425, repl_500, repl_501, repl_502, repl_503, repl_530, repl_553_read_only,
}
use free_rtos_demos_cheri_ri.Ftp.World.{
  M, ◌>>=◌, ◌>>◌, branch◌then◌else◌, pure, gets, asks, modify, when,
}
use free_rtos_demos_cheri_ri.Ftp.Path.{max_filename, buffer_size, make_absolute, make_relative}
use free_rtos_demos_cheri_ri.Ftp.Parse.{get_transfer_type, is_digit, scan_digits, parse_port_data}
use free_rtos_demos_cheri_ri.Ftp.Transfer.{
  send_reply, store_file_work, transfer_close_socket, transfer_close_file,
}
use free_rtos_demos_cheri_ri.Ftp.Transfer.Connection.{transfer_connect, transfer_check}
use free_rtos_demos_cheri_ri.Ftp.Files.{store_file_prep}
use free_rtos_demos_cheri_ri.Ftp.Files.Retrieving.{retrieve_file_prep}
use free_rtos_demos_cheri_ri.Ftp.Listing.{list_send_prep}
use free_rtos_demos_cheri_ri.Ftp.Dirs.{
  change_dir, rename_from, rename_to, site_cmd, delete_file, size_date_file, size_reply,
  make_remove_dir, reply_text,
}

abbrev pub Reply : Type 0
Reply = Option Text

-- ECMD_USER
unfoldable pub on_user : M Reply
on_user = do modify (λ c. record c { status_user = true }); pure (some repl_331_anon)

unfoldable pub logged_in_reply : Text
unfolding codes crlf
logged_in_reply = codes "230 OK.  Current directory is /" ++ crlf

-- ECMD_PASS: any password is accepted
unfoldable pub on_pass : M Reply
on_pass = do
  modify (λ c. record c { restart_offset = 0 })
  user ← gets (λ c. c.status_user)
  branch user
      then (do
        modify (λ c. record c { status_user = false; logged_in = true; current_dir = b'/' ∷ [] })
        pure (some logged_in_reply))
      else pure (some repl_503)

pub syst_reply : Text
unfolding codes crlf
syst_reply = codes "215 UNIX Type: L8" ++ crlf

pwd_reply : Text → Text
unfolding codes crlf
pwd_reply path = codes "257 " ++ 34 ∷ path ++ 34 ∷ crlf

-- ECMD_PWD
unfoldable pub on_pwd : M Reply
unfolding pwd_reply
on_pwd = do
  path ← gets (λ c. make_relative c buffer_size c.current_dir)
  pure (some (snprintf buffer_size (pwd_reply path)))

unfoldable pub skip_blanks : Text → Text
skip_blanks [] = []
skip_blanks (c ∷ s) = elim (c == b' ') [ true ↦ skip_blanks s | false ↦ c ∷ s ]

unfoldable pub starts_with_digit : Text → Bool
unfolding is_digit
starts_with_digit [] = false
starts_with_digit (c ∷ s) = is_digit c

unfoldable pub restart_reply : ℕ → Text
unfolding codes crlf dec
restart_reply n = codes "350 Restarting at " ++ dec n ++ codes ". Send STORE or RETRIEVE" ++ crlf

-- ECMD_REST: sscanf() stores the 64 bits of an unsigned long, ulRecvBytes being behind ulRestartOffset.
unfoldable pub on_rest : Text → M Reply
unfolding skip_blanks starts_with_digit scan_digits
on_rest rest = do
  locked ← gets (λ c. c.read_only)
  let arg = skip_blanks rest
  let number = min (scan_digits 0 arg).0 (2 ^ 64 - 1)
  let offset = number % 2 ^ 32
  branch locked
      then pure (some repl_553_read_only)
      else branch starts_with_digit arg
      then (do
        modify (λ c. record c { restart_offset = offset; recv_bytes = number / 2 ^ 32 })
        pure (some (restart_reply offset)))
      else pure (some repl_500)

-- ECMD_NOOP
unfoldable pub on_noop : M Reply
on_noop = do
  busy ← gets (λ c. is_some c.transfer_socket)
  pure (some (if busy then repl_200_progress else repl_200))

unfoldable pub set_type : ℤ → M Reply
set_type (pos n) = do modify (λ c. record c { trans_type = n }); pure (some repl_200)
set_type (negsuc n) = pure (some repl_500)

-- ECMD_TYPE
unfoldable pub on_type : Text → M Reply
unfolding get_transfer_type
on_type rest = set_type (get_transfer_type rest)

unfoldable pub passive_reply : ℕ → ℕ → Text
unfolding codes crlf dec
passive_reply ip port =
    codes "227 Entering Passive Mode ("
    ++ dec (ip / 2 ^ 24 % 256)
    ++ b',' ∷ dec (ip / 2 ^ 16 % 256)
    ++ b',' ∷ dec (ip / 2 ^ 8 % 256)
    ++ b',' ∷ dec (ip % 256)
    ++ b',' ∷ dec (port / 2 ^ 8)
    ++ b',' ∷ dec (port % 256)
    ++ codes ")."
    ++ crlf

-- ECMD_PASV. A negative result of prvTransferConnect() is not pdFALSE.
unfoldable pub on_pasv : M Reply
on_pasv = do
  rc ← transfer_connect true
  branch is_zero rc then pure (some repl_502) else do
    transfer ← gets (λ c. c.transfer_socket)
    control ← gets (λ c. c.socket)
    ip ← asks (λ e t. e.local_ip t transfer)
    port ← asks (λ e t. e.local_port t transfer)
    their_ip ← asks (λ e t. e.remote_ip t control)
    their_port ← asks (λ e t. e.remote_port t control)
    modify (λ c. record c { client_ip = their_ip; client_port = their_port })
    pure (some (snprintf buffer_size (passive_reply ip port)))

-- ECMD_PORT
unfoldable pub on_port : Text → M Reply
unfolding parse_port_data
on_port rest = do
  let where_to = parse_port_data rest
  branch where_to.port == 0 then pure (some repl_501) else do
    rc ← transfer_connect false
    branch is_zero rc then pure (some repl_501) else do
      modify (λ c. record c { client_port = where_to.port % 2 ^ 16; client_ip = where_to.ip })
      pure (some repl_200)
