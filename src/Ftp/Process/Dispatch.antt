-- ===== src/Ftp/Process/Dispatch.antt =====
-- prvProcessCommand() in protocols/FTP/FreeRTOS_FTP_server.c: the commands on files, the switch, the guards
-- before it, and the reply.
use free_rtos_demos_cheri_ri.Prelude.{
  ℤ, pos, Bool, ◌==◌, drop, true, false, not, ◌&&◌, ◌||◌, Text, codes, [], ◌∷◌, ◌++◌, if◌then◌else◌,
  none, some, is_some, length, same_text, snprintf,
}
use free_rtos_demos_cheri_ri.Ftp.Commands.{
  Command, check_login, check_null_arg, crlf, repl_202, repl_221, repl_425, repl_500, repl_501,
  repl_503, repl_530, repl_553_read_only,
}
use free_rtos_demos_cheri_ri.Ftp.World.{
  Client, M, ◌>>=◌, ◌>>◌, branch◌then◌else◌, pure, gets, modify, when,
}
use free_rtos_demos_cheri_ri.Ftp.Path.{max_filename, buffer_size, make_absolute}
use free_rtos_demos_cheri_ri.Ftp.Transfer.{
  send_reply, store_file_work, transfer_close_socket, transfer_close_file,
}
use free_rtos_demos_cheri_ri.Ftp.Transfer.Connection.{transfer_check}
use free_rtos_demos_cheri_ri.Ftp.Files.{store_file_prep}
use free_rtos_demos_cheri_ri.Ftp.Files.Retrieving.{retrieve_file_prep}
use free_rtos_demos_cheri_ri.Ftp.Listing.{list_send_prep}
use free_rtos_demos_cheri_ri.Ftp.Dirs.{
  change_dir, rename_from, rename_to, site_cmd, delete_file, size_date_file, size_reply,
  make_remove_dir, reply_text,
}
use free_rtos_demos_cheri_ri.Ftp.Process.{
  Reply, on_user, on_pass, syst_reply, on_pwd, on_rest, on_noop, on_type, on_pasv, on_port,
}

-- The handlers that write are behind the read-only flag.
unfoldable pub unless_read_only : M Reply → M Reply
unless_read_only m = do
  locked ← gets (λ c. c.read_only)
  branch locked then pure (some repl_553_read_only) else m

-- ECMD_RNFR
unfoldable pub on_rnfr : Text → M Reply
on_rnfr rest = unless_read_only (do rename_from rest; pure none)

-- ECMD_RNTO
unfoldable pub on_rnto : Text → M Reply
on_rnto rest = do
  renaming ← gets (λ c. c.in_rename)
  branch renaming then (do rename_to rest; pure none) else pure (some repl_503)

-- ECMD_SITE
unfoldable pub on_site : Text → M Reply
unfolding site_cmd
on_site rest = unless_read_only (pure (if site_cmd rest then none else some repl_202))

-- ECMD_DELE
unfoldable pub on_dele : Text → M Reply
on_dele rest = unless_read_only (do delete_file rest; pure none)

-- ECMD_SIZE while a file is being received. prvStoreFileWork() leaves the handle alone, so that the
-- loop over it runs three times.
unfoldable pub size_while_storing : Text → M Reply
size_while_storing rest = do
  path ← gets (λ c. make_absolute c max_filename rest)
  branch same_text path rest
      then (do
        store_file_work
        store_file_work
        store_file_work
        count ← gets (λ c. c.recv_bytes)
        pure (some (snprintf buffer_size (size_reply count))))
      else (do size_date_file path false; pure none)

unfoldable pub on_size : Text → M Reply
on_size rest = do
  storing ← gets (λ c. is_some c.write_handle)
  branch storing then size_while_storing rest else (do size_date_file rest false; pure none)

-- ECMD_MKD, ECMD_RMD
unfoldable pub on_make_remove : Text → Bool → M Reply
on_make_remove rest do_remove = unless_read_only (do make_remove_dir rest do_remove; pure none)

-- ECMD_QUIT
unfoldable pub on_quit : M Reply
on_quit = do reply_text repl_221; modify (λ c. record c { logged_in = false }); pure none

-- prvTransferCheck() if the transfer socket is still there. It may print an acknowledgement over the
-- parameter of the command.
unfoldable pub check_if_open : M (Unit {0})
check_if_open = do here ← gets (λ c. is_some c.transfer_socket); when here transfer_check

-- A C string ends at the first NUL. (A line that fills all of the buffer gets no NUL behind it in
-- the source; here it ends where the buffer does.)
unfoldable pub until_nul : Text → Text
until_nul [] = []
until_nul (c ∷ s) = elim (c == 0) [ true ↦ [] | false ↦ c ∷ until_nul s ]

-- What pcRestCommand points to, as the buffer now is
unfoldable pub rest_text : Client → Text
unfolding until_nul
rest_text c = until_nul (drop c.rest_command c.command_buffer)

-- ECMD_LIST, ECMD_RETR
unfoldable pub on_transfer : M Reply → M Reply
on_transfer m = do
  here ← gets (λ c. is_some c.transfer_socket)
  branch here then (do check_if_open; m) else pure (some repl_425)

-- ECMD_STOR, also with the data connection closed already: an empty file
unfoldable pub on_stor : M Reply
unfolding rest_text
on_stor = do
  ready ← gets (λ c. is_some c.transfer_socket || c.empty_file)
  branch ready
      then (do
        check_if_open
        unless_read_only (do
          rest ← gets rest_text
          store_file_prep rest
          empty ← gets (λ c. c.empty_file)
          when empty (do transfer_close_socket; transfer_close_file)
          pure none))
      else pure (some repl_425)

unfoldable pub feat_reply : Text
unfolding codes crlf
feat_reply =
    codes "211-Features:"
    ++ 10 ∷ codes " MDTM"
    ++ 10 ∷ codes " REST STREAM"
    ++ 10 ∷ codes " SIZE"
    ++ crlf
    ++ codes "211 End"
    ++ crlf

-- The switch. Its other commands have no case, and no reply.
unfoldable pub dispatch : Command → Text → M Reply
unfolding syst_reply rest_text
dispatch Command.user rest = on_user
dispatch Command.pass rest = on_pass
dispatch Command.syst rest = pure (some (snprintf buffer_size syst_reply))
dispatch Command.pwd rest = on_pwd
dispatch Command.rest rest = on_rest rest
dispatch Command.noop rest = on_noop
dispatch Command.type_ rest = on_type rest
dispatch Command.pasv rest = on_pasv
dispatch Command.port rest = on_port rest
dispatch Command.cwd rest = do change_dir rest; pure none
dispatch Command.rnfr rest = on_rnfr rest
dispatch Command.rnto rest = on_rnto rest
dispatch Command.site rest = on_site rest
dispatch Command.dele rest = on_dele rest
dispatch Command.mdtm rest = do size_date_file rest true; pure none
dispatch Command.size rest = on_size rest
dispatch Command.mkd rest = on_make_remove rest false
dispatch Command.rmd rest = on_make_remove rest true
dispatch Command.cdup rest = do change_dir (b'.' ∷ b'.' ∷ []); pure none
dispatch Command.quit rest = on_quit
dispatch Command.list rest = on_transfer (do list_send_prep; pure none)
dispatch Command.retr rest =
    on_transfer (do name ← gets rest_text; retrieve_file_prep name; pure none)
dispatch Command.stor rest = on_stor
dispatch Command.feat rest = pure (some feat_reply)
dispatch Command.unknown rest = pure (some repl_500)
dispatch _ rest = pure none

unfoldable pub is_rnfr : Command → Bool
is_rnfr Command.rnfr = true
is_rnfr _ = false

-- pcRestCommand[ 0 ] == '\0'
is_empty : Text → Bool
is_empty [] = true
is_empty (c ∷ s) = false

-- The tests before the switch.
unfoldable pub guarded : Command → Text → M Reply
unfolding is_empty
guarded cmd rest = do
  known ← gets (λ c. c.logged_in)
  branch check_login cmd && not known
      then pure (some repl_530)
      else branch check_null_arg cmd && is_empty rest
      then pure (some repl_501)
      else dispatch cmd rest

-- pcMyReply is sent with strlen() for its length.
unfoldable pub send_my_reply : Reply → M ℤ
send_my_reply none = pure (pos 0)
send_my_reply (some text) = do socket ← gets (λ c. c.socket); send_reply socket text (length text)

unfoldable pub process_command : Command → Text → M ℤ
unfolding is_rnfr
process_command cmd rest = do
  reply ← guarded cmd rest
  when (not (is_rnfr cmd)) (modify (λ c. record c { in_rename = false }))
  send_my_reply reply
