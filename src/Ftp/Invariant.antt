-- ===== src/Ftp/Invariant.antt =====
-- The invariants of a client: what the handlers keep, xFTPClientWork() keeps.
use free_rtos_demos_cheri_ri.Prelude.{
  ℤ, pos, negsuc, ◌≡◌, refl, Bool, true, false, Text, [], ◌∷◌, none, some,
}
use free_rtos_demos_cheri_ri.Ftp.Commands.{Command}
use free_rtos_demos_cheri_ri.Ftp.World.{Received, failed, bytes, Client, State, M, modify}
use free_rtos_demos_cheri_ri.Ftp.Keeps.{Keeps, Keeps-pure, bind_rules}
use free_rtos_demos_cheri_ri.Ftp.Frame
use free_rtos_demos_cheri_ri.Ftp.Frame.Sending
use free_rtos_demos_cheri_ri.Ftp.Frame.{Frame}
use free_rtos_demos_cheri_ri.Ftp.Listing.{list_send_prep, list_send_work}
use free_rtos_demos_cheri_ri.Ftp.Transfer.{
  store_file_work, transfer_close_socket, transfer_close_file,
}
use free_rtos_demos_cheri_ri.Ftp.Transfer.Connection.{transfer_check}
use free_rtos_demos_cheri_ri.Ftp.Files.Retrieving.{retrieve_file_prep, retrieve_file_work}
use free_rtos_demos_cheri_ri.Ftp.Dirs.{change_dir, size_date_file, reply_text}
use free_rtos_demos_cheri_ri.Ftp.Process.{
  Reply, on_user, on_pass, on_pwd, on_rest, on_noop, set_type, on_type, on_pasv, on_port,
}
use free_rtos_demos_cheri_ri.Ftp.Process.Dispatch.{
  on_rnfr, on_rnto, on_site, on_dele, size_while_storing, on_size, on_make_remove, on_quit,
  check_if_open, on_transfer, on_stor, dispatch, guarded, send_my_reply, process_command,
  unless_read_only,
}
use free_rtos_demos_cheri_ri.Ftp.Work.{
  on_line, send_hello, on_received, transfer_work, serve_transfer, client_work,
}

pub record Invariant (P : State → Type 0) : Type 0 where
  pub frame : Frame P
  pub close_file : Keeps P transfer_close_file
  pub user : Keeps P on_user
  pub pass : Keeps P on_pass
  pub quit : Keeps P on_quit
  pub chdir : (name : Text) → Keeps P (change_dir name)
  pub rnfr : (name : Text) → Keeps P (on_rnfr name)
  pub rnto : (name : Text) → Keeps P (on_rnto name)
  pub dele : (name : Text) → Keeps P (on_dele name)
  pub make_remove : (name : Text) (b : Bool) → Keeps P (on_make_remove name b)
  pub retrieve : (name : Text) → Keeps P (retrieve_file_prep name)
  pub stor : Keeps P on_stor
  pub end_rename : Keeps P (modify (λ c. record c { in_rename = false }))

module _ {P : State → Type 0} (inv : Invariant P) where
  abbrev fr : Frame P
  fr = inv.frame

  inner :
      (f : Client → Client) → ((c : Client) → Frame.core (f c) ≡ Frame.core c) → Keeps P (modify f)
  inner = Frame.Keeps-inner fr

  transfer_close_socket-Keeps : Keeps P transfer_close_socket
  transfer_close_socket-Keeps = Frame.Keeps-transfer_close_socket fr

  list_send_prep-Keeps : Keeps P list_send_prep
  list_send_prep-Keeps = Frame.Keeps-list_send_prep fr

  list_send_work-Keeps : Keeps P list_send_work
  list_send_work-Keeps = Sending.Keeps-list_send_work fr

  retrieve_file_work-Keeps : Keeps P retrieve_file_work
  retrieve_file_work-Keeps = Sending.Keeps-retrieve_file_work fr

  store_file_work-Keeps : Keeps P store_file_work
  store_file_work-Keeps = Frame.Keeps-store_file_work fr

  close_file-Keeps : Keeps P transfer_close_file
  close_file-Keeps = inv.close_file

  end_rename-Keeps : Keeps P (modify (λ c. record c { in_rename = false }))
  end_rename-Keeps = inv.end_rename

  transfer_check-Keeps : Keeps P transfer_check
  transfer_check-Keeps = Frame.Keeps-transfer_check fr inv.close_file

  reply_text-Keeps : (t : Text) → Keeps P (reply_text t)
  unfolding reply_text
  reply_text-Keeps t = search (bind_rules, Frame.Keeps-send_reply fr) depth 16

  size_date_file-Keeps : (name : Text) (b : Bool) → Keeps P (size_date_file name b)
  unfolding size_date_file
  size_date_file-Keeps name b =
      search
        (
          bind_rules,
          inner,
          refl,
          Frame.Keeps-send_formatted fr,
          Frame.Keeps-quiet fr,
          reply_text-Keeps,
        )
        depth 16

  on_pwd-Keeps : Keeps P on_pwd
  unfolding on_pwd
  on_pwd-Keeps = search bind_rules depth 16

  on_rest-Keeps : (r : Text) → Keeps P (on_rest r)
  unfolding on_rest
  on_rest-Keeps r = search (bind_rules, inner) depth 16

  on_noop-Keeps : Keeps P on_noop
  unfolding on_noop
  on_noop-Keeps = search bind_rules depth 16

  set_type-Keeps : (n : ℤ) → Keeps P (set_type n)
  unfolding set_type
  set_type-Keeps (pos n) = search (bind_rules, inner) depth 16
  set_type-Keeps (negsuc n) = search bind_rules depth 16

  on_type-Keeps : (r : Text) → Keeps P (on_type r)
  unfolding on_type
  on_type-Keeps r = search (bind_rules, set_type-Keeps) depth 16

  on_pasv-Keeps : Keeps P on_pasv
  unfolding on_pasv
  on_pasv-Keeps = search (bind_rules, inner, Frame.Keeps-transfer_connect fr) depth 20

  on_port-Keeps : (r : Text) → Keeps P (on_port r)
  unfolding on_port
  on_port-Keeps r = search (bind_rules, inner, Frame.Keeps-transfer_connect fr) depth 16

  on_site-Keeps : (r : Text) → Keeps P (on_site r)
  unfolding on_site unless_read_only
  on_site-Keeps r = search bind_rules depth 16

  size_while_storing-Keeps : (r : Text) → Keeps P (size_while_storing r)
  unfolding size_while_storing
  size_while_storing-Keeps r =
      search (bind_rules, store_file_work-Keeps, size_date_file-Keeps) depth 16

  on_size-Keeps : (r : Text) → Keeps P (on_size r)
  unfolding on_size
  on_size-Keeps r = search (bind_rules, size_while_storing-Keeps, size_date_file-Keeps) depth 16

  check_if_open-Keeps : Keeps P check_if_open
  unfolding check_if_open
  check_if_open-Keeps = search (bind_rules, transfer_check-Keeps) depth 16

  on_transfer-Keeps : (m : M Reply) → Keeps P m → Keeps P (on_transfer m)
  unfolding on_transfer
  on_transfer-Keeps m k = search (bind_rules, check_if_open-Keeps) depth 12

  dispatch-Keeps : (cmd : Command) (r : Text) → Keeps P (dispatch cmd r)
  unfolding dispatch
  dispatch-Keeps Command.user r = inv.user
  dispatch-Keeps Command.pass r = inv.pass
  dispatch-Keeps Command.cwd r = search (bind_rules, inv.chdir)
  dispatch-Keeps Command.cdup r = search (bind_rules, inv.chdir)
  dispatch-Keeps Command.quit r = inv.quit
  dispatch-Keeps Command.port r = on_port-Keeps r
  dispatch-Keeps Command.pasv r = on_pasv-Keeps
  dispatch-Keeps Command.type_ r = on_type-Keeps r
  dispatch-Keeps Command.retr r = on_transfer-Keeps _ (search (bind_rules, inv.retrieve))
  dispatch-Keeps Command.stor r = inv.stor
  dispatch-Keeps Command.rest r = on_rest-Keeps r
  dispatch-Keeps Command.rnfr r = inv.rnfr r
  dispatch-Keeps Command.rnto r = inv.rnto r
  dispatch-Keeps Command.size r = on_size-Keeps r
  dispatch-Keeps Command.mdtm r = search (bind_rules, size_date_file-Keeps)
  dispatch-Keeps Command.dele r = inv.dele r
  dispatch-Keeps Command.rmd r = inv.make_remove r true
  dispatch-Keeps Command.mkd r = inv.make_remove r false
  dispatch-Keeps Command.pwd r = on_pwd-Keeps
  dispatch-Keeps Command.list r = on_transfer-Keeps _ (search (bind_rules, list_send_prep-Keeps))
  dispatch-Keeps Command.site r = on_site-Keeps r
  dispatch-Keeps Command.noop r = on_noop-Keeps
  dispatch-Keeps _ r = Keeps-pure _

  guarded-Keeps : (cmd : Command) (r : Text) → Keeps P (guarded cmd r)
  unfolding guarded
  guarded-Keeps cmd r = search (bind_rules, dispatch-Keeps) depth 16

  send_my_reply-Keeps : (r : Reply) → Keeps P (send_my_reply r)
  unfolding send_my_reply
  send_my_reply-Keeps none = search bind_rules depth 16
  send_my_reply-Keeps (some t) = search (bind_rules, Frame.Keeps-send_reply fr) depth 16

  pub process_command-Keeps : (cmd : Command) (r : Text) → Keeps P (process_command cmd r)
  unfolding process_command
  process_command-Keeps cmd r =
      search (bind_rules, guarded-Keeps, send_my_reply-Keeps, end_rename-Keeps) depth 16

  on_line-Keeps : (line : Text) → Keeps P (on_line line)
  unfolding on_line
  on_line-Keeps line = search (bind_rules, inner, refl, process_command-Keeps) depth 16

  send_hello-Keeps : Keeps P send_hello
  unfolding send_hello
  send_hello-Keeps = search (bind_rules, inner, Frame.Keeps-send_formatted fr) depth 16

  on_received-Keeps : (r : Received) → Keeps P (on_received r)
  unfolding on_received
  on_received-Keeps (failed n) = search bind_rules depth 16
  on_received-Keeps (bytes []) = search bind_rules depth 16
  on_received-Keeps (bytes (c ∷ s)) = search (bind_rules, on_line-Keeps) depth 16

  transfer_work-Keeps : Keeps P transfer_work
  unfolding transfer_work
  transfer_work-Keeps =
      search
        (
          bind_rules, inner, refl, list_send_work-Keeps, retrieve_file_work-Keeps,
          store_file_work-Keeps,
        )
        depth 16

  serve_transfer-Keeps : Keeps P serve_transfer
  unfolding serve_transfer
  serve_transfer-Keeps =
      search
        (
          bind_rules, inner, refl, transfer_close_socket-Keeps, transfer_check-Keeps,
          transfer_work-Keeps, close_file-Keeps,
        )
        depth 16

  pub client_work-Keeps : Keeps P client_work
  unfolding client_work
  client_work-Keeps =
      search
        (
          bind_rules,
          inner,
          refl,
          Frame.Keeps-quiet fr,
          send_hello-Keeps,
          on_received-Keeps,
          serve_transfer-Keeps,
        )
        depth 20
