-- ===== src/Ftp/Handles/Balance.antt =====
-- The balance of the file handles over the life of a client: xFTPClientWork(), the rounds of
-- FreeRTOS_TCPServerWork(), and vFTPClientDelete().
use free_rtos_demos_cheri_ri.Prelude.{◌+◌, ℕ, ◌≡◌, refl, Bool, Text, none, List, ◌∷◌, arith}
use free_rtos_demos_cheri_ri.Ftp.World.{Event, Env, State, M, emit}
use free_rtos_demos_cheri_ri.Ftp.Keeps.{
  Keeps, Keeps-emit, bind_rules, Ensures, Ensures-weaken, Keeps-Ensures-then, Ensures-Keeps-then,
}
use free_rtos_demos_cheri_ri.Ftp.Frame
use free_rtos_demos_cheri_ri.Ftp.Invariant.{Invariant, client_work-Keeps}
use free_rtos_demos_cheri_ri.Ftp.Handles.{
  IsBalanced, opened, closed, held, IsBalanced-Frame, close_file-IsBalanced, Held, Held-Frame,
  close_file-Held,
}
use free_rtos_demos_cheri_ri.Ftp.Handles.Opening.{
  store_file_prep-IsBalanced, retrieve_file_prep-IsBalanced, rename_from-IsBalanced,
  Keeps-same_handles,
}
use free_rtos_demos_cheri_ri.Ftp.Transfer.{
  transfer_close_file, transfer_close_socket, send_formatted,
}
use free_rtos_demos_cheri_ri.Ftp.Transfer.Connection.{transfer_check, client_delete}
use free_rtos_demos_cheri_ri.Ftp.Dirs.{
  reply_text, change_dir, rename_to, delete_file, make_remove_dir,
}
use free_rtos_demos_cheri_ri.Ftp.Process.{Reply, on_user, on_pass}
use free_rtos_demos_cheri_ri.Ftp.Process.Dispatch.{
  on_quit, on_rnfr, on_rnto, on_dele, on_make_remove, on_stor, unless_read_only, check_if_open,
}
use free_rtos_demos_cheri_ri.Ftp.Work.{client_work}

module _ (h others : ℕ) where
  -- A call that neither opens nor closes a file.
  Keeps-other_call :
      (ev : Event)
      → ((t : List Event) → opened h (ev ∷ t) ≡ opened h t)
      → ((t : List Event) → closed h (ev ∷ t) ≡ closed h t)
      → Keeps (IsBalanced h others) (emit ev)
  Keeps-other_call ev o c = Keeps-emit ev (λ s p. rw (o s.trace, c s.trace) p)

  send_formatted-IsBalanced : (t : Text) → Keeps (IsBalanced h others) (send_formatted t)
  send_formatted-IsBalanced = Frame.Keeps-send_formatted (IsBalanced-Frame h others)

  reply_text-IsBalanced : (t : Text) → Keeps (IsBalanced h others) (reply_text t)
  unfolding reply_text
  reply_text-IsBalanced t =
      search (bind_rules, Frame.Keeps-send_reply (IsBalanced-Frame h others)) depth 12

  user-IsBalanced : Keeps (IsBalanced h others) on_user
  unfolding on_user
  user-IsBalanced = search (bind_rules, Keeps-same_handles h others) depth 12

  pass-IsBalanced : Keeps (IsBalanced h others) on_pass
  unfolding on_pass
  pass-IsBalanced = search (bind_rules, Keeps-same_handles h others) depth 16

  quit-IsBalanced : Keeps (IsBalanced h others) on_quit
  unfolding on_quit
  quit-IsBalanced = search (bind_rules, Keeps-same_handles h others, reply_text-IsBalanced) depth 16

  change_dir-IsBalanced : (name : Text) → Keeps (IsBalanced h others) (change_dir name)
  unfolding change_dir
  change_dir-IsBalanced name =
      search (bind_rules, Keeps-same_handles h others, Keeps-other_call, send_formatted-IsBalanced)
        depth 24

  rename_to-IsBalanced : (name : Text) → Keeps (IsBalanced h others) (rename_to name)
  unfolding rename_to
  rename_to-IsBalanced name = search (bind_rules, Keeps-other_call, reply_text-IsBalanced) depth 16

  delete_file-IsBalanced : (name : Text) → Keeps (IsBalanced h others) (delete_file name)
  unfolding delete_file
  delete_file-IsBalanced name =
      search (bind_rules, Keeps-same_handles h others, Keeps-other_call, send_formatted-IsBalanced)
        depth 16

  make_remove_dir-IsBalanced :
      (name : Text) (do_remove : Bool)
      → Keeps (IsBalanced h others) (make_remove_dir name do_remove)
  unfolding make_remove_dir
  make_remove_dir-IsBalanced name do_remove =
      search (bind_rules, Keeps-same_handles h others, Keeps-other_call, send_formatted-IsBalanced)
        depth 16

  unless_read_only-IsBalanced :
      (m : M Reply)
      → Keeps (IsBalanced h others) m
      → Keeps (IsBalanced h others) (unless_read_only m)
  unfolding unless_read_only
  unless_read_only-IsBalanced m k = search bind_rules depth 12

  rnto-IsBalanced : (name : Text) → Keeps (IsBalanced h others) (on_rnto name)
  unfolding on_rnto
  rnto-IsBalanced name = search (bind_rules, rename_to-IsBalanced) depth 12

  transfer_check-IsBalanced : Keeps (IsBalanced h others) transfer_check
  transfer_check-IsBalanced =
      Frame.Keeps-transfer_check (IsBalanced-Frame h others) (close_file-IsBalanced h others)

  close_socket-IsBalanced : Keeps (IsBalanced h others) transfer_close_socket
  close_socket-IsBalanced = Frame.Keeps-transfer_close_socket (IsBalanced-Frame h others)

  close_file-Balanced : Keeps (IsBalanced h others) transfer_close_file
  close_file-Balanced = close_file-IsBalanced h others

  check_if_open-IsBalanced : Keeps (IsBalanced h others) check_if_open
  unfolding check_if_open
  check_if_open-IsBalanced = search (bind_rules, transfer_check-IsBalanced) depth 12

  stor-IsBalanced : Keeps (IsBalanced h others) on_stor
  unfolding on_stor
  stor-IsBalanced =
      search
        (
          bind_rules,
          unless_read_only-IsBalanced,
          store_file_prep-IsBalanced h others,
          check_if_open-IsBalanced,
          close_socket-IsBalanced,
          close_file-Balanced,
        )
        depth 24

  on_rnfr-IsBalanced : (name : Text) → Keeps (IsBalanced h others) (on_rnfr name)
  unfolding on_rnfr
  on_rnfr-IsBalanced name =
      search (bind_rules, unless_read_only-IsBalanced, rename_from-IsBalanced h others) depth 12

  on_dele-IsBalanced : (name : Text) → Keeps (IsBalanced h others) (on_dele name)
  unfolding on_dele
  on_dele-IsBalanced name =
      search (bind_rules, unless_read_only-IsBalanced, delete_file-IsBalanced) depth 12

  on_make_remove-IsBalanced :
      (name : Text) (do_remove : Bool) → Keeps (IsBalanced h others) (on_make_remove name do_remove)
  unfolding on_make_remove
  on_make_remove-IsBalanced name do_remove =
      search (bind_rules, unless_read_only-IsBalanced, make_remove_dir-IsBalanced) depth 12

  balance : Invariant (IsBalanced h others)
  balance = record {
    frame = IsBalanced-Frame h others;
    close_file = close_file-IsBalanced h others;
    user = user-IsBalanced;
    pass = pass-IsBalanced;
    quit = quit-IsBalanced;
    chdir = change_dir-IsBalanced;
    rnfr = on_rnfr-IsBalanced;
    rnto = rnto-IsBalanced;
    dele = on_dele-IsBalanced;
    make_remove = on_make_remove-IsBalanced;
    retrieve = retrieve_file_prep-IsBalanced h others;
    stor = stor-IsBalanced;
    end_rename = Keeps-same_handles h others _ (λ c. refl) (λ c. refl);
  }

delete-Held :
    (h others : ℕ) → Ensures (IsBalanced h others) client_delete (λ u s. Held h others none none s)
unfolding client_delete
delete-Held h others = Keeps-Ensures-then _ _ (close_socket-IsBalanced h others) (
    Ensures-Keeps-then _ _ (close_file-Held h others) (
      Ensures-weaken _ (λ s p. p)
        (search
          (
            bind_rules,
            refl,
            Frame.Keeps-quiet (Held-Frame h others none none),
            Frame.Keeps-inner (Held-Frame h others none none),
          )
          depth 20)))

pub delete-IsBalanced : (h others : ℕ) → Keeps (IsBalanced h others) client_delete
delete-IsBalanced h others = record {
  at = λ e s p. (let q = (delete-Held h others).after e s p in ground arith);
}

pub client_work-IsBalanced :
    (h others : ℕ) (e : Env) (s : State)
    → IsBalanced h others s
    → IsBalanced h others (client_work e s).1
client_work-IsBalanced h others e s p = (client_work-Keeps (balance h others)).at e s p

-- When the handles are balanced, with `others` held by other clients, vFTPClientDelete() closes all
-- that the client holds: it leaves no handle in the client, and every handle was passed to
-- ff_fclose() as often as ff_fopen() returned it, less those that the others hold.
pub client_delete-closes_all :
    (h others : ℕ) (e : Env) (s : State)
    → IsBalanced h others s
    → (opened h (client_delete e s).1.trace ≡ closed h (client_delete e s).1.trace + others)
      × (held h (client_delete e s).1.client ≡ 0)
client_delete-closes_all h others e s p =
    (let q = (delete-Held h others).after e s p in ground arith)
