-- ===== src/Ftp/Login.antt =====
-- The login: checkLogin in the table of commands, ECMD_USER and ECMD_PASS.
use free_rtos_demos_cheri_ri.Prelude.{
  ℕ, suc, ◌≡◌, refl, Bool, true, false, ◌&&◌, Text, [], ◌∷◌, none, some, arith,
}
use free_rtos_demos_cheri_ri.Ftp.World.{Received, failed, bytes, Event, Trace, Env, State, monad}
use free_rtos_demos_cheri_ri.Ftp.Commands.{Command, check_login, check_null_arg, repl_530}
use free_rtos_demos_cheri_ri.Ftp.Transfer.{send_reply, send_formatted}
use free_rtos_demos_cheri_ri.Ftp.Process.{on_user, on_pass, on_noop}
use free_rtos_demos_cheri_ri.Ftp.Process.Dispatch.{
  dispatch, guarded, send_my_reply, process_command,
}
use free_rtos_demos_cheri_ri.Ftp.Work.{on_line, send_hello, on_received, client_work}

abbrev pub is_pass : Command → Bool
is_pass Command.pass = true
is_pass _ = false

-- What a client that is not logged in can change by one command.
abbrev Effect : Command → State → State → Type 0
Effect cmd s t =
    (t.trace ≡ s.trace)
    × (t.client.transfer_socket ≡ s.client.transfer_socket)
    × (t.client.logged_in ≡ (is_pass cmd && s.client.status_user))

guarded-530 :
    (cmd : Command) (rest : Text) (e : Env) (s : State)
    → check_login cmd ≡ true
    → s.client.logged_in ≡ false
    → guarded cmd rest e s ≡ (some repl_530, s)
unfolding guarded monad
guarded-530 cmd rest e s h l = rw (h, l) refl

guarded-Effect :
    (cmd : Command) (rest : Text) (e : Env) (s : State)
    → s.client.logged_in ≡ false
    → Effect cmd s (guarded cmd rest e s).1
unfolding guarded dispatch on_user on_pass on_noop monad check_login check_null_arg
guarded-Effect Command.user rest e s l = ground arith
guarded-Effect Command.pass rest e s l = ground arith
guarded-Effect Command.syst rest e s l = ground arith
guarded-Effect Command.feat rest e s l = ground arith
guarded-Effect Command.help rest e s l = ground arith
guarded-Effect Command.noop rest e s l = ground arith
guarded-Effect Command.empt rest e s l = ground arith
guarded-Effect Command.unknown rest e s l = ground arith
guarded-Effect _ rest e s l = ground arith

-- Only the command PASS, and only after the command USER, logs a client in: after a command of a
-- client that is not logged in, it is logged in exactly if the command is PASS and bStatusUser was
-- set. The command leaves the data connection alone.
process_command-logs_in :
    (cmd : Command) (rest : Text) (e : Env) (s : State)
    → s.client.logged_in ≡ false
    → ((process_command cmd rest e s).1.client.logged_in ≡ (is_pass cmd && s.client.status_user))
      × ((process_command cmd rest e s).1.client.transfer_socket ≡ s.client.transfer_socket)
unfolding process_command send_my_reply send_reply monad
process_command-logs_in cmd rest e s l = let k = guarded-Effect cmd rest e s l in ground arith

-- How many calls of the file system there are in a trace.
abbrev pub file_calls : Trace → ℕ
file_calls [] = 0
file_calls (Event.fopen _ _ _ ∷ t) = suc (file_calls t)
file_calls (Event.fclose _ ∷ t) = suc (file_calls t)
file_calls (Event.fseek _ _ ∷ t) = suc (file_calls t)
file_calls (Event.fread _ _ ∷ t) = suc (file_calls t)
file_calls (Event.fwrite _ _ ∷ t) = suc (file_calls t)
file_calls (Event.remove _ ∷ t) = suc (file_calls t)
file_calls (Event.mkdir _ ∷ t) = suc (file_calls t)
file_calls (Event.rmdir _ ∷ t) = suc (file_calls t)
file_calls (Event.rename _ _ ∷ t) = suc (file_calls t)
file_calls (Event.finddir _ ∷ t) = suc (file_calls t)
file_calls (Event.findfirst _ ∷ t) = suc (file_calls t)
file_calls (Event.stat _ ∷ t) = suc (file_calls t)
file_calls (Event.findnext ∷ t) = suc (file_calls t)
file_calls (_ ∷ t) = file_calls t

-- A client that is not logged in and has no data connection, after `n` calls of the file system.
abbrev pub IsVisitor : ℕ → State → Type 0
IsVisitor n s =
    (file_calls s.trace ≡ n) × (s.client.logged_in ≡ false) × (s.client.transfer_socket ≡ none)

-- What is left of that when the client may have logged in.
abbrev pub IsGuest : ℕ → State → Type 0
IsGuest n s = (file_calls s.trace ≡ n) × (s.client.transfer_socket ≡ none)

process_command-IsGuest :
    (n : ℕ) (cmd : Command) (rest : Text) (e : Env) (s : State)
    → IsVisitor n s
    → IsGuest n (process_command cmd rest e s).1
unfolding process_command send_my_reply send_reply monad
process_command-IsGuest n cmd rest e s p = let k = guarded-Effect cmd rest e s p.1 in ground arith

send_hello-IsVisitor :
    (n : ℕ) (e : Env) (s : State) → IsVisitor n s → IsVisitor n (send_hello e s).1
unfolding send_hello send_formatted send_reply monad
send_hello-IsVisitor n e s p = ground arith

on_received-IsGuest :
    (n : ℕ) (r : Received) (e : Env) (s : State) → IsVisitor n s → IsGuest n (on_received r e s).1
unfolding on_received on_line monad
on_received-IsGuest n (failed k) e s p = ground arith
on_received-IsGuest n (bytes []) e s p = ground arith
on_received-IsGuest n (bytes (c ∷ t)) e s p = process_command-IsGuest n _ _ e _ p

-- Before the login no file is touched: a call of xFTPClientWork() for a client that is not logged in
-- and has no data connection makes no call of the file system and opens no data connection, whatever
-- line is received, PASS included, and whatever the libraries answer.
pub client_work-IsGuest :
    (n : ℕ) (e : Env) (s : State) → IsVisitor n s → IsGuest n (client_work e s).1
unfolding client_work monad
client_work-IsGuest n e s p =
    let s1 = (send_hello e s).1 in
    let s2 = record s1 { trace = Event.recv s1.client.socket ∷ s1.trace } in
    let h = send_hello-IsVisitor n e s p in
    let k = on_received-IsGuest n (e.recv s1.trace s1.client.socket) e s2 (h.0, h.1, h.2) in
    rw k.1 (k.0, k.1)
