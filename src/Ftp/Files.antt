-- ===== src/Ftp/Files.antt =====
-- prvStoreFilePrep() in protocols/FTP/FreeRTOS_FTP_server.c, and the seek of both preparations; with
-- ipconfigFTP_TX_ZERO_COPY off.
pub mod Retrieving
use free_rtos_demos_cheri_ri.Prelude.{
  ℕ, zero, suc, ◌+◌, ◌-◌, ◌%◌, ◌^◌, min, ℤ, pos, negsuc, is_neg, is_zero, Bool, true, false, Text,
  codes, List, [], ◌∷◌, ◌++◌, ◌==◌, ltb, leb, if◌then◌else◌, none, some, length, snprintf, dec,
  to_u32,
}
use free_rtos_demos_cheri_ri.Ftp.Commands.{crlf, repl_226, repl_450, repl_552}
use free_rtos_demos_cheri_ri.Ftp.World.{
  Received, failed, bytes, Socket, Handle, Errno, enospc, OpenMode, rb, wb, ab, Event,
  close_after_send, select_write, select_write_except, Env, M, ◌>>=◌, ◌>>◌, branch◌then◌else◌, pure,
  gets, asks, modify, emit, when,
}
use free_rtos_demos_cheri_ri.Ftp.Path.{max_filename, buffer_size, make_absolute}
use free_rtos_demos_cheri_ri.Ftp.Parse.{tmode_ascii}
use free_rtos_demos_cheri_ri.Ftp.Transfer.{
  ack_size, send_reply, send_formatted, transfer_close_file,
}
use free_rtos_demos_cheri_ri.Ftp.Transfer.Connection.{transfer_check, transfer_start, dotted}

-- ff_fopen() of the path in pcFileName
unfoldable pub open_file : OpenMode → M Handle
open_file mode = do
  path ← gets (λ c. c.file_name)
  handle ← asks (λ e t. e.fopen t path mode)
  emit (Event.fopen path mode handle)
  pure handle

-- The reply to a seek that is refused.
unfoldable pub seek_invalid : ℕ → ℕ → Text
unfolding codes dec crlf
seek_invalid offset size =
    codes "450 Seek invalid " ++ dec offset ++ codes " length " ++ dec size ++ crlf

-- A seek to `offset` in an open file, where `allowed` is the test against its size: false, and the
-- file is closed, if it is not possible.
unfoldable pub seek_or_close : ℕ → Bool → ℕ → ℕ → M Bool
unfolding seek_invalid
seek_or_close h allowed offset size = do
  rc ← asks (λ e t. if allowed then e.fseek t h offset else negsuc 0)
  when allowed (emit (Event.fseek (some h) offset))
  branch is_zero rc
      then pure true
      else do send_formatted (seek_invalid offset size); emit (Event.fclose (some h)); pure false

unfoldable pub keep_if : Handle → Bool → Handle
keep_if h true = h
keep_if h false = none

-- The opening of an existing file at the restart offset, "ab".
unfoldable pub open_at : ℕ → Handle → M Handle
unfolding keep_if
open_at offset none = pure none
open_at offset (some h) = do
  size ← asks (λ e t. e.open_size t h)
  ok ← seek_or_close h (leb offset size) offset size
  pure (keep_if (some h) ok)

unfoldable pub open_for_store : M Handle
open_for_store = do
  offset ← gets (λ c. c.restart_offset)
  branch offset == 0 then open_file wb else do
    modify (λ c. record c { restart_offset = 0 })
    handle ← open_file ab
    open_at offset handle

unfoldable pub store_error : Errno → Text
unfolding repl_552 repl_450
store_error enospc = repl_552
store_error _ = repl_450

unfoldable pub accepted_format : Text
unfolding codes crlf
accepted_format = codes "150 Accepted data connection from %xip:%u" ++ crlf

unfoldable pub opening_to_store : Text
unfolding codes crlf
opening_to_store = codes "150 Opening BIN connection to store file" ++ crlf

-- "150 ..", now or when the data connection is there.
unfoldable pub announce_store : M (Unit {0})
announce_store = do
  listening ← gets (λ c. c.is_listen)
  branch listening
      then (do
        modify (λ c. record c { connection_ack = snprintf ack_size accepted_format })
        transfer_check)
      else (do
        send_formatted opening_to_store
        modify (λ c. record c { connection_ack = [] })
        transfer_start
        pure tt)

unfoldable pub with_store_handle : Handle → M Bool
unfolding store_error
with_store_handle none = do
  why ← asks (λ e t. store_error (e.errno t))
  socket ← gets (λ c. c.socket)
  send_reply socket why 0
  pure false
with_store_handle (some h) = do
  announce_store
  now ← asks (λ e t. e.tick_count t)
  modify (λ c. record c { write_handle = some h; start_time = now })
  pure true

unfoldable pub store_file_prep : Text → M Bool
store_file_prep name = do
  transfer_close_file
  modify (λ c. record c { file_name = make_absolute c max_filename name })
  handle ← open_for_store
  with_store_handle handle
