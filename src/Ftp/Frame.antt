-- ===== src/Ftp/Frame.antt =====
-- What the functions of the server leave alone when they neither open nor close a file: the core of
-- the client, and the part of the trace that is not quiet.
pub mod Sending
use free_rtos_demos_cheri_ri.Prelude.{
  ℕ, zero, suc, ℤ, ◌≡◌, refl, Bool, true, false, Text, List, [], ◌∷◌, none, some,
}
use free_rtos_demos_cheri_ri.Ftp.World.{
  Socket, Handle, SocketResult, Event, Client, State, M, modify, emit,
}
use free_rtos_demos_cheri_ri.Ftp.Keeps.{
  Keeps, Keeps-modify, Keeps-pure, Keeps-bind, Keeps-emit, Keeps-gets, Keeps-asks, Keeps-when,
  Keeps-then, bind_rules,
}
use free_rtos_demos_cheri_ri.Ftp.Transfer.{
  send_reply, send_formatted, store_chunk, store_chunks, store_file_work, drain_socket,
  acknowledge_close, release_socket, transfer_close_socket, transfer_close_file,
}
use free_rtos_demos_cheri_ri.Ftp.Transfer.Connection.{
  transfer_start, use_socket, with_socket, transfer_connect, detect_connection, announce_connection,
  transfer_check,
}
use free_rtos_demos_cheri_ri.Ftp.Files.Retrieving.{
  Round, wait_for_space, send_block, copy_block, retrieve_round, retrieve_loop, wait_for_close,
  retrieve_file_work, announce_retrieve,
}
use free_rtos_demos_cheri_ri.Ftp.Listing.{
  announce_list, list_send_prep, list_entries, finish_round, list_round, list_step, list_loop,
  list_send_work,
}

pub record Core : Type 0 where
  pub root_dir : Text
  pub current_dir : Text
  pub read_handle : Handle
  pub write_handle : Handle
  pub logged_in : Bool
  pub status_user : Bool
  pub in_rename : Bool
  pub read_only : Bool

abbrev pub core : Client → Core
core c = record {
  root_dir = c.root_dir;
  current_dir = c.current_dir;
  read_handle = c.read_handle;
  write_handle = c.write_handle;
  logged_in = c.logged_in;
  status_user = c.status_user;
  in_rename = c.in_rename;
  read_only = c.read_only;
}

-- The events that neither open nor close a file, nor change a directory.
abbrev pub is_quiet : Event → Bool
is_quiet (Event.fopen _ _ _) = false
is_quiet (Event.fclose _) = false
is_quiet (Event.remove _) = false
is_quiet (Event.mkdir _) = false
is_quiet (Event.rmdir _) = false
is_quiet (Event.rename _ _) = false
is_quiet _ = true

-- A property of states that is about the core and the events that are not quiet.
pub record Frame (P : State → Type 0) : Type 0 where
  pub inner :
      (f : Client → Client)
      → ((c : Client) → core (f c) ≡ core c)
      → (s : State) → P s
      → P (record s { client = f s.client })
  pub quiet :
      (ev : Event) → is_quiet ev ≡ true → (s : State) → P s → P (record s { trace = ev ∷ s.trace })

module _ {P : State → Type 0} (fr : Frame P) where
  pub Keeps-inner :
      (f : Client → Client) → ((c : Client) → core (f c) ≡ core c) → Keeps P (modify f)
  Keeps-inner f k = Keeps-modify f (fr.inner f k)

  pub Keeps-quiet : (ev : Event) → is_quiet ev ≡ true → Keeps P (emit ev)
  Keeps-quiet ev k = Keeps-emit ev (fr.quiet ev k)

  pub Keeps-send_reply : (socket : Socket) (t : Text) (n : ℕ) → Keeps P (send_reply socket t n)
  unfolding send_reply
  Keeps-send_reply socket t n = search (bind_rules, Keeps-quiet) depth 16

  pub Keeps-send_formatted : (t : Text) → Keeps P (send_formatted t)
  unfolding send_formatted
  Keeps-send_formatted t = search (bind_rules, Keeps-send_reply) depth 16

  pub Keeps-store_chunk :
      (socket : Socket) (w : Handle) (chunk : Text) (rest : M ℤ)
      → Keeps P rest
      → Keeps P (store_chunk socket w chunk rest)
  unfolding store_chunk
  Keeps-store_chunk socket w chunk rest k = search (bind_rules, Keeps-inner, Keeps-quiet) depth 16

  pub Keeps-store_chunks :
      (socket : Socket) (w : Handle) (l : List Text) (last : ℤ)
      → Keeps P (store_chunks socket w l last)
  unfolding store_chunks
  Keeps-store_chunks socket w [] last = search (bind_rules, Keeps-quiet) depth 16
  Keeps-store_chunks socket w ([] ∷ l) last = search (bind_rules, Keeps-quiet) depth 16
  Keeps-store_chunks socket w ((b ∷ bs) ∷ l) last =
      Keeps-store_chunk socket w (b ∷ bs) _ (Keeps-store_chunks socket w l last)

  pub Keeps-store_file_work : Keeps P store_file_work
  unfolding store_file_work
  Keeps-store_file_work = search (bind_rules, Keeps-store_chunks) depth 16

  pub Keeps-drain_socket : (socket : Socket) → Keeps P (drain_socket socket)
  unfolding drain_socket
  Keeps-drain_socket none = search bind_rules depth 16
  Keeps-drain_socket (some k) = search (bind_rules, Keeps-store_file_work) depth 16

  pub Keeps-acknowledge_close : Keeps P acknowledge_close
  unfolding acknowledge_close
  Keeps-acknowledge_close = search (bind_rules, Keeps-inner, Keeps-send_reply) depth 16

  pub Keeps-release_socket : (socket : Socket) → Keeps P (release_socket socket)
  unfolding release_socket
  Keeps-release_socket none = search bind_rules depth 16
  Keeps-release_socket (some k) = search (bind_rules, Keeps-inner, Keeps-quiet) depth 16

  pub Keeps-transfer_close_socket : Keeps P transfer_close_socket
  unfolding transfer_close_socket
  Keeps-transfer_close_socket =
      search
        (
          bind_rules, Keeps-inner, Keeps-quiet, refl, Keeps-drain_socket, Keeps-acknowledge_close,
          Keeps-release_socket,
        )
        depth 16

  pub Keeps-transfer_start : Keeps P transfer_start
  unfolding transfer_start
  Keeps-transfer_start = search (bind_rules, Keeps-quiet) depth 16

  pub Keeps-use_socket : (do_listen : Bool) (k : ℕ) → Keeps P (use_socket do_listen k)
  unfolding use_socket
  Keeps-use_socket do_listen k =
      search (bind_rules, Keeps-inner, Keeps-quiet, Keeps-transfer_start) depth 20

  pub Keeps-with_socket : (do_listen : Bool) (r : SocketResult) → Keeps P (with_socket do_listen r)
  unfolding with_socket
  Keeps-with_socket do_listen (SocketResult.socket k) =
      search (bind_rules, Keeps-use_socket) depth 16
  Keeps-with_socket do_listen SocketResult.no_socket = search bind_rules depth 16
  Keeps-with_socket do_listen SocketResult.invalid_socket = search bind_rules depth 16

  pub Keeps-transfer_connect : (do_listen : Bool) → Keeps P (transfer_connect do_listen)
  unfolding transfer_connect
  Keeps-transfer_connect do_listen =
      search
        (bind_rules, Keeps-inner, Keeps-quiet, refl, Keeps-transfer_close_socket, Keeps-with_socket)
        depth 16

  pub Keeps-detect_connection : (socket : Socket) → Keeps P (detect_connection socket)
  unfolding detect_connection
  Keeps-detect_connection socket = search (bind_rules, Keeps-inner, Keeps-quiet) depth 20

  pub Keeps-announce_connection : (socket : Socket) → Keeps P (announce_connection socket)
  unfolding announce_connection
  Keeps-announce_connection socket = search (bind_rules, Keeps-inner, Keeps-send_formatted) depth 16

  pub Keeps-transfer_check : Keeps P transfer_close_file → Keeps P transfer_check
  unfolding transfer_check
  Keeps-transfer_check k = Keeps-bind _ _ (Keeps-gets _) λ socket.
      Keeps-then _ _ (Keeps-detect_connection socket) (
        Keeps-bind _ _ (Keeps-gets _) λ con. Keeps-when _ _ (
          Keeps-then _ _ (Keeps-announce_connection socket) (
            Keeps-bind _ _ (Keeps-asks _)
              λ gone. Keeps-when _ _ (Keeps-then _ _ Keeps-transfer_close_socket k))))

  pub Keeps-announce_retrieve : Keeps P announce_retrieve
  unfolding announce_retrieve
  Keeps-announce_retrieve =
      search
        (bind_rules, Keeps-inner, Keeps-quiet, refl, Keeps-send_formatted, Keeps-transfer_start)
        depth 16

  pub Keeps-announce_list : Keeps P announce_list
  unfolding announce_list
  Keeps-announce_list =
      search
        (bind_rules, Keeps-inner, Keeps-quiet, refl, Keeps-send_formatted, Keeps-transfer_start)
        depth 16

  pub Keeps-list_send_prep : Keeps P list_send_prep
  unfolding list_send_prep
  Keeps-list_send_prep =
      search (bind_rules, Keeps-inner, Keeps-quiet, Keeps-announce_list, Keeps-send_reply) depth 24
