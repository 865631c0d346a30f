-- ===== src/Ftp/Handles.antt =====
-- The file handles of ff_fopen() and ff_fclose(): what is opened, closed and held.
pub mod Opening
pub mod Balance
use free_rtos_demos_cheri_ri.Prelude.{
  ℕ, zero, suc, ◌+◌, ◌≡◌, refl, ap, Bool, true, false, Text, [], ◌∷◌, Option, none, some, ◌==◌,
  if◌then◌else◌, arith,
}
use free_rtos_demos_cheri_ri.Ftp.World.{
  Handle, Event, Trace, Env, Client, State, M, monad, OpenMode, modify,
}
use free_rtos_demos_cheri_ri.Ftp.Keeps.{Keeps, Ensures}
use free_rtos_demos_cheri_ri.Ftp.Frame
use free_rtos_demos_cheri_ri.Ftp.Frame.{Frame, is_quiet, core, Core}
use free_rtos_demos_cheri_ri.Ftp.Transfer.{
  send_formatted, send_reply, close_handle, transfer_close_file, transfer_close_socket,
}
use free_rtos_demos_cheri_ri.Ftp.Transfer.Connection.{transfer_check, client_delete}
use free_rtos_demos_cheri_ri.Ftp.Files.{
  open_file, seek_or_close, keep_if, open_at, open_for_store, announce_store, with_store_handle,
  store_file_prep,
}
use free_rtos_demos_cheri_ri.Ftp.Files.Retrieving.{
  seek_to_restart, open_for_retrieve, retrieve_file_prep,
}

-- 1 if the handle is h
abbrev pub is_handle : ℕ → Handle → ℕ
is_handle h none = 0
is_handle h (some k) = if k == h then 1 else 0

-- How often h has been returned by ff_fopen(), and passed to ff_fclose().
abbrev pub opened : ℕ → Trace → ℕ
opened h [] = 0
opened h (Event.fopen _ _ k ∷ t) = is_handle h k + opened h t
opened h (_ ∷ t) = opened h t

abbrev pub closed : ℕ → Trace → ℕ
closed h [] = 0
closed h (Event.fclose k ∷ t) = is_handle h k + closed h t
closed h (_ ∷ t) = closed h t

abbrev pub held : ℕ → Client → ℕ
held h c = is_handle h c.write_handle + is_handle h c.read_handle

-- Every open of h is matched by a close, or by the client that still holds h, or by one of `others`
-- that other clients hold.
abbrev pub IsBalanced : ℕ → ℕ → State → Type 0
IsBalanced h others s = opened h s.trace ≡ closed h s.trace + held h s.client + others

-- The same while a function holds one more handle in a local variable.
abbrev pub Pending : ℕ → ℕ → Handle → State → Type 0
Pending h others k s =
    opened h s.trace ≡ closed h s.trace + held h s.client + is_handle h k + others

-- The same when the client has no file to write, and `r` for the file to read, which is not counted.
abbrev pub Held : ℕ → ℕ → Handle → Handle → State → Type 0
Held h others k r s =
    (opened h s.trace ≡ closed h s.trace + is_handle h k + others)
    × (s.client.write_handle ≡ none)
    × (s.client.read_handle ≡ r)

module _ (h others : ℕ) where
  opened-quiet : (ev : Event) (t : Trace) → is_quiet ev ≡ true → opened h (ev ∷ t) ≡ opened h t
  opened-quiet (Event.fopen _ _ _) t q = cc
  opened-quiet (Event.fclose _) t q = cc
  opened-quiet _ t q = refl

  closed-quiet : (ev : Event) (t : Trace) → is_quiet ev ≡ true → closed h (ev ∷ t) ≡ closed h t
  closed-quiet (Event.fopen _ _ _) t q = cc
  closed-quiet (Event.fclose _) t q = cc
  closed-quiet _ t q = refl

  write-core : (c d : Client) → core c ≡ core d → c.write_handle ≡ d.write_handle
  write-core c d k = ap (λ (x : Core). x.write_handle) k

  read-core : (c d : Client) → core c ≡ core d → c.read_handle ≡ d.read_handle
  read-core c d k = ap (λ (x : Core). x.read_handle) k

  pub IsBalanced-Frame : Frame (IsBalanced h others)
  IsBalanced-Frame = record {
    inner = λ f k s p.
        rw
          (
            write-core (f s.client) s.client (k s.client),
            read-core (f s.client) s.client (k s.client),
          )
          p;
    quiet = λ ev q s p. rw (opened-quiet ev s.trace q, closed-quiet ev s.trace q) p;
  }

  pub Pending-Frame : (k : Handle) → Frame (Pending h others k)
  Pending-Frame hd = record {
    inner = λ f k s p.
        rw
          (
            write-core (f s.client) s.client (k s.client),
            read-core (f s.client) s.client (k s.client),
          )
          p;
    quiet = λ ev q s p. rw (opened-quiet ev s.trace q, closed-quiet ev s.trace q) p;
  }

  pub Held-Frame : (k r : Handle) → Frame (Held h others k r)
  Held-Frame hd r = record {
    inner = λ f k s p.
        rw
          (
            write-core (f s.client) s.client (k s.client),
            read-core (f s.client) s.client (k s.client),
          )
          p;
    quiet = λ ev q s p. rw (opened-quiet ev s.trace q, closed-quiet ev s.trace q) p;
  }

  pub close_file-IsBalanced : Keeps (IsBalanced h others) transfer_close_file
  unfolding transfer_close_file close_handle monad
  close_file-IsBalanced = record { at = λ e s p. ground arith }

  pub close_file-Held :
      Ensures (IsBalanced h others) transfer_close_file (λ u s. Held h others none none s)
  unfolding transfer_close_file close_handle monad
  close_file-Held = record { after = λ e s p. ground arith }

  pub close_file-Keeps-Held : (k : Handle) → Keeps (Held h others k none) transfer_close_file
  unfolding transfer_close_file close_handle monad
  close_file-Keeps-Held k = record { at = λ e s p. ground arith }
