-- ===== src/Ftp/Handles/Opening.antt =====
-- The handles of the functions that open a file: prvStoreFilePrep(), prvRetrieveFilePrep() and
-- prvRenameFrom().
use free_rtos_demos_cheri_ri.Prelude.{ℕ, ◌≡◌, refl, Bool, true, false, Text, none, some, arith}
use free_rtos_demos_cheri_ri.Ftp.World.{Handle, OpenMode, rb, wb, ab, Client, modify, monad}
use free_rtos_demos_cheri_ri.Ftp.Keeps.{
  Keeps, Keeps-gets, Keeps-asks, Keeps-then, Keeps-bind, Keeps-pure, Keeps-modify, Keeps-when,
  bind_rules, Ensures, Ensures-pure, Ensures-branch, Ensures-modify, Ensures-emit, Ensures-weaken,
  Ensures-bind, Keeps-Ensures-bind, Keeps-Ensures-then, Ensures-Keeps-then, Ensures-Keeps,
}
use free_rtos_demos_cheri_ri.Ftp.Frame
use free_rtos_demos_cheri_ri.Ftp.Handles.{
  IsBalanced, Pending, Held, IsBalanced-Frame, Held-Frame, close_file-Held, close_file-Keeps-Held,
}
use free_rtos_demos_cheri_ri.Ftp.Transfer.Connection.{transfer_start, transfer_check}
use free_rtos_demos_cheri_ri.Ftp.Files.{
  open_file, seek_or_close, keep_if, open_at, open_for_store, announce_store, with_store_handle,
  store_file_prep,
}
use free_rtos_demos_cheri_ri.Ftp.Files.Retrieving.{
  finish_seek, announce_retrieve, seek_to_restart, open_for_retrieve, retrieve_file_prep,
}
use free_rtos_demos_cheri_ri.Ftp.Dirs.{rename_source, rename_from, reply_text}

module _ (h others : ℕ) where
  open_file-Held :
      (mode : OpenMode)
      → Ensures (Held h others none none) (open_file mode) (λ k s. Held h others k none s)
  unfolding open_file monad
  open_file-Held mode = record { after = λ e s p. ground arith }

  open_file-Pending :
      (mode : OpenMode)
      → Ensures (IsBalanced h others) (open_file mode) (λ k s. Pending h others k s)
  unfolding open_file monad
  open_file-Pending mode = record { after = λ e s p. ground arith }

  -- A refused seek closes the file.
  seek_or_close-Held :
      (k : ℕ) (allowed : Bool) (offset size : ℕ) (r : Handle)
      → Ensures
          (Held h others (some k) r)
          (seek_or_close k allowed offset size)
          (λ ok s. Held h others (keep_if (some k) ok) r s)
  unfolding seek_or_close keep_if
  seek_or_close-Held k allowed offset size r = Keeps-Ensures-bind _ _ (Keeps-asks _) λ rc.
      Keeps-Ensures-then _ _
        (Keeps-when _ _ (Frame.Keeps-quiet (Held-Frame h others (some k) r) _ refl))
        (Ensures-branch _ _ _ (Ensures-pure true (λ s p. p)) (
          Keeps-Ensures-then _ _ (Frame.Keeps-send_formatted (Held-Frame h others (some k) r) _) (
            Ensures-emit (Held h others none r) _ _ (λ s p. ground arith)
              (Ensures-pure false (λ s p. p)))))

  open_at-Held :
      (offset : ℕ) (k : Handle)
      → Ensures (Held h others k none) (open_at offset k) (λ k s. Held h others k none s)
  unfolding open_at
  open_at-Held offset none = Ensures-pure none (λ s p. p)
  open_at-Held offset (some k) = Keeps-Ensures-bind _ _ (Keeps-asks _) λ size.
      Ensures-bind _ _ (seek_or_close-Held k _ offset size none) λ ok. Ensures-pure _ (λ s p. p)

  open_for_store-Held :
      Ensures (Held h others none none) open_for_store (λ k s. Held h others k none s)
  unfolding open_for_store
  open_for_store-Held = Keeps-Ensures-bind _ _ (Keeps-gets _) λ offset.
      Ensures-branch _ _ _ (open_file-Held wb) (
        Keeps-Ensures-then _ _ (Frame.Keeps-inner (Held-Frame h others none none) _ (λ c. refl))
          (Ensures-bind _ _ (open_file-Held ab) λ k. open_at-Held offset k))

  transfer_start-Held : (k : Handle) → Keeps (Held h others k none) transfer_start
  transfer_start-Held k = Frame.Keeps-transfer_start (Held-Frame h others k none)

  transfer_check-Held : (k : Handle) → Keeps (Held h others k none) transfer_check
  transfer_check-Held k =
      Frame.Keeps-transfer_check (Held-Frame h others k none) (close_file-Keeps-Held h others k)

  announce_store-Held : (k : Handle) → Keeps (Held h others k none) announce_store
  unfolding announce_store
  announce_store-Held k =
      search
        (
          bind_rules,
          Frame.Keeps-inner (Held-Frame h others k none),
          refl,
          transfer_check-Held,
          Frame.Keeps-send_formatted (Held-Frame h others k none),
          transfer_start-Held,
        )
        depth 16

  with_store_handle-Held :
      (k : Handle)
      → Ensures (Held h others k none) (with_store_handle k) (λ ok s. IsBalanced h others s)
  unfolding with_store_handle
  with_store_handle-Held none =
      Ensures-weaken _ (λ s p. ground arith)
        (Keeps-bind _ _ (Keeps-asks _) λ why. Keeps-bind _ _ (Keeps-gets _) λ socket.
          Keeps-then _ _ (Frame.Keeps-send_reply (IsBalanced-Frame h others) socket why 0)
            (Keeps-pure false))
  with_store_handle-Held (some k) = Keeps-Ensures-then _ _ (announce_store-Held (some k)) (
      Keeps-Ensures-bind _ _ (Keeps-asks _) λ now.
        Ensures-modify (IsBalanced h others) _ _ (λ s p. ground arith)
          (Ensures-pure true (λ s p. p)))

  pub store_file_prep-IsBalanced :
      (name : Text) → Keeps (IsBalanced h others) (store_file_prep name)
  unfolding store_file_prep
  store_file_prep-IsBalanced name = Ensures-Keeps _ (
      Ensures-Keeps-then _ _ (close_file-Held h others) (
        Keeps-Ensures-then _ _ (Frame.Keeps-inner (Held-Frame h others none none) _ (λ c. refl))
          (Ensures-bind _ _ open_for_store-Held λ k. with_store_handle-Held k)))

  -- What prvRetrieveFilePrep() does with the result of the seek.
  after_seek :
      (k size : ℕ) (ok : Bool)
      → Ensures
          (Held h others (keep_if (some k) ok) (some k))
          (finish_seek ok size)
          (λ b s. IsBalanced h others s)
  unfolding keep_if finish_seek
  after_seek k size true =
      Ensures-modify (IsBalanced h others) _ _ (λ s p. ground arith) (Ensures-pure true (λ s p. p))
  after_seek k size false =
      Ensures-modify (IsBalanced h others) _ _ (λ s p. ground arith) (Ensures-pure false (λ s p. p))

  seek_to_restart-Held :
      (k : ℕ)
      → Ensures
          (Held h others (some k) (some k))
          (seek_to_restart k)
          (λ ok s. IsBalanced h others s)
  unfolding seek_to_restart
  seek_to_restart-Held k = Keeps-Ensures-bind _ _ (Keeps-gets _) λ offset.
      Keeps-Ensures-bind _ _ (Keeps-asks _) λ size.
        Ensures-branch _ _ _ (Ensures-pure true (λ s p. ground arith)) (
          Keeps-Ensures-then _ _
            (Frame.Keeps-inner (Held-Frame h others (some k) (some k)) _ (λ c. refl))
            (Ensures-bind _ _ (seek_or_close-Held k _ offset size (some k)) (after_seek k size)))

  open_for_retrieve-Held :
      (k : Handle)
      → Ensures (Held h others k k) (open_for_retrieve k) (λ ok s. IsBalanced h others s)
  unfolding open_for_retrieve
  open_for_retrieve-Held none =
      Ensures-weaken _ (λ s p. ground arith)
        (Keeps-bind _ _ (Keeps-gets _) λ socket.
          Keeps-then _ _ (Frame.Keeps-send_reply (IsBalanced-Frame h others) socket _ 0)
            (Keeps-pure false))
  open_for_retrieve-Held (some k) = Keeps-Ensures-bind _ _ (Keeps-asks _) λ size.
      Ensures-modify (Held h others (some k) (some k)) _ _ (λ s p. ground arith)
        (seek_to_restart-Held k)

  announce_retrieve-Balanced : Keeps (IsBalanced h others) announce_retrieve
  announce_retrieve-Balanced = Frame.Keeps-announce_retrieve (IsBalanced-Frame h others)

  pub retrieve_file_prep-IsBalanced :
      (name : Text) → Keeps (IsBalanced h others) (retrieve_file_prep name)
  unfolding retrieve_file_prep
  retrieve_file_prep-IsBalanced name = Ensures-Keeps _ (
      Ensures-Keeps-then _ _ (close_file-Held h others) (
        Keeps-Ensures-then _ _ (Frame.Keeps-inner (Held-Frame h others none none) _ (λ c. refl)) (
          Ensures-bind _ _ (open_file-Held rb) λ k.
            Ensures-modify (Held h others k k) _ _ (λ s p. ground arith)
              (Keeps-Ensures-bind _ _ (Keeps-asks _) λ size.
                Ensures-bind _ _ (open_for_retrieve-Held k) λ ok.
                  Ensures-weaken _ (λ s p. p)
                    (search
                      (
                        bind_rules,
                        announce_retrieve-Balanced,
                        refl,
                        Frame.Keeps-inner (IsBalanced-Frame h others),
                        Frame.Keeps-quiet (IsBalanced-Frame h others),
                      )
                      depth 20)))))

  -- A change of the client that leaves its handles alone.
  pub Keeps-same_handles :
      (f : Client → Client)
      → ((c : Client) → (f c).write_handle ≡ c.write_handle)
      → ((c : Client) → (f c).read_handle ≡ c.read_handle)
      → Keeps (IsBalanced h others) (modify f)
  Keeps-same_handles f w r = Keeps-modify f (λ s p. rw (w s.client, r s.client) p)

  reply_text-IsBalanced : (t : Text) → Keeps (IsBalanced h others) (reply_text t)
  unfolding reply_text
  reply_text-IsBalanced t =
      search (bind_rules, Frame.Keeps-send_reply (IsBalanced-Frame h others)) depth 12

  rename_source-IsBalanced :
      (k : Handle) → Ensures (Pending h others k) (rename_source k) (λ u s. IsBalanced h others s)
  unfolding rename_source
  rename_source-IsBalanced none =
      Ensures-weaken _ (λ s p. ground arith)
        (search (bind_rules, Keeps-same_handles, reply_text-IsBalanced) depth 16)
  rename_source-IsBalanced (some k) =
      Ensures-emit (IsBalanced h others) _ _ (λ s p. ground arith)
        (Ensures-weaken _ (λ s p. p)
          (search (bind_rules, Keeps-same_handles, reply_text-IsBalanced) depth 16))

  pub rename_from-IsBalanced : (name : Text) → Keeps (IsBalanced h others) (rename_from name)
  unfolding rename_from
  rename_from-IsBalanced name = Ensures-Keeps _ (
      Keeps-Ensures-then _ _ (Frame.Keeps-inner (IsBalanced-Frame h others) _ (λ c. refl))
        (Ensures-bind _ _ (open_file-Pending rb) λ k. rename_source-IsBalanced k))
