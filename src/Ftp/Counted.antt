-- ===== src/Ftp/Counted.antt =====
-- The byte count of a reception: ulRecvBytes in prvStoreFileWork().
use free_rtos_demos_cheri_ri.Prelude.{ℕ, ◌+◌, ◌%◌, ◌^◌, ◌≡◌, ℤ, Text, List, [], ◌∷◌, length, arith}
use free_rtos_demos_cheri_ri.Ftp.World.{Socket, Handle, Event, Trace, Env, State, M}
use free_rtos_demos_cheri_ri.Ftp.Keeps.{
  Keeps, Keeps-pure, Keeps-gets, Keeps-asks, Keeps-bind, Keeps-then, Keeps-emit, Ensures-pure,
  Ensures-branch, Ensures-modify, Ensures-emit, Ensures-weaken, Keeps-Ensures-bind, Ensures-Keeps,
}
use free_rtos_demos_cheri_ri.Ftp.Transfer.{store_chunk, store_chunks, store_file_work}

-- How many bytes have been passed to ff_fwrite().
abbrev pub bytes_to_file : Trace → ℕ
bytes_to_file [] = 0
bytes_to_file (Event.fwrite _ b ∷ t) = length b + bytes_to_file t
bytes_to_file (_ ∷ t) = bytes_to_file t

-- The count is ahead of the bytes written by as much as `counted` is ahead of `written`, with `more`
-- bytes counted but not yet written.
abbrev IsCounted : ℕ → ℕ → ℕ → State → Type 0
IsCounted counted written more s =
    (s.client.recv_bytes + written) % 2 ^ 32 ≡ (counted + bytes_to_file s.trace + more) % 2 ^ 32

module _ (counted written : ℕ) where
  store_chunk-IsCounted :
      (socket : Socket) (handle : Handle) (chunk : Text) (rest : M ℤ)
      → Keeps (IsCounted counted written 0) rest
      → Keeps (IsCounted counted written 0) (store_chunk socket handle chunk rest)
  unfolding store_chunk
  store_chunk-IsCounted socket handle chunk rest k = Ensures-Keeps _ (
      Ensures-emit (IsCounted counted written 0) _ _ (λ s p. p)
        (Ensures-modify (IsCounted counted written (length chunk)) _ _ (λ s p. omega (arith, p))
          (Keeps-Ensures-bind _ _ (Keeps-asks _) λ w.
            Ensures-emit (IsCounted counted written 0) _ _ (λ s p. omega (arith, p))
              (Ensures-emit (IsCounted counted written 0) _ _ (λ s p. p)
                (Ensures-branch _ _ _ (Ensures-weaken _ (λ s p. p) k) (
                  Ensures-modify (IsCounted counted written 0) _ _ (λ s p. p)
                    (Ensures-pure _ (λ s p. p))))))))

  store_chunks-IsCounted :
      (socket : Socket) (handle : Handle) (l : List Text) (last : ℤ)
      → Keeps (IsCounted counted written 0) (store_chunks socket handle l last)
  unfolding store_chunks
  store_chunks-IsCounted socket handle [] last =
      Keeps-then _ _ (Keeps-emit _ (λ s p. p)) (Keeps-pure _)
  store_chunks-IsCounted socket handle ([] ∷ l) last =
      Keeps-then _ _ (Keeps-emit _ (λ s p. p)) (Keeps-pure _)
  store_chunks-IsCounted socket handle ((b ∷ bs) ∷ l) last =
      store_chunk-IsCounted socket handle (b ∷ bs) _ (store_chunks-IsCounted socket handle l last)

  store_file_work-Keeps : Keeps (IsCounted counted written 0) store_file_work
  unfolding store_file_work
  store_file_work-Keeps = Keeps-bind _ _ (Keeps-gets _) λ socket.
      Keeps-bind _ _ (Keeps-gets _) λ handle.
        Keeps-bind _ _ (Keeps-asks _)
          λ burst. store_chunks-IsCounted socket handle burst.chunks burst.last

-- In a call of prvStoreFileWork() the byte count of the client grows by as much as the number of bytes
-- passed to ff_fwrite(), modulo 2 ^ 32, also when a write falls short or the connection ends.
pub store_file_work-recv_bytes :
    (e : Env) (s : State)
    → ((store_file_work e s).1.client.recv_bytes + bytes_to_file s.trace) % 2 ^ 32
      ≡ (s.client.recv_bytes + bytes_to_file (store_file_work e s).1.trace) % 2 ^ 32
store_file_work-recv_bytes e s =
    let k =
      (store_file_work-Keeps s.client.recv_bytes (bytes_to_file s.trace)).at e s (omega arith) in
    omega (arith, k)
