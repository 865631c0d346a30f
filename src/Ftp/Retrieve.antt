-- ===== src/Ftp/Retrieve.antt =====
-- The loop of prvRetrieveFileWork() ends.
use free_rtos_demos_cheri_ri.Prelude.{
  ℕ, zero, suc, ◌-◌, ◌<◌, ℤ, ◌≡◌, refl, Bool, true, false, Text, ◌==◌, ◌∷◌, arith, length, ap,
}
use free_rtos_demos_cheri_ri.Ftp.World.{
  Socket, Handle, Event, Env, Client, State, M, monad, pure, branch◌then◌else◌,
}
use free_rtos_demos_cheri_ri.Ftp.Files.Retrieving.{
  Round, wait_for_space, send_block, copy_block, block_size, retrieve_round, next_round,
  retrieve_loop,
}

abbrev pub goes_on : Round → Bool
goes_on (Round.again rc) = true
goes_on (Round.leave rc) = false

send_block-bytes_left :
    (socket : Socket) (block : Text) (e : Env) (s : State)
    → goes_on (send_block socket block e s).0 ≡ true
    → ((send_block socket block e s).1.client.bytes_left ≡ s.client.bytes_left - length block)
      × (0 < (send_block socket block e s).1.client.bytes_left)
unfolding send_block monad
send_block-bytes_left socket block e s h = ground arith

copy_block-bytes_left :
    (socket : Socket) (handle : Handle) (count : ℕ) (e : Env) (s : State)
    → 0 < count
    → goes_on (copy_block socket handle count e s).0 ≡ true
    → (copy_block socket handle count e s).1.client.bytes_left < s.client.bytes_left
unfolding copy_block monad
copy_block-bytes_left socket handle count e s p h =
    let block = e.fread s.trace handle count in
    let s2 = record s { trace = Event.fread handle count ∷ s.trace } in
    let k = send_block-bytes_left socket block e s2 in ground arith

lt_at : {a b c : ℕ} → a < b → b ≡ c → a < c
lt_at h k = omega (arith, h, k)

-- The same after the test of the size.
copy_or_leave-bytes_left :
    (socket : Socket) (handle : Handle) (count : ℕ) (rc : ℤ) (e : Env) (s : State)
    → goes_on
        ((branch count == 0 then pure (Round.leave rc) else copy_block socket handle count) e s).0
      ≡ true
    → ((branch count == 0 then pure (Round.leave rc) else copy_block socket handle count) e
        s).1.client.bytes_left
      < s.client.bytes_left
unfolding monad
copy_or_leave-bytes_left socket handle count rc e s h =
    let k = copy_block-bytes_left socket handle count e s in ground arith

wait_for_space-bytes_left :
    (socket : Socket) (rc : ℤ) (e : Env) (s : State)
    → (wait_for_space socket rc e s).1.client ≡ s.client
unfolding wait_for_space monad
wait_for_space-bytes_left socket rc e s = ground arith

-- A round that goes on has sent something.
pub retrieve_round-bytes_left :
    (rc : ℤ) (e : Env) (s : State)
    → goes_on (retrieve_round rc e s).0 ≡ true
    → (retrieve_round rc e s).1.client.bytes_left < s.client.bytes_left
unfolding retrieve_round block_size monad
retrieve_round-bytes_left rc e s h =
    let r = wait_for_space s.client.transfer_socket rc e s in
    let k = wait_for_space-bytes_left s.client.transfer_socket rc e s in
    let count = block_size r.1.client.bytes_left r.0.1 in
    let m =
      copy_or_leave-bytes_left s.client.transfer_socket s.client.read_handle count r.0.0 e r.1 h in
    lt_at m (ap (λ (c : Client). c.bytes_left) k)

-- The round after the one with the result `r`.
next_round-leaves :
    (rest : ℤ → M Round) (r : Round) (e : Env) (t : State)
    → ((last : ℤ) → goes_on r ≡ true → goes_on (rest last e t).0 ≡ false)
    → goes_on (next_round rest r e t).0 ≡ false
unfolding next_round pure
next_round-leaves rest (Round.again last) e t k = k last refl
next_round-leaves rest (Round.leave last) e t k = refl

-- The loop of prvRetrieveFileWork() ends by one of its break statements: with more fuel than there
-- are bytes left of the file, it leaves before the fuel is gone, whatever the libraries answer.
pub retrieve_loop-leaves :
    (e : Env) (fuel : ℕ) (rc : ℤ) (s : State)
    → s.client.bytes_left < fuel
    → goes_on (retrieve_loop fuel rc e s).0 ≡ false
unfolding retrieve_loop next_round monad
retrieve_loop-leaves e zero rc s h = absurd (omega arith)
retrieve_loop-leaves e (suc fuel) rc s h =
    next_round-leaves (retrieve_loop fuel) (retrieve_round rc e s).0 e (retrieve_round rc e s).1
      λ last g.
        retrieve_loop-leaves e fuel last (retrieve_round rc e s).1
          (omega (arith, retrieve_round-bytes_left rc e s g, h))
