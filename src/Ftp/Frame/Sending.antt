-- ===== src/Ftp/Frame/Sending.antt =====
-- What the functions that send a file or a listing leave alone, as in Ftp/Frame.
use free_rtos_demos_cheri_ri.Prelude.{ℕ, zero, suc, ℤ, Text}
use free_rtos_demos_cheri_ri.Ftp.World.{Socket, Handle, State, M}
use free_rtos_demos_cheri_ri.Ftp.Keeps.{Keeps, Keeps-pure, Keeps-bind, bind_rules}
use free_rtos_demos_cheri_ri.Ftp.Files.Retrieving.{
  Round, wait_for_space, send_block, copy_block, retrieve_round, retrieve_loop, wait_for_close,
  retrieve_file_work,
}
use free_rtos_demos_cheri_ri.Ftp.Listing.{
  list_entries, finish_round, list_round, list_step, list_loop, list_send_work,
}
use free_rtos_demos_cheri_ri.Ftp.Frame
use free_rtos_demos_cheri_ri.Ftp.Frame.{Frame}

module _ {P : State → Type 0} (fr : Frame P) where
  pub Keeps-wait_for_space : (socket : Socket) (rc : ℤ) → Keeps P (wait_for_space socket rc)
  unfolding wait_for_space
  Keeps-wait_for_space socket rc = search (bind_rules, Frame.Keeps-quiet fr) depth 16

  pub Keeps-send_block : (socket : Socket) (block : Text) → Keeps P (send_block socket block)
  unfolding send_block
  Keeps-send_block socket block =
      search (bind_rules, Frame.Keeps-inner fr, Frame.Keeps-quiet fr) depth 16

  pub Keeps-copy_block :
      (socket : Socket) (handle : Handle) (count : ℕ) → Keeps P (copy_block socket handle count)
  unfolding copy_block
  Keeps-copy_block socket handle count =
      search (bind_rules, Frame.Keeps-inner fr, Frame.Keeps-quiet fr, Keeps-send_block) depth 20

  pub Keeps-retrieve_round : (rc : ℤ) → Keeps P (retrieve_round rc)
  unfolding retrieve_round
  Keeps-retrieve_round rc = search (bind_rules, Keeps-wait_for_space, Keeps-copy_block) depth 20

  pub Keeps-retrieve_loop : (fuel : ℕ) (rc : ℤ) → Keeps P (retrieve_loop fuel rc)
  unfolding retrieve_loop
  Keeps-retrieve_loop zero rc = Keeps-pure _
  Keeps-retrieve_loop (suc fuel) rc =
      Keeps-bind _ _ (Keeps-retrieve_round rc) (elim [
        | Round.leave last ↦ Keeps-pure _
        | Round.again last ↦ Keeps-retrieve_loop fuel last
      ])

  pub Keeps-wait_for_close :
      (n : ℕ) (socket : Socket) (rc : ℤ) → Keeps P (wait_for_close n socket rc)
  unfolding wait_for_close
  Keeps-wait_for_close zero socket rc = search bind_rules depth 16
  Keeps-wait_for_close (suc n) socket rc =
      search (bind_rules, Frame.Keeps-quiet fr, Keeps-wait_for_close n) depth 12

  pub Keeps-retrieve_file_work : Keeps P retrieve_file_work
  unfolding retrieve_file_work
  Keeps-retrieve_file_work =
      search (bind_rules, Frame.Keeps-quiet fr, Keeps-retrieve_loop, Keeps-wait_for_close) depth 20

  pub Keeps-list_entries : (fuel : ℕ) (space : ℕ) → Keeps P (list_entries fuel space)
  unfolding list_entries
  Keeps-list_entries zero space = search bind_rules depth 16
  Keeps-list_entries (suc fuel) space =
      search (bind_rules, Frame.Keeps-inner fr, Frame.Keeps-quiet fr, Keeps-list_entries fuel) depth
        20

  pub Keeps-finish_round : (lines : Text) → Keeps P (finish_round lines)
  unfolding finish_round
  Keeps-finish_round lines =
      search (bind_rules, Frame.Keeps-inner fr, Frame.Keeps-quiet fr, Frame.Keeps-send_reply fr)
        depth 24

  pub Keeps-list_round : Keeps P list_round
  unfolding list_round
  Keeps-list_round = search (bind_rules, Keeps-list_entries, Keeps-finish_round) depth 20

  pub Keeps-list_step : (rest : M ℤ) → Keeps P rest → Keeps P (list_step rest)
  unfolding list_step
  Keeps-list_step rest k = search (bind_rules, Keeps-list_round) depth 12

  pub Keeps-list_loop : (fuel : ℕ) → Keeps P (list_loop fuel)
  unfolding list_loop
  Keeps-list_loop zero = Keeps-pure _
  Keeps-list_loop (suc fuel) = Keeps-list_step _ (Keeps-list_loop fuel)

  pub Keeps-list_send_work : Keeps P list_send_work
  unfolding list_send_work
  Keeps-list_send_work = search (bind_rules, Keeps-list_loop) depth 16
